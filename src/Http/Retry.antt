-- ===== src/Http/Retry.antt =====
-- `parse_retry_after` and `request_with_retry` of contentops/utils/http_retry.py. Waits are in
-- milliseconds. `do_request` is a function of the number of the call, from 0; the result lists the
-- waits that `sleep` was asked for.
pub mod Calls
pub mod Waits
use Prim.Native.Nat.{max, min}
use content_ops.Prelude.{
  if◌then◌else◌, contains, ℕ, zero, suc, ◌+◌, ◌*◌, ◌^◌, Bool, true, false, Option, none, some, List,
  [], ◌∷◌, string_eq, nat_eq, option_eq, pair_eq, option_eq, pair_eq, ◌==◌,
}

-- The httpx exceptions by class.
pub data Fault : Type 0 where
  connect_timeout read_timeout write_timeout pool_timeout : Fault
  connect_error read_error write_error close_error : Fault
  remote_protocol_error local_protocol_error unsupported_protocol other_fault : Fault

-- A duration that may be negative: `negsuc n` is -(n + 1) milliseconds.
pub data ℤ : Type 0 where
  pos : ℕ → ℤ
  negsuc : ℕ → ℤ

-- The Retry-After header: absent or empty, a number of seconds, `nan`, which `float` reads too, a date
-- that lies so far ahead, or anything else.
pub data Header : Type 0 where
  absent : Header
  seconds : ℤ → Header
  not_a_number : Header
  http_date : ℤ → Header
  unreadable : Header

pub record Response : Type 0 where
  pub status_code : ℕ
  pub retry_after : Header

-- What one call of `do_request` does.
pub data Attempt : Type 0 where
  answered : Response → Attempt
  failed : Fault → Attempt

abbrev pub max_retry_after : ℕ
max_retry_after = 120000

abbrev pub capped : ℤ → ℤ
capped (pos n) = pos (min n max_retry_after)
capped (negsuc n) = negsuc n

abbrev pub at_least_zero : ℤ → ℤ
at_least_zero (pos n) = pos n
at_least_zero (negsuc n) = pos 0

-- A float: a duration, or `nan`, which `min` and `max` pass on.
pub data Float : Type 0 where
  number : ℤ → Float
  nan : Float

unfoldable pub parse_retry_after : Header → Option Float
parse_retry_after absent = none
parse_retry_after (seconds z) = some (number (capped z))
parse_retry_after not_a_number = some nan
parse_retry_after (http_date z) = some (number (capped (at_least_zero z)))
parse_retry_after unreadable = none

-- What `sleep` is asked for
pub data Pause : Type 0 where
  lasting : ℕ → Pause
  nan_pause : Pause

-- `max(header_wait or 0.0, float(backoff))`
unfoldable pub longer_wait : Option Float → ℕ → Pause
longer_wait (some (number (pos n))) backoff = lasting (max n backoff)
longer_wait (some (number (negsuc n))) backoff = lasting backoff
longer_wait (some nan) backoff = nan_pause
longer_wait none backoff = lasting backoff

-- `retry_status` and `retry_exceptions`
pub record Policy : Type 0 where
  pub retry_status : ℕ → Bool
  pub retry_exception : Fault → Bool

unfoldable pub retryable_status : ℕ → Bool
unfolding contains
retryable_status code = contains code (429 ∷ 500 ∷ 502 ∷ 503 ∷ 504 ∷ [])

unfoldable pub retryable_exception : Fault → Bool
retryable_exception local_protocol_error = false
retryable_exception unsupported_protocol = false
retryable_exception other_fault = false
retryable_exception _ = true

abbrev pub default_policy : Policy
default_policy = record { retry_status = retryable_status; retry_exception = retryable_exception }

unfoldable pub non_idempotent_status : ℕ → Bool
unfolding contains
non_idempotent_status code = contains code (429 ∷ [])

unfoldable pub non_idempotent_exception : Fault → Bool
non_idempotent_exception connect_error = true
non_idempotent_exception connect_timeout = true
non_idempotent_exception pool_timeout = true
non_idempotent_exception _ = false

abbrev pub non_idempotent_policy : Policy
non_idempotent_policy = record {
  retry_status = non_idempotent_status;
  retry_exception = non_idempotent_exception;
}

-- The call returns or raises what its last attempt does, or `sleep` raises ValueError.
pub data Outcome : Type 0 where
  attempt_of : Attempt → Outcome
  sleep_failed : Outcome

pub record Run : Type 0 where
  pub outcome : Outcome
  pub calls : ℕ
  pub sleeps : List ℕ

abbrev pub slept : ℕ → Run → Run
slept wait rest = record rest { sleeps = wait ∷ rest.sleeps }

-- `2 ** attempts` seconds
abbrev pub backoff : ℕ → ℕ
backoff attempts = 2 ^ attempts * 1000

module _ (policy : Policy) (do_request : ℕ → Attempt) where
  -- The wait before the next attempt, or none where the loop ends.
  unfoldable pub retry_wait : ℕ → Attempt → Option Pause
  unfolding longer_wait parse_retry_after
  retry_wait attempts (failed fault) =
      if policy.retry_exception fault then some (lasting (backoff (attempts + 1))) else none
  retry_wait attempts (answered response) =
      if policy.retry_status response.status_code
      then some (longer_wait (parse_retry_after response.retry_after) (backoff (attempts + 1)))
      else none

  -- The loop after `attempts` retries, with `left` more allowed.
  unfoldable pub retry_loop : (left attempts : ℕ) → Run
  retry_loop zero attempts = record {
    outcome = attempt_of (do_request attempts);
    calls = attempts + 1;
    sleeps = [];
  }
  retry_loop (suc left) attempts =
      let rest = retry_loop left (attempts + 1) in
      elim (retry_wait attempts (do_request attempts)) [
        | none ↦ record {
          outcome = attempt_of (do_request attempts);
          calls = attempts + 1;
          sleeps = [];
        }
        | some (lasting wait) ↦ slept wait rest
        | some nan_pause ↦ record { outcome = sleep_failed; calls = attempts + 1; sleeps = [] }
      ]

  unfoldable pub request_with_retry : (max_retries : ℕ) → Run
  unfolding retry_loop
  request_with_retry max_retries = retry_loop max_retries 0
