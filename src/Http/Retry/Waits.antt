-- ===== src/Http/Retry/Waits.antt =====
-- How long `request_with_retry` waits.
use Prim.Native.Nat.{max}
use content_ops.Prelude.{length, ℕ, zero, suc, ◌+◌, ◌≤◌, ◌≡◌, inl, inr, some, List, [], ◌∷◌, arith}
use content_ops.Http.Retry.{
  pos, negsuc, Header, absent, seconds, not_a_number, http_date, unreadable, Attempt, answered,
  failed, max_retry_after, parse_retry_after, lasting, longer_wait, Policy, backoff, retry_wait,
  retry_loop, request_with_retry,
}
use content_ops.Http.Retry.Calls.{Wait-cases, loop_stops, loop_goes, loop_breaks}

-- The waits from retry number `k` on: each is at least the exponential backoff, and longer only by a
-- Retry-After of up to two minutes.
abbrev pub IsBackedOff : ℕ → List ℕ → Type 0
IsBackedOff k [] = Unit
IsBackedOff k (wait ∷ rest) =
    (backoff (k + 1) ≤ wait)
    × (wait ≤ max max_retry_after (backoff (k + 1)))
    × IsBackedOff (k + 1) rest

longer_bounds :
    (h : Header) (b wait : ℕ)
    → longer_wait (parse_retry_after h) b ≡ lasting wait
    → (b ≤ wait) × (wait ≤ max max_retry_after b)
unfolding longer_wait parse_retry_after
longer_bounds absent b wait e = ground (arith, e)
longer_bounds (seconds (pos n)) b wait e = ground (arith, e)
longer_bounds (seconds (negsuc n)) b wait e = ground (arith, e)
longer_bounds not_a_number b wait e = ground (arith, e)
longer_bounds (http_date (pos n)) b wait e = ground (arith, e)
longer_bounds (http_date (negsuc n)) b wait e = ground (arith, e)
longer_bounds unreadable b wait e = ground (arith, e)

module _ (policy : Policy) (do_request : ℕ → Attempt) where
  wait_bounds :
      (attempts wait : ℕ) (a : Attempt)
      → retry_wait policy do_request attempts a ≡ some (lasting wait)
      → (backoff (attempts + 1) ≤ wait) × (wait ≤ max max_retry_after (backoff (attempts + 1)))
  unfolding retry_wait
  wait_bounds attempts wait (failed fault) e = ground arith
  wait_bounds attempts wait (answered response) e =
      longer_bounds response.retry_after (backoff (attempts + 1)) wait (ground (arith, e))

  loop-IsBackedOff :
      (left attempts : ℕ)
      → let r = retry_loop policy do_request left attempts in
        IsBackedOff attempts r.sleeps × (attempts + length r.sleeps + 1 ≡ r.calls)
  loop-IsBackedOff zero attempts = unfold retry_loop in (tt, omega arith)
  loop-IsBackedOff (suc left) attempts =
      elim (Wait-cases (retry_wait policy do_request attempts (do_request attempts))) [
        | inl settled ↦ rw (loop_stops policy do_request left attempts settled) (tt, omega arith)
        | inr (inr broken) ↦
            rw (loop_breaks policy do_request left attempts broken) (tt, omega arith)
        | inr (inl (wait, retried)) ↦
            let (bounds, count) = loop-IsBackedOff left (attempts + 1) in
            let (low, high) = wait_bounds attempts wait (do_request attempts) retried in
            rw (loop_goes policy do_request left attempts wait retried)
              ((low, high, bounds), omega (arith, count))
      ]

  -- There is one completed wait before each attempt but the first; wait number k is at least 2 to the
  -- k seconds, and at most that or two minutes, whichever is longer, whatever the server asks for. A
  -- Retry-After of `nan` gives no wait: `sleep` raises, and no attempt follows.
  pub request_with_retry-IsBackedOff :
      (max_retries : ℕ)
      → IsBackedOff 0 (request_with_retry policy do_request max_retries).sleeps
        × (length (request_with_retry policy do_request max_retries).sleeps + 1
            ≡ (request_with_retry policy do_request max_retries).calls)
  unfolding request_with_retry
  request_with_retry-IsBackedOff max_retries =
      let (bounds, count) = loop-IsBackedOff max_retries 0 in (bounds, omega (arith, count))
