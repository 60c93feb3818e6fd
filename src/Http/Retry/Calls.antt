-- ===== src/Http/Retry/Calls.antt =====
-- How often `request_with_retry` calls, and what ends it.
use native.Mathlib.Decide.{dec_lt}
use content_ops.Prelude.{
  nat_eq, ℕ, zero, suc, ◌+◌, ◌≤◌, ◌<◌, ◌≡◌, refl, subst, ◌⊎◌, inl, inr, true, Option, none, some,
  [], arith,
}
use content_ops.Http.Retry.{
  connect_timeout, pool_timeout, connect_error, pos, negsuc, Header, absent, seconds, not_a_number,
  http_date, unreadable, Attempt, answered, failed, parse_retry_after, Pause, lasting, nan_pause,
  longer_wait, Policy, non_idempotent_status, non_idempotent_exception, non_idempotent_policy,
  attempt_of, sleep_failed, Run, slept, backoff, retry_wait, retry_loop, request_with_retry,
}

-- The server cannot have acted on the request.
abbrev pub NotProcessed : Attempt → Type 0
NotProcessed (answered response) = response.status_code ≡ 429
NotProcessed (failed connect_error) = Unit
NotProcessed (failed connect_timeout) = Unit
NotProcessed (failed pool_timeout) = Unit
NotProcessed (failed _) = ⊥

longer_wait-lasting :
    (h : Header) (b wait : ℕ)
    → longer_wait (parse_retry_after h) b ≡ lasting wait
    → ¬ (h ≡ not_a_number)
unfolding longer_wait parse_retry_after
longer_wait-lasting h b wait e k = ground (arith, e, k)

longer_wait-nan :
    (h : Header) (b : ℕ) → longer_wait (parse_retry_after h) b ≡ nan_pause → h ≡ not_a_number
unfolding longer_wait parse_retry_after
longer_wait-nan absent b e = cc
longer_wait-nan (seconds (pos n)) b e = cc
longer_wait-nan (seconds (negsuc n)) b e = cc
longer_wait-nan not_a_number b e = refl
longer_wait-nan (http_date (pos n)) b e = cc
longer_wait-nan (http_date (negsuc n)) b e = cc
longer_wait-nan unreadable b e = cc

-- What the loop waits for.
pub Wait-cases :
    (w : Option Pause)
    → (w ≡ none) ⊎ (((wait : ℕ) × (w ≡ some (lasting wait))) ⊎ (w ≡ some nan_pause))
Wait-cases none = inl refl
Wait-cases (some (lasting wait)) = inr (inl (wait, refl))
Wait-cases (some nan_pause) = inr (inr refl)

module _ (policy : Policy) (do_request : ℕ → Attempt) where
  -- The attempt is one that the policy retries.
  abbrev pub Retries : Attempt → Type 0
  Retries (failed fault) = policy.retry_exception fault ≡ true
  Retries (answered response) = policy.retry_status response.status_code ≡ true

  -- The attempt's answer asks for a wait of `nan`.
  abbrev pub AsksNan : Attempt → Type 0
  AsksNan (answered response) = response.retry_after ≡ not_a_number
  AsksNan (failed fault) = ⊥

  -- How the last attempt ends the run: as the result, or by a wait that `sleep` refuses.
  abbrev pub Concludes : (max_retries last : ℕ) → Run → Type 0
  Concludes max_retries last r =
      ((r.outcome ≡ attempt_of (do_request last))
        × ((last ≡ max_retries) ⊎ (¬ Retries (do_request last))))
      ⊎ ((r.outcome ≡ sleep_failed)
          × (last < max_retries)
          × Retries (do_request last)
          × AsksNan (do_request last))

  -- The attempts from the first number on, up to the end of the run.
  record Ends (first bound : ℕ) (r : Run) : Type 0 where
    last : ℕ
    in_order : first ≤ last
    calls_made : r.calls ≡ last + 1
    retried : (i : ℕ) → first ≤ i → i < last → Retries (do_request i) × (¬ AsksNan (do_request i))
    bounded : last ≤ bound
    concluded : Concludes bound last r

  wait-Retries :
      (attempts : ℕ) (wait : Pause) (a : Attempt)
      → retry_wait policy do_request attempts a ≡ some wait
      → Retries a
  unfolding retry_wait
  wait-Retries attempts wait (failed fault) e = ground arith
  wait-Retries attempts wait (answered response) e = ground arith

  lasting_asks :
      (attempts wait : ℕ) (a : Attempt)
      → retry_wait policy do_request attempts a ≡ some (lasting wait)
      → ¬ AsksNan a
  unfolding retry_wait
  lasting_asks attempts wait (failed fault) e h = h
  lasting_asks attempts wait (answered response) e h =
      longer_wait-lasting response.retry_after (backoff (attempts + 1)) wait (ground (arith, e)) h

  nan_asks :
      (attempts : ℕ) (a : Attempt)
      → retry_wait policy do_request attempts a ≡ some nan_pause
      → AsksNan a
  unfolding retry_wait
  nan_asks attempts (failed fault) e = ground (arith, e)
  nan_asks attempts (answered response) e =
      longer_wait-nan response.retry_after (backoff (attempts + 1)) (ground (arith, e))

  no_wait :
      (attempts : ℕ) (a : Attempt) → retry_wait policy do_request attempts a ≡ none → ¬ Retries a
  unfolding retry_wait
  no_wait attempts (failed fault) e h = ground arith
  no_wait attempts (answered response) e h = ground arith

  pub loop_stops :
      (left attempts : ℕ)
      → retry_wait policy do_request attempts (do_request attempts) ≡ none
      → retry_loop policy do_request (suc left) attempts
        ≡ record { outcome = attempt_of (do_request attempts); calls = attempts + 1; sleeps = [] }
  unfolding retry_loop
  loop_stops left attempts e = rw (e, retry_loop) refl

  pub loop_goes :
      (left attempts wait : ℕ)
      → retry_wait policy do_request attempts (do_request attempts) ≡ some (lasting wait)
      → retry_loop policy do_request (suc left) attempts
        ≡ slept wait (retry_loop policy do_request left (attempts + 1))
  unfolding retry_loop
  loop_goes left attempts wait e = rw (e, retry_loop) refl

  pub loop_breaks :
      (left attempts : ℕ)
      → retry_wait policy do_request attempts (do_request attempts) ≡ some nan_pause
      → retry_loop policy do_request (suc left) attempts
        ≡ record { outcome = sleep_failed; calls = attempts + 1; sleeps = [] }
  unfolding retry_loop
  loop_breaks left attempts e = rw (e, retry_loop) refl

  later-Ends :
      (left attempts wait : ℕ)
      → Retries (do_request attempts) × (¬ AsksNan (do_request attempts))
      → Ends (attempts + 1) (attempts + 1 + left) (retry_loop policy do_request left (attempts + 1))
      → Ends attempts
          (attempts + suc left)
          (slept wait (retry_loop policy do_request left (attempts + 1)))
  later-Ends left attempts wait now e = record {
    last = e.last;
    in_order = omega (arith, e.in_order);
    calls_made = e.calls_made;
    retried = λ i l h. elim (dec_lt attempts i) [
      | yes more ↦ e.retried i (omega arith) h
      | no first ↦ let same : i ≡ attempts = omega arith in rw same now
    ];
    bounded = omega (arith, e.bounded);
    concluded =
        let same : attempts + 1 + left ≡ attempts + suc left = omega arith in
        subst (λ b. Concludes b e.last (retry_loop policy do_request left (attempts + 1))) same
          e.concluded;
  }

  loop-Ends :
      (left attempts : ℕ)
      → Ends attempts (attempts + left) (retry_loop policy do_request left attempts)
  loop-Ends zero attempts =
      unfold retry_loop in
      record {
        last = attempts;
        in_order = omega arith;
        calls_made = refl;
        retried = λ i l h. absurd (omega arith);
        bounded = omega arith;
        concluded = inl (refl, inl (omega arith));
      }
  loop-Ends (suc left) attempts =
      elim (Wait-cases (retry_wait policy do_request attempts (do_request attempts))) [
        | inl settled ↦ rw (loop_stops left attempts settled) (record {
          last = attempts;
          in_order = omega arith;
          calls_made = refl;
          retried = λ i l h. absurd (omega arith);
          bounded = omega arith;
          concluded = inl (refl, inr (no_wait attempts (do_request attempts) settled));
        })
        | inr (inl (wait, retried)) ↦ rw (loop_goes left attempts wait retried) (
            later-Ends left attempts wait
              (
                wait-Retries attempts (lasting wait) (do_request attempts) retried,
                lasting_asks attempts wait (do_request attempts) retried,
              )
              (loop-Ends left (attempts + 1)))
        | inr (inr broken) ↦ rw (loop_breaks left attempts broken) (record {
          last = attempts;
          in_order = omega arith;
          calls_made = refl;
          retried = λ i l h. absurd (omega arith);
          bounded = omega arith;
          concluded = inr (
            refl,
            omega arith,
            wait-Retries attempts nan_pause (do_request attempts) broken,
            nan_asks attempts (do_request attempts) broken,
          );
        })
      ]

  -- The run makes at most `max_retries` + 1 attempts, and every attempt before the last is one that
  -- the policy retries, not answered with a Retry-After of `nan`. It returns or raises what its last
  -- attempt does, which the policy does not retry unless it is attempt number `max_retries` + 1; or
  -- it raises since the last attempt, one that is to be retried, was answered with a Retry-After of
  -- `nan`, for which `sleep` raises.
  pub request_with_retry_calls :
      (max_retries : ℕ)
      → let r = request_with_retry policy do_request max_retries in
        (last : ℕ) × (r.calls ≡ last + 1)
        × (last ≤ max_retries)
        × ((i : ℕ) → i < last → Retries (do_request i) × (¬ AsksNan (do_request i)))
        × Concludes max_retries last r
  unfolding request_with_retry
  request_with_retry_calls max_retries =
      let e = loop-Ends max_retries 0 in
      (
        e.last,
        e.calls_made,
        omega (arith, e.bounded),
        λ i h. e.retried i (omega arith) h,
        subst (λ b. Concludes b e.last (retry_loop policy do_request max_retries 0))
            (let whole : 0 + max_retries ≡ max_retries = omega arith in whole) e.concluded,
      )

Retries-only : (a : Attempt) → Retries non_idempotent_policy (λ _. a) a → NotProcessed a
unfolding non_idempotent_status non_idempotent_exception
Retries-only (answered response) h = ground (arith, (nat_eq.equal_iff 429 response.status_code).0)
Retries-only (failed connect_error) h = tt
Retries-only (failed connect_timeout) h = tt
Retries-only (failed pool_timeout) h = tt
Retries-only (failed _) h = cc h

-- Under the policy for calls that are not idempotent, each attempt that is followed by another one
-- was answered 429 or failed before the request could be sent: a server error or a lost answer is
-- never replayed.
pub non_idempotent_replays :
    (do_request : ℕ → Attempt) (max_retries i : ℕ)
    → i + 1 < (request_with_retry non_idempotent_policy do_request max_retries).calls
    → NotProcessed (do_request i)
non_idempotent_replays do_request max_retries i h =
    let (last, calls, bounded, retried, concluded) =
      request_with_retry_calls non_idempotent_policy do_request max_retries in
    Retries-only (do_request i) (retried i (omega arith)).0
