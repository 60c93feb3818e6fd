-- ===== src/Audit/Chain/Times.antt =====
-- The timestamps that `_chain_records` sets.
use native.Mathlib.Decide.{dec_lt}
use content_ops.Prelude.{
  ltb, Bool-cases, nonempty, length, All, All-imp, text_ltb, text_asym, text_irrefl, ℕ, suc, ◌+◌,
  ◌≤◌, ◌<◌, String, ◌≡◌, refl, ap, ◌⊎◌, inl, inr, true, false, some, List, [], ◌∷◌, arith,
}
use content_ops.Audit.Record.{Codec, AuditRecord, IsInstant, IsCodec}
use content_ops.Audit.Chain.{monotonic_timestamp, chain_one, chain_records}

-- Each timestamp is later than the one before it, and the first than `prev` if there is one.
abbrev pub IsIncreasing : String → List AuditRecord → Type 0
IsIncreasing prev [] = Unit
IsIncreasing prev (r ∷ rest) =
    (nonempty prev ≡ true → text_ltb prev r.timestamp ≡ true) × IsIncreasing r.timestamp rest

-- No timestamp is earlier than the one that was given.
abbrev pub NotEarlier : List AuditRecord → List AuditRecord → Type 0
NotEarlier [] [] = Unit
NotEarlier (r ∷ rs) (r' ∷ rs') = (text_ltb r'.timestamp r.timestamp ≡ false) × NotEarlier rs rs'
NotEarlier _ _ = ⊥

module _ (c : Codec) where
  -- A timestamp in the pipeline's format, with this many microseconds to come after it.
  abbrev pub HasRoom : ℕ → String → Type 0
  HasRoom n s = (t : ℕ) × (c.first_time ≤ t) × (t + n ≤ c.last_time) × (s ≡ c.format_time t)

  -- A timestamp in the pipeline's format
  abbrev pub IsTime : String → Type 0
  IsTime s = HasRoom 0 s

  less_room : (n : ℕ) (s : String) → HasRoom (suc n) s → HasRoom n s
  less_room n s (t, low, high, e) = (t, low, omega (arith, high), e)

  pub HasRoom-IsTime : (n : ℕ) (s : String) → HasRoom n s → IsTime s
  HasRoom-IsTime n s (t, low, high, e) = (t, low, omega (arith, high), e)

  module _ (laws : IsCodec c) where
    open laws use {parse-format, format_nonempty, format_lt}

    kept :
        (t u : ℕ)
        → text_ltb (c.format_time t) (c.format_time u) ≡ true
        → monotonic_timestamp c (c.format_time t) (c.format_time u) ≡ some (c.format_time u)
    unfolding monotonic_timestamp
    kept t u h = rw (h, format_nonempty t) refl

    fresh :
        (prev candidate : String)
        → prev ≡ ""
        → monotonic_timestamp c prev candidate ≡ some candidate
    unfolding monotonic_timestamp
    fresh prev candidate e = rw e refl

    bumped :
        (t u : ℕ)
        → IsInstant c t
        → t < c.last_time
        → text_ltb (c.format_time t) (c.format_time u) ≡ false
        → monotonic_timestamp c (c.format_time t) (c.format_time u) ≡ some (c.format_time (t + 1))
    unfolding monotonic_timestamp
    bumped t u i room h =
        let tested : ltb t c.last_time ≡ true = ground (arith, room) in
        rw (h, format_nonempty t) (rw (parse-format t i) (rw tested refl))

    instants :
        (t u : ℕ)
        → IsInstant c t
        → IsInstant c u
        → text_ltb (c.format_time t) (c.format_time u) ≡ false
        → u < t + 1
    instants t u i j h = elim (dec_lt t u) [
      | yes p ↦ cc (h, format_lt t u i j p)
      | no p ↦ omega arith
    ]

    -- What one round does to a timestamp in the format: it leaves room for the rounds that follow.
    record Advances (n : ℕ) (prev candidate : String) : Type 0 where
      next : String
      found : monotonic_timestamp c prev candidate ≡ some next
      in_format : HasRoom n next
      later : nonempty prev ≡ true → text_ltb prev next ≡ true
      not_earlier : text_ltb next candidate ≡ false

    Advances-formatted :
        (n t u : ℕ)
        → c.first_time ≤ t
        → c.first_time ≤ u
        → t + suc n ≤ c.last_time
        → u + suc n ≤ c.last_time
        → Advances n (c.format_time t) (c.format_time u)
    Advances-formatted n t u tl ul th uh =
        elim (Bool-cases (text_ltb (c.format_time t) (c.format_time u))) [
          | inl less ↦ record {
            next = c.format_time u;
            found = kept t u less;
            in_format = (u, ul, omega (arith, uh), refl);
            later = λ _. less;
            not_earlier = text_irrefl (c.format_time u);
          }
          | inr not_less ↦
              let it : IsInstant c t = (tl, omega (arith, th)) in
              let iu : IsInstant c u = (ul, omega (arith, uh)) in
              let is : IsInstant c (t + 1) = (omega (arith, tl), omega (arith, th)) in
              record {
                next = c.format_time (t + 1);
                found = bumped t u it (omega (arith, th)) not_less;
                in_format = (t + 1, omega (arith, tl), omega (arith, th), refl);
                later = λ _. format_lt t (t + 1) it is (omega arith);
                not_earlier =
                    text_asym (c.format_time u) (c.format_time (t + 1))
                      (format_lt u (t + 1) iu is (instants t u it iu not_less));
              }
        ]

    advances :
        (n : ℕ) (prev candidate : String)
        → (prev ≡ "") ⊎ HasRoom (suc n) prev
        → HasRoom (suc n) candidate
        → Advances n prev candidate
    advances n prev candidate (inl e) room = record {
      next = candidate;
      found = fresh prev candidate e;
      in_format = less_room n candidate room;
      later = λ h. cc (h, ap nonempty e);
      not_earlier = text_irrefl candidate;
    }
    advances n prev candidate (inr (t, tl, th, e)) (u, ul, uh, f) =
        rw (e, f) (Advances-formatted n t u tl ul th uh)

    pub chain_times :
        (rs : List AuditRecord) (prev_hash prev_ts : String)
        → (prev_ts ≡ "") ⊎ HasRoom (length rs) prev_ts
        → All (λ r. HasRoom (length rs) r.timestamp) rs
        → (chained : List AuditRecord) × (chain_records c rs prev_hash prev_ts ≡ some chained)
          × IsIncreasing prev_ts chained
          × NotEarlier rs chained
          × All (λ r. IsTime r.timestamp) chained
    unfolding chain_records chain_one
    chain_times [] prev_hash prev_ts p h = ([], refl, tt, tt, tt)
    chain_times (r ∷ rs) prev_hash prev_ts p h =
        let a = advances (length rs) prev_ts r.timestamp p h.0 in
        let one = chain_one c prev_hash a.next r in
        let (rest, made, increasing, not_earlier, formatted) =
          chain_times rs one.record_hash a.next (inr a.in_format)
            (All-imp _ _ rs (λ q room. less_room (length rs) q.timestamp room) h.1) in
        (
          one ∷ rest,
          rw a.found (rw made refl),
          (a.later, increasing),
          (a.not_earlier, not_earlier),
          (HasRoom-IsTime (length rs) a.next a.in_format, formatted),
        )

    -- If the timestamps, and the one that the chain starts from if there is one, are in the
    -- pipeline's format, and there are as many microseconds after each of them as records before the
    -- end of the last year, then the chain is made: each chained record is strictly later than the
    -- one before it and than the start, and no record is earlier than its own clock reading.
    pub chain_records-IsIncreasing :
        (rs : List AuditRecord) (prev_hash prev_ts : String)
        → (prev_ts ≡ "") ⊎ HasRoom (length rs) prev_ts
        → All (λ r. HasRoom (length rs) r.timestamp) rs
        → (chained : List AuditRecord) × (chain_records c rs prev_hash prev_ts ≡ some chained)
          × IsIncreasing prev_ts chained
          × NotEarlier rs chained
    chain_records-IsIncreasing rs prev_hash prev_ts p h =
        let (chained, made, increasing, later, formatted) = chain_times rs prev_hash prev_ts p h in
        (chained, made, increasing, later)
