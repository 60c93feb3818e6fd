-- ===== src/Audit/Write/Races.antt =====
-- Several writers: what `write_records_with_retry` makes of collisions.
use native.Mathlib.Decide.{dec_lt}
use content_ops.Prelude.{
  ltb, if◌then◌else◌, Bool-cases, Option-cases, ◌==◌, ℕ, zero, suc, ◌+◌, ◌≤◌, ◌<◌, String, ◌≡◌,
  refl, ◌∙◌, inl, inr, false, some, List, map, arith, string_eq, nat_eq, option_eq, pair_eq,
  option_eq, pair_eq,
}
use content_ops.Audit.Record.{Codec, AuditRecord, to_json}
use content_ops.Audit.Tail.{Content, Log, last_record_tail}
use text.Mathlib.TextEquality.{eq_iff}
use content_ops.Audit.Chain.{chain_records}
use content_ops.Audit.Chain.Links.{given, IsLinked, chain_records_links}
use content_ops.Audit.Write.{
  concurrent_write, attribute_failure, decode_failure, overflow_failure, os_error, value_error,
  Outcome, written, raised, tail_hash, tail_timestamp, failure, Views, existing_bytes, with_new,
  replace_file, guarded_replace, write_records, attempts_from, write_records_with_retry,
}

module _ (c : Codec) (today : String) (records : List AuditRecord) (views : ℕ → Views c) where
  -- The attempt with this number lost the race.
  abbrev pub Collides : ℕ → Type 0
  Collides i = write_records c today records (views i) ≡ raised concurrent_write

  attempt_settles :
      (left nth : ℕ)
      → ¬ Collides nth
      → attempts_from c (suc left) nth today records views
        ≡ write_records c today records (views nth)
  unfolding attempts_from
  attempt_settles left nth h = settles (write_records c today records (views nth)) refl
    where
      settles :
          (o : Outcome (Log c))
          → write_records c today records (views nth) ≡ o
          → attempts_from c (suc left) nth today records views ≡ o
      settles (written log) e = rw (e, attempts_from) refl
      settles (raised concurrent_write) e = absurd (h e)
      settles (raised attribute_failure) e = rw (e, attempts_from) refl
      settles (raised decode_failure) e = rw (e, attempts_from) refl
      settles (raised overflow_failure) e = rw (e, attempts_from) refl
      settles (raised os_error) e = rw (e, attempts_from) refl
      settles (raised value_error) e = rw (e, attempts_from) refl

  attempt-Collides :
      (left nth : ℕ)
      → Collides nth
      → attempts_from c (suc left) nth today records views
        ≡ attempts_from c left (nth + 1) today records views
  unfolding attempts_from
  attempt-Collides left nth h = rw (h, attempts_from) refl

  first_settled :
      (left nth n : ℕ)
      → nth ≤ n
      → n < nth + left
      → ((i : ℕ) → nth ≤ i → i < n → Collides i)
      → ¬ Collides n
      → attempts_from c left nth today records views ≡ write_records c today records (views n)
  first_settled zero nth n low high lost kept = absurd (omega arith)
  first_settled (suc left) nth n low high lost kept = elim (dec_lt nth n) [
    | yes more ↦
        attempt-Collides left nth (lost nth (omega arith) more)
        ∙ first_settled left (nth + 1) n (omega arith) (omega arith)
            (λ i l h. lost i (omega arith) h) kept
    | no done ↦ let e : n ≡ nth = omega arith in rw e (attempt_settles left nth (rw e at kept))
  ]

  all_collide :
      (left nth : ℕ)
      → ((i : ℕ) → nth ≤ i → i < nth + left → Collides i)
      → attempts_from c left nth today records views ≡ raised concurrent_write
  all_collide zero nth lost = unfold attempts_from in refl
  all_collide (suc left) nth lost =
      attempt-Collides left nth (lost nth (omega arith) (omega arith))
      ∙ all_collide left (nth + 1) (λ i l h. lost i (omega arith) (omega arith))

  -- The outcome is that of the first attempt that does not lose the race, if that is among the
  -- attempts.
  pub write_records_with_retry_settles :
      (attempts n : ℕ)
      → n < attempts
      → ((i : ℕ) → i < n → Collides i)
      → ¬ Collides n
      → write_records_with_retry c attempts today records views
        ≡ write_records c today records (views n)
  unfolding write_records_with_retry
  write_records_with_retry_settles attempts n h lost kept =
      let tested : ltb attempts 1 ≡ false = ground arith in
      rw tested (first_settled attempts 0 n (omega arith) (omega arith) (λ i l k. lost i k) kept)

  -- If every attempt loses the race, and there is one, AuditConcurrentWriteError is raised; with no
  -- attempt it is ValueError.
  pub write_records_with_retry_gives_up :
      (attempts : ℕ)
      → ((i : ℕ) → i < attempts → Collides i)
      → write_records_with_retry c attempts today records views
        ≡ raised (if ltb attempts 1 then value_error else concurrent_write)
  unfolding write_records_with_retry
  write_records_with_retry_gives_up attempts lost = elim (Bool-cases (ltb attempts 1)) [
    | inl few ↦ rw few refl
    | inr enough ↦ rw enough (all_collide attempts 0 (λ i l h. lost i (omega arith)))
  ]

written_parts :
    (c : Codec) (today : String) (records : List AuditRecord) (v : Views c) (log : Log c)
    → write_records c today records v ≡ written log
    → let tail = last_record_tail c v.at_tail in
      (chained : List AuditRecord) × (new : Content c.Line) × (chain_records c records
          (tail_hash tail)
          (tail_timestamp tail)
        ≡ some chained)
      × (with_new c (existing_bytes c today v.at_existing) (map (to_json c) chained) ≡ some new)
      × (log ≡ replace_file c today new v.at_replace)
      × (tail_hash (last_record_tail c v.at_check) ≡ tail_hash tail)
unfolding write_records guarded_replace
written_parts c today records v log e =
    let tail = last_record_tail c v.at_tail in
    let old = existing_bytes c today v.at_existing in
    elim (Option-cases (failure tail)) [
      | inr (raises, f) ↦ ground (arith, e, f)
      | inl f ↦
          elim (Option-cases (chain_records c records (tail_hash tail) (tail_timestamp tail))) [
            | inl over ↦ ground (arith, e, f, over)
            | inr (chained, made) ↦ elim (Option-cases (with_new c old (map (to_json c) chained))) [
              | inl unread ↦ ground (arith, e, f, made, unread)
              | inr (new, whole) ↦
                  let current = last_record_tail c v.at_check in
                  elim (Option-cases (failure current)) [
                    | inr (raises, g) ↦ ground (arith, e, f, made, whole, g)
                    | inl g ↦ elim (Bool-cases (tail_hash current == tail_hash tail)) [
                      | inr moved ↦ ground (arith, e, f, made, whole, g, moved)
                      | inl agreed ↦ (
                        chained,
                        new,
                        made,
                        whole,
                        ground (arith, e, f, made, whole, g, agreed),
                        (eq_iff (tail_hash current) (tail_hash tail)).0 agreed,
                      )
                    ]
                  ]
            ]
          ]
    ]

-- A batch is written only if its first record carries the hash of the tail at the check: then today's
-- file has the bytes read from it followed by the lines of the chained batch, which has the records
-- that were given, each linked to the one before. Where the bytes read do not end with a newline, the
-- first line continues their last.
pub write_records_guard :
    (c : Codec) (today : String) (records : List AuditRecord) (v : Views c) (log : Log c)
    → write_records c today records v ≡ written log
    → (chained : List AuditRecord) × (new : Content c.Line) × (with_new c
          (existing_bytes c today v.at_existing)
          (map (to_json c) chained)
        ≡ some new)
      × (log ≡ replace_file c today new v.at_replace)
      × IsLinked c (tail_hash (last_record_tail c v.at_check)) chained
      × (map given chained ≡ map given records)
write_records_guard c today records v log e =
    let tail = last_record_tail c v.at_tail in
    let (chained, new, made, whole, replaced, agreed) = written_parts c today records v log e in
    let (links, kept) =
      chain_records_links c records (tail_hash tail) (tail_timestamp tail) chained made in
    (chained, new, whole, replaced, rw agreed links, kept)
