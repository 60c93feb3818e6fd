-- ===== src/Audit/Chain/Links.antt =====
-- The hashes that `_chain_records` sets.
use mathlib.Core.Option.{some_inj}
use content_ops.Prelude.{
  Option-cases, String, ◌≡◌, refl, sym, ap, subst, inl, inr, some, List, [], ◌∷◌, map, arith,
}
use content_ops.Audit.Record.{Codec, AuditRecord, unhashed_fields, compute_record_hash}
use content_ops.Audit.Chain.{monotonic_timestamp, chain_one, chain_records}

-- What the caller gave, without the fields that the chain sets.
abbrev pub given : AuditRecord → AuditRecord
given r = record r { timestamp = ""; prev_hash = ""; record_hash = "" }

module _ (c : Codec) where
  -- Each record carries the hash of the one before it, and its own.
  abbrev pub IsLinked : String → List AuditRecord → Type 0
  IsLinked prev [] = Unit
  IsLinked prev (r ∷ rest) =
      (r.prev_hash ≡ prev) × (r.record_hash ≡ compute_record_hash c r) × IsLinked r.record_hash rest

  -- A chain that was made has a first record, at some timestamp, and the chain of the others.
  pub chained_parts :
      (r : AuditRecord) (rs : List AuditRecord) (prev_hash prev_ts : String)
      (chained : List AuditRecord)
      → chain_records c (r ∷ rs) prev_hash prev_ts ≡ some chained
      → (ts : String) × (rest : List AuditRecord) × (monotonic_timestamp c prev_ts r.timestamp
          ≡ some ts)
        × (chain_records c rs (chain_one c prev_hash ts r).record_hash ts ≡ some rest)
        × (chained ≡ chain_one c prev_hash ts r ∷ rest)
  unfolding chain_records
  chained_parts r rs prev_hash prev_ts chained e =
      elim (Option-cases (monotonic_timestamp c prev_ts r.timestamp)) [
        | inl over ↦ ground (arith, e, over)
        | inr (ts, found) ↦
            let one = chain_one c prev_hash ts r in
            elim (Option-cases (chain_records c rs one.record_hash ts)) [
              | inl over ↦ ground (arith, e, found, over)
              | inr (rest, there) ↦ (ts, rest, found, there, ground (arith, e, found, there))
            ]
      ]

  -- The chained records are the given ones, in their order, with every field but the timestamp and
  -- the two hashes unchanged; the first carries the hash that the chain starts from, each next one
  -- the `record_hash` of the record before it, and each `record_hash` is that of the record itself.
  pub chain_records_links :
      (rs : List AuditRecord) (prev_hash prev_ts : String) (chained : List AuditRecord)
      → chain_records c rs prev_hash prev_ts ≡ some chained
      → IsLinked prev_hash chained × (map given chained ≡ map given rs)
  unfolding chain_records chain_one compute_record_hash unhashed_fields
  chain_records_links [] prev_hash prev_ts chained e =
      subst (λ (l : List AuditRecord). IsLinked prev_hash l × (map given l ≡ [])) (some_inj.0 e)
        (tt, refl)
  chain_records_links (r ∷ rs) prev_hash prev_ts chained e =
      let (ts, rest, found, there, whole) = chained_parts r rs prev_hash prev_ts chained e in
      let one = chain_one c prev_hash ts r in
      let (linked, kept) = chain_records_links rs one.record_hash ts rest there in
      subst (λ (l : List AuditRecord). IsLinked prev_hash l × (map given l ≡ map given (r ∷ rs)))
        (sym whole) ((refl, refl, linked), ap (λ l. given r ∷ l) kept)
