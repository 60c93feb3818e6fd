-- ===== src/Audit/Chain.antt =====
-- `_monotonic_timestamp` and `_chain_records` of contentops/audit/writer.py.
pub mod Links
pub mod Times
use content_ops.Prelude.{
  ltb, if◌then◌else◌, nonempty, text_ltb, ◌+◌, String, ◌||◌, not, Option, none, some, List, [], ◌∷◌,
}
use content_ops.Audit.Record.{Codec, AuditRecord, compute_record_hash}

module _ (c : Codec) where
  -- None where adding a microsecond raises OverflowError, at the end of the last year.
  unfoldable pub monotonic_timestamp : (prev_ts candidate : String) → Option String
  monotonic_timestamp prev_ts candidate =
      if not (nonempty prev_ts) || text_ltb prev_ts candidate
      then some candidate
      else elim (c.parse_time prev_ts) [
        | none ↦ some candidate
        | some t ↦ if ltb t c.last_time then some (c.format_time (t + 1)) else none
      ]

  -- The record with its timestamp, `prev_hash` and `record_hash` set.
  unfoldable pub chain_one : (prev_hash timestamp : String) → AuditRecord → AuditRecord
  chain_one prev_hash timestamp r =
      let with_prev = record r { timestamp = timestamp; prev_hash = prev_hash; record_hash = "" } in
      record with_prev { record_hash = compute_record_hash c with_prev }

  -- One round of the loop, at the timestamp that was found, with the rounds that follow.
  abbrev pub chain_at :
      AuditRecord
      → Option String
      → (prev_hash : String) → (AuditRecord → Option (List AuditRecord))
      → Option (List AuditRecord)
  chain_at r none prev_hash later = none
  chain_at r (some timestamp) prev_hash later =
      let chained = chain_one prev_hash timestamp r in
      elim (later chained) [ none ↦ none | some rest ↦ some (chained ∷ rest) ]

  -- None where a round raises.
  unfoldable pub chain_records :
      List AuditRecord → (prev_hash prev_timestamp : String) → Option (List AuditRecord)
  unfolding chain_one monotonic_timestamp
  chain_records [] prev_hash prev_timestamp = some []
  chain_records (r ∷ rest) prev_hash prev_timestamp =
      chain_at r (monotonic_timestamp prev_timestamp r.timestamp) prev_hash
        λ chained. chain_records rest chained.record_hash chained.timestamp
