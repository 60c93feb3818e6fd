-- ===== src/Tests/AuditWrite.antt =====
-- The writers of the audit trail at sample data.
use mathlib.Core.Bool.{true≢false}
use content_ops.Prelude.{
  length, Dict, get, text_ltb, ℕ, zero, suc, ◌<◌, String, ◌≡◌, refl, sym, ap, subst, inl, Bool,
  true, false, some, List, [], map, arith, string_eq, nat_eq, option_eq, pair_eq, option_eq,
  pair_eq,
}
use content_ops.Audit.Record.{
  Json, AuditRecord, unhashed_fields, fields, to_json, compute_record_hash,
}
use content_ops.Audit.Tail.{
  Content, tail_of_fields, Log, tail_of_line, tail_of_lines, last_record_tail,
}
use content_ops.Audit.Chain.{monotonic_timestamp, chain_one, chain_records}
use content_ops.Audit.Chain.Links.{given, IsLinked}
use content_ops.Audit.Verify.{Walk, verify_chain}
use content_ops.Audit.Write.{
  concurrent_write, Outcome, written, raised, tail_hash, Views, read_file, existing_bytes, with_new,
  replace_file, guarded_replace, write_records, write_records_with_retry,
}
use content_ops.Audit.Write.Healthy.{IsHealthy, absent, alone, write_records-IsHealthy}
use content_ops.Audit.Write.Races.{
  Collides, write_records_with_retry_settles, write_records_with_retry_gives_up,
  write_records_guard,
}
use content_ops.Tests.AuditSamples.{
  sample_codec, sample_laws, sample_records, sample_records-HasRoom, sample_log, empty_log,
}

abbrev today : String
today = "2026-05-02.jsonl"

write_records-IsHealthy_example :
    (log' : Log sample_codec) × (write_records sample_codec today sample_records
        (alone sample_codec empty_log)
      ≡ written log')
    × IsHealthy sample_codec log'
    × ((w : Walk) × (verify_chain sample_codec log' ≡ some w) × (length w.breaks ≡ 0))
unfolding tail_of_lines
write_records-IsHealthy_example =
    write_records-IsHealthy sample_codec sample_laws today sample_records empty_log
      (tt, record { chain = tt; agrees = (refl, refl); time = inl refl }) absent (inl refl)
      sample_records-HasRoom

-- The first attempt finds another record at the check; the second is undisturbed.
abbrev views : ℕ → Views sample_codec
views zero = record {
  at_tail = empty_log;
  at_existing = empty_log;
  at_check = sample_log;
  at_replace = sample_log;
}
views (suc n) = alone sample_codec sample_log

lost : write_records sample_codec today sample_records (views 0) ≡ raised concurrent_write
unfolding write_records with_new guarded_replace monotonic_timestamp existing_bytes read_file
    last_record_tail tail_of_lines tail_of_line tail_of_fields chain_records chain_one to_json
    fields unhashed_fields get compute_record_hash text_ltb
lost = refl

abbrev loses : Outcome (Log sample_codec) → Bool
loses (raised concurrent_write) = true
loses _ = false

abbrev log_of : Outcome (Log sample_codec) → Log sample_codec
log_of (written log) = log
log_of (raised e) = []

abbrev second : Outcome (Log sample_codec)
second = write_records sample_codec today sample_records (views 1)

won : second ≡ written (log_of second)
unfolding write_records with_new guarded_replace monotonic_timestamp existing_bytes read_file
    last_record_tail tail_of_lines tail_of_line tail_of_fields chain_records chain_one to_json
    fields unhashed_fields get compute_record_hash text_ltb
won = refl

kept : ¬ (second ≡ raised concurrent_write)
unfolding write_records with_new guarded_replace monotonic_timestamp existing_bytes read_file
    last_record_tail tail_of_lines tail_of_line tail_of_fields chain_records chain_one to_json
    fields unhashed_fields get compute_record_hash text_ltb
kept e = absurd (true≢false (sym (ap loses e)))

only_first : (i : ℕ) → i < 1 → Collides sample_codec today sample_records views i
only_first i h =
    subst (Collides sample_codec today sample_records views) {x = 0} (omega (arith, h)) lost

write_records_with_retry_settles_example :
    write_records_with_retry sample_codec 3 today sample_records views ≡ second
write_records_with_retry_settles_example =
    write_records_with_retry_settles sample_codec today sample_records views 3 1 (omega arith)
      only_first kept

abbrev losing : ℕ → Views sample_codec
losing i = views 0

write_records_with_retry_gives_up_example :
    write_records_with_retry sample_codec 3 today sample_records losing ≡ raised concurrent_write
write_records_with_retry_gives_up_example =
    write_records_with_retry_gives_up sample_codec today sample_records losing 3 (λ i h. lost)

write_records_guard_example :
    (chained : List AuditRecord) × (new : Content (Dict String Json)) × (with_new sample_codec
        (existing_bytes sample_codec today sample_log)
        (map (to_json sample_codec) chained)
      ≡ some new)
    × (log_of second ≡ replace_file sample_codec today new sample_log)
    × IsLinked sample_codec (tail_hash (last_record_tail sample_codec sample_log)) chained
    × (map given chained ≡ map given sample_records)
write_records_guard_example =
    write_records_guard sample_codec today sample_records (views 1) (log_of second) won
