-- ===== src/Tests/AuditChain.antt =====
-- The chain of audit records at sample data.
use content_ops.Prelude.{
  length, any_of, lex_ltb, text_ltb, String, ◌≡◌, refl, ◌↔◌, inr, none, some, List, map, arith,
}
use content_ops.Audit.Record.{string, AuditRecord, zero_hash}
use content_ops.Audit.Chain.{monotonic_timestamp, chain_records}
use content_ops.Audit.Chain.Links.{given, IsLinked, chain_records_links}
use content_ops.Audit.Chain.Times.{IsIncreasing, NotEarlier, chain_records-IsIncreasing}
use content_ops.Audit.Verify.{Walk, verify_chain}
use content_ops.Audit.Verify.View.{IsChain, IsDecodable, lines_of}
use content_ops.Audit.Verify.Sound.{verify_chain_exact}
use content_ops.Audit.Verify.Errors.{is_none, raising_file, verify_chain_raises}
use content_ops.Tests.AuditSamples.{
  ticks, sample_codec, sample_laws, sample_records, sample_records-HasRoom, chain_of, sample_log,
}

abbrev chained : List AuditRecord
chained = chain_of (chain_records sample_codec sample_records zero_hash "")

made : chain_records sample_codec sample_records zero_hash "" ≡ some chained
unfolding chain_records monotonic_timestamp text_ltb lex_ltb
made = refl

chain_records_links_example :
    IsLinked sample_codec zero_hash chained × (map given chained ≡ map given sample_records)
chain_records_links_example =
    chain_records_links sample_codec sample_records zero_hash "" chained made

-- At the end of the last year the batch raises.
abbrev last_instant : String
last_instant = ticks 99

overflows : chain_records sample_codec sample_records zero_hash last_instant ≡ none
unfolding chain_records monotonic_timestamp text_ltb lex_ltb
overflows = refl

chain_records-IsIncreasing_example :
    (made : List AuditRecord) × (chain_records sample_codec sample_records zero_hash "tt"
      ≡ some made)
    × IsIncreasing "tt" made
    × NotEarlier sample_records made
chain_records-IsIncreasing_example =
    chain_records-IsIncreasing sample_codec sample_laws sample_records zero_hash "tt"
      (inr (1, omega arith, omega arith, refl)) sample_records-HasRoom

verify_chain_exact_example :
    ((w : Walk) × (verify_chain sample_codec sample_log ≡ some w) × (length w.breaks ≡ 0)) ↔ (
      IsDecodable sample_codec sample_log
      × IsChain sample_codec (string zero_hash) "" (lines_of sample_codec sample_log))
verify_chain_exact_example = verify_chain_exact sample_codec sample_log

verify_chain_raises_example :
    is_none (verify_chain sample_codec sample_log)
    ≡ any_of (λ f. raising_file sample_codec f.lines) sample_log
verify_chain_raises_example = verify_chain_raises sample_codec sample_log
