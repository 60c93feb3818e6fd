-- ===== src/Tests/LifecycleRuns.antt =====
-- The promotion gates and the promotion at sample data: one rule, with a workspace that answers.
use content_ops.Prelude.{
  if◌then◌else◌, ◌==◌, option_beq, any_of, last?, Pointwise, ℕ, String, ◌≡◌, refl, ◌↔◌, true, false,
  Option, none, some, List, [], ◌∷◌, string_eq, nat_eq, option_eq, pair_eq, option_eq, pair_eq,
}
use content_ops.Asset.{sentinel_analytic, asset_eq}
use content_ops.Telemetry.{drop_text, Row}
use content_ops.Lifecycle.Gates.{
  text, no_fields, field, value_at, text_in, Envelope, gate_currently_experimental, Workspace,
  closed_fp_rate, non_blank, kql_body_from_payload, parse_iso_date, gate_recent_validation,
  gate_live_test_pass, name_fields, rate_gate, rule_row, gate_fp_rate_threshold, check_gates,
  all_passed,
}
use content_ops.Lifecycle.Gates.Closed.{IsVerified, check_gates_exact}
use content_ops.Lifecycle.Stamp.{
  join, only_blanks, word_end, is_value, after_prefix, is_keyed, split_indent, is_indented_key,
  replace_first, rewrite_status_to_production, block_follows, has_block, drop_trailing_empty,
  insert_line, set_line, forced_key, ends_with_newline, stamp_promotion,
}
use content_ops.Lifecycle.Stamp.Again.{stamp_promotion_again}
use content_ops.Lifecycle.Promote.{RuleFile, Options, promoted_text, promote_many}
use content_ops.Lifecycle.Promote.Gated.{IsBatch, promote_many-IsBatch}

abbrev same : String → String
same s = s

abbrev day_of : String → Option ℕ
day_of s = if s == "2026-05-07" then some 100 else none

abbrev rule : Envelope
rule = record {
  id = some "rule-a";
  asset = some sentinel_analytic;
  status = "experimental";
  last_validated_at = some "2026-05-07";
  arm_name = none;
  payload = field "displayName" (text "Rule A") (field "query" (text "T") no_fields);
}

abbrev row : Row
row = record {
  number = 0;
  rule_key = "id:rule-a";
  rule_name = some "Rule A";
  incidents_30d = some 9;
  closed_tp_30d = some 3;
  closed_fp_30d = some 2;
  closed_bp_30d = none;
}

abbrev answers : String → Option (List Row)
answers q = some []

abbrev rows : ℕ → Option (List Row)
rows days = some (row ∷ [])

abbrev given : Workspace
given = record { workspace_id = some "w"; token = some "t"; workspace_error = none }

all_gates_pass :
    all_passed (check_gates same same day_of answers rows rule 30 120 given (1, 2) 30) ≡ true
unfolding all_passed check_gates gate_currently_experimental gate_recent_validation parse_iso_date
    gate_live_test_pass kql_body_from_payload non_blank text_in value_at gate_fp_rate_threshold
    rate_gate rule_row closed_fp_rate name_fields drop_text option_beq
all_gates_pass = refl

check_gates_exact_example :
    (all_passed (check_gates same same day_of answers rows rule 30 120 given (1, 2) 30) ≡ true)
    ↔ IsVerified same same day_of answers rows rule 30 120 given (1, 2) 30
check_gates_exact_example =
    check_gates_exact same same day_of answers rows rule 30 120 given (1, 2) 30

abbrev file : RuleFile
file = record {
  path = "detections/rule-a.yml";
  lines = "id: rule-a" ∷ "status: experimental" ∷ "" ∷ [];
}

abbrev read : List String → Option Envelope
read lines = some rule

abbrev options : Options
options = record {
  max_validation_age_days = 30;
  force = false;
  dry_run = false;
  today = 120;
  workspace = given;
  fp_rate_threshold = (1, 2);
  telemetry_since_days = 30;
  stamp_date = "2026-05-27";
  actor = "alice";
}

abbrev stamped : List String
stamped =
    "id: rule-a" ∷ "status: production" ∷ "lifecycle:" ∷ "  promotedAt: 2026-05-27"
    ∷ "  promotedBy: alice" ∷ "" ∷ []

edited : promoted_text same same day_of answers rows read options rule file.lines ≡ some stamped
unfolding promoted_text rewrite_status_to_production stamp_promotion any_of is_keyed after_prefix
    is_value word_end only_blanks replace_first has_block block_follows ends_with_newline last?
    option_beq join
edited = refl

promote_many-IsBatch_example :
    Pointwise
      (IsBatch same same day_of answers rows read options ("rule-a" ∷ []))
      (file ∷ [])
      (promote_many same same day_of answers rows read options ("rule-a" ∷ []) (file ∷ [])).1
promote_many-IsBatch_example =
    promote_many-IsBatch same same day_of answers rows read options ("rule-a" ∷ []) (file ∷ [])

no_block : has_block ("id: rule-a" ∷ "status: production" ∷ "" ∷ []) ≡ false
unfolding has_block block_follows after_prefix only_blanks
no_block = refl

no_keys :
    (key : String) → any_of (is_indented_key key) ("id: rule-a" ∷ "status: production" ∷ []) ≡ false
unfolding any_of is_indented_key split_indent
no_keys key = refl

a_word : is_value "2026-05-27" ≡ true
unfolding is_value word_end only_blanks
a_word = refl

a_name : is_value "alice" ≡ true
unfolding is_value word_end only_blanks
a_name = refl

stamp_promotion_again_example :
    stamp_promotion
      (stamp_promotion ("id: rule-a" ∷ "status: production" ∷ "" ∷ []) "2026-05-27" "alice" false)
      "2026-06-01"
      "bob"
      true
    ≡ stamp_promotion ("id: rule-a" ∷ "status: production" ∷ "" ∷ []) "2026-06-01" "bob" true
stamp_promotion_again_example =
    stamp_promotion_again "id: rule-a" ("status: production" ∷ []) "2026-05-27" "alice" "2026-06-01"
      "bob" true no_block (no_keys "promotedAt:") (no_keys "promotedBy:") (no_keys forced_key)
      a_word a_name

-- A block that is not the last of the file: the stamp lands under the file's last key.
stamp_lands_in_payload :
    stamp_promotion
      ("lifecycle:" ∷ "  owner: soc" ∷ "payload:" ∷ "  query: T" ∷ "" ∷ [])
      "2026-05-27"
      "alice"
      false
    ≡ "lifecycle:" ∷ "  owner: soc" ∷ "payload:" ∷ "  query: T" ∷ "  promotedAt: 2026-05-27"
      ∷ "  promotedBy: alice" ∷ "" ∷ []
unfolding stamp_promotion has_block block_follows after_prefix only_blanks set_line any_of
    is_indented_key split_indent is_keyed is_value word_end replace_first insert_line last?
    drop_trailing_empty join
stamp_lands_in_payload = refl
