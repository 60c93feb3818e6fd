-- ===== src/Lifecycle/Promote.antt =====
-- contentops/lifecycle.py: `promote` and `promote_many`. The files under the detections root are a
-- list, in the order in which `rglob` finds them; `parse` is `yaml.safe_load`, none where it fails or
-- the document is not a mapping. The clock's day, as a number and as a text, and the actor are given.
pub mod Gated
use content_ops.Prelude.{
  if◌then◌else◌, ◌==◌, option_beq, ℕ, String, Bool, true, false, ◌&&◌, ◌||◌, not, Option, none,
  some, List, [], ◌∷◌, string_eq, nat_eq, option_eq, pair_eq, option_eq, pair_eq,
}
use content_ops.Telemetry.{Row}
use content_ops.Lifecycle.Gates.{
  Envelope, locate_envelope, GateResult, gate, Workspace, check_gates, all_passed,
}
use content_ops.Lifecycle.Stamp.{rewrite_status_to_production, stamp_promotion}

pub record RuleFile : Type 0 where
  pub path : String
  pub lines : List String

pub record PromotionReport : Type 0 where
  pub rule_id : String
  pub path : Option String
  pub current_status : String
  pub gates : List GateResult
  pub promoted : Bool

pub record Options : Type 0 where
  pub max_validation_age_days : ℕ
  pub force : Bool
  pub dry_run : Bool
  pub today : ℕ
  pub workspace : Workspace
  pub fp_rate_threshold : ℕ × ℕ
  pub telemetry_since_days : ℕ
  pub stamp_date : String
  pub actor : String

pub data LifecycleError : Type 0 where
  rule_not_found no_status_line : LifecycleError

-- A report, or the error that is raised; and the text that the file has then
pub data Outcome : Type 0 where
  reported : PromotionReport → Outcome
  raised : LifecycleError → Outcome

unfoldable pub same_lines : List String → List String → Bool
same_lines [] [] = true
same_lines (x ∷ xs) (y ∷ ys) = x == y && same_lines xs ys
same_lines _ _ = false

-- The report of an id, with a failed gate in the place of an error
abbrev pub report_of : String → Outcome → PromotionReport
report_of rule_id (reported r) = r
report_of rule_id (raised e) = record {
  rule_id = rule_id;
  path = none;
  current_status = "";
  gates = gate locate_envelope false ∷ [];
  promoted = false;
}

module _ (lower strip : String → String) (parse_day : String → Option ℕ)
    (live_query : String → Option (List Row)) (telemetry : ℕ → Option (List Row))
    (parse : List String → Option Envelope) (o : Options) where
  unfoldable pub gates_of : Envelope → List GateResult
  unfolding check_gates
  gates_of e =
      check_gates lower strip parse_day live_query telemetry e o.max_validation_age_days o.today
        o.workspace o.fp_rate_threshold o.telemetry_since_days

  -- The surgical edit and the stamp
  unfoldable pub promoted_text : Envelope → List String → Option (List String)
  unfolding rewrite_status_to_production stamp_promotion all_passed gates_of
  promoted_text e lines = elim (rewrite_status_to_production lines) [
    | none ↦ none
    | some edited ↦
        some
          (stamp_promotion edited o.stamp_date o.actor (o.force && not (all_passed (gates_of e))))
  ]

  -- `promote` from its gates on, on the file that it found
  unfoldable pub promote_file : String → RuleFile → Envelope → Outcome × RuleFile
  unfolding promoted_text same_lines gates_of all_passed
  promote_file rule_id f e =
      let report = λ (done : Bool). reported (record {
        rule_id = rule_id;
        path = some f.path;
        current_status = e.status;
        gates = gates_of e;
        promoted = done;
      }) in
      if not (all_passed (gates_of e) || o.force)
      then (report false, f)
      else if o.dry_run
      then (report false, f)
      else elim (promoted_text e f.lines) [
        | none ↦ (raised no_status_line, f)
        | some edited ↦
            if same_lines edited f.lines
            then (report false, f)
            else (report true, record f { lines = edited })
      ]

  -- The files after it, with the first file of the rule promoted
  unfoldable pub promote : String → List RuleFile → Outcome × List RuleFile
  unfolding promote_file
  promote rule_id [] = (raised rule_not_found, [])
  promote rule_id (f ∷ files) =
      let rest = promote rule_id files in
      elim (parse f.lines) [
        | none ↦ (rest.0, f ∷ rest.1)
        | some e ↦
            if option_beq e.id (some rule_id)
            then (let one = promote_file rule_id f e in (one.0, one.1 ∷ files))
            else (rest.0, f ∷ rest.1)
      ]

  unfoldable pub promote_many : List String → List RuleFile → List PromotionReport × List RuleFile
  unfolding promote
  promote_many [] files = ([], files)
  promote_many (rule_id ∷ rule_ids) files =
      let one = promote rule_id files in
      let rest = promote_many rule_ids one.1 in (report_of rule_id one.0 ∷ rest.0, rest.1)
