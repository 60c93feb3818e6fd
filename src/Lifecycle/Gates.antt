-- ===== src/Lifecycle/Gates.antt =====
-- contentops/lifecycle.py: the four promotion gates, and `kql_body_from_payload`
-- (contentops/core/asset.py). A query is a function that returns none where it raises. Days are
-- numbers; the threshold is a fraction and rates are compared exactly.
pub mod Closed
use Prim.Native.String.{◌++◌ as concat}
use content_ops.Prelude.{
  leb, if◌then◌else◌, ◌==◌, nonempty, truthy, option_beq, ℕ, ◌+◌, ◌-◌, ◌*◌, String, Bool, true,
  false, ◌&&◌, ◌||◌, not, Option, none, some, List, [], ◌∷◌, ◌++◌, string_eq, nat_eq, option_eq,
  pair_eq, option_eq, pair_eq,
}
use content_ops.Asset.{
  Asset, sentinel_analytic, sentinel_hunting, sentinel_parser, defender_custom_detection, asset_eq,
}
use content_ops.Telemetry.{Row, count, lookup, index_rows, rule_keys}

-- A payload, as far as the code reads it: texts, mappings, and all else
mutual
  pub data Value : Type 0 where
    text : String → Value
    mapping : Fields → Value
    opaque : Value

  pub data Fields : Type 0 where
    no_fields : Fields
    field : String → Value → Fields → Fields

unfoldable pub value_at : String → Fields → Value
value_at key no_fields = opaque
value_at key (field k v fields) = let rest = value_at key fields in if k == key then v else rest

unfoldable pub text_in : String → Value → Option String
unfolding value_at
text_in key (mapping fields) = elim (value_at key fields) [
  | text s ↦ some s
  | mapping inner ↦ none
  | opaque ↦ none
]
text_in key (text s) = none
text_in key opaque = none

pub record Envelope : Type 0 where
  pub id : Option String
  pub asset : Option Asset
  pub status : String
  pub last_validated_at : Option String
  pub arm_name : Option String
  pub payload : Fields

unfoldable pub inside : String → Value → Value
unfolding value_at
inside key (mapping fields) = value_at key fields
inside key (text s) = opaque
inside key opaque = opaque

-- The name of a gate
pub data GateName : Type 0 where
  status_is_experimental recent_validation live_test_pass fp_rate_threshold locate_envelope :
      GateName

pub record GateResult : Type 0 where
  pub name : GateName
  pub passed : Bool
  pub deferred : Bool

abbrev pub gate : GateName → Bool → GateResult
gate name passed = record { name = name; passed = passed; deferred = false }

unfoldable pub gate_currently_experimental : Envelope → GateResult
gate_currently_experimental envelope =
    gate status_is_experimental (envelope.status == "experimental")

-- What the two gates that need a workspace are given
pub record Workspace : Type 0 where
  pub workspace_id : Option String
  pub token : Option String
  pub workspace_error : Option String

unfoldable pub no_workspace_gate : GateName → Option String → GateResult
no_workspace_gate name workspace_error =
    if truthy workspace_error
    then gate name false
    else record { name = name; passed = true; deferred = true }

-- `not workspace_id or not token`
abbrev pub no_workspace : Workspace → Bool
no_workspace w = not (truthy w.workspace_id) || not (truthy w.token)

-- `closed_fp_rate` as a fraction, none where nothing was closed with a verdict
unfoldable pub closed_fp_rate : Row → Option (ℕ × ℕ)
closed_fp_rate row =
    let closed = count row.closed_tp_30d + count row.closed_fp_30d + count row.closed_bp_30d in
    if closed == 0 then none else some (count row.closed_fp_30d, closed)

module _ (strip : String → String) where
  unfoldable pub non_blank : Option String → Option String
  non_blank none = none
  non_blank (some s) = if nonempty (strip s) then some s else none

  abbrev or_else : Option String → Option String → Option String
  or_else none b = b
  or_else (some a) b = some a

  -- The fields of `KQL_FIELDS_BY_ASSET`, tried in order
  unfoldable pub kql_body_from_payload : Asset → Fields → Option String
  unfolding non_blank text_in value_at
  kql_body_from_payload sentinel_analytic p = non_blank (text_in "query" (mapping p))
  kql_body_from_payload sentinel_hunting p = non_blank (text_in "query" (mapping p))
  kql_body_from_payload sentinel_parser p = non_blank (text_in "query" (mapping p))
  kql_body_from_payload defender_custom_detection p =
      or_else (non_blank (text_in "queryText" (mapping p)))
        (non_blank (text_in "queryText" (value_at "queryCondition" p)))
  kql_body_from_payload _ p = none

  abbrev pub kql_body : Envelope → Option String
  kql_body envelope = elim envelope.asset [
    | none ↦ none
    | some asset ↦ kql_body_from_payload asset envelope.payload
  ]

module _ (parse_day : String → Option ℕ) where
  unfoldable pub parse_iso_date : Option String → Option ℕ
  parse_iso_date none = none
  parse_iso_date (some s) = if nonempty s then parse_day s else none

  unfoldable pub gate_recent_validation : Envelope → (max_age_days today : ℕ) → GateResult
  unfolding parse_iso_date
  gate_recent_validation envelope max_age_days today =
      elim (parse_iso_date envelope.last_validated_at) [
        | none ↦ gate recent_validation false
        | some day ↦ gate recent_validation (leb day today && leb (today - day) max_age_days)
      ]

module _ (strip : String → String) (live_query : String → Option (List Row)) where
  unfoldable pub gate_live_test_pass : Envelope → Workspace → GateResult
  unfolding no_workspace_gate kql_body_from_payload
  gate_live_test_pass envelope w =
      if no_workspace w
      then no_workspace_gate live_test_pass w.workspace_error
      else elim (kql_body strip envelope) [
        | none ↦ gate live_test_pass true
        | some body ↦ elim (live_query (concat body "\n| count")) [
          | none ↦ gate live_test_pass false
          | some rows ↦ gate live_test_pass true
        ]
      ]

-- `payload.displayName`, `payload.DisplayName`, and a Defender rule's alert title
unfoldable pub name_fields : Envelope → List (Option String)
unfolding text_in value_at
name_fields envelope =
    let names =
      text_in "displayName" (mapping envelope.payload)
      ∷ text_in "DisplayName" (mapping envelope.payload)
      ∷ [] in
    if option_beq envelope.asset (some defender_custom_detection)
    then names
      ++ text_in "title" (inside "alertTemplate" (value_at "detectionAction" envelope.payload)) ∷ []
    else names

-- The verdict of the rate over the rule's row
unfoldable pub rate_gate : (threshold : ℕ × ℕ) → Option Row → GateResult
unfolding closed_fp_rate
rate_gate threshold none = gate fp_rate_threshold true
rate_gate threshold (some row) = elim (closed_fp_rate row) [
  | none ↦ gate fp_rate_threshold true
  | some rate ↦ gate fp_rate_threshold (leb (rate.0 * threshold.1) (threshold.0 * rate.1))
]

-- The telemetry of the envelope's rule, among the rows
unfoldable pub rule_row : (lower strip : String → String) → Envelope → List Row → Option Row
unfolding name_fields lookup index_rows rule_keys
rule_row lower strip envelope rows =
    lookup (index_rows lower strip rows (record { by_id = []; by_name = []; by_id_row_name = [] }))
      (rule_keys lower strip envelope.arm_name envelope.id (name_fields envelope))

module _ (lower strip : String → String) (telemetry : ℕ → Option (List Row)) where
  unfoldable pub gate_fp_rate_threshold : Envelope → Workspace → ℕ × ℕ → ℕ → GateResult
  unfolding no_workspace_gate rate_gate rule_row
  gate_fp_rate_threshold envelope w threshold since_days =
      if no_workspace w
      then no_workspace_gate fp_rate_threshold w.workspace_error
      else elim (telemetry since_days) [
        | none ↦ gate fp_rate_threshold false
        | some rows ↦ rate_gate threshold (rule_row lower strip envelope rows)
      ]

module _ (lower strip : String → String) (parse_day : String → Option ℕ)
    (live_query : String → Option (List Row)) (telemetry : ℕ → Option (List Row)) where
  -- What a promotion is run with
  unfoldable pub check_gates :
      Envelope → (max_age_days today : ℕ) → Workspace → ℕ × ℕ → ℕ → List GateResult
  unfolding gate_currently_experimental gate_recent_validation gate_live_test_pass
      gate_fp_rate_threshold
  check_gates envelope max_age_days today w threshold since_days =
      gate_currently_experimental envelope
      ∷ gate_recent_validation parse_day envelope max_age_days today
      ∷ gate_live_test_pass strip live_query envelope w
      ∷ gate_fp_rate_threshold lower strip telemetry envelope w threshold since_days
      ∷ []

-- `report.all_passed()`
unfoldable pub all_passed : List GateResult → Bool
all_passed [] = true
all_passed (g ∷ gs) = (g.passed || g.deferred) && all_passed gs
