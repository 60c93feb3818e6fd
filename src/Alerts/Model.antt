-- ===== src/Alerts/Model.antt =====
-- contentops/alerts/models.py: normalized alerts, the readings of Sentinel's words, and the merge of
-- a Graph alert and a Sentinel incident. The type of times is a parameter, and so is `str.lower`.
use Prim.Native.Char.{code}
use content_ops.Prelude.{
  nat_beq, if◌then◌else◌, nonempty, truthy, keep, get, ℕ, String, Option, none, some, List, [], ◌∷◌,
  string_eq, nat_eq, option_eq, pair_eq, option_eq, pair_eq,
}

pub data AlertSeverity : Type 0 where
  informational low medium high unknown_severity : AlertSeverity

pub data AlertStatus : Type 0 where
  new_alert in_progress resolved_alert unknown_status : AlertStatus

pub data AlertClassification : Type 0 where
  true_positive false_positive benign_positive undetermined : AlertClassification

pub data AlertDetermination : Type 0 where
  unknown_determination apt malware phishing compromised_account : AlertDetermination
  security_personnel security_testing unwanted_software : AlertDetermination
  multi_staged_attack malicious_user_activity not_malicious : AlertDetermination
  not_enough_data_to_validate confirmed_activity : AlertDetermination
  line_of_business_application other_determination : AlertDetermination

-- Python's `a or b` on texts, optional texts, optional times and lists
abbrev pub or_text : String → String → String
or_text a b = if nonempty a then a else b

abbrev pub or_option : Option String → Option String → Option String
or_option a b = if truthy a then a else b

abbrev pub or_time {ℓ} : {A : Type ℓ} → Option A → Option A → Option A
or_time none b = b
or_time (some t) b = some t

abbrev pub or_list {ℓ} : {A : Type ℓ} → List A → List A → List A
or_list [] ys = ys
or_list (x ∷ xs) ys = x ∷ xs

-- `value.replace(c, "")` for one character
unfoldable pub without : ℕ → String → String
without n String.[] = String.[]
without n (String.◌∷◌ c s) =
    let rest = without n s in if nat_beq (code c) n then rest else String.◌∷◌ c rest

-- `value.lower().replace(" ", "").replace("_", "")`
abbrev pub squash : (String → String) → String → String
squash lower value = without 95 (without 32 (lower value))

-- `AlertStatus.from_sentinel`
unfoldable pub status_from_sentinel : (String → String) → String → AlertStatus
unfolding get
status_from_sentinel lower value =
    if nonempty value
    then elim (get (lower value)
        (("new", new_alert) ∷ ("active", in_progress) ∷ ("closed", resolved_alert) ∷ [])) [
          | none ↦ unknown_status
          | some status ↦ status
        ]
    else unknown_status

-- `AlertClassification.from_sentinel`
unfoldable pub classification_from_sentinel : (String → String) → String → AlertClassification
unfolding get without
classification_from_sentinel lower value =
    if nonempty value
    then elim (get (squash lower value) (
        ("truepositive", true_positive)
        ∷ ("falsepositive", false_positive)
        ∷ ("benignpositive", benign_positive)
        ∷ ("undetermined", undetermined)
        ∷ [])) [ none ↦ undetermined | some classification ↦ classification ]
    else undetermined

-- `AlertDetermination.from_sentinel_reason`
unfoldable pub determination_from_sentinel : (String → String) → String → AlertDetermination
unfolding get without
determination_from_sentinel lower value =
    if nonempty value
    then elim (get (squash lower value) (
        ("suspiciousactivity", malicious_user_activity)
        ∷ ("suspiciousbutexpected", security_testing)
        ∷ ("inaccuratedata", not_enough_data_to_validate)
        ∷ ("incorrectalertlogic", other_determination)
        ∷ ("confirmedactivity", confirmed_activity)
        ∷ [])) [ none ↦ unknown_determination | some determination ↦ determination ]
    else unknown_determination

-- `AlertClassification.value`
unfoldable pub classification_value : AlertClassification → String
classification_value true_positive = "truePositive"
classification_value false_positive = "falsePositive"
classification_value benign_positive = "benignPositive"
classification_value undetermined = "undetermined"

-- `AlertSeverity.value`
unfoldable pub severity_value : AlertSeverity → String
severity_value informational = "informational"
severity_value low = "low"
severity_value medium = "medium"
severity_value high = "high"
severity_value unknown_severity = "unknown"

pub record NormalizedAlert (Time : Type 0) : Type 0 where
  pub id : String
  pub title : String
  pub severity : AlertSeverity
  pub status : AlertStatus
  pub classification : AlertClassification
  pub determination : AlertDetermination
  pub source : String
  pub service_source : String
  pub created : Option Time
  pub resolved : Option Time
  pub first_activity : Option Time
  pub last_activity : Option Time
  pub incident_id : Option String
  pub mitre_techniques : List String
  pub assigned_to : Option String
  pub description : String
  pub rule_id : Option String
  pub rule_name : Option String
  pub detection_source : String
  pub provider_alert_id : Option String

-- `graph.x if graph.x != unknown else sentinel.x`
abbrev pub or_severity : AlertSeverity → AlertSeverity → AlertSeverity
or_severity unknown_severity s = s
or_severity g s = g

abbrev pub or_status : AlertStatus → AlertStatus → AlertStatus
or_status unknown_status s = s
or_status g s = g

abbrev pub or_classification : AlertClassification → AlertClassification → AlertClassification
or_classification undetermined s = s
or_classification g s = g

abbrev pub or_determination : AlertDetermination → AlertDetermination → AlertDetermination
or_determination unknown_determination s = s
or_determination g s = g

module _ {Time : Type 0} where
  unfoldable pub merge : (graph sentinel : NormalizedAlert Time) → NormalizedAlert Time
  merge graph sentinel = record {
    id = graph.id;
    title = or_text graph.title sentinel.title;
    severity = or_severity graph.severity sentinel.severity;
    status = or_status graph.status sentinel.status;
    classification = or_classification graph.classification sentinel.classification;
    determination = or_determination graph.determination sentinel.determination;
    source = "both";
    service_source = or_text graph.service_source sentinel.service_source;
    created = or_time graph.created sentinel.created;
    resolved = or_time graph.resolved sentinel.resolved;
    first_activity = or_time graph.first_activity sentinel.first_activity;
    last_activity = or_time graph.last_activity sentinel.last_activity;
    incident_id = or_option graph.incident_id sentinel.incident_id;
    mitre_techniques = or_list graph.mitre_techniques sentinel.mitre_techniques;
    assigned_to = or_option graph.assigned_to sentinel.assigned_to;
    description = or_text graph.description sentinel.description;
    rule_id = or_option sentinel.rule_id graph.rule_id;
    rule_name = or_option graph.rule_name sentinel.rule_name;
    detection_source = or_text graph.detection_source sentinel.detection_source;
    provider_alert_id = or_option graph.provider_alert_id sentinel.provider_alert_id;
  }

  -- `[k for k in (alert.provider_alert_id, alert.id) if k]`
  unfoldable pub correlation_keys : NormalizedAlert Time → List String
  unfolding keep
  correlation_keys alert = elim alert.provider_alert_id [
    | none ↦ keep nonempty (alert.id ∷ [])
    | some p ↦ keep nonempty (p ∷ alert.id ∷ [])
  ]
