-- ===== src/Alerts/Ledger.antt =====
-- contentops/alerts/ledger.py: the ledger of alerts without personal data. A file is the list of its
-- lines, a line the entry that `load_ledger` reads from it, or none where it skips the line; a
-- missing file is none. The daily directory is its files in the order of their names. Reading and
-- writing times and numbers are parameters.
pub mod Latest
pub mod RoundTrip
use content_ops.Prelude.{
  if◌then◌else◌, nonempty, length, Dict, get, put, ℕ, String, Option, none, some, List, [], ◌∷◌,
  ◌++◌, map, string_eq, nat_eq, option_eq, pair_eq, option_eq, pair_eq, ◌==◌,
}
use content_ops.Alerts.Model.{
  AlertSeverity, informational, low, medium, high, unknown_severity, AlertStatus, new_alert,
  resolved_alert, AlertClassification, true_positive, false_positive, benign_positive, undetermined,
  unknown_determination, or_text, classification_value, severity_value, NormalizedAlert,
}

pub record LedgerEntry : Type 0 where
  pub alert_id : String
  pub rule_display_name : String
  pub classification : String
  pub closed_at : Option String
  pub severity : String
  pub source : String
  pub created_at : String
  pub rule_id : Option String
  pub service_source : String
  pub detection_source : String
  pub incident_number : Option ℕ

abbrev pub File : Type 0
File = Option (List (Option LedgerEntry))

abbrev readable : List (Option LedgerEntry) → List LedgerEntry
readable [] = []
readable (none ∷ lines) = readable lines
readable (some e ∷ lines) = e ∷ readable lines

unfoldable pub load_ledger : File → List LedgerEntry
load_ledger none = []
load_ledger (some lines) = readable lines

abbrev pub lines_of : List LedgerEntry → List (Option LedgerEntry)
lines_of entries = map (λ (e : LedgerEntry). some e) entries

unfoldable pub append_entries : File → List LedgerEntry → File
append_entries none entries = some (lines_of entries)
append_entries (some lines) entries = some (lines ++ lines_of entries)

-- `write_daily_file`
unfoldable pub write_daily_file : List LedgerEntry → File
write_daily_file entries = some (lines_of entries)

-- `for entry in raw: by_id[entry.alert_id] = entry`
unfoldable pub latest_by_id : List LedgerEntry → Dict String LedgerEntry → Dict String LedgerEntry
unfolding put
latest_by_id [] by_id = by_id
latest_by_id (e ∷ entries) by_id = latest_by_id entries (put e.alert_id e by_id)

abbrev pub values : Dict String LedgerEntry → List LedgerEntry
values d = map (λ (e : String × LedgerEntry). e.1) d

unfoldable pub load_ledger_deduped : File → List LedgerEntry
unfolding load_ledger latest_by_id
load_ledger_deduped file = values (latest_by_id (load_ledger file) [])

unfoldable pub load_daily_files : List File → List LedgerEntry
unfolding load_ledger
load_daily_files [] = []
load_daily_files (f ∷ files) = load_ledger f ++ load_daily_files files

-- The new ledger file, and the number of its entries
unfoldable pub rebuild_ledger_from_daily : List File → File × ℕ
unfolding load_daily_files latest_by_id append_entries
rebuild_ledger_from_daily files =
    let deduped = values (latest_by_id (load_daily_files files) []) in
    (append_entries (some []) deduped, length deduped)

-- `entry.classification` and `entry.severity`, read as the enums' values
unfoldable pub classification_of : String → AlertClassification
unfolding get classification_value
classification_of text =
    elim (get text (
      (classification_value true_positive, true_positive)
      ∷ (classification_value false_positive, false_positive)
      ∷ (classification_value benign_positive, benign_positive)
      ∷ (classification_value undetermined, undetermined)
      ∷ [])) [ none ↦ undetermined | some classification ↦ classification ]

unfoldable pub severity_of : String → AlertSeverity
unfolding get severity_value
severity_of text =
    elim (get text (
      (severity_value informational, informational)
      ∷ (severity_value low, low)
      ∷ (severity_value medium, medium)
      ∷ (severity_value high, high)
      ∷ (severity_value unknown_severity, unknown_severity)
      ∷ [])) [ none ↦ unknown_severity | some severity ↦ severity ]

abbrev pub or_name : Option String → String → String
or_name none title = title
or_name (some name) title = or_text name title

module _ {Time : Type 0} (isoformat : Time → String) (parse_time : String → Option Time)
    (read_int : String → Option ℕ) where
  unfoldable pub incident_number_of : Option String → Option ℕ
  incident_number_of none = none
  incident_number_of (some text) = if nonempty text then read_int text else none

  abbrev pub closed_text : Option Time → Option String
  closed_text none = none
  closed_text (some t) = some (isoformat t)

  abbrev pub created_text : Option Time → String
  created_text none = ""
  created_text (some t) = isoformat t

  unfoldable pub normalize_to_entry : NormalizedAlert Time → LedgerEntry
  unfolding classification_value severity_value incident_number_of
  normalize_to_entry alert = record {
    alert_id = alert.id;
    rule_display_name = or_name alert.rule_name alert.title;
    classification = classification_value alert.classification;
    closed_at = closed_text alert.resolved;
    severity = severity_value alert.severity;
    source = alert.source;
    created_at = created_text alert.created;
    rule_id = alert.rule_id;
    service_source = alert.service_source;
    detection_source = alert.detection_source;
    incident_number = incident_number_of alert.incident_id;
  }

  abbrev pub parsed : String → Option Time
  parsed text = if nonempty text then parse_time text else none

  abbrev pub parsed_option : Option String → Option Time
  parsed_option none = none
  parsed_option (some text) = parsed text

  abbrev resolved_status : Option Time → AlertStatus
  resolved_status none = new_alert
  resolved_status (some t) = resolved_alert

  -- One entry in `entries_to_normalized_alerts`
  unfoldable pub entry_to_alert : LedgerEntry → NormalizedAlert Time
  unfolding classification_of severity_of
  entry_to_alert entry = record {
    id = entry.alert_id;
    title = entry.rule_display_name;
    severity = severity_of entry.severity;
    status = resolved_status (parsed_option entry.closed_at);
    classification = classification_of entry.classification;
    determination = unknown_determination;
    source = entry.source;
    service_source = entry.service_source;
    created = parsed entry.created_at;
    resolved = parsed_option entry.closed_at;
    first_activity = none;
    last_activity = none;
    incident_id = none;
    mitre_techniques = [];
    assigned_to = none;
    description = "";
    rule_id = entry.rule_id;
    rule_name = some entry.rule_display_name;
    detection_source = entry.detection_source;
    provider_alert_id = none;
  }

  unfoldable pub entries_to_normalized_alerts : List LedgerEntry → List (NormalizedAlert Time)
  unfolding entry_to_alert
  entries_to_normalized_alerts entries = map entry_to_alert entries
