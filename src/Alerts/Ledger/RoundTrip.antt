-- ===== src/Alerts/Ledger/RoundTrip.antt =====
-- An alert written to the ledger, read back as an alert, and written again.
use content_ops.Prelude.{
  Bool-cases, nonempty, get, ℕ, String, ◌≡◌, refl, inl, inr, true, Option, none, some, string_eq,
  nat_eq, option_eq, pair_eq, option_eq, pair_eq,
}
use content_ops.Alerts.Model.{
  AlertSeverity, informational, low, medium, high, unknown_severity, AlertClassification,
  true_positive, false_positive, benign_positive, undetermined, or_text, classification_value,
  severity_value, NormalizedAlert,
}
use content_ops.Alerts.Ledger.{
  LedgerEntry, classification_of, severity_of, or_name, incident_number_of, closed_text,
  created_text, normalize_to_entry, parsed, parsed_option, entry_to_alert,
}

classification_of-value : (c : AlertClassification) → classification_of (classification_value c) ≡ c
unfolding classification_of classification_value get
classification_of-value true_positive = refl
classification_of-value false_positive = refl
classification_of-value benign_positive = refl
classification_of-value undetermined = refl

severity_of-value : (s : AlertSeverity) → severity_of (severity_value s) ≡ s
unfolding severity_of severity_value get
severity_of-value informational = refl
severity_of-value low = refl
severity_of-value medium = refl
severity_of-value high = refl
severity_of-value unknown_severity = refl

-- What `datetime` documents: a time's ISO text is not empty and reads back as the time.
pub record IsClock {Time : Type 0} (isoformat : Time → String) (parse_time : String → Option Time)
    : Type 0 where
  pub shown : (t : Time) → nonempty (isoformat t) ≡ true
  pub read_back : (t : Time) → parse_time (isoformat t) ≡ some t

module _ {Time : Type 0} (isoformat : Time → String) (parse_time : String → Option Time)
    (read_int : String → Option ℕ) where
  abbrev write : NormalizedAlert Time → LedgerEntry
  write alert = normalize_to_entry isoformat parse_time read_int alert

  abbrev read : LedgerEntry → NormalizedAlert Time
  read entry = entry_to_alert isoformat parse_time read_int entry

  same_text : (r : String) → or_text r r ≡ r
  same_text r = elim (Bool-cases (nonempty r)) [ inl e ↦ rw e refl | inr e ↦ rw e refl ]

  module _ (clock : IsClock isoformat parse_time) where
    read_created :
        (t : Option Time)
        → parsed isoformat parse_time read_int (created_text isoformat parse_time read_int t) ≡ t
    read_created none = refl
    read_created (some t) = rw (clock.shown t, clock.read_back t) refl

    read_closed :
        (t : Option Time)
        → parsed_option isoformat parse_time read_int (closed_text isoformat parse_time read_int t)
          ≡ t
    read_closed none = refl
    read_closed (some t) = rw (clock.shown t, clock.read_back t) refl

  -- If the clock reads its own texts, then an alert's ledger entry, read back as an alert and written
  -- to the ledger again, is the same entry but for the incident number, which is lost; and the alert
  -- read back has the alert's id, severity, classification, creation and resolution time.
  pub normalize_to_entry_round_trip :
      (alert : NormalizedAlert Time)
      → IsClock isoformat parse_time
      → (write (read (write alert)) ≡ record (write alert) { incident_number = none })
        × ((read (write alert)).severity ≡ alert.severity)
        × ((read (write alert)).classification ≡ alert.classification)
        × ((read (write alert)).created ≡ alert.created)
        × ((read (write alert)).resolved ≡ alert.resolved)
  unfolding normalize_to_entry entry_to_alert incident_number_of
  normalize_to_entry_round_trip alert clock = (
    simp (
      severity_of-value alert.severity,
      classification_of-value alert.classification,
      read_created clock alert.created,
      read_closed clock alert.resolved,
      same_text (or_name alert.rule_name alert.title),
    ),
    severity_of-value alert.severity,
    classification_of-value alert.classification,
    read_created clock alert.created,
    read_closed clock alert.resolved,
  )
