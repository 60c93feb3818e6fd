-- ===== src/Tests/AlertRuns.antt =====
-- Alerts at sample data: a Graph alert and two Sentinel alerts of one incident. A time is one of two.
use content_ops.Prelude.{
  if◌then◌else◌, ◌==◌, nonempty, length, keep, last?, All, contains, Pointwise, get, put, has,
  Member, contains-Member, ℕ, String, ◌≡◌, refl, subst, ◌⊎◌, inl, inr, Bool, true, false, Option,
  none, some, List, [], ◌∷◌, map, string_eq, nat_eq, option_eq, pair_eq, option_eq, pair_eq,
}
use content_ops.Alerts.Model.{
  high, new_alert, undetermined, unknown_determination, NormalizedAlert, merge, correlation_keys,
}
use content_ops.Alerts.Merge.{
  set_default, push, index_keys, index_by_key, first_match, pass_one, by_incident, join_incident,
  pass_two_step, pass_two, passes, merge_alerts,
}
use content_ops.Alerts.Joins.{has_id, IsJoin, Accounted}
use content_ops.Alerts.Joins.Complete.{merge_alerts-IsJustified, merge_alerts_covers}
use content_ops.Alerts.Joins.Drops.{NoKeys, merge_alerts_drops}
use content_ops.Alerts.Overlay.{Incident, overlay_one, overlay_arm_incidents}
use content_ops.Alerts.Overlay.Wins.{covers, overlay_arm_incidents_exact}
use content_ops.Alerts.Enrich.{enrich_from_graph}
use content_ops.Alerts.Enrich.Additive.{IsEnriched, enrich_from_graph-IsEnriched}
use content_ops.Alerts.Ledger.{
  LedgerEntry, File, load_ledger, append_entries, latest_by_id, load_daily_files,
  rebuild_ledger_from_daily, normalize_to_entry, entry_to_alert,
}
use content_ops.Alerts.Ledger.Latest.{of_alert, as_list, rebuild_ledger_from_daily_exact}
use content_ops.Alerts.Ledger.RoundTrip.{IsClock, normalize_to_entry_round_trip}
use content_ops.Alerts.Daily.{apply_arm_overlay_to_daily_files}
use content_ops.Alerts.Daily.Again.{apply_arm_overlay_to_daily_files_settles}

abbrev alert : (id source : String) → Option String → NormalizedAlert Bool
alert id source provider = record {
  id = id;
  title = "Impossible travel";
  severity = high;
  status = new_alert;
  classification = undetermined;
  determination = unknown_determination;
  source = source;
  service_source = "";
  created = some true;
  resolved = none;
  first_activity = none;
  last_activity = none;
  incident_id = some "7";
  mitre_techniques = [];
  assigned_to = none;
  description = "";
  rule_id = none;
  rule_name = none;
  detection_source = "";
  provider_alert_id = provider;
}

abbrev ga : NormalizedAlert Bool
ga = record (alert "g1" "graph" (some "vendor")) { mitre_techniques = "T1078" ∷ [] }

abbrev s1 : NormalizedAlert Bool
s1 = alert "s1" "sentinel" none

abbrev s2 : NormalizedAlert Bool
s2 = alert "s2" "sentinel" none

second_is_lost : merge_alerts (ga ∷ []) (s1 ∷ s2 ∷ []) ≡ merge ga s1 ∷ []
unfolding merge_alerts passes pass_one pass_two pass_two_step join_incident by_incident push
    index_by_key index_keys set_default correlation_keys first_match contains get put has keep
second_is_lost = refl

merge_alerts-IsJustified_example :
    All
      (λ (a : NormalizedAlert Bool).
        IsJoin (ga ∷ []) (s1 ∷ s2 ∷ []) a ⊎ (Member a (ga ∷ []) ⊎ Member a (s1 ∷ s2 ∷ [])))
      (merge_alerts (ga ∷ []) (s1 ∷ s2 ∷ []))
merge_alerts-IsJustified_example = merge_alerts-IsJustified (ga ∷ []) (s1 ∷ s2 ∷ [])

merge_alerts_covers_example :
    All
      (λ (a : NormalizedAlert Bool). has_id a.id (merge_alerts (ga ∷ []) (s1 ∷ s2 ∷ [])) ≡ true)
      (ga ∷ [])
    × All
        (λ (a : NormalizedAlert Bool).
          Member a (merge_alerts (ga ∷ []) (s1 ∷ s2 ∷ []))
          ⊎ Accounted (ga ∷ []) (s1 ∷ s2 ∷ []) (merge_alerts (ga ∷ []) (s1 ∷ s2 ∷ [])) a.id)
        (s1 ∷ s2 ∷ [])
merge_alerts_covers_example = merge_alerts_covers (ga ∷ []) (s1 ∷ s2 ∷ [])

no_keys : NoKeys ga s1 s2
unfolding correlation_keys contains keep
no_keys k h = elim (contains-Member k ("vendor" ∷ "g1" ∷ []) h) [
  | inl e ↦ subst Apart e (refl, refl)
  | inr (inl e) ↦ subst Apart e (refl, refl)
  | inr (inr m) ↦ elim m [ ]
]
  where
    Apart : String → Type 0
    Apart key =
        (contains key (correlation_keys s1) ≡ false) × (contains key (correlation_keys s2) ≡ false)

merge_alerts_drops_example : merge_alerts (ga ∷ []) (s1 ∷ s2 ∷ []) ≡ merge ga s1 ∷ []
merge_alerts_drops_example = merge_alerts_drops ga s1 s2 "7" refl refl refl refl refl no_keys

abbrev closing : Incident
closing = record {
  alert_product_ids = "s1" ∷ [];
  incident_number = some 7;
  status = "Active";
  classification = "TruePositive";
  classification_reason = "";
  closed_time_utc = none;
  owner = some (record { assigned_to = none; email = some "analyst@example.org" });
}

overlay_arm_incidents_exact_example :
    overlay_arm_incidents (λ s. s) (λ n. "7") (λ s. some false) (ga ∷ s1 ∷ []) (closing ∷ [])
    ≡ map
        (λ (a : NormalizedAlert Bool).
          overlay_one
            (λ s. s)
            (λ n. "7")
            (λ s. some false)
            (last? (
              keep
                (covers (λ s. s) (λ n. "7") (λ s. some false) (ga ∷ s1 ∷ []) a.id)
                (closing ∷ [])))
            a)
        (ga ∷ s1 ∷ [])
overlay_arm_incidents_exact_example =
    overlay_arm_incidents_exact (λ s. s) (λ n. "7") (λ s. some false) (ga ∷ s1 ∷ []) (closing ∷ [])

enrich_from_graph-IsEnriched_example :
    Pointwise (IsEnriched (ga ∷ [])) (s1 ∷ s2 ∷ []) (enrich_from_graph (s1 ∷ s2 ∷ []) (ga ∷ []))
enrich_from_graph-IsEnriched_example = enrich_from_graph-IsEnriched (s1 ∷ s2 ∷ []) (ga ∷ [])

abbrev entry : (id classification : String) → Option String → LedgerEntry
entry id classification closed_at = record {
  alert_id = id;
  rule_display_name = "Impossible travel";
  classification = classification;
  closed_at = closed_at;
  severity = "high";
  source = "sentinel";
  created_at = "2026-01-02T00:00:00+00:00";
  rule_id = none;
  service_source = "";
  detection_source = "";
  incident_number = none;
}

abbrev daily : List File
daily =
    some (some (entry "s1" "undetermined" none) ∷ none ∷ [])
    ∷ some (
        some (entry "s1" "falsePositive" (some "2026-01-03"))
        ∷ some (entry "s2" "undetermined" none)
        ∷ [])
    ∷ []

latest_wins :
    keep (of_alert "s1") (load_ledger (rebuild_ledger_from_daily daily).0)
    ≡ entry "s1" "falsePositive" (some "2026-01-03") ∷ []
unfolding rebuild_ledger_from_daily load_daily_files latest_by_id append_entries load_ledger keep
    put
latest_wins = refl

rebuild_ledger_from_daily_exact_example :
    ((i : String)
      → keep (of_alert i) (load_ledger (rebuild_ledger_from_daily daily).0)
        ≡ as_list (last? (keep (of_alert i) (load_daily_files daily))))
    × ((rebuild_ledger_from_daily daily).1
        ≡ length (load_ledger (rebuild_ledger_from_daily daily).0))
rebuild_ledger_from_daily_exact_example = rebuild_ledger_from_daily_exact daily

abbrev show_time : Bool → String
show_time true = "2026-01-02T00:00:00+00:00"
show_time false = "2026-01-03T00:00:00+00:00"

abbrev read_time : String → Option Bool
read_time s = some (s == "2026-01-02T00:00:00+00:00")

abbrev no_number : String → Option ℕ
no_number s = none

clock : IsClock show_time read_time
clock = record { shown = shown; read_back = read_back }
  where
    shown : (t : Bool) → nonempty (show_time t) ≡ true
    shown true = refl
    shown false = refl

    read_back : (t : Bool) → read_time (show_time t) ≡ some t
    read_back true = refl
    read_back false = refl

normalize_to_entry_round_trip_example :
    (normalize_to_entry show_time read_time no_number (
        entry_to_alert show_time read_time no_number
          (normalize_to_entry show_time read_time no_number s1))
      ≡ record (normalize_to_entry show_time read_time no_number s1) { incident_number = none })
    × ((entry_to_alert show_time read_time no_number
          (normalize_to_entry show_time read_time no_number s1)).severity
        ≡ s1.severity)
    × ((entry_to_alert show_time read_time no_number
          (normalize_to_entry show_time read_time no_number s1)).classification
        ≡ s1.classification)
    × ((entry_to_alert show_time read_time no_number
          (normalize_to_entry show_time read_time no_number s1)).created
        ≡ s1.created)
    × ((entry_to_alert show_time read_time no_number
          (normalize_to_entry show_time read_time no_number s1)).resolved
        ≡ s1.resolved)
normalize_to_entry_round_trip_example =
    normalize_to_entry_round_trip show_time read_time no_number s1 clock

abbrev lowered : String → String
lowered s = if s == "Active" then "active" else if s == "TruePositive" then "truepositive" else s

apply_arm_overlay_to_daily_files_settles_example :
    apply_arm_overlay_to_daily_files lowered
      (λ s. some s)
      (apply_arm_overlay_to_daily_files lowered (λ s. some s) daily (closing ∷ [])).0
      (closing ∷ [])
    ≡ ((apply_arm_overlay_to_daily_files lowered (λ s. some s) daily (closing ∷ [])).0, 0, 0)
apply_arm_overlay_to_daily_files_settles_example =
    apply_arm_overlay_to_daily_files_settles lowered (λ s. some s) daily (closing ∷ [])
