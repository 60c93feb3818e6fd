-- ===== src/Alerts/Overlay.antt =====
-- contentops/alerts/merge.py, `overlay_arm_incidents`: the state of ARM's incidents, laid over alerts.
-- An incident is a record of what the code reads from its JSON; `owner` is none where it is not a
-- mapping. Parameters: `str.lower`, `str` of a number, and the reading of a closing time.
pub mod Wins
use content_ops.Prelude.{
  if◌then◌else◌, ◌==◌, nonempty, truthy, option_beq, keep, is_empty, Dict, get, put, ℕ, String,
  Bool, false, ◌&&◌, not, Option, none, some, List, [], ◌∷◌, ◌++◌, map, string_eq, nat_eq,
  option_eq, pair_eq, option_eq, pair_eq,
}
use content_ops.Alerts.Model.{
  AlertStatus, resolved_alert, or_option, status_from_sentinel, classification_from_sentinel,
  determination_from_sentinel, NormalizedAlert,
}

pub record Owner : Type 0 where
  pub assigned_to : Option String
  pub email : Option String

pub record Incident : Type 0 where
  pub alert_product_ids : List String
  pub incident_number : Option ℕ
  pub status : String
  pub classification : String
  pub classification_reason : String
  pub closed_time_utc : Option String
  pub owner : Option Owner

-- `for aid in alert_ids: patch_map[aid] = patch`
unfoldable pub patch_ids {ℓ} : {V : Type ℓ} → List String → V → Dict String V → Dict String V
unfolding put
patch_ids [] patch d = d
patch_ids (i ∷ ids) patch d = patch_ids ids patch (put i patch d)

-- `incident_number` as a truth value
abbrev pub number_given : Option ℕ → Bool
number_given none = false
number_given (some n) = not (n == 0)

module _ {Time : Type 0} (lower : String → String) (show : ℕ → String)
    (parse_time : String → Option Time) where
  -- The alerts of the incident's number
  unfoldable pub ids_of_number : Option ℕ → List (NormalizedAlert Time) → List String
  unfolding keep
  ids_of_number none alerts = []
  ids_of_number (some n) alerts =
      map (λ (a : NormalizedAlert Time). a.id)
        (keep (λ (a : NormalizedAlert Time). option_beq a.incident_id (some (show n))) alerts)

  -- The ids that an incident's patch is put under
  unfoldable pub patched_ids : List (NormalizedAlert Time) → Incident → List String
  unfolding ids_of_number
  patched_ids alerts inc =
      if number_given inc.incident_number && is_empty inc.alert_product_ids
      then inc.alert_product_ids ++ ids_of_number inc.incident_number alerts
      else inc.alert_product_ids

  unfoldable pub patch_map :
      List (NormalizedAlert Time) → List Incident → Dict String Incident → Dict String Incident
  unfolding patch_ids patched_ids
  patch_map alerts [] d = d
  patch_map alerts (inc ∷ incs) d = patch_map alerts incs (patch_ids (patched_ids alerts inc) inc d)

  unfoldable pub new_resolved : Incident → AlertStatus → Option Time → Option Time
  new_resolved inc status resolved =
      if truthy inc.closed_time_utc
      then elim inc.closed_time_utc [
        | none ↦ resolved
        | some raw ↦ elim (parse_time raw) [ none ↦ resolved | some t ↦ some t ]
      ]
      else elim status [ resolved_alert ↦ resolved | _ ↦ none ]

  abbrev pub new_assigned_to : Option Owner → Option String → Option String
  new_assigned_to none before = before
  new_assigned_to (some o) before = or_option (or_option o.assigned_to o.email) before

  abbrev pub number_text : Option ℕ → Option String → Option String
  number_text none before = before
  number_text (some n) before = some (show n)

  -- The copy of an alert with the patch
  unfoldable pub patched : Incident → NormalizedAlert Time → NormalizedAlert Time
  unfolding status_from_sentinel classification_from_sentinel determination_from_sentinel
      new_resolved
  patched inc alert =
      let status =
        if nonempty inc.status then status_from_sentinel lower inc.status else alert.status in
      record alert {
        status = status;
        classification =
            if nonempty inc.classification
            then classification_from_sentinel lower inc.classification
            else alert.classification;
        determination =
            if nonempty inc.classification_reason
            then determination_from_sentinel lower inc.classification_reason
            else alert.determination;
        resolved = new_resolved inc status alert.resolved;
        incident_id = number_text inc.incident_number alert.incident_id;
        assigned_to = new_assigned_to inc.owner alert.assigned_to;
        source = "both";
      }

  abbrev pub overlay_one : Option Incident → NormalizedAlert Time → NormalizedAlert Time
  overlay_one none alert = alert
  overlay_one (some inc) alert = patched inc alert

  unfoldable pub overlay_arm_incidents :
      List (NormalizedAlert Time) → List Incident → List (NormalizedAlert Time)
  unfolding patch_map patched get
  overlay_arm_incidents alerts [] = alerts
  overlay_arm_incidents alerts (inc ∷ incs) =
      let patches = patch_map alerts (inc ∷ incs) [] in
      map (λ (a : NormalizedAlert Time). overlay_one (get a.id patches) a) alerts
