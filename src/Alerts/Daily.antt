-- ===== src/Alerts/Daily.antt =====
-- contentops/alerts/merge.py, `apply_arm_overlay_to_daily_files`: ARM's incidents, laid over the
-- daily files. Parameters: `str.lower`, and `fromisoformat(...).isoformat()` of a closing time.
pub mod Stable
pub mod Again
use content_ops.Prelude.{
  if◌then◌else◌, ◌==◌, nonempty, truthy, option_beq, contains, Dict, get, put, ℕ, ◌+◌, String, Bool,
  true, false, ◌&&◌, ◌||◌, not, Option, none, some, List, [], ◌∷◌, string_eq, nat_eq, option_eq,
  pair_eq, option_eq, pair_eq,
}
use content_ops.Alerts.Model.{
  AlertClassification, classification_from_sentinel, classification_value,
}
use content_ops.Alerts.Overlay.{Incident, patch_ids}
use content_ops.Alerts.Ledger.{LedgerEntry, File, load_ledger, write_daily_file}

pub record Patch : Type 0 where
  pub classification : Option AlertClassification
  pub closed_at : Option String
  pub incident_number : Option ℕ
  pub is_reopened : Bool

-- What an entry becomes, and `needs_update`
abbrev pub Update : Type 0
Update = LedgerEntry × Bool

abbrev pub or_undetermined : Option AlertClassification → String
or_undetermined none = "undetermined"
or_undetermined (some c) = classification_value c

-- The patch's classification, where it differs
unfoldable pub with_classification : Option AlertClassification → LedgerEntry → Update
unfolding classification_value
with_classification none e = (e, false)
with_classification (some c) e =
    if classification_value c == e.classification
    then (e, false)
    else (record e { classification = classification_value c }, true)

-- The closing time; `before` is the entry's own.
unfoldable pub with_closed : Patch → Option String → LedgerEntry → Update
unfolding classification_value
with_closed p before e =
    if p.is_reopened && not (option_beq before none)
    then (record e { closed_at = none; classification = or_undetermined p.classification }, true)
    else if not (option_beq p.closed_at none) && not (option_beq p.closed_at before)
    then (record e { closed_at = p.closed_at }, true)
    else (e, false)

unfoldable pub with_number : Option ℕ → LedgerEntry → Update
with_number none e = (e, false)
with_number (some n) e =
    if option_beq e.incident_number (some n)
    then (e, false)
    else (record e { incident_number = some n }, true)

-- One entry that has a patch
unfoldable pub patch_entry : Patch → LedgerEntry → Update
unfolding with_classification with_closed with_number
patch_entry p entry =
    let one = with_classification p.classification entry in
    let two = with_closed p entry.closed_at one.0 in
    let three = with_number p.incident_number two.0 in
    if one.1 || two.1 || three.1 then (record three.0 { source = "both" }, true) else (entry, false)

pub record PatchMaps : Type 0 where
  pub by_alert : Dict String Patch
  pub by_number : Dict ℕ Patch

-- `patch_map.get(entry.alert_id)`, or the patch of the entry's incident number
unfoldable pub patch_for : PatchMaps → LedgerEntry → Option Patch
unfolding get
patch_for maps e = elim (get e.alert_id maps.by_alert) [
  | some p ↦ some p
  | none ↦ elim e.incident_number [ none ↦ none | some n ↦ get n maps.by_number ]
]

unfoldable pub overlay_entry : PatchMaps → LedgerEntry → Update
unfolding patch_for patch_entry
overlay_entry maps e = elim (patch_for maps e) [ none ↦ (e, false) | some p ↦ patch_entry p e ]

-- The new entries of a file, and how many were updated
unfoldable pub overlay_entries : PatchMaps → List LedgerEntry → List LedgerEntry × ℕ
unfolding overlay_entry
overlay_entries maps [] = ([], 0)
overlay_entries maps (e ∷ entries) =
    let u = overlay_entry maps e in
    let rest = overlay_entries maps entries in (u.0 ∷ rest.0, (if u.1 then 1 else 0) + rest.1)

-- A daily file after the overlay, and the number of its updated entries. A file is written only if
-- there are some.
unfoldable pub overlay_file : PatchMaps → File → File × ℕ
unfolding load_ledger overlay_entries write_daily_file
overlay_file maps f =
    let new = overlay_entries maps (load_ledger f) in
    if new.1 == 0 then (f, 0) else (write_daily_file new.0, new.1)

-- The files after the overlay, `files_patched` and `entries_updated`
unfoldable pub overlay_files : PatchMaps → List File → List File × ℕ × ℕ
unfolding overlay_file
overlay_files maps [] = ([], 0, 0)
overlay_files maps (f ∷ files) =
    let one = overlay_file maps f in
    let rest = overlay_files maps files in
    (one.0 ∷ rest.0, (if one.1 == 0 then 0 else 1) + rest.1, one.1 + rest.2)

-- `if incident_number is not None: incident_number_map[incident_number] = patch`
abbrev pub put_number : Option ℕ → Patch → Dict ℕ Patch → Dict ℕ Patch
put_number none p d = d
put_number (some n) p d = put n p d

module _ (lower : String → String) (iso_of : String → Option String) where
  unfoldable pub patch_of : Incident → Patch
  unfolding contains classification_from_sentinel
  patch_of inc =
      let reopened = contains (lower inc.status) ("new" ∷ "active" ∷ []) in
      let closed =
        if truthy inc.closed_time_utc
        then elim inc.closed_time_utc [ none ↦ none | some raw ↦ iso_of raw ]
        else none in
      record {
        classification =
            if nonempty inc.classification
            then some (classification_from_sentinel lower inc.classification)
            else none;
        closed_at = if reopened then none else closed;
        incident_number = inc.incident_number;
        is_reopened = reopened;
      }

  unfoldable pub patch_maps : List Incident → PatchMaps → PatchMaps
  unfolding patch_of patch_ids put
  patch_maps [] maps = maps
  patch_maps (inc ∷ incs) maps =
      let p = patch_of inc in
      patch_maps incs (record {
        by_alert = patch_ids inc.alert_product_ids p maps.by_alert;
        by_number = put_number inc.incident_number p maps.by_number;
      })

  unfoldable pub apply_arm_overlay_to_daily_files : List File → List Incident → List File × ℕ × ℕ
  unfolding patch_maps overlay_files
  apply_arm_overlay_to_daily_files files [] = (files, 0, 0)
  apply_arm_overlay_to_daily_files files (inc ∷ incs) =
      overlay_files (patch_maps (inc ∷ incs) (record { by_alert = []; by_number = [] })) files
