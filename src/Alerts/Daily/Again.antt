-- ===== src/Alerts/Daily/Again.antt =====
-- The daily files after one overlay, overlaid again.
use content_ops.Prelude.{
  Bool-cases, Option-cases, ◌==◌, Dict, get, put, Entries, get-Entries, put-Entries, ℕ, String, ◌≡◌,
  refl, ◌∙◌, subst, inl, inr, true, false, Option, none, some, List, [], ◌∷◌, arith, string_eq,
  nat_eq, option_eq, pair_eq, option_eq, pair_eq,
}
use content_ops.Alerts.Model.{AlertClassification}
use content_ops.Alerts.Ledger.{LedgerEntry, File, load_ledger, write_daily_file}
use content_ops.Alerts.Ledger.Latest.{load_ledger-lines}
use content_ops.Alerts.Daily.{
  Patch, with_classification, with_closed, with_number, patch_entry, PatchMaps, patch_for,
  overlay_entry, overlay_entries, overlay_file, overlay_files, put_number, patch_of, patch_maps,
  apply_arm_overlay_to_daily_files,
}
use content_ops.Alerts.Daily.Stable.{patch_entry_stays, patch_entry-Settled}
use content_ops.Alerts.Overlay.{Incident, patch_ids}

-- A reopened incident's patch has no closing time.
abbrev IsConsistent : Patch → Type 0
IsConsistent p = p.is_reopened ≡ true → p.closed_at ≡ none

record AreConsistent (maps : PatchMaps) : Type 0 where
  alerts : Entries (λ (i : String) p. IsConsistent p) maps.by_alert
  numbers : Entries (λ n p. IsConsistent p × (p.incident_number ≡ some n)) maps.by_number

with_number_id : (n : Option ℕ) (e : LedgerEntry) → (with_number n e).0.alert_id ≡ e.alert_id
unfolding with_number
with_number_id none e = refl
with_number_id (some n) e = ground arith

with_closed_id :
    (p : Patch) (before : Option String) (e : LedgerEntry)
    → ((with_closed p before e).0.alert_id ≡ e.alert_id)
      × ((with_closed p before e).0.incident_number ≡ e.incident_number)
unfolding with_closed
with_closed_id p before e = (ground arith, ground arith)

with_classification_id :
    (c : Option AlertClassification) (e : LedgerEntry)
    → ((with_classification c e).0.alert_id ≡ e.alert_id)
      × ((with_classification c e).0.incident_number ≡ e.incident_number)
unfolding with_classification
with_classification_id none e = (refl, refl)
with_classification_id (some c) e = (ground arith, ground arith)

with_number_stays :
    (n : ℕ) (m : Option ℕ) (e : LedgerEntry)
    → m ≡ some n
    → e.incident_number ≡ some n
    → (with_number m e).0.incident_number ≡ some n
unfolding with_number
with_number_stays n none e h k = k
with_number_stays n (some m) e h k = ground (arith, h, k)

patch_entry_id : (p : Patch) (e : LedgerEntry) → (patch_entry p e).0.alert_id ≡ e.alert_id
unfolding patch_entry
patch_entry_id p e =
    let one = with_classification p.classification e in
    let two = with_closed p e.closed_at one.0 in
    ground (
      arith,
      with_number_id p.incident_number two.0,
      (with_closed_id p e.closed_at one.0).0,
      (with_classification_id p.classification e).0,
    )

patch_entry_number :
    (n : ℕ) (p : Patch) (e : LedgerEntry)
    → p.incident_number ≡ some n
    → e.incident_number ≡ some n
    → (patch_entry p e).0.incident_number ≡ some n
unfolding patch_entry
patch_entry_number n p e h k =
    let one = with_classification p.classification e in
    let two = with_closed p e.closed_at one.0 in
    ground (
      arith,
      with_number_stays n p.incident_number two.0 h (
          (with_closed_id p e.closed_at one.0).1
          ∙ (with_classification_id p.classification e).1
          ∙ k),
    )

module _ (maps : PatchMaps) (valid : AreConsistent maps) where
  patch_for-IsConsistent :
      (e : LedgerEntry) (p : Patch) → patch_for maps e ≡ some p → IsConsistent p
  unfolding patch_for
  patch_for-IsConsistent e p h = elim (Option-cases (get e.alert_id maps.by_alert)) [
    | inr (q, found) ↦
        let same : q ≡ p = ground arith in
        subst IsConsistent same (get-Entries _ e.alert_id q maps.by_alert valid.alerts found)
    | inl absent ↦ elim (Option-cases e.incident_number) [
      | inl missing ↦ ground arith
      | inr (n, number) ↦
          (get-Entries (λ n p. IsConsistent p × (p.incident_number ≡ some n)) n p maps.by_number
            valid.numbers (ground arith)).0
    ]
  ]

  patch_for-patch_entry :
      (e : LedgerEntry) (p : Patch)
      → patch_for maps e ≡ some p
      → patch_for maps (patch_entry p e).0 ≡ some p
  unfolding patch_for
  patch_for-patch_entry e p h = elim (Option-cases (get e.alert_id maps.by_alert)) [
    | inr (q, found) ↦ ground (arith, patch_entry_id p e)
    | inl absent ↦ elim (Option-cases e.incident_number) [
      | inl missing ↦ ground arith
      | inr (n, number) ↦
          let got : get n maps.by_number ≡ some p = ground arith in
          let own =
            (get-Entries (λ n p. IsConsistent p × (p.incident_number ≡ some n)) n p maps.by_number
              valid.numbers got).1 in
          ground (arith, patch_entry_id p e, patch_entry_number n p e own number)
    ]
  ]

  overlay_entry-found :
      (e : LedgerEntry) (p : Patch)
      → patch_for maps e ≡ some p
      → overlay_entry maps e ≡ patch_entry p e
  unfolding overlay_entry
  overlay_entry-found e p found = simp (found, overlay_entry)

  overlay_entry_twice :
      (e : LedgerEntry)
      → overlay_entry maps (overlay_entry maps e).0 ≡ ((overlay_entry maps e).0, false)
  unfolding overlay_entry
  overlay_entry_twice e = elim (Option-cases (patch_for maps e)) [
    | inl absent ↦
        let same : overlay_entry maps e ≡ (e, false) = simp (absent, overlay_entry) in
        simp (same, same)
    | inr (p, found) ↦
        let new = (patch_entry p e).0 in
        let settled =
          patch_entry_stays p new (patch_entry-Settled p e (patch_for-IsConsistent e p found)) in
        simp (
          overlay_entry-found e p found,
          overlay_entry-found new p (patch_for-patch_entry e p found),
          settled,
        )
  ]

  overlay_entries_twice :
      (entries : List LedgerEntry)
      → overlay_entries maps (overlay_entries maps entries).0
        ≡ ((overlay_entries maps entries).0, 0)
  unfolding overlay_entries
  overlay_entries_twice [] = refl
  overlay_entries_twice (e ∷ entries) = simp (overlay_entry_twice e, overlay_entries_twice entries)

  overlay_file_twice :
      (f : File) → overlay_file maps (overlay_file maps f).0 ≡ ((overlay_file maps f).0, 0)
  unfolding overlay_file write_daily_file
  overlay_file_twice f =
      let new = overlay_entries maps (load_ledger f) in
      elim (Bool-cases (new.1 == 0)) [
        | inl idle ↦ simp (idle, overlay_file)
        | inr busy ↦ simp (busy, load_ledger-lines new.0, overlay_entries_twice (load_ledger f))
      ]

  overlay_files_twice :
      (files : List File)
      → overlay_files maps (overlay_files maps files).0 ≡ ((overlay_files maps files).0, 0, 0)
  unfolding overlay_files
  overlay_files_twice [] = refl
  overlay_files_twice (f ∷ files) = simp (overlay_file_twice f, overlay_files_twice files)

patch_ids-Entries :
    (P : Patch → Type 0) (ids : List String) (p : Patch) (d : Dict String Patch)
    → P p
    → Entries (λ (i : String) q. P q) d
    → Entries (λ (i : String) q. P q) (patch_ids ids p d)
unfolding patch_ids
patch_ids-Entries P [] p d h t = t
patch_ids-Entries P (i ∷ ids) p d h t =
    patch_ids-Entries P ids p (put i p d) h (put-Entries (λ (j : String) q. P q) i p d h t)

put_number-Entries :
    (n : Option ℕ) (p : Patch) (d : Dict ℕ Patch)
    → p.incident_number ≡ n
    → IsConsistent p
    → Entries (λ n p. IsConsistent p × (p.incident_number ≡ some n)) d
    → Entries (λ n p. IsConsistent p × (p.incident_number ≡ some n)) (put_number n p d)
put_number-Entries none p d e ok h = h
put_number-Entries (some n) p d e ok h =
    put-Entries (λ n p. IsConsistent p × (p.incident_number ≡ some n)) n p d (ok, e) h

module _ (lower : String → String) (iso_of : String → Option String) where
  patch_of-IsConsistent : (inc : Incident) → IsConsistent (patch_of lower iso_of inc)
  unfolding patch_of
  patch_of-IsConsistent inc h = simp (h, patch_of)

  patch_maps-AreConsistent :
      (incs : List Incident) (maps : PatchMaps)
      → AreConsistent maps
      → AreConsistent (patch_maps lower iso_of incs maps)
  unfolding patch_maps
  patch_maps-AreConsistent [] maps h = h
  patch_maps-AreConsistent (inc ∷ incs) maps h =
      let p = patch_of lower iso_of inc in
      let ok = patch_of-IsConsistent inc in
      let alerts =
        patch_ids-Entries IsConsistent inc.alert_product_ids p maps.by_alert ok h.alerts in
      patch_maps-AreConsistent incs _ record {
        alerts = alerts;
        numbers = put_number-Entries inc.incident_number p maps.by_number refl ok h.numbers;
      }

  -- Overlaying the same incidents on the daily files a second time patches no file and updates no
  -- entry.
  pub apply_arm_overlay_to_daily_files_settles :
      (files : List File) (incs : List Incident)
      → apply_arm_overlay_to_daily_files lower iso_of
          (apply_arm_overlay_to_daily_files lower iso_of files incs).0
          incs
        ≡ ((apply_arm_overlay_to_daily_files lower iso_of files incs).0, 0, 0)
  unfolding apply_arm_overlay_to_daily_files
  apply_arm_overlay_to_daily_files_settles files [] = refl
  apply_arm_overlay_to_daily_files_settles files (inc ∷ incs) =
      overlay_files_twice _
        (patch_maps-AreConsistent (inc ∷ incs) _ record { alerts = tt; numbers = tt }) files
