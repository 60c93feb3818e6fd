-- ===== src/Alerts/Ledger/Latest.antt =====
-- The ledger that `rebuild_ledger_from_daily` writes holds the latest entry of each alert.
use content_ops.Prelude.{
  Bool-cases, Option-cases, string_eq, ◌==◌, length, keep, last?, Dict, get, put, get-put, String,
  ◌≡◌, refl, sym, ap, ◌∙◌, subst, inl, inr, Bool, Option, none, some, List, [], ◌∷◌, arith, nat_eq,
  option_eq, pair_eq, option_eq, pair_eq,
}
use content_ops.Alerts.Ledger.{
  LedgerEntry, File, load_ledger, lines_of, append_entries, latest_by_id, values, load_daily_files,
  rebuild_ledger_from_daily,
}

abbrev pub of_alert : String → LedgerEntry → Bool
of_alert i e = e.alert_id == i

abbrev pub as_list {ℓ} : {A : Type ℓ} → Option A → List A
as_list none = []
as_list (some a) = a ∷ []

-- Each entry is under its own alert id, and no key comes twice.
abbrev Indexed : Dict String LedgerEntry → Type 0
Indexed [] = Unit
Indexed ((k, e) ∷ d) = (e.alert_id ≡ k) × (get k d ≡ none) × Indexed d

put-Indexed :
    (e : LedgerEntry) (d : Dict String LedgerEntry) → Indexed d → Indexed (put e.alert_id e d)
unfolding put get
put-Indexed e [] h = (refl, refl, tt)
put-Indexed e ((k, w) ∷ d) h = elim (Bool-cases (k == e.alert_id)) [
  | inl same ↦ rw (same, put) (sym ((string_eq.equal_iff k e.alert_id).0 same), h.1, h.2)
  | inr differ ↦
      let fresh : get k (put e.alert_id e d) ≡ none = ground (
        arith,
        get-put e.alert_id k e d,
        string_eq.equal_iff e.alert_id k,
        string_eq.equal_iff k e.alert_id,
        h.1,
      ) in
      rw (differ, put) (h.0, fresh, put-Indexed e d h.2)
]

latest_by_id-Indexed :
    (entries : List LedgerEntry) (d : Dict String LedgerEntry)
    → Indexed d
    → Indexed (latest_by_id entries d)
unfolding latest_by_id
latest_by_id-Indexed [] d h = h
latest_by_id-Indexed (e ∷ entries) d h =
    latest_by_id-Indexed entries (put e.alert_id e d) (put-Indexed e d h)

keep-values :
    (i : String) (d : Dict String LedgerEntry)
    → Indexed d
    → keep (of_alert i) (values d) ≡ as_list (get i d)
unfolding keep get
keep-values i [] h = refl
keep-values i ((k, e) ∷ d) h = elim (Bool-cases (k == i)) [
  | inl same ↦
      let here = (string_eq.equal_iff k i).0 same in
      let gone = keep-values i d h.2 ∙ ap as_list (subst (λ j. get j d ≡ none) here h.1) in
      rw (same, (string_eq.equal_iff e.alert_id i).1 (h.0 ∙ here), gone) refl
  | inr differ ↦ ground (arith, string_eq.equal_iff e.alert_id i, h.0, keep-values i d h.2)
]

abbrev or_before : Option LedgerEntry → Option LedgerEntry → Option LedgerEntry
or_before none before = before
or_before (some e) before = some e

get-latest_by_id :
    (i : String) (entries : List LedgerEntry) (d : Dict String LedgerEntry)
    → get i (latest_by_id entries d) ≡ or_before (last? (keep (of_alert i) entries)) (get i d)
unfolding latest_by_id keep last?
get-latest_by_id i [] d = refl
get-latest_by_id i (e ∷ entries) d =
    ground (arith, get-latest_by_id i entries (put e.alert_id e d), get-put e.alert_id i e d)

deduped_exact :
    (i : String) (entries : List LedgerEntry)
    → keep (of_alert i) (values (latest_by_id entries []))
      ≡ as_list (last? (keep (of_alert i) entries))
unfolding get
deduped_exact i entries =
    keep-values i (latest_by_id entries []) (latest_by_id-Indexed entries [] tt)
    ∙ ap as_list (
        get-latest_by_id i entries [] ∙ elim (Option-cases (last? (keep (of_alert i) entries))) [
          | inl e ↦ rw e refl
          | inr (x, e) ↦ rw e refl
        ])

pub load_ledger-lines :
    (entries : List LedgerEntry) → load_ledger (some (lines_of entries)) ≡ entries
unfolding load_ledger
load_ledger-lines [] = refl
load_ledger-lines (e ∷ entries) = ap (λ es. e ∷ es) (load_ledger-lines entries)

-- The rebuilt ledger has, for each alert id, exactly the last entry with that id in the daily files,
-- in the order of their names and lines, and no entry for an id that they do not have. The number
-- returned is the number of its entries.
pub rebuild_ledger_from_daily_exact :
    (files : List File)
    → ((i : String)
        → keep (of_alert i) (load_ledger (rebuild_ledger_from_daily files).0)
          ≡ as_list (last? (keep (of_alert i) (load_daily_files files))))
      × ((rebuild_ledger_from_daily files).1
          ≡ length (load_ledger (rebuild_ledger_from_daily files).0))
unfolding rebuild_ledger_from_daily append_entries
rebuild_ledger_from_daily_exact files =
    let deduped = values (latest_by_id (load_daily_files files) []) in
    (
      λ i.
          ap (keep (of_alert i)) (load_ledger-lines deduped)
          ∙ deduped_exact i (load_daily_files files),
      ap length (sym (load_ledger-lines deduped)),
    )
