-- ===== src/Alerts/Indexes.antt =====
-- What the two indexes of `merge_alerts` hold: alerts under their correlation keys, and Graph alerts
-- under their incidents.
use content_ops.Prelude.{
  Bool-cases, Option-cases, ==_refl, nonempty, is_empty, All, All-append, All-imp, contains,
  All-contains, Dict, get, has, Member, Entries, get-Entries, put-Entries, String, ◌≡◌, refl, inl,
  inr, true, false, ◌&&◌, not, some, List, [], ◌∷◌, ◌++◌, arith, string_eq, nat_eq, option_eq,
  pair_eq, option_eq, pair_eq,
}
use content_ops.Alerts.Model.{NormalizedAlert, correlation_keys}
use content_ops.Alerts.Merge.{set_default, push, index_keys, index_by_key, first_match, by_incident}

module _ {V : Type 0} (P : String → V → Type 0) where
  pub set_default-Entries :
      (k : String) (v : V) (d : Dict String V) → P k v → Entries P d → Entries P (set_default k v d)
  unfolding set_default
  set_default-Entries k v d p h = elim (Bool-cases (has k d)) [
    | inl there ↦ rw (there, set_default) h
    | inr absent ↦ rw (absent, set_default) (put-Entries P k v d p h)
  ]

module _ {Time : Type 0} (alerts : List (NormalizedAlert Time)) where
  -- One of the alerts, under one of its correlation keys
  abbrev pub Keyed : String → NormalizedAlert Time → Type 0
  Keyed k a = Member a alerts × (contains k (correlation_keys a) ≡ true)

  index_keys-Entries :
      (ks : List String) (a : NormalizedAlert Time) (index : Dict String (NormalizedAlert Time))
      → All (λ k. Keyed k a) ks
      → Entries Keyed index
      → Entries Keyed (index_keys ks a index)
  unfolding index_keys
  index_keys-Entries [] a index h t = t
  index_keys-Entries (k ∷ ks) a index h t =
      index_keys-Entries ks a (set_default k a index) h.1
        (set_default-Entries Keyed k a index h.0 t)

  pub index_by_key-Entries :
      (xs : List (NormalizedAlert Time)) (index : Dict String (NormalizedAlert Time))
      → All (λ (a : NormalizedAlert Time). Member a alerts) xs
      → Entries Keyed index
      → Entries Keyed (index_by_key xs index)
  unfolding index_by_key
  index_by_key-Entries [] index h t = t
  index_by_key-Entries (a ∷ rest) index h t =
      index_by_key-Entries rest (index_keys (correlation_keys a) a index) h.1 (
        index_keys-Entries (correlation_keys a) a index
          (All-imp (λ k. contains k (correlation_keys a) ≡ true) (λ k. Keyed k a)
            (correlation_keys a) (λ k c. (h.0, c)) (All-contains (correlation_keys a)))
          t)

  -- A match is one of the indexed alerts, and has one of the keys.
  pub first_match-Keyed :
      (ks : List String) (a : NormalizedAlert Time) (index : Dict String (NormalizedAlert Time))
      → Entries Keyed index
      → first_match ks index ≡ some a
      → (k : String) × (contains k ks ≡ true) × Keyed k a
  unfolding first_match contains
  first_match-Keyed [] a index t e = cc
  first_match-Keyed (k ∷ ks) a index t e = elim (Option-cases (get k index)) [
    | inl absent ↦
        let (j, c, m) = first_match-Keyed ks a index t (ground (arith, absent)) in
        (j, ground arith, m)
    | inr (b, found) ↦ (k, ground (arith, ==_refl k), get-Entries Keyed k a index t (ground arith))
  ]

  -- Alerts of one incident, at least one
  abbrev pub OfIncident : String → List (NormalizedAlert Time) → Type 0
  OfIncident i gas =
      (is_empty gas ≡ false)
      × All (λ (a : NormalizedAlert Time). Member a alerts × (a.incident_id ≡ some i)) gas

  is_empty-append :
      (xs ys : List (NormalizedAlert Time)) → is_empty xs ≡ false → is_empty (xs ++ ys) ≡ false
  is_empty-append [] ys h = cc
  is_empty-append (x ∷ xs) ys h = refl

  pub push-Entries :
      (i : String) (a : NormalizedAlert Time) (d : Dict String (List (NormalizedAlert Time)))
      → Member a alerts
      → a.incident_id ≡ some i
      → Entries OfIncident d
      → Entries OfIncident (push i a d)
  unfolding push
  push-Entries i a d m e t = elim (Option-cases (get i d)) [
    | inl absent ↦ rw (absent, push) (put-Entries OfIncident i (a ∷ []) d (refl, ((m, e), tt)) t)
    | inr (gas, found) ↦
        let all = get-Entries OfIncident i gas d t found in
        rw (found, push)
          (put-Entries OfIncident i (gas ++ a ∷ []) d
            (
              is_empty-append gas (a ∷ []) all.0,
              All-append (λ (b : NormalizedAlert Time). Member b alerts × (b.incident_id ≡ some i))
                  gas (a ∷ []) all.1 ((m, e), tt),
            )
            t)
  ]

  pub by_incident-Entries :
      (matched : List String) (gas : List (NormalizedAlert Time))
      (d : Dict String (List (NormalizedAlert Time)))
      → All (λ (a : NormalizedAlert Time). Member a alerts) gas
      → Entries OfIncident d
      → Entries OfIncident (by_incident matched gas d)
  unfolding by_incident
  by_incident-Entries matched [] d h t = t
  by_incident-Entries matched (ga ∷ gas) d h t = elim (Option-cases ga.incident_id) [
    | inl none_there ↦ rw (none_there, by_incident) (by_incident-Entries matched gas d h.1 t)
    | inr (i, e) ↦ elim (Bool-cases (not (contains ga.id matched) && nonempty i)) [
      | inl taken ↦
          rw (e, taken, by_incident)
            (by_incident-Entries matched gas (push i ga d) h.1 (push-Entries i ga d h.0 e t))
      | inr left ↦ rw (e, left, by_incident) (by_incident-Entries matched gas d h.1 t)
    ]
  ]
