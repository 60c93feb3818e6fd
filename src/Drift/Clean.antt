-- ===== src/Drift/Clean.antt =====
-- contentops/core/drift.py, `detect_drift`: what a report without drift and errors says.
use content_ops.Prelude.{
  if◌then◌else◌, Bool-cases, Option-cases, string_eq, nonempty, any_of, All, any_of-append, get,
  insert_sorted, sorted, String, ◌≡◌, refl, ◌∙◌, subst, ◌⊎◌, inl, inr, Bool, true, false, ◌||◌,
  Option, none, some, List, [], ◌∷◌, map, arith, nat_eq, option_eq, pair_eq, option_eq, pair_eq,
}
use content_ops.Loaded.{ok, Result-cases, LoadedAsset}
use content_ops.Asset.{Asset, asset_eq}
use content_ops.Drift.Detect.{
  Remote, Envelope, DriftCapable, is_drift, is_failed, Index, Pair, has_drift, has_errors,
  local_index, distinct_id, disambiguate_envelope_ids, remote_key, entry_for, pairs_of, pair_ltb,
  match_of, entries_for, compare_pairs, check_handler, detect_drift,
}

module _ {A : Type 0} (lt : A → A → Bool) (P : A → Type 0) where
  All-inserted : (x : A) (ys : List A) → All P (insert_sorted lt x ys) → P x × All P ys
  unfolding insert_sorted
  All-inserted x [] h = h
  All-inserted x (y ∷ ys) h = elim (Bool-cases (lt y x)) [
    | inl e ↦
        let k : P y × All P (insert_sorted lt x ys) = ground (arith, e, h) in
        let m = All-inserted x ys k.1 in (m.0, (k.0, m.1))
    | inr e ↦ ground (arith, e, h)
  ]

  All-unsorted : (xs : List A) → All P (sorted lt xs) → All P xs
  unfolding sorted
  All-unsorted [] h = tt
  All-unsorted (x ∷ xs) h = let m = All-inserted x (sorted lt xs) h in (m.0, All-unsorted xs m.1)

module _ {Payload : Type 0} (payloads_match : Payload → Payload → Bool) where
  quiet_entry :
      (kind : Asset) (e : Envelope Payload) (m : Option (String × Payload))
      → is_drift (entry_for payloads_match kind e m).kind ≡ false
      → (l : String × Payload) × (m ≡ some l) × (payloads_match l.1 e.payload ≡ true)
  unfolding entry_for
  quiet_entry kind e none h = cc
  quiet_entry kind e (some l) h = elim (Bool-cases (payloads_match l.1 e.payload)) [
    | inl y ↦ (l, refl, y)
    | inr n ↦ ground (arith, n, h)
  ]

empty_text : (s : String) → nonempty s ≡ false → s ≡ ""
empty_text s h = (string_eq.equal_iff s "").0 (ground (arith, h))

-- An id that was chosen is empty only where there was none.
none_chosen : (a b : String) → nonempty (if nonempty a then a else b) ≡ false → b ≡ ""
none_chosen a b h = elim (Bool-cases (nonempty a)) [
  | inl y ↦ ground (arith, y, h)
  | inr n ↦ empty_text b (ground (arith, n, h))
]

-- The id of the envelope, made distinct among all envelopes, and otherwise the envelope's own.
abbrev pub asset_id_of :
    {Payload : Type 0}
    → (lower : String → String) → List (Envelope Payload)
    → Envelope Payload
    → String
asset_id_of lower all e =
    let other = (distinct_id lower all e).id in if nonempty other then other else e.id

-- The envelopes of the items, in the order of the report.
abbrev pub envelopes_of :
    {Payload Body : Type 0} → List (Pair Payload Body) → List (Envelope Payload)
envelopes_of pairs = map (λ p. p.0) (sorted pair_ltb pairs)

module _ {Payload Body : Type 0} (payloads_match : Payload → Payload → Bool)
    (lower : String → String) where
  -- The local file that stands for the item has its payload. It is the file under the item's name
  -- (its id, if it has no name), or else, where there is none, the one under its asset id.
  pub record IsMirrored (files : Index Payload) (all : List (Envelope Payload))
      (p : Pair Payload Body) : Type 0 where
    pub path : String
    pub payload : Payload
    pub found :
        ((nonempty (remote_key p.1) ≡ true) × (get (remote_key p.1) files ≡ some (path, payload)))
        ⊎ (((nonempty (remote_key p.1) ≡ false) ⊎ (get (remote_key p.1) files ≡ none))
            × (get (asset_id_of lower all p.0) files ≡ some (path, payload)))
    pub agrees : payloads_match payload p.0.payload ≡ true

  -- An item without any id is not compared.
  abbrev pub IsInSync : Index Payload → List (Envelope Payload) → Pair Payload Body → Type 0
  IsInSync files all p = (p.0.id ≡ "") ⊎ IsMirrored files all p

  match_found :
      (files : Index Payload) (asset_id : String) (r : Remote Body) (l : String × Payload)
      → match_of files asset_id r ≡ some l
      → ((nonempty (remote_key r) ≡ true) × (get (remote_key r) files ≡ some l))
        ⊎ (((nonempty (remote_key r) ≡ false) ⊎ (get (remote_key r) files ≡ none))
            × (get asset_id files ≡ some l))
  unfolding match_of
  match_found files asset_id r l e = elim (Bool-cases (nonempty (remote_key r))) [
    | inr nameless ↦ inr (inl nameless, ground (arith, e, nameless))
    | inl named ↦ elim (Option-cases (get (remote_key r) files)) [
      | inl missing ↦ inr (inr missing, ground (arith, e, named, missing))
      | inr (m, there) ↦ inl (named, there ∙ ground (arith, e, named, there))
    ]
  ]

  module _ (kind : Asset) (files : Index Payload) (all : List (Envelope Payload)) where
    quiet_entries :
        (pairs : List (Pair Payload Body))
        → has_drift (
            entries_for lower payloads_match kind files pairs
              (map (distinct_id lower all) (map (λ p. p.0) pairs)))
          ≡ false
        → All (IsInSync files all) pairs
    unfolding entries_for has_drift any_of
    quiet_entries [] h = tt
    quiet_entries (p ∷ pairs) h =
        let others = map (distinct_id lower all) (map (λ q. q.0) pairs) in
        let rest = entries_for lower payloads_match kind files pairs others in
        let asset_id = asset_id_of lower all p.0 in
        let m = match_of files asset_id p.1 in
        let e = record p.0 { id = asset_id } in
        elim (Bool-cases (nonempty asset_id)) [
          | inl y ↦
              let k : is_drift (entry_for payloads_match kind e m).kind || has_drift rest ≡ false =
                ground (arith, y, h) in
              let q = quiet_entry payloads_match kind e m (ground (arith, k)) in
              (
                inr record {
                  path = q.0.0;
                  payload = q.0.1;
                  found = match_found files asset_id p.1 q.0 q.1;
                  agrees = q.2;
                },
                quiet_entries pairs (ground (arith, k)),
              )
          | inr n ↦
              let k : has_drift rest ≡ false = ground (arith, n, h) in
              (inl (none_chosen (distinct_id lower all p.0).id p.0.id n), quiet_entries pairs k)
        ]

  module _ (files : List (Option (LoadedAsset Payload))) where
    -- The items were listed, and each with an id has a local file with its payload.
    abbrev pub IsChecked : DriftCapable Payload Body → Type 0
    IsChecked h =
        (remotes : List (Remote Body)) × (h.list_remote ≡ ok remotes)
        × All (IsInSync (local_index h.asset files) (envelopes_of (pairs_of h.to_envelope remotes)))
            (pairs_of h.to_envelope remotes)

    check_handler-IsChecked :
        (h : DriftCapable Payload Body)
        → has_drift (check_handler lower payloads_match files h) ≡ false
        → has_errors (check_handler lower payloads_match files h) ≡ false
        → IsChecked h
    unfolding check_handler compare_pairs has_errors any_of disambiguate_envelope_ids
    check_handler-IsChecked h quiet clean = elim (Result-cases h.list_remote) [
      | inl (remotes, e) ↦
          let pairs = pairs_of h.to_envelope remotes in
          let ordered = sorted pair_ltb pairs in
          let k =
            subst
              (λ r.
                has_drift (check_handler lower payloads_match files (record h { list_remote = r }))
                ≡ false)
              e quiet in
          let all =
            quiet_entries h.asset (local_index h.asset files) (envelopes_of pairs) ordered k in
          (
            remotes,
            e,
            All-unsorted pair_ltb (IsInSync (local_index h.asset files) (envelopes_of pairs)) pairs
                all,
          )
      | inr (exc, e) ↦ ground (arith, e, clean)
    ]

    -- A report that shows neither drift nor errors means that every handler could list its items,
    -- and that each of them that has an envelope with an id agrees with the payload of a local file:
    -- the one under the item's name (its id, if it has no name), or, where there is none, the one
    -- under the envelope's id, made distinct among the envelopes.
    pub detect_drift-IsChecked :
        (hs : List (DriftCapable Payload Body))
        → has_drift (detect_drift lower payloads_match hs files) ≡ false
        → has_errors (detect_drift lower payloads_match hs files) ≡ false
        → All IsChecked hs
    unfolding detect_drift has_drift has_errors
    detect_drift-IsChecked [] quiet clean = tt
    detect_drift-IsChecked (h ∷ hs) quiet clean =
        let one = check_handler lower payloads_match files h in
        let rest = detect_drift lower payloads_match hs files in
        let d = any_of-append (λ e. is_drift e.kind) one rest in
        let x = any_of-append (λ e. is_failed e.kind) one rest in
        (
          check_handler-IsChecked h (ground (arith, d, quiet)) (ground (arith, x, clean)),
          detect_drift-IsChecked hs (ground (arith, d, quiet)) (ground (arith, x, clean)),
        )
