-- ===== src/Alerts/Joins/Drops.antt =====
-- Two Sentinel alerts of one incident, of which the second is lost.
use content_ops.Prelude.{
  Option-cases, ◌==◌, ==_refl, nonempty, keep, contains, get, put, All-Member, String, ◌≡◌, refl,
  ap, ◌∙◌, inl, inr, true, false, none, some, [], ◌∷◌, arith, string_eq, nat_eq, option_eq, pair_eq,
  option_eq, pair_eq,
}
use content_ops.Alerts.Model.{NormalizedAlert, merge, correlation_keys}
use content_ops.Alerts.Merge.{
  push, Merging, index_by_key, first_match, join, mark, pass_one, by_incident, join_incident,
  pass_two_step, pass_two, start, passes, merge_alerts,
}
use content_ops.Alerts.Indexes.{index_by_key-Entries, first_match-Keyed}

module _ {Time : Type 0} (g s t : NormalizedAlert Time) where
  -- No key of the first alert is one of the others'.
  abbrev pub NoKeys : Type 0
  NoKeys =
      (k : String)
      → contains k (correlation_keys g) ≡ true
      → (contains k (correlation_keys s) ≡ false) × (contains k (correlation_keys t) ≡ false)

  absent : NoKeys → first_match (correlation_keys g) (index_by_key (s ∷ t ∷ []) []) ≡ none
  absent h = elim (Option-cases (first_match (correlation_keys g) (index_by_key (s ∷ t ∷ []) []))) [
    | inl e ↦ e
    | inr (a, e) ↦
        let sas = s ∷ t ∷ [] in
        let (k, c, (m, d)) =
          first_match-Keyed sas (correlation_keys g) a _
            (index_by_key-Entries sas sas [] (All-Member sas) tt) e in
        elim m [
          | inl here ↦ ground (arith, ap (λ x. contains k (correlation_keys x)) here, h k c)
          | inr (inl here) ↦ ground (arith, ap (λ x. contains k (correlation_keys x)) here, h k c)
          | inr (inr none_left) ↦ elim none_left [ ]
        ]
  ]

  no_pass_one : NoKeys → pass_one (index_by_key (s ∷ t ∷ []) []) (g ∷ []) start ≡ start
  unfolding pass_one
  no_pass_one h = rw (absent h, pass_one) refl

  abbrev joined : Merging Time
  joined = mark s (join g s start)

  grouped :
      (i : String)
      → g.incident_id ≡ some i
      → nonempty i ≡ true
      → by_incident [] (g ∷ []) [] ≡ ((i, g ∷ []) ∷ [])
  unfolding by_incident push get put contains
  grouped i gi n = simp (gi, n, by_incident)

  join_first :
      (i : String)
      → s.incident_id ≡ some i
      → nonempty i ≡ true
      → pass_two_step ((i, g ∷ []) ∷ []) s start ≡ joined
  unfolding pass_two_step get contains join_incident
  join_first i si n = simp (si, n, ==_refl i, pass_two_step)

  mark_second :
      (i : String)
      → t.incident_id ≡ some i
      → nonempty i ≡ true
      → (s.id == t.id) ≡ false
      → pass_two_step ((i, g ∷ []) ∷ []) t joined ≡ mark t joined
  unfolding pass_two_step get contains join_incident
  mark_second i ti n d = simp (d, ti, n, ==_refl i, ==_refl g.id, pass_two_step)

  passes_drop :
      (i : String)
      → g.incident_id ≡ some i
      → s.incident_id ≡ some i
      → t.incident_id ≡ some i
      → nonempty i ≡ true
      → (s.id == t.id) ≡ false
      → NoKeys
      → passes (g ∷ []) (s ∷ t ∷ []) ≡ mark t joined
  unfolding passes pass_two
  passes_drop i gi si ti n d h =
      ap
        (λ (m : Merging Time).
          pass_two (by_incident m.matched_graph_ids (g ∷ []) []) (s ∷ t ∷ []) m)
        (no_pass_one h)
      ∙ ap (λ d. pass_two d (s ∷ t ∷ []) start) (grouped i gi n)
      ∙ ap (λ m. pass_two_step ((i, g ∷ []) ∷ []) t m) (join_first i si n)
      ∙ mark_second i ti n d

  -- If two Sentinel alerts with different ids are of the one Graph alert's incident, and neither
  -- shares a correlation key with it, then the merged list is the merge of the Graph alert with the
  -- first: the second Sentinel alert is dropped.
  pub merge_alerts_drops :
      (i : String)
      → g.incident_id ≡ some i
      → s.incident_id ≡ some i
      → t.incident_id ≡ some i
      → nonempty i ≡ true
      → (s.id == t.id) ≡ false
      → NoKeys
      → merge_alerts (g ∷ []) (s ∷ t ∷ []) ≡ merge g s ∷ []
  unfolding merge_alerts contains keep
  merge_alerts_drops i gi si ti n d h =
      rw (passes_drop i gi si ti n d h, ==_refl g.id, ==_refl s.id, ==_refl t.id) (ground arith)
