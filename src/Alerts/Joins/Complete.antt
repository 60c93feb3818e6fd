-- ===== src/Alerts/Joins/Complete.antt =====
-- The passes of `merge_alerts` keep `IsSound`, and what that says of its result.
use content_ops.Prelude.{
  Bool-cases, Option-cases, ==_refl, nonempty, any_of, All, All-append, All-imp, contains, Dict,
  get, All-keep, Member, All-Member, Member-append_right, Member-keep, contains-Member, Member-All,
  Entries, get-Entries, String, ◌≡◌, refl, ◌⊎◌, inl, inr, true, false, not, some, List, [], ◌∷◌,
  ◌++◌, arith, string_eq, nat_eq, option_eq, pair_eq, option_eq, pair_eq,
}
use content_ops.Alerts.Model.{NormalizedAlert, merge, correlation_keys}
use content_ops.Alerts.Merge.{
  Merging, index_by_key, first_match, join, mark, pass_one, by_incident, join_incident,
  pass_two_step, pass_two, unmatched, start, passes, merge_alerts,
}
use content_ops.Alerts.Indexes.{
  Keyed, index_by_key-Entries, first_match-Keyed, OfIncident, by_incident-Entries,
}
use content_ops.Alerts.Joins.{
  has_id, has_id-append, IsJoin, Accounted, Accounted-append, IsSound, join-IsSound, mark-IsSound,
}

module _ {Time : Type 0} (graph sentinel : List (NormalizedAlert Time)) where
  abbrev Sound : Merging Time → Type 0
  Sound m = IsSound graph sentinel m

  pass_one-IsSound :
      (index : Dict String (NormalizedAlert Time)) (gas : List (NormalizedAlert Time))
      (m : Merging Time)
      → Entries (Keyed sentinel) index
      → All (λ (a : NormalizedAlert Time). Member a graph) gas
      → Sound m
      → Sound (pass_one index gas m)
  unfolding pass_one
  pass_one-IsSound index [] m t g h = h
  pass_one-IsSound index (ga ∷ gas) m t g h =
      elim (Option-cases (first_match (correlation_keys ga) index)) [
        | inl absent ↦ rw (absent, pass_one) (pass_one-IsSound index gas m t g.1 h)
        | inr (sa, found) ↦
            let (k, c, (s, d)) =
              first_match-Keyed sentinel (correlation_keys ga) sa index t found in
            rw (found, pass_one)
              (pass_one-IsSound index gas (mark sa (join ga sa m)) t g.1 (
                mark-IsSound graph sentinel sa (join ga sa m)
                  (
                    sa,
                    s,
                    refl,
                    inl (
                      ga,
                      Member-append_right (merge ga sa) m.result (merge ga sa ∷ []) (inl refl),
                    ),
                  )
                  (join-IsSound graph sentinel ga sa m g.0 s (inl (k, c, d)) h)))
      ]

  join_incident-IsSound :
      (i : String) (sa : NormalizedAlert Time) (gas : List (NormalizedAlert Time))
      (m : Merging Time)
      → Member sa sentinel
      → sa.incident_id ≡ some i
      → nonempty i ≡ true
      → All (λ (a : NormalizedAlert Time). Member a graph × (a.incident_id ≡ some i)) gas
      → Sound m
      → Sound (join_incident sa gas m)
  unfolding join_incident
  join_incident-IsSound i sa [] m s e n g h = h
  join_incident-IsSound i sa (ga ∷ gas) m s e n g h =
      elim (Bool-cases (contains ga.id m.matched_graph_ids)) [
        | inl seen ↦ rw (seen, join_incident) (join_incident-IsSound i sa gas m s e n g.1 h)
        | inr fresh ↦
            rw (fresh, join_incident)
              (join_incident-IsSound i sa gas (join ga sa m) s e n g.1
                (join-IsSound graph sentinel ga sa m g.0.0 s (inr (i, g.0.1, e, n)) h))
      ]

  of_incident :
      (i : String) (sa : NormalizedAlert Time) (gas : List (NormalizedAlert Time))
      → sa.incident_id ≡ some i
      → nonempty i ≡ true
      → OfIncident graph i gas
      → (ga : NormalizedAlert Time) × Member ga graph
        × ((k : String) × (ga.incident_id ≡ some k)
            × (sa.incident_id ≡ some k)
            × (nonempty k ≡ true))
  of_incident i sa [] e n (empty, h) = cc
  of_incident i sa (ga ∷ gas) e n (full, h) = (ga, h.0.0, (i, h.0.1, e, n))

  pass_two_step-IsSound :
      (d : Dict String (List (NormalizedAlert Time))) (sa : NormalizedAlert Time) (m : Merging Time)
      → Entries (OfIncident graph) d
      → Member sa sentinel
      → Sound m
      → Sound (pass_two_step d sa m)
  unfolding pass_two_step
  pass_two_step-IsSound d sa m t s h = elim (Bool-cases (contains sa.id m.matched_sentinel_ids)) [
    | inl seen ↦ rw (seen, pass_two_step) h
    | inr fresh ↦ elim (Option-cases sa.incident_id) [
      | inl absent ↦ rw (fresh, absent, pass_two_step) h
      | inr (i, e) ↦ elim (Bool-cases (nonempty i)) [
        | inr empty ↦ rw (fresh, e, empty, pass_two_step) h
        | inl n ↦ elim (Option-cases (get i d)) [
          | inl unknown ↦ rw (fresh, e, n, unknown, pass_two_step) h
          | inr (gas, found) ↦
              let group = get-Entries (OfIncident graph) i gas d t found in
              rw (fresh, e, n, found, pass_two_step)
                (mark-IsSound graph sentinel sa (join_incident sa gas m)
                  (sa, s, refl, inr (of_incident i sa gas e n group))
                  (join_incident-IsSound i sa gas m s e n group.1 h))
        ]
      ]
    ]
  ]

  pass_two-IsSound :
      (d : Dict String (List (NormalizedAlert Time))) (sas : List (NormalizedAlert Time))
      (m : Merging Time)
      → Entries (OfIncident graph) d
      → All (λ (a : NormalizedAlert Time). Member a sentinel) sas
      → Sound m
      → Sound (pass_two d sas m)
  unfolding pass_two
  pass_two-IsSound d [] m t s h = h
  pass_two-IsSound d (sa ∷ sas) m t s h =
      pass_two-IsSound d sas (pass_two_step d sa m) t s.1 (pass_two_step-IsSound d sa m t s.0 h)

  start-IsSound : Sound start
  unfolding contains
  start-IsSound = record { represented = λ i c. cc; joined = tt; accounted = tt }

  passes-IsSound : Sound (passes graph sentinel)
  unfolding passes
  passes-IsSound =
      let m = pass_one (index_by_key sentinel []) graph start in
      let one =
        pass_one-IsSound (index_by_key sentinel []) graph start
          (index_by_key-Entries sentinel sentinel [] (All-Member sentinel) tt) (All-Member graph)
          start-IsSound in
      pass_two-IsSound (by_incident m.matched_graph_ids graph []) sentinel m
        (by_incident-Entries graph m.matched_graph_ids graph [] (All-Member graph) tt)
        (All-Member sentinel) one

module _ {Time : Type 0} where
  unmatched-Member :
      (ids : List String) (alerts : List (NormalizedAlert Time))
      → All (λ (a : NormalizedAlert Time). Member a alerts) (unmatched ids alerts)
  unmatched-Member ids alerts =
      All-keep (λ (a : NormalizedAlert Time). Member a alerts)
        (λ (a : NormalizedAlert Time). Member a alerts)
        (λ (a : NormalizedAlert Time). not (contains a.id ids)) alerts (λ a _ m. m)
        (All-Member alerts)

  has_id-Member :
      (a : NormalizedAlert Time) (alerts : List (NormalizedAlert Time))
      → Member a alerts
      → has_id a.id alerts ≡ true
  unfolding any_of
  has_id-Member a [] m = elim m [ ]
  has_id-Member a (b ∷ alerts) (inl e) = rw (e, ==_refl a.id) refl
  has_id-Member a (b ∷ alerts) (inr m) = ground (arith, has_id-Member a alerts m)

  All-has_id :
      (alerts : List (NormalizedAlert Time))
      → All (λ (a : NormalizedAlert Time). has_id a.id alerts ≡ true) alerts
  All-has_id alerts =
      All-imp (λ (a : NormalizedAlert Time). Member a alerts) _ alerts
        (λ a m. has_id-Member a alerts m) (All-Member alerts)

  has_id-unmatched :
      (ids : List String) (a : NormalizedAlert Time) (alerts : List (NormalizedAlert Time))
      → Member a alerts
      → contains a.id ids ≡ false
      → has_id a.id (unmatched ids alerts) ≡ true
  has_id-unmatched ids a alerts m e =
      has_id-Member a (unmatched ids alerts)
        (Member-keep a (λ (b : NormalizedAlert Time). not (contains b.id ids)) alerts (rw e refl) m)

  -- Each alert of the merged list is a Graph alert, a Sentinel alert, or the merge of a Graph alert
  -- and a Sentinel alert that share a correlation key or a nonempty incident id.
  pub merge_alerts-IsJustified :
      (graph sentinel : List (NormalizedAlert Time))
      → All
          (λ (a : NormalizedAlert Time).
            IsJoin graph sentinel a ⊎ (Member a graph ⊎ Member a sentinel))
          (merge_alerts graph sentinel)
  unfolding merge_alerts
  merge_alerts-IsJustified [] sentinel =
      All-imp (λ (a : NormalizedAlert Time). Member a sentinel) _ sentinel (λ a m. inr (inr m))
        (All-Member sentinel)
  merge_alerts-IsJustified (g ∷ gs) [] =
      All-imp (λ (a : NormalizedAlert Time). Member a (g ∷ gs)) _ (g ∷ gs) (λ a m. inr (inl m))
        (All-Member (g ∷ gs))
  merge_alerts-IsJustified (g ∷ gs) (s ∷ ss) =
      let m = passes (g ∷ gs) (s ∷ ss) in
      let sound = passes-IsSound (g ∷ gs) (s ∷ ss) in
      All-append _ m.result _
        (All-imp (IsJoin (g ∷ gs) (s ∷ ss)) _ m.result (λ a j. inl j) sound.joined)
        (All-append _ (unmatched m.matched_graph_ids (g ∷ gs)) _
          (All-imp (λ (a : NormalizedAlert Time). Member a (g ∷ gs)) _ _ (λ a k. inr (inl k))
            (unmatched-Member m.matched_graph_ids (g ∷ gs)))
          (All-imp (λ (a : NormalizedAlert Time). Member a (s ∷ ss)) _ _ (λ a k. inr (inr k))
            (unmatched-Member m.matched_sentinel_ids (s ∷ ss))))

  -- Every Graph alert's id is the id of an alert of the merged list.
  merge_alerts_keeps_graph :
      (graph sentinel : List (NormalizedAlert Time))
      → All (λ (ga : NormalizedAlert Time). has_id ga.id (merge_alerts graph sentinel) ≡ true) graph
  unfolding merge_alerts
  merge_alerts_keeps_graph [] sentinel = tt
  merge_alerts_keeps_graph (g ∷ gs) [] = All-has_id (g ∷ gs)
  merge_alerts_keeps_graph (g ∷ gs) (s ∷ ss) =
      let m = passes (g ∷ gs) (s ∷ ss) in
      let sound = passes-IsSound (g ∷ gs) (s ∷ ss) in
      let rest = unmatched m.matched_sentinel_ids (s ∷ ss) in
      let left = unmatched m.matched_graph_ids (g ∷ gs) in
      All-imp (λ (ga : NormalizedAlert Time). Member ga (g ∷ gs))
        (λ (ga : NormalizedAlert Time). has_id ga.id (m.result ++ (left ++ rest)) ≡ true) (g ∷ gs)
        (λ ga k. ground (
          arith,
          has_id-append ga.id m.result (left ++ rest),
          has_id-append ga.id left rest,
          sound.represented ga.id,
          has_id-unmatched m.matched_graph_ids ga (g ∷ gs) k,
        ))
        (All-Member (g ∷ gs))

  -- Every Sentinel alert is in the merged list itself, or it has the id of a Sentinel alert that is
  -- merged there or whose nonempty incident id a Graph alert has too.
  merge_alerts_accounts :
      (graph sentinel : List (NormalizedAlert Time))
      → All
          (λ (sa : NormalizedAlert Time).
            Member sa (merge_alerts graph sentinel)
            ⊎ Accounted graph sentinel (merge_alerts graph sentinel) sa.id)
          sentinel
  unfolding merge_alerts
  merge_alerts_accounts [] sentinel =
      All-imp (λ (sa : NormalizedAlert Time). Member sa sentinel) _ sentinel (λ sa k. inl k)
        (All-Member sentinel)
  merge_alerts_accounts (g ∷ gs) [] = tt
  merge_alerts_accounts (g ∷ gs) (s ∷ ss) =
      let m = passes (g ∷ gs) (s ∷ ss) in
      let sound = passes-IsSound (g ∷ gs) (s ∷ ss) in
      let rest = unmatched m.matched_sentinel_ids (s ∷ ss) in
      let left = unmatched m.matched_graph_ids (g ∷ gs) in
      All-imp (λ (sa : NormalizedAlert Time). Member sa (s ∷ ss)) _ (s ∷ ss)
        (λ sa k. elim (Bool-cases (contains sa.id m.matched_sentinel_ids)) [
          | inl seen ↦ inr (
              Accounted-append (g ∷ gs) (s ∷ ss) m.result (left ++ rest) sa.id (
                Member-All (Accounted (g ∷ gs) (s ∷ ss) m.result) sa.id m.matched_sentinel_ids
                  (contains-Member sa.id m.matched_sentinel_ids seen) sound.accounted))
          | inr fresh ↦ inl (
              Member-append_right sa m.result (left ++ rest) (
                Member-append_right sa left rest (
                  Member-keep sa
                    (λ (a : NormalizedAlert Time). not (contains a.id m.matched_sentinel_ids))
                    (s ∷ ss) (rw fresh refl) k)))
        ])
        (All-Member (s ∷ ss))

  -- Every Graph alert's id is the id of an alert of the merged list; and every Sentinel alert is in
  -- the merged list itself, or it has the id of a Sentinel alert that is merged there or whose
  -- nonempty incident id a Graph alert has too.
  pub merge_alerts_covers :
      (graph sentinel : List (NormalizedAlert Time))
      → All (λ (ga : NormalizedAlert Time). has_id ga.id (merge_alerts graph sentinel) ≡ true) graph
        × All
            (λ (sa : NormalizedAlert Time).
              Member sa (merge_alerts graph sentinel)
              ⊎ Accounted graph sentinel (merge_alerts graph sentinel) sa.id)
            sentinel
  merge_alerts_covers graph sentinel =
      (merge_alerts_keeps_graph graph sentinel, merge_alerts_accounts graph sentinel)
