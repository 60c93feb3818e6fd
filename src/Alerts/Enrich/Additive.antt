-- ===== src/Alerts/Enrich/Additive.antt =====
-- What `enrich_from_graph` changes, and what a second run does.
use content_ops.Prelude.{
  if◌then◌else◌, Bool-cases, Option-cases, string_eq, ◌==◌, nonempty, truthy, is_empty, All, map-id,
  Pointwise, Pointwise-map, map-map_same, Dict, get, Member, All-Member, Entries, get-Entries,
  String, ◌≡◌, refl, sym, ap, ◌∙◌, subst, ◌≢◌, ◌⊎◌, inl, inr, Bool, true, false, ◌&&◌, ◌||◌, not,
  Option, none, some, List, [], ◌∷◌, arith, nat_eq, option_eq, pair_eq, option_eq, pair_eq,
}
use content_ops.Alerts.Model.{NormalizedAlert, correlation_keys}
use content_ops.Alerts.Merge.{push, index_by_key, first_match}
use content_ops.Alerts.Indexes.{
  Keyed, index_by_key-Entries, first_match-Keyed, OfIncident, push-Entries,
}
use content_ops.Alerts.Joins.{Correlate}
use content_ops.Alerts.Enrich.{
  text_or_empty, takes_rule, apply_graph_enrichment, graph_by_incident, first_useful,
  incident_match, graph_match, enrich_one, enrich_from_graph,
}

module _ {Time : Type 0} where
  -- The second alert is the first with other techniques, detection source and rule id at most; the
  -- first two are changed only where they are empty, and the rule id only where it is empty or the
  -- title.
  pub record FillsGaps (before after : NormalizedAlert Time) : Type 0 where
    pub others : after ≡ record before {
      mitre_techniques = after.mitre_techniques;
      detection_source = after.detection_source;
      rule_id = after.rule_id;
    }
    pub mitre :
        is_empty before.mitre_techniques ≡ false → after.mitre_techniques ≡ before.mitre_techniques
    pub detection :
        nonempty before.detection_source ≡ true → after.detection_source ≡ before.detection_source
    pub rule :
        truthy before.rule_id ≡ true
        → before.rule_id ≢ some before.title
        → after.rule_id ≡ before.rule_id

  takes_no_rule :
      (alert ga : NormalizedAlert Time)
      → truthy alert.rule_id ≡ true
      → alert.rule_id ≢ some alert.title
      → (if truthy ga.rule_id && takes_rule alert then ga.rule_id else alert.rule_id)
        ≡ alert.rule_id
  takes_no_rule alert ga h k = elim (Option-cases alert.rule_id) [
    | inl missing ↦ ground (arith, h, missing)
    | inr (r, there) ↦ elim (Bool-cases (r == alert.title)) [
      | inl same_text ↦
          absurd (k (there ∙ ap some ((string_eq.equal_iff r alert.title).0 same_text)))
      | inr differs ↦ ground (arith, h, there, differs)
    ]
  ]

  apply-FillsGaps :
      (alert ga : NormalizedAlert Time) → FillsGaps alert (apply_graph_enrichment alert ga).0
  unfolding apply_graph_enrichment
  apply-FillsGaps alert ga = record {
    others = refl;
    mitre = λ h. ground arith;
    detection = λ h. ground arith;
    rule = λ h k. takes_no_rule alert ga h k;
  }

  -- Nothing changes, or the gaps are filled from a Graph alert that shares a correlation key or the
  -- incident.
  abbrev pub IsEnriched :
      List (NormalizedAlert Time) → (before after : NormalizedAlert Time) → Type 0
  IsEnriched graph before after =
      FillsGaps before after
      × ((after ≡ before)
          ⊎ ((ga : NormalizedAlert Time) × Member ga graph
              × Correlate before ga
              × (after ≡ (apply_graph_enrichment before ga).0)))

module _ {Time : Type 0} (graph : List (NormalizedAlert Time)) where
  graph_by_incident-Entries :
      (gas : List (NormalizedAlert Time)) (d : Dict String (List (NormalizedAlert Time)))
      → All (λ (a : NormalizedAlert Time). Member a graph) gas
      → Entries (OfIncident graph) d
      → Entries (OfIncident graph) (graph_by_incident gas d)
  unfolding graph_by_incident
  graph_by_incident-Entries [] d h t = t
  graph_by_incident-Entries (ga ∷ gas) d h t = elim (Option-cases ga.incident_id) [
    | inl absent ↦ rw (absent, graph_by_incident) (graph_by_incident-Entries gas d h.1 t)
    | inr (i, e) ↦ elim (Bool-cases (nonempty i)) [
      | inl n ↦
          rw (e, n, graph_by_incident)
            (graph_by_incident-Entries gas (push i ga d) h.1 (push-Entries graph i ga d h.0 e t))
      | inr empty ↦ rw (e, empty, graph_by_incident) (graph_by_incident-Entries gas d h.1 t)
    ]
  ]

  first_useful-All {κ} :
      (P : NormalizedAlert Time → Type κ) (ga : NormalizedAlert Time)
      (gas : List (NormalizedAlert Time))
      → All P gas
      → first_useful gas ≡ some ga
      → P ga
  unfolding first_useful
  first_useful-All P ga [] h e = cc
  first_useful-All P ga (b ∷ gas) h e =
      elim (Bool-cases (not (is_empty b.mitre_techniques) || nonempty b.detection_source)) [
        | inl useful ↦ let same : b ≡ ga = ground arith in subst P same h.0
        | inr useless ↦ first_useful-All P ga gas h.1 (ground arith)
      ]

  incident_match-Correlate :
      (d : Dict String (List (NormalizedAlert Time))) (a ga : NormalizedAlert Time)
      → Entries (OfIncident graph) d
      → incident_match d a.incident_id ≡ some ga
      → Member ga graph × Correlate a ga
  unfolding incident_match
  incident_match-Correlate d a ga t e = elim (Option-cases a.incident_id) [
    | inl absent ↦ ground arith
    | inr (i, here) ↦ elim (Bool-cases (nonempty i)) [
      | inr empty ↦ ground arith
      | inl n ↦ elim (Option-cases (get i d)) [
        | inl missing ↦ ground arith
        | inr (gas, found) ↦
            let m =
              first_useful-All
                (λ (b : NormalizedAlert Time). Member b graph × (b.incident_id ≡ some i)) ga gas
                (get-Entries (OfIncident graph) i gas d t found).1 (ground arith) in
            (m.0, inr (i, here, m.1, n))
      ]
    ]
  ]

  graph_match-Correlate :
      (by_key : Dict String (NormalizedAlert Time)) (d : Dict String (List (NormalizedAlert Time)))
      (a ga : NormalizedAlert Time)
      → Entries (Keyed graph) by_key
      → Entries (OfIncident graph) d
      → graph_match by_key d a ≡ some ga
      → Member ga graph × Correlate a ga
  unfolding graph_match
  graph_match-Correlate by_key d a ga k t e =
      elim (Option-cases (first_match (correlation_keys a) by_key)) [
        | inl absent ↦ incident_match-Correlate d a ga t (ground arith)
        | inr (b, found) ↦
            let same : b ≡ ga = ground arith in
            let (key, c, m) =
              first_match-Keyed graph (correlation_keys a) ga by_key k (found ∙ ap some same) in
            (m.0, inl (key, c, m.1))
      ]

  enrich_one-IsEnriched :
      (o : Option (NormalizedAlert Time)) (a : NormalizedAlert Time)
      → ((ga : NormalizedAlert Time) → o ≡ some ga → Member ga graph × Correlate a ga)
      → IsEnriched graph a (enrich_one o a)
  enrich_one-IsEnriched none a h = (
    record { others = refl; mitre = λ k. refl; detection = λ k. refl; rule = λ k l. refl },
    inl refl,
  )
  enrich_one-IsEnriched (some ga) a h =
      (apply-FillsGaps a ga, inr (ga, (h ga refl).0, (h ga refl).1, refl))

fill {ℓ} : {A : Type ℓ} → (A → Bool) → A → A → A
fill p x y = if p y then x else y

fill-fill {ℓ} : {A : Type ℓ} (p : A → Bool) (x y : A) → fill p x (fill p x y) ≡ fill p x y
unfolding fill
fill-fill p x y = elim (Bool-cases (p y)) [
  | inl e ↦ rw e (elim (Bool-cases (p x)) [ inl f ↦ rw f refl | inr f ↦ rw f refl ])
  | inr e ↦ rw (e, e) refl
]

module _ {Time : Type 0} where
  pub enrich_from_graph-IsEnriched :
      (alerts graph : List (NormalizedAlert Time))
      → Pointwise (IsEnriched graph) alerts (enrich_from_graph alerts graph)
  unfolding enrich_from_graph
  enrich_from_graph-IsEnriched alerts [] =
      subst (Pointwise (IsEnriched []) alerts) (sym (map-id alerts)) (
        Pointwise-map (IsEnriched []) (λ a. a) alerts
          λ a. enrich_one-IsEnriched [] none a (λ ga e. cc))
  enrich_from_graph-IsEnriched alerts (g ∷ gs) = Pointwise-map (IsEnriched (g ∷ gs)) _ alerts λ a.
      enrich_one-IsEnriched (g ∷ gs) _ a λ ga e.
        graph_match-Correlate (g ∷ gs) (index_by_key (g ∷ gs) []) (graph_by_incident (g ∷ gs) []) a
          ga (index_by_key-Entries (g ∷ gs) (g ∷ gs) [] (All-Member (g ∷ gs)) tt)
          (graph_by_incident-Entries (g ∷ gs) (g ∷ gs) [] (All-Member (g ∷ gs)) tt) e

  filled : List String → String → Option String → NormalizedAlert Time → NormalizedAlert Time
  filled m d r a = record a { mitre_techniques = m; detection_source = d; rule_id = r }

  filled_same :
      (a : NormalizedAlert Time) {m m' : List String} {d d' : String} {r r' : Option String}
      → m ≡ m'
      → d ≡ d'
      → r ≡ r'
      → filled m d r a ≡ filled m' d' r' a
  filled_same a {m' = m'} {d = d} {d' = d'} {r = r} p q u =
      ap (λ x. filled x d r a) p ∙ ap (λ x. filled m' x r a) q ∙ ap (λ x. filled m' d' x a) u

  apply_twice :
      (a ga : NormalizedAlert Time)
      → (apply_graph_enrichment (apply_graph_enrichment a ga).0 ga).0
        ≡ (apply_graph_enrichment a ga).0
  unfolding apply_graph_enrichment fill filled
  apply_twice a ga =
      let m =
        fill-fill (λ (v : List String). is_empty v && not (is_empty ga.mitre_techniques))
          ga.mitre_techniques a.mitre_techniques in
      let d =
        fill-fill (λ (v : String). not (nonempty v) && nonempty ga.detection_source)
          ga.detection_source a.detection_source in
      let r =
        fill-fill
          (λ (v : Option String).
            truthy ga.rule_id && (not (truthy v) || text_or_empty v == a.title))
          ga.rule_id a.rule_id in
      filled_same a m d r

  -- The match of an alert does not depend on what enrichment changes.
  apply_match :
      (by_key : Dict String (NormalizedAlert Time)) (d : Dict String (List (NormalizedAlert Time)))
      (a : NormalizedAlert Time)
      → (o : Option (NormalizedAlert Time))
      → graph_match by_key d (enrich_one o a) ≡ graph_match by_key d a
  unfolding graph_match correlation_keys apply_graph_enrichment
  apply_match by_key d a none = refl
  apply_match by_key d a (some ga) = refl

  enrich_twice :
      (a : NormalizedAlert Time) (o : Option (NormalizedAlert Time))
      → enrich_one o (enrich_one o a) ≡ enrich_one o a
  enrich_twice a none = refl
  enrich_twice a (some ga) = apply_twice a ga

  -- A second enrichment from the same Graph alerts changes nothing.
  pub enrich_from_graph_idempotent :
      (alerts graph : List (NormalizedAlert Time))
      → enrich_from_graph (enrich_from_graph alerts graph) graph ≡ enrich_from_graph alerts graph
  unfolding enrich_from_graph
  enrich_from_graph_idempotent alerts [] = refl
  enrich_from_graph_idempotent alerts (g ∷ gs) =
      let by_key = index_by_key (g ∷ gs) [] in
      let d = graph_by_incident (g ∷ gs) [] in
      map-map_same (λ (a : NormalizedAlert Time). enrich_one (graph_match by_key d a) a) alerts
        λ a.
          ap (λ o. enrich_one o (enrich_one (graph_match by_key d a) a))
            (apply_match by_key d a (graph_match by_key d a))
          ∙ enrich_twice a (graph_match by_key d a)
