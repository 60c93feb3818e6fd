-- ===== src/Alerts/Enrich.antt =====
-- contentops/alerts/merge.py, `enrich_from_graph`: what Graph alerts add to alerts.
pub mod Additive
use content_ops.Prelude.{
  if◌then◌else◌, ◌==◌, nonempty, truthy, is_empty, Dict, get, String, Bool, ◌&&◌, ◌||◌, not, Option,
  none, some, List, [], ◌∷◌, map, string_eq, nat_eq, option_eq, pair_eq, option_eq, pair_eq,
}
use content_ops.Alerts.Model.{NormalizedAlert, correlation_keys}
use content_ops.Alerts.Merge.{push, index_by_key, first_match, by_incident}

abbrev pub text_or_empty : Option String → String
text_or_empty none = ""
text_or_empty (some s) = s

module _ {Time : Type 0} where
  -- `not alert.rule_id or alert.rule_id == alert.title`
  abbrev pub takes_rule : NormalizedAlert Time → Bool
  takes_rule alert = not (truthy alert.rule_id) || text_or_empty alert.rule_id == alert.title

  -- `_apply_graph_enrichment`, with the count of one changed alert or none
  unfoldable pub apply_graph_enrichment :
      (alert ga : NormalizedAlert Time) → NormalizedAlert Time × Bool
  apply_graph_enrichment alert ga =
      let mitre = is_empty alert.mitre_techniques && not (is_empty ga.mitre_techniques) in
      let detection = not (nonempty alert.detection_source) && nonempty ga.detection_source in
      let rule = truthy ga.rule_id && takes_rule alert in
      (
        record alert {
          mitre_techniques = if mitre then ga.mitre_techniques else alert.mitre_techniques;
          detection_source = if detection then ga.detection_source else alert.detection_source;
          rule_id = if rule then ga.rule_id else alert.rule_id;
        },
        mitre || detection || rule,
      )

  -- `graph_by_incident`
  unfoldable pub graph_by_incident :
      List (NormalizedAlert Time)
      → Dict String (List (NormalizedAlert Time))
      → Dict String (List (NormalizedAlert Time))
  unfolding push
  graph_by_incident [] index = index
  graph_by_incident (ga ∷ gas) index = graph_by_incident gas (elim ga.incident_id [
    | none ↦ index
    | some i ↦ if nonempty i then push i ga index else index
  ])

  -- The first Graph alert of an incident that has techniques or a detection source
  unfoldable pub first_useful : List (NormalizedAlert Time) → Option (NormalizedAlert Time)
  first_useful [] = none
  first_useful (ga ∷ gas) =
      let rest = first_useful gas in
      if not (is_empty ga.mitre_techniques) || nonempty ga.detection_source then some ga else rest

  unfoldable pub incident_match :
      Dict String (List (NormalizedAlert Time)) → Option String → Option (NormalizedAlert Time)
  unfolding get first_useful
  incident_match by_incident none = none
  incident_match by_incident (some i) =
      if nonempty i
      then elim (get i by_incident) [ none ↦ none | some gas ↦ first_useful gas ]
      else none

  -- The Graph alert that pass 1, or else pass 2, finds
  unfoldable pub graph_match :
      Dict String (NormalizedAlert Time)
      → Dict String (List (NormalizedAlert Time))
      → NormalizedAlert Time
      → Option (NormalizedAlert Time)
  unfolding first_match correlation_keys incident_match
  graph_match by_key by_incident alert = elim (first_match (correlation_keys alert) by_key) [
    | none ↦ incident_match by_incident alert.incident_id
    | some ga ↦ some ga
  ]

  abbrev pub enrich_one :
      Option (NormalizedAlert Time) → NormalizedAlert Time → NormalizedAlert Time
  enrich_one none alert = alert
  enrich_one (some ga) alert = (apply_graph_enrichment alert ga).0

  unfoldable pub enrich_from_graph :
      (alerts graph_alerts : List (NormalizedAlert Time)) → List (NormalizedAlert Time)
  unfolding apply_graph_enrichment graph_match index_by_key graph_by_incident
  enrich_from_graph alerts [] = alerts
  enrich_from_graph alerts (g ∷ gs) =
      let by_key = index_by_key (g ∷ gs) [] in
      let by_incident = graph_by_incident (g ∷ gs) [] in
      map (λ (a : NormalizedAlert Time). enrich_one (graph_match by_key by_incident a) a) alerts
