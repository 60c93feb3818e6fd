-- ===== src/Alerts/Merge.antt =====
-- contentops/alerts/merge.py, `merge_alerts`: the two passes that join Graph and Sentinel alerts.
-- The loops carry the result and the two sets of matched ids.
use content_ops.Prelude.{
  if◌then◌else◌, nonempty, keep, contains, Dict, get, put, has, String, ◌&&◌, not, Option, none,
  some, List, [], ◌∷◌, ◌++◌, string_eq, nat_eq, option_eq, pair_eq, option_eq, pair_eq,
}
use content_ops.Alerts.Model.{NormalizedAlert, merge, correlation_keys}

-- `d.setdefault(k, v)`
unfoldable pub set_default {ℓ} : {V : Type ℓ} → String → V → Dict String V → Dict String V
unfolding has put
set_default k v d = if has k d then d else put k v d

-- `d[k].append(v)` of a defaultdict(list)
unfoldable pub push {ℓ} : {V : Type ℓ} → String → V → Dict String (List V) → Dict String (List V)
unfolding get put
push k v d = elim (get k d) [ none ↦ put k (v ∷ []) d | some vs ↦ put k (vs ++ v ∷ []) d ]

pub record Merging (Time : Type 0) : Type 0 where
  pub result : List (NormalizedAlert Time)
  pub matched_graph_ids : List String
  pub matched_sentinel_ids : List String

module _ {Time : Type 0} where
  -- `for key in _correlation_keys(a): index.setdefault(key, a)`
  unfoldable pub index_keys :
      List String
      → NormalizedAlert Time
      → Dict String (NormalizedAlert Time)
      → Dict String (NormalizedAlert Time)
  unfolding set_default
  index_keys [] a index = index
  index_keys (k ∷ ks) a index = index_keys ks a (set_default k a index)

  unfoldable pub index_by_key :
      List (NormalizedAlert Time)
      → Dict String (NormalizedAlert Time)
      → Dict String (NormalizedAlert Time)
  unfolding index_keys correlation_keys
  index_by_key [] index = index
  index_by_key (a ∷ alerts) index = index_by_key alerts (index_keys (correlation_keys a) a index)

  -- `next((index[k] for k in keys if k in index), None)`
  unfoldable pub first_match :
      List String → Dict String (NormalizedAlert Time) → Option (NormalizedAlert Time)
  unfolding get
  first_match [] index = none
  first_match (k ∷ ks) index =
      let rest = first_match ks index in elim (get k index) [ none ↦ rest | some a ↦ some a ]

  -- `result.append(NormalizedAlert.merge(ga, sa)); matched_graph_ids.add(ga.id)`
  abbrev pub join : (ga sa : NormalizedAlert Time) → Merging Time → Merging Time
  join ga sa m = record m {
    result = m.result ++ merge ga sa ∷ [];
    matched_graph_ids = ga.id ∷ m.matched_graph_ids;
  }

  abbrev pub mark : NormalizedAlert Time → Merging Time → Merging Time
  mark sa m = record m { matched_sentinel_ids = sa.id ∷ m.matched_sentinel_ids }

  unfoldable pub pass_one :
      Dict String (NormalizedAlert Time) → List (NormalizedAlert Time) → Merging Time → Merging Time
  unfolding first_match correlation_keys merge
  pass_one sentinel_by_key [] m = m
  pass_one sentinel_by_key (ga ∷ gas) m =
      pass_one sentinel_by_key gas (elim (first_match (correlation_keys ga) sentinel_by_key) [
        | none ↦ m
        | some sa ↦ mark sa (join ga sa m)
      ])

  -- `graph_by_incident`: the Graph alerts that pass 1 left, by their incident
  unfoldable pub by_incident :
      (matched : List String)
      → List (NormalizedAlert Time)
      → Dict String (List (NormalizedAlert Time))
      → Dict String (List (NormalizedAlert Time))
  unfolding push contains
  by_incident matched [] index = index
  by_incident matched (ga ∷ gas) index = by_incident matched gas (elim ga.incident_id [
    | none ↦ index
    | some i ↦ if not (contains ga.id matched) && nonempty i then push i ga index else index
  ])

  -- `for ga in graph_by_incident[...]: if ga.id not in matched_graph_ids: ...`
  unfoldable pub join_incident :
      NormalizedAlert Time → List (NormalizedAlert Time) → Merging Time → Merging Time
  unfolding merge contains
  join_incident sa [] m = m
  join_incident sa (ga ∷ gas) m =
      join_incident sa gas (if contains ga.id m.matched_graph_ids then m else join ga sa m)

  -- One Sentinel alert in pass 2
  unfoldable pub pass_two_step :
      Dict String (List (NormalizedAlert Time)) → NormalizedAlert Time → Merging Time → Merging Time
  unfolding join_incident contains get
  pass_two_step graph_by_incident sa m =
      if contains sa.id m.matched_sentinel_ids then m else elim sa.incident_id [
        | none ↦ m
        | some i ↦
            if nonempty i
            then elim (get i graph_by_incident) [
              | none ↦ m
              | some gas ↦ mark sa (join_incident sa gas m)
            ]
            else m
      ]

  unfoldable pub pass_two :
      Dict String (List (NormalizedAlert Time))
      → List (NormalizedAlert Time)
      → Merging Time
      → Merging Time
  unfolding pass_two_step
  pass_two graph_by_incident [] m = m
  pass_two graph_by_incident (sa ∷ sas) m =
      pass_two graph_by_incident sas (pass_two_step graph_by_incident sa m)

  -- The alerts whose id is not in the set
  abbrev pub unmatched : List String → List (NormalizedAlert Time) → List (NormalizedAlert Time)
  unmatched ids alerts = keep (λ (a : NormalizedAlert Time). not (contains a.id ids)) alerts

  abbrev pub start : Merging Time
  start = record { result = []; matched_graph_ids = []; matched_sentinel_ids = [] }

  -- What the two passes leave
  unfoldable pub passes :
      (graph_alerts sentinel_alerts : List (NormalizedAlert Time)) → Merging Time
  unfolding index_by_key pass_one by_incident pass_two
  passes graph_alerts sentinel_alerts =
      let m = pass_one (index_by_key sentinel_alerts []) graph_alerts start in
      pass_two (by_incident m.matched_graph_ids graph_alerts []) sentinel_alerts m

  unfoldable pub merge_alerts :
      (graph_alerts sentinel_alerts : List (NormalizedAlert Time)) → List (NormalizedAlert Time)
  unfolding passes keep
  merge_alerts [] sentinel_alerts = sentinel_alerts
  merge_alerts (g ∷ gs) [] = g ∷ gs
  merge_alerts (g ∷ gs) (s ∷ ss) =
      let m = passes (g ∷ gs) (s ∷ ss) in
      m.result
      ++ (unmatched m.matched_graph_ids (g ∷ gs) ++ unmatched m.matched_sentinel_ids (s ∷ ss))
