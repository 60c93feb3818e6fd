-- ===== src/Alerts/Joins.antt =====
-- Which Graph and Sentinel alerts `merge_alerts` joins, and which alerts its result represents.
pub mod Complete
pub mod Drops
use content_ops.Prelude.{
  ◌==◌, nonempty, any_of, All, All-append, All-imp, any_of-append, contains, Member, Member-append,
  String, ◌≡◌, refl, ◌⊎◌, inl, inr, Bool, true, ◌||◌, some, List, [], ◌∷◌, ◌++◌, arith, string_eq,
  nat_eq, option_eq, pair_eq, option_eq, pair_eq,
}
use content_ops.Alerts.Model.{NormalizedAlert, merge, correlation_keys}
use content_ops.Alerts.Merge.{Merging, join, mark}

module _ {Time : Type 0} where
  -- Some alert of the list has the id.
  abbrev pub has_id : String → List (NormalizedAlert Time) → Bool
  has_id i alerts = any_of (λ (a : NormalizedAlert Time). a.id == i) alerts

  pub has_id-append :
      (i : String) (xs ys : List (NormalizedAlert Time))
      → has_id i (xs ++ ys) ≡ (has_id i xs || has_id i ys)
  has_id-append i xs ys = any_of-append (λ (a : NormalizedAlert Time). a.id == i) xs ys

  -- The two alerts have a correlation key in common, or the same incident.
  abbrev pub Correlate : (ga sa : NormalizedAlert Time) → Type 0
  Correlate ga sa =
      ((k : String) × (contains k (correlation_keys ga) ≡ true)
        × (contains k (correlation_keys sa) ≡ true))
      ⊎ ((i : String) × (ga.incident_id ≡ some i) × (sa.incident_id ≡ some i) × (nonempty i ≡ true))

  -- The merge of a Graph alert and a Sentinel alert that correlate
  abbrev pub IsJoin : (graph sentinel : List (NormalizedAlert Time)) → NormalizedAlert Time → Type 0
  IsJoin graph sentinel a =
      (ga : NormalizedAlert Time) × (sa : NormalizedAlert Time) × Member ga graph
      × Member sa sentinel
      × Correlate ga sa
      × (a ≡ merge ga sa)

module _ {Time : Type 0} (graph sentinel : List (NormalizedAlert Time)) where
  -- The Sentinel alert of the id is merged in the list, or a Graph alert has its
  -- nonempty incident.
  abbrev pub Accounted : List (NormalizedAlert Time) → String → Type 0
  Accounted result i =
      (sa : NormalizedAlert Time) × Member sa sentinel
      × (sa.id ≡ i)
      × (((ga : NormalizedAlert Time) × Member (merge ga sa) result)
          ⊎ ((ga : NormalizedAlert Time) × Member ga graph
              × ((k : String) × (ga.incident_id ≡ some k)
                  × (sa.incident_id ≡ some k)
                  × (nonempty k ≡ true))))

  pub Accounted-append :
      (result more : List (NormalizedAlert Time)) (i : String)
      → Accounted result i
      → Accounted (result ++ more) i
  Accounted-append result more i (sa, s, e, inl (ga, m)) =
      (sa, s, e, inl (ga, Member-append (merge ga sa) result more m))
  Accounted-append result more i (sa, s, e, inr g) = (sa, s, e, inr g)

  -- Each Graph id that counts as matched is that of an alert in the result, and each alert in the
  -- result is a join; and each matched Sentinel id is accounted for.
  pub record IsSound (m : Merging Time) : Type 0 where
    pub represented :
        (i : String) → contains i m.matched_graph_ids ≡ true → has_id i m.result ≡ true
    pub joined : All (IsJoin graph sentinel) m.result
    pub accounted : All (Accounted m.result) m.matched_sentinel_ids

  pub join-IsSound :
      (ga sa : NormalizedAlert Time) (m : Merging Time)
      → Member ga graph
      → Member sa sentinel
      → Correlate ga sa
      → IsSound m
      → IsSound (join ga sa m)
  unfolding contains any_of merge
  join-IsSound ga sa m g s c h = record {
    represented =
        λ i seen. ground (arith, has_id-append i m.result (merge ga sa ∷ []), h.represented i);
    joined =
        All-append (IsJoin graph sentinel) m.result (merge ga sa ∷ []) h.joined
          ((ga, sa, g, s, c, refl), tt);
    accounted =
        All-imp (Accounted m.result) (Accounted (m.result ++ merge ga sa ∷ []))
          m.matched_sentinel_ids (Accounted-append m.result (merge ga sa ∷ [])) h.accounted;
  }

  pub mark-IsSound :
      (sa : NormalizedAlert Time) (m : Merging Time)
      → Accounted m.result sa.id
      → IsSound m
      → IsSound (mark sa m)
  mark-IsSound sa m a h = record {
    represented = h.represented;
    joined = h.joined;
    accounted = (a, h.accounted);
  }
