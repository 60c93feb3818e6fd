-- ===== src/Alerts/Overlay/Wins.antt =====
-- `overlay_arm_incidents`, alert by alert: the last incident that covers an alert decides.
use content_ops.Prelude.{
  if◌then◌else◌, Option-cases, keep, last?, contains, map-same, map-id, Dict, get, put, get-put, ℕ,
  String, ◌≡◌, refl, ap, ◌∙◌, inl, inr, Bool, Option, none, some, List, [], ◌∷◌, map, arith,
  string_eq, nat_eq, option_eq, pair_eq, option_eq, pair_eq,
}
use content_ops.Alerts.Model.{NormalizedAlert}
use content_ops.Alerts.Overlay.{
  Incident, patch_ids, patched_ids, patch_map, overlay_one, overlay_arm_incidents,
}

get-patch_ids {ℓ} :
    {V : Type ℓ} (i : String) (ids : List String) (patch : V) (d : Dict String V)
    → get i (patch_ids ids patch d) ≡ (if contains i ids then some patch else get i d)
unfolding patch_ids contains
get-patch_ids i [] patch d = refl
get-patch_ids i (j ∷ ids) patch d =
    ground (arith, get-patch_ids i ids patch (put j patch d), get-put j i patch d)

module _ {Time : Type 0} (lower : String → String) (show : ℕ → String)
    (parse_time : String → Option Time) (alerts : List (NormalizedAlert Time)) where
  -- The incident lists the alert; or it lists none and has a number, which is that of an alert with
  -- the same id.
  abbrev pub covers : String → Incident → Bool
  covers i inc = contains i (patched_ids lower show parse_time alerts inc)

  abbrev or_get : Option Incident → Option Incident → Option Incident
  or_get none before = before
  or_get (some inc) before = some inc

  get-patch_map :
      (i : String) (incs : List Incident) (d : Dict String Incident)
      → get i (patch_map lower show parse_time alerts incs d)
        ≡ or_get (last? (keep (covers i) incs)) (get i d)
  unfolding patch_map keep last?
  get-patch_map i [] d = refl
  get-patch_map i (inc ∷ incs) d =
      let ids = patched_ids lower show parse_time alerts inc in
      ground (arith, get-patch_map i incs (patch_ids ids inc d), get-patch_ids i ids inc d)

  get-patches :
      (i : String) (incs : List Incident)
      → get i (patch_map lower show parse_time alerts incs []) ≡ last? (keep (covers i) incs)
  unfolding get
  get-patches i incs =
      get-patch_map i incs [] ∙ elim (Option-cases (last? (keep (covers i) incs))) [
        | inl e ↦ rw e refl
        | inr (inc, e) ↦ rw e refl
      ]

  -- The overlay leaves every alert in its place: patched with the last incident that covers its id,
  -- and as it was if no incident does.
  pub overlay_arm_incidents_exact :
      (incs : List Incident)
      → overlay_arm_incidents lower show parse_time alerts incs
        ≡ map
            (λ (a : NormalizedAlert Time).
              overlay_one lower show parse_time (last? (keep (covers a.id) incs)) a)
            alerts
  unfolding overlay_arm_incidents keep last?
  overlay_arm_incidents_exact [] = map-id alerts
  overlay_arm_incidents_exact (inc ∷ incs) =
      map-same _ _ alerts
        λ a. ap (λ p. overlay_one lower show parse_time p a) (get-patches a.id (inc ∷ incs))
