-- ===== src/Dependencies/Resolved.antt =====
-- When `validate` of contentops/core/dependencies.py reports no violation.
use mathlib.Core.Bool.{true≢false}
use content_ops.Prelude.{
  Bool-cases, ◌==◌, any_of, All, contains, All-imp, String, ◌≡◌, refl, sym, ◌∙◌, ◌↔◌, inl, inr,
  Bool, true, ◌&&◌, List, [], ◌∷◌, ◌++◌, arith, string_eq, nat_eq, option_eq, pair_eq, option_eq,
  pair_eq,
}
use content_ops.Asset.{
  Asset, sentinel_analytic, sentinel_watchlist, sentinel_parser, sentinel_automation_rule,
  sentinel_playbook, asset_beq_iff, asset_eq,
}
use content_ops.Loaded.{LoadedAsset}
use content_ops.Dependencies.{
  AssetDependencies, MissingKind, watchlist, parser, detection, playbook, analytic, DependencyGraph,
  for_asset, Index, missing, index_by_asset, rule_violations, asset_violations, violations_from,
  validate,
}

missing-nil :
    (asset_id : String) (kind : MissingKind) (known names : List String)
    → (missing asset_id kind known names ≡ []) ↔ All (λ n. contains n known ≡ true) names
unfolding missing
missing-nil asset_id kind known [] = (λ h. tt, λ h. refl)
missing-nil asset_id kind known (n ∷ names) = (
  λ h. ground (arith, missing-nil asset_id kind known names),
  λ h. ground (arith, missing-nil asset_id kind known names),
)

append-nil_iff {ℓ} : {A : Type ℓ} (xs ys : List A) → (xs ++ ys ≡ []) ↔ ((xs ≡ []) × (ys ≡ []))
append-nil_iff [] ys = (λ h. (refl, h), λ h. h.1)
append-nil_iff (x ∷ xs) ys = (λ h. ground arith, λ h. ground arith)

-- A `missing` on a set of the index is empty exactly if the loaded assets provide the names.
missing-nil_provides :
    (test : String → Bool) (known : List String) (agrees : (n : String) → contains n known ≡ test n)
    (asset_id : String) (kind : MissingKind) (names : List String)
    → (missing asset_id kind known names ≡ []) ↔ All (λ n. test n ≡ true) names
missing-nil_provides test known agrees asset_id kind names = (
  λ h.
      All-imp (λ n. contains n known ≡ true) (λ n. test n ≡ true) names (λ n e. sym (agrees n) ∙ e)
        ((missing-nil asset_id kind known names).0 h),
  λ h.
      (missing-nil asset_id kind known names).1
        (All-imp (λ n. test n ≡ true) (λ n. contains n known ≡ true) names (λ n e. agrees n ∙ e) h),
)

module _ {Payload : Type 0} where
  -- Some loaded asset of the kind has the id.
  abbrev pub provides : List (LoadedAsset Payload) → Asset → String → Bool
  provides loaded kind n =
      any_of (λ (la : LoadedAsset Payload). la.asset == kind && la.id == n) loaded

  abbrev pub provides_any : List (LoadedAsset Payload) → String → Bool
  provides_any loaded n = any_of (λ (la : LoadedAsset Payload). la.id == n) loaded

  index_by_asset-provides :
      (n : String) (loaded : List (LoadedAsset Payload))
      → (contains n (index_by_asset loaded).watchlists ≡ provides loaded sentinel_watchlist n)
        × (contains n (index_by_asset loaded).parsers ≡ provides loaded sentinel_parser n)
        × (contains n (index_by_asset loaded).all_ids ≡ provides_any loaded n)
        × (contains n (index_by_asset loaded).playbooks ≡ provides loaded sentinel_playbook n)
        × (contains n (index_by_asset loaded).analytics ≡ provides loaded sentinel_analytic n)
  unfolding index_by_asset contains any_of
  index_by_asset-provides n [] = (refl, refl, refl, refl, refl)
  index_by_asset-provides n (la ∷ rest) = ground (arith, index_by_asset-provides n rest)

  module _ (playbook_refs analytic_refs : Payload → List String)
      (loaded : List (LoadedAsset Payload)) where
    abbrev pub IsProvided : Asset → List String → Type 0
    IsProvided kind names = All (λ n. provides loaded kind n ≡ true) names

    -- Everything that the asset declares or refers to is loaded.
    pub record IsResolved (deps : AssetDependencies) (la : LoadedAsset Payload) : Type 0 where
      pub watchlists : IsProvided sentinel_watchlist deps.watchlists
      pub parsers : IsProvided sentinel_parser deps.parsers
      pub detections : All (λ n. provides_any loaded n ≡ true) deps.detections
      pub playbooks : IsProvided sentinel_playbook deps.playbooks
      pub rule :
          la.asset ≡ sentinel_automation_rule
          → IsProvided sentinel_playbook (playbook_refs la.payload)
            × IsProvided sentinel_analytic (analytic_refs la.payload)

    abbrev i : Index
    i = index_by_asset loaded

    rule_violations-nil :
        (la : LoadedAsset Payload)
        → (rule_violations playbook_refs analytic_refs i la ≡ []) ↔ (
            la.asset ≡ sentinel_automation_rule
            → IsProvided sentinel_playbook (playbook_refs la.payload)
              × IsProvided sentinel_analytic (analytic_refs la.payload))
    unfolding rule_violations
    rule_violations-nil la =
        let ps =
          missing-nil_provides (provides loaded sentinel_playbook) i.playbooks
            (λ n. (index_by_asset-provides n loaded).3) la.id playbook (playbook_refs la.payload) in
        let ans =
          missing-nil_provides (provides loaded sentinel_analytic) i.analytics
            (λ n. (index_by_asset-provides n loaded).4) la.id analytic (analytic_refs la.payload) in
        let app =
          append-nil_iff (missing la.id playbook i.playbooks (playbook_refs la.payload))
            (missing la.id analytic i.analytics (analytic_refs la.payload)) in
        elim (Bool-cases (la.asset == sentinel_automation_rule)) [
          | inl e ↦ rw e (
            λ h k. (ps.0 (app.0 h).0, ans.0 (app.0 h).1),
            λ h.
                let both = h ((asset_beq_iff la.asset sentinel_automation_rule).0 e) in
                app.1 (ps.1 both.0, ans.1 both.1),
          )
          | inr e ↦ rw e (
            λ h k.
                absurd
                  (true≢false (sym ((asset_beq_iff la.asset sentinel_automation_rule).1 k) ∙ e)),
            λ h. refl,
          )
        ]

    asset_violations-nil :
        (deps : AssetDependencies) (la : LoadedAsset Payload)
        → (asset_violations playbook_refs analytic_refs i deps la ≡ []) ↔ IsResolved deps la
    unfolding asset_violations
    asset_violations-nil deps la =
        let ws =
          missing-nil_provides (provides loaded sentinel_watchlist) i.watchlists
            (λ n. (index_by_asset-provides n loaded).0) la.id watchlist deps.watchlists in
        let ps =
          missing-nil_provides (provides loaded sentinel_parser) i.parsers
            (λ n. (index_by_asset-provides n loaded).1) la.id parser deps.parsers in
        let ds =
          missing-nil_provides (provides_any loaded) i.all_ids
            (λ n. (index_by_asset-provides n loaded).2) la.id detection deps.detections in
        let pbs =
          missing-nil_provides (provides loaded sentinel_playbook) i.playbooks
            (λ n. (index_by_asset-provides n loaded).3) la.id playbook deps.playbooks in
        let rs = rule_violations-nil la in
        (
          λ h.
              let (w, h₁) = (append-nil_iff _ _).0 h in
              let (p, h₂) = (append-nil_iff _ _).0 h₁ in
              let (d, h₃) = (append-nil_iff _ _).0 h₂ in
              let (b, r) = (append-nil_iff _ _).0 h₃ in
              record {
                watchlists = ws.0 w;
                parsers = ps.0 p;
                detections = ds.0 d;
                playbooks = pbs.0 b;
                rule = rs.0 r;
              },
          λ h. (append-nil_iff _ _).1 (
            ws.1 h.watchlists,
            (append-nil_iff _ _).1 (
              ps.1 h.parsers,
              (append-nil_iff _ _).1
                  (ds.1 h.detections, (append-nil_iff _ _).1 (pbs.1 h.playbooks, rs.1 h.rule)),
            ),
          ),
        )

    violations_from-nil :
        (g : DependencyGraph) (rest : List (LoadedAsset Payload))
        → (violations_from playbook_refs analytic_refs i g rest ≡ [])
          ↔ All (λ (la : LoadedAsset Payload). IsResolved (for_asset g la.id) la) rest
    unfolding violations_from
    violations_from-nil g [] = (λ h. tt, λ h. refl)
    violations_from-nil g (la ∷ rest) =
        let app =
          append-nil_iff (asset_violations playbook_refs analytic_refs i (for_asset g la.id) la)
            (violations_from playbook_refs analytic_refs i g rest) in
        let one = asset_violations-nil (for_asset g la.id) la in
        (
          λ h. (one.0 (app.0 h).0, (violations_from-nil g rest).0 (app.0 h).1),
          λ h. app.1 (one.1 h.0, (violations_from-nil g rest).1 h.1),
        )

    -- The dependency check reports no violation exactly if for every loaded asset each watchlist,
    -- parser and playbook that the graph declares for it is the id of a loaded asset of that kind,
    -- each declared detection is the id of some loaded asset, and, for an automation rule, each
    -- playbook and analytic rule that its payload refers to is loaded.
    pub validate_exact :
        (g : DependencyGraph)
        → (validate playbook_refs analytic_refs loaded g ≡ [])
          ↔ All (λ (la : LoadedAsset Payload). IsResolved (for_asset g la.id) la) loaded
    unfolding validate
    validate_exact g = violations_from-nil g loaded
