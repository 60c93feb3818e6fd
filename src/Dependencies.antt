-- ===== src/Dependencies.antt =====
-- contentops/core/dependencies.py: the prerequisites that dependencies.yml declares, checked
-- against the loaded assets. A set of ids is the list of what was added to it. `playbook_refs` and
-- `analytic_refs` give the references in an automation rule's payload
-- (contentops/handlers/sentinel_automation_rule_models.py). The informational tables and externals
-- of the report are not modelled.
pub mod Resolved
use content_ops.Prelude.{
  if◌then◌else◌, ◌==◌, contains, Dict, get, String, none, some, List, [], ◌∷◌, ◌++◌, string_eq,
  nat_eq, option_eq, pair_eq, option_eq, pair_eq,
}
use content_ops.Asset.{
  Asset, sentinel_analytic, sentinel_watchlist, sentinel_parser, sentinel_automation_rule,
  sentinel_playbook, asset_eq,
}
use content_ops.Loaded.{LoadedAsset}

pub record AssetDependencies : Type 0 where
  pub watchlists : List String
  pub parsers : List String
  pub detections : List String
  pub playbooks : List String

pub data MissingKind : Type 0 where
  watchlist parser detection playbook analytic : MissingKind

pub record DependencyViolation : Type 0 where
  pub asset_id : String
  pub missing_kind : MissingKind
  pub missing_name : String

abbrev pub DependencyGraph : Type 0
DependencyGraph = Dict String AssetDependencies

abbrev pub no_dependencies : AssetDependencies
no_dependencies = record { watchlists = []; parsers = []; detections = []; playbooks = [] }

unfoldable pub for_asset : DependencyGraph → String → AssetDependencies
unfolding get
for_asset g asset_id = elim (get asset_id g) [ none ↦ no_dependencies | some deps ↦ deps ]

-- The five sets of `_index_by_asset`
pub record Index : Type 0 where
  pub watchlists : List String
  pub parsers : List String
  pub all_ids : List String
  pub playbooks : List String
  pub analytics : List String

abbrev pub empty_index : Index
empty_index = record { watchlists = []; parsers = []; all_ids = []; playbooks = []; analytics = [] }

abbrev pub add_kind : Asset → String → Index → Index
add_kind sentinel_watchlist id i = record i { watchlists = id ∷ i.watchlists }
add_kind sentinel_parser id i = record i { parsers = id ∷ i.parsers }
add_kind sentinel_playbook id i = record i { playbooks = id ∷ i.playbooks }
add_kind sentinel_analytic id i = record i { analytics = id ∷ i.analytics }
add_kind _ id i = i

-- `for n in names: if n not in known: violations.append(...)`
unfoldable pub missing :
    String → MissingKind → (known names : List String) → List DependencyViolation
unfolding contains
missing asset_id kind known [] = []
missing asset_id kind known (n ∷ names) =
    let rest = missing asset_id kind known names in
    if contains n known
    then rest
    else record { asset_id = asset_id; missing_kind = kind; missing_name = n } ∷ rest

module _ {Payload : Type 0} where
  unfoldable pub index_by_asset : List (LoadedAsset Payload) → Index
  index_by_asset [] = empty_index
  index_by_asset (la ∷ rest) =
      let i = index_by_asset rest in
      add_kind la.asset la.id (record i { all_ids = la.id ∷ i.all_ids })

  module _ (playbook_refs analytic_refs : Payload → List String) where
    -- The implicit edges of an automation rule
    unfoldable pub rule_violations : Index → LoadedAsset Payload → List DependencyViolation
    unfolding missing
    rule_violations i la =
        if la.asset == sentinel_automation_rule
        then missing la.id playbook i.playbooks (playbook_refs la.payload)
          ++ missing la.id analytic i.analytics (analytic_refs la.payload)
        else []

    -- The body of the loop over `loaded`
    unfoldable pub asset_violations :
        Index → AssetDependencies → LoadedAsset Payload → List DependencyViolation
    unfolding missing rule_violations
    asset_violations i deps la =
        missing la.id watchlist i.watchlists deps.watchlists
        ++ (missing la.id parser i.parsers deps.parsers
            ++ (missing la.id detection i.all_ids deps.detections
                ++ (missing la.id playbook i.playbooks deps.playbooks ++ rule_violations i la)))

    unfoldable pub violations_from :
        Index → DependencyGraph → List (LoadedAsset Payload) → List DependencyViolation
    unfolding for_asset asset_violations
    violations_from i g [] = []
    violations_from i g (la ∷ rest) =
        asset_violations i (for_asset g la.id) la ++ violations_from i g rest

    -- The violations of `validate`
    unfoldable pub validate :
        List (LoadedAsset Payload) → DependencyGraph → List DependencyViolation
    unfolding violations_from index_by_asset
    validate loaded g = violations_from (index_by_asset loaded) g loaded
