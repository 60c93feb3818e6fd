-- ===== src/Apply/Gates.antt =====
-- The safety checks before anything is deployed: `_check_apply_write_allowed_or_exit`,
-- `_filter_loaded_by_env_status` and `_filter_locked_loaded_assets` of
-- contentops/cli/commands/apply_support.py, and `_filter_disabled_engines` of
-- contentops/cli/commands/_shared.py. A message on the console is not modelled.
use content_ops.Prelude.{
  if◌then◌else◌, keep, any_of, is_empty, contains, String, Bool, true, false, ◌&&◌, ◌||◌, not,
  Option, none, some, List, [], ◌∷◌, string_eq, nat_eq,
}
use content_ops.Asset.{Asset, is_defender, asset_eq}
use content_ops.EnvStatus.{prod_aliases, allowed_statuses_for_env, status_eq}
use content_ops.Config.{Workspace, Defender, Tenant}
use content_ops.Loaded.{LoadedAsset}

-- `asset is None or (asset and asset.startswith("defender_"))`
abbrev pub defender_touched : Option Asset → Bool
defender_touched none = true
defender_touched (some asset) = is_defender asset

abbrev pub workspace_refuses : Workspace → Bool
workspace_refuses w = not w.safeguards.write_allowed

abbrev pub defender_refuses : Option Defender → Bool
defender_refuses none = false
defender_refuses (some d) = not d.safeguards.write_allowed

-- True where the command exits with code 2.
unfoldable pub check_apply_write_allowed :
    Option Tenant → List Workspace → Option Asset → (dry_run : Bool) → Bool
unfolding any_of
check_apply_write_allowed none workspaces asset dry_run = false
check_apply_write_allowed (some cfg) workspaces asset true = false
check_apply_write_allowed (some cfg) workspaces asset false =
    any_of workspace_refuses workspaces || (defender_touched asset && defender_refuses cfg.defender)

abbrev pub sentinel_enabled : Tenant → Bool
sentinel_enabled cfg = not (is_empty cfg.workspaces)

abbrev pub defender_enabled : Tenant → Bool
defender_enabled cfg = elim cfg.defender [ none ↦ false | some d ↦ d.enabled ]

-- `gate_key`: the first selected workspace's role, or else the tenant's name.
abbrev pub gate_key : Tenant → List Workspace → String
gate_key cfg [] = cfg.name
gate_key cfg (w ∷ _) = w.role

-- `bool(workspaces) and gate_key not in _PROD_ALIASES`
unfoldable pub defender_gate_active : Tenant → List Workspace → Bool
unfolding contains
defender_gate_active cfg workspaces =
    not (is_empty workspaces) && not (contains (gate_key cfg workspaces) prod_aliases)

module _ {Payload : Type 0} where
  unfoldable pub filter_disabled_engines :
      Option Tenant → List (LoadedAsset Payload) → List (LoadedAsset Payload)
  unfolding keep is_defender
  filter_disabled_engines none loaded = loaded
  filter_disabled_engines (some cfg) loaded =
      if sentinel_enabled cfg && defender_enabled cfg
      then loaded
      else keep
          (λ (la : LoadedAsset Payload).
            if is_defender la.asset then defender_enabled cfg else sentinel_enabled cfg)
          loaded

  unfoldable pub filter_locked_loaded_assets :
      List (LoadedAsset Payload) → (force_overwrite : Bool) → List (LoadedAsset Payload)
  unfolding keep
  filter_locked_loaded_assets loaded true = loaded
  filter_locked_loaded_assets loaded false =
      keep (λ (la : LoadedAsset Payload). not la.local_customization) loaded

  module _ (strip_lower : String → String) where
    -- The loop's test
    unfoldable pub passes_env_status : Tenant → List Workspace → LoadedAsset Payload → Bool
    unfolding defender_gate_active allowed_statuses_for_env contains is_defender
    passes_env_status cfg workspaces la =
        if is_defender la.asset && defender_gate_active cfg workspaces
        then false
        else contains la.status
            (allowed_statuses_for_env strip_lower (some (gate_key cfg workspaces)))

    unfoldable pub filter_loaded_by_env_status :
        Option Tenant → List Workspace → List (LoadedAsset Payload) → List (LoadedAsset Payload)
    unfolding keep passes_env_status
    filter_loaded_by_env_status none workspaces loaded = loaded
    filter_loaded_by_env_status (some cfg) workspaces loaded =
        keep (passes_env_status cfg workspaces) loaded
