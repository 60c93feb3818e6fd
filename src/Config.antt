-- ===== src/Config.antt =====
-- The tenant configuration as apply and prune read it: the safeguards and the lookups of
-- contentops/config.py, and `asset_mode_for` of contentops/cli/commands/_shared.py. `casefold`
-- stands for Python's `str.casefold`.
use content_ops.Prelude.{
  if◌then◌else◌, ◌==◌, keep, Dict, get, ℕ, String, Bool, true, false, Option, none, some, List, [],
  ◌∷◌, string_eq, nat_eq,
}
use content_ops.Asset.{Asset, is_defender, AssetMode, default_mode, asset_eq}

pub record Safeguards : Type 0 where
  pub write_allowed : Bool
  pub purge_allowed : Bool
  pub max_delete : ℕ
  pub asset_modes : Dict Asset AssetMode

pub record Workspace : Type 0 where
  pub workspace_name : String
  pub role : String
  pub safeguards : Safeguards

pub record Defender : Type 0 where
  pub enabled : Bool
  pub safeguards : Safeguards

pub record Tenant : Type 0 where
  pub name : String
  pub workspaces : List Workspace
  pub defender : Option Defender

-- `WorkspaceSafeguards()`
abbrev pub default_safeguards : Safeguards
default_safeguards = record {
  write_allowed = true;
  purge_allowed = false;
  max_delete = 25;
  asset_modes = [];
}

-- `WorkspaceSafeguards.asset_mode`
unfoldable pub asset_mode : Safeguards → Asset → AssetMode
unfolding get default_mode
asset_mode s asset = elim (get asset s.asset_modes) [
  | some explicit ↦ explicit
  | none ↦ default_mode asset
]

-- `TenantConfig.defender_safeguards`
abbrev pub defender_safeguards : Tenant → Safeguards
defender_safeguards cfg = elim cfg.defender [ none ↦ default_safeguards | some d ↦ d.safeguards ]

-- `TenantConfig.workspaces_for_role`
unfoldable pub workspaces_for_role : Tenant → String → List Workspace
workspaces_for_role cfg role = keep (λ (w : Workspace). w.role == role) cfg.workspaces

-- A value, or the exception that is raised.
pub data Selected : Type 0 where
  selected : List Workspace → Selected
  key_error value_error : Selected

-- Neither selector is given: the only workspace, or none at all.
abbrev pub sole_workspace : List Workspace → Selected
sole_workspace [] = selected []
sole_workspace (w ∷ []) = selected (w ∷ [])
sole_workspace (w ∷ _ ∷ _) = value_error

-- The mode in the only workspace, or the default where there is not exactly one.
unfoldable pub sole_mode : List Workspace → Asset → AssetMode
unfolding asset_mode
sole_mode (w ∷ []) asset = asset_mode w.safeguards asset
sole_mode _ asset = default_mode asset

module _ (casefold : String → String) where
  unfoldable pub find_workspace : String → List Workspace → Option Workspace
  find_workspace name [] = none
  find_workspace name (w ∷ rest) =
      if casefold w.workspace_name == casefold name then some w else find_workspace name rest

  -- `TenantConfig.workspace_by_name`: none where KeyError is raised
  unfoldable pub workspace_by_name : Tenant → String → Option Workspace
  unfolding find_workspace
  workspace_by_name cfg name = find_workspace name cfg.workspaces

  -- `select_workspaces`
  unfoldable pub select_workspaces : Tenant → (role workspace : Option String) → Selected
  unfolding workspaces_for_role workspace_by_name
  select_workspaces cfg (some role) (some workspace) = value_error
  select_workspaces cfg none (some workspace) = elim (workspace_by_name cfg workspace) [
    | none ↦ key_error
    | some w ↦ selected (w ∷ [])
  ]
  select_workspaces cfg (some role) none = selected (workspaces_for_role cfg role)
  select_workspaces cfg none none = sole_workspace cfg.workspaces

  -- `asset_mode_for`: no tenant where there is no tenant.yml; `active` is the workspace name given
  -- or, if none is, the environment's.
  unfoldable pub asset_mode_for : Option Tenant → (active : Option String) → Asset → AssetMode
  unfolding asset_mode workspace_by_name is_defender
  asset_mode_for none active asset = default_mode asset
  asset_mode_for (some cfg) active asset =
      if is_defender asset then asset_mode (defender_safeguards cfg) asset else elim active [
        | some name ↦ elim (workspace_by_name cfg name) [
          | none ↦ default_mode asset
          | some w ↦ asset_mode w.safeguards asset
        ]
        | none ↦ sole_mode cfg.workspaces asset
      ]
