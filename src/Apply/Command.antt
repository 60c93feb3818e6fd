-- ===== src/Apply/Command.antt =====
-- `apply_cmd` of contentops/cli/commands/apply.py with `_resolve_workspaces_for_run` and
-- `_load_assets_for_run` of apply_support.py: from the options and the tenant configuration to the
-- exit code and the run's context. What follows the loop (audit records, state) is in Outcomes; the
-- JSON report, the push of the state and the recovery file of a lost audit race are not modelled.
use content_ops.Prelude.{
  if◌then◌else◌, ◌==◌, keep, any_of, is_empty, ℕ, String, Bool, false, ◌&&◌, not, Option, none,
  some, List, [], ◌∷◌, map, string_eq, nat_eq, option_eq, pair_eq, option_eq, pair_eq,
}
use content_ops.Asset.{Asset, ActionResult, is_failure, asset_eq}
use content_ops.EnvStatus.{status_eq}
use content_ops.Config.{Workspace, Tenant, selected, select_workspaces}
use content_ops.Loaded.{LoadedAsset}
use content_ops.Dependencies.{DependencyGraph, validate}
use content_ops.Apply.Gates.{
  check_apply_write_allowed, filter_disabled_engines, filter_locked_loaded_assets,
  filter_loaded_by_env_status,
}
use content_ops.Apply.Run.{apply, Services, RunContext, new_context, run_workspace_iteration}

pub record Options : Type 0 where
  pub asset : Option Asset
  pub dry_run : Bool
  pub no_audit : Bool
  pub skip_deps_check : Bool
  pub force_overwrite : Bool
  pub role : Option String
  pub workspace : Option String
  pub continue_on_error : Bool

-- What the run reads besides the tenant: the functions of the standard library, the files, git.
pub record Inputs (Payload : Type 0) : Type 0 where
  pub strip_lower : String → String
  pub casefold : String → String
  pub loaded : List (LoadedAsset Payload)
  pub is_changed : Option (LoadedAsset Payload → Bool)
  pub graph : DependencyGraph
  pub playbook_refs : Payload → List String
  pub analytic_refs : Payload → List String

-- Nothing was to be done (`stops`, with the exit code), or the run took place.
pub data Outcome (Payload : Type 0) : Type 0 where
  stops : (code : ℕ) → Outcome Payload
  ran : (code : ℕ) → RunContext Payload → Outcome Payload

-- `list(workspaces) if (cfg is not None and workspaces) else [None]`
abbrev pub iter_workspaces : Option Tenant → List Workspace → List (Option Workspace)
iter_workspaces none workspaces = none ∷ []
iter_workspaces (some cfg) [] = none ∷ []
iter_workspaces (some cfg) (w ∷ rest) = map some (w ∷ rest)

abbrev pub any_failure : List ActionResult → Bool
any_failure results = any_of is_failure results

-- `_load_assets_for_run`
module _ {Payload : Type 0} where
  abbrev pub keep_asset : Option Asset → List (LoadedAsset Payload) → List (LoadedAsset Payload)
  keep_asset none loaded = loaded
  keep_asset (some target) loaded = keep (λ (la : LoadedAsset Payload). la.asset == target) loaded

  abbrev pub keep_changed :
      Option (LoadedAsset Payload → Bool) → List (LoadedAsset Payload) → List (LoadedAsset Payload)
  keep_changed none loaded = loaded
  keep_changed (some is_changed) loaded = keep is_changed loaded

  unfoldable pub load_assets_for_run :
      Inputs Payload → Option Tenant → Option Asset → List (LoadedAsset Payload)
  unfolding filter_disabled_engines
  load_assets_for_run inputs cfg asset =
      filter_disabled_engines cfg (keep_changed inputs.is_changed (keep_asset asset inputs.loaded))

  module _ (s : Services Payload) (inputs : Inputs Payload) (options : Options) where
    -- An exception that nothing catches ends the process with 1.
    exit_code : RunContext Payload → ℕ
    unfolding any_of is_failure
    exit_code ctx = elim ctx.crashed [
      | some exc ↦ 1
      | none ↦ if any_failure ctx.results && not options.continue_on_error then 1 else 0
    ]

    -- From the workspace loop to the exit
    unfoldable pub deploy :
        Option Tenant → List Workspace → List (LoadedAsset Payload) → Outcome Payload
    unfolding filter_locked_loaded_assets run_workspace_iteration exit_code
    deploy cfg workspaces loaded =
        let ctx =
          run_workspace_iteration s (filter_locked_loaded_assets loaded options.force_overwrite)
            (iter_workspaces cfg workspaces) (new_context Payload apply options.dry_run) in
        ran (exit_code ctx) ctx

    -- From the load to the dependency check
    unfoldable pub select_assets : Option Tenant → List Workspace → Outcome Payload
    unfolding load_assets_for_run filter_loaded_by_env_status validate deploy
    select_assets cfg workspaces =
        let loaded =
          filter_loaded_by_env_status inputs.strip_lower cfg workspaces
            (load_assets_for_run inputs cfg options.asset) in
        if is_empty loaded
        then stops 0
        else if not options.skip_deps_check
            && not
                (is_empty (validate inputs.playbook_refs inputs.analytic_refs loaded inputs.graph))
        then stops 1
        else deploy cfg workspaces loaded

    -- `_apply_integration_no_workspace_skip`
    abbrev pub integration_skip : Option Tenant → List Workspace → Bool
    integration_skip (some cfg) (w ∷ rest) = false
    integration_skip _ _ = options.role == some "integration"

    unfoldable pub apply_selected : Option Tenant → List Workspace → Outcome Payload
    unfolding check_apply_write_allowed select_assets
    apply_selected cfg workspaces =
        if check_apply_write_allowed cfg workspaces options.asset options.dry_run
        then stops 2
        else if integration_skip cfg workspaces
        then stops 0
        else select_assets cfg workspaces

    -- No tenant where there is no tenant.yml.
    unfoldable pub apply_cmd : Option Tenant → Outcome Payload
    unfolding select_workspaces apply_selected
    apply_cmd none = apply_selected none []
    apply_cmd (some cfg) =
        elim (select_workspaces inputs.casefold cfg options.role options.workspace) [
          | selected workspaces ↦ apply_selected (some cfg) workspaces
          | _ ↦ stops 2
        ]
