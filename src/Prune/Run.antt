-- ===== src/Prune/Run.antt =====
-- The safeguards, the refusals and the delete phase of `prune_cmd`, and
-- `_resolve_safeguards_for_target`, of contentops/cli/commands/prune.py.
use content_ops.Prelude.{
  ltb, nat_beq, if◌then◌else◌, nonempty, length, keep, any_of, is_empty, ℕ, String, Bool, true,
  ◌&&◌, not, Option, none, some, List, [], ◌∷◌, ◌++◌,
}
use content_ops.Asset.{
  Asset, value, is_defender, AssetMode, is_monitor, PlanAction, skip, delete, ActionResult,
  is_failure, asset_eq,
}
use content_ops.Audit.Record.{AuditRecord}
use content_ops.Config.{Safeguards, Workspace, Defender, Tenant, workspace_by_name}
use content_ops.Loaded.{Result, LoadedAsset, Deletion, deleted, not_supported, delete_raises}
use content_ops.Apply.Outcomes.{Stamp, build_audit_record}
use content_ops.Prune.Plan.{
  DriftHandler, Orphan, Plan, empty_plan, local_index, locked_ids, plan_all,
}

pub record PruneOptions : Type 0 where
  pub asset : Option Asset
  pub dry_run : Bool
  pub yes : Bool
  pub max_deletes : ℕ
  pub include_locked : Bool
  pub allow_empty_kind : Bool

-- One call of `handler.delete`, and what was made of it.
pub record Attempt : Type 0 where
  pub orphan : Orphan
  pub result : ActionResult

-- How the command ends; `done` has the exit code and the attempted deletions.
pub data PruneOutcome : Type 0 where
  purge_refused no_handlers blind empty_kind nothing_to_prune too_many preview : PruneOutcome
  done : (code : ℕ) → List Attempt → PruneOutcome

abbrev pub will_delete : PruneOptions → Bool
will_delete o = not o.dry_run && o.yes

abbrev pub min : ℕ → ℕ → ℕ
min a b = if ltb b a then b else a

-- The clamp over the safeguards
unfoldable pub effective_max_deletes : List Safeguards → ℕ → ℕ
effective_max_deletes [] cap = cap
effective_max_deletes (sg ∷ rest) cap = effective_max_deletes rest (min cap sg.max_delete)

abbrev pub refuses_purge : Safeguards → Bool
refuses_purge sg = not sg.purge_allowed

abbrev pub wants_defender : Option Asset → Bool
wants_defender none = true
wants_defender (some asset) = is_defender asset

abbrev pub wants_sentinel : Option Asset → Bool
wants_sentinel none = true
wants_sentinel (some asset) = not (is_defender asset)

abbrev pub sole : List Workspace → Option Workspace
sole (w ∷ []) = some w
sole _ = none

-- `ws` of `_resolve_safeguards_for_target`; `active` is the environment's workspace name.
unfoldable pub target_workspace :
    (casefold : String → String) → Tenant → (active : Option String) → Option Workspace
unfolding workspace_by_name
target_workspace casefold cfg none = sole cfg.workspaces
target_workspace casefold cfg (some name) =
    if nonempty name then workspace_by_name casefold cfg name else sole cfg.workspaces

abbrev pub of_workspace : Option Workspace → List Safeguards
of_workspace none = []
of_workspace (some w) = w.safeguards ∷ []

abbrev pub of_defender : Option Defender → List Safeguards
of_defender none = []
of_defender (some d) = d.safeguards ∷ []

unfoldable pub resolve_safeguards_for_target :
    (casefold : String → String)
    → Option Tenant
    → (active : Option String) → Option Asset
    → List Safeguards
unfolding target_workspace
resolve_safeguards_for_target casefold none active asset = []
resolve_safeguards_for_target casefold (some cfg) active asset =
    (if wants_sentinel asset then of_workspace (target_workspace casefold cfg active) else [])
    ++ (if wants_defender asset then of_defender cfg.defender else [])

-- `drift_handlers` without the monitored kinds
unfoldable pub managed_handlers : (Asset → AssetMode) → List DriftHandler → List DriftHandler
unfolding keep
managed_handlers mode_for handlers =
    keep (λ (h : DriftHandler). not (is_monitor (mode_for h.asset))) handlers

abbrev pub plan_for :
    {Payload : Type 0}
    → PruneOptions
    → List (Result (LoadedAsset Payload))
    → List DriftHandler
    → Plan
plan_for o files handlers =
    plan_all (locked_ids files) o.include_locked o.allow_empty_kind (local_index files) handlers
      empty_plan

-- `list_errors and listed_ok == 0`
abbrev pub is_blind : Plan → Bool
is_blind p = not (is_empty p.list_errors) && nat_beq p.listed_ok 0

abbrev pub refuses_empty_kind : PruneOptions → Plan → Bool
refuses_empty_kind o p = not (is_empty p.empty_kinds) && not o.allow_empty_kind && will_delete o

-- `str(exc)[:200]` is `clip`.
module _ (clip : String → String) (delete_remote : Asset → (remote_id : String) → Deletion) where
  abbrev pub failed_result :
      Orphan → PlanAction → (status detail : String) → Option String → ActionResult
  failed_result o action status detail error = record {
    asset_id = o.envelope_id;
    asset_kind = value o.asset;
    action = action;
    status = status;
    detail = detail;
    verified = none;
    error = error;
  }

  abbrev pub result_of : Orphan → Deletion → ActionResult
  result_of o (deleted r) = r
  result_of o (not_supported exc) = failed_result o skip "skipped" (clip exc) none
  result_of o (delete_raises exc) =
      failed_result o delete "error-exception" (clip exc) (some (clip exc))

  -- The delete phase
  unfoldable pub delete_all : List Orphan → List Attempt
  delete_all [] = []
  delete_all (o ∷ rest) =
      record { orphan = o; result = result_of o (delete_remote o.asset o.remote_id) }
      ∷ delete_all rest

  abbrev pub attempt_failed : Attempt → Bool
  attempt_failed a = is_failure a.result

  unfoldable pub delete_phase : List Orphan → PruneOutcome
  unfolding delete_all any_of
  delete_phase orphans =
      let attempts = delete_all orphans in
      done (if any_of attempt_failed attempts then 1 else 0) attempts

  -- From the plan to the exit
  unfoldable pub conclude : PruneOptions → (cap : ℕ) → Plan → PruneOutcome
  unfolding delete_phase
  conclude o cap p =
      if is_blind p
      then blind
      else if refuses_empty_kind o p
      then empty_kind
      else if is_empty p.orphans
      then nothing_to_prune
      else if ltb cap (length p.orphans)
      then too_many
      else if not (will_delete o)
      then preview
      else delete_phase p.orphans

  module _ {Payload : Type 0} (mode_for : Asset → AssetMode) where
    unfoldable pub prune_cmd :
        PruneOptions
        → List Safeguards
        → List (Result (LoadedAsset Payload))
        → (drift_handlers : List DriftHandler) → PruneOutcome
    unfolding effective_max_deletes any_of managed_handlers plan_all conclude locked_ids local_index
    prune_cmd o safeguards files drift_handlers =
        let handlers = managed_handlers mode_for drift_handlers in
        if will_delete o && any_of refuses_purge safeguards
        then purge_refused
        else if is_empty handlers
        then no_handlers
        else conclude o (effective_max_deletes safeguards o.max_deletes) (plan_for o files handlers)

-- The audit records of the attempts, each with its own clock reading
unfoldable pub prune_records :
    (workspace : Option String) → List (Attempt × Stamp) → List AuditRecord
unfolding build_audit_record
prune_records workspace [] = []
prune_records workspace ((a, stamp) ∷ rest) =
    build_audit_record a.result
      (record { asset = value a.orphan.asset; id = a.orphan.envelope_id; owner = none }) workspace
      none (some "pruned") stamp
    ∷ prune_records workspace rest
