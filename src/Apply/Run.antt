-- ===== src/Apply/Run.antt =====
-- The loop over workspaces and assets: `WorkspaceRunContext`, `_process_plan_asset`,
-- `_process_apply_asset`, `_monitor_mode_result` and `_run_workspace_iteration` of
-- contentops/cli/commands/apply_support.py, with `apply_snippets` of contentops/snippets/apply.py.
-- The registered handlers, the rewriting of a payload's query texts, the digest of a rewritten
-- asset and `asset_mode_for` are the fields of `Services`. `calls` records the calls of
-- `handler.apply`, which is where the program writes to the tenant. Only `SnippetError` is caught
-- around `apply_snippets`; any other exception there, in `default_registry.get` or in
-- `_compute_snippet_digest` ends the run, and `crashed` holds its text.
use Prim.Native.String.{◌++◌ as concat}
use content_ops.Prelude.{
  if◌then◌else◌, keep, Dict, get, put, String, ◌≡◌, refl, ◌⊎◌, inl, inr, Bool, true, false, not,
  Option, none, some, List, [], ◌∷◌, ◌++◌, string_eq, nat_eq, option_eq, pair_eq, option_eq,
  pair_eq,
}
use content_ops.Asset.{
  Asset, value, is_defender, AssetMode, is_monitor, monitor_mode_detail, skip, noop, ActionResult,
  asset_eq,
}
use content_ops.Config.{Workspace}
use content_ops.Apply.Order.{ordered_for_apply}
use content_ops.Loaded.{Result, ok, raises, LoadedAsset, Handler}

pub data Command : Type 0 where
  plan apply : Command

-- What `apply_snippets` does with a payload: it rewrites it, raises SnippetError, or another exception.
pub data Substitution (Payload : Type 0) : Type 0 where
  rewritten : Payload → Substitution Payload
  snippet_error : String → Substitution Payload
  other_error : String → Substitution Payload

pub Substitution-cases :
    {Payload : Type 0} (r : Substitution Payload)
    → ((p : Payload) × (r ≡ rewritten p))
      ⊎ (((exc : String) × (r ≡ snippet_error exc)) ⊎ ((exc : String) × (r ≡ other_error exc)))
Substitution-cases (rewritten p) = inl (p, refl)
Substitution-cases (snippet_error exc) = inr (inl (exc, refl))
Substitution-cases (other_error exc) = inr (inr (exc, refl))

module _ (Payload : Type 0) where
  pub record Services : Type 0 where
    pub handler : Asset → Option (Result (Handler Payload))
    pub substitute :
        Asset → (id : String) → (workspace : Option String) → Payload → Substitution Payload
    pub snippet_digest : LoadedAsset Payload → LoadedAsset Payload → Result (Option String)
    pub mode_for : (workspace : Option String) → Asset → AssetMode

  pub record AuditPair : Type 0 where
    pub loaded : LoadedAsset Payload
    pub result : ActionResult
    pub workspace : Option String
    pub digest : Option String

  -- One call of `handler.apply`.
  pub record Call : Type 0 where
    pub loaded : LoadedAsset Payload
    pub workspace : Option String
    pub dry_run : Bool

  pub record RunContext : Type 0 where
    pub command : Command
    pub results : List ActionResult
    pub dry_run : Bool
    pub audit_pairs : List AuditPair
    pub asset_modes : Dict (Option String × Asset) AssetMode
    pub calls : List Call
    pub crashed : Option String

abbrev pub new_context : (Payload : Type 0) → Command → (dry_run : Bool) → RunContext Payload
new_context Payload command dry_run = record {
  command = command;
  results = [];
  dry_run = dry_run;
  audit_pairs = [];
  asset_modes = [];
  calls = [];
  crashed = none;
}

module _ {Payload : Type 0} (s : Services Payload) where
  -- Defender is tenant-scoped: no workspace.
  abbrev pub effective_ws : Asset → Option String → Option String
  effective_ws asset workspace = if is_defender asset then none else workspace

  abbrev pub apply_snippets : LoadedAsset Payload → Option String → Substitution Payload
  apply_snippets la workspace =
      s.substitute la.asset la.id (effective_ws la.asset workspace) la.payload

  -- An exception that nothing catches
  abbrev pub crash : (exc : String) → RunContext Payload → RunContext Payload
  crash exc ctx = record ctx { crashed = some exc }

  abbrev pub noop_result : LoadedAsset Payload → (status detail : String) → ActionResult
  noop_result la status detail = record {
    asset_id = la.id;
    asset_kind = value la.asset;
    action = noop;
    status = status;
    detail = detail;
    verified = none;
    error = none;
  }

  abbrev pub monitor_status : Command → String
  monitor_status apply = "monitor"
  monitor_status plan = "planned"

  abbrev pub monitor_result : Command → LoadedAsset Payload → ActionResult
  monitor_result command la = record {
    asset_id = la.id;
    asset_kind = value la.asset;
    action = skip;
    status = monitor_status command;
    detail = monitor_mode_detail la.asset;
    verified = none;
    error = none;
  }

  -- `cache[key]`, looked up once and remembered
  unfoldable pub cached_mode :
      Asset → Option String → RunContext Payload → AssetMode × RunContext Payload
  unfolding get put
  cached_mode asset ws ctx = elim (get (ws, asset) ctx.asset_modes) [
    | some mode ↦ (mode, ctx)
    | none ↦
        let mode = s.mode_for ws asset in
        (mode, record ctx { asset_modes = put (ws, asset) mode ctx.asset_modes })
  ]

  -- `_monitor_mode_result`
  unfoldable pub monitor_mode_result :
      LoadedAsset Payload
      → Option String
      → RunContext Payload
      → Option ActionResult × RunContext Payload
  unfolding cached_mode
  monitor_mode_result la ws ctx =
      let found = cached_mode la.asset ws ctx in
      (if is_monitor found.0 then some (monitor_result ctx.command la) else none, found.1)

  -- `ctx.results.append(...)` and `ctx.audit_pairs.append(...)`
  unfoldable pub record_outcome :
      LoadedAsset Payload
      → ActionResult
      → (ws digest : Option String) → RunContext Payload
      → RunContext Payload
  record_outcome la result ws digest ctx = record ctx {
    results = ctx.results ++ (result ∷ []);
    audit_pairs =
        ctx.audit_pairs
        ++ (record { loaded = la; result = result; workspace = ws; digest = digest } ∷ []);
  }

  abbrev pub or_error : LoadedAsset Payload → (status : String) → Result ActionResult → ActionResult
  or_error la status (ok result) = result
  or_error la status (raises exc) = noop_result la status exc

  -- The call of `handler.apply`
  unfoldable pub call_apply :
      Handler Payload
      → LoadedAsset Payload
      → Option String
      → RunContext Payload
      → ActionResult × RunContext Payload
  call_apply h la ws ctx = (
    or_error la "error-apply" (h.apply la ctx.dry_run),
    record ctx {
      calls = ctx.calls ++ (record { loaded = la; workspace = ws; dry_run = ctx.dry_run } ∷ []);
    },
  )

  -- The second `try` block, from `handler.validate` on
  unfoldable pub run_handler :
      Handler Payload
      → LoadedAsset Payload
      → Option String
      → RunContext Payload
      → ActionResult × RunContext Payload
  unfolding monitor_mode_result call_apply
  run_handler h la ws ctx = elim (h.validate la) [
    | some exc ↦ (noop_result la "error-apply" exc, ctx)
    | none ↦
        let found = monitor_mode_result la ws ctx in
        elim found.0 [ some result ↦ (result, found.1) | none ↦ call_apply h la ws found.1 ]
  ]

  -- From `_compute_snippet_digest` on
  unfoldable pub process_resolved :
      Handler Payload
      → (la resolved : LoadedAsset Payload) → Option String
      → RunContext Payload
      → RunContext Payload
  unfolding run_handler record_outcome
  process_resolved h la resolved ws ctx = elim (s.snippet_digest la resolved) [
    | raises exc ↦ crash exc ctx
    | ok digest ↦
        let outcome = run_handler h resolved ws ctx in
        record_outcome resolved outcome.0 ws digest outcome.1
  ]

  -- From `apply_snippets` on
  unfoldable pub process_found :
      Handler Payload
      → LoadedAsset Payload
      → Option String
      → RunContext Payload
      → RunContext Payload
  unfolding process_resolved record_outcome
  process_found h la ws ctx = elim (apply_snippets la ws) [
    | other_error exc ↦ crash exc ctx
    | snippet_error exc ↦
        let detail = concat "snippet substitution failed: " exc in
        record_outcome la (noop_result la "error-validate" detail) ws none ctx
    | rewritten payload ↦ process_resolved h la (record la { payload = payload }) ws ctx
  ]

  unfoldable pub process_apply_asset :
      LoadedAsset Payload → Option String → RunContext Payload → RunContext Payload
  unfolding process_found
  process_apply_asset la ws ctx = elim (s.handler la.asset) [
    | none ↦ ctx
    | some (raises exc) ↦ crash exc ctx
    | some (ok h) ↦ process_found h la ws ctx
  ]

  abbrev pub plan_result :
      Handler Payload → (la resolved : LoadedAsset Payload) → Option ActionResult → ActionResult
  plan_result h la resolved (some result) = result
  plan_result h la resolved none = or_error la "error-validate" (h.plan resolved)

  unfoldable pub plan_resolved :
      Handler Payload
      → (la resolved : LoadedAsset Payload) → Option String
      → RunContext Payload
      → RunContext Payload
  unfolding monitor_mode_result
  plan_resolved h la resolved ws ctx = elim (h.validate resolved) [
    | some exc ↦ record ctx { results = ctx.results ++ (noop_result la "error-validate" exc ∷ []) }
    | none ↦
        let found = monitor_mode_result la ws ctx in
        record found.1 { results = ctx.results ++ (plan_result h la resolved found.0 ∷ []) }
  ]

  unfoldable pub process_plan_asset :
      LoadedAsset Payload → Option String → RunContext Payload → RunContext Payload
  unfolding plan_resolved
  process_plan_asset la ws ctx = elim (s.handler la.asset) [
    | none ↦ ctx
    | some (raises exc) ↦ crash exc ctx
    | some (ok h) ↦ elim (apply_snippets la ws) [
      | other_error exc ↦ crash exc ctx
      | snippet_error exc ↦
          let detail = concat "snippet substitution failed: " exc in
          record ctx { results = ctx.results ++ (noop_result la "error-validate" detail ∷ []) }
      | rewritten payload ↦ plan_resolved h la (record la { payload = payload }) ws ctx
    ]
  ]

  unfoldable pub process :
      Command → LoadedAsset Payload → Option String → RunContext Payload → RunContext Payload
  unfolding process_apply_asset process_plan_asset
  process apply = process_apply_asset
  process plan = process_plan_asset

  -- The inner loop, which an exception leaves
  unfoldable pub process_all :
      List (LoadedAsset Payload) → Option String → RunContext Payload → RunContext Payload
  unfolding process
  process_all [] ws ctx = ctx
  process_all (la ∷ rest) ws ctx =
      let done = process ctx.command la ws ctx in
      let later = process_all rest ws done in elim ctx.crashed [ some exc ↦ ctx | none ↦ later ]

  -- `workspace_loaded`
  abbrev pub workspace_loaded :
      (is_first : Bool) → List (LoadedAsset Payload) → List (LoadedAsset Payload)
  workspace_loaded true loaded = loaded
  workspace_loaded false loaded =
      keep (λ (la : LoadedAsset Payload). not (is_defender la.asset)) loaded

  abbrev pub name_of : Option Workspace → Option String
  name_of none = none
  name_of (some w) = some w.workspace_name

  -- The outer loop
  unfoldable pub iterate :
      List (LoadedAsset Payload)
      → (is_first : Bool) → List (Option Workspace)
      → RunContext Payload
      → RunContext Payload
  unfolding process_all ordered_for_apply
  iterate loaded is_first [] ctx = ctx
  iterate loaded is_first (w ∷ rest) ctx =
      iterate loaded false rest
        (process_all (ordered_for_apply (workspace_loaded is_first loaded)) (name_of w) ctx)

  unfoldable pub run_workspace_iteration :
      List (LoadedAsset Payload) → List (Option Workspace) → RunContext Payload → RunContext Payload
  unfolding iterate
  run_workspace_iteration loaded iter_workspaces ctx = iterate loaded true iter_workspaces ctx
