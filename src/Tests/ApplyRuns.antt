-- ===== src/Tests/ApplyRuns.antt =====
-- The apply pipeline at a tenant with two production workspaces, and the dependency check.
use mathlib.Core.List.{Perm}
use content_ops.Prelude.{
  option_beq, length, keep, any_of, All, contains, get, put, lex_ltb, text_ltb, insert_sorted,
  sorted, IsOrdered, ℕ, String, ◌≡◌, refl, ◌↔◌, Bool, true, false, none, some, List, [], ◌∷◌, ◌++◌,
  map, string_eq, nat_eq, option_eq, pair_eq, option_eq, pair_eq,
}
use content_ops.Asset.{
  Asset, sentinel_analytic, defender_custom_detection, sentinel_automation_rule, sentinel_playbook,
  value, is_defender, apply_order, managed, default_mode, update, skip, noop, ActionResult,
  asset_eq,
}
use content_ops.EnvStatus.{production, allowed_statuses_for_env, status_eq}
use content_ops.Config.{
  Safeguards, Workspace, Tenant, asset_mode, find_workspace, workspace_by_name, asset_mode_for,
}
use content_ops.Loaded.{Result, ok, raises, LoadedAsset, not_supported, Handler}
use content_ops.Dependencies.{
  DependencyGraph, for_asset, missing, index_by_asset, rule_violations, asset_violations,
  violations_from, validate,
}
use content_ops.Dependencies.Resolved.{IsResolved, validate_exact}
use content_ops.Apply.Order.{key_ltb, ordered_for_apply, InOrder, ordered_for_apply-IsOrdered}
use content_ops.Apply.Gates.{
  check_apply_write_allowed, defender_gate_active, filter_disabled_engines,
  filter_locked_loaded_assets, passes_env_status, filter_loaded_by_env_status,
}
use content_ops.State.{ApplyResult}
use content_ops.Audit.Record.{AuditRecord}
use content_ops.Apply.Outcomes.{
  Stamp, build_audit_record, subject_of, state_inputs, Fails, Explains, build_audit_record-status,
}
use content_ops.Apply.Run.{
  apply, Substitution, rewritten, other_error, Services, AuditPair, RunContext, new_context,
  cached_mode, monitor_mode_result, record_outcome, call_apply, run_handler, process_resolved,
  process_found, process_apply_asset, process, process_all, iterate, run_workspace_iteration,
}
use content_ops.Apply.Accounts.{
  Label, pair_label, pair_result, schedule, run_workspace_iteration_accounts,
}
use content_ops.Apply.Command.{
  Options, Inputs, Outcome, stops, ran, load_assets_for_run, deploy, select_assets, apply_selected,
}
use content_ops.Apply.Gated.{OnRun, IsGated, apply_selected-IsGated}

abbrev writable : Safeguards
writable = record {
  write_allowed = true;
  purge_allowed = true;
  max_delete = 5;
  asset_modes = (sentinel_playbook, managed) ∷ [];
}

abbrev first_workspace : Workspace
first_workspace = record { workspace_name = "law-a"; role = "prod"; safeguards = writable }

abbrev second_workspace : Workspace
second_workspace = record { workspace_name = "law-b"; role = "prod"; safeguards = writable }

abbrev two_workspaces : List Workspace
two_workspaces = first_workspace ∷ second_workspace ∷ []

abbrev tenant : Tenant
tenant = record {
  name = "contoso";
  workspaces = two_workspaces;
  defender = some (record { enabled = true; safeguards = writable });
}

abbrev new_asset : Asset → (id : String) → (locked : Bool) → LoadedAsset String
new_asset kind id locked = record {
  path = id;
  asset = kind;
  id = id;
  arm_name = "";
  status = production;
  owner = none;
  local_customization = locked;
  payload = "query";
}

abbrev assets : List (LoadedAsset String)
assets =
    new_asset sentinel_automation_rule "close" false
    ∷ new_asset sentinel_analytic "logon" false
    ∷ new_asset defender_custom_detection "beacon" false
    ∷ new_asset sentinel_analytic "local" true
    ∷ new_asset sentinel_playbook "notify" false
    ∷ []

abbrev done_result : LoadedAsset String → ActionResult
done_result la = record {
  asset_id = la.id;
  asset_kind = value la.asset;
  action = update;
  status = "ok";
  detail = "";
  verified = some true;
  error = none;
}

-- The handler of analytic rules raises.
abbrev applied : Asset → LoadedAsset String → Result ActionResult
applied sentinel_analytic la = raises "429"
applied _ la = ok (done_result la)

abbrev sample_handler : Handler String
sample_handler = record {
  validate = λ la. none;
  plan = λ la. ok (done_result la);
  apply = λ la dry_run. applied la.asset la;
  delete = λ remote_id. not_supported "read only";
}

abbrev services : Services String
services = record {
  handler = λ asset. some (ok sample_handler);
  substitute = λ asset id workspace payload. rewritten payload;
  snippet_digest = λ la resolved. ok none;
  mode_for = λ workspace asset. asset_mode_for (λ s. s) (some tenant) workspace asset;
}

abbrev inputs : Inputs String
inputs = record {
  strip_lower = λ s. s;
  casefold = λ s. s;
  loaded = assets;
  is_changed = none;
  graph = [];
  playbook_refs = λ payload. [];
  analytic_refs = λ payload. [];
}

abbrev options : Options
options = record {
  asset = none;
  dry_run = false;
  no_audit = false;
  skip_deps_check = false;
  force_overwrite = false;
  role = some "prod";
  workspace = none;
  continue_on_error = false;
}

apply_selected-IsGated_example :
    OnRun
      (λ (ctx : RunContext String).
        All (IsGated services inputs options tenant two_workspaces) ctx.calls)
      (apply_selected services inputs options (some tenant) two_workspaces)
apply_selected-IsGated_example =
    apply_selected-IsGated services inputs options tenant two_workspaces

-- That run makes calls: the playbook and the analytic rule in both workspaces, the detection in one
abbrev count_calls : Outcome String → ℕ
count_calls (stops code) = 0
count_calls (ran code ctx) = length ctx.calls

makes_calls : count_calls (apply_selected services inputs options (some tenant) two_workspaces) ≡ 5
unfolding option_beq apply_selected check_apply_write_allowed any_of select_assets
    load_assets_for_run filter_disabled_engines keep is_defender filter_loaded_by_env_status
    passes_env_status defender_gate_active contains allowed_statuses_for_env validate
    violations_from asset_violations for_asset get put missing rule_violations index_by_asset deploy
    filter_locked_loaded_assets run_workspace_iteration iterate process_all process
    process_apply_asset process_found process_resolved run_handler monitor_mode_result cached_mode
    call_apply record_outcome ordered_for_apply sorted insert_sorted key_ltb text_ltb lex_ltb
    apply_order asset_mode_for asset_mode default_mode find_workspace workspace_by_name
makes_calls = refl

-- A snippet file that is not UTF-8 ends the run at the first analytic rule, after two assets.
abbrev broken_snippet : Asset → String → Substitution String
broken_snippet sentinel_analytic payload = other_error "UnicodeDecodeError"
broken_snippet _ payload = rewritten payload

abbrev broken_services : Services String
broken_services = record services {
  substitute = λ asset id workspace payload. broken_snippet asset payload;
}

abbrev broken_run : RunContext String
broken_run =
    run_workspace_iteration broken_services assets (map some two_workspaces)
      (new_context String apply false)

crashes : (broken_run.crashed ≡ some "UnicodeDecodeError") × (length broken_run.audit_pairs ≡ 2)
unfolding run_workspace_iteration iterate process_all process process_apply_asset process_found
    process_resolved run_handler monitor_mode_result cached_mode call_apply record_outcome
    ordered_for_apply sorted insert_sorted key_ltb text_ltb lex_ltb apply_order asset_mode_for
    asset_mode default_mode find_workspace workspace_by_name get put keep is_defender option_beq
crashes = (refl, refl)

run_workspace_iteration_accounts_example :
    ((missed : List Label) × (schedule services assets true (map some two_workspaces)
        ≡ map pair_label
            (run_workspace_iteration services assets
              (map some two_workspaces)
              (new_context String apply false)).audit_pairs
          ++ missed)
      × ((run_workspace_iteration services assets
              (map some two_workspaces)
              (new_context String apply false)).crashed
            ≡ none
          → missed ≡ []))
    × ((run_workspace_iteration services assets
          (map some two_workspaces)
          (new_context String apply false)).results
        ≡ map pair_result
            (run_workspace_iteration services assets
              (map some two_workspaces)
              (new_context String apply false)).audit_pairs)
run_workspace_iteration_accounts_example =
    run_workspace_iteration_accounts services assets (map some two_workspaces) false

ordered_for_apply-IsOrdered_example :
    Perm (ordered_for_apply assets) assets × IsOrdered key_ltb InOrder (ordered_for_apply assets)
ordered_for_apply-IsOrdered_example = ordered_for_apply-IsOrdered assets

abbrev graph : DependencyGraph
graph =
    (
      "logon",
      record { watchlists = "vip" ∷ []; parsers = []; detections = "beacon" ∷ []; playbooks = [] },
    )
    ∷ []

validate_exact_example :
    (validate (λ payload. "notify" ∷ []) (λ payload. "logon" ∷ []) assets graph ≡ [])
    ↔ All
        (λ (la : LoadedAsset String).
          IsResolved
            (λ payload. "notify" ∷ [])
            (λ payload. "logon" ∷ [])
            assets
            (for_asset graph la.id)
            la)
        assets
validate_exact_example =
    validate_exact (λ payload. "notify" ∷ []) (λ payload. "logon" ∷ []) assets graph

abbrev sample_pair : AuditPair String
sample_pair = record {
  loaded = new_asset sentinel_analytic "logon" false;
  result = record {
    asset_id = "logon";
    asset_kind = "sentinel_analytic";
    action = noop;
    status = "error-apply";
    detail = "429";
    verified = none;
    error = none;
  };
  workspace = some "law-a";
  digest = none;
}

abbrev sample_stamp : Stamp
sample_stamp = record { timestamp = "t"; sha = "abc"; actor = "ci"; workflow_run = none }

abbrev sample_audit : AuditRecord
sample_audit =
    build_audit_record sample_pair.result (subject_of sample_pair.loaded) sample_pair.workspace
      sample_pair.digest none sample_stamp

build_audit_record-status_example :
    ((sample_audit.status ≡ "failed") ↔ Fails sample_pair.result)
    × (Fails sample_pair.result → Explains sample_pair.result sample_audit.message)
    × ((sample_audit.status ≡ "skipped")
        ↔ ((¬ Fails sample_pair.result) × (sample_pair.result.action ≡ skip)))
    × (map (λ (i : ApplyResult). i.status) (state_inputs ((sample_pair, "t") ∷ []))
        ≡ sample_audit.status ∷ [])
build_audit_record-status_example = build_audit_record-status sample_pair sample_stamp "t"
