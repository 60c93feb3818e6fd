-- ===== src/Tests/PruneRuns.antt =====
-- `prune` with one orphan, a locked local file and a file that does not load.
use content_ops.Prelude.{
  length, keep, any_of, contains, ℕ, String, ◌≡◌, refl, true, false, Option, none, some, List, [],
  ◌∷◌, string_eq, nat_eq, option_eq, pair_eq, option_eq, pair_eq,
}
use content_ops.Asset.{Asset, sentinel_analytic, default_mode, asset_eq}
use content_ops.EnvStatus.{production, status_eq}
use content_ops.Config.{Safeguards}
use content_ops.Loaded.{Result, ok, raises, LoadedAsset, Deletion, not_supported}
use content_ops.Prune.Plan.{
  Remote, DriftHandler, keys_of, local_index, locked_ids, is_orphan, consider_id, consider,
  consider_all, plan_items, plan_handler, plan_all,
}
use content_ops.Prune.Run.{
  PruneOptions, PruneOutcome, done, effective_max_deletes, managed_handlers, plan_for, delete_all,
  delete_phase, conclude, prune_cmd,
}
use content_ops.Prune.Locks.{prune_cmd_ignores_include_locked}
use content_ops.Prune.Safe.{IsSafePrune, OnDone, prune_cmd-IsSafe}

abbrev guards : List Safeguards
guards =
    record { write_allowed = true; purge_allowed = true; max_delete = 3; asset_modes = [] } ∷ []

abbrev local_file : Result (LoadedAsset String)
local_file = ok (record {
  path = "analytics/logon.yml";
  asset = sentinel_analytic;
  id = "logon";
  arm_name = "guid-1";
  status = production;
  owner = none;
  local_customization = true;
  payload = "query";
})

abbrev files : List (Result (LoadedAsset String))
files = local_file ∷ raises "bad YAML" ∷ []

abbrev remotes : List Remote
remotes = record { name = "guid-1"; id = "1" } ∷ record { name = "guid-2"; id = "2" } ∷ []

abbrev envelope_id_of : Remote → Option String
envelope_id_of remote = some remote.name

abbrev handlers : List DriftHandler
handlers =
    record { asset = sentinel_analytic; list_remote = ok remotes; to_envelope = envelope_id_of }
    ∷ []

abbrev prune_options : PruneOptions
prune_options = record {
  asset = none;
  dry_run = false;
  yes = true;
  max_deletes = 25;
  include_locked = false;
  allow_empty_kind = false;
}

abbrev delete_remote : Asset → String → Deletion
delete_remote asset remote_id = not_supported "read only"

prune_cmd-IsSafe_example :
    OnDone
      (λ s. s)
      delete_remote
      default_mode
      prune_options
      guards
      files
      handlers
      (IsSafePrune (λ s. s) delete_remote default_mode prune_options guards files handlers)
      (prune_cmd (λ s. s) delete_remote default_mode prune_options guards files handlers)
prune_cmd-IsSafe_example =
    prune_cmd-IsSafe (λ s. s) delete_remote default_mode prune_options guards files handlers

prune_cmd_ignores_include_locked_example :
    (prune_cmd
        (λ s. s)
        delete_remote
        default_mode
        (record prune_options { include_locked = true })
        guards
        files
        handlers
      ≡ prune_cmd (λ s. s) delete_remote default_mode prune_options guards files handlers)
    × ((plan_for prune_options files handlers).skipped_locked ≡ [])
prune_cmd_ignores_include_locked_example =
    prune_cmd_ignores_include_locked files (λ s. s) delete_remote default_mode prune_options true
      guards handlers

abbrev count_attempts : PruneOutcome → ℕ
count_attempts (done code attempts) = length attempts
count_attempts _ = 0

deletes_one :
    count_attempts
      (prune_cmd (λ s. s) delete_remote default_mode prune_options guards files handlers)
    ≡ 1
unfolding prune_cmd managed_handlers keep default_mode any_of effective_max_deletes plan_all
    plan_handler plan_items consider_all consider consider_id is_orphan contains locked_ids
    local_index keys_of conclude delete_phase delete_all
deletes_one = refl
