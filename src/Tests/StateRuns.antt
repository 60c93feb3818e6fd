-- ===== src/Tests/StateRuns.antt =====
-- The environment's state, the status gate and the dependency check at sample data.
use content_ops.Prelude.{
  any_of, contains, get, put, ℕ, String, ◌≡◌, refl, true, false, ◌||◌, not, some, List, [], ◌∷◌,
  string_eq, nat_eq, option_eq, pair_eq, option_eq, pair_eq,
}
use content_ops.Asset.{sentinel_analytic, asset_eq}
use content_ops.EnvStatus.{
  experimental, test, production, deprecated, dedicated_test_aliases, integration_aliases,
  dev_aliases, allowed_statuses_for_env, allowed_statuses_exact, status_eq,
}
use content_ops.Asset.{asset_eq}
use content_ops.Registry.{
  new_registry, register, get_handler, close_all, Method, registering, getting, closing, call_all,
}
use content_ops.Registry.Open.{get_handler_open}
use content_ops.State.{
  EnvState, new_entry, ApplyResult, merge_apply_results, in_sync, classify_remote,
}
use content_ops.State.Managed.{entry_of, IsTidy, remembered, forgotten, changes}
use content_ops.State.Refines.{replay, changes_refine}
use content_ops.State.Merge.{records, classify_remote-merge}

abbrev kind : String
kind = "sentinel_analytic"

abbrev old_state : EnvState
old_state = record {
  schema_version = "1";
  env = "prod";
  last_apply_sha = "";
  last_apply_at = "";
  managed_assets = (kind, ("rule-a", new_entry "" "abc" "success" "t1") ∷ []) ∷ [];
}

abbrev new_results : List ApplyResult
new_results =
    record {
      asset_kind = kind;
      envelope_id = "rule-b";
      remote_id = "";
      status = "failed";
      now = "t2";
    }
    ∷ record {
      asset_kind = kind;
      envelope_id = "rule-a";
      remote_id = "";
      status = "skipped";
      now = "t3";
    }
    ∷ []

changes_refine_example :
    IsTidy (
      changes
        (forgotten kind "rule-a" ∷ remembered kind "rule-b" "" "def" "success" "t2" ∷ [])
        old_state)
    × ((k i : String)
        → entry_of
            (changes
              (forgotten kind "rule-a" ∷ remembered kind "rule-b" "" "def" "success" "t2" ∷ [])
              old_state)
            k
            i
          ≡ replay
              (forgotten kind "rule-a" ∷ remembered kind "rule-b" "" "def" "success" "t2" ∷ [])
              (entry_of old_state)
              k
              i)
changes_refine_example =
    changes_refine (forgotten kind "rule-a" ∷ remembered kind "rule-b" "" "def" "success" "t2" ∷ [])
      old_state (refl, tt)

recorded : any_of (records kind "rule-b") new_results ≡ true
unfolding any_of
recorded = refl

classify_remote-merge_example :
    classify_remote (merge_apply_results old_state new_results "def" "t4") kind "rule-b" true
    ≡ in_sync
classify_remote-merge_example =
    classify_remote-merge old_state new_results "def" "t4" kind "rule-b" true recorded

allowed_statuses_exact_example :
    (contains deprecated (allowed_statuses_for_env (λ s. s) (some "staging")) ≡ true)
    × (contains experimental (allowed_statuses_for_env (λ s. s) (some "staging"))
        ≡ contains "staging" dev_aliases)
    × (contains test (allowed_statuses_for_env (λ s. s) (some "staging")) ≡ (
        contains "staging" dev_aliases
        || contains "staging" dedicated_test_aliases
        || contains "staging" integration_aliases))
    × (contains production (allowed_statuses_for_env (λ s. s) (some "staging"))
        ≡ not (contains "staging" dedicated_test_aliases))
allowed_statuses_exact_example = allowed_statuses_exact (λ s. s) (some "staging")

abbrev session : List Method
session =
    registering sentinel_analytic "analytic"
    ∷ getting sentinel_analytic
    ∷ closing
    ∷ getting sentinel_analytic
    ∷ []

-- Each call of a factory returns another object.
abbrev new_objects : String → ℕ → ℕ
new_objects factory n = n

-- A factory that returns one object always: it is handed out again after `close_all`.
shared_object :
    (get_handler
      (λ factory n. 0)
      sentinel_analytic
      (call_all (λ factory n. 0) session new_registry)).0
    ≡ some (record { factory = "analytic"; number = 0 })
unfolding get_handler register close_all get put
shared_object = refl

second_handler :
    (get_handler new_objects sentinel_analytic (call_all new_objects session new_registry)).0
    ≡ some (record { factory = "analytic"; number = 1 })
unfolding get_handler register close_all get put
second_handler = refl

get_handler_open_example : contains 1 (call_all new_objects session new_registry).closed ≡ false
get_handler_open_example =
    get_handler_open new_objects (λ f g n m e. e) session sentinel_analytic
      (record { factory = "analytic"; number = 1 }) second_handler
