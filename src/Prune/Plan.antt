-- ===== src/Prune/Plan.antt =====
-- The plan phase of `prune_cmd` of contentops/cli/commands/prune.py, with the keys of
-- `_local_index` of contentops/core/drift.py. An id that is missing or empty is the empty text. A
-- `to_envelope` that raises is not modelled.
use content_ops.Prelude.{
  if◌then◌else◌, ◌==◌, nonempty, is_empty, contains, ℕ, ◌+◌, String, Bool, ◌&&◌, ◌||◌, not, Option,
  none, some, List, [], ◌∷◌, ◌++◌, string_eq, nat_eq, option_eq, pair_eq, option_eq, pair_eq,
}
use content_ops.Asset.{Asset, asset_eq}
use content_ops.Loaded.{Result, ok, raises, LoadedAsset}

pub record Remote : Type 0 where
  pub name : String
  pub id : String

-- `to_envelope` gives the `id` of the envelope, or none where it returns None.
pub record DriftHandler : Type 0 where
  pub asset : Asset
  pub list_remote : Result (List Remote)
  pub to_envelope : Remote → Option String

pub record Orphan : Type 0 where
  pub asset : Asset
  pub envelope_id : String
  pub remote_id : String

abbrev pub new_orphan : Asset → (env_id remote_id : String) → Orphan
new_orphan asset env_id remote_id = record {
  asset = asset;
  envelope_id = env_id;
  remote_id = remote_id;
}

-- What the plan phase collects; `listed_ok` counts the handlers that listed their remote items.
pub record Plan : Type 0 where
  pub orphans : List Orphan
  pub skipped_locked : List Orphan
  pub empty_kinds : List Asset
  pub list_errors : List Asset
  pub listed_ok : ℕ

abbrev pub empty_plan : Plan
empty_plan = record {
  orphans = [];
  skipped_locked = [];
  empty_kinds = [];
  list_errors = [];
  listed_ok = 0;
}

-- One more handler listed; and a kind noted that has no local file
abbrev pub listed : Plan → Plan
listed p = record p { listed_ok = p.listed_ok + 1 }

abbrev pub noted : DriftHandler → Plan → Plan
noted h p = record (listed p) { empty_kinds = p.empty_kinds ++ (h.asset ∷ []) }

-- `remote.get("name") or remote.get("id") or ""`
abbrev pub remote_id_of : Remote → String
remote_id_of remote = if nonempty remote.name then remote.name else remote.id

module _ {Payload : Type 0} where
  -- A file is what `load_asset` gave for it. The keys of one file in `_local_index`; a file that does not load is skipped.
  unfoldable pub keys_of : Asset → Result (LoadedAsset Payload) → List String
  keys_of asset (raises exc) = []
  keys_of asset (ok la) =
      if la.asset == asset
      then la.id ∷ (if nonempty la.arm_name then la.arm_name ∷ [] else [])
      else []

  unfoldable pub local_index : List (Result (LoadedAsset Payload)) → Asset → List String
  unfolding keys_of
  local_index [] asset = []
  local_index (file ∷ rest) asset = keys_of asset file ++ local_index rest asset

  -- `locked_ids`
  unfoldable pub locked_ids : List (Result (LoadedAsset Payload)) → List (Asset × String)
  locked_ids [] = []
  locked_ids (raises exc ∷ rest) = locked_ids rest
  locked_ids (ok la ∷ rest) =
      if la.local_customization then (la.asset, la.id) ∷ locked_ids rest else locked_ids rest

-- Neither the remote name nor the envelope id is a local key.
unfoldable pub is_orphan : List String → (remote_id env_id : String) → Bool
unfolding contains
is_orphan local remote_id env_id = not (contains remote_id local || contains env_id local)

module _ (locked : List (Asset × String)) (include_locked : Bool) where
  -- One remote item whose envelope has this id
  unfoldable pub consider_id : Asset → List String → Remote → String → Plan → Plan
  unfolding is_orphan contains
  consider_id asset local remote env_id p =
      let remote_id = remote_id_of remote in
      if not (nonempty env_id) || not (nonempty remote_id) || not (is_orphan local remote_id env_id)
      then p
      else if contains (asset, env_id) locked && not include_locked
      then record p {
        skipped_locked = p.skipped_locked ++ (new_orphan asset env_id remote_id ∷ []);
      }
      else record p { orphans = p.orphans ++ (new_orphan asset env_id remote_id ∷ []) }

  unfoldable pub consider : DriftHandler → List String → Remote → Plan → Plan
  unfolding consider_id
  consider h local remote p = elim (h.to_envelope remote) [
    | none ↦ p
    | some env_id ↦ consider_id h.asset local remote env_id p
  ]

  unfoldable pub consider_all : DriftHandler → List String → List Remote → Plan → Plan
  unfolding consider
  consider_all h local [] p = p
  consider_all h local (remote ∷ rest) p = consider_all h local rest (consider h local remote p)

  module _ (allow_empty_kind : Bool) where
    -- The items of one handler
    unfoldable pub plan_items : DriftHandler → List String → List Remote → Plan → Plan
    unfolding consider_all
    plan_items h local items p =
        if not (is_empty items) && is_empty local
        then (if allow_empty_kind then consider_all h local items (noted h p) else noted h p)
        else consider_all h local items (listed p)

    unfoldable pub plan_handler : DriftHandler → List String → Plan → Plan
    unfolding plan_items
    plan_handler h local p = elim h.list_remote [
      | raises exc ↦ record p { list_errors = p.list_errors ++ (h.asset ∷ []) }
      | ok items ↦ plan_items h local items p
    ]

    -- The loop over the handlers
    unfoldable pub plan_all : (Asset → List String) → List DriftHandler → Plan → Plan
    unfolding plan_handler
    plan_all local_of [] p = p
    plan_all local_of (h ∷ rest) p = plan_all local_of rest (plan_handler h (local_of h.asset) p)
