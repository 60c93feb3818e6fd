-- ===== src/State.antt =====
-- contentops/state.py: the per-environment state, which assets the pipeline has applied.
-- The texts that `_now_iso` reads from the clock are arguments; loading and saving the JSON file
-- is not modelled.
pub mod Managed
pub mod Merge
pub mod Refines
use content_ops.Prelude.{
  ℕ, ◌+◌, String, Bool, true, false, ◌||◌, ◌&&◌, not, Option, none, some, List, [], ◌∷◌, Dict, get,
  put, pop, has, length, is_empty, ◌==◌, string_eq, nonempty, if◌then◌else◌,
}

pub record AssetStateEntry : Type 0 where
  pub remote_id : String
  pub last_applied_at : String
  pub last_applied_sha : String
  pub status : String

abbrev pub Bucket : Type 0
Bucket = Dict String AssetStateEntry

pub record EnvState : Type 0 where
  pub schema_version : String
  pub env : String
  pub last_apply_sha : String
  pub last_apply_at : String
  pub managed_assets : Dict String Bucket

-- `bucket or {}` of a looked-up bucket
abbrev pub or_empty : Option Bucket → Bucket
or_empty none = []
or_empty (some bucket) = bucket

unfoldable pub is_managed : EnvState → String → String → Bool
unfolding has get
is_managed s asset_kind envelope_id = has envelope_id (or_empty (get asset_kind s.managed_assets))

abbrev pub new_entry : (remote_id sha status now : String) → AssetStateEntry
new_entry remote_id sha status now = record {
  remote_id = remote_id;
  last_applied_at = now;
  last_applied_sha = sha;
  status = status;
}

unfoldable pub remember :
    EnvState → String → String → (remote_id sha status now : String) → EnvState
remember s asset_kind envelope_id remote_id sha status now =
    let bucket = or_empty (get asset_kind s.managed_assets) in
    let bucket' = put envelope_id (new_entry remote_id sha status now) bucket in
    record s { managed_assets = put asset_kind bucket' s.managed_assets }

-- `if not bucket: self.managed_assets.pop(asset_kind, None)`; otherwise the bucket stays mutated.
drop_empty : String → Bucket → Dict String Bucket → Dict String Bucket
drop_empty asset_kind bucket managed =
    if is_empty bucket then pop asset_kind managed else put asset_kind bucket managed

unfoldable pub forget : EnvState → String → String → EnvState
unfolding drop_empty
forget s asset_kind envelope_id = elim (get asset_kind s.managed_assets) [
  | none ↦ s
  | some bucket ↦ record s {
    managed_assets = drop_empty asset_kind (pop envelope_id bucket) s.managed_assets;
  }
]

count_entries : Dict String Bucket → ℕ
count_entries [] = 0
count_entries ((kind, bucket) ∷ rest) = length bucket + count_entries rest

unfoldable pub asset_count : EnvState → ℕ
unfolding count_entries
asset_count s = count_entries s.managed_assets

-- One element of `results`, with the clock reading that `remember` takes for it.
pub record ApplyResult : Type 0 where
  pub asset_kind : String
  pub envelope_id : String
  pub remote_id : String
  pub status : String
  pub now : String

remember_all : String → EnvState → List ApplyResult → EnvState
remember_all sha s [] = s
remember_all sha s (r ∷ rest) =
    remember_all sha
      (if r.status == "skipped"
        then s
        else remember s r.asset_kind r.envelope_id r.remote_id sha r.status r.now)
      rest

unfoldable pub merge_apply_results : EnvState → List ApplyResult → (sha now : String) → EnvState
unfolding remember_all
merge_apply_results s results sha now =
    let stamped = if nonempty sha then record s { last_apply_sha = sha } else s in
    remember_all sha (record stamped { last_apply_at = now }) results

pub data RemoteClass : Type 0 where
  in_sync new_local orphan unmanaged : RemoteClass

unfoldable pub classify_remote : EnvState → String → String → Bool → RemoteClass
classify_remote s asset_kind envelope_id in_local =
    let in_state = is_managed s asset_kind envelope_id in
    if in_local && in_state
    then in_sync
    else if in_local && not in_state
    then new_local
    else if not in_local && in_state
    then orphan
    else unmanaged
