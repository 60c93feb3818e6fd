-- ===== src/Drift/Detect.antt =====
-- contentops/core/drift.py: `_local_index`, `disambiguate_envelope_ids`, and `detect_drift` with its
-- report. `Payload` is the type of the payloads and `Body` that of the rest of a remote item. An
-- empty text stands for a missing id, name or arm name. Parameters: `str.lower`, and
-- `_payloads_match`, the comparison of a local payload with a remote one.
use content_ops.Prelude.{
  ltb, if◌then◌else◌, ◌==◌, nonempty, any_of, Dict, get, put, text_ltb, sorted, ℕ, suc, String,
  Bool, true, false, ◌&&◌, ◌||◌, not, Option, none, some, List, [], ◌∷◌, ◌++◌, map, string_eq,
  nat_eq, option_eq, pair_eq, option_eq, pair_eq,
}
use content_ops.Asset.{Asset, asset_eq}
use content_ops.Loaded.{Result, ok, raises, LoadedAsset}
use content_ops.Drift.Slug.{disambiguate}

-- An item of `list_remote()`
pub record Remote (Body : Type 0) : Type 0 where
  pub name : String
  pub id : String
  pub body : Body

-- The dictionary of `to_envelope`; `arm_name` is the one of its metadata.
pub record Envelope (Payload : Type 0) : Type 0 where
  pub asset : String
  pub id : String
  pub arm_name : String
  pub payload : Payload

pub record DriftCapable (Payload Body : Type 0) : Type 0 where
  pub asset : Asset
  pub list_remote : Result (List (Remote Body))
  pub to_envelope : Remote Body → Option (Envelope Payload)

pub data Kind : Type 0 where
  new changed in_sync failed : Kind

pub record DriftEntry (Payload : Type 0) : Type 0 where
  pub asset : Asset
  pub asset_id : String
  pub kind : Kind
  pub envelope : Option (Envelope Payload)
  pub local_path : Option String
  pub error : Option String

abbrev pub is_drift : Kind → Bool
is_drift new = true
is_drift changed = true
is_drift in_sync = false
is_drift failed = false

abbrev pub is_failed : Kind → Bool
is_failed new = false
is_failed changed = false
is_failed in_sync = false
is_failed failed = true

-- Path and payload under a key
abbrev pub Index : Type 0 → Type 0
Index Payload = Dict String (String × Payload)

abbrev pub Pair : Type 0 → Type 0 → Type 0
Pair Payload Body = Envelope Payload × Remote Body

module _ {Payload : Type 0} where
  unfoldable pub has_drift : List (DriftEntry Payload) → Bool
  unfolding any_of
  has_drift entries = any_of (λ e. is_drift e.kind) entries

  unfoldable pub has_errors : List (DriftEntry Payload) → Bool
  unfolding any_of
  has_errors entries = any_of (λ e. is_failed e.kind) entries

  -- One file; `none` is one that does not load.
  unfoldable pub index_file : Asset → Option (LoadedAsset Payload) → Index Payload → Index Payload
  unfolding put
  index_file kind none out = out
  index_file kind (some loaded) out =
      let by_id = put loaded.id (loaded.path, loaded.payload) out in
      let by_name = put loaded.arm_name (loaded.path, loaded.payload) by_id in
      if loaded.asset == kind then (if nonempty loaded.arm_name then by_name else by_id) else out

  unfoldable pub index_files :
      Asset → List (Option (LoadedAsset Payload)) → Index Payload → Index Payload
  unfolding index_file
  index_files kind [] out = out
  index_files kind (file ∷ files) out = index_files kind files (index_file kind file out)

  abbrev pub local_index : Asset → List (Option (LoadedAsset Payload)) → Index Payload
  local_index kind files = index_files kind files []

  -- `counts[key]`
  unfoldable pub count_of : String → String → List (Envelope Payload) → ℕ
  count_of kind i [] = 0
  count_of kind i (e ∷ es) =
      let rest = count_of kind i es in if e.asset == kind && e.id == i then suc rest else rest

  module _ (lower : String → String) where
    unfoldable pub distinct_id : List (Envelope Payload) → Envelope Payload → Envelope Payload
    unfolding count_of disambiguate
    distinct_id all e =
        if ltb 1 (count_of e.asset e.id all)
        then record e { id = disambiguate lower e.id e.arm_name }
        else e

    unfoldable pub disambiguate_envelope_ids : List (Envelope Payload) → List (Envelope Payload)
    unfolding distinct_id
    disambiguate_envelope_ids envelopes = map (distinct_id envelopes) envelopes

abbrev pub remote_key : {Body : Type 0} → Remote Body → String
remote_key r = if nonempty r.name then r.name else r.id

module _ {Payload : Type 0} (payloads_match : Payload → Payload → Bool) where
  unfoldable pub entry_for :
      Asset → Envelope Payload → Option (String × Payload) → DriftEntry Payload
  entry_for kind e none = record {
    asset = kind;
    asset_id = e.id;
    kind = new;
    envelope = some e;
    local_path = none;
    error = none;
  }
  entry_for kind e (some m) =
      if payloads_match m.1 e.payload
      then record {
        asset = kind;
        asset_id = e.id;
        kind = in_sync;
        envelope = none;
        local_path = some m.0;
        error = none;
      }
      else record {
        asset = kind;
        asset_id = e.id;
        kind = changed;
        envelope = some e;
        local_path = some m.0;
        error = none;
      }

module _ {Payload Body : Type 0} where
  abbrev pub paired :
      Option (Envelope Payload) → Remote Body → List (Pair Payload Body) → List (Pair Payload Body)
  paired none r pairs = pairs
  paired (some e) r pairs = (e, r) ∷ pairs

  unfoldable pub pairs_of :
      (Remote Body → Option (Envelope Payload)) → List (Remote Body) → List (Pair Payload Body)
  pairs_of to_envelope [] = []
  pairs_of to_envelope (r ∷ rs) = paired (to_envelope r) r (pairs_of to_envelope rs)

  -- `<` on the keys `(envelope.id, remote.name)`: the names decide where neither id is less.
  unfoldable pub pair_ltb : Pair Payload Body → Pair Payload Body → Bool
  pair_ltb p q =
      text_ltb p.0.id q.0.id || (not (text_ltb q.0.id p.0.id) && text_ltb p.1.name q.1.name)

  -- The local file of a remote item
  unfoldable pub match_of : Index Payload → String → Remote Body → Option (String × Payload)
  unfolding get
  match_of files asset_id r =
      let by_id = get asset_id files in
      if nonempty (remote_key r)
      then elim (get (remote_key r) files) [ some m ↦ some m | none ↦ by_id ]
      else by_id

  module _ (lower : String → String) (payloads_match : Payload → Payload → Bool) where
    -- The loop over the pairs, with the envelopes that have their ids made distinct.
    unfoldable pub entries_for :
        Asset
        → Index Payload
        → List (Pair Payload Body)
        → List (Envelope Payload)
        → List (DriftEntry Payload)
    unfolding match_of entry_for
    entries_for kind files [] others = []
    entries_for kind files (p ∷ pairs) [] = []
    entries_for kind files (p ∷ pairs) (other ∷ others) =
        let rest = entries_for kind files pairs others in
        let asset_id = if nonempty other.id then other.id else p.0.id in
        if nonempty asset_id
        then entry_for payloads_match kind (record p.0 { id = asset_id })
            (match_of files asset_id p.1)
          ∷ rest
        else rest

    unfoldable pub compare_pairs :
        Asset → Index Payload → List (Pair Payload Body) → List (DriftEntry Payload)
    unfolding entries_for sorted pair_ltb disambiguate_envelope_ids
    compare_pairs kind files pairs =
        let ordered = sorted pair_ltb pairs in
        entries_for kind files ordered (disambiguate_envelope_ids lower (map (λ p. p.0) ordered))

    unfoldable pub check_handler :
        List (Option (LoadedAsset Payload)) → DriftCapable Payload Body → List (DriftEntry Payload)
    unfolding compare_pairs pairs_of index_files
    check_handler files h = elim h.list_remote [
      | ok remotes ↦
          compare_pairs h.asset (local_index h.asset files) (pairs_of h.to_envelope remotes)
      | raises exc ↦
          record {
            asset = h.asset;
            asset_id = "*";
            kind = failed;
            envelope = none;
            local_path = none;
            error = some exc;
          }
          ∷ []
    ]

    unfoldable pub detect_drift :
        List (DriftCapable Payload Body)
        → List (Option (LoadedAsset Payload))
        → List (DriftEntry Payload)
    unfolding check_handler
    detect_drift [] files = []
    detect_drift (h ∷ hs) files = check_handler files h ++ detect_drift hs files
