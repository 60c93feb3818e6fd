-- ===== src/State/Merge.antt =====
-- What `merge_apply_results` records, and how `classify_remote` reads it back.
use content_ops.Prelude.{
  if◌then◌else◌, ◌==◌, nonempty, keep, any_of, last?, String, ◌≡◌, refl, Bool, true, false, ◌&&◌,
  not, Option, none, some, List, [], ◌∷◌, arith, string_eq, nat_eq,
}
use content_ops.State.{
  AssetStateEntry, EnvState, new_entry, remember, ApplyResult, remember_all, merge_apply_results,
  in_sync, orphan, classify_remote,
}
use content_ops.State.Managed.{entry_of, is_managed-entry_of, entry_of-remember}

-- A result that is recorded for the asset.
abbrev pub records : String → String → ApplyResult → Bool
records k i r = not (r.status == "skipped") && (r.asset_kind == k && r.envelope_id == i)

-- The entry that the last of these results leaves, or the one that was there before.
abbrev entry_after : String → Option ApplyResult → Option AssetStateEntry → Option AssetStateEntry
entry_after sha none before = before
entry_after sha (some r) before = some (new_entry r.remote_id sha r.status r.now)

module _ (sha k i : String) where
  step :
      (s : EnvState) (r : ApplyResult)
      → entry_of
          (if r.status == "skipped"
            then s
            else remember s r.asset_kind r.envelope_id r.remote_id sha r.status r.now)
          k
          i
        ≡ (if records k i r
            then some (new_entry r.remote_id sha r.status r.now)
            else entry_of s k i)
  step s r =
      ground
        (arith, entry_of-remember s r.asset_kind r.envelope_id r.remote_id sha r.status r.now k i)

  entry_of-remember_all :
      (rs : List ApplyResult) (s : EnvState)
      → entry_of (remember_all sha s rs) k i
        ≡ entry_after sha (last? (keep (records k i) rs)) (entry_of s k i)
  unfolding remember_all keep last?
  entry_of-remember_all [] s = refl
  entry_of-remember_all (r ∷ rs) s =
      let s' =
        if r.status == "skipped"
        then s
        else remember s r.asset_kind r.envelope_id r.remote_id sha r.status r.now in
      ground (arith, step s r, entry_of-remember_all rs s')

-- After a merge the entry of an asset is that of its last result whose status is not `skipped`,
-- with the run's sha, and without such a result the entry that it had.
entry_of-merge :
    (s : EnvState) (rs : List ApplyResult) (sha now k i : String)
    → entry_of (merge_apply_results s rs sha now) k i
      ≡ entry_after sha (last? (keep (records k i) rs)) (entry_of s k i)
unfolding merge_apply_results entry_of
entry_of-merge s rs sha now k i =
    let stamped = if nonempty sha then record s { last_apply_sha = sha } else s in
    ground (arith, entry_of-remember_all sha k i rs (record stamped { last_apply_at = now }))

keep-last? :
    (p : ApplyResult → Bool) (rs : List ApplyResult)
    → last? (keep p rs) ≡ none
    → any_of p rs ≡ false
unfolding keep last? any_of
keep-last? p [] h = refl
keep-last? p (r ∷ rs) h = ground (arith, keep-last? p rs)

-- After a run with a result for the asset that is not `skipped`, whatever else its status is, a
-- local asset is classified in-sync and one with no local file an orphan.
pub classify_remote-merge :
    (s : EnvState) (rs : List ApplyResult) (sha now k i : String) (in_local : Bool)
    → any_of (records k i) rs ≡ true
    → classify_remote (merge_apply_results s rs sha now) k i in_local
      ≡ (if in_local then in_sync else orphan)
unfolding classify_remote
classify_remote-merge s rs sha now k i in_local h =
    let m = merge_apply_results s rs sha now in
    ground (
      arith,
      is_managed-entry_of m k i,
      entry_of-merge s rs sha now k i,
      keep-last? (records k i) rs,
    )
