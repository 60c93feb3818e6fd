-- ===== src/Prune/Locks.antt =====
-- The lock check of `prune_cmd` of contentops/cli/commands/prune.py.
use mathlib.Core.Bool.{true≢false}
use content_ops.Prelude.{
  if◌then◌else◌, Bool-cases, Option-cases, ◌==◌, nonempty, any_of, is_empty, contains,
  contains-append, String, ◌≡◌, refl, sym, ap, ◌∙◌, subst, ◌⊎◌, inl, inr, Bool, true, false, ◌&&◌,
  ◌||◌, not, List, [], ◌∷◌, arith, string_eq, nat_eq, option_eq, pair_eq, option_eq, pair_eq,
}
use content_ops.Asset.{Asset, AssetMode, asset_eq}
use content_ops.Loaded.{Result, ok, raises, Result-cases, LoadedAsset, Deletion}
use content_ops.Config.{Safeguards}
use content_ops.Prune.Run.{
  PruneOptions, purge_refused, no_handlers, will_delete, effective_max_deletes, refuses_purge,
  managed_handlers, plan_for, conclude, prune_cmd,
}
use content_ops.Prune.Plan.{
  Remote, DriftHandler, Orphan, Plan, empty_plan, listed, noted, remote_id_of, keys_of, local_index,
  locked_ids, is_orphan, consider_id, consider, consider_all, plan_items, plan_handler, plan_all,
}

or-true : {a b : Bool} → (a || b) ≡ true → (a ≡ true) ⊎ (b ≡ true)
or-true {a = true} h = inl refl
or-true {a = false} h = inr h

module _ {Payload : Type 0} (la : LoadedAsset Payload)
    (rest : List (Result (LoadedAsset Payload))) where
  locked_ids-locked :
      la.local_customization ≡ true
      → locked_ids (ok la ∷ rest) ≡ (la.asset, la.id) ∷ locked_ids rest
  unfolding locked_ids
  locked_ids-locked e = rw (e, locked_ids) refl

  locked_ids-unlocked : la.local_customization ≡ false → locked_ids (ok la ∷ rest) ≡ locked_ids rest
  unfolding locked_ids
  locked_ids-unlocked e = rw (e, locked_ids) refl

local_index-later :
    {Payload : Type 0} (asset : Asset) (id : String) (file : Result (LoadedAsset Payload))
    (rest : List (Result (LoadedAsset Payload)))
    → contains id (local_index rest asset) ≡ true
    → contains id (local_index (file ∷ rest) asset) ≡ true
unfolding local_index
local_index-later asset id file rest h =
    ground (arith, contains-append id (keys_of asset file) (local_index rest asset), h)

local_index-here :
    {Payload : Type 0} (asset : Asset) (id : String) (la : LoadedAsset Payload)
    (rest : List (Result (LoadedAsset Payload)))
    → (la.asset == asset && la.id == id) ≡ true
    → contains id (local_index (ok la ∷ rest) asset) ≡ true
unfolding local_index keys_of contains
local_index-here asset id la rest h =
    ground (arith, contains-append id (keys_of asset (ok la)) (local_index rest asset), h)

-- A locked id of a kind is a local key of that kind.
locked_ids-local_index :
    {Payload : Type 0} (asset : Asset) (id : String) (files : List (Result (LoadedAsset Payload)))
    → contains (asset, id) (locked_ids files) ≡ true
    → contains id (local_index files asset) ≡ true
unfolding locked_ids local_index contains
locked_ids-local_index asset id [] h = h
locked_ids-local_index asset id (raises exc ∷ rest) h =
    local_index-later asset id (raises exc) rest (locked_ids-local_index asset id rest h)
locked_ids-local_index asset id (ok la ∷ rest) h = elim (Bool-cases la.local_customization) [
  | inl e ↦
      elim (or-true (subst (λ l. contains (asset, id) l ≡ true) (locked_ids-locked la rest e) h)) [
        | inl same ↦ local_index-here asset id la rest same
        | inr later ↦
            local_index-later asset id (ok la) rest (locked_ids-local_index asset id rest later)
      ]
  | inr e ↦ local_index-later asset id (ok la) rest (
      locked_ids-local_index asset id rest
        (subst (λ l. contains (asset, id) l ≡ true) (locked_ids-unlocked la rest e) h))
]

or-local : (a b c : Bool) {d : Bool} → d ≡ true → (a || b || not (not (c || d))) ≡ true
or-local true b c h = refl
or-local false true c h = refl
or-local false false true h = refl
or-local false false false h = rw h refl

if_same :
    {A : Type 0} (b : Bool) {x y x' y' : A}
    → x ≡ x'
    → y ≡ y'
    → (if b then x else y) ≡ (if b then x' else y')
if_same true h k = h
if_same false h k = k

pick_unlocked :
    {A : Type 0} (stop is_locked include_locked : Bool) (p q r : A)
    → (is_locked ≡ true → stop ≡ true)
    → (if stop then p else if is_locked && not include_locked then q else r)
      ≡ (if stop then p else r)
pick_unlocked true is_locked include_locked p q r h = refl
pick_unlocked false true include_locked p q r h = absurd (true≢false (sym (h refl)))
pick_unlocked false false include_locked p q r h = refl

pick_skips :
    (stop is_locked : Bool) (p q : Plan) (os : List Orphan)
    → (if stop
        then p
        else if is_locked && not true
        then q
        else record p { orphans = os }).skipped_locked
      ≡ p.skipped_locked
pick_skips true is_locked p q os = refl
pick_skips false true p q os = refl
pick_skips false false p q os = refl

if_skips :
    (b : Bool) (x y : Plan) {l : List Orphan}
    → x.skipped_locked ≡ l
    → y.skipped_locked ≡ l
    → (if b then x else y).skipped_locked ≡ l
if_skips true x y h k = h
if_skips false x y h k = k

module _ {Payload : Type 0} (files : List (Result (LoadedAsset Payload))) where
  abbrev locks : List (Asset × String)
  locks = locked_ids files

  stops_if_locked :
      (asset : Asset) (remote_id env_id : String)
      → contains (asset, env_id) locks ≡ true
      → (not (nonempty env_id)
          || not (nonempty remote_id)
          || not (is_orphan (local_index files asset) remote_id env_id))
        ≡ true
  unfolding is_orphan
  stops_if_locked asset remote_id env_id h =
      or-local (not (nonempty env_id)) (not (nonempty remote_id))
        (contains remote_id (local_index files asset)) (locked_ids-local_index asset env_id files h)

  consider_id-ignores :
      (b : Bool) (asset : Asset) (remote : Remote) (env_id : String) (p : Plan)
      → consider_id locks b asset (local_index files asset) remote env_id p
        ≡ consider_id locks true asset (local_index files asset) remote env_id p
  unfolding consider_id
  consider_id-ignores b asset remote env_id p =
      let h = stops_if_locked asset (remote_id_of remote) env_id in
      pick_unlocked _ (contains (asset, env_id) locks) b p _ _ h
      ∙ sym (pick_unlocked _ (contains (asset, env_id) locks) true p _ _ h)

  consider-ignores :
      (b : Bool) (h : DriftHandler) (remote : Remote) (p : Plan)
      → consider locks b h (local_index files h.asset) remote p
        ≡ consider locks true h (local_index files h.asset) remote p
  unfolding consider
  consider-ignores b h remote p = elim (Option-cases (h.to_envelope remote)) [
    | inl e ↦ rw (e, consider) refl
    | inr (env_id, e) ↦ rw (e, consider) (consider_id-ignores b h.asset remote env_id p)
  ]

  consider_all-ignores :
      (b : Bool) (h : DriftHandler) (items : List Remote) (p : Plan)
      → consider_all locks b h (local_index files h.asset) items p
        ≡ consider_all locks true h (local_index files h.asset) items p
  unfolding consider_all
  consider_all-ignores b h [] p = refl
  consider_all-ignores b h (remote ∷ rest) p =
      ap (consider_all locks b h (local_index files h.asset) rest) (consider-ignores b h remote p)
      ∙ consider_all-ignores b h rest (consider locks true h (local_index files h.asset) remote p)

  plan_handler-ignores :
      (b allow : Bool) (h : DriftHandler) (p : Plan)
      → plan_handler locks b allow h (local_index files h.asset) p
        ≡ plan_handler locks true allow h (local_index files h.asset) p
  unfolding plan_handler plan_items
  plan_handler-ignores b allow h p = elim (Result-cases h.list_remote) [
    | inl (items, e) ↦
        rw (e, plan_handler)
          (if_same (not (is_empty items) && is_empty (local_index files h.asset))
            (if_same allow (consider_all-ignores b h items _) refl)
            (consider_all-ignores b h items _))
    | inr (exc, e) ↦ rw (e, plan_handler) refl
  ]

  plan_all-ignores :
      (b allow : Bool) (handlers : List DriftHandler) (p : Plan)
      → plan_all locks b allow (local_index files) handlers p
        ≡ plan_all locks true allow (local_index files) handlers p
  unfolding plan_all
  plan_all-ignores b allow [] p = refl
  plan_all-ignores b allow (h ∷ rest) p =
      ap (plan_all locks b allow (local_index files) rest) (plan_handler-ignores b allow h p)
      ∙ plan_all-ignores b allow rest
          (plan_handler locks true allow h (local_index files h.asset) p)

  consider-skips :
      (h : DriftHandler) (local : List String) (remote : Remote) (p : Plan)
      → (consider locks true h local remote p).skipped_locked ≡ p.skipped_locked
  unfolding consider consider_id
  consider-skips h local remote p = elim (Option-cases (h.to_envelope remote)) [
    | inl e ↦ rw (e, consider) refl
    | inr (env_id, e) ↦ rw (e, consider) (pick_skips _ (contains (h.asset, env_id) locks) p _ _)
  ]

  consider_all-skips :
      (h : DriftHandler) (local : List String) (items : List Remote) (p : Plan)
      → (consider_all locks true h local items p).skipped_locked ≡ p.skipped_locked
  unfolding consider_all
  consider_all-skips h local [] p = refl
  consider_all-skips h local (remote ∷ rest) p =
      consider_all-skips h local rest (consider locks true h local remote p)
      ∙ consider-skips h local remote p

  plan_handler-skips :
      (allow : Bool) (h : DriftHandler) (local : List String) (p : Plan)
      → (plan_handler locks true allow h local p).skipped_locked ≡ p.skipped_locked
  unfolding plan_handler plan_items
  plan_handler-skips allow h local p = elim (Result-cases h.list_remote) [
    | inl (items, e) ↦
        rw (e, plan_handler)
          (if_skips (not (is_empty items) && is_empty local)
            (if allow then consider_all locks true h local items (noted h p) else noted h p)
            (consider_all locks true h local items (listed p))
            (if_skips allow (consider_all locks true h local items (noted h p)) (noted h p)
              (consider_all-skips h local items (noted h p)) refl)
            (consider_all-skips h local items (listed p)))
    | inr (exc, e) ↦ rw (e, plan_handler) refl
  ]

  plan_all-skips :
      (allow : Bool) (local_of : Asset → List String) (handlers : List DriftHandler) (p : Plan)
      → (plan_all locks true allow local_of handlers p).skipped_locked ≡ p.skipped_locked
  unfolding plan_all
  plan_all-skips allow local_of [] p = refl
  plan_all-skips allow local_of (h ∷ rest) p =
      plan_all-skips allow local_of rest (plan_handler locks true allow h (local_of h.asset) p)
      ∙ plan_handler-skips allow h (local_of h.asset) p

  -- The lock check decides nothing: with or without --include-locked, the plan phase skips no item
  -- because it is locked, and the command ends the same way with the same deletions.
  pub prune_cmd_ignores_include_locked :
      (clip : String → String) (delete_remote : Asset → String → Deletion)
      (mode_for : Asset → AssetMode) (o : PruneOptions) (b : Bool) (safeguards : List Safeguards)
      (handlers : List DriftHandler)
      → (prune_cmd clip delete_remote mode_for
            (record o { include_locked = b })
            safeguards
            files
            handlers
          ≡ prune_cmd clip delete_remote mode_for o safeguards files handlers)
        × ((plan_for o files handlers).skipped_locked ≡ [])
  unfolding prune_cmd conclude
  prune_cmd_ignores_include_locked clip delete_remote mode_for o b safeguards handlers = (
    ap
        (λ p.
          if will_delete o && any_of refuses_purge safeguards
          then purge_refused
          else if is_empty (managed_handlers mode_for handlers)
          then no_handlers
          else conclude clip delete_remote o (effective_max_deletes safeguards o.max_deletes) p)
        (plan_all-ignores b o.allow_empty_kind (managed_handlers mode_for handlers) empty_plan
          ∙ sym (
              plan_all-ignores o.include_locked o.allow_empty_kind
                (managed_handlers mode_for handlers) empty_plan)),
    ap (λ (p : Plan). p.skipped_locked)
          (plan_all-ignores o.include_locked o.allow_empty_kind handlers empty_plan)
        ∙ plan_all-skips o.allow_empty_kind (local_index files) handlers empty_plan,
  )
