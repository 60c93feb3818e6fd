-- ===== src/Prune/Safe.antt =====
-- When `prune_cmd` of contentops/cli/commands/prune.py deletes, and what.
use content_ops.Prelude.{
  ltb, if◌then◌else◌, length, any_of, is_empty, All, All-keep, Member, All-Member, ℕ, ◌≤◌, String,
  ◌≡◌, refl, Bool, true, false, ◌&&◌, not, List, [], ◌∷◌, arith,
}
use content_ops.Asset.{Asset, AssetMode, is_monitor, asset_eq}
use content_ops.Config.{Safeguards}
use content_ops.Loaded.{Result, LoadedAsset, Deletion}
use content_ops.Prune.Plan.{DriftHandler, Orphan, Plan, empty_plan, local_index, locked_ids}
use content_ops.Prune.Orphans.{IsListedBy, plan_all-Good}
use content_ops.Prune.Run.{
  PruneOptions, Attempt, PruneOutcome, purge_refused, no_handlers, blind, empty_kind,
  nothing_to_prune, too_many, preview, done, will_delete, min, effective_max_deletes, refuses_purge,
  managed_handlers, plan_for, is_blind, refuses_empty_kind, delete_all, delete_phase, conclude,
  prune_cmd,
}

min-le : (a b : ℕ) → (min a b ≤ a) × (min a b ≤ b)
min-le a b = (ground arith, ground arith)

effective_max_deletes-le :
    (sgs : List Safeguards) (cap n : ℕ)
    → n ≤ effective_max_deletes sgs cap
    → (n ≤ cap) × All (λ (sg : Safeguards). n ≤ sg.max_delete) sgs
unfolding effective_max_deletes
effective_max_deletes-le [] most n h = (h, tt)
effective_max_deletes-le (sg ∷ rest) most n h =
    let (below, all) = effective_max_deletes-le rest (min most sg.max_delete) n h in
    let le = min-le most sg.max_delete in
    (omega (arith, below, le.0), (omega (arith, below, le.1), all))

purges_allowed :
    (sgs : List Safeguards)
    → any_of refuses_purge sgs ≡ false
    → All (λ (sg : Safeguards). sg.purge_allowed ≡ true) sgs
unfolding any_of
purges_allowed [] e = tt
purges_allowed (sg ∷ rest) e = (ground (arith, e), purges_allowed rest (ground (arith, e)))

within_cap :
    {A : Type 0} (most n : ℕ) (xs : List A)
    → n ≡ length xs
    → ltb most (length xs) ≡ false
    → n ≤ most
within_cap most n xs e h = ground arith

module _ {Payload : Type 0} (clip : String → String) (delete_remote : Asset → String → Deletion)
    (mode_for : Asset → AssetMode) (o : PruneOptions) (safeguards : List Safeguards)
    (files : List (Result (LoadedAsset Payload))) (drift_handlers : List DriftHandler) where
  -- An orphan of a registered, managed kind, none of whose keys a local file of the kind has; the
  -- kind has local files unless --allow-empty-kind is given.
  pub record IsPrunable (orphan : Orphan) : Type 0 where
    pub handler : DriftHandler
    pub registered : Member handler drift_handlers
    pub managed_kind : is_monitor (mode_for handler.asset) ≡ false
    pub listed_by : IsListedBy (local_index files handler.asset) handler orphan
    pub kind_has_files :
        is_empty (local_index files handler.asset) ≡ true → o.allow_empty_kind ≡ true

  plan_for-IsPrunable :
      All IsPrunable (plan_for o files (managed_handlers mode_for drift_handlers)).orphans
  unfolding managed_handlers
  plan_for-IsPrunable =
      plan_all-Good (locked_ids files) o.include_locked o.allow_empty_kind IsPrunable
        (local_index files) (managed_handlers mode_for drift_handlers) empty_plan
        (All-keep (λ h. Member h drift_handlers) _
          (λ (h : DriftHandler). not (is_monitor (mode_for h.asset))) drift_handlers
          (λ h kept member orphan l allowed. record {
            handler = h;
            registered = member;
            managed_kind = ground (arith, kept);
            listed_by = l;
            kind_has_files = allowed;
          })
          (All-Member drift_handlers))
        tt

  -- What holds of a run that attempts deletions
  pub record IsSafePrune (attempts : List Attempt) : Type 0 where
    pub not_dry : o.dry_run ≡ false
    pub confirmed : o.yes ≡ true
    pub purge : All (λ (sg : Safeguards). sg.purge_allowed ≡ true) safeguards
    pub cap : length attempts ≤ o.max_deletes
    pub caps : All (λ (sg : Safeguards). length attempts ≤ sg.max_delete) safeguards
    pub prunable : All (λ (a : Attempt). IsPrunable a.orphan) attempts

  abbrev pub OnDone : (List Attempt → Type 0) → PruneOutcome → Type 0
  OnDone P (done code attempts) = P attempts
  OnDone P _ = Unit

  delete_all-length :
      (orphans : List Orphan) → length (delete_all clip delete_remote orphans) ≡ length orphans
  unfolding delete_all
  delete_all-length [] = refl
  delete_all-length (orphan ∷ rest) = omega (arith, delete_all-length rest)

  delete_all-All :
      (P : Orphan → Type 0) (orphans : List Orphan)
      → All P orphans
      → All (λ (a : Attempt). P a.orphan) (delete_all clip delete_remote orphans)
  unfolding delete_all
  delete_all-All P [] h = tt
  delete_all-All P (orphan ∷ rest) h = (h.0, delete_all-All P rest h.1)

  OnDone-unless :
      (P : List Attempt → Type 0) (b : Bool) (x y : PruneOutcome)
      → OnDone P x
      → (b ≡ false → OnDone P y)
      → OnDone P (if b then x else y)
  OnDone-unless P true x y h k = h
  OnDone-unless P false x y h k = k refl

  abbrev most : ℕ
  most = effective_max_deletes safeguards o.max_deletes

  abbrev purge_gate : Bool
  purge_gate = will_delete o && any_of refuses_purge safeguards

  really :
      purge_gate ≡ false
      → not (will_delete o) ≡ false
      → (o.dry_run ≡ false) × (o.yes ≡ true) × (any_of refuses_purge safeguards ≡ false)
  really gate real = (ground (arith, real), ground (arith, real), ground (arith, gate, real))

  delete_phase-IsSafe :
      (orphans : List Orphan)
      → purge_gate ≡ false
      → not (will_delete o) ≡ false
      → ltb most (length orphans) ≡ false
      → All IsPrunable orphans
      → OnDone IsSafePrune (delete_phase clip delete_remote orphans)
  unfolding delete_phase
  delete_phase-IsSafe orphans gate real within good =
      let (not_dry, confirmed, purges) = really gate real in
      let n = length (delete_all clip delete_remote orphans) in
      let caps =
        effective_max_deletes-le safeguards o.max_deletes n
          (within_cap most n orphans (delete_all-length orphans) within) in
      record {
        not_dry = not_dry;
        confirmed = confirmed;
        purge = purges_allowed safeguards purges;
        cap = caps.0;
        caps = caps.1;
        prunable = delete_all-All IsPrunable orphans good;
      }

  conclude-IsSafe :
      (p : Plan)
      → purge_gate ≡ false
      → All IsPrunable p.orphans
      → OnDone IsSafePrune (conclude clip delete_remote o most p)
  unfolding conclude
  conclude-IsSafe p gate good = OnDone-unless IsSafePrune (is_blind p) blind _ tt (λ _.
      OnDone-unless IsSafePrune (refuses_empty_kind o p) empty_kind _ tt (λ _.
        OnDone-unless IsSafePrune (is_empty p.orphans) nothing_to_prune _ tt (λ _.
          OnDone-unless IsSafePrune (ltb most (length p.orphans)) too_many _ tt (λ within.
            OnDone-unless IsSafePrune (not (will_delete o)) preview _ tt
              (λ real. delete_phase-IsSafe p.orphans gate real within good)))))

  -- For all options, safeguards, files and handlers: if prune attempts deletions at all, it is no dry
  -- run and --yes was given, every safeguard in force allows purging, there are at most as many
  -- attempts as --max-deletes and as each safeguard's maxDelete say, and each attempt is for an
  -- orphan: an item that a registered handler of a managed kind listed, whose remote id and envelope
  -- id are not empty and are no local key of the kind, where the kind has local files unless
  -- --allow-empty-kind is given.
  pub prune_cmd-IsSafe :
      OnDone IsSafePrune (prune_cmd clip delete_remote mode_for o safeguards files drift_handlers)
  unfolding prune_cmd
  prune_cmd-IsSafe = OnDone-unless IsSafePrune purge_gate purge_refused _ tt (λ gate.
      OnDone-unless IsSafePrune (is_empty (managed_handlers mode_for drift_handlers)) no_handlers _
        tt
        (λ _.
          conclude-IsSafe (plan_for o files (managed_handlers mode_for drift_handlers)) gate
            plan_for-IsPrunable))
