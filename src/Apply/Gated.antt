-- ===== src/Apply/Gated.antt =====
-- What every call of `handler.apply` that `apply_cmd` makes has passed.
use mathlib.Core.Bool.{true≢false}
use content_ops.Prelude.{
  if◌then◌else◌, Bool-cases, Option-cases, ◌==◌, keep, any_of, is_empty, All, contains, All-keep,
  All-imp, All-any, ℕ, ◌≡◌, refl, sym, ◌∙◌, subst, inl, inr, Bool, true, false, ◌&&◌, ◌||◌, not,
  Option, none, some, List, [], ◌∷◌, arith, string_eq, nat_eq, option_eq, pair_eq, option_eq,
  pair_eq,
}
use content_ops.Asset.{asset_beq_iff, is_defender, managed, asset_eq}
use content_ops.EnvStatus.{allowed_statuses_for_env, status_eq}
use content_ops.Config.{Workspace, Tenant}
use content_ops.Loaded.{LoadedAsset}
use content_ops.Apply.Gates.{
  defender_touched, workspace_refuses, defender_refuses, check_apply_write_allowed,
  sentinel_enabled, defender_enabled, gate_key, defender_gate_active, filter_disabled_engines,
  filter_locked_loaded_assets, passes_env_status, filter_loaded_by_env_status,
}
use content_ops.Dependencies.{validate}
use content_ops.Apply.Run.{Services, Call, RunContext}
use content_ops.Apply.Safe.{first_name, IsSafeCall, run_workspace_iteration-IsSafe}
use content_ops.Apply.Command.{
  Options, Inputs, Outcome, stops, ran, iter_workspaces, keep_asset, keep_changed,
  load_assets_for_run, deploy, select_assets, integration_skip, apply_selected,
}

-- The outcome is no run, or its context has the property.
abbrev pub OnRun : {Payload : Type 0} → (RunContext Payload → Type 0) → Outcome Payload → Type 0
OnRun P (stops code) = Unit
OnRun P (ran code ctx) = P ctx

OnRun-unless :
    {Payload : Type 0} (P : RunContext Payload → Type 0) (b : Bool) (code : ℕ) (x : Outcome Payload)
    → OnRun P x
    → OnRun P (if b then stops code else x)
OnRun-unless P true code x h = tt
OnRun-unless P false code x h = h

status_test :
    (d g k : Bool) → (if d && g then false else k) ≡ true → (k ≡ true) × (d ≡ true → g ≡ false)
status_test true true k h = ground (arith, h)
status_test true false k h = (h, λ e. refl)
status_test false g k h = (h, λ e. ground (arith, e))

or-false : {a b : Bool} → (a || b) ≡ false → (a ≡ false) × (b ≡ false)
or-false h = (ground (arith, h), ground (arith, h))

All-kept {ℓ κ} :
    {A : Type ℓ} (P : A → Type κ) (p : A → Bool) (xs : List A) → All P xs → All P (keep p xs)
All-kept P p xs h = All-keep P P p xs (λ x e q. q) h

writes_allowed :
    (ws : List Workspace)
    → any_of workspace_refuses ws ≡ false
    → All (λ (w : Workspace). w.safeguards.write_allowed ≡ true) ws
unfolding any_of
writes_allowed [] e = tt
writes_allowed (w ∷ rest) e = (ground (arith, e), writes_allowed rest (ground (arith, e)))

module _ {Payload : Type 0} (s : Services Payload) (inputs : Inputs Payload) (options : Options)
    (cfg : Tenant) (workspaces : List Workspace) where
  -- The asset is outside Defender if `--asset` names another kind.
  abbrev InScope : LoadedAsset Payload → Type 0
  InScope la = defender_touched options.asset ≡ false → is_defender la.asset ≡ false

  keep_asset-InScope :
      (loaded : List (LoadedAsset Payload)) → All InScope (keep_asset options.asset loaded)
  keep_asset-InScope loaded = elim (Option-cases options.asset) [
    | inl e ↦ rw e (All-any _ loaded (λ la h. absurd (true≢false h)))
    | inr (target, e) ↦ rw e (
        All-keep (λ la. Unit) _ (λ (la : LoadedAsset Payload). la.asset == target) loaded
          (λ la same u h.
            subst (λ a. is_defender a ≡ false) (sym ((asset_beq_iff la.asset target).0 same)) h)
          (All-any (λ la. Unit) loaded (λ la. tt)))
  ]

  filter_disabled_engines-All :
      (P : LoadedAsset Payload → Type 0) (loaded : List (LoadedAsset Payload))
      → All P loaded
      → All P (filter_disabled_engines (some cfg) loaded)
  unfolding filter_disabled_engines
  filter_disabled_engines-All P loaded h =
      elim (Bool-cases (sentinel_enabled cfg && defender_enabled cfg)) [
        | inl e ↦ rw (e, filter_disabled_engines) h
        | inr e ↦ rw (e, filter_disabled_engines) (All-kept P _ loaded h)
      ]

  keep_changed-All :
      (P : LoadedAsset Payload → Type 0) (changed : Option (LoadedAsset Payload → Bool))
      (loaded : List (LoadedAsset Payload))
      → All P loaded
      → All P (keep_changed changed loaded)
  keep_changed-All P none loaded h = h
  keep_changed-All P (some changed) loaded h = All-kept P changed loaded h

  Passed : LoadedAsset Payload → Type 0
  Passed la = InScope la × (passes_env_status inputs.strip_lower cfg workspaces la ≡ true)

  filtered-Passed : All Passed (
      filter_loaded_by_env_status inputs.strip_lower
        (some cfg)
        workspaces
        (load_assets_for_run inputs (some cfg) options.asset))
  unfolding filter_loaded_by_env_status load_assets_for_run Passed
  filtered-Passed =
      All-keep InScope Passed (passes_env_status inputs.strip_lower cfg workspaces) _
        (λ la e q. (q, e))
        (filter_disabled_engines-All InScope _
          (keep_changed-All InScope inputs.is_changed _ (keep_asset-InScope inputs.loaded)))

  -- What is sent to the tenant
  Sent : LoadedAsset Payload → Type 0
  Sent la = Passed la × (la.local_customization ≡ true → options.force_overwrite ≡ true)

  unlocked-Sent :
      (loaded : List (LoadedAsset Payload))
      → All Passed loaded
      → All Sent (filter_locked_loaded_assets loaded options.force_overwrite)
  unfolding filter_locked_loaded_assets Sent Passed
  unlocked-Sent loaded h = elim (Bool-cases options.force_overwrite) [
    | inl e ↦ rw e (All-imp Passed _ loaded (λ la q. (q, λ l. refl)) h)
    | inr e ↦ rw e (
        All-keep Passed _ (λ (la : LoadedAsset Payload). not la.local_customization) loaded
          (λ la k q. (q, λ l. ground arith)) h)
  ]

  -- The gates that a call has passed.
  pub record IsGated (c : Call Payload) : Type 0 where
    pub unlocked : c.loaded.local_customization ≡ true → options.force_overwrite ≡ true
    pub status :
        contains c.loaded.status
          (allowed_statuses_for_env inputs.strip_lower (some (gate_key cfg workspaces)))
        ≡ true
    pub managed_kind : s.mode_for c.workspace c.loaded.asset ≡ managed
    pub dry : c.dry_run ≡ options.dry_run
    pub defender_place :
        is_defender c.loaded.asset ≡ true
        → (c.workspace ≡ first_name s (iter_workspaces (some cfg) workspaces))
          × (defender_gate_active cfg workspaces ≡ false)
    pub writes :
        c.dry_run ≡ false
        → All (λ (w : Workspace). w.safeguards.write_allowed ≡ true) workspaces
          × (is_defender c.loaded.asset ≡ true → defender_refuses cfg.defender ≡ false)

  passes_env_status-parts :
      (la : LoadedAsset Payload)
      → passes_env_status inputs.strip_lower cfg workspaces la ≡ true
      → (contains la.status
            (allowed_statuses_for_env inputs.strip_lower (some (gate_key cfg workspaces)))
          ≡ true)
        × (is_defender la.asset ≡ true → defender_gate_active cfg workspaces ≡ false)
  unfolding passes_env_status
  passes_env_status-parts la h = status_test _ _ _ h

  write_gate-parts :
      check_apply_write_allowed (some cfg) workspaces options.asset options.dry_run ≡ false
      → options.dry_run ≡ false
      → (any_of workspace_refuses workspaces ≡ false)
        × ((defender_touched options.asset && defender_refuses cfg.defender) ≡ false)
  unfolding check_apply_write_allowed
  write_gate-parts h dry =
      or-false
        (subst (λ b. check_apply_write_allowed (some cfg) workspaces options.asset b ≡ false) dry h)

  call-IsGated :
      check_apply_write_allowed (some cfg) workspaces options.asset options.dry_run ≡ false
      → (c : Call Payload)
      → IsSafeCall s Sent (iter_workspaces (some cfg) workspaces) options.dry_run c
      → IsGated c
  unfolding Sent Passed
  call-IsGated passes c (((scope, passed), unlocked), mode, dry, place) =
      let parts = passes_env_status-parts c.loaded passed in
      record {
        unlocked = unlocked;
        status = parts.0;
        managed_kind = mode;
        dry = dry;
        defender_place = λ d. (place d, parts.1 d);
        writes = λ e.
            let gate = write_gate-parts passes (sym dry ∙ e) in
            (writes_allowed workspaces gate.0, λ d. ground (arith, gate.1, scope, d));
      }

  -- The assets that pass the status gate
  abbrev candidates : List (LoadedAsset Payload)
  candidates =
      filter_loaded_by_env_status inputs.strip_lower (some cfg) workspaces
        (load_assets_for_run inputs (some cfg) options.asset)

  abbrev refused : List (LoadedAsset Payload) → Bool
  refused loaded =
      not options.skip_deps_check
      && not (is_empty (validate inputs.playbook_refs inputs.analytic_refs loaded inputs.graph))

  abbrev AllGated : RunContext Payload → Type 0
  AllGated ctx = All IsGated ctx.calls

  module _
      (passes : check_apply_write_allowed (some cfg) workspaces options.asset options.dry_run
        ≡ false) where
    deploy-IsGated :
        (loaded : List (LoadedAsset Payload))
        → All Passed loaded
        → OnRun AllGated (deploy s inputs options (some cfg) workspaces loaded)
    unfolding deploy Sent Passed passes_env_status
    deploy-IsGated loaded h = All-imp _ IsGated _ (call-IsGated passes) (
        run_workspace_iteration-IsSafe s Sent (λ la p q. q)
          (filter_locked_loaded_assets loaded options.force_overwrite)
          (iter_workspaces (some cfg) workspaces) options.dry_run (unlocked-Sent loaded h))

    select_assets-IsGated : OnRun AllGated (select_assets s inputs options (some cfg) workspaces)
    unfolding select_assets
    select_assets-IsGated =
        OnRun-unless AllGated (is_empty candidates) 0
          (if refused candidates
            then stops 1
            else deploy s inputs options (some cfg) workspaces candidates)
          (OnRun-unless AllGated (refused candidates) 1
            (deploy s inputs options (some cfg) workspaces candidates)
            (deploy-IsGated candidates filtered-Passed))

  -- For a tenant configuration and any selected workspaces: if `apply` runs handlers at all, each
  -- call of `handler.apply` is for an asset that is not locked (unless --force-overwrite), whose
  -- status the first selected workspace's role (or else the tenant's name) accepts, of a kind managed
  -- in the call's workspace, with the option's dry-run flag; for a Defender asset only in the first
  -- workspace, and none if the role is not a production one; and if it is no dry run, every selected
  -- workspace allows writes, and so does the Defender block for a Defender asset.
  pub apply_selected-IsGated :
      OnRun
        (λ (ctx : RunContext Payload). All IsGated ctx.calls)
        (apply_selected s inputs options (some cfg) workspaces)
  unfolding apply_selected
  apply_selected-IsGated =
      elim (Bool-cases
        (check_apply_write_allowed (some cfg) workspaces options.asset options.dry_run)) [
          | inl e ↦ rw (e, apply_selected) tt
          | inr e ↦
              rw (e, apply_selected)
                (OnRun-unless AllGated (integration_skip s inputs options (some cfg) workspaces) 0
                  (select_assets s inputs options (some cfg) workspaces) (select_assets-IsGated e))
        ]
