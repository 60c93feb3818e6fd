-- ===== src/Apply/Safe.antt =====
-- Which assets `_run_workspace_iteration` hands to `handler.apply`, and where.
use content_ops.Prelude.{
  Option-cases, All, All-append, All-imp, Dict, get, get-nil, put-agrees, All-keep, All-sorted,
  String, ◌≡◌, refl, sym, ap, ◌∙◌, subst, ◌⊎◌, inl, inr, Bool, true, false, not, Option, none, some,
  List, [], ◌∷◌, arith, string_eq, nat_eq, option_eq, pair_eq, option_eq, pair_eq,
}
use content_ops.Asset.{Asset, is_defender, AssetMode, managed, monitor, asset_eq}
use content_ops.Loaded.{Result-cases, LoadedAsset, Handler}
use content_ops.Config.{Workspace}
use content_ops.Apply.Order.{key_ltb, ordered_for_apply}
use content_ops.Apply.Run.{
  apply, Substitution-cases, Services, Call, RunContext, new_context, effective_ws, cached_mode,
  monitor_mode_result, record_outcome, call_apply, run_handler, process_resolved, process_found,
  process_apply_asset, process, process_all, workspace_loaded, name_of, iterate,
  run_workspace_iteration,
}

mode-cases : (m : AssetMode) → (m ≡ managed) ⊎ (m ≡ monitor)
mode-cases managed = inl refl
mode-cases monitor = inr refl

module _ {Payload : Type 0} (s : Services Payload) where
  abbrev mode_at : Option String × Asset → AssetMode
  mode_at key = s.mode_for key.0 key.1

  -- Every remembered mode is the one `asset_mode_for` gives.
  abbrev IsRight : Dict (Option String × Asset) AssetMode → Type 0
  IsRight modes =
      (key : Option String × Asset) (mode : AssetMode)
      → get key modes ≡ some mode
      → mode ≡ mode_at key

  module _ (d : Bool) (Good : Call Payload → Type 0) where
    abbrev Inv : RunContext Payload → Type 0
    Inv ctx =
        IsRight ctx.asset_modes × All Good ctx.calls × (ctx.command ≡ apply) × (ctx.dry_run ≡ d)

    cached_mode-Inv :
        (asset : Asset) (ws : Option String) (ctx : RunContext Payload)
        → Inv ctx
        → ((cached_mode s asset ws ctx).0 ≡ s.mode_for ws asset)
          × Inv (cached_mode s asset ws ctx).1
    unfolding cached_mode
    cached_mode-Inv asset ws ctx inv = elim (Option-cases (get (ws, asset) ctx.asset_modes)) [
      | inl e ↦
          rw (e, cached_mode)
            (refl, (put-agrees mode_at (ws, asset) ctx.asset_modes inv.0, inv.1, inv.2, inv.3))
      | inr (mode, e) ↦ rw (e, cached_mode) (inv.0 (ws, asset) mode e, inv)
    ]

    Allowed : Option String → LoadedAsset Payload → Type 0
    Allowed ws la =
        (p : Payload)
        → s.mode_for ws la.asset ≡ managed
        → Good (record { loaded = record la { payload = p }; workspace = ws; dry_run = d })

    call_apply-Inv :
        (h : Handler Payload) (la : LoadedAsset Payload) (ws : Option String)
        (ctx : RunContext Payload)
        → Good (record { loaded = la; workspace = ws; dry_run = d })
        → Inv ctx
        → Inv (call_apply s h la ws ctx).1
    unfolding call_apply
    call_apply-Inv h la ws ctx good (right, calls, command, dry) = (
      right,
      All-append Good ctx.calls _ calls (
        subst (λ b. Good (record { loaded = la; workspace = ws; dry_run = b })) (sym dry) good,
        tt,
      ),
      command,
      dry,
    )

    run_handler-Inv :
        (h : Handler Payload) (la : LoadedAsset Payload) (ws : Option String)
        (ctx : RunContext Payload)
        → (s.mode_for ws la.asset ≡ managed
            → Good (record { loaded = la; workspace = ws; dry_run = d }))
        → Inv ctx
        → Inv (run_handler s h la ws ctx).1
    unfolding run_handler monitor_mode_result
    run_handler-Inv h la ws ctx good inv = elim (Option-cases (h.validate la)) [
      | inr (exc, e) ↦ rw (e, run_handler) inv
      | inl e ↦
          let (found, inv') = cached_mode-Inv la.asset ws ctx inv in
          rw (e, run_handler, monitor_mode_result)
            (elim (mode-cases (cached_mode s la.asset ws ctx).0) [
              | inl m ↦ rw m (
                  call_apply-Inv h la ws (cached_mode s la.asset ws ctx).1 (good (sym found ∙ m))
                    inv')
              | inr m ↦ rw m inv'
            ])
    ]

    process_resolved-Inv :
        (h : Handler Payload) (la resolved : LoadedAsset Payload) (ws : Option String)
        (ctx : RunContext Payload)
        → (s.mode_for ws resolved.asset ≡ managed
            → Good (record { loaded = resolved; workspace = ws; dry_run = d }))
        → Inv ctx
        → Inv (process_resolved s h la resolved ws ctx)
    unfolding process_resolved record_outcome
    process_resolved-Inv h la resolved ws ctx good inv =
        elim (Result-cases (s.snippet_digest la resolved)) [
          | inl (digest, r) ↦ rw (r, process_resolved) (run_handler-Inv h resolved ws ctx good inv)
          | inr (exc, r) ↦ rw (r, process_resolved) inv
        ]

    process_found-Inv :
        (h : Handler Payload) (la : LoadedAsset Payload) (ws : Option String)
        (ctx : RunContext Payload)
        → Allowed ws la
        → Inv ctx
        → Inv (process_found s h la ws ctx)
    unfolding process_found record_outcome Allowed
    process_found-Inv h la ws ctx allowed inv =
        elim (Substitution-cases
          (s.substitute la.asset la.id (effective_ws s la.asset ws) la.payload)) [
            | inl (p, r) ↦
                rw (r, process_found)
                  (process_resolved-Inv h la (record la { payload = p }) ws ctx (allowed p) inv)
            | inr (inl (exc, r)) ↦ rw (r, process_found) inv
            | inr (inr (exc, r)) ↦ rw (r, process_found) inv
          ]

    process_apply_asset-Inv :
        (la : LoadedAsset Payload) (ws : Option String) (ctx : RunContext Payload)
        → Allowed ws la
        → Inv ctx
        → Inv (process_apply_asset s la ws ctx)
    unfolding process_apply_asset
    process_apply_asset-Inv la ws ctx allowed inv = elim (Option-cases (s.handler la.asset)) [
      | inl e ↦ rw (e, process_apply_asset) inv
      | inr (found, e) ↦
          rw (e, process_apply_asset)
            (elim (Result-cases found) [
              | inl (h, r) ↦ rw r (process_found-Inv h la ws ctx allowed inv)
              | inr (exc, r) ↦ rw r inv
            ])
    ]

    process_all-Inv :
        (las : List (LoadedAsset Payload)) (ws : Option String) (ctx : RunContext Payload)
        → All (Allowed ws) las
        → Inv ctx
        → Inv (process_all s las ws ctx)
    unfolding process_all process
    process_all-Inv [] ws ctx h inv = inv
    process_all-Inv (la ∷ rest) ws ctx h inv = elim (Option-cases ctx.crashed) [
      | inr (exc, c) ↦ rw (c, process_all) inv
      | inl c ↦
          rw (c, process_all)
            (subst Inv (sym (ap (λ c. process_all s rest ws (process s c la ws ctx)) inv.2)) (
              process_all-Inv rest ws (process_apply_asset s la ws ctx) h.1
                (process_apply_asset-Inv la ws ctx h.0 inv)))
    ]

  abbrev pub first_name : List (Option Workspace) → Option String
  first_name [] = none
  first_name (w ∷ rest) = name_of s w

  -- A call for an asset with the property, of a kind that is managed in the call's workspace, with
  -- the run's dry_run flag; for a Defender asset, in the first workspace.
  abbrev pub IsSafeCall :
      (LoadedAsset Payload → Type 0)
      → List (Option Workspace)
      → (dry_run : Bool) → Call Payload
      → Type 0
  IsSafeCall Q workspaces dry_run c =
      Q c.loaded
      × (s.mode_for c.workspace c.loaded.asset ≡ managed)
      × (c.dry_run ≡ dry_run)
      × (is_defender c.loaded.asset ≡ true → c.workspace ≡ first_name workspaces)

  module _ (Q : LoadedAsset Payload → Type 0)
      (stable : (la : LoadedAsset Payload) (p : Payload) → Q la → Q (record la { payload = p }))
      (all_ws : List (Option Workspace)) (d : Bool) where
    Good : Call Payload → Type 0
    Good = IsSafeCall Q all_ws d

    rest-Allowed :
        (ws : Option String) (loaded : List (LoadedAsset Payload))
        → All Q loaded
        → All (Allowed d Good ws) (ordered_for_apply (workspace_loaded s false loaded))
    unfolding ordered_for_apply Allowed Good
    rest-Allowed ws loaded h =
        All-sorted key_ltb (Allowed d Good ws) (workspace_loaded s false loaded) (
          All-keep Q (Allowed d Good ws) (λ (la : LoadedAsset Payload). not (is_defender la.asset))
            loaded (λ la e q p m. (stable la p q, m, refl, λ t. ground arith)) h)

    first-Allowed :
        (w : Option Workspace) (rest : List (Option Workspace))
        (loaded : List (LoadedAsset Payload))
        → all_ws ≡ w ∷ rest
        → All Q loaded
        → All (Allowed d Good (name_of s w)) (ordered_for_apply (workspace_loaded s true loaded))
    unfolding ordered_for_apply Allowed Good
    first-Allowed w rest loaded e h = All-sorted key_ltb (Allowed d Good (name_of s w)) loaded (
        All-imp Q (Allowed d Good (name_of s w)) loaded
          (λ la q p m. (stable la p q, m, refl, λ t. ap first_name (sym e))) h)

    iterate_rest-Inv :
        (loaded : List (LoadedAsset Payload)) (ws : List (Option Workspace))
        (ctx : RunContext Payload)
        → All Q loaded
        → Inv d Good ctx
        → Inv d Good (iterate s loaded false ws ctx)
    unfolding iterate
    iterate_rest-Inv loaded [] ctx h inv = inv
    iterate_rest-Inv loaded (w ∷ rest) ctx h inv =
        iterate_rest-Inv loaded rest
          (process_all s (ordered_for_apply (workspace_loaded s false loaded)) (name_of s w) ctx) h
          (process_all-Inv d Good (ordered_for_apply (workspace_loaded s false loaded))
            (name_of s w) ctx (rest-Allowed (name_of s w) loaded h) inv)

    iterate-Inv :
        (loaded : List (LoadedAsset Payload)) (ws : List (Option Workspace))
        (ctx : RunContext Payload)
        → all_ws ≡ ws
        → All Q loaded
        → Inv d Good ctx
        → Inv d Good (iterate s loaded true ws ctx)
    unfolding iterate
    iterate-Inv loaded [] ctx e h inv = inv
    iterate-Inv loaded (w ∷ rest) ctx e h inv =
        iterate_rest-Inv loaded rest
          (process_all s (ordered_for_apply (workspace_loaded s true loaded)) (name_of s w) ctx) h
          (process_all-Inv d Good (ordered_for_apply (workspace_loaded s true loaded)) (name_of s w)
            ctx (first-Allowed w rest loaded e h) inv)

  -- For every property of assets that does not depend on the payload: if all loaded assets have it,
  -- a run of apply calls `handler.apply` only for assets that have it, of kinds that are managed (not
  -- monitored) in the workspace of the call, with the run's dry-run flag, and for Defender assets
  -- only in the first workspace.
  pub run_workspace_iteration-IsSafe :
      (Q : LoadedAsset Payload → Type 0)
      → ((la : LoadedAsset Payload) (p : Payload) → Q la → Q (record la { payload = p }))
      → (loaded : List (LoadedAsset Payload)) (workspaces : List (Option Workspace)) (d : Bool)
      → All Q loaded
      → All
          (IsSafeCall Q workspaces d)
          (run_workspace_iteration s loaded workspaces (new_context Payload apply d)).calls
  unfolding run_workspace_iteration Good
  run_workspace_iteration-IsSafe Q stable loaded workspaces d h =
      (iterate-Inv Q stable workspaces d loaded workspaces (new_context Payload apply d) refl h
        (λ key mode e. ground (arith, get-nil {V = AssetMode} key, e), tt, refl, refl)).1
