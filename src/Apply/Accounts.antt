-- ===== src/Apply/Accounts.antt =====
-- What a run of `_run_workspace_iteration` leaves in the results and in the audit pairs.
use mathlib.Core.List.{append-nil, append_assoc, map-append}
use content_ops.Prelude.{
  Bool-cases, Option-cases, get, String, ◌≡◌, refl, sym, ap, ◌∙◌, subst, inl, inr, Bool, true,
  false, Option, none, some, List, [], ◌∷◌, ◌++◌, map, arith, string_eq, nat_eq, option_eq, pair_eq,
  option_eq, pair_eq,
}
use content_ops.Asset.{Asset, is_monitor, ActionResult, asset_eq}
use content_ops.Config.{Workspace}
use content_ops.Loaded.{Result-cases, LoadedAsset, Handler}
use content_ops.Apply.Order.{ordered_for_apply}
use content_ops.Apply.Run.{
  apply, Substitution-cases, Services, AuditPair, RunContext, new_context, effective_ws,
  cached_mode, monitor_mode_result, record_outcome, call_apply, run_handler, process_resolved,
  process_found, process_apply_asset, process, process_all, workspace_loaded, name_of, iterate,
  run_workspace_iteration,
}

-- What a pair is about: the kind, the id and the path of the asset, and the workspace.
pub record Label : Type 0 where
  pub asset : Asset
  pub id : String
  pub path : String
  pub workspace : Option String

module _ {Payload : Type 0} where
  abbrev pub label : LoadedAsset Payload → Option String → Label
  label la ws = record { asset = la.asset; id = la.id; path = la.path; workspace = ws }

  abbrev pub pair_label : AuditPair Payload → Label
  pair_label p = label p.loaded p.workspace

  abbrev pub pair_result : AuditPair Payload → ActionResult
  pair_result p = p.result

module _ {Payload : Type 0} (s : Services Payload) where
  -- The labels of the assets that have a handler
  unfoldable pub expected : List (LoadedAsset Payload) → Option String → List Label
  expected [] ws = []
  expected (la ∷ rest) ws = elim (s.handler la.asset) [
    | none ↦ expected rest ws
    | some h ↦ label la ws ∷ expected rest ws
  ]

  -- Workspace by workspace, each in the apply order; without Defender assets from the second on
  unfoldable pub schedule :
      List (LoadedAsset Payload) → (is_first : Bool) → List (Option Workspace) → List Label
  unfolding expected
  schedule loaded is_first [] = []
  schedule loaded is_first (w ∷ rest) =
      expected (ordered_for_apply (workspace_loaded s is_first loaded)) (name_of s w)
      ++ schedule loaded false rest

  -- From one context to a later one, the pairs and the results that were added agree; their labels
  -- and those of `missed` are these, and nothing is missed unless the run crashed.
  Added : List Label → RunContext Payload → RunContext Payload → Type 0
  Added labels ctx ctx' =
      (new : List (AuditPair Payload)) × (missed : List Label) × (ctx'.audit_pairs
        ≡ ctx.audit_pairs ++ new)
      × (ctx'.results ≡ ctx.results ++ map pair_result new)
      × (labels ≡ map pair_label new ++ missed)
      × (ctx'.crashed ≡ none → missed ≡ [])
      × (ctx'.command ≡ ctx.command)

  Added-none : (ctx : RunContext Payload) → Added [] ctx ctx
  unfolding Added
  Added-none ctx = (
    [],
    [],
    sym (append-nil ctx.audit_pairs),
    sym (append-nil ctx.results),
    refl,
    λ e. refl,
    refl,
  )

  -- A context that only crashed since
  Added-crash :
      (ls : List Label) (ctx : RunContext Payload) (exc : String)
      → Added ls ctx (record ctx { crashed = some exc })
  unfolding Added
  Added-crash ls ctx exc = (
    [],
    ls,
    sym (append-nil ctx.audit_pairs),
    sym (append-nil ctx.results),
    refl,
    λ e. ground (arith, e),
    refl,
  )

  Added-stop :
      (ls ms : List Label) (a b : RunContext Payload) (exc : String)
      → b.crashed ≡ some exc
      → Added ls a b
      → Added (ls ++ ms) a b
  unfolding Added
  Added-stop ls ms a b exc e (new, missed, pairs, results, labels, whole, command) = (
    new,
    missed ++ ms,
    pairs,
    results,
    ap (λ l. l ++ ms) labels ∙ append_assoc (map pair_label new) missed ms,
    λ c. ground (arith, e, c),
    command,
  )

  Added-trans :
      (ls ms : List Label) (a b d : RunContext Payload)
      → b.crashed ≡ none
      → Added ls a b
      → Added ms b d
      → Added (ls ++ ms) a d
  unfolding Added
  Added-trans ls ms a b d e (new, missed, pairs, results, labels, whole, command)
        (new', missed', pairs', results', labels', whole', command') =
      (
        new ++ new',
        missed',
        pairs' ∙ ap (λ l. l ++ new') pairs ∙ append_assoc a.audit_pairs new new',
        results'
            ∙ ap (λ l. l ++ map pair_result new') results
            ∙ append_assoc a.results (map pair_result new) (map pair_result new')
            ∙ ap (λ l. a.results ++ l) (sym (map-append pair_result new new')),
        ap (λ l. l ++ ms)
              (labels
                ∙ ap (λ l. map pair_label new ++ l) (whole e)
                ∙ append-nil (map pair_label new))
            ∙ ap (λ l. map pair_label new ++ l) labels'
            ∙ sym (append_assoc (map pair_label new) (map pair_label new') missed')
            ∙ ap (λ l. l ++ missed') (sym (map-append pair_label new new')),
        whole',
        command' ∙ command,
      )

  Added-command :
      (ls : List Label) (a b : RunContext Payload) → Added ls a b → b.command ≡ a.command
  unfolding Added
  Added-command ls a b added = added.6

  -- A handler's run writes to neither list.
  SameLog : RunContext Payload → RunContext Payload → Type 0
  SameLog a b = (b.audit_pairs ≡ a.audit_pairs) × (b.results ≡ a.results) × (b.command ≡ a.command)

  SameLog-refl : (ctx : RunContext Payload) → SameLog ctx ctx
  unfolding SameLog
  SameLog-refl ctx = (refl, refl, refl)

  cached_mode-SameLog :
      (asset : Asset) (ws : Option String) (ctx : RunContext Payload)
      → SameLog ctx (cached_mode s asset ws ctx).1
  unfolding SameLog cached_mode
  cached_mode-SameLog asset ws ctx = elim (Option-cases (get (ws, asset) ctx.asset_modes)) [
    | inl e ↦ rw (e, cached_mode) (refl, refl, refl)
    | inr (mode, e) ↦ rw (e, cached_mode) (refl, refl, refl)
  ]

  run_handler-SameLog :
      (h : Handler Payload) (la : LoadedAsset Payload) (ws : Option String)
      (ctx : RunContext Payload)
      → SameLog ctx (run_handler s h la ws ctx).1
  unfolding SameLog run_handler monitor_mode_result call_apply
  run_handler-SameLog h la ws ctx = elim (Option-cases (h.validate la)) [
    | inr (exc, e) ↦ rw (e, run_handler) (refl, refl, refl)
    | inl e ↦
        let same = cached_mode-SameLog la.asset ws ctx in
        rw (e, run_handler, monitor_mode_result)
          (elim (Bool-cases (is_monitor (cached_mode s la.asset ws ctx).0)) [
            | inl m ↦ rw m same
            | inr m ↦ rw m same
          ])
  ]

  abbrev new_pair :
      LoadedAsset Payload → ActionResult → (ws digest : Option String) → AuditPair Payload
  new_pair la result ws digest = record {
    loaded = la;
    result = result;
    workspace = ws;
    digest = digest;
  }

  record_outcome-Added :
      (la : LoadedAsset Payload) (result : ActionResult) (ws digest : Option String)
      (ctx ctx' : RunContext Payload)
      → SameLog ctx ctx'
      → Added (label la ws ∷ []) ctx (record_outcome s la result ws digest ctx')
  unfolding Added SameLog record_outcome
  record_outcome-Added la result ws digest ctx ctx' (pairs, results, command) = (
    new_pair la result ws digest ∷ [],
    [],
    ap (λ l. l ++ (new_pair la result ws digest ∷ [])) pairs,
    ap (λ l. l ++ (result ∷ [])) results,
    refl,
    λ e. refl,
    command,
  )

  process_resolved-Added :
      (h : Handler Payload) (la resolved : LoadedAsset Payload) (ws : Option String)
      (ctx : RunContext Payload)
      → Added (label resolved ws ∷ []) ctx (process_resolved s h la resolved ws ctx)
  unfolding process_resolved
  process_resolved-Added h la resolved ws ctx = elim (Result-cases (s.snippet_digest la resolved)) [
    | inl (digest, r) ↦
        rw (r, process_resolved)
          (record_outcome-Added resolved _ ws digest ctx _ (run_handler-SameLog h resolved ws ctx))
    | inr (exc, r) ↦ rw (r, process_resolved) (Added-crash _ ctx exc)
  ]

  process_found-Added :
      (h : Handler Payload) (la : LoadedAsset Payload) (ws : Option String)
      (ctx : RunContext Payload)
      → Added (label la ws ∷ []) ctx (process_found s h la ws ctx)
  unfolding process_found
  process_found-Added h la ws ctx =
      elim (Substitution-cases
        (s.substitute la.asset la.id (effective_ws s la.asset ws) la.payload)) [
          | inl (p, r) ↦
              rw (r, process_found) (process_resolved-Added h la (record la { payload = p }) ws ctx)
          | inr (inl (exc, r)) ↦
              rw (r, process_found) (record_outcome-Added la _ ws none ctx ctx (SameLog-refl ctx))
          | inr (inr (exc, r)) ↦ rw (r, process_found) (Added-crash _ ctx exc)
        ]

  process_apply_asset-Added :
      (la : LoadedAsset Payload) (ws : Option String) (ctx : RunContext Payload)
      → Added (expected (la ∷ []) ws) ctx (process_apply_asset s la ws ctx)
  unfolding process_apply_asset expected
  process_apply_asset-Added la ws ctx = elim (Option-cases (s.handler la.asset)) [
    | inl e ↦ rw (e, process_apply_asset, expected) (Added-none ctx)
    | inr (found, e) ↦
        rw (e, process_apply_asset, expected)
          (elim (Result-cases found) [
            | inl (h, r) ↦ rw r (process_found-Added h la ws ctx)
            | inr (exc, r) ↦ rw r (Added-crash _ ctx exc)
          ])
  ]

  expected-cons :
      (la : LoadedAsset Payload) (rest : List (LoadedAsset Payload)) (ws : Option String)
      → expected (la ∷ rest) ws ≡ expected (la ∷ []) ws ++ expected rest ws
  unfolding expected
  expected-cons la rest ws = elim (Option-cases (s.handler la.asset)) [
    | inl e ↦ rw (e, expected) refl
    | inr (h, e) ↦ rw (e, expected) refl
  ]

  abbrev unless_crashed : (ctx later : RunContext Payload) → Option String → RunContext Payload
  unless_crashed ctx later crashed = elim crashed [ some exc ↦ ctx | none ↦ later ]

  -- Nothing runs after a crash.
  process_all-crashed :
      (las : List (LoadedAsset Payload)) (ws : Option String) (ctx : RunContext Payload)
      (exc : String)
      → ctx.crashed ≡ some exc
      → process_all s las ws ctx ≡ ctx
  unfolding process_all
  process_all-crashed [] ws ctx exc c = refl
  process_all-crashed (la ∷ rest) ws ctx exc c =
      ap (unless_crashed ctx (process_all s rest ws (process s ctx.command la ws ctx))) c

  process_all-next :
      (la : LoadedAsset Payload) (rest : List (LoadedAsset Payload)) (ws : Option String)
      (ctx : RunContext Payload)
      → ctx.crashed ≡ none
      → ctx.command ≡ apply
      → process_all s (la ∷ rest) ws ctx ≡ process_all s rest ws (process_apply_asset s la ws ctx)
  unfolding process_all process
  process_all-next la rest ws ctx c e =
      ap (unless_crashed ctx (process_all s rest ws (process s ctx.command la ws ctx))) c
      ∙ ap (λ command. process_all s rest ws (process s command la ws ctx)) e

  iterate-crashed :
      (loaded : List (LoadedAsset Payload)) (is_first : Bool) (ws : List (Option Workspace))
      (ctx : RunContext Payload) (exc : String)
      → ctx.crashed ≡ some exc
      → iterate s loaded is_first ws ctx ≡ ctx
  unfolding iterate
  iterate-crashed loaded is_first [] ctx exc c = refl
  iterate-crashed loaded is_first (w ∷ rest) ctx exc c =
      let las = ordered_for_apply (workspace_loaded s is_first loaded) in
      ap (iterate s loaded false rest) (process_all-crashed las (name_of s w) ctx exc c)
      ∙ iterate-crashed loaded false rest ctx exc c

  -- A step and what follows it, which does nothing after a crash
  Added-chain :
      (ls ms : List Label) (a b d : RunContext Payload)
      → Added ls a b
      → Added ms b d
      → ((exc : String) → b.crashed ≡ some exc → d ≡ b)
      → Added (ls ++ ms) a d
  Added-chain ls ms a b d one more stops = elim (Option-cases b.crashed) [
    | inl c ↦ Added-trans ls ms a b d c one more
    | inr (exc, c) ↦ subst (Added (ls ++ ms) a) (sym (stops exc c)) (Added-stop ls ms a b exc c one)
  ]

  process_all-Added :
      (las : List (LoadedAsset Payload)) (ws : Option String) (ctx : RunContext Payload)
      → ctx.command ≡ apply
      → Added (expected las ws) ctx (process_all s las ws ctx)
  unfolding process_all process expected
  process_all-Added [] ws ctx e = Added-none ctx
  process_all-Added (la ∷ rest) ws ctx e = elim (Option-cases ctx.crashed) [
    | inr (exc, c) ↦
        subst (Added (expected (la ∷ rest) ws) ctx)
          (sym (process_all-crashed (la ∷ rest) ws ctx exc c))
          (Added-stop [] _ ctx ctx exc c (Added-none ctx))
    | inl c ↦
        let one = process_apply_asset-Added la ws ctx in
        let done = process_apply_asset s la ws ctx in
        subst (Added (expected (la ∷ rest) ws) ctx) (sym (process_all-next la rest ws ctx c e)) (
          subst (λ ls. Added ls ctx (process_all s rest ws done)) (sym (expected-cons la rest ws))
            (Added-chain _ _ ctx done (process_all s rest ws done) one
              (process_all-Added rest ws done
                (Added-command (expected (la ∷ []) ws) ctx done one ∙ e))
              (λ exc. process_all-crashed rest ws done exc)))
  ]

  iterate-Added :
      (loaded : List (LoadedAsset Payload)) (is_first : Bool) (ws : List (Option Workspace))
      (ctx : RunContext Payload)
      → ctx.command ≡ apply
      → Added (schedule loaded is_first ws) ctx (iterate s loaded is_first ws ctx)
  unfolding iterate schedule
  iterate-Added loaded is_first [] ctx e = Added-none ctx
  iterate-Added loaded is_first (w ∷ rest) ctx e =
      let las = ordered_for_apply (workspace_loaded s is_first loaded) in
      let one = process_all-Added las (name_of s w) ctx e in
      let done = process_all s las (name_of s w) ctx in
      Added-chain (expected las (name_of s w)) (schedule loaded false rest) ctx done
        (iterate s loaded false rest done) one
        (iterate-Added loaded false rest done
          (Added-command (expected las (name_of s w)) ctx done one ∙ e))
        (λ exc. iterate-crashed loaded false rest done exc)

  -- A run of apply, whatever snippets, validation and handlers do: the audit pairs stand, one each
  -- and in that order, for the first of the scheduled assets that have a handler (workspace by
  -- workspace, each in the apply order, Defender assets only in the first); for all of them, unless
  -- an exception that nothing catches ended the run. The results are the results of the pairs.
  pub run_workspace_iteration_accounts :
      (loaded : List (LoadedAsset Payload)) (workspaces : List (Option Workspace)) (d : Bool)
      → ((missed : List Label) × (schedule loaded true workspaces
            ≡ map pair_label
                (run_workspace_iteration s loaded workspaces
                  (new_context Payload apply d)).audit_pairs
              ++ missed)
          × ((run_workspace_iteration s loaded workspaces (new_context Payload apply d)).crashed
                ≡ none
              → missed ≡ []))
        × ((run_workspace_iteration s loaded workspaces (new_context Payload apply d)).results
            ≡ map pair_result
                (run_workspace_iteration s loaded workspaces
                  (new_context Payload apply d)).audit_pairs)
  unfolding run_workspace_iteration Added
  run_workspace_iteration_accounts loaded workspaces d =
      let (new, missed, pairs, results, labels, whole, command) =
        iterate-Added loaded true workspaces (new_context Payload apply d) refl in
      (
        (missed, labels ∙ ap (λ l. map pair_label l ++ missed) (sym pairs), whole),
        results ∙ ap (map pair_result) (sym pairs),
      )
