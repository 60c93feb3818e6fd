-- ===== src/Apply/Outcomes.antt =====
-- What is written down about a run: `_build_audit_record` of
-- contentops/cli/commands/apply_support.py and the state inputs that `apply_cmd` of
-- contentops/cli/commands/apply.py makes of the audit pairs. The clock, the git revision, the actor
-- and the workflow's id are arguments.
use mathlib.Core.Bool.{true≢false}
use content_ops.Prelude.{
  if◌then◌else◌, Bool-cases, string_eq, ◌==◌, nonempty, truthy, String, ◌≡◌, refl, sym, ap, ◌∙◌,
  ◌↔◌, ◌⊎◌, inl, inr, true, false, Option, none, some, List, [], ◌∷◌, map, arith, nat_eq, option_eq,
  pair_eq, option_eq, pair_eq,
}
use text.Mathlib.Text.{starts_with}
use content_ops.Asset.{
  value, PlanAction, create, update, disable, skip, noop, delete, ActionResult, is_error,
  is_failure, is_skip, asset_eq,
}
use content_ops.Loaded.{LoadedAsset}
use content_ops.State.{ApplyResult}
use content_ops.Audit.Record.{AuditRecord, zero_hash}
use content_ops.Apply.Run.{AuditPair}

abbrev pub action_value : PlanAction → String
action_value create = "create"
action_value update = "update"
action_value disable = "disable"
action_value skip = "skip"
action_value noop = "noop"
action_value delete = "delete"

-- `detail or status`
abbrev pub detail_or : (detail status : String) → String
detail_or detail status = if nonempty detail then detail else status

-- `error or detail or status`
abbrev pub failure_text : Option String → (detail status : String) → String
failure_text none detail status = detail_or detail status
failure_text (some error) detail status = if nonempty error then error else detail_or detail status

-- The status and the message of the record
unfoldable pub audit_outcome :
    ActionResult → (success_detail : Option String) → String × Option String
unfolding is_failure
audit_outcome r success_detail =
    if is_failure r
    then ("failed", some (failure_text r.error r.detail r.status))
    else if is_skip r.action
    then ("skipped", if nonempty r.detail then some r.detail else none)
    else ("success", success_detail)

-- What the record takes from its surroundings.
pub record Stamp : Type 0 where
  pub timestamp : String
  pub sha : String
  pub actor : String
  pub workflow_run : Option String

-- Whom a record is about: an asset of apply, or the id and the kind alone.
pub record Subject : Type 0 where
  pub asset : String
  pub id : String
  pub owner : Option String

unfoldable pub build_audit_record :
    ActionResult → Subject → (workspace digest success_detail : Option String) → Stamp → AuditRecord
unfolding audit_outcome
build_audit_record r subject workspace digest success_detail stamp = record {
  timestamp = stamp.timestamp;
  asset = subject.asset;
  id = subject.id;
  action = action_value r.action;
  status = (audit_outcome r success_detail).0;
  sha = stamp.sha;
  actor = stamp.actor;
  workflow_run = stamp.workflow_run;
  message = (audit_outcome r success_detail).1;
  metadata_owner = subject.owner;
  workspace = workspace;
  snippet_digest = digest;
  prev_hash = zero_hash;
  record_hash = "";
}

-- The status that the state file gets
unfoldable pub state_status : ActionResult → String
unfolding is_failure
state_status r =
    if is_failure r then "failed" else if is_skip r.action then "skipped" else "success"

module _ {Payload : Type 0} where
  abbrev pub subject_of : LoadedAsset Payload → Subject
  subject_of la = record { asset = value la.asset; id = la.id; owner = la.owner }

  -- The records of a run, each with its own clock reading
  unfoldable pub audit_records : List (AuditPair Payload × Stamp) → List AuditRecord
  unfolding build_audit_record
  audit_records [] = []
  audit_records ((p, stamp) ∷ rest) =
      build_audit_record p.result (subject_of p.loaded) p.workspace p.digest none stamp
      ∷ audit_records rest

  -- `state_inputs`, each with the clock reading that `remember` takes for it
  unfoldable pub state_inputs : List (AuditPair Payload × String) → List ApplyResult
  unfolding state_status
  state_inputs [] = []
  state_inputs ((p, now) ∷ rest) =
      record {
        asset_kind = value p.loaded.asset;
        envelope_id = p.loaded.id;
        remote_id = "";
        status = state_status p.result;
        now = now;
      }
      ∷ state_inputs rest

-- The result's status is `error` or begins with `error-`, or the check after the call came back
-- negative.
abbrev pub Fails : ActionResult → Type 0
Fails r =
    (r.status ≡ "error") ⊎ ((starts_with r.status "error-" ≡ true) ⊎ (r.verified ≡ some false))

-- The first of the error, the detail and the status that is no empty text
abbrev pub Explains : ActionResult → Option String → Type 0
Explains r message =
    ((truthy r.error ≡ true) × (message ≡ r.error))
    ⊎ ((truthy r.error ≡ false)
        × (((nonempty r.detail ≡ true) × (message ≡ some r.detail))
            ⊎ ((nonempty r.detail ≡ false) × (message ≡ some r.status))))

Fails-failure : (r : ActionResult) → Fails r → is_failure r ≡ true
unfolding is_failure is_error
Fails-failure r (inl e) = ground (arith, (string_eq.equal_iff r.status "error").1 e)
Fails-failure r (inr (inl h)) = ground (arith, h)
Fails-failure r (inr (inr h)) = ground (arith, h)

failure-Fails : (r : ActionResult) → is_failure r ≡ true → Fails r
unfolding is_failure is_error
failure-Fails r h = elim (Bool-cases (r.status == "error")) [
  | inl e ↦ inl ((string_eq.equal_iff r.status "error").0 e)
  | inr e ↦ elim (Bool-cases (starts_with r.status "error-")) [
    | inl p ↦ inr (inl p)
    | inr p ↦ inr (inr (ground (arith, h, e, p)))
  ]
]

failure_text-Explains :
    (r : ActionResult) → Explains r (some (failure_text r.error r.detail r.status))
failure_text-Explains r = explains r.error r.detail r.status
  where
    explains :
        (error : Option String) (detail status : String)
        → let message = some (failure_text error detail status) in
          ((truthy error ≡ true) × (message ≡ error))
          ⊎ ((truthy error ≡ false)
              × (((nonempty detail ≡ true) × (message ≡ some detail))
                  ⊎ ((nonempty detail ≡ false) × (message ≡ some status))))
    explains none detail status = elim (Bool-cases (nonempty detail)) [
      | inl d ↦ inr (refl, inl (d, rw d refl))
      | inr d ↦ inr (refl, inr (d, rw d refl))
    ]
    explains (some error) detail status = elim (Bool-cases (nonempty error)) [
      | inl e ↦ inl (e, rw e refl)
      | inr e ↦ elim (Bool-cases (nonempty detail)) [
        | inl d ↦ inr (e, inl (d, rw (e, d) refl))
        | inr d ↦ inr (e, inr (d, rw (e, d) refl))
      ]
    ]

apart_texts : (s t : String) → (s == t) ≡ false → ¬ (s ≡ t)
apart_texts s t h e = true≢false (sym ((string_eq.equal_iff s t).1 e) ∙ h)

is_skip-skip : (a : PlanAction) → is_skip a ≡ true → a ≡ skip
is_skip-skip skip h = refl
is_skip-skip create h = cc
is_skip-skip update h = cc
is_skip-skip disable h = cc
is_skip-skip noop h = cc
is_skip-skip delete h = cc

-- What is written down for the result, and when
abbrev IsRecorded : ActionResult → (status : String) → (message : Option String) → Type 0
IsRecorded r status message =
    ((status ≡ "failed") ↔ Fails r)
    × (Fails r → Explains r message)
    × ((status ≡ "skipped") ↔ ((¬ Fails r) × (r.action ≡ skip)))
    × (state_status r ≡ status)

outcome-IsRecorded :
    (r : ActionResult) → IsRecorded r (audit_outcome r none).0 (audit_outcome r none).1
unfolding audit_outcome state_status
outcome-IsRecorded r = elim (Bool-cases (is_failure r)) [
  | inl f ↦
      let fails = failure-Fails r f in
      rw f (
        (λ e. fails, λ h. refl),
        λ h. failure_text-Explains r,
        (λ e. absurd (apart_texts "failed" "skipped" refl e), λ h. absurd (h.0 fails)),
        refl,
      )
  | inr n ↦
      let sound : ¬ Fails r = λ h. true≢false (sym (Fails-failure r h) ∙ n) in
      elim (Bool-cases (is_skip r.action)) [
        | inl k ↦
            rw (n, k)
              (
                (λ e. absurd (apart_texts "skipped" "failed" refl e), λ h. absurd (sound h)),
                λ h. absurd (sound h),
                (λ e. (sound, is_skip-skip r.action k), λ h. refl),
                refl,
              )
        | inr k ↦
            rw (n, k)
              (
                (λ e. absurd (apart_texts "success" "failed" refl e), λ h. absurd (sound h)),
                λ h. absurd (sound h),
                (
                  λ e. absurd (apart_texts "success" "skipped" refl e),
                  λ h. absurd (true≢false (sym (ap is_skip h.1) ∙ k)),
                ),
                refl,
              )
      ]
]

-- An audit record has the status `failed` exactly if the result's status is `error` or begins with
-- `error-` or its check came back negative; then its message is the first nonempty one of the
-- result's error, detail and status. It has the status `skipped` exactly if the result is no such
-- failure and its action is SKIP. Apply's state update gives the pair the same status.
pub build_audit_record-status :
    {Payload : Type 0} (p : AuditPair Payload) (stamp : Stamp) (now : String)
    → let r = build_audit_record p.result (subject_of p.loaded) p.workspace p.digest none stamp in
      ((r.status ≡ "failed") ↔ Fails p.result)
      × (Fails p.result → Explains p.result r.message)
      × ((r.status ≡ "skipped") ↔ ((¬ Fails p.result) × (p.result.action ≡ skip)))
      × (map (λ (i : ApplyResult). i.status) (state_inputs ((p, now) ∷ [])) ≡ r.status ∷ [])
unfolding build_audit_record state_inputs
build_audit_record-status p stamp now =
    let (failed, explained, skipped, agreed) = outcome-IsRecorded p.result in
    (failed, explained, skipped, ap (λ s. s ∷ []) agreed)
