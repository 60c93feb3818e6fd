-- ===== src/Lifecycle/Gates/Closed.antt =====
-- When the promotion gates pass: nothing is left unchecked but by opting out of the workspace.
use Prim.Native.String.{◌++◌ as concat}
use content_ops.Prelude.{
  if◌then◌else◌, Bool-cases, Option-cases, string_eq, truthy, ℕ, ◌+◌, ◌*◌, ◌≤◌, String, ◌≡◌, refl,
  subst, ◌≢◌, ◌↔◌, ◌⊎◌, inl, inr, Bool, true, false, ◌||◌, Option, none, some, List, arith,
}
use content_ops.Asset.{asset_eq}
use content_ops.Telemetry.{Row}
use content_ops.Lifecycle.Gates.{
  Envelope, GateName, live_test_pass, fp_rate_threshold, GateResult, gate,
  gate_currently_experimental, Workspace, no_workspace_gate, no_workspace, closed_fp_rate, kql_body,
  parse_iso_date, gate_recent_validation, gate_live_test_pass, rate_gate, rule_row,
  gate_fp_rate_threshold, check_gates, all_passed,
}

-- `g.passed or g.deferred`
abbrev ok : GateResult → Bool
ok g = g.passed || g.deferred

-- The caller gave no workspace, and no lookup of one failed.
abbrev pub OptedOut : Workspace → Type 0
OptedOut w = (no_workspace w ≡ true) × (truthy w.workspace_error ≡ false)

-- The check holds on the workspace, or the caller opted out.
abbrev pub Checked : Workspace → Type 0 → Type 0
Checked w P = OptedOut w ⊎ ((no_workspace w ≡ false) × P)

checked_iff :
    (w : Workspace) (name : GateName) (g : GateResult) (P : Type 0)
    → (ok g ≡ true) ↔ P
    → (ok (if no_workspace w then no_workspace_gate name w.workspace_error else g) ≡ true)
      ↔ Checked w P
unfolding no_workspace_gate
checked_iff w name g P h = elim (Bool-cases (no_workspace w)) [
  | inr there ↦
      rw there
        (λ k. inr (refl, h.0 k), λ k. elim k [ inl out ↦ ground (arith, out.0) | inr c ↦ h.1 c.1 ])
  | inl absent ↦ rw absent (
    λ k. inl (refl, ground arith),
    λ k. elim k [ inl out ↦ ground (arith, out.1) | inr c ↦ ground (arith, c.0) ],
  )
]

experimental_iff :
    (e : Envelope) → (ok (gate_currently_experimental e) ≡ true) ↔ (e.status ≡ "experimental")
unfolding gate_currently_experimental
experimental_iff e = (
  λ h. (string_eq.equal_iff e.status "experimental").0 (ground arith),
  λ h. ground (arith, (string_eq.equal_iff e.status "experimental").1 h),
)

module _ (parse_day : String → Option ℕ) where
  -- The last validation has a date, which is not in the future and not older than the limit.
  abbrev pub IsRecent : Envelope → (max_age_days today : ℕ) → Type 0
  IsRecent e max_age_days today =
      (day : ℕ) × (parse_iso_date parse_day e.last_validated_at ≡ some day)
      × (day ≤ today)
      × (today ≤ day + max_age_days)

  validation_iff :
      (e : Envelope) (max_age_days today : ℕ)
      → (ok (gate_recent_validation parse_day e max_age_days today) ≡ true)
        ↔ IsRecent e max_age_days today
  unfolding gate_recent_validation
  validation_iff e max_age_days today =
      elim (Option-cases (parse_iso_date parse_day e.last_validated_at)) [
        | inl missing ↦ (λ h. ground (arith, missing), λ k. ground (arith, missing, k.1))
        | inr (day, there) ↦ (
          λ h. (day, there, ground (arith, there), ground (arith, there)),
          λ k. ground (arith, there, k.1, k.2, k.3),
        )
      ]

module _ (strip : String → String) (live_query : String → Option (List Row)) where
  -- The rule's query, if it has one, runs.
  abbrev pub Runs : Envelope → Type 0
  Runs e =
      (body : String) → kql_body strip e ≡ some body → live_query (concat body "\n| count") ≢ none

  live_body :
      (b : Option String)
      → (ok (elim b [
        | none ↦ gate live_test_pass true
        | some body ↦ elim (live_query (concat body "\n| count")) [
          | none ↦ gate live_test_pass false
          | some rows ↦ gate live_test_pass true
        ]
      ])
          ≡ true)
        ↔ ((body : String) → b ≡ some body → live_query (concat body "\n| count") ≢ none)
  live_body none = (λ h body e k. cc, λ h. refl)
  live_body (some b) = elim (Option-cases (live_query (concat b "\n| count"))) [
    | inl fails ↦ rw fails (λ h body e k. cc, λ h. absurd (h b refl fails))
    | inr (rows, runs) ↦ rw runs (
      λ h body e.
          let same : b ≡ body = cc in
          subst (λ x. live_query (concat x "\n| count") ≢ none) same (λ k. ground (arith, runs, k)),
      λ h. refl,
    )
  ]

  live_iff :
      (e : Envelope) (w : Workspace)
      → (ok (gate_live_test_pass strip live_query e w) ≡ true) ↔ Checked w (Runs e)
  unfolding gate_live_test_pass
  live_iff e w = checked_iff w live_test_pass _ (Runs e) (live_body (kql_body strip e))

-- The share of false positives, where it is defined, is at most the threshold.
abbrev pub IsBelow : (threshold : ℕ × ℕ) → Option Row → Type 0
IsBelow threshold none = Unit
IsBelow threshold (some row) =
    (fp closed : ℕ)
    → closed_fp_rate row ≡ some (fp, closed)
    → fp * threshold.1 ≤ threshold.0 * closed

rate_bound :
    (fp closed f c : ℕ) (threshold : ℕ × ℕ)
    → ◌≡◌ {A = Option (ℕ × ℕ)} (some (fp, closed)) (some (f, c))
    → fp * threshold.1 ≤ threshold.0 * closed
    → f * threshold.1 ≤ threshold.0 * c
rate_bound fp closed f c threshold e h =
    let p : fp ≡ f = cc in
    let q : closed ≡ c = cc in
    subst (λ x. x * threshold.1 ≤ threshold.0 * c) p
      (subst (λ y. fp * threshold.1 ≤ threshold.0 * y) q h)

rate_iff :
    (threshold : ℕ × ℕ) (row : Option Row)
    → (ok (rate_gate threshold row) ≡ true) ↔ IsBelow threshold row
unfolding rate_gate
rate_iff threshold none = (λ h. tt, λ h. refl)
rate_iff threshold (some row) = elim (Option-cases (closed_fp_rate row)) [
  | inl missing ↦ rw (missing, rate_gate) (λ h fp closed e. cc, λ h. refl)
  | inr ((fp, closed), there) ↦
      rw (there, rate_gate)
        (
          λ h f c e. rate_bound fp closed f c threshold e (ground arith),
          λ h. ground (arith, h fp closed refl),
        )
]

module _ (lower strip : String → String) (telemetry : ℕ → Option (List Row)) where
  -- The telemetry is there, and the rule's share of false positives is not above the threshold.
  abbrev pub IsQuiet : Envelope → ℕ × ℕ → ℕ → Type 0
  IsQuiet e threshold since_days =
      (rows : List Row) × (telemetry since_days ≡ some rows)
      × IsBelow threshold (rule_row lower strip e rows)

  rows_iff :
      (e : Envelope) (threshold : ℕ × ℕ) (since_days : ℕ)
      → (ok (elim (telemetry since_days) [
        | none ↦ gate fp_rate_threshold false
        | some rows ↦ rate_gate threshold (rule_row lower strip e rows)
      ])
          ≡ true)
        ↔ IsQuiet e threshold since_days
  rows_iff e threshold since_days = elim (Option-cases (telemetry since_days)) [
    | inl fails ↦ (λ h. ground (arith, fails), λ k. ground (arith, fails, k.1))
    | inr (rows, there) ↦
        let rate = rate_iff threshold (rule_row lower strip e rows) in
        (
          λ h. (rows, there, rate.0 (rw there at h)),
          λ k.
              let same : k.0 ≡ rows = ground (arith, there, k.1) in
              rw there
                (rate.1 (subst (λ r. IsBelow threshold (rule_row lower strip e r)) same k.2)),
        )
  ]

  telemetry_iff :
      (e : Envelope) (w : Workspace) (threshold : ℕ × ℕ) (since_days : ℕ)
      → (ok (gate_fp_rate_threshold lower strip telemetry e w threshold since_days) ≡ true)
        ↔ Checked w (IsQuiet e threshold since_days)
  unfolding gate_fp_rate_threshold
  telemetry_iff e w threshold since_days =
      checked_iff w fp_rate_threshold _ (IsQuiet e threshold since_days)
        (rows_iff e threshold since_days)

module _ (lower strip : String → String) (parse_day : String → Option ℕ)
    (live_query : String → Option (List Row)) (telemetry : ℕ → Option (List Row)) (e : Envelope)
    (max_age_days today : ℕ) (w : Workspace) (threshold : ℕ × ℕ) (since_days : ℕ) where
  -- The rule is experimental, recently validated, runs on the workspace, and is quiet there.
  pub record IsVerified : Type 0 where
    pub experimental : e.status ≡ "experimental"
    pub recent : IsRecent parse_day e max_age_days today
    pub live : Checked w (Runs strip live_query e)
    pub quiet : Checked w (IsQuiet lower strip telemetry e threshold since_days)

  -- All gates pass exactly if the rule is experimental, was validated within the limit and not in
  -- the future, and, unless the caller opted out of the workspace without a failed lookup, there is
  -- a workspace, the rule's query runs there, the telemetry query returns, and the rule's share of
  -- false positives among the incidents closed with a verdict, if there are some, is at most the
  -- threshold.
  pub check_gates_exact :
      (all_passed (
          check_gates lower strip parse_day live_query telemetry e max_age_days today w threshold
            since_days)
        ≡ true)
      ↔ IsVerified
  unfolding check_gates all_passed
  check_gates_exact =
      let a = experimental_iff e in
      let b = validation_iff parse_day e max_age_days today in
      let c = live_iff strip live_query e w in
      let d = telemetry_iff lower strip telemetry e w threshold since_days in
      (
        λ h. record {
          experimental = a.0 (ground arith);
          recent = b.0 (ground arith);
          live = c.0 (ground arith);
          quiet = d.0 (ground arith);
        },
        λ h. ground (arith, a.1 h.experimental, b.1 h.recent, c.1 h.live, d.1 h.quiet),
      )
