-- ===== src/Lifecycle/Promote/Gated.antt =====
-- What `promote_many` does to the files.
use content_ops.Prelude.{
  Bool-cases, Option-cases, option_beq, option_beq_iff, Pointwise, Pointwise-refl, Pointwise-trans,
  ℕ, String, ◌≡◌, refl, sym, subst, ◌⊎◌, inl, inr, true, false, ◌||◌, Option, some, List, [], ◌∷◌,
  arith, string_eq, nat_eq, option_eq, pair_eq, option_eq, pair_eq,
}
use content_ops.Telemetry.{Row}
use content_ops.Lifecycle.Gates.{Envelope, all_passed}
use content_ops.Lifecycle.Gates.Closed.{IsVerified, check_gates_exact}
use content_ops.Lifecycle.Promote.{
  RuleFile, Options, same_lines, gates_of, promoted_text, promote_file, promote, promote_many,
}

module _ (lower strip : String → String) (parse_day : String → Option ℕ)
    (live_query : String → Option (List Row)) (telemetry : ℕ → Option (List Row))
    (parse : List String → Option Envelope) (o : Options) where
  abbrev pub Verified : Envelope → Type 0
  Verified e =
      IsVerified lower strip parse_day live_query telemetry e o.max_validation_age_days o.today
        o.workspace o.fp_rate_threshold o.telemetry_since_days

  -- One promotion: the file holds the rule, the run is no dry run, all checks hold or the promotion
  -- is forced, and the file keeps its path and gets the production status and the stamp.
  pub record IsPromotion (rule_id : String) (before after : RuleFile) : Type 0 where
    pub envelope : Envelope
    pub found : parse before.lines ≡ some envelope
    pub named : envelope.id ≡ some rule_id
    pub wet : o.dry_run ≡ false
    pub checked : (o.force ≡ true) ⊎ Verified envelope
    pub path : after.path ≡ before.path
    pub edited :
        promoted_text lower strip parse_day live_query telemetry parse o envelope before.lines
        ≡ some after.lines

  abbrev pub Step : String → RuleFile → RuleFile → Type 0
  Step rule_id before after = (after ≡ before) ⊎ IsPromotion rule_id before after

  -- Where the run gets to the edit
  edit-Step :
      (rule_id : String) (f : RuleFile) (e : Envelope)
      → parse f.lines ≡ some e
      → e.id ≡ some rule_id
      → (all_passed (gates_of lower strip parse_day live_query telemetry parse o e) || o.force)
        ≡ true
      → o.dry_run ≡ false
      → (o.force ≡ true) ⊎ Verified e
      → Step rule_id f
          (promote_file lower strip parse_day live_query telemetry parse o rule_id f e).1
  unfolding promote_file
  edit-Step rule_id f e found named allowed wet checked =
      elim (Option-cases
        (promoted_text lower strip parse_day live_query telemetry parse o e f.lines)) [
          | inl failed ↦ inl (simp (allowed, wet, failed, promote_file))
          | inr (edited, made) ↦ elim (Bool-cases (same_lines edited f.lines)) [
            | inl same ↦ inl (simp (allowed, wet, made, same, promote_file))
            | inr changed ↦
                let new : RuleFile = record f { lines = edited } in
                let done : (promote_file lower strip parse_day live_query telemetry parse o rule_id
                      f e).1
                    ≡ new =
                  simp (allowed, wet, made, changed, promote_file) in
                subst (Step rule_id f) (sym done) (
                  inr record {
                    envelope = e;
                    found = found;
                    named = named;
                    wet = wet;
                    checked = checked;
                    path = refl;
                    edited = made;
                  })
          ]
        ]

  promote_file-Step :
      (rule_id : String) (f : RuleFile) (e : Envelope)
      → parse f.lines ≡ some e
      → e.id ≡ some rule_id
      → Step rule_id f
          (promote_file lower strip parse_day live_query telemetry parse o rule_id f e).1
  unfolding promote_file gates_of
  promote_file-Step rule_id f e found named =
      let gates = gates_of lower strip parse_day live_query telemetry parse o e in
      elim (Bool-cases (all_passed gates || o.force)) [
        | inr refused ↦ inl (simp (refused, promote_file))
        | inl allowed ↦ elim (Bool-cases o.dry_run) [
          | inl dry ↦ inl (simp (allowed, dry, promote_file))
          | inr wet ↦ edit-Step rule_id f e found named allowed wet (elim (Bool-cases o.force) [
            | inl forced ↦ inl forced
            | inr free ↦ inr (
                (check_gates_exact lower strip parse_day live_query telemetry e
                    o.max_validation_age_days o.today o.workspace o.fp_rate_threshold
                    o.telemetry_since_days).0
                  (ground arith))
          ])
        ]
      ]

  promote-Step :
      (rule_id : String) (files : List RuleFile)
      → Pointwise
          (Step rule_id)
          files
          (promote lower strip parse_day live_query telemetry parse o rule_id files).1
  unfolding promote
  promote-Step rule_id [] = tt
  promote-Step rule_id (f ∷ files) =
      let rest = promote lower strip parse_day live_query telemetry parse o rule_id files in
      let later = promote-Step rule_id files in
      elim (Option-cases (parse f.lines)) [
        | inl unreadable ↦
            let same : (promote lower strip parse_day live_query telemetry parse o rule_id
                  (f ∷ files)).1
                ≡ f ∷ rest.1 =
              simp (unreadable, promote) in
            subst (Pointwise (Step rule_id) (f ∷ files)) (sym same) (inl refl, later)
        | inr (e, found) ↦ elim (Bool-cases (option_beq e.id (some rule_id))) [
          | inl named ↦
              let one =
                promote_file lower strip parse_day live_query telemetry parse o rule_id f e in
              let same : (promote lower strip parse_day live_query telemetry parse o rule_id
                    (f ∷ files)).1
                  ≡ one.1 ∷ files =
                simp (found, named, promote) in
              subst (Pointwise (Step rule_id) (f ∷ files)) (sym same) (
                promote_file-Step rule_id f e found ((option_beq_iff e.id (some rule_id)).0 named),
                Pointwise-refl (Step rule_id) files (λ x. inl refl),
              )
          | inr differs ↦
              let same : (promote lower strip parse_day live_query telemetry parse o rule_id
                    (f ∷ files)).1
                  ≡ f ∷ rest.1 =
                simp (found, differs, promote) in
              subst (Pointwise (Step rule_id) (f ∷ files)) (sym same) (inl refl, later)
        ]
      ]

  -- A file's way through the batch: for each id in turn it stays as it is or is promoted as that id's
  -- rule.
  abbrev pub IsBatch : List String → (before after : RuleFile) → Type 0
  IsBatch [] before after = after ≡ before
  IsBatch (rule_id ∷ rule_ids) before after =
      (mid : RuleFile) × Step rule_id before mid × IsBatch rule_ids mid after

  -- A batch promotion keeps the files in their places. Each goes through the ids in turn, and for an
  -- id it stays as it is or is promoted: it holds the envelope with that id, the run is no dry run,
  -- the envelope's checks all hold or the run is forced, and the file's text gets the production
  -- status and the stamp.
  pub promote_many-IsBatch :
      (rule_ids : List String) (files : List RuleFile)
      → Pointwise
          (IsBatch rule_ids)
          files
          (promote_many lower strip parse_day live_query telemetry parse o rule_ids files).1
  unfolding promote_many
  promote_many-IsBatch [] files = Pointwise-refl (IsBatch []) files (λ x. refl)
  promote_many-IsBatch (rule_id ∷ rule_ids) files =
      let one = promote lower strip parse_day live_query telemetry parse o rule_id files in
      Pointwise-trans (Step rule_id) (IsBatch rule_ids) (IsBatch (rule_id ∷ rule_ids)) files one.1 _
        (λ x y z s b. (y, s, b)) (promote-Step rule_id files) (promote_many-IsBatch rule_ids one.1)
