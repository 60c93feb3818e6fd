-- ===== src/Audit/Verify/Lines.antt =====
-- One line of the walk of `verify_chain`.
use mathlib.Core.List.{append-nil}
use text.Mathlib.TextEquality.{eq_iff}
use content_ops.Prelude.{
  Bool-cases, length, length-append, Dict, get, ℕ, ◌+◌, ◌≤◌, String, ◌≡◌, refl, ap, ◌∙◌, subst, ◌↔◌,
  inl, inr, true, false, Option, none, some, [], ◌∷◌, ◌++◌, arith, string_eq, nat_eq, option_eq,
  pair_eq, option_eq, pair_eq,
}
use content_ops.Audit.Record.{
  Json, null, string, other, json_beq, Parsed, malformed, object, non_object, Codec,
}
use content_ops.Audit.Verify.{
  missing_field, Walk, regresses, break_at, with_missing, str_or_empty, time_breaks, hash_breaks,
  verify_record, verify_line,
}
use content_ops.Audit.Verify.View.{
  View, skipped, entry, broken, next_hash, next_time, digest, view, Follows,
}

json_beq_iff : (a b : Json) → (json_beq a b ≡ true) ↔ (a ≡ b)
unfolding json_beq
json_beq_iff null null = (λ _. refl, λ _. refl)
json_beq_iff (string s) (string t) =
    (λ h. ap string ((eq_iff s t).0 h), λ h. ground (arith, eq_iff s t))
json_beq_iff (other s) (other t) =
    (λ h. ap other ((eq_iff s t).0 h), λ h. ground (arith, eq_iff s t))
json_beq_iff null (string t) = (λ h. cc, λ h. cc)
json_beq_iff null (other t) = (λ h. cc, λ h. cc)
json_beq_iff (string s) null = (λ h. cc, λ h. cc)
json_beq_iff (string s) (other t) = (λ h. cc, λ h. cc)
json_beq_iff (other s) null = (λ h. cc, λ h. cc)
json_beq_iff (other s) (string t) = (λ h. cc, λ h. cc)

module _ (c : Codec) (file : String) (ln : ℕ) where
  -- The walk after a line that follows.
  abbrev pub after : Walk → View → ℕ → Walk
  after w v n = record w {
    records_verified = n;
    expected_prev = next_hash w.expected_prev v;
    prev_timestamp = next_time w.prev_timestamp v;
  }

  record_accepted :
      (d : Dict String Json) (actual stored : Json) (w : Walk)
      → Follows c w.expected_prev w.prev_timestamp (entry d actual stored)
      → verify_record c file ln d actual stored w
        ≡ after w (entry d actual stored) (w.records_verified + 1)
  unfolding verify_record hash_breaks time_breaks
  record_accepted d actual stored w (valid, linked, later) = ground (
    arith,
    json_beq_iff (digest c d) stored,
    json_beq_iff actual w.expected_prev,
    append-nil w.breaks,
  )

  hash_valid :
      (d : Dict String Json) (actual stored expected : Json)
      → length (hash_breaks c file ln d actual stored expected) ≡ 0
      → digest c d ≡ stored
  unfolding hash_breaks
  hash_valid d actual stored expected h = ground (arith, json_beq_iff (digest c d) stored)

  hash_linked :
      (d : Dict String Json) (actual stored expected : Json)
      → length (hash_breaks c file ln d actual stored expected) ≡ 0
      → actual ≡ expected
  unfolding hash_breaks
  hash_linked d actual stored expected h = ground (arith, json_beq_iff actual expected)

  time_later :
      (d : Dict String Json) (actual expected : Json) (t : String)
      → length (time_breaks file ln (get "timestamp" d) actual expected t) ≡ 0
      → regresses (get "timestamp" d) t ≡ false
  unfolding time_breaks
  time_later d actual expected t h = ground arith

  record_rejected :
      (d : Dict String Json) (actual stored : Json) (w : Walk)
      → (length w.breaks ≤ length (verify_record c file ln d actual stored w).breaks)
        × (length (verify_record c file ln d actual stored w).breaks ≡ length w.breaks
            → Follows c w.expected_prev w.prev_timestamp (entry d actual stored))
  unfolding verify_record
  record_rejected d actual stored w =
      let hs = hash_breaks c file ln d actual stored w.expected_prev in
      let ts = time_breaks file ln (get "timestamp" d) actual w.expected_prev w.prev_timestamp in
      let total = length-append (w.breaks ++ hs) ts in
      let first = length-append w.breaks hs in
      (
        omega (arith, total, first),
        λ same. (
          hash_valid d actual stored w.expected_prev (omega (arith, total, first)),
          hash_linked d actual stored w.expected_prev (omega (arith, total, first)),
          time_later d actual w.expected_prev w.prev_timestamp (omega (arith, total, first)),
        ),
      )

  -- What the walk does at a line, beside how the chain sees the line.
  data LineCase (line : c.Line) (w : Walk) : Type 0 where
    skips : view c line ≡ skipped → verify_line c file ln line w ≡ some w → LineCase line w
    checks :
        (d : Dict String Json) (actual stored : Json)
        → view c line ≡ entry d actual stored
        → verify_line c file ln line w ≡ some (verify_record c file ln d actual stored w)
        → LineCase line w
    reports :
        (actual : Json)
        → view c line ≡ broken
        → verify_line c file ln line w ≡ some (with_missing file ln w actual)
        → LineCase line w
    raises : view c line ≡ broken → verify_line c file ln line w ≡ none → LineCase line w

  object_cases :
      (line : c.Line) (w : Walk) (d : Dict String Json)
      → c.is_blank line ≡ false
      → c.loads line ≡ object d
      → (stored actual : Option Json) → get "record_hash" d ≡ stored
      → get "prev_hash" d ≡ actual
      → LineCase line w
  unfolding verify_line view
  object_cases line w d solid parsed none actual e f =
      reports (string (str_or_empty c.str (get "prev_hash" d))) (ground arith) (ground arith)
  object_cases line w d solid parsed (some stored) none e f =
      reports (string "") (ground arith) (ground arith)
  object_cases line w d solid parsed (some stored) (some actual) e f =
      checks d actual stored (ground arith) (ground arith)

  parsed_cases :
      (line : c.Line) (w : Walk)
      → c.is_blank line ≡ false
      → (parsed : Parsed) → c.loads line ≡ parsed
      → LineCase line w
  unfolding verify_line view
  parsed_cases line w solid malformed e = reports (string "") (ground arith) (ground arith)
  parsed_cases line w solid (object d) e =
      object_cases line w d solid e (get "record_hash" d) (get "prev_hash" d) refl refl
  parsed_cases line w solid non_object e = raises (ground arith) (ground arith)

  line_cases : (line : c.Line) (w : Walk) → LineCase line w
  unfolding verify_line view
  line_cases line w = elim (Bool-cases (c.is_blank line)) [
    | inl blank ↦ skips (ground arith) (ground arith)
    | inr solid ↦ parsed_cases line w solid (c.loads line) refl
  ]

  -- Breaks are only added, and none are only where the line follows.
  abbrev pub Judges : c.Line → Walk → Walk → Type 0
  Judges line w w' =
      (length w.breaks ≤ length w'.breaks)
      × (length w'.breaks ≡ length w.breaks
          → Follows c w.expected_prev w.prev_timestamp (view c line))

  pub line_accepted :
      (line : c.Line) (w : Walk)
      → Follows c w.expected_prev w.prev_timestamp (view c line)
      → (n : ℕ) × (verify_line c file ln line w ≡ some (after w (view c line) n))
  line_accepted line w h = elim (line_cases line w) [
    | skips seen done ↦ (w.records_verified, rw seen done)
    | checks d actual stored seen done ↦ (
      w.records_verified + 1,
      rw seen (done ∙ ap some (record_accepted d actual stored w (rw seen at h))),
    )
    | reports actual seen done ↦ absurd (rw seen at h)
    | raises seen done ↦ absurd (rw seen at h)
  ]

  pub line_rejected :
      (line : c.Line) (w w' : Walk) → verify_line c file ln line w ≡ some w' → Judges line w w'
  line_rejected line w w' e = elim (line_cases line w) [
    | skips seen done ↦
        let same : w ≡ w' = cc (done, e) in
        subst (Judges line w) same (omega arith, λ _. rw seen tt)
    | checks d actual stored seen done ↦
        let same : verify_record c file ln d actual stored w ≡ w' = cc (done, e) in
        subst (Judges line w) same (rw seen (record_rejected d actual stored w))
    | reports actual seen done ↦
        let same : with_missing file ln w actual ≡ w' = cc (done, e) in
        subst (Judges line w) same (
          let more =
            length-append w.breaks (break_at file ln w.expected_prev actual missing_field ∷ []) in
          (omega (arith, more), λ k. absurd (omega (arith, more))))
    | raises seen done ↦ cc (done, e)
  ]
