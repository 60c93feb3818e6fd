-- ===== src/Drift/Slug/Bounds.antt =====
-- contentops/utils/slug.py: the form and the length of the ids.
use Prim.Native.Char.{code}
use content_ops.Prelude.{
  nat_beq, if◌then◌else◌, Bool-cases, nonempty, ℕ, zero, suc, ◌+◌, ◌-◌, ◌≤◌, String, ◌≡◌, refl, ◌⊎◌,
  inl, inr, Bool, true, false, ◌&&◌, ◌||◌, not, Option, none, some, arith,
}
use content_ops.Drift.Slug.{
  cleaned, first_chars, char_count, without_dashes, dashed, arm_name_suffix, disambiguate,
  dash_runs, after_dashes, is_valid_envelope_id, cut_slug, displayname_slug,
}

without_dashes-le : (s : String) → char_count (without_dashes s) ≤ char_count s
unfolding char_count without_dashes
without_dashes-le String.[] = omega arith
without_dashes-le (String.◌∷◌ c s) =
    elim (Bool-cases (nonempty (without_dashes s) || not (nat_beq (code c) 45))) [
      | inl e ↦ rw e (omega (arith, without_dashes-le s))
      | inr e ↦ rw e (omega arith)
    ]

first_chars-le : (n : ℕ) (s : String) → char_count (first_chars n s) ≤ n
unfolding char_count first_chars
first_chars-le zero s = omega arith
first_chars-le (suc n) String.[] = omega arith
first_chars-le (suc n) (String.◌∷◌ c s) = omega (arith, first_chars-le n s)

count-dashed : (s t : String) → char_count (dashed s t) ≡ char_count s + 1 + char_count t
unfolding char_count dashed
count-dashed String.[] t = omega arith
count-dashed (String.◌∷◌ c s) t = omega (arith, count-dashed s t)

cut_slug-le : (clean : String) → char_count (cut_slug clean) ≤ 80
unfolding cut_slug
cut_slug-le clean =
    let slug = without_dashes (after_dashes (dash_runs clean)) in
    let k = without_dashes-le (first_chars 80 slug) in
    let m = first_chars-le 80 slug in ground (arith, k, m)

-- The test on a cut slug
abbrev proper : String → Bool
proper clean = nonempty (cut_slug clean) && is_valid_envelope_id (cut_slug clean)

either-le :
    (b : Bool) (s t : String)
    → char_count s ≤ 80
    → char_count t ≤ 80
    → char_count (if b then s else t) ≤ 80
either-le true s t h k = h
either-le false s t h k = k

module _ (lower : String → String) where
  suffix-le : (arm_name : String) → char_count (arm_name_suffix lower arm_name) ≤ 8
  unfolding arm_name_suffix char_count
  suffix-le arm_name =
      let k = first_chars-le 8 (cleaned (lower arm_name)) in
      elim (Bool-cases (nonempty arm_name)) [ inl e ↦ rw e k | inr e ↦ rw e (omega arith) ]

  disambiguate-le :
      (slug arm_name : String)
      → char_count slug ≤ 80
      → char_count (disambiguate lower slug arm_name) ≤ 80
  unfolding disambiguate
  disambiguate-le slug arm_name h =
      let suffix = arm_name_suffix lower arm_name in
      let n = suffix-le arm_name in
      let base = without_dashes (first_chars (80 - char_count suffix - 1) slug) in
      let k = without_dashes-le (first_chars (80 - char_count suffix - 1) slug) in
      let m = first_chars-le (80 - char_count suffix - 1) slug in
      ground (arith, n, k, m, h, count-dashed base suffix)

  module _ (strip : String → String) (name : String) where
    displayname_slug-le :
        (fallback_id : Option String)
        → char_count (displayname_slug lower strip name fallback_id) ≤ 80
    unfolding displayname_slug char_count
    displayname_slug-le none =
        either-le (proper (lower (strip name))) (cut_slug (lower (strip name))) ""
          (cut_slug-le (lower (strip name))) (omega arith)
    displayname_slug-le (some i) =
        let other = cut_slug (lower (strip i)) in
        let ok = proper (lower (strip i)) in
        either-le (proper (lower (strip name))) (cut_slug (lower (strip name)))
          (if ok then other else "") (cut_slug-le (lower (strip name)))
          (either-le ok other "" (cut_slug-le (lower (strip i))) (omega arith))

    displayname_slug_valid :
        (fallback_id : Option String)
        → (displayname_slug lower strip name fallback_id ≡ "")
          ⊎ (is_valid_envelope_id (displayname_slug lower strip name fallback_id) ≡ true)
    unfolding displayname_slug
    displayname_slug_valid none =
        let slug = cut_slug (lower (strip name)) in
        elim (Bool-cases (nonempty slug && is_valid_envelope_id slug)) [
          | inl e ↦ rw e (inr (ground (arith, e)))
          | inr e ↦ rw e (inl refl)
        ]
    displayname_slug_valid (some i) =
        let slug = cut_slug (lower (strip name)) in
        let other = cut_slug (lower (strip i)) in
        elim (Bool-cases (nonempty slug && is_valid_envelope_id slug)) [
          | inl e ↦ rw e (inr (ground (arith, e)))
          | inr e ↦ elim (Bool-cases (nonempty other && is_valid_envelope_id other)) [
            | inl f ↦ rw (e, f) (inr (ground (arith, f)))
            | inr f ↦ rw (e, f) (inl refl)
          ]
        ]

  -- A slug is empty or a valid envelope id, it has at most 80 characters, and so has the id that a
  -- collision turns it into.
  pub displayname_slug_bounds :
      (strip : String → String) (name : String) (fallback_id : Option String) (arm_name : String)
      → ((displayname_slug lower strip name fallback_id ≡ "")
          ⊎ (is_valid_envelope_id (displayname_slug lower strip name fallback_id) ≡ true))
        × (char_count (displayname_slug lower strip name fallback_id) ≤ 80)
        × (char_count (disambiguate lower (displayname_slug lower strip name fallback_id) arm_name)
            ≤ 80)
  displayname_slug_bounds strip name fallback_id arm_name =
      let b = displayname_slug-le strip name fallback_id in
      (
        displayname_slug_valid strip name fallback_id,
        b,
        disambiguate-le (displayname_slug lower strip name fallback_id) arm_name b,
      )
