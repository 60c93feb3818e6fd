-- ===== src/Drift/Normal/Texts.antt =====
-- contentops/core/drift.py, `_normalize` on texts: a text that is already in normal form.
use Prim.Native.Char.{Char, code}
use content_ops.Prelude.{
  nat_beq, if◌then◌else◌, is_space, Bool-cases, String, ◌≡◌, refl, sym, ap, inl, inr, true, false,
  ◌&&◌, not, arith,
}
use content_ops.Drift.Normal.{
  ends, no_chars, crlf_to_lf, cr_to_lf, rstrip_lines, rstrip_newlines, normalize_text,
}

-- Each character with the text behind it
abbrev pub Each : (Char → String → Type 0) → String → Type 0
Each P String.[] = Unit
Each P (String.◌∷◌ c s) = P c s × Each P s

abbrev pub NotCr : Char → String → Type 0
NotCr c s = nat_beq (code c) 13 ≡ false

abbrev pub NotTrailing : Char → String → Type 0
NotTrailing c s = (is_space (code c) && (not (nat_beq (code c) 10) && ends s)) ≡ false

abbrev pub NotLast : Char → String → Type 0
NotLast c s = (nat_beq (code c) 10 && no_chars s) ≡ false

cr_to_lf-NotCr : (s : String) → Each NotCr (cr_to_lf s)
unfolding cr_to_lf
cr_to_lf-NotCr String.[] = tt
cr_to_lf-NotCr (String.◌∷◌ c s) = elim (Bool-cases (nat_beq (code c) 13)) [
  | inl e ↦ rw e (refl, cr_to_lf-NotCr s)
  | inr e ↦ rw e (e, cr_to_lf-NotCr s)
]

rstrip_lines-NotCr : (s : String) → Each NotCr s → Each NotCr (rstrip_lines s)
unfolding rstrip_lines
rstrip_lines-NotCr String.[] h = tt
rstrip_lines-NotCr (String.◌∷◌ c s) h =
    elim (Bool-cases (is_space (code c) && (not (nat_beq (code c) 10) && ends (rstrip_lines s)))) [
      | inl e ↦ rw e (rstrip_lines-NotCr s h.1)
      | inr e ↦ rw e (h.0, rstrip_lines-NotCr s h.1)
    ]

rstrip_lines-NotTrailing : (s : String) → Each NotTrailing (rstrip_lines s)
unfolding rstrip_lines
rstrip_lines-NotTrailing String.[] = tt
rstrip_lines-NotTrailing (String.◌∷◌ c s) =
    elim (Bool-cases (is_space (code c) && (not (nat_beq (code c) 10) && ends (rstrip_lines s)))) [
      | inl e ↦ rw e (rstrip_lines-NotTrailing s)
      | inr e ↦ rw e (e, rstrip_lines-NotTrailing s)
    ]

-- What ends where the newlines have gone ended before.
ends-rstrip_newlines : (s : String) → ends (rstrip_newlines s) ≡ true → ends s ≡ true
unfolding rstrip_newlines
ends-rstrip_newlines String.[] h = refl
ends-rstrip_newlines (String.◌∷◌ c s) h = ground (arith, h)

module _ (P : Char → String → Type 0)
    (kept : (c : Char) (s : String) → P c s → P c (rstrip_newlines s)) where
  rstrip_newlines-Each : (s : String) → Each P s → Each P (rstrip_newlines s)
  unfolding rstrip_newlines
  rstrip_newlines-Each String.[] h = tt
  rstrip_newlines-Each (String.◌∷◌ c s) h =
      elim (Bool-cases (nat_beq (code c) 10 && no_chars (rstrip_newlines s))) [
        | inl e ↦ rw e tt
        | inr e ↦ rw e (kept c s h.0, rstrip_newlines-Each s h.1)
      ]

rstrip_newlines-NotLast : (s : String) → Each NotLast (rstrip_newlines s)
unfolding rstrip_newlines
rstrip_newlines-NotLast String.[] = tt
rstrip_newlines-NotLast (String.◌∷◌ c s) =
    elim (Bool-cases (nat_beq (code c) 10 && no_chars (rstrip_newlines s))) [
      | inl e ↦ rw e tt
      | inr e ↦ rw e (e, rstrip_newlines-NotLast s)
    ]

NotTrailing-kept : (c : Char) (s : String) → NotTrailing c s → NotTrailing c (rstrip_newlines s)
NotTrailing-kept c s h = elim (Bool-cases (ends (rstrip_newlines s))) [
  | inl e ↦ rw (e, sym (ends-rstrip_newlines s e)) h
  | inr e ↦ ground (arith, e)
]

crlf_to_lf_same : (s : String) → Each NotCr s → crlf_to_lf s ≡ s
unfolding crlf_to_lf
crlf_to_lf_same String.[] h = refl
crlf_to_lf_same (String.◌∷◌ c s) h = rw h.0 (ap (String.◌∷◌ c) (crlf_to_lf_same s h.1))

cr_to_lf_same : (s : String) → Each NotCr s → cr_to_lf s ≡ s
unfolding cr_to_lf
cr_to_lf_same String.[] h = refl
cr_to_lf_same (String.◌∷◌ c s) h = rw h.0 (ap (String.◌∷◌ c) (cr_to_lf_same s h.1))

rstrip_lines_same : (s : String) → Each NotTrailing s → rstrip_lines s ≡ s
unfolding rstrip_lines
rstrip_lines_same String.[] h = refl
rstrip_lines_same (String.◌∷◌ c s) h = simp (rstrip_lines_same s h.1, h.0)

rstrip_newlines_same : (s : String) → Each NotLast s → rstrip_newlines s ≡ s
unfolding rstrip_newlines
rstrip_newlines_same String.[] h = refl
rstrip_newlines_same (String.◌∷◌ c s) h = simp (rstrip_newlines_same s h.1, h.0)

-- No carriage return, no white space at the end of a line, and no newline at the end.
abbrev pub IsTidy : String → Type 0
IsTidy s = Each NotCr s × Each NotTrailing s × Each NotLast s

pub normalize_text-IsTidy : (s : String) → IsTidy (normalize_text s)
unfolding normalize_text
normalize_text-IsTidy s =
    let lines = cr_to_lf (crlf_to_lf s) in
    let stripped = rstrip_lines lines in
    (
      rstrip_newlines-Each NotCr (λ c u h. h) stripped
          (rstrip_lines-NotCr lines (cr_to_lf-NotCr (crlf_to_lf s))),
      rstrip_newlines-Each NotTrailing NotTrailing-kept stripped (rstrip_lines-NotTrailing lines),
      rstrip_newlines-NotLast stripped,
    )

pub normalize_text_same : (s : String) → IsTidy s → normalize_text s ≡ s
unfolding normalize_text
normalize_text_same s (no_cr, no_blank, no_end) =
    rw
      (
        crlf_to_lf_same s no_cr,
        cr_to_lf_same s no_cr,
        rstrip_lines_same s no_blank,
        rstrip_newlines_same s no_end,
      )
      refl

-- The text with Windows line ends
unfoldable pub with_crlf : String → String
with_crlf String.[] = String.[]
with_crlf (String.◌∷◌ c s) =
    let rest = with_crlf s in
    if nat_beq (code c) 10 then String.◌∷◌ "\r" (String.◌∷◌ c rest) else String.◌∷◌ c rest

crlf_to_lf-with_crlf : (s : String) → Each NotCr s → crlf_to_lf (with_crlf s) ≡ s
unfolding crlf_to_lf with_crlf
crlf_to_lf-with_crlf String.[] h = refl
crlf_to_lf-with_crlf (String.◌∷◌ c s) h = elim (Bool-cases (nat_beq (code c) 10)) [
  | inl e ↦ simp (e, h.0, crlf_to_lf-with_crlf s h.1)
  | inr e ↦ simp (e, h.0, crlf_to_lf-with_crlf s h.1)
]

pub normalize_text-with_crlf :
    (s : String) → Each NotCr s → normalize_text (with_crlf s) ≡ normalize_text s
unfolding normalize_text
normalize_text-with_crlf s h = rw (crlf_to_lf-with_crlf s h, crlf_to_lf_same s h) refl

pub normalize_text_again : (s : String) → normalize_text (normalize_text s) ≡ normalize_text s
normalize_text_again s = normalize_text_same (normalize_text s) (normalize_text-IsTidy s)
