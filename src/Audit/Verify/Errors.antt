-- ===== src/Audit/Verify/Errors.antt =====
-- Where `verify_chain` raises instead of returning a result.
use content_ops.Prelude.{
  Option-cases, any_of, ℕ, ◌+◌, String, ◌≡◌, refl, inl, inr, Bool, true, false, ◌&&◌, not, Option,
  none, some, List, [], ◌∷◌, arith,
}
use content_ops.Audit.Record.{Parsed, non_object, Codec}
use content_ops.Audit.Tail.{Content, unreadable, undecodable, content, AuditFile, Log}
use content_ops.Audit.Verify.{
  Walk, start, verify_line, verify_lines, verify_file, verify_files, verify_chain,
}

abbrev pub is_none {ℓ} : {A : Type ℓ} → Option A → Bool
is_none none = true
is_none (some a) = false

abbrev pub is_non_object : Parsed → Bool
is_non_object non_object = true
is_non_object _ = false

module _ (c : Codec) where
  -- A line that is valid JSON and no object, such as `[]` or `17`.
  abbrev pub no_object : c.Line → Bool
  no_object line = not (c.is_blank line) && is_non_object (c.loads line)

  -- The file is not UTF-8, or has such a line.
  abbrev pub raising_file : Content c.Line → Bool
  raising_file unreadable = false
  raising_file undecodable = true
  raising_file (content lines ended) = any_of no_object lines

  line_raises :
      (file : String) (ln : ℕ) (line : c.Line) (w : Walk)
      → is_none (verify_line c file ln line w) ≡ no_object line
  unfolding verify_line
  line_raises file ln line w = ground arith

  lines_raise :
      (file : String) (ls : List c.Line) (ln : ℕ) (w : Walk)
      → is_none (verify_lines c file ln ls w) ≡ any_of no_object ls
  unfolding verify_lines any_of
  lines_raise file [] ln w = refl
  lines_raise file (l ∷ ls) ln w = elim (Option-cases (verify_line c file ln l w)) [
    | inl raised ↦ rw raised (ground (arith, line_raises file ln l w))
    | inr (w1, e) ↦ rw e (ground (arith, line_raises file ln l w, lines_raise file ls (ln + 1) w1))
  ]

  file_raises : (f : AuditFile c) (w : Walk) → is_none (verify_file c f w) ≡ raising_file f.lines
  unfolding verify_file any_of
  file_raises f w = by_content f.lines refl
    where
      by_content :
          (l : Content c.Line) → f.lines ≡ l → is_none (verify_file c f w) ≡ raising_file f.lines
      by_content unreadable e = rw (e, verify_file) refl
      by_content undecodable e = rw (e, verify_file) refl
      by_content (content lines ended) e = rw (e, verify_file) (lines_raise f.name lines 1 w)

  files_raise :
      (log : Log c) (w : Walk)
      → is_none (verify_files c log w) ≡ any_of (λ f. raising_file f.lines) log
  unfolding verify_files any_of
  files_raise [] w = refl
  files_raise (f ∷ rest) w = elim (Option-cases (verify_file c f w)) [
    | inl raised ↦ rw raised (ground (arith, file_raises f w))
    | inr (w1, e) ↦ rw e (ground (arith, file_raises f w, files_raise rest w1))
  ]

  -- `verify_chain` raises, with no result at all, exactly if some file that can be read is not UTF-8
  -- or has a line that is neither blank nor a JSON object nor refused by JSONDecodeError; every other
  -- damage to a line comes back as a break.
  pub verify_chain_raises :
      (log : Log c) → is_none (verify_chain c log) ≡ any_of (λ f. raising_file f.lines) log
  unfolding verify_chain
  verify_chain_raises log = files_raise log start
