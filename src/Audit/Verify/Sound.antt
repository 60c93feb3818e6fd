-- ===== src/Audit/Verify/Sound.antt =====
-- What `verify_chain` accepts.
use content_ops.Prelude.{
  length, ℕ, ◌+◌, ◌≤◌, String, ◌≡◌, refl, sym, ap, ◌∙◌, subst, ◌↔◌, Option, none, some, List, [],
  ◌∷◌, ◌++◌, arith,
}
use content_ops.Audit.Record.{string, Codec, zero_hash}
use content_ops.Audit.Tail.{Content, unreadable, undecodable, content, AuditFile, Log}
use content_ops.Audit.Verify.{
  Walk, start, verify_line, and_then, verify_lines, verify_file, verify_files, verify_chain,
}
use content_ops.Audit.Verify.View.{
  view, IsChain, lines_of_file, Decodes, IsDecodable, lines_of, end_hash, end_time, IsChain-append,
  IsChain-split, end_hash-append, end_time-append,
}
use content_ops.Audit.Verify.Lines.{after, line_accepted, line_rejected}

and_then-eq-some :
    (m : Option Walk) (f : Walk → Option Walk) {w' : Walk}
    → and_then m f ≡ some w'
    → (w : Walk) × (m ≡ some w) × (f w ≡ some w')
and_then-eq-some none f e = cc
and_then-eq-some (some w) f e = (w, refl, e)

module _ (c : Codec) where
  -- The walk came to `w'` from `w` over these lines without a break.
  abbrev Passed : List c.Line → Walk → Walk → Type 0
  Passed ls w w' =
      (length w'.breaks ≡ length w.breaks)
      × (w'.expected_prev ≡ end_hash c w.expected_prev ls)
      × (w'.prev_timestamp ≡ end_time c w.prev_timestamp ls)

  lines_accepted :
      (file : String) (ls : List c.Line) (ln : ℕ) (w : Walk)
      → IsChain c w.expected_prev w.prev_timestamp ls
      → (w' : Walk) × (verify_lines c file ln ls w ≡ some w') × Passed ls w w'
  unfolding verify_lines
  lines_accepted file [] ln w h = (w, refl, (refl, refl, refl))
  lines_accepted file (l ∷ ls) ln w h =
      let (n, e) = line_accepted c file ln l w h.0 in
      let (w', e', p) = lines_accepted file ls (ln + 1) (after c file ln w (view c l) n) h.1 in
      (w', rw e e', p)

  lines_rejected :
      (file : String) (ls : List c.Line) (ln : ℕ) (w w' : Walk)
      → verify_lines c file ln ls w ≡ some w'
      → (length w.breaks ≤ length w'.breaks)
        × (length w'.breaks ≡ length w.breaks → IsChain c w.expected_prev w.prev_timestamp ls)
  unfolding verify_lines
  lines_rejected file [] ln w w' e = ground arith
  lines_rejected file (l ∷ ls) ln w w' e =
      let (w1, e1, e2) = and_then-eq-some (verify_line c file ln l w) _ e in
      let (le1, first) = line_rejected c file ln l w w1 e1 in
      let (le2, later) = lines_rejected file ls (ln + 1) w1 w' e2 in
      (
        omega arith,
        λ same.
            let follows = first (omega arith) in
            let (n, e1') = line_accepted c file ln l w follows in
            let known : w1 ≡ after c file ln w (view c l) n = cc (e1, e1') in
            (
              follows,
              subst (λ (x : Walk). IsChain c x.expected_prev x.prev_timestamp ls) known
                  (later (omega arith)),
            ),
      )

  content_accepted :
      (name : String) (l : Content c.Line) (w : Walk)
      → Decodes c l
      → IsChain c w.expected_prev w.prev_timestamp (lines_of_file c l)
      → (w' : Walk) × (verify_file c (record { name = name; lines = l }) w ≡ some w')
        × Passed (lines_of_file c l) w w'
  unfolding verify_file
  content_accepted name unreadable w d h = (w, refl, (refl, refl, refl))
  content_accepted name undecodable w d h = absurd d
  content_accepted name (content lines ended) w d h = lines_accepted name lines 1 w h

  file_accepted :
      (f : AuditFile c) (w : Walk)
      → Decodes c f.lines
      → IsChain c w.expected_prev w.prev_timestamp (lines_of_file c f.lines)
      → (w' : Walk) × (verify_file c f w ≡ some w') × Passed (lines_of_file c f.lines) w w'
  file_accepted f w d h = content_accepted f.name f.lines w d h

  content_rejected :
      (name : String) (l : Content c.Line) (w w' : Walk)
      → verify_file c (record { name = name; lines = l }) w ≡ some w'
      → Decodes c l
        × (length w.breaks ≤ length w'.breaks)
        × (length w'.breaks ≡ length w.breaks
            → IsChain c w.expected_prev w.prev_timestamp (lines_of_file c l))
  unfolding verify_file
  content_rejected name unreadable w w' e = (tt, ground arith, λ _. tt)
  content_rejected name undecodable w w' e = cc
  content_rejected name (content lines ended) w w' e =
      let (le, chain) = lines_rejected name lines 1 w w' e in (tt, le, chain)

  file_rejected :
      (f : AuditFile c) (w w' : Walk)
      → verify_file c f w ≡ some w'
      → Decodes c f.lines
        × (length w.breaks ≤ length w'.breaks)
        × (length w'.breaks ≡ length w.breaks
            → IsChain c w.expected_prev w.prev_timestamp (lines_of_file c f.lines))
  file_rejected f w w' e = content_rejected f.name f.lines w w' e

  Passed-append :
      (xs ys : List c.Line) (w w1 w2 : Walk)
      → Passed xs w w1
      → Passed ys w1 w2
      → Passed (xs ++ ys) w w2
  Passed-append xs ys w w1 w2 p q = (
    q.0 ∙ p.0,
    q.1 ∙ ap (λ h. end_hash c h ys) p.1 ∙ sym (end_hash-append c xs ys w.expected_prev),
    q.2 ∙ ap (λ t. end_time c t ys) p.2 ∙ sym (end_time-append c xs ys w.prev_timestamp),
  )

  -- A walk that passed goes on as the lines end.
  from_end :
      (xs ys : List c.Line) (w w1 : Walk)
      → Passed xs w w1
      → IsChain c (end_hash c w.expected_prev xs) (end_time c w.prev_timestamp xs) ys
      → IsChain c w1.expected_prev w1.prev_timestamp ys
  from_end xs ys w w1 p h =
      subst (λ h. IsChain c h w1.prev_timestamp ys) (sym p.1)
        (subst (λ t. IsChain c (end_hash c w.expected_prev xs) t ys) (sym p.2) h)

  to_end :
      (xs ys : List c.Line) (w w1 : Walk)
      → Passed xs w w1
      → IsChain c w1.expected_prev w1.prev_timestamp ys
      → IsChain c (end_hash c w.expected_prev xs) (end_time c w.prev_timestamp xs) ys
  to_end xs ys w w1 p h =
      subst (λ h. IsChain c h (end_time c w.prev_timestamp xs) ys) p.1
        (subst (λ t. IsChain c w1.expected_prev t ys) p.2 h)

  files_accepted :
      (log : Log c) (w : Walk)
      → IsDecodable c log
      → IsChain c w.expected_prev w.prev_timestamp (lines_of c log)
      → (w' : Walk) × (verify_files c log w ≡ some w') × Passed (lines_of c log) w w'
  unfolding verify_files
  files_accepted [] w d h = (w, refl, (refl, refl, refl))
  files_accepted (f ∷ rest) w d h =
      let xs = lines_of_file c f.lines in
      let ys = lines_of c rest in
      let (first, later) = IsChain-split c xs ys w.expected_prev w.prev_timestamp h in
      let (w1, e1, p1) = file_accepted f w d.0 first in
      let (w2, e2, p2) = files_accepted rest w1 d.1 (from_end xs ys w w1 p1 later) in
      (w2, rw e1 e2, Passed-append xs ys w w1 w2 p1 p2)

  files_rejected :
      (log : Log c) (w w' : Walk)
      → verify_files c log w ≡ some w'
      → IsDecodable c log
        × (length w.breaks ≤ length w'.breaks)
        × (length w'.breaks ≡ length w.breaks
            → IsChain c w.expected_prev w.prev_timestamp (lines_of c log))
  unfolding verify_files
  files_rejected [] w w' e = (tt, ground arith, λ _. tt)
  files_rejected (f ∷ rest) w w' e =
      let xs = lines_of_file c f.lines in
      let ys = lines_of c rest in
      let (w1, e1, e2) = and_then-eq-some (verify_file c f w) _ e in
      let (d1, le1, first) = file_rejected f w w1 e1 in
      let (d2, le2, later) = files_rejected rest w1 w' e2 in
      (
        (d1, d2),
        omega arith,
        λ same.
            let chain = first (omega arith) in
            let (wa, ea, pa) = file_accepted f w d1 chain in
            let known : wa ≡ w1 = cc (e1, ea) in
            let p1 = subst (λ (x : Walk). Passed xs w x) known pa in
            IsChain-append c xs ys w.expected_prev w.prev_timestamp chain
              (to_end xs ys w w1 p1 (later (omega arith))),
      )

  -- `verify_chain` returns and reports no break exactly if the files that can be read are UTF-8, each
  -- record of them, in their order, has the digest of its other fields for `record_hash`, the
  -- `record_hash` of the record before it for `prev_hash` (the zero hash for the first), and no
  -- earlier timestamp, and every other line is blank.
  pub verify_chain_exact :
      (log : Log c)
      → ((w : Walk) × (verify_chain c log ≡ some w) × (length w.breaks ≡ 0))
        ↔ (IsDecodable c log × IsChain c (string zero_hash) "" (lines_of c log))
  unfolding verify_chain
  verify_chain_exact log = (
    λ (w, e, clean). let (d, le, chain) = files_rejected log start w e in (d, chain clean),
    λ (d, chain). let (w, e, p) = files_accepted log start d chain in (w, e, p.0),
  )
