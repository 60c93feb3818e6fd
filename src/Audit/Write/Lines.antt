-- ===== src/Audit/Write/Lines.antt =====
-- The lines that `write_records` appends, and the tail of a log as that of its lines.
use content_ops.Prelude.{
  Bool-cases, nonempty, All, get, pop, text_ltb, text_asym, String, ◌≡◌, refl, sym, ap, ◌∙◌, ◌⊎◌,
  inl, inr, true, false, List, [], ◌∷◌, ◌++◌, map, string_eq, nat_eq, option_eq, pair_eq, option_eq,
  pair_eq,
}
use content_ops.Audit.Record.{
  Json, string, Codec, AuditRecord, zero_hash, fields, to_json_unhashed, to_json,
  compute_record_hash, IsCodec,
}
use content_ops.Audit.Tail.{
  Tail, not_found, found, attribute_error, decode_error, Content, unreadable, undecodable, content,
  or_before, Log, tail_of_line, tail_of_lines, tail_of_file, last_record_tail,
}
use content_ops.Audit.Chain.Links.{IsLinked}
use content_ops.Audit.Chain.Times.{IsIncreasing, IsTime}
use content_ops.Audit.Verify.{regresses, next_timestamp}
use content_ops.Audit.Verify.View.{
  entry, next_hash, next_time, digest, view, Follows, IsChain, lines_of_file, Decodes, IsDecodable,
  lines_of, end_hash, end_time,
}

or_before_assoc : (a b d : Tail) → or_before (or_before a b) d ≡ or_before a (or_before b d)
or_before_assoc not_found b d = refl
or_before_assoc (found h t) b d = refl
or_before_assoc attribute_error b d = refl
or_before_assoc decode_error b d = refl

or_before_nothing : (a : Tail) → or_before a not_found ≡ a
or_before_nothing not_found = refl
or_before_nothing (found h t) = refl
or_before_nothing attribute_error = refl
or_before_nothing decode_error = refl

-- The tail that the writer reads is where a walk over the lines ends.
abbrev pub Agrees : Tail → Json → String → Type 0
Agrees not_found p t = (p ≡ string zero_hash) × (t ≡ "")
Agrees (found h ts) p t = (p ≡ string h) × (t ≡ ts)
Agrees attribute_error p t = ⊥
Agrees decode_error p t = ⊥

module _ (c : Codec) where
  pub tail-append :
      (xs ys : List c.Line)
      → tail_of_lines c (xs ++ ys) ≡ or_before (tail_of_lines c ys) (tail_of_lines c xs)
  unfolding tail_of_lines
  tail-append [] ys = sym (or_before_nothing (tail_of_lines c ys))
  tail-append (x ∷ xs) ys =
      rw (tail-append xs ys) (or_before_assoc (tail_of_lines c ys) (tail_of_lines c xs) _)

  file_tail :
      (o : Content c.Line) → Decodes c o → tail_of_file c o ≡ tail_of_lines c (lines_of_file c o)
  unfolding tail_of_lines
  file_tail unreadable d = refl
  file_tail undecodable d = absurd d
  file_tail (content lines ended) d = refl

  pub tail_of_log :
      (log : Log c) → IsDecodable c log → last_record_tail c log ≡ tail_of_lines c (lines_of c log)
  unfolding last_record_tail tail_of_lines
  tail_of_log [] d = refl
  tail_of_log (f ∷ rest) d =
      rw (tail-append (lines_of_file c f.lines) (lines_of c rest))
        (cc (tail_of_log rest d.1, file_tail f.lines d.0))

module _ (c : Codec) (laws : IsCodec c) where
  open laws use {loads-dumps, dumps_not_blank, sha256_nonempty, format_nonempty}

  pub view-to_json :
      (r : AuditRecord)
      → view c (to_json c r) ≡ entry (fields r) (string r.prev_hash) (string r.record_hash)
  unfolding view to_json
  view-to_json r = rw (dumps_not_blank r, loads-dumps r) (unfold fields get in refl)

  digest-fields : (r : AuditRecord) → digest c (fields r) ≡ string (compute_record_hash c r)
  unfolding fields pop compute_record_hash
  digest-fields r = refl

  nonempty_time : (t : String) → IsTime c t → nonempty t ≡ true
  nonempty_time t (n, low, high, e) = rw e (format_nonempty n)

  not_earlier :
      (r : AuditRecord) (t : String)
      → (nonempty t ≡ true → text_ltb t r.timestamp ≡ true)
      → regresses (get "timestamp" (fields r)) t ≡ false
  unfolding fields get regresses
  not_earlier r t later = elim (Bool-cases (nonempty t)) [
    | inl some_time ↦ rw (some_time, text_asym t r.timestamp (later some_time)) refl
    | inr no_time ↦ rw no_time refl
  ]

  Follows-record :
      (r : AuditRecord) (prev t : String)
      → r.prev_hash ≡ prev
      → r.record_hash ≡ compute_record_hash c r
      → (nonempty t ≡ true → text_ltb t r.timestamp ≡ true)
      → Follows c (string prev) t (view c (to_json c r))
  Follows-record r prev t linked hashed later =
      rw (view-to_json r)
        (digest-fields r ∙ ap string (sym hashed), ap string linked, not_earlier r t later)

  hash_nonempty :
      (r : AuditRecord) → r.record_hash ≡ compute_record_hash c r → nonempty r.record_hash ≡ true
  unfolding compute_record_hash
  hash_nonempty r hashed = rw hashed (sha256_nonempty (to_json_unhashed c r))

  next_hash-record :
      (r : AuditRecord) (p : Json) → next_hash p (view c (to_json c r)) ≡ string r.record_hash
  next_hash-record r p = rw (view-to_json r) refl

  next_time-record :
      (r : AuditRecord) (t : String)
      → IsTime c r.timestamp
      → next_time t (view c (to_json c r)) ≡ r.timestamp
  next_time-record r t h =
      rw (view-to_json r)
        (unfold fields get next_timestamp in rw (nonempty_time r.timestamp h) refl)

  tail-record :
      (r : AuditRecord)
      → r.record_hash ≡ compute_record_hash c r
      → tail_of_line c (to_json c r) ≡ found r.record_hash r.timestamp
  unfolding tail_of_line to_json
  tail-record r hashed =
      rw (dumps_not_blank r, loads-dumps r) (unfold fields get in rw (hash_nonempty r hashed) refl)

  pub new-IsChain :
      (rs : List AuditRecord) (prev t : String)
      → IsLinked c prev rs
      → IsIncreasing t rs
      → All (λ r. IsTime c r.timestamp) rs
      → IsChain c (string prev) t (map (to_json c) rs)
  new-IsChain [] prev t l i h = tt
  new-IsChain (r ∷ rs) prev t (linked, hashed, l) (later, i) (formatted, h) = (
    Follows-record r prev t linked hashed later,
    rw (next_hash-record r (string prev), next_time-record r t formatted)
        (new-IsChain rs r.record_hash r.timestamp l i h),
  )

  end_hash-records :
      (r : AuditRecord) (rs : List AuditRecord) (p : Json)
      → end_hash c p (map (to_json c) (r ∷ rs))
        ≡ end_hash c (string r.record_hash) (map (to_json c) rs)
  end_hash-records r rs p = ap (λ h. end_hash c h (map (to_json c) rs)) (next_hash-record r p)

  end_time-records :
      (r : AuditRecord) (rs : List AuditRecord) (t : String)
      → IsTime c r.timestamp
      → end_time c t (map (to_json c) (r ∷ rs)) ≡ end_time c r.timestamp (map (to_json c) rs)
  end_time-records r rs t h = ap (λ u. end_time c u (map (to_json c) rs)) (next_time-record r t h)

  tail-records :
      (r : AuditRecord) (rs : List AuditRecord) (tail : Tail)
      → r.record_hash ≡ compute_record_hash c r
      → or_before (tail_of_lines c (map (to_json c) (r ∷ rs))) tail
        ≡ or_before (tail_of_lines c (map (to_json c) rs)) (found r.record_hash r.timestamp)
  unfolding tail_of_lines
  tail-records r rs tail hashed =
      or_before_assoc (tail_of_lines c (map (to_json c) rs)) (tail_of_line c (to_json c r)) tail
      ∙ ap (λ x. or_before (tail_of_lines c (map (to_json c) rs)) (or_before x tail))
          (tail-record r hashed)

  -- The new lines end the log where the writer reads its next tail.
  pub new-Agrees :
      (rs : List AuditRecord) (tail : Tail) (prev t : String)
      → Agrees tail (string prev) t
      → IsLinked c prev rs
      → All (λ r. IsTime c r.timestamp) rs
      → Agrees
          (or_before (tail_of_lines c (map (to_json c) rs)) tail)
          (end_hash c (string prev) (map (to_json c) rs))
          (end_time c t (map (to_json c) rs))
  new-Agrees [] tail prev t a l h = unfold tail_of_lines in a
  new-Agrees (r ∷ rs) tail prev t a (linked, hashed, l) (formatted, h) =
      rw (tail-records r rs tail hashed) (
        rw (end_hash-records r rs (string prev)) (
          rw (end_time-records r rs t formatted) (
            new-Agrees rs (found r.record_hash r.timestamp) r.record_hash r.timestamp (refl, refl) l
              h)))

  pub new-IsTime :
      (rs : List AuditRecord) (t : String)
      → (t ≡ "") ⊎ IsTime c t
      → All (λ r. IsTime c r.timestamp) rs
      → (end_time c t (map (to_json c) rs) ≡ "") ⊎ IsTime c (end_time c t (map (to_json c) rs))
  new-IsTime [] t p h = p
  new-IsTime (r ∷ rs) t p (formatted, h) =
      rw (end_time-records r rs t formatted) (new-IsTime rs r.timestamp (inr formatted) h)
