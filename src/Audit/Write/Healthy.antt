-- ===== src/Audit/Write/Healthy.antt =====
-- One writer and the verifier agree: what `write_records` leaves is a chain that `verify_chain`
-- accepts.
use mathlib.Core.List.{append-nil, append_assoc}
use content_ops.Prelude.{
  ◌==◌, ==_refl, length, All, text_ltb, sorted, ℕ, String, ◌≡◌, refl, sym, ap, ◌∙◌, subst, ◌⊎◌, inl,
  inr, true, false, none, some, List, [], ◌∷◌, ◌++◌, map, arith, string_eq, nat_eq, option_eq,
  pair_eq, option_eq, pair_eq,
}
use content_ops.Audit.Record.{Json, string, Codec, AuditRecord, zero_hash, to_json, IsCodec}
use content_ops.Audit.Tail.{
  Tail, not_found, found, attribute_error, decode_error, content, AuditFile, Log, tail_of_lines,
}
use content_ops.Audit.Chain.Times.{HasRoom, IsTime, HasRoom-IsTime, chain_times}
use content_ops.Audit.Verify.View.{
  IsChain, lines_of_file, IsDecodable, lines_of, end_hash, end_time, IsChain-append,
  end_hash-append, end_time-append,
}
use content_ops.Audit.Verify.{Walk, verify_chain}
use content_ops.Audit.Chain.{chain_records}
use content_ops.Audit.Verify.Sound.{verify_chain_exact}
use content_ops.Audit.Chain.Links.{chain_records_links}
use content_ops.Audit.Write.{
  written, tail_hash, tail_timestamp, failure, Views, existing_bytes, with_new, replace_file,
  write_records,
}
use content_ops.Audit.Write.Lines.{
  Agrees, tail-append, tail_of_log, new-IsChain, new-Agrees, new-IsTime,
}

module _ (c : Codec) where
  -- Lines that `verify_chain` accepts and that the writer can go on from.
  pub record IsSound (ls : List c.Line) : Type 0 where
    pub chain : IsChain c (string zero_hash) "" ls
    pub agrees : Agrees (tail_of_lines c ls) (end_hash c (string zero_hash) ls) (end_time c "" ls)
    pub time : (end_time c "" ls ≡ "") ⊎ IsTime c (end_time c "" ls)

  abbrev pub IsHealthy : Log c → Type 0
  IsHealthy log = IsDecodable c log × IsSound (lines_of c log)

  -- No file stands behind today's in the order of names, and today's can be read and ends with a
  -- newline.
  pub data IsToday (today : String) : Log c → Type 0 where
    absent : IsToday today []
    last :
        {f : AuditFile c} (lines : List c.Line)
        → (f.name == today) ≡ true
        → f.lines ≡ content lines true
        → IsToday today (f ∷ [])
    later :
        {f : AuditFile c} {rest : Log c}
        → (f.name == today) ≡ false
        → text_ltb today f.name ≡ false
        → IsToday today rest
        → IsToday today (f ∷ rest)

  -- Nobody else writes during the call.
  abbrev pub alone : Log c → Views c
  alone log = record { at_tail = log; at_existing = log; at_check = log; at_replace = log }

  with_new-ended :
      (existing new : List c.Line)
      → with_new c (content existing true) new ≡ some (content (existing ++ new) true)
  unfolding with_new
  with_new-ended existing [] = ap (λ l. some (content l true)) (sym (append-nil existing))
  with_new-ended existing (l ∷ new) = refl

  replaced :
      (today : String) (log : Log c) (new : List c.Line)
      → IsToday today log
      → IsDecodable c log
      → (existing : List c.Line) × (existing_bytes c today log ≡ content existing true)
        × IsDecodable c (replace_file c today (content (existing ++ new) true) log)
        × (lines_of c (replace_file c today (content (existing ++ new) true) log)
            ≡ lines_of c log ++ new)
  unfolding existing_bytes replace_file
  replaced today _ new absent d = ([], refl, (tt, tt), append-nil new)
  replaced today _ new (last {f = f} lines same read) d = (
    lines,
    ground arith,
    rw same (tt, tt),
    rw same (
        append-nil (lines ++ new)
        ∙ ap (λ l. l ++ new) (sym (append-nil lines))
        ∙ ap (λ o. (lines_of_file c o ++ []) ++ new) (sym read)),
  )
  replaced today _ new (later {f = f} {rest = rest} differs sorted h) d =
      let (existing, read, decodable, lines) = replaced today rest new h d.1 in
      (
        existing,
        ground arith,
        rw (differs, sorted) (d.0, decodable),
        rw (differs, sorted)
            (ap (λ l. lines_of_file c f.lines ++ l) lines
              ∙ sym (append_assoc (lines_of_file c f.lines) (lines_of c rest) new)),
      )

  -- What a tail says where it agrees with the end of a walk.
  agreed_hash :
      (tail : Tail) (p : Json) (t : String) → Agrees tail p t → p ≡ string (tail_hash tail)
  agreed_hash not_found p t a = a.0
  agreed_hash (found h ts) p t a = a.0
  agreed_hash attribute_error p t a = absurd a
  agreed_hash decode_error p t a = absurd a

  agreed_time : (tail : Tail) (p : Json) (t : String) → Agrees tail p t → t ≡ tail_timestamp tail
  agreed_time not_found p t a = a.1
  agreed_time (found h ts) p t a = a.1
  agreed_time attribute_error p t a = absurd a
  agreed_time decode_error p t a = absurd a

  agreed_ok : (tail : Tail) (p : Json) (t : String) → Agrees tail p t → failure tail ≡ none
  agreed_ok not_found p t a = refl
  agreed_ok (found h ts) p t a = refl
  agreed_ok attribute_error p t a = absurd a
  agreed_ok decode_error p t a = absurd a

  without_room : (ts : String) (n : ℕ) → (ts ≡ "") ⊎ HasRoom c n ts → (ts ≡ "") ⊎ IsTime c ts
  without_room ts n (inl e) = inl e
  without_room ts n (inr room) = inr (HasRoom-IsTime c n ts room)

  -- The chained batch behind lines that end in the hash `h` and the timestamp `ts`.
  grown :
      (laws : IsCodec c) (records : List AuditRecord) (ls : List c.Line) (h ts : String)
      → IsChain c (string zero_hash) "" ls
      → end_hash c (string zero_hash) ls ≡ string h
      → end_time c "" ls ≡ ts
      → Agrees (tail_of_lines c ls) (string h) ts
      → (ts ≡ "") ⊎ HasRoom c (length records) ts
      → All (λ r. HasRoom c (length records) r.timestamp) records
      → (chained : List AuditRecord) × (chain_records c records h ts ≡ some chained)
        × IsSound (ls ++ map (to_json c) chained)
  grown laws records ls h ts chain hash_eq time_eq agrees time formatted =
      let (chained, made, increasing, kept, formatted') =
        chain_times c laws records h ts time formatted in
      let new = map (to_json c) chained in
      let (linked, given_same) = chain_records_links c records h ts chained made in
      let was_time : (ts ≡ "") ⊎ IsTime c ts = without_room ts (length records) time in
      (
        chained,
        made,
        record {
          chain = IsChain-append c ls new (string zero_hash) "" chain (
              rw (hash_eq, time_eq) (new-IsChain c laws chained h ts linked increasing formatted'));
          agrees =
              rw
                (
                  tail-append c ls new,
                  end_hash-append c ls new (string zero_hash),
                  end_time-append c ls new "",
                )
                (rw (hash_eq, time_eq)
                  (new-Agrees c laws chained (tail_of_lines c ls) h ts agrees linked formatted'));
          time =
              rw (end_time-append c ls new "", time_eq)
                (new-IsTime c laws chained ts was_time formatted');
        },
      )

  -- From a healthy log, a writer that nobody disturbs replaces today's file so that the lines of the
  -- log are the old ones and then the chained records of the batch, and the log is healthy again, so
  -- `verify_chain` reports no break. Today's file is the last one, can be read and ends with a
  -- newline; the timestamps of the records and of the log's last record are in the pipeline's format,
  -- with as many microseconds after them, before the end of the last year, as there are records.
  pub write_records-IsHealthy :
      (laws : IsCodec c) (today : String) (records : List AuditRecord) (log : Log c)
      → IsHealthy log
      → IsToday today log
      → (end_time c "" (lines_of c log) ≡ "")
        ⊎ HasRoom c (length records) (end_time c "" (lines_of c log))
      → All (λ r. HasRoom c (length records) r.timestamp) records
      → (log' : Log c) × (write_records c today records (alone log) ≡ written log')
        × IsHealthy log'
        × ((w : Walk) × (verify_chain c log' ≡ some w) × (length w.breaks ≡ 0))
  write_records-IsHealthy laws today records log (decodable, healthy) is_today room formatted =
      let ls = lines_of c log in
      let tail = tail_of_lines c ls in
      let h = tail_hash tail in
      let ts = tail_timestamp tail in
      let hash_eq = agreed_hash tail _ _ healthy.agrees in
      let time_eq = agreed_time tail _ _ healthy.agrees in
      let (chained, made, grown_sound) =
        grown laws records ls h ts healthy.chain hash_eq time_eq
          (rw (hash_eq, time_eq) at healthy.agrees) (rw time_eq at room) formatted in
      let new = map (to_json c) chained in
      let (existing, read, decodable', lines) = replaced today log new is_today decodable in
      let log' = replace_file c today (content (existing ++ new) true) log in
      let sound = subst IsSound (sym lines) grown_sound in
      let appended = with_new-ended existing new in
      (
        log',
        unfold write_records in
            ground (
              arith,
              tail_of_log c log decodable,
              agreed_ok tail _ _ healthy.agrees,
              made,
              read,
              appended,
              ==_refl (tail_hash tail),
            ),
        (decodable', sound),
        (verify_chain_exact c log').1 (decodable', sound.chain),
      )
