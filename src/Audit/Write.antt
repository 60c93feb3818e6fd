-- ===== src/Audit/Write.antt =====
-- `write_records` and `write_records_with_retry` of contentops/audit/writer.py. Other writers may
-- replace files between the steps, so the audit directory as it is at each step is an argument.
mod Lines
pub mod Healthy
pub mod Races
use content_ops.Prelude.{
  ltb, if◌then◌else◌, ◌==◌, text_ltb, ℕ, zero, suc, ◌+◌, String, true, false, Option, none, some,
  List, [], ◌∷◌, ◌++◌, map, string_eq, nat_eq, option_eq, pair_eq, option_eq, pair_eq,
}
use content_ops.Audit.Record.{Codec, AuditRecord, zero_hash, to_json}
use content_ops.Audit.Tail.{
  Tail, found, attribute_error, decode_error, Content, unreadable, undecodable, content, Log,
  last_record_tail,
}
use content_ops.Audit.Chain.{chain_records}

pub data WriteError : Type 0 where
  concurrent_write attribute_failure decode_failure overflow_failure : WriteError
  os_error value_error : WriteError

-- The directory after the call is the value, or the call raised and replaced nothing.
pub data Outcome {ℓ} (A : Type ℓ) : Type ℓ where
  written : A → Outcome A
  raised : WriteError → Outcome A

-- `_last_record_tail` returns `(ZERO_HASH, "")` where no record is found.
abbrev pub tail_hash : Tail → String
tail_hash (found h ts) = h
tail_hash _ = zero_hash

abbrev pub tail_timestamp : Tail → String
tail_timestamp (found h ts) = ts
tail_timestamp _ = ""

-- What `_last_record_tail` raises
abbrev pub failure : Tail → Option WriteError
failure attribute_error = some attribute_failure
failure decode_error = some decode_failure
failure _ = none

module _ (c : Codec) where
  -- The audit directory when the tail is read, when today's file is read, when the tail is read
  -- again, and when today's file is replaced.
  pub record Views : Type 0 where
    pub at_tail : Log c
    pub at_existing : Log c
    pub at_check : Log c
    pub at_replace : Log c

  -- The content of a file: none where there is no such file.
  unfoldable pub read_file : String → Log c → Option (Content c.Line)
  read_file name [] = none
  read_file name (f ∷ rest) = if f.name == name then some f.lines else read_file name rest

  -- `path.read_bytes() if path.exists() else b""`: no lines where there is no file
  unfoldable pub existing_bytes : String → Log c → Content c.Line
  unfolding read_file
  existing_bytes name log = elim (read_file name log) [ none ↦ content [] true | some l ↦ l ]

  -- Lines of which the last is not ended, with the first new line behind it
  unfoldable pub continue_last : List c.Line → c.Line → List c.Line
  continue_last [] new = new ∷ []
  continue_last (line ∷ []) new = c.joined line new ∷ []
  continue_last (line ∷ next ∷ lines) new = line ∷ continue_last (next ∷ lines) new

  -- `existing + new_bytes`, where each new line is ended: the first of them continues a last line
  -- that is not. None where reading raises OSError.
  unfoldable pub with_new : Content c.Line → List c.Line → Option (Content c.Line)
  unfolding continue_last
  with_new unreadable new = none
  with_new undecodable new = some undecodable
  with_new (content lines ended) [] = some (content lines ended)
  with_new (content lines true) (l ∷ new) = some (content (lines ++ l ∷ new) true)
  with_new (content lines false) (l ∷ new) = some (content (continue_last lines l ++ new) true)

  -- `os.replace(tmp, path)`: the file has this content, the directory stays in the order of names.
  unfoldable pub replace_file : String → Content c.Line → Log c → Log c
  replace_file name new [] = record { name = name; lines = new } ∷ []
  replace_file name new (f ∷ rest) =
      let later = replace_file name new rest in
      if f.name == name
      then record f { lines = new } ∷ rest
      else if text_ltb name f.name
      then record { name = name; lines = new } ∷ f ∷ rest
      else f ∷ later

  -- The content of the temporary file, and the guard before it replaces today's file.
  unfoldable pub guarded_replace :
      String
      → (predecessor : String) → Content c.Line
      → (at_check at_replace : Log c) → Outcome (Log c)
  unfolding replace_file last_record_tail
  guarded_replace today predecessor new at_check at_replace =
      let current = last_record_tail c at_check in
      elim (failure current) [
        | some e ↦ raised e
        | none ↦
            if tail_hash current == predecessor
            then written (replace_file today new at_replace)
            else raised concurrent_write
      ]

  unfoldable pub write_records : String → List AuditRecord → Views → Outcome (Log c)
  unfolding guarded_replace existing_bytes with_new chain_records to_json last_record_tail
  write_records today records v =
      let tail = last_record_tail c v.at_tail in
      elim (failure tail) [
        | some e ↦ raised e
        | none ↦ elim (chain_records c records (tail_hash tail) (tail_timestamp tail)) [
          | none ↦ raised overflow_failure
          | some chained ↦
              elim (with_new (existing_bytes today v.at_existing) (map (to_json c) chained)) [
                | none ↦ raised os_error
                | some new ↦ guarded_replace today (tail_hash tail) new v.at_check v.at_replace
              ]
        ]
      ]

  -- The loop over the attempts that are left; `nth` numbers them from 0, and `last` is what the
  -- attempt before raised.
  unfoldable pub attempts_from : ℕ → ℕ → String → List AuditRecord → (ℕ → Views) → Outcome (Log c)
  attempts_from zero nth today records views = raised concurrent_write
  attempts_from (suc left) nth today records views =
      let again = attempts_from left (nth + 1) today records views in
      elim (write_records today records (views nth)) [
        | raised concurrent_write ↦ again
        | outcome ↦ outcome
      ]

  unfoldable pub write_records_with_retry :
      ℕ → String → List AuditRecord → (ℕ → Views) → Outcome (Log c)
  unfolding attempts_from
  write_records_with_retry attempts today records views =
      if ltb attempts 1 then raised value_error else attempts_from attempts 0 today records views
