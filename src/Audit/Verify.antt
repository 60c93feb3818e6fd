-- ===== src/Audit/Verify.antt =====
-- `verify_chain` of contentops/audit/writer.py.
pub mod View
mod Lines
pub mod Errors
pub mod Sound
use content_ops.Prelude.{
  if◌then◌else◌, nonempty, Dict, get, pop, text_ltb, ℕ, ◌+◌, String, Bool, false, ◌&&◌, not, Option,
  none, some, List, [], ◌∷◌, ◌++◌, string_eq, nat_eq, option_eq, pair_eq, option_eq, pair_eq, ◌==◌,
}
use content_ops.Audit.Tail.{unreadable, undecodable, content, AuditFile, Log}
use content_ops.Audit.Record.{
  Json, string, json_beq, malformed, object, non_object, Codec, zero_hash,
}

pub data Reason : Type 0 where
  missing_field record_hash_invalid prev_hash_mismatch timestamp_regression : Reason

pub record ChainBreak : Type 0 where
  pub file : String
  pub line_number : ℕ
  pub expected_prev_hash : Json
  pub actual_prev_hash : Json
  pub reason : Reason

-- The variables of the walk.
pub record Walk : Type 0 where
  pub breaks : List ChainBreak
  pub records_verified : ℕ
  pub expected_prev : Json
  pub prev_timestamp : String

abbrev pub start : Walk
start = record {
  breaks = [];
  records_verified = 0;
  expected_prev = string zero_hash;
  prev_timestamp = "";
}

-- `isinstance(current_ts, str) and prev_timestamp and current_ts < prev_timestamp`
unfoldable pub regresses : Option Json → String → Bool
regresses (some (string current_ts)) prev_timestamp =
    nonempty prev_timestamp && text_ltb current_ts prev_timestamp
regresses _ prev_timestamp = false

unfoldable pub next_timestamp : Option Json → String → String
next_timestamp (some (string current_ts)) prev_timestamp =
    if nonempty current_ts then current_ts else prev_timestamp
next_timestamp _ prev_timestamp = prev_timestamp

abbrev pub break_at : String → ℕ → (expected actual : Json) → Reason → ChainBreak
break_at file ln expected actual reason = record {
  file = file;
  line_number = ln;
  expected_prev_hash = expected;
  actual_prev_hash = actual;
  reason = reason;
}

abbrev pub with_missing : String → ℕ → Walk → Json → Walk
with_missing file ln w actual = record w {
  breaks = w.breaks ++ break_at file ln w.expected_prev actual missing_field ∷ [];
}

-- `str(d.get("prev_hash", ""))`
abbrev pub str_or_empty : (Json → String) → Option Json → String
str_or_empty str none = ""
str_or_empty str (some j) = str j

unfoldable pub time_breaks :
    String → ℕ → Option Json → (actual expected : Json) → String → List ChainBreak
unfolding regresses
time_breaks file ln current actual expected prev_timestamp =
    if regresses current prev_timestamp
    then break_at file ln expected actual timestamp_regression ∷ []
    else []

module _ (c : Codec) (file : String) (ln : ℕ) where
  -- The hash is tested first: a tampered record is not also reported as spliced.
  unfoldable pub hash_breaks : Dict String Json → (actual stored expected : Json) → List ChainBreak
  hash_breaks d actual stored expected =
      let computed = string (c.sha256_hex (c.dumps (pop "record_hash" d))) in
      if not (json_beq computed stored)
      then break_at file ln expected actual record_hash_invalid ∷ []
      else if not (json_beq actual expected)
      then break_at file ln expected actual prev_hash_mismatch ∷ []
      else []

  -- A record that has both hashes.
  unfoldable pub verify_record : Dict String Json → (actual stored : Json) → Walk → Walk
  unfolding hash_breaks time_breaks next_timestamp
  verify_record d actual stored w =
      let current = get "timestamp" d in
      record {
        breaks =
            (w.breaks ++ hash_breaks d actual stored w.expected_prev)
            ++ time_breaks file ln current actual w.expected_prev w.prev_timestamp;
        records_verified = w.records_verified + 1;
        expected_prev = stored;
        prev_timestamp = next_timestamp current w.prev_timestamp;
      }

  unfoldable pub verify_object : Dict String Json → Walk → Walk
  unfolding verify_record
  verify_object d w = elim (get "record_hash" d) [
    | none ↦ with_missing file ln w (string (str_or_empty c.str (get "prev_hash" d)))
    | some stored ↦ elim (get "prev_hash" d) [
      | none ↦ with_missing file ln w (string "")
      | some actual ↦ verify_record d actual stored w
    ]
  ]

  -- One line; none where the code raises.
  unfoldable pub verify_line : c.Line → Walk → Option Walk
  unfolding verify_object
  verify_line line w = if c.is_blank line then some w else elim (c.loads line) [
    | malformed ↦ some (with_missing file ln w (string ""))
    | object d ↦ some (verify_object d w)
    | non_object ↦ none
  ]

abbrev pub and_then : Option Walk → (Walk → Option Walk) → Option Walk
and_then none f = none
and_then (some w) f = f w

module _ (c : Codec) where
  -- `enumerate(content.splitlines(), start=ln)`
  unfoldable pub verify_lines : String → ℕ → List c.Line → Walk → Option Walk
  unfolding verify_line
  verify_lines file ln [] w = some w
  verify_lines file ln (line ∷ rest) w =
      and_then (verify_line c file ln line w) (verify_lines file (ln + 1) rest)

  -- A file that cannot be read is passed over; one that is not UTF-8 raises UnicodeDecodeError.
  unfoldable pub verify_file : AuditFile c → Walk → Option Walk
  unfolding verify_lines
  verify_file f w = elim f.lines [
    | unreadable ↦ some w
    | undecodable ↦ none
    | content lines ended ↦ verify_lines f.name 1 lines w
  ]

  unfoldable pub verify_files : Log c → Walk → Option Walk
  unfolding verify_file
  verify_files [] w = some w
  verify_files (f ∷ rest) w = and_then (verify_file f w) (verify_files rest)

  unfoldable pub verify_chain : Log c → Option Walk
  unfolding verify_files
  verify_chain log = verify_files log start
