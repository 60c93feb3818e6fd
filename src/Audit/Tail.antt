-- ===== src/Audit/Tail.antt =====
-- `_last_record_tail` of contentops/audit/writer.py, and the audit directory that it reads.
use content_ops.Prelude.{
  if◌then◌else◌, nonempty, Dict, get, String, Bool, Option, some, List, [], ◌∷◌, string_eq, nat_eq,
  option_eq, pair_eq, option_eq, pair_eq,
}
use content_ops.Audit.Record.{Json, string, malformed, object, non_object, Codec}

-- What the search for the last record meets. A line that is JSON but no object has no `.get`, and a
-- file that is not UTF-8 raises UnicodeDecodeError, which is no OSError.
pub data Tail : Type 0 where
  not_found : Tail
  found : (hash timestamp : String) → Tail
  attribute_error decode_error : Tail

-- The content of a file: reading it raises OSError; its bytes are not UTF-8; or its lines, as
-- `splitlines` gives them, and whether the last of them is ended by a newline.
pub data Content (Line : Type 0) : Type 0 where
  unreadable : Content Line
  undecodable : Content Line
  content : (lines : List Line) → (ended : Bool) → Content Line

-- `ts = rec.get("timestamp") or ""`, and "" for what is no text
abbrev pub text_or_empty : Option Json → String
text_or_empty (some (string s)) = s
text_or_empty _ = ""

unfoldable pub tail_of_fields : Dict String Json → Tail
tail_of_fields d = elim (get "record_hash" d) [
  | some (string h) ↦ if nonempty h then found h (text_or_empty (get "timestamp" d)) else not_found
  | _ ↦ not_found
]

-- The later line decides, unless it is passed over.
abbrev pub or_before : Tail → Tail → Tail
or_before not_found earlier = earlier
or_before later earlier = later

module _ (c : Codec) where
  -- A file of the audit directory
  pub record AuditFile : Type 0 where
    pub name : String
    pub lines : Content c.Line

  -- `sorted(audit_dir.glob("*.jsonl"))`: the files in the order of their names.
  abbrev pub Log : Type 0
  Log = List AuditFile

  unfoldable pub tail_of_line : c.Line → Tail
  unfolding tail_of_fields
  tail_of_line line = if c.is_blank line then not_found else elim (c.loads line) [
    | malformed ↦ not_found
    | object d ↦ tail_of_fields d
    | non_object ↦ attribute_error
  ]

  unfoldable pub tail_of_lines : List c.Line → Tail
  unfolding tail_of_line
  tail_of_lines [] = not_found
  tail_of_lines (line ∷ rest) = or_before (tail_of_lines rest) (tail_of_line line)

  abbrev pub tail_of_file : Content c.Line → Tail
  tail_of_file unreadable = not_found
  tail_of_file undecodable = decode_error
  tail_of_file (content lines ended) = tail_of_lines lines

  unfoldable pub last_record_tail : Log → Tail
  unfolding tail_of_lines
  last_record_tail [] = not_found
  last_record_tail (file ∷ rest) = or_before (last_record_tail rest) (tail_of_file file.lines)
