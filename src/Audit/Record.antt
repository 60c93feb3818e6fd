-- ===== src/Audit/Record.antt =====
-- AuditRecord of contentops/audit/writer.py, and what its module takes from Python's json, hashlib
-- and datetime.
use content_ops.Prelude.{
  ◌==◌, nonempty, Dict, text_ltb, ℕ, ◌≤◌, ◌<◌, String, ◌≡◌, Bool, true, false, Option, none, some,
  [], ◌∷◌, ◌++◌, string_eq, nat_eq, option_eq, pair_eq, option_eq, pair_eq,
}

-- A JSON value in an audit record: null, a text, or the text of any other value.
pub data Json : Type 0 where
  null : Json
  string : String → Json
  other : String → Json

unfoldable pub json_beq : Json → Json → Bool
json_beq null null = true
json_beq (string s) (string t) = s == t
json_beq (other s) (other t) = s == t
json_beq _ _ = false

-- What `json.loads` makes of a line: it raises JSONDecodeError, or returns a dict; `non_object` is any
-- other value, on which its users raise, and any other exception.
pub data Parsed : Type 0 where
  malformed : Parsed
  object : Dict String Json → Parsed
  non_object : Parsed

-- The parts of Python's library that the writer calls. A line of an audit file is what `json.dumps`
-- returns with compact separators, and `joined` is one text behind another. `parse_time` and
-- `format_time` are `strptime` and `strftime` at the pipeline's format, on a count of microseconds.
-- The years that both can write, with four digits, are the instants from `first_time` to
-- `last_time`.
pub record Codec : Type 1 where
  pub Line : Type 0
  pub is_blank : Line → Bool
  pub joined : Line → Line → Line
  pub dumps : Dict String Json → Line
  pub loads : Line → Parsed
  pub sha256_hex : Line → String
  pub str : Json → String
  pub parse_time : String → Option ℕ
  pub format_time : ℕ → String
  pub first_time : ℕ
  pub last_time : ℕ

pub record AuditRecord : Type 0 where
  pub timestamp : String
  pub asset : String
  pub id : String
  pub action : String
  pub status : String
  pub sha : String
  pub actor : String
  pub workflow_run : Option String
  pub message : Option String
  pub metadata_owner : Option String
  pub workspace : Option String
  pub snippet_digest : Option String
  pub prev_hash : String
  pub record_hash : String

abbrev pub zero_hash : String
zero_hash = "0000000000000000000000000000000000000000000000000000000000000000"

abbrev pub optional : Option String → Json
optional none = null
optional (some s) = string s

-- `asdict(self)` with `record_hash` removed, in the order of declaration
unfoldable pub unhashed_fields : AuditRecord → Dict String Json
unhashed_fields r =
    ("timestamp", string r.timestamp)
    ∷ ("asset", string r.asset)
    ∷ ("id", string r.id)
    ∷ ("action", string r.action)
    ∷ ("status", string r.status)
    ∷ ("sha", string r.sha)
    ∷ ("actor", string r.actor)
    ∷ ("workflow_run", optional r.workflow_run)
    ∷ ("message", optional r.message)
    ∷ ("metadata_owner", optional r.metadata_owner)
    ∷ ("workspace", optional r.workspace)
    ∷ ("snippet_digest", optional r.snippet_digest)
    ∷ ("prev_hash", string r.prev_hash)
    ∷ []

-- `asdict(self)`
unfoldable pub fields : AuditRecord → Dict String Json
unfolding unhashed_fields
fields r = unhashed_fields r ++ ("record_hash", string r.record_hash) ∷ []

module _ (c : Codec) where
  unfoldable pub to_json_unhashed : AuditRecord → c.Line
  to_json_unhashed r = c.dumps (unhashed_fields r)

  unfoldable pub to_json : AuditRecord → c.Line
  to_json r = c.dumps (fields r)

  unfoldable pub compute_record_hash : AuditRecord → String
  unfolding to_json_unhashed
  compute_record_hash r = c.sha256_hex (to_json_unhashed r)

  abbrev pub IsInstant : ℕ → Type 0
  IsInstant t = (c.first_time ≤ t) × (t ≤ c.last_time)

  -- The documented behaviour that the theorems rely on.
  pub record IsCodec : Type 0 where
    -- A record that `dumps` wrote is read back, key for key.
    pub loads-dumps : (r : AuditRecord) → c.loads (c.dumps (fields r)) ≡ object (fields r)
    pub dumps_not_blank : (r : AuditRecord) → c.is_blank (c.dumps (fields r)) ≡ false
    pub sha256_nonempty : (l : c.Line) → nonempty (c.sha256_hex l) ≡ true
    -- Timestamps of one format sort as the instants that they write.
    pub parse-format : (t : ℕ) → IsInstant t → c.parse_time (c.format_time t) ≡ some t
    pub format_nonempty : (t : ℕ) → nonempty (c.format_time t) ≡ true
    pub format_lt :
        (t u : ℕ)
        → IsInstant t
        → IsInstant u
        → t < u
        → text_ltb (c.format_time t) (c.format_time u) ≡ true
