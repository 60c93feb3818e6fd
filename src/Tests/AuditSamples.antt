-- ===== src/Tests/AuditSamples.antt =====
-- A codec with which the audit module runs: a line is the dictionary itself, an instant is written
-- in unary, and a digest is read off the timestamp.
use Prim.Native.Char.{Char}
use text.Mathlib.TextEquality.{eq_iff}
use content_ops.Prelude.{
  Bool-cases, ◌==◌, nonempty, All, Dict, get, lex_ltb, text_ltb, ℕ, zero, suc, ◌+◌, ◌<◌, String,
  ◌≡◌, refl, ap, inl, inr, true, false, Option, none, some, List, [], ◌∷◌, map, arith, string_eq,
  nat_eq, option_eq, pair_eq, option_eq, pair_eq,
}
use content_ops.Audit.Record.{Json, object, Codec, AuditRecord, zero_hash, to_json, IsCodec}
use content_ops.Audit.Chain.{chain_records}
use content_ops.Audit.Chain.Times.{HasRoom}
use content_ops.Audit.Tail.{content, text_or_empty, Log}

abbrev pub ticks : ℕ → String
ticks zero = "t"
ticks (suc n) = String.◌∷◌ "t" (ticks n)

abbrev pub count : String → ℕ
count String.[] = 0
count (String.◌∷◌ c s) = suc (count s)

abbrev pub read_ticks : String → Option ℕ
read_ticks String.[] = none
read_ticks (String.◌∷◌ c s) = some (count s)

abbrev pub sample_codec : Codec
sample_codec = record {
  Line = Dict String Json;
  is_blank = λ d. false;
  dumps = λ d. d;
  loads = object;
  sha256_hex = λ d. String.◌∷◌ "h" (text_or_empty (get "timestamp" d));
  str = λ j. text_or_empty (some j);
  parse_time = read_ticks;
  format_time = ticks;
  joined = λ d e. e;
  first_time = 0;
  last_time = 99;
}

cons_nonempty : (c : Char) (s : String) → nonempty (String.◌∷◌ c s) ≡ true
cons_nonempty c s = elim (Bool-cases (String.◌∷◌ c s == "")) [
  | inl e ↦ absurd (omega (arith, ap count ((eq_iff (String.◌∷◌ c s) "").0 e)))
  | inr e ↦ rw e refl
]

count-ticks : (t : ℕ) → count (ticks t) ≡ t + 1
count-ticks zero = omega arith
count-ticks (suc n) = omega (arith, count-ticks n)

read-ticks : (t : ℕ) → read_ticks (ticks t) ≡ some t
read-ticks zero = refl
read-ticks (suc n) = ap some (omega (arith, count-ticks n))

ticks-nonempty : (t : ℕ) → nonempty (ticks t) ≡ true
ticks-nonempty zero = refl
ticks-nonempty (suc n) = cons_nonempty "t" (ticks n)

ticks_lt : (t u : ℕ) → t < u → text_ltb (ticks t) (ticks u) ≡ true
unfolding text_ltb lex_ltb
ticks_lt t zero h = absurd (omega (arith, h))
ticks_lt zero (suc zero) h = refl
ticks_lt zero (suc (suc u)) h = refl
ticks_lt (suc t) (suc u) h = ticks_lt t u (omega (arith, h))

pub sample_laws : IsCodec sample_codec
sample_laws = record {
  loads-dumps = λ r. refl;
  dumps_not_blank = λ r. refl;
  sha256_nonempty = λ l. cons_nonempty "h" _;
  parse-format = λ t i. read-ticks t;
  format_nonempty = ticks-nonempty;
  format_lt = λ t u i j. ticks_lt t u;
}

abbrev pub sample_record : (ticks : String) → (id : String) → AuditRecord
sample_record timestamp id = record {
  timestamp = timestamp;
  asset = "sentinel_analytic";
  id = id;
  action = "update";
  status = "success";
  sha = "abc";
  actor = "ci";
  workflow_run = none;
  message = none;
  metadata_owner = none;
  workspace = some "law-prod";
  snippet_digest = none;
  prev_hash = zero_hash;
  record_hash = "";
}

-- Two records, the second with a clock reading before the first
abbrev pub sample_records : List AuditRecord
sample_records = sample_record "tt" "rule-a" ∷ sample_record "t" "rule-b" ∷ []

pub sample_records-HasRoom : All (λ r. HasRoom sample_codec 2 r.timestamp) sample_records
sample_records-HasRoom =
    ((1, omega arith, omega arith, refl), ((0, omega arith, omega arith, refl), tt))

abbrev pub chain_of : Option (List AuditRecord) → List AuditRecord
chain_of none = []
chain_of (some chained) = chained

-- A file with one record that starts the chain
abbrev pub sample_log : Log sample_codec
sample_log =
    record {
      name = "2026-05-01.jsonl";
      lines =
          content
            (map (to_json sample_codec) (
              chain_of (chain_records sample_codec (sample_record "t" "rule-c" ∷ []) zero_hash "")))
            true;
    }
    ∷ []

abbrev pub empty_log : Log sample_codec
empty_log = []
