-- ===== src/Telemetry.antt =====
-- contentops/rule_keys.py: the keys of a rule, and the telemetry rows that they find. A row keeps the
-- columns that are read here; `number` stands for the identity of the row object. A text that is
-- missing or not a text is none. Parameters: `str.lower` and `str.strip`.
use Prim.Native.Char.{code}
use text.Mathlib.Text.{starts_with}
use content_ops.Prelude.{
  leb, nat_beq, if◌then◌else◌, ◌==◌, nonempty, truthy, keep, is_empty, contains, Dict, get, put, ℕ,
  zero, suc, ◌+◌, String, Bool, false, ◌&&◌, ◌||◌, not, Option, none, some, List, [], ◌∷◌, ◌++◌,
  string_eq, nat_eq, option_eq, pair_eq, option_eq, pair_eq,
}

abbrev pub slash : ℕ
slash = 47

unfoldable pub has_code : ℕ → String → Bool
has_code n String.[] = false
has_code n (String.◌∷◌ c s) = nat_beq (code c) n || has_code n s

-- `text.rstrip(c)`
unfoldable pub rstrip : ℕ → String → String
rstrip n String.[] = String.[]
rstrip n (String.◌∷◌ c s) =
    let rest = rstrip n s in
    if not (nonempty rest) && nat_beq (code c) n then String.[] else String.◌∷◌ c rest

-- `text.rsplit(c, 1)[-1]`
unfoldable pub after_last : ℕ → String → String
unfolding has_code
after_last n String.[] = String.[]
after_last n (String.◌∷◌ c s) =
    let rest = after_last n s in
    if has_code n s then rest else if nat_beq (code c) n then s else String.◌∷◌ c s

abbrev is_hex : ℕ → Bool
is_hex n = (leb 48 n && leb n 57) || (leb 65 n && leb n 70) || (leb 97 n && leb n 102)

-- What is left after so many hexadecimal digits and one character
unfoldable pub after_hex : ℕ → ℕ → String → Option String
after_hex n mark String.[] = none
after_hex zero mark (String.◌∷◌ c s) = if nat_beq (code c) mark then some s else none
after_hex (suc n) mark (String.◌∷◌ c s) =
    let rest = after_hex n mark s in if is_hex (code c) then rest else none

abbrev and_after : Option String → ℕ → ℕ → Option String
and_after none n mark = none
and_after (some s) n mark = after_hex n mark s

-- `_WORKSPACE_PREFIX`: the text behind `<guid>_`, if there is some and it is one line
unfoldable pub without_workspace : String → Option String
unfolding after_hex has_code
without_workspace text =
    elim (and_after (and_after (and_after (and_after (after_hex 8 45 text) 4 45) 4 45) 4 45) 12
      95) [
        | none ↦ none
        | some rest ↦ if nonempty rest && not (has_code 10 rest) then some rest else none
      ]

-- `text[n:]`
unfoldable pub drop_text : ℕ → String → String
drop_text zero s = s
drop_text (suc n) String.[] = String.[]
drop_text (suc n) (String.◌∷◌ c s) = drop_text n s

pub record RuleKeys : Type 0 where
  pub ids : List String
  pub names : List String

pub record Row : Type 0 where
  pub number : ℕ
  pub rule_key : String
  pub rule_name : Option String
  pub incidents_30d : Option ℕ
  pub closed_tp_30d : Option ℕ
  pub closed_fp_30d : Option ℕ
  pub closed_bp_30d : Option ℕ

pub record TelemetryIndex : Type 0 where
  pub by_id : Dict String (List Row)
  pub by_name : Dict String (List Row)
  pub by_id_row_name : Dict String (List Row)

-- `d.setdefault(k, []).append(row)`
unfoldable pub append_row : String → Row → Dict String (List Row) → Dict String (List Row)
unfolding get put
append_row k row d = elim (get k d) [
  | none ↦ put k (row ∷ []) d
  | some rows ↦ put k (rows ++ row ∷ []) d
]

abbrev named : Option String → Row → Dict String (List Row) → Dict String (List Row)
named none row d = d
named (some name) row d = append_row name row d

abbrev option_list : Option String → List String
option_list none = []
option_list (some s) = s ∷ []

unfoldable pub dedupe : List String → List String
unfolding contains
dedupe [] = []
dedupe (x ∷ xs) = x ∷ keep (λ y. not (y == x)) (dedupe xs)

-- `int(row.get(column) or 0)`
abbrev pub count : Option ℕ → ℕ
count none = 0
count (some n) = n

-- `sum(int(v or 0) for v in values)`, absent where all are
abbrev add_counts : Option ℕ → Option ℕ → Option ℕ
add_counts none none = none
add_counts none (some b) = some b
add_counts (some a) none = some a
add_counts (some a) (some b) = some (a + b)

-- `merge_rows`: the counts of the rows summed, the rest from the first
unfoldable pub merge_rows : Row → List Row → Row
merge_rows first [] = first
merge_rows first (row ∷ rows) =
    merge_rows
      (record first {
        incidents_30d = add_counts first.incidents_30d row.incidents_30d;
        closed_tp_30d = add_counts first.closed_tp_30d row.closed_tp_30d;
        closed_fp_30d = add_counts first.closed_fp_30d row.closed_fp_30d;
        closed_bp_30d = add_counts first.closed_bp_30d row.closed_bp_30d;
      })
      rows

abbrev rows_or_nil : Option (List Row) → List Row
rows_or_nil none = []
rows_or_nil (some rows) = rows

unfoldable pub rows_at : List String → Dict String (List Row) → List Row
unfolding get
rows_at [] d = []
rows_at (k ∷ ks) d = rows_or_nil (get k d) ++ rows_at ks d

-- `_unique`: each row once
unfoldable pub unique_rows : List Row → List Row
unfolding keep
unique_rows [] = []
unique_rows (r ∷ rows) = r ∷ keep (λ (s : Row). not (s.number == r.number)) (unique_rows rows)

unfoldable pub rows_for : TelemetryIndex → RuleKeys → List Row
unfolding rows_at unique_rows
rows_for index keys =
    let own = unique_rows (rows_at keys.ids index.by_id ++ rows_at keys.names index.by_name) in
    if is_empty own then unique_rows (rows_at keys.names index.by_id_row_name) else own

unfoldable pub lookup : TelemetryIndex → RuleKeys → Option Row
unfolding rows_for merge_rows
lookup index keys = elim (rows_for index keys) [
  | [] ↦ none
  | first ∷ rows ↦ some (merge_rows first rows)
]

abbrev or_segment : Option String → String → String
or_segment none segment = segment
or_segment (some rest) segment = rest

module _ (lower strip : String → String) where
  -- The last segment without its workspace prefix, in lower case
  unfoldable pub id_of : String → Option String
  unfolding without_workspace
  id_of segment =
      let id = or_segment (without_workspace segment) segment in
      if nonempty (lower id) then some (lower id) else none

  unfoldable pub normalise_rule_id : Option String → Option String
  unfolding rstrip after_last id_of
  normalise_rule_id none = none
  normalise_rule_id (some value) =
      let text = rstrip slash (strip value) in
      if nonempty text then id_of (after_last slash text) else none

  unfoldable pub normalise_rule_name : Option String → Option String
  normalise_rule_name none = none
  normalise_rule_name (some value) =
      let text = lower (strip value) in if nonempty text then some text else none

  -- One row in `TelemetryIndex.__init__`
  unfoldable pub index_row : Row → TelemetryIndex → TelemetryIndex
  unfolding append_row normalise_rule_name
  index_row row index =
      let name = normalise_rule_name row.rule_name in
      if starts_with row.rule_key "id:"
      then record index {
        by_id = append_row (drop_text 3 row.rule_key) row index.by_id;
        by_id_row_name = named name row index.by_id_row_name;
      }
      else if starts_with row.rule_key "name:"
      then record index { by_name = append_row (drop_text 5 row.rule_key) row index.by_name }
      else record index { by_name = named name row index.by_name }

  unfoldable pub index_rows : List Row → TelemetryIndex → TelemetryIndex
  unfolding index_row
  index_rows [] index = index
  index_rows (row ∷ rows) index = index_rows rows (index_row row index)

  abbrev name_list : List (Option String) → List String
  name_list [] = []
  name_list (v ∷ vs) = option_list (normalise_rule_name v) ++ name_list vs

  -- `rule_keys`, from the names in the order of the source
  unfoldable pub rule_keys :
      (arm_name envelope_id : Option String) → List (Option String) → RuleKeys
  unfolding normalise_rule_id normalise_rule_name dedupe
  rule_keys arm_name envelope_id names = record {
    ids = option_list (normalise_rule_id (if truthy arm_name then arm_name else envelope_id));
    names = dedupe (name_list names);
  }
