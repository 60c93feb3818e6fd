-- ===== src/Lifecycle/Stamp.antt =====
-- contentops/lifecycle.py, `_rewrite_status_to_production` and `_stamp_promotion`. A text is the
-- list of its lines, `text.split("\n")`: the last one is empty where the text ends with a newline.
-- `_LIFECYCLE_BLOCK_RE` has the flag (?s), so that from a block's first line its match reaches to
-- the last newline of the text; what is inserted behind the match stands before the last line.
pub mod Again
use Prim.Native.Char.{code}
use Prim.Native.String
use content_ops.Prelude.{
  nat_beq, if◌then◌else◌, is_space, ◌==◌, nonempty, option_beq, any_of, is_empty, last?, ℕ, String,
  Bool, true, false, ◌&&◌, ◌||◌, not, Option, none, some, List, [], ◌∷◌, ◌++◌, string_eq, nat_eq,
  option_eq, pair_eq, option_eq, pair_eq,
}

-- Texts, one after the other
unfoldable pub join : String → String → String
join String.[] t = t
join (String.◌∷◌ c s) t = String.◌∷◌ c (join s t)

-- `[ \t]`
abbrev pub is_blank : ℕ → Bool
is_blank n = n == 32 || n == 9

-- `[ \t]*$`
unfoldable pub only_blanks : String → Bool
only_blanks String.[] = true
only_blanks (String.◌∷◌ c s) = is_blank (code c) && only_blanks s

-- `\S*[ \t]*$`
unfoldable pub word_end : String → Bool
unfolding only_blanks
word_end String.[] = true
word_end (String.◌∷◌ c s) =
    let rest = word_end s in if is_space (code c) then only_blanks (String.◌∷◌ c s) else rest

-- `[ \t]*\S+[ \t]*$`
unfoldable pub is_value : String → Bool
unfolding word_end
is_value String.[] = false
is_value (String.◌∷◌ c s) =
    let rest = is_value s in
    if is_blank (code c) then rest else if is_space (code c) then false else word_end s

-- What follows a prefix
unfoldable pub after_prefix : String → String → Option String
after_prefix String.[] s = some s
after_prefix (String.◌∷◌ p ps) String.[] = none
after_prefix (String.◌∷◌ p ps) (String.◌∷◌ c s) =
    let rest = after_prefix ps s in if nat_beq (code p) (code c) then rest else none

-- `key[ \t]*\S+[ \t]*$` at the start of the text
unfoldable pub is_keyed : String → String → Bool
unfolding after_prefix is_value
is_keyed key s = elim (after_prefix key s) [ none ↦ false | some rest ↦ is_value rest ]

-- The leading `[ \t]*` of a line, and the rest
unfoldable pub split_indent : String → String × String
split_indent String.[] = (String.[], String.[])
split_indent (String.◌∷◌ c s) =
    let rest = split_indent s in
    if is_blank (code c) then (String.◌∷◌ c rest.0, rest.1) else (String.[], String.◌∷◌ c s)

-- `_PROMOTED_AT_RE` and its like: an indented line with the key
unfoldable pub is_indented_key : String → String → Bool
unfolding split_indent is_keyed
is_indented_key key line =
    let (indent, rest) = split_indent line in nonempty indent && is_keyed key rest

-- `re.sub(..., count=1)` on the first line with the test
unfoldable pub replace_first : (String → Bool) → (String → String) → List String → List String
replace_first test new [] = []
replace_first test new (line ∷ lines) =
    let rest = replace_first test new lines in if test line then new line ∷ lines else line ∷ rest

-- A line with the same indent
unfoldable pub reindented : String → String → String
unfolding split_indent join
reindented content line = join (split_indent line).0 content

-- none where there is no `status:` line: LifecycleError
unfoldable pub rewrite_status_to_production : List String → Option (List String)
unfolding any_of is_keyed replace_first
rewrite_status_to_production lines =
    if any_of (is_keyed "status:") lines
    then some (replace_first (is_keyed "status:") (λ line. "status: production") lines)
    else none

abbrev starts_blank : String → Bool
starts_blank String.[] = false
starts_blank (String.◌∷◌ c s) = is_blank (code c)

abbrev is_long : String → Bool
is_long String.[] = false
is_long (String.◌∷◌ c s) = nonempty s

-- `(?:[ \t]+.+\n)+` behind a block's first line
unfoldable pub block_follows : List String → Bool
block_follows [] = false
block_follows (line ∷ []) = false
block_follows (line ∷ next ∷ rest) = starts_blank line && (is_long line || not (is_empty rest))

abbrev is_block_start : String → Bool
is_block_start line = elim (after_prefix "lifecycle:" line) [
  | none ↦ false
  | some rest ↦ only_blanks rest
]

-- `_LIFECYCLE_BLOCK_RE.search(text)`
unfoldable pub has_block : List String → Bool
unfolding block_follows after_prefix only_blanks
has_block [] = false
has_block (line ∷ lines) =
    let rest = has_block lines in if is_block_start line && block_follows lines then true else rest

unfoldable pub drop_trailing_empty : List String → List String
drop_trailing_empty [] = []
drop_trailing_empty (line ∷ lines) =
    let rest = drop_trailing_empty lines in
    if is_empty rest && not (nonempty line) then [] else line ∷ rest

abbrev pub all_but_last : List String → List String
all_but_last [] = []
all_but_last (line ∷ []) = []
all_but_last (line ∷ next ∷ lines) = line ∷ all_but_last (next ∷ lines)

-- `m.group(0).rstrip("\n") + "\n" + new + "\n"` in the place of the match
unfoldable pub insert_line : String → List String → List String
unfolding drop_trailing_empty last?
insert_line new lines = elim (last? lines) [
  | none ↦ lines
  | some last ↦ drop_trailing_empty (all_but_last lines) ++ new ∷ last ∷ []
]

-- A key's line is updated where there is one, and else inserted.
unfoldable pub set_line : (key content : String) → List String → List String
unfolding any_of is_indented_key replace_first reindented insert_line join
set_line key content lines =
    if any_of (is_indented_key key) lines
    then replace_first (is_indented_key key) (reindented content) lines
    else insert_line (join "  " content) lines

abbrev pub forced_key : String
forced_key = "forcedPromotion:"

-- `text.endswith("\n")`
unfoldable pub ends_with_newline : List String → Bool
ends_with_newline [] = false
ends_with_newline (line ∷ []) = false
ends_with_newline (line ∷ next ∷ lines) = option_beq (last? (next ∷ lines)) (some "")

-- The new block
abbrev pub stamp_block : (promoted_at promoted_by : String) → Bool → List String
stamp_block promoted_at promoted_by forced =
    "lifecycle:"
    ∷ join "  promotedAt: " promoted_at
    ∷ join "  promotedBy: " promoted_by
    ∷ (if forced then "  forcedPromotion: true" ∷ "" ∷ [] else "" ∷ [])

unfoldable pub stamp_promotion :
    List String → (promoted_at promoted_by : String) → Bool → List String
unfolding has_block set_line ends_with_newline join
stamp_promotion lines promoted_at promoted_by forced =
    if has_block lines
    then (let at = set_line "promotedAt:" (join "promotedAt: " promoted_at) lines in
        let by = set_line "promotedBy:" (join "promotedBy: " promoted_by) at in
        (if forced
          then set_line forced_key "forcedPromotion: true" by
          else replace_first (is_indented_key forced_key) (λ line. "") by))
    else if ends_with_newline lines
    then all_but_last lines ++ stamp_block promoted_at promoted_by forced
    else lines ++ stamp_block promoted_at promoted_by forced
