-- ===== src/Drift/Slug.antt =====
-- contentops/utils/slug.py. Parameters: `str.lower` and `str.strip`. An empty name stands for `None`
-- too.
pub mod Bounds
use Prim.Native.Char.{Char, code}
use content_ops.Prelude.{
  ltb, leb, nat_beq, if◌then◌else◌, nonempty, ℕ, zero, suc, ◌-◌, String, Bool, true, false, ◌&&◌,
  ◌||◌, not, Option, none, some, [], ◌∷◌,
}

abbrev pub slug_max_len : ℕ
slug_max_len = 80

-- In `[a-z0-9]`
abbrev pub is_alphanumeric : Char → Bool
is_alphanumeric c = leb 97 (code c) && leb (code c) 122 || leb 48 (code c) && leb (code c) 57

-- `re.sub(r"[^a-z0-9]+", "", text)`
unfoldable pub cleaned : String → String
cleaned String.[] = String.[]
cleaned (String.◌∷◌ c s) =
    let rest = cleaned s in if is_alphanumeric c then String.◌∷◌ c rest else rest

-- `text[:n]`
unfoldable pub first_chars : ℕ → String → String
first_chars zero s = String.[]
first_chars (suc n) String.[] = String.[]
first_chars (suc n) (String.◌∷◌ c s) = String.◌∷◌ c (first_chars n s)

unfoldable pub char_count : String → ℕ
char_count String.[] = 0
char_count (String.◌∷◌ c s) = suc (char_count s)

-- `text.rstrip("-")`
unfoldable pub without_dashes : String → String
without_dashes String.[] = String.[]
without_dashes (String.◌∷◌ c s) =
    let rest = without_dashes s in
    if nonempty rest || not (nat_beq (code c) 45) then String.◌∷◌ c rest else String.[]

-- `f"{base}-{suffix}"`
unfoldable pub dashed : String → String → String
dashed String.[] suffix = String.◌∷◌ "-" suffix
dashed (String.◌∷◌ c s) suffix = String.◌∷◌ c (dashed s suffix)

module _ (lower : String → String) where
  unfoldable pub arm_name_suffix : String → String
  unfolding cleaned first_chars
  arm_name_suffix arm_name =
      if nonempty arm_name then first_chars 8 (cleaned (lower arm_name)) else ""

  unfoldable pub disambiguate : String → String → String
  unfolding arm_name_suffix first_chars char_count without_dashes dashed
  disambiguate slug arm_name =
      let suffix = arm_name_suffix arm_name in
      let base_max = slug_max_len - char_count suffix - 1 in
      let base = if leb 1 base_max then without_dashes (first_chars base_max slug) else slug in
      if nonempty suffix then (if nonempty base then dashed base suffix else suffix) else slug

abbrev starts_other : String → Bool
starts_other String.[] = false
starts_other (String.◌∷◌ c s) = not (is_alphanumeric c)

-- `_NON_SLUG.sub("-", text)`: the last character of each run is replaced, the others go.
unfoldable pub dash_runs : String → String
dash_runs String.[] = String.[]
dash_runs (String.◌∷◌ c s) =
    let rest = dash_runs s in
    if is_alphanumeric c
    then String.◌∷◌ c rest
    else if starts_other s
    then rest
    else String.◌∷◌ "-" rest

-- `text.lstrip("-")`
unfoldable pub after_dashes : String → String
after_dashes String.[] = String.[]
after_dashes (String.◌∷◌ c s) =
    let rest = after_dashes s in if nat_beq (code c) 45 then rest else String.◌∷◌ c s

-- `$`: the end, or a newline before it
abbrev at_end : String → Bool
at_end String.[] = true
at_end (String.◌∷◌ c String.[]) = nat_beq (code c) 10
at_end (String.◌∷◌ c (String.◌∷◌ d s)) = false

-- `[a-z0-9\-]*[a-z0-9]$`
unfoldable pub is_id_rest : String → Bool
is_id_rest String.[] = false
is_id_rest (String.◌∷◌ c s) =
    let rest = is_id_rest s in
    is_alphanumeric c && at_end s || ((is_alphanumeric c || nat_beq (code c) 45) && rest)

unfoldable pub is_valid_envelope_id : String → Bool
unfolding is_id_rest
is_valid_envelope_id String.[] = false
is_valid_envelope_id (String.◌∷◌ c s) = is_alphanumeric c && is_id_rest s

-- The slug of one text, cut to its length
unfoldable pub cut_slug : String → String
unfolding dash_runs after_dashes without_dashes first_chars char_count
cut_slug clean =
    let slug = without_dashes (after_dashes (dash_runs clean)) in
    if ltb slug_max_len (char_count slug)
    then without_dashes (first_chars slug_max_len slug)
    else slug

module _ (lower strip : String → String) where
  unfoldable pub displayname_slug : String → Option String → String
  unfolding cut_slug is_valid_envelope_id
  displayname_slug name fallback_id =
      let slug = cut_slug (lower (strip name)) in
      if nonempty slug && is_valid_envelope_id slug then slug else elim fallback_id [
        | none ↦ ""
        | some i ↦
            let other = cut_slug (lower (strip i)) in
            if nonempty other && is_valid_envelope_id other then other else ""
      ]
