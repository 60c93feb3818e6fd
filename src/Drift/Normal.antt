-- ===== src/Drift/Normal.antt =====
-- contentops/core/drift.py, `_normalize` and `_payloads_match`.
pub mod Texts
pub mod Again
use Prim.Native.Char.{Char, code}
use Prim.Native.String
use content_ops.Prelude.{
  nat_beq, if◌then◌else◌, is_space, ◌==◌, text_ltb, String, Bool, true, false, ◌&&◌, not, [], ◌∷◌,
  string_eq, nat_eq, option_eq, pair_eq, option_eq, pair_eq,
}

abbrev pub ends : String → Bool
ends String.[] = true
ends (String.◌∷◌ c s) = nat_beq (code c) 10

abbrev pub no_chars : String → Bool
no_chars String.[] = true
no_chars (String.◌∷◌ c s) = false

-- `.replace("\r\n", "\n")`; the test that the text has a `\r` is left out, as without one nothing is
-- replaced.
unfoldable pub crlf_to_lf : String → String
crlf_to_lf String.[] = String.[]
crlf_to_lf (String.◌∷◌ c s) =
    let rest = crlf_to_lf s in
    if nat_beq (code c) 13 && (ends s && not (no_chars s)) then rest else String.◌∷◌ c rest

-- `.replace("\r", "\n")`
unfoldable pub cr_to_lf : String → String
cr_to_lf String.[] = String.[]
cr_to_lf (String.◌∷◌ c s) =
    let rest = cr_to_lf s in if nat_beq (code c) 13 then String.◌∷◌ "\n" rest else String.◌∷◌ c rest

-- `"\n".join(line.rstrip() for line in value.split("\n"))`: white space goes where all that
-- follows it in its line has gone.
unfoldable pub rstrip_lines : String → String
rstrip_lines String.[] = String.[]
rstrip_lines (String.◌∷◌ c s) =
    let rest = rstrip_lines s in
    if is_space (code c) && (not (nat_beq (code c) 10) && ends rest)
    then rest
    else String.◌∷◌ c rest

-- `.rstrip("\n")`
unfoldable pub rstrip_newlines : String → String
rstrip_newlines String.[] = String.[]
rstrip_newlines (String.◌∷◌ c s) =
    let rest = rstrip_newlines s in
    if nat_beq (code c) 10 && no_chars rest then String.[] else String.◌∷◌ c rest

unfoldable pub normalize_text : String → String
unfolding crlf_to_lf cr_to_lf rstrip_lines rstrip_newlines
normalize_text s = rstrip_newlines (rstrip_lines (cr_to_lf (crlf_to_lf s)))

-- A payload. A scalar that is no text is given by a text, the same for values that are `==`.
mutual
  pub data Value : Type 0 where
    string : String → Value
    scalar : String → Value
    list : Items → Value
    dict : Fields → Value

  pub data Items : Type 0 where
    no_items : Items
    item : Value → Items → Items

  pub data Fields : Type 0 where
    no_fields : Fields
    field : String → Value → Fields → Fields

-- The order of the keys that `sorted(value.items())` gives
unfoldable pub insert_field : String → Value → Fields → Fields
insert_field k v no_fields = field k v no_fields
insert_field k v (field j w fields) =
    let rest = insert_field k v fields in
    if text_ltb j k then field j w rest else field k v (field j w fields)

unfoldable mutual
  unfolding normalize_text insert_field

  pub normalize : Value → Value
  normalize (string s) = string (normalize_text s)
  normalize (scalar s) = scalar s
  normalize (list items) = list (normalize_items items)
  normalize (dict fields) = dict (normalize_fields fields)

  pub normalize_items : Items → Items
  normalize_items no_items = no_items
  normalize_items (item v items) = item (normalize v) (normalize_items items)

  pub normalize_fields : Fields → Fields
  normalize_fields no_fields = no_fields
  normalize_fields (field k v fields) = insert_field k (normalize v) (normalize_fields fields)

-- `==`, on dictionaries with their keys in order
unfoldable mutual
  pub value_beq : Value → Value → Bool
  value_beq (string s) (string t) = s == t
  value_beq (scalar s) (scalar t) = s == t
  value_beq (list xs) (list ys) = items_beq xs ys
  value_beq (dict fs) (dict gs) = fields_beq fs gs
  value_beq _ _ = false

  pub items_beq : Items → Items → Bool
  items_beq no_items no_items = true
  items_beq (item v xs) (item w ys) = value_beq v w && items_beq xs ys
  items_beq _ _ = false

  pub fields_beq : Fields → Fields → Bool
  fields_beq no_fields no_fields = true
  fields_beq (field k v fs) (field j w gs) = k == j && (value_beq v w && fields_beq fs gs)
  fields_beq _ _ = false

unfoldable pub payloads_match : Value → Value → Bool
unfolding normalize value_beq
payloads_match here remote = value_beq (normalize here) (normalize remote)
