-- ===== src/Lifecycle/Stamp/Again.antt =====
-- A stamp that was appended is found and updated by the next promotion.
use Prim.Native.Char.{Char}
use text.Mathlib.TextEquality.{eq_iff}
use content_ops.Prelude.{
  Bool-cases, Option-cases, ◌==◌, nonempty, option_beq, any_of, last?, any_of-append, String, ◌≡◌,
  refl, sym, ap, ◌∙◌, inl, inr, Bool, true, false, some, List, [], ◌∷◌, ◌++◌, arith, string_eq,
  nat_eq, option_eq, pair_eq, option_eq, pair_eq,
}
use content_ops.Lifecycle.Stamp.{
  join, only_blanks, is_value, after_prefix, is_keyed, split_indent, is_indented_key, replace_first,
  reindented, block_follows, has_block, drop_trailing_empty, all_but_last, insert_line, set_line,
  forced_key, ends_with_newline, stamp_block, stamp_promotion,
}

replace_first-append :
    (test : String → Bool) (new : String → String) (xs ys : List String)
    → any_of test xs ≡ false
    → replace_first test new (xs ++ ys) ≡ xs ++ replace_first test new ys
unfolding replace_first any_of
replace_first-append test new [] ys h = refl
replace_first-append test new (x ∷ xs) ys h = ground (arith, replace_first-append test new xs ys)

any_of-append_right :
    (test : String → Bool) (xs ys : List String)
    → any_of test ys ≡ true
    → any_of test (xs ++ ys) ≡ true
any_of-append_right test xs ys h = ground (arith, any_of-append test xs ys)

has_block-append :
    (xs lines : List String) → has_block lines ≡ true → has_block (xs ++ lines) ≡ true
unfolding has_block
has_block-append [] lines h = h
has_block-append (x ∷ xs) lines h = ground (arith, has_block-append xs lines h)

set_line-append :
    (key content : String) (xs ys : List String)
    → any_of (is_indented_key key) xs ≡ false
    → any_of (is_indented_key key) ys ≡ true
    → set_line key content (xs ++ ys) ≡ xs ++ set_line key content ys
unfolding set_line
set_line-append key content xs ys h k = simp (
  any_of-append_right (is_indented_key key) xs ys k,
  k,
  replace_first-append (is_indented_key key) (reindented content) xs ys h,
)

last-append :
    (xs : List String) (y : String) (ys : List String) → last? (xs ++ y ∷ ys) ≡ last? (y ∷ ys)
unfolding last?
last-append [] y ys = refl
last-append (x ∷ xs) y ys = elim (Option-cases (last? (y ∷ ys))) [
  | inl e ↦ ground (arith, last-append xs y ys)
  | inr (l, e) ↦ ground (arith, last-append xs y ys)
]

all_but_last-append :
    (xs : List String) (y : String) (ys : List String)
    → all_but_last (xs ++ y ∷ ys) ≡ xs ++ all_but_last (y ∷ ys)
all_but_last-append [] y ys = refl
all_but_last-append (x ∷ []) y ys = refl
all_but_last-append (x ∷ x' ∷ xs) y ys = ap (λ l. x ∷ l) (all_but_last-append (x' ∷ xs) y ys)

nonempty-cons : (c : Char) (s : String) → nonempty (String.◌∷◌ c s) ≡ true
nonempty-cons c s = elim (Bool-cases (String.◌∷◌ c s == "")) [
  | inl e ↦ let same : String.◌∷◌ c s ≡ "" = (eq_iff (String.◌∷◌ c s) "").0 e in cc
  | inr e ↦ ground (arith, e)
]

drop_trailing_empty-append :
    (xs : List String) (y : String)
    → nonempty y ≡ true
    → drop_trailing_empty (xs ++ y ∷ []) ≡ xs ++ y ∷ []
unfolding drop_trailing_empty
drop_trailing_empty-append [] y h = ground (arith, h)
drop_trailing_empty-append (x ∷ []) y h = ground (arith, h)
drop_trailing_empty-append (x ∷ x' ∷ xs) y h =
    ground (arith, drop_trailing_empty-append (x' ∷ xs) y h)

append-append : (xs ys zs : List String) → (xs ++ ys) ++ zs ≡ xs ++ (ys ++ zs)
append-append [] ys zs = refl
append-append (x ∷ xs) ys zs = ap (λ l. x ∷ l) (append-append xs ys zs)

set_line-insert :
    (key content : String) (lines : List String)
    → any_of (is_indented_key key) lines ≡ false
    → set_line key content lines ≡ insert_line (join "  " content) lines
unfolding set_line
set_line-insert key content lines h = simp (h, set_line)

insert_line-last :
    (new : String) (lines : List String) (l : String)
    → last? lines ≡ some l
    → insert_line new lines ≡ drop_trailing_empty (all_but_last lines) ++ new ∷ l ∷ []
unfolding insert_line
insert_line-last new lines l h = simp (h, insert_line)

-- The stamped lines
abbrev clean : (promoted_at promoted_by : String) → List String
clean promoted_at promoted_by = stamp_block promoted_at promoted_by false

module _ (a b a' b' : String) (av : is_value a ≡ true) (bv : is_value b ≡ true) where
  block_there : has_block (clean a b) ≡ true
  unfolding has_block block_follows after_prefix only_blanks join
  block_there = ground arith

  at_there : any_of (is_indented_key "promotedAt:") (clean a b) ≡ true
  unfolding any_of is_indented_key split_indent is_keyed after_prefix is_value join
  at_there = ground (arith, av)

  at_set : set_line "promotedAt:" (join "promotedAt: " a') (clean a b) ≡ clean a' b
  unfolding set_line any_of replace_first reindented is_indented_key split_indent is_keyed
      after_prefix is_value join
  at_set = simp (av)

  by_there : any_of (is_indented_key "promotedBy:") (clean a' b) ≡ true
  unfolding any_of is_indented_key split_indent is_keyed after_prefix is_value join
  by_there = ground (arith, bv)

  by_set : set_line "promotedBy:" (join "promotedBy: " b') (clean a' b) ≡ clean a' b'
  unfolding set_line any_of replace_first reindented is_indented_key split_indent is_keyed
      after_prefix is_value join
  by_set = simp (bv)

  unforced : any_of (is_indented_key forced_key) (clean a' b') ≡ false
  unfolding any_of is_indented_key split_indent is_keyed after_prefix is_value join
  unforced = ground arith

  cleared :
      (new : String → String)
      → replace_first (is_indented_key forced_key) new (clean a' b') ≡ clean a' b'
  unfolding replace_first is_indented_key split_indent is_keyed after_prefix is_value join
  cleared new = ground arith

  -- The last two lines before the end
  abbrev three : List String
  three = "lifecycle:" ∷ join "  promotedAt: " a' ∷ []

  kept_lines :
      (xs : List String)
      → drop_trailing_empty (all_but_last (xs ++ clean a' b')) ≡ xs ++ all_but_last (clean a' b')
  unfolding join
  kept_lines xs =
      ap drop_trailing_empty (all_but_last-append xs "lifecycle:" _)
      ∙ ap drop_trailing_empty (sym (append-append xs three (join "  promotedBy: " b' ∷ [])))
      ∙ drop_trailing_empty-append (xs ++ three) (join "  promotedBy: " b') (nonempty-cons " " _)
      ∙ append-append xs three (join "  promotedBy: " b' ∷ [])

  forced_set :
      (xs : List String)
      → any_of (is_indented_key forced_key) xs ≡ false
      → set_line forced_key "forcedPromotion: true" (xs ++ clean a' b')
        ≡ xs ++ stamp_block a' b' true
  unfolding join last?
  forced_set xs h =
      let all = xs ++ clean a' b' in
      let missing : any_of (is_indented_key forced_key) all ≡ false =
        any_of-append (is_indented_key forced_key) xs (clean a' b') ∙ ground (arith, h, unforced) in
      set_line-insert forced_key "forcedPromotion: true" all missing
      ∙ insert_line-last _ all "" (last-append xs "lifecycle:" _)
      ∙ ap (λ ls. ls ++ "  forcedPromotion: true" ∷ "" ∷ []) (kept_lines xs)
      ∙ append-append xs (all_but_last (clean a' b')) _

  -- A second stamp updates the first.
  second_stamp :
      (xs : List String) (f : Bool)
      → any_of (is_indented_key "promotedAt:") xs ≡ false
      → any_of (is_indented_key "promotedBy:") xs ≡ false
      → any_of (is_indented_key forced_key) xs ≡ false
      → stamp_promotion (xs ++ clean a b) a' b' f ≡ xs ++ stamp_block a' b' f
  unfolding stamp_promotion
  second_stamp xs f h k l =
      let at : set_line "promotedAt:" (join "promotedAt: " a') (xs ++ clean a b)
          ≡ xs ++ clean a' b =
        set_line-append "promotedAt:" _ xs (clean a b) h at_there ∙ ap (λ r. xs ++ r) at_set in
      let by : set_line "promotedBy:" (join "promotedBy: " b') (xs ++ clean a' b)
          ≡ xs ++ clean a' b' =
        set_line-append "promotedBy:" _ xs (clean a' b) k by_there ∙ ap (λ r. xs ++ r) by_set in
      let none_left : replace_first (is_indented_key forced_key) (λ line. "") (xs ++ clean a' b')
          ≡ xs ++ clean a' b' =
        replace_first-append (is_indented_key forced_key) (λ line. "") xs (clean a' b') l
        ∙ ap (λ r. xs ++ r) (cleared (λ line. "")) in
      elim (Bool-cases f) [
        | inl e ↦ simp (has_block-append xs (clean a b) block_there, at, by, e, forced_set xs l)
        | inr e ↦ simp (has_block-append xs (clean a b) block_there, at, by, e, none_left)
      ]

ends-append : (x : String) (xs : List String) → ends_with_newline (x ∷ xs ++ "" ∷ []) ≡ true
unfolding ends_with_newline last? option_beq
ends-append x [] = refl
ends-append x (x' ∷ xs) = simp (last-append (x' ∷ xs) "" [])

first_stamp :
    (x : String) (xs : List String)
    → has_block (x ∷ xs ++ "" ∷ []) ≡ false
    → (f : Bool) (c d : String)
    → stamp_promotion (x ∷ xs ++ "" ∷ []) c d f ≡ x ∷ xs ++ stamp_block c d f
unfolding stamp_promotion
first_stamp x xs h f c d = simp (
  h,
  ends-append x xs,
  all_but_last-append (x ∷ xs) "" [],
  append-append xs [] (stamp_block c d f),
)

-- In a text that ends with a newline and has neither a lifecycle block nor a line of a stamp, an
-- unforced stamp whose date and actor are single words is replaced by the next one, forced or not:
-- stamping twice leaves what the second stamp alone would leave.
pub stamp_promotion_again :
    (x : String) (xs : List String) (a b a' b' : String) (forced : Bool)
    → has_block (x ∷ xs ++ "" ∷ []) ≡ false
    → any_of (is_indented_key "promotedAt:") (x ∷ xs) ≡ false
    → any_of (is_indented_key "promotedBy:") (x ∷ xs) ≡ false
    → any_of (is_indented_key forced_key) (x ∷ xs) ≡ false
    → is_value a ≡ true
    → is_value b ≡ true
    → stamp_promotion (stamp_promotion (x ∷ xs ++ "" ∷ []) a b false) a' b' forced
      ≡ stamp_promotion (x ∷ xs ++ "" ∷ []) a' b' forced
stamp_promotion_again x xs a b a' b' forced h k l m av bv =
    ap (λ lines. stamp_promotion lines a' b' forced) (first_stamp x xs h false a b)
    ∙ second_stamp a b a' b' av bv (x ∷ xs) forced k l m
    ∙ sym (first_stamp x xs h forced a' b')
