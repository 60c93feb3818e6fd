-- ===== src/Prelude/Order.antt =====
-- Python's `<` on texts: by code points, the first difference decides.
use Prim.Native.Nat.{ℕ}
use Prim.Native.Char.{code}
use Prim.Native.String.{String}
use mathlib.Core.Path.{◌≡◌, refl}
use mathlib.Core.Bool.{Bool, true, false}
use mathlib.Core.List.{List, [], ◌∷◌}
use mathlib.Core.Logic.{inl, inr}
use native.Mathlib.Omega.{arith}
use content_ops.Prelude.Tests.{ltb, nat_beq, if◌then◌else◌, Bool-cases}

abbrev pub codes : String → List ℕ
codes String.[] = []
codes (String.◌∷◌ c s) = code c ∷ codes s

unfoldable pub lex_ltb : List ℕ → List ℕ → Bool
lex_ltb xs [] = false
lex_ltb [] (y ∷ ys) = true
lex_ltb (x ∷ xs) (y ∷ ys) = let rest = lex_ltb xs ys in if nat_beq x y then rest else ltb x y

lex_trans : (xs ys zs : List ℕ) → lex_ltb xs ys ≡ true → lex_ltb ys zs ≡ true → lex_ltb xs zs ≡ true
unfolding lex_ltb
lex_trans xs [] zs p q = cc
lex_trans xs (y ∷ ys) [] p q = cc
lex_trans [] (y ∷ ys) (z ∷ zs) p q = refl
lex_trans (x ∷ xs) (y ∷ ys) (z ∷ zs) p q = ground (arith, lex_trans xs ys zs)

lex_asym : (xs ys : List ℕ) → lex_ltb xs ys ≡ true → lex_ltb ys xs ≡ false
unfolding lex_ltb
lex_asym xs [] p = cc
lex_asym [] (y ∷ ys) p = refl
lex_asym (x ∷ xs) (y ∷ ys) p = ground (arith, lex_asym xs ys)

-- `s < t`
unfoldable pub text_ltb : String → String → Bool
unfolding lex_ltb
text_ltb s t = lex_ltb (codes s) (codes t)

pub text_trans : (s t u : String) → text_ltb s t ≡ true → text_ltb t u ≡ true → text_ltb s u ≡ true
unfolding text_ltb
text_trans s t u = lex_trans (codes s) (codes t) (codes u)

pub text_asym : (s t : String) → text_ltb s t ≡ true → text_ltb t s ≡ false
unfolding text_ltb
text_asym s t = lex_asym (codes s) (codes t)

pub text_irrefl : (s : String) → text_ltb s s ≡ false
text_irrefl s = elim (Bool-cases (text_ltb s s)) [ inl e ↦ text_asym s s e | inr e ↦ e ]

lex_not_less_trans :
    (xs ys zs : List ℕ) → lex_ltb xs ys ≡ false → lex_ltb ys zs ≡ false → lex_ltb xs zs ≡ false
unfolding lex_ltb
lex_not_less_trans xs ys [] p q = refl
lex_not_less_trans xs [] (z ∷ zs) p q = cc
lex_not_less_trans [] (y ∷ ys) (z ∷ zs) p q = cc
lex_not_less_trans (x ∷ xs) (y ∷ ys) (z ∷ zs) p q = ground (arith, lex_not_less_trans xs ys zs)

pub text_not_less_trans :
    (s t u : String) → text_ltb s t ≡ false → text_ltb t u ≡ false → text_ltb s u ≡ false
unfolding text_ltb
text_not_less_trans s t u = lex_not_less_trans (codes s) (codes t) (codes u)
