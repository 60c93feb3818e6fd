-- ===== src/Prelude/Reorder.antt =====
-- Lists with the same elements in another order, and a sort that does not depend on the order.
use mathlib.Core.Path.{◌≡◌, refl, ap, ◌∙◌}
use mathlib.Core.Bool.{Bool, true, false}
use mathlib.Core.List.{List, [], ◌∷◌}
use mathlib.Core.Logic.{◌⊎◌, inl, inr}
use native.Mathlib.Omega.{arith}
use content_ops.Prelude.Lists.{All}
use content_ops.Prelude.Sort.{insert_sorted, sorted, IsOrdered}

-- One list is the other with neighbours exchanged, any number of times.
pub data Shuffle {ℓ} {A : Type ℓ} : List A → List A → Type ℓ where
  unmoved : (xs : List A) → Shuffle xs xs
  behind : (x : A) {xs ys : List A} → Shuffle xs ys → Shuffle (x ∷ xs) (x ∷ ys)
  exchange : (x y : A) (xs : List A) → Shuffle (x ∷ y ∷ xs) (y ∷ x ∷ xs)
  through : {xs ys zs : List A} → Shuffle xs ys → Shuffle ys zs → Shuffle xs zs

module _ {ℓ} {A : Type ℓ} (lt : A → A → Bool) where
  -- One of the two is before the other.
  abbrev pub Apart : A → A → Type 0
  Apart x y = ((lt x y ≡ true) × (lt y x ≡ false)) ⊎ ((lt y x ≡ true) × (lt x y ≡ false))

  Apart-symm : (x y : A) → Apart x y → Apart y x
  Apart-symm x y (inl h) = inr h
  Apart-symm x y (inr h) = inl h

  All-Shuffle {κ} : (P : A → Type κ) {xs ys : List A} → Shuffle xs ys → All P xs → All P ys
  All-Shuffle P (unmoved xs) h = h
  All-Shuffle P (behind x s) h = (h.0, All-Shuffle P s h.1)
  All-Shuffle P (exchange x y xs) h = (h.1.0, (h.0, h.1.1))
  All-Shuffle P (through s t) h = All-Shuffle P t (All-Shuffle P s h)

  Apart-Shuffle : {xs ys : List A} → Shuffle xs ys → IsOrdered lt Apart xs → IsOrdered lt Apart ys
  Apart-Shuffle (unmoved xs) h = h
  Apart-Shuffle (behind x s) h = (All-Shuffle (Apart x) s h.0, Apart-Shuffle s h.1)
  Apart-Shuffle (exchange x y xs) h = ((Apart-symm x y h.0.0, h.1.0), (h.0.1, h.1.1))
  Apart-Shuffle (through s t) h = Apart-Shuffle t (Apart-Shuffle s h)

  module _ (between : (x y z : A) → lt z x ≡ true → lt z y ≡ false → lt y x ≡ true) where
    insert_comm :
        (x y : A) (zs : List A)
        → Apart x y
        → insert_sorted lt x (insert_sorted lt y zs) ≡ insert_sorted lt y (insert_sorted lt x zs)
    unfolding insert_sorted
    insert_comm x y [] a = ground (arith, a)
    insert_comm x y (z ∷ zs) a =
        ground (arith, a, insert_comm x y zs a, between x y z, between y x z)

    pub sorted-Shuffle :
        {xs ys : List A} → Shuffle xs ys → IsOrdered lt Apart xs → sorted lt xs ≡ sorted lt ys
    unfolding sorted
    sorted-Shuffle (unmoved xs) h = refl
    sorted-Shuffle (behind x s) h = ap (insert_sorted lt x) (sorted-Shuffle s h.1)
    sorted-Shuffle (exchange x y xs) h = insert_comm x y (sorted lt xs) h.0.0
    sorted-Shuffle (through s t) h = sorted-Shuffle s h ∙ sorted-Shuffle t (Apart-Shuffle s h)
