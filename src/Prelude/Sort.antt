-- ===== src/Prelude/Sort.antt =====
-- Python's `sorted`: a stable sort by a test on keys. A test that never puts a later element of the
-- result before an earlier one makes it sorted.
use mathlib.Core.Path.{◌≡◌}
use mathlib.Core.Bool.{Bool, true, false}
use mathlib.Core.List.{List, [], ◌∷◌, Perm}
use mathlib.Core.List.Perm
use mathlib.Core.Logic.{inl, inr}
use content_ops.Prelude.Tests.{if◌then◌else◌, Bool-cases}
use content_ops.Prelude.Lists.{All}

module _ {ℓ} {A : Type ℓ} (lt : A → A → Bool) where
  -- Before the first element that is not smaller.
  unfoldable pub insert_sorted : A → List A → List A
  insert_sorted x [] = x ∷ []
  insert_sorted x (y ∷ ys) =
      let rest = insert_sorted x ys in if lt y x then y ∷ rest else x ∷ y ∷ ys

  unfoldable pub sorted : List A → List A
  unfolding insert_sorted
  sorted [] = []
  sorted (x ∷ xs) = insert_sorted x (sorted xs)

  insert_sorted-perm : (x : A) (ys : List A) → Perm (insert_sorted x ys) (x ∷ ys)
  unfolding insert_sorted
  insert_sorted-perm x [] = Perm.refl _
  insert_sorted-perm x (y ∷ ys) = elim (Bool-cases (lt y x)) [
    | inl e ↦ rw e (Perm.trans (Perm.cons y (insert_sorted-perm x ys)) (Perm.swap x y ys))
    | inr e ↦ rw e (Perm.refl _)
  ]

  pub sorted-perm : (xs : List A) → Perm (sorted xs) xs
  unfolding sorted
  sorted-perm [] = Perm.refl []
  sorted-perm (x ∷ xs) =
      Perm.trans (insert_sorted-perm x (sorted xs)) (Perm.cons x (sorted-perm xs))

  All-insert_sorted {κ} :
      (P : A → Type κ) (x : A) (ys : List A) → P x → All P ys → All P (insert_sorted x ys)
  unfolding insert_sorted
  All-insert_sorted P x [] px h = (px, tt)
  All-insert_sorted P x (y ∷ ys) px h = elim (Bool-cases (lt y x)) [
    | inl e ↦ rw e (h.0, All-insert_sorted P x ys px h.1)
    | inr e ↦ rw e (px, h)
  ]

  pub All-sorted {κ} : (P : A → Type κ) (xs : List A) → All P xs → All P (sorted xs)
  unfolding sorted
  All-sorted P [] h = tt
  All-sorted P (x ∷ xs) h = All-insert_sorted P x (sorted xs) h.0 (All-sorted P xs h.1)

  -- Each element stands in the relation to all that come behind it.
  abbrev pub IsOrdered {κ} : (A → A → Type κ) → List A → Type (ℓ ⊔ κ)
  IsOrdered R [] = Unit
  IsOrdered R (x ∷ xs) = All (R x) xs × IsOrdered R xs

  module _ {κ} (R : A → A → Type κ) (trans : (x y z : A) → R x y → R y z → R x z)
      (less : (x y : A) → lt y x ≡ true → R y x)
      (not_less : (x y : A) → lt y x ≡ false → R x y) where
    All-weaken : (x y : A) (ys : List A) → R x y → All (R y) ys → All (R x) ys
    All-weaken x y [] r h = tt
    All-weaken x y (z ∷ zs) r h = (trans x y z r h.0, All-weaken x y zs r h.1)

    insert_sorted-IsOrdered :
        (x : A) (ys : List A) → IsOrdered R ys → IsOrdered R (insert_sorted x ys)
    unfolding insert_sorted
    insert_sorted-IsOrdered x [] h = (tt, tt)
    insert_sorted-IsOrdered x (y ∷ ys) h = elim (Bool-cases (lt y x)) [
      | inl e ↦
          rw e (All-insert_sorted (R y) x ys (less x y e) h.0, insert_sorted-IsOrdered x ys h.1)
      | inr e ↦ let r = not_less x y e in rw e ((r, All-weaken x y ys r h.0), h)
    ]

    pub sorted-IsOrdered : (xs : List A) → IsOrdered R (sorted xs)
    unfolding sorted
    sorted-IsOrdered [] = tt
    sorted-IsOrdered (x ∷ xs) = insert_sorted-IsOrdered x (sorted xs) (sorted-IsOrdered xs)
