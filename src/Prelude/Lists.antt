-- ===== src/Prelude/Lists.antt =====
-- Lists, and dictionaries as association lists in insertion order.
use Prim.Native.Nat.{ℕ, suc, ◌+◌, ◌≤◌}
use mathlib.Core.Path.{◌≡◌, refl, ap, subst}
use mathlib.Core.Bool.{Bool, true, false, ◌||◌}
use mathlib.Core.Option.{Option, none, some}
use mathlib.Core.List.{List, [], ◌∷◌, ◌++◌, map}
use mathlib.Core.Logic.{◌⊎◌, inl, inr}
use native.Mathlib.Omega.{arith}
use content_ops.Prelude.Tests.{if◌then◌else◌, Bool-cases, HasEq, ◌==◌, ==_refl}

module _ {ℓ} {A : Type ℓ} where
  abbrev pub length : List A → ℕ
  length [] = 0
  length (x ∷ xs) = suc (length xs)

  pub length-append : (xs ys : List A) → length (xs ++ ys) ≡ length xs + length ys
  length-append [] ys = omega arith
  length-append (x ∷ xs) ys = omega (arith, length-append xs ys)

  -- `[x for x in xs if p(x)]`
  unfoldable pub keep : (A → Bool) → List A → List A
  keep p [] = []
  keep p (x ∷ xs) = let rest = keep p xs in if p x then x ∷ rest else rest

  -- `any(p(x) for x in xs)`
  unfoldable pub any_of : (A → Bool) → List A → Bool
  any_of p [] = false
  any_of p (x ∷ xs) = p x || any_of p xs

  abbrev pub is_empty : List A → Bool
  is_empty [] = true
  is_empty (x ∷ xs) = false

  unfoldable pub last? : List A → Option A
  last? [] = none
  last? (x ∷ xs) = elim (last? xs) [ none ↦ some x | some y ↦ some y ]

  -- Every element has the property.
  abbrev pub All {κ} : (A → Type κ) → List A → Type κ
  All P [] = Unit
  All P (x ∷ xs) = P x × All P xs

  pub length-keep-le : (p : A → Bool) (xs : List A) → length (keep p xs) ≤ length xs
  unfolding keep
  length-keep-le p [] = omega arith
  length-keep-le p (x ∷ xs) = ground (arith, length-keep-le p xs)

  pub All-append {κ} : (P : A → Type κ) (xs ys : List A) → All P xs → All P ys → All P (xs ++ ys)
  All-append P [] ys h k = k
  All-append P (x ∷ xs) ys h k = (h.0, All-append P xs ys h.1 k)

  pub All-imp {κ μ} :
      (P : A → Type κ) (Q : A → Type μ) (xs : List A) → ((x : A) → P x → Q x) → All P xs → All Q xs
  All-imp P Q [] f h = tt
  All-imp P Q (x ∷ xs) f h = (f x h.0, All-imp P Q xs f h.1)

  pub any_of-append :
      (p : A → Bool) (xs ys : List A) → any_of p (xs ++ ys) ≡ (any_of p xs || any_of p ys)
  unfolding any_of
  any_of-append p [] ys = refl
  any_of-append p (x ∷ xs) ys = ground (arith, any_of-append p xs ys)

-- `x in xs`
unfoldable pub contains {ℓ} : {A : Type ℓ} ⦃e : HasEq A⦄ → A → List A → Bool
contains a [] = false
contains a (x ∷ xs) = x == a || contains a xs

pub contains-append {ℓ} :
    {A : Type ℓ} ⦃e : HasEq A⦄ (a : A) (xs ys : List A)
    → contains a (xs ++ ys) ≡ (contains a xs || contains a ys)
unfolding contains
contains-append a [] ys = refl
contains-append a (x ∷ xs) ys = ground (arith, contains-append a xs ys)

pub All-contains {ℓ} : {A : Type ℓ} ⦃e : HasEq A⦄ (xs : List A) → All (λ x. contains x xs ≡ true) xs
unfolding contains
All-contains [] = tt
All-contains (x ∷ xs) = (
  ground (arith, ==_refl x),
  All-imp (λ y. contains y xs ≡ true) (λ y. contains y (x ∷ xs) ≡ true) xs (λ y m. ground arith)
      (All-contains xs),
)

pub map-same {ℓ κ} :
    {A : Type ℓ} {B : Type κ} (f g : A → B) (xs : List A)
    → ((x : A) → f x ≡ g x)
    → map f xs ≡ map g xs
map-same f g [] h = refl
map-same f g (x ∷ xs) h = rw (h x, map-same f g xs h) refl

pub map-id {ℓ} : {A : Type ℓ} (xs : List A) → xs ≡ map (λ x. x) xs
map-id [] = refl
map-id (x ∷ xs) = ap (λ ys. x ∷ ys) (map-id xs)

-- The elements of two lists of one length stand in the relation, one by one.
abbrev pub Pointwise {ℓ} : {A : Type ℓ} → (A → A → Type 0) → List A → List A → Type 0
Pointwise R [] [] = Unit
Pointwise R (x ∷ xs) (y ∷ ys) = R x y × Pointwise R xs ys
Pointwise R _ _ = ⊥

pub Pointwise-map {ℓ} :
    {A : Type ℓ} (R : A → A → Type 0) (f : A → A) (xs : List A)
    → ((x : A) → R x (f x))
    → Pointwise R xs (map f xs)
Pointwise-map R f [] h = tt
Pointwise-map R f (x ∷ xs) h = (h x, Pointwise-map R f xs h)

pub Pointwise-refl {ℓ} :
    {A : Type ℓ} (R : A → A → Type 0) (xs : List A) → ((x : A) → R x x) → Pointwise R xs xs
Pointwise-refl R [] h = tt
Pointwise-refl R (x ∷ xs) h = (h x, Pointwise-refl R xs h)

-- Two relations, one after the other
pub Pointwise-trans {ℓ} :
    {A : Type ℓ} (R S T : A → A → Type 0) (xs ys zs : List A)
    → ((x y z : A) → R x y → S y z → T x z)
    → Pointwise R xs ys
    → Pointwise S ys zs
    → Pointwise T xs zs
Pointwise-trans R S T [] [] [] h r s = tt
Pointwise-trans R S T (x ∷ xs) (y ∷ ys) (z ∷ zs) h r s =
    (h x y z r.0 s.0, Pointwise-trans R S T xs ys zs h r.1 s.1)
Pointwise-trans R S T [] (y ∷ ys) zs h r s = elim r [ ]
Pointwise-trans R S T (x ∷ xs) [] zs h r s = elim r [ ]
Pointwise-trans R S T [] [] (z ∷ zs) h r s = elim s [ ]
Pointwise-trans R S T (x ∷ xs) (y ∷ ys) [] h r s = elim s [ ]

pub map-map_same {ℓ} :
    {A : Type ℓ} (f : A → A) (xs : List A) → ((x : A) → f (f x) ≡ f x) → map f (map f xs) ≡ map f xs
map-map_same f [] h = refl
map-map_same f (x ∷ xs) h = rw (h x, map-map_same f xs h) refl

abbrev pub Dict {ℓ κ} : Type ℓ → Type κ → Type (ℓ ⊔ κ)
Dict K V = List (K × V)

module _ {ℓ κ} {K : Type ℓ} {V : Type κ} ⦃e : HasEq K⦄ where
  -- `d.get(k)`
  unfoldable pub get : K → Dict K V → Option V
  get k [] = none
  get k ((j, v) ∷ d) = if j == k then some v else get k d

  -- `d[k] = v`
  unfoldable pub put : K → V → Dict K V → Dict K V
  put k v [] = (k, v) ∷ []
  put k v ((j, w) ∷ d) = let rest = put k v d in if j == k then (j, v) ∷ d else (j, w) ∷ rest

  -- `d.pop(k, None)`
  unfoldable pub pop : K → Dict K V → Dict K V
  pop k [] = []
  pop k ((j, w) ∷ d) = let rest = pop k d in if j == k then rest else (j, w) ∷ rest

  -- `k in d`
  unfoldable pub has : K → Dict K V → Bool
  unfolding get
  has k d = elim (get k d) [ none ↦ false | some v ↦ true ]

  pub get-nil : (k : K) → get k [] ≡ none
  unfolding get
  get-nil k = refl

  pub get-put :
      (k j : K) (v : V) (d : Dict K V) → get j (put k v d) ≡ (if k == j then some v else get j d)
  unfolding get put
  get-put k j v [] = refl
  get-put k j v ((i, w) ∷ d) =
      ground (arith, e.equal_iff k j, e.equal_iff i k, e.equal_iff i j, get-put k j v d)

  pub get-pop : (k j : K) (d : Dict K V) → get j (pop k d) ≡ (if k == j then none else get j d)
  unfolding get pop
  get-pop k j [] = ground arith
  get-pop k j ((i, w) ∷ d) =
      ground (arith, e.equal_iff k j, e.equal_iff i k, e.equal_iff i j, get-pop k j d)

  -- A cache that holds values of f still does when f's value at one more key is put in.
  pub put-agrees :
      (f : K → V) (k : K) (d : Dict K V)
      → ((j : K) (v : V) → get j d ≡ some v → v ≡ f j)
      → (j : K) (v : V) → get j (put k (f k) d) ≡ some v
      → v ≡ f j
  put-agrees f k d h j v p =
      let step = get-put k j (f k) d in
      elim (Bool-cases (k == j)) [
        | inl same ↦ ground (arith, step, (e.equal_iff k j).0 same)
        | inr differ ↦ h j v (ground (arith, step))
      ]

module _ {ℓ} {A : Type ℓ} where
  -- What a list keeps has the tested property, and every property the list had.
  pub All-keep {κ} :
      (P Q : A → Type κ) (p : A → Bool) (xs : List A)
      → ((x : A) → p x ≡ true → P x → Q x)
      → All P xs
      → All Q (keep p xs)
  unfolding keep
  All-keep P Q p [] f h = tt
  All-keep P Q p (x ∷ xs) f h = elim (Bool-cases (p x)) [
    | inl e ↦ rw e (f x e h.0, All-keep P Q p xs f h.1)
    | inr e ↦ rw e (All-keep P Q p xs f h.1)
  ]

  pub All-any {κ} : (P : A → Type κ) (xs : List A) → ((x : A) → P x) → All P xs
  All-any P [] f = tt
  All-any P (x ∷ xs) f = (f x, All-any P xs f)

module _ {A : Type 0} where
  abbrev pub Member : A → List A → Type 0
  Member a [] = ⊥
  Member a (x ∷ xs) = (x ≡ a) ⊎ Member a xs

  pub All-Member : (xs : List A) → All (λ x. Member x xs) xs
  All-Member [] = tt
  All-Member (x ∷ xs) = (
    inl refl,
    All-imp (λ y. Member y xs) (λ y. Member y (x ∷ xs)) xs (λ y m. inr m) (All-Member xs),
  )

  pub Member-append : (a : A) (xs ys : List A) → Member a xs → Member a (xs ++ ys)
  Member-append a [] ys m = elim m [ ]
  Member-append a (x ∷ xs) ys (inl e) = inl e
  Member-append a (x ∷ xs) ys (inr m) = inr (Member-append a xs ys m)

  pub Member-append_right : (a : A) (xs ys : List A) → Member a ys → Member a (xs ++ ys)
  Member-append_right a [] ys m = m
  Member-append_right a (x ∷ xs) ys m = inr (Member-append_right a xs ys m)

  pub Member-keep :
      (a : A) (p : A → Bool) (xs : List A) → p a ≡ true → Member a xs → Member a (keep p xs)
  unfolding keep
  Member-keep a p [] e m = m
  Member-keep a p (x ∷ xs) e (inl same) = rw (same, e) (inl refl)
  Member-keep a p (x ∷ xs) e (inr m) = elim (Bool-cases (p x)) [
    | inl kept ↦ rw (kept, keep) (inr (Member-keep a p xs e m))
    | inr left ↦ rw (left, keep) (Member-keep a p xs e m)
  ]

pub contains-Member :
    {A : Type 0} ⦃e : HasEq A⦄ (a : A) (xs : List A) → contains a xs ≡ true → Member a xs
unfolding contains
contains-Member a [] h = cc
contains-Member ⦃e⦄ a (x ∷ xs) h = elim (Bool-cases (x == a)) [
  | inl same ↦ inl ((e.equal_iff x a).0 same)
  | inr differ ↦ inr (contains-Member a xs (ground arith))
]

pub Member-All {κ} :
    {A : Type 0} (P : A → Type κ) (a : A) (xs : List A) → Member a xs → All P xs → P a
Member-All P a [] m h = elim m [ ]
Member-All P a (x ∷ xs) (inl e) h = subst P e h.0
Member-All P a (x ∷ xs) (inr m) h = Member-All P a xs m h.1
