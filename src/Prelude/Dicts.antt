-- ===== src/Prelude/Dicts.antt =====
-- Properties of all entries of a dictionary.
use mathlib.Core.Path.{◌≡◌, sym, subst}
use mathlib.Core.Option.{some}
use mathlib.Core.List.{[], ◌∷◌}
use mathlib.Core.Logic.{inl, inr}
use native.Mathlib.Omega.{arith}
use content_ops.Prelude.Tests.{Bool-cases, HasEq, ◌==◌}
use content_ops.Prelude.Lists.{All, Dict, get, put}

module _ {K V : Type 0} ⦃e : HasEq K⦄ (P : K → V → Type 0) where
  -- Every entry of the dictionary has the property.
  abbrev pub Entries : Dict K V → Type 0
  Entries d = All (λ (e : K × V). P e.0 e.1) d

  pub get-Entries : (k : K) (v : V) (d : Dict K V) → Entries d → get k d ≡ some v → P k v
  unfolding get
  get-Entries k v [] h found = cc
  get-Entries k v ((j, w) ∷ d) h found = elim (Bool-cases (j == k)) [
    | inl same ↦ ground (arith, e.equal_iff j k, h.0)
    | inr differ ↦ get-Entries k v d h.1 (ground arith)
  ]

  pub put-Entries : (k : K) (v : V) (d : Dict K V) → P k v → Entries d → Entries (put k v d)
  unfolding put
  put-Entries k v [] p h = (p, tt)
  put-Entries k v ((j, w) ∷ d) p h = elim (Bool-cases (j == k)) [
    | inl same ↦ rw (same, put) (subst (λ i. P i v) (sym ((e.equal_iff j k).0 same)) p, h.1)
    | inr differ ↦ rw (differ, put) (h.0, put-Entries k v d p h.1)
  ]
