-- ===== src/Registry/Open.antt =====
-- No closed handler is handed out by the registry of contentops/core/registry.py.
use mathlib.Core.Option.{some_inj}
use content_ops.Prelude.{
  Bool-cases, Option-cases, nat_eq, ◌==◌, All, All-append, All-imp, contains, Dict, get, put, ℕ,
  ◌+◌, ◌<◌, String, ◌≡◌, refl, sym, ◌∙◌, subst, inl, inr, false, none, some, List, [], ◌∷◌, arith,
  string_eq, option_eq, pair_eq, option_eq, pair_eq,
}
use content_ops.Asset.{Asset, asset_eq}
use content_ops.Registry.{
  Instance, HandlerRegistry, new_registry, register, construct, get_handler, reset, numbers,
  close_all, reset_all, Method, registering, getting, resetting, closing, wiping, call, call_all,
}

module _ (P : Instance → Type 0) where
  get-All :
      (k : Asset) (i : Instance) (d : Dict Asset Instance)
      → All (λ (e : Asset × Instance). P e.1) d
      → get k d ≡ some i
      → P i
  unfolding get
  get-All k i [] h e = absurd (ground (arith, e))
  get-All k i ((j, w) ∷ d) h e = elim (Bool-cases (j == k)) [
    | inl same ↦ subst P (ground (arith, e, same)) h.0
    | inr differ ↦ get-All k i d h.1 (ground (arith, e, differ))
  ]

  put-All :
      (k : Asset) (i : Instance) (d : Dict Asset Instance)
      → P i
      → All (λ (e : Asset × Instance). P e.1) d
      → All (λ (e : Asset × Instance). P e.1) (put k i d)
  unfolding put
  put-All k i [] p h = (p, tt)
  put-All k i ((j, w) ∷ d) p h = elim (Bool-cases (j == k)) [
    | inl same ↦ rw same (p, h.1)
    | inr differ ↦ rw differ (h.0, put-All k i d p h.1)
  ]

-- A factory returned the object, at a call before this one.
abbrev pub IsBuilt : (make : String → ℕ → ℕ) → (built object : ℕ) → Type 0
IsBuilt make built object = (f : String) × (n : ℕ) × (object ≡ make f n) × (n < built)

-- The objects in use have been built, and no cached handler is closed.
pub record IsConsistent (make : String → ℕ → ℕ) (r : HandlerRegistry) : Type 0 where
  pub closed_built : All (IsBuilt make r.built) r.closed
  pub cached :
      All
        (λ (e : Asset × Instance).
          IsBuilt make r.built e.1.number × (contains e.1.number r.closed ≡ false))
        r.instances

numbers-IsBuilt :
    (make : String → ℕ → ℕ) (n : ℕ) (closed : List ℕ) (d : Dict Asset Instance)
    → All
        (λ (e : Asset × Instance). IsBuilt make n e.1.number × (contains e.1.number closed ≡ false))
        d
    → All (IsBuilt make n) (numbers d)
numbers-IsBuilt make n closed [] h = tt
numbers-IsBuilt make n closed ((asset, i) ∷ rest) h =
    (h.0.0, numbers-IsBuilt make n closed rest h.1)

module _ (make : String → ℕ → ℕ)
    (fresh : (f g : String) (n m : ℕ) → make f n ≡ make g m → n ≡ m) where
  fresh_object :
      (factory : String) (n : ℕ) (closed : List ℕ)
      → All (IsBuilt make n) closed
      → contains (make factory n) closed ≡ false
  unfolding contains
  fresh_object factory n [] h = refl
  fresh_object factory n (k ∷ rest) ((f, m, e, less), h) = elim (Bool-cases (k == make factory n)) [
    | inl met ↦
        let one : m ≡ n =
          fresh f factory m n (sym e ∙ (nat_eq.equal_iff k (make factory n)).0 met) in
        absurd (omega (arith, one, less))
    | inr differs ↦ rw differs (fresh_object factory n rest h)
  ]

  later-IsBuilt : (n k : ℕ) → IsBuilt make n k → IsBuilt make (n + 1) k
  later-IsBuilt n k (f, m, e, less) = (f, m, e, omega (arith, less))

  construct-IsConsistent :
      (asset : Asset) (factory : String) (r : HandlerRegistry)
      → IsConsistent make r
      → IsConsistent make (construct make asset factory r)
  construct-IsConsistent asset factory r inv = record {
    closed_built = All-imp _ _ r.closed (later-IsBuilt r.built) inv.closed_built;
    cached =
        put-All (λ i. IsBuilt make (r.built + 1) i.number × (contains i.number r.closed ≡ false))
          asset _ r.instances
          (
            (factory, r.built, refl, omega arith),
            fresh_object factory r.built r.closed inv.closed_built,
          )
          (All-imp _ _ r.instances (λ e h. (later-IsBuilt r.built e.1.number h.0, h.1)) inv.cached);
  }

  get_handler-IsConsistent :
      (asset : Asset) (r : HandlerRegistry)
      → IsConsistent make r
      → IsConsistent make (get_handler make asset r).1
  unfolding get_handler
  get_handler-IsConsistent asset r inv = elim (Option-cases (get asset r.instances)) [
    | inr (i, e) ↦ rw (e, get_handler) inv
    | inl e ↦
        rw (e, get_handler)
          (elim (Option-cases (get asset r.factories)) [
            | inl none_there ↦ rw none_there inv
            | inr (factory, there) ↦ rw there (construct-IsConsistent asset factory r inv)
          ])
  ]

  close_all-IsConsistent :
      (r : HandlerRegistry) → IsConsistent make r → IsConsistent make (close_all r)
  unfolding close_all
  close_all-IsConsistent r inv = record {
    closed_built =
        All-append _ r.closed (numbers r.instances) inv.closed_built
          (numbers-IsBuilt make r.built r.closed r.instances inv.cached);
    cached = tt;
  }

  call-IsConsistent :
      (m : Method) (r : HandlerRegistry) → IsConsistent make r → IsConsistent make (call make m r)
  unfolding register reset reset_all
  call-IsConsistent (registering asset factory) r inv = record {
    closed_built = inv.closed_built;
    cached = inv.cached;
  }
  call-IsConsistent (getting asset) r inv = get_handler-IsConsistent asset r inv
  call-IsConsistent resetting r inv = record { closed_built = inv.closed_built; cached = tt }
  call-IsConsistent closing r inv = close_all-IsConsistent r inv
  call-IsConsistent wiping r inv =
      let done = close_all-IsConsistent r inv in
      record { closed_built = done.closed_built; cached = done.cached }

  call_all-IsConsistent :
      (ms : List Method) (r : HandlerRegistry)
      → IsConsistent make r
      → IsConsistent make (call_all make ms r)
  call_all-IsConsistent [] r inv = inv
  call_all-IsConsistent (m ∷ rest) r inv =
      call_all-IsConsistent rest (call make m r) (call-IsConsistent m r inv)

  returned :
      (asset : Asset) (i : Instance) (r : HandlerRegistry)
      → IsConsistent make r
      → (get_handler make asset r).0 ≡ some i
      → contains i.number r.closed ≡ false
  unfolding get_handler
  returned asset i r inv e = elim (Option-cases (get asset r.instances)) [
    | inr (j, found) ↦
        (get-All (λ k. IsBuilt make r.built k.number × (contains k.number r.closed ≡ false)) asset i
          r.instances inv.cached (found ∙ (rw (found, get_handler) at e))).1
    | inl absent ↦ elim (Option-cases (get asset r.factories)) [
      | inl missing ↦
          let never : none ≡ some i = rw (absent, get_handler, missing) at e in
          absurd (ground (arith, never))
      | inr (factory, there) ↦
          let new : some (record { factory = factory; number = make factory r.built }) ≡ some i =
            rw (absent, get_handler, there) at e in
          subst (λ k. contains k.number r.closed ≡ false) (some_inj.0 new)
            (fresh_object factory r.built r.closed inv.closed_built)
    ]
  ]

  -- If the factories never return the same object twice, then after any calls of the registry's methods
  -- a handler that `get` returns has not been closed.
  pub get_handler_open :
      (ms : List Method) (asset : Asset) (i : Instance)
      → (get_handler make asset (call_all make ms new_registry)).0 ≡ some i
      → contains i.number (call_all make ms new_registry).closed ≡ false
  get_handler_open ms asset i e =
      returned asset i (call_all make ms new_registry)
        (call_all-IsConsistent ms new_registry (record { closed_built = tt; cached = tt })) e
