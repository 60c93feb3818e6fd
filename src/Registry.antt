-- ===== src/Registry.antt =====
-- `HandlerRegistry` of contentops/core/registry.py. A handler is its factory's name and the object
-- that the factory returned, by a number; the factories are a parameter: `make` gives the object that
-- a factory returns at the call with this number, of all calls of factories, so a factory may return
-- the same object twice. `closed` lists the objects whose `close` was called, and `built` counts the
-- calls of factories.
pub mod Open
use content_ops.Prelude.{
  Dict, get, put, has, ℕ, ◌+◌, String, Bool, Option, none, some, List, [], ◌∷◌, ◌++◌, string_eq,
  nat_eq, option_eq, pair_eq, option_eq, pair_eq, ◌==◌,
}
use content_ops.Asset.{Asset, asset_eq}

pub record Instance : Type 0 where
  pub factory : String
  pub number : ℕ

pub record HandlerRegistry : Type 0 where
  pub factories : Dict Asset String
  pub instances : Dict Asset Instance
  pub built : ℕ
  pub closed : List ℕ

abbrev pub new_registry : HandlerRegistry
new_registry = record { factories = []; instances = []; built = 0; closed = [] }

unfoldable pub register : Asset → (factory : String) → HandlerRegistry → HandlerRegistry
unfolding put
register asset factory r = record r { factories = put asset factory r.factories }

-- `has`
unfoldable pub is_registered : Asset → HandlerRegistry → Bool
unfolding has
is_registered asset r = has asset r.factories

module _ (make : String → ℕ → ℕ) where
  -- `self._instances[asset] = self._factories[asset]()`
  abbrev pub construct : Asset → String → HandlerRegistry → HandlerRegistry
  construct asset factory r = record r {
    instances = put asset (record { factory = factory; number = make factory r.built }) r.instances;
    built = r.built + 1;
  }

  -- `get`; none where KeyError is raised
  unfoldable pub get_handler : Asset → HandlerRegistry → Option Instance × HandlerRegistry
  unfolding get
  get_handler asset r = elim (get asset r.instances) [
    | some handler ↦ (some handler, r)
    | none ↦ elim (get asset r.factories) [
      | none ↦ (none, r)
      | some factory ↦ (
        some (record { factory = factory; number = make factory r.built }),
        construct asset factory r,
      )
    ]
  ]

unfoldable pub reset : HandlerRegistry → HandlerRegistry
reset r = record r { instances = [] }

abbrev pub numbers : Dict Asset Instance → List ℕ
numbers [] = []
numbers ((asset, handler) ∷ rest) = handler.number ∷ numbers rest

unfoldable pub close_all : HandlerRegistry → HandlerRegistry
close_all r = record r { instances = []; closed = r.closed ++ numbers r.instances }

unfoldable pub reset_all : HandlerRegistry → HandlerRegistry
unfolding close_all
reset_all r = record (close_all r) { factories = [] }

-- One call of a method that changes the registry
pub data Method : Type 0 where
  registering : Asset → String → Method
  getting : Asset → Method
  resetting closing wiping : Method

module _ (make : String → ℕ → ℕ) where
  abbrev pub call : Method → HandlerRegistry → HandlerRegistry
  call (registering asset factory) r = register asset factory r
  call (getting asset) r = (get_handler make asset r).1
  call resetting r = reset r
  call closing r = close_all r
  call wiping r = reset_all r

  abbrev pub call_all : List Method → HandlerRegistry → HandlerRegistry
  call_all [] r = r
  call_all (m ∷ rest) r = call_all rest (call m r)
