-- ===== src/EnvStatus.antt =====
-- contentops/core/env_status.py: which envelope statuses (contentops/models.py) an environment
-- accepts.
-- `strip_lower` stands for Python's `str.strip().lower()`.
use text.Mathlib.TextEquality.{eq_iff}
use content_ops.Prelude.{
  ℕ, String, true, false, HasEq, ◌↔◌, ◌≡◌, nat_beq, arith, Option, none, some, ◌||◌, not, ◌==◌,
  if◌then◌else◌, List, [], ◌∷◌, contains, string_eq, Bool-cases, inl, inr, subst, refl,
}

pub data Status : Type 0 where
  experimental test production deprecated : Status

abbrev pub rank : Status → ℕ
rank experimental = 0
rank test = 1
rank production = 2
rank deprecated = 3

pub status_beq_iff : (a b : Status) → (nat_beq (rank a) (rank b) ≡ true) ↔ (a ≡ b)
status_beq_iff a b = (λ h. ground arith, λ h. ground arith)

instance abbrev pub status_eq : HasEq Status
status_eq = record { equal = λ a b. nat_beq (rank a) (rank b); equal_iff = status_beq_iff }

abbrev pub prod_aliases : List String
prod_aliases = "prod" ∷ "production" ∷ []

abbrev pub dedicated_test_aliases : List String
dedicated_test_aliases = "test" ∷ []

abbrev pub integration_aliases : List String
integration_aliases = "integration" ∷ "staging" ∷ "stage" ∷ []

abbrev pub dev_aliases : List String
dev_aliases = "dev" ∷ "development" ∷ "sandbox" ∷ "local" ∷ []

-- `env_name or ""`
abbrev name_or_empty : Option String → String
name_or_empty none = ""
name_or_empty (some name) = name

test_is_no_dev_alias :
    (key : String) → contains key dedicated_test_aliases ≡ true → contains key dev_aliases ≡ false
unfolding contains
test_is_no_dev_alias key h = elim (Bool-cases ("test" == key)) [
  | inl e ↦ subst (λ k. contains k dev_aliases ≡ false) ((eq_iff "test" key).0 e) refl
  | inr e ↦ ground arith
]

module _ (strip_lower : String → String) where
  -- `(env_name or "").strip().lower()`
  abbrev pub env_key : Option String → String
  env_key env_name = strip_lower (name_or_empty env_name)

  unfoldable pub allowed_statuses_for_env : Option String → List Status
  allowed_statuses_for_env env_name =
      let key = env_key env_name in
      if contains key dev_aliases
      then experimental ∷ test ∷ production ∷ deprecated ∷ []
      else if contains key dedicated_test_aliases
      then test ∷ deprecated ∷ []
      else if contains key integration_aliases
      then test ∷ production ∷ deprecated ∷ []
      else production ∷ deprecated ∷ []

  -- For every environment name: DEPRECATED is accepted; EXPERIMENTAL exactly under the
  -- development names; TEST exactly under the development, dedicated test and integration names
  -- (so never in production or under an unknown name); PRODUCTION everywhere but under a dedicated
  -- test name.
  pub allowed_statuses_exact :
      (env : Option String)
      → (contains deprecated (allowed_statuses_for_env env) ≡ true)
        × (contains experimental (allowed_statuses_for_env env)
            ≡ contains (env_key env) dev_aliases)
        × (contains test (allowed_statuses_for_env env) ≡ (
            contains (env_key env) dev_aliases
            || contains (env_key env) dedicated_test_aliases
            || contains (env_key env) integration_aliases))
        × (contains production (allowed_statuses_for_env env)
            ≡ not (contains (env_key env) dedicated_test_aliases))
  unfolding allowed_statuses_for_env contains
  allowed_statuses_exact env = ground (arith, test_is_no_dev_alias (env_key env))
