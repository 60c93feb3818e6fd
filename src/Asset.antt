-- ===== src/Asset.antt =====
-- The asset taxonomy (contentops/core/asset.py) and the results that handlers return
-- (contentops/core/result.py).
use Prim.Native.String.{◌++◌ as concat}
use text.Mathlib.Text.{starts_with}
use content_ops.Prelude.{
  nat_beq, HasEq, ◌==◌, ℕ, String, ◌≡◌, ◌↔◌, Bool, true, false, ◌||◌, Option, some, arith,
  string_eq, nat_eq,
}

pub data Asset : Type 0 where
  sentinel_analytic sentinel_hunting sentinel_watchlist sentinel_parser : Asset
  sentinel_data_connector defender_custom_detection : Asset
  sentinel_automation_rule sentinel_playbook : Asset

abbrev pub rank : Asset → ℕ
rank sentinel_analytic = 0
rank sentinel_hunting = 1
rank sentinel_watchlist = 2
rank sentinel_parser = 3
rank sentinel_data_connector = 4
rank defender_custom_detection = 5
rank sentinel_automation_rule = 6
rank sentinel_playbook = 7

pub asset_beq_iff : (a b : Asset) → (nat_beq (rank a) (rank b) ≡ true) ↔ (a ≡ b)
asset_beq_iff a b = (λ h. ground arith, λ h. ground arith)

instance abbrev pub asset_eq : HasEq Asset
asset_eq = record { equal = λ a b. nat_beq (rank a) (rank b); equal_iff = asset_beq_iff }

-- `Asset.X.value`
abbrev pub value : Asset → String
value sentinel_analytic = "sentinel_analytic"
value sentinel_hunting = "sentinel_hunting"
value sentinel_watchlist = "sentinel_watchlist"
value sentinel_parser = "sentinel_parser"
value sentinel_data_connector = "sentinel_data_connector"
value defender_custom_detection = "defender_custom_detection"
value sentinel_automation_rule = "sentinel_automation_rule"
value sentinel_playbook = "sentinel_playbook"

-- `asset.value.startswith("defender_")`
unfoldable pub is_defender : Asset → Bool
is_defender a = starts_with (value a) "defender_"

-- `APPLY_ORDER_BY_ASSET.get(asset, APPLY_ORDER_DEFAULT)`
unfoldable pub apply_order : Asset → ℕ
apply_order sentinel_playbook = 10
apply_order sentinel_automation_rule = 90
apply_order _ = 50

pub data AssetMode : Type 0 where
  managed monitor : AssetMode

abbrev pub is_monitor : AssetMode → Bool
is_monitor managed = false
is_monitor monitor = true

-- `DEFAULT_ASSET_MODES`
unfoldable pub default_mode : Asset → AssetMode
default_mode sentinel_automation_rule = monitor
default_mode sentinel_playbook = monitor
default_mode _ = managed

-- `monitor_mode_detail` of contentops/cli/commands/_shared.py
unfoldable pub monitor_mode_detail : Asset → String
monitor_mode_detail asset = concat "assetModes[" (
    concat (value asset) (
      concat "]=monitor — collect/drift/lint only; set `assetModes: {" (
        concat (value asset) (
          concat ": managed}` on the workspace (or defender:) "
            "block in config/tenant.yml to enable apply and prune"))))

pub data PlanAction : Type 0 where
  create update disable skip noop delete : PlanAction

-- `detail` and `error` are the message texts; `verified` is None before any check.
pub record ActionResult : Type 0 where
  pub asset_id : String
  pub asset_kind : String
  pub action : PlanAction
  pub status : String
  pub detail : String
  pub verified : Option Bool
  pub error : Option String

unfoldable pub is_error : ActionResult → Bool
is_error r = r.status == "error" || starts_with r.status "error-"

unfoldable pub is_failure : ActionResult → Bool
unfolding is_error
is_failure r = is_error r || elim r.verified [ some false ↦ true | _ ↦ false ]

abbrev pub is_skip : PlanAction → Bool
is_skip skip = true
is_skip _ = false
