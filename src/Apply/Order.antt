-- ===== src/Apply/Order.antt =====
-- `ordered_for_apply` of contentops/cli/commands/apply_support.py: playbooks before the kinds that
-- refer to them, automation rules last.
use mathlib.Core.List.{Perm}
use content_ops.Prelude.{
  ltb, nat_beq, if◌then◌else◌, All, All-imp, text_ltb, text_asym, text_not_less_trans, sorted,
  sorted-perm, IsOrdered, sorted-IsOrdered, ◌≤◌, ◌≡◌, refl, sym, ◌∙◌, Bool, true, false, ◌&&◌, ◌||◌,
  List, [], ◌∷◌, arith,
}
use content_ops.Asset.{
  Asset, sentinel_analytic, sentinel_hunting, sentinel_watchlist, sentinel_parser,
  sentinel_data_connector, defender_custom_detection, sentinel_automation_rule, sentinel_playbook,
  apply_order, asset_eq,
}
use content_ops.Loaded.{LoadedAsset}

abbrev pub is_playbook : Asset → Bool
is_playbook sentinel_playbook = true
is_playbook _ = false

abbrev pub is_automation_rule : Asset → Bool
is_automation_rule sentinel_automation_rule = true
is_automation_rule _ = false

-- Both are playbooks, or automation rules, or of other kinds.
abbrev pub SameTier : Asset → Asset → Type 0
SameTier a b = (is_playbook a ≡ is_playbook b) × (is_automation_rule a ≡ is_automation_rule b)

tier_of :
    (a : Asset)
    → apply_order a ≡ (if is_playbook a then 10 else if is_automation_rule a then 90 else 50)
unfolding apply_order
tier_of sentinel_analytic = refl
tier_of sentinel_hunting = refl
tier_of sentinel_watchlist = refl
tier_of sentinel_parser = refl
tier_of sentinel_data_connector = refl
tier_of defender_custom_detection = refl
tier_of sentinel_automation_rule = refl
tier_of sentinel_playbook = refl

first_tier : (a : Asset) → apply_order a ≤ 10 → a ≡ sentinel_playbook
unfolding apply_order
first_tier a h = ground (arith, h)

last_tier : (b : Asset) → 90 ≤ apply_order b → b ≡ sentinel_automation_rule
unfolding apply_order
last_tier b h = ground (arith, h)

same_order : (a b : Asset) → SameTier a b → apply_order a ≡ apply_order b
same_order a b h = tier_of a ∙ rw (h.0, h.1) (sym (tier_of b))

module _ {Payload : Type 0} where
  -- The comparison of the keys `(order, str(path))`
  unfoldable pub key_ltb : LoadedAsset Payload → LoadedAsset Payload → Bool
  key_ltb a b =
      ltb (apply_order a.asset) (apply_order b.asset)
      || (nat_beq (apply_order a.asset) (apply_order b.asset) && text_ltb a.path b.path)

  unfoldable pub ordered_for_apply : List (LoadedAsset Payload) → List (LoadedAsset Payload)
  unfolding sorted
  ordered_for_apply loaded = sorted key_ltb loaded

  -- No playbook stands behind another kind, and no automation rule before one; and of two playbooks,
  -- of two automation rules, or of two assets that are neither, none stands before one with a smaller
  -- path.
  abbrev pub InOrder : LoadedAsset Payload → LoadedAsset Payload → Type 0
  InOrder a b =
      (b.asset ≡ sentinel_playbook → a.asset ≡ sentinel_playbook)
      × (a.asset ≡ sentinel_automation_rule → b.asset ≡ sentinel_automation_rule)
      × (SameTier a.asset b.asset → text_ltb b.path a.path ≡ false)

  -- In an earlier or the same tier of `APPLY_ORDER_BY_ASSET`
  abbrev InTiers : LoadedAsset Payload → LoadedAsset Payload → Type 0
  InTiers a b =
      (apply_order a.asset ≤ apply_order b.asset)
      × (apply_order a.asset ≡ apply_order b.asset → text_ltb b.path a.path ≡ false)

  InTiers-trans : (x y z : LoadedAsset Payload) → InTiers x y → InTiers y z → InTiers x z
  InTiers-trans x y z p q = (
    omega (arith, p.0, q.0),
    λ e.
        text_not_less_trans z.path y.path x.path (q.1 (omega (arith, p.0, q.0, e)))
          (p.1 (omega (arith, p.0, q.0, e))),
  )

  InTiers-less : (x y : LoadedAsset Payload) → key_ltb y x ≡ true → InTiers y x
  unfolding key_ltb
  InTiers-less x y h = (ground arith, λ e. ground (arith, text_asym y.path x.path))

  InTiers-not_less : (x y : LoadedAsset Payload) → key_ltb y x ≡ false → InTiers x y
  unfolding key_ltb
  InTiers-not_less x y h = (ground arith, λ e. ground arith)

  InTiers-InOrder : (a b : LoadedAsset Payload) → InTiers a b → InOrder a b
  unfolding apply_order
  InTiers-InOrder a b h = (
    λ e. first_tier a.asset (rw e at h.0),
    λ e. last_tier b.asset (rw e at h.0),
    λ e. h.1 (same_order a.asset b.asset e),
  )

  All-InOrder :
      (a : LoadedAsset Payload) (bs : List (LoadedAsset Payload))
      → All (InTiers a) bs
      → All (InOrder a) bs
  All-InOrder a bs h = All-imp (InTiers a) (InOrder a) bs (InTiers-InOrder a) h

  IsOrdered-InOrder :
      (bs : List (LoadedAsset Payload))
      → IsOrdered key_ltb InTiers bs
      → IsOrdered key_ltb InOrder bs
  IsOrdered-InOrder [] h = tt
  IsOrdered-InOrder (b ∷ bs) h = (All-InOrder b bs h.0, IsOrdered-InOrder bs h.1)

  -- The apply order of a list of assets has the same assets, each as often. In it the playbooks come
  -- first and the automation rules last, with all other kinds between them; among the playbooks, the
  -- automation rules and the others, no asset comes before one with a smaller path.
  pub ordered_for_apply-IsOrdered :
      (loaded : List (LoadedAsset Payload))
      → Perm (ordered_for_apply loaded) loaded
        × IsOrdered key_ltb InOrder (ordered_for_apply loaded)
  unfolding ordered_for_apply
  ordered_for_apply-IsOrdered loaded = (
    sorted-perm key_ltb loaded,
    IsOrdered-InOrder (sorted key_ltb loaded)
        (sorted-IsOrdered key_ltb InTiers InTiers-trans InTiers-less InTiers-not_less loaded),
  )
