-- ===== src/Tests/DriftRuns.antt =====
-- Drift reports of a small tenant.
use content_ops.Prelude.{
  nat_beq, if◌then◌else◌, ◌==◌, All, text_ltb, Shuffle, ℕ, ◌≤◌, String, ◌≡◌, refl, ◌⊎◌, inr, Bool,
  true, false, Option, none, some, List, [], ◌∷◌, map, string_eq, nat_eq, option_eq, pair_eq,
  option_eq, pair_eq,
}
use content_ops.Asset.{sentinel_analytic, sentinel_watchlist, asset_eq}
use content_ops.EnvStatus.{production, status_eq}
use content_ops.Loaded.{ok, raises, LoadedAsset}
use content_ops.Drift.Slug.{char_count, disambiguate, is_valid_envelope_id, displayname_slug}
use content_ops.Drift.Slug.Bounds.{displayname_slug_bounds}
use content_ops.Drift.Detect.{
  Remote, Envelope, DriftCapable, Kind, new, changed, failed, DriftEntry, has_drift, has_errors,
  pairs_of, pair_ltb, detect_drift,
}
use content_ops.Drift.Stable.{IsRelisted, detect_drift_relisted}
use content_ops.Drift.Normal.{
  normalize_text, Value, string, scalar, dict, no_fields, field, normalize, payloads_match,
}
use content_ops.Drift.Normal.Texts.{Each, NotCr, IsTidy, with_crlf}
use content_ops.Drift.Normal.Again.{payloads_match-normalize}
use content_ops.Drift.Clean.{IsChecked, detect_drift-IsChecked}

abbrev as_is : String → String
as_is s = s

abbrev same_payload : String → String → Bool
same_payload a b = a == b

abbrev item : String → ℕ → Remote ℕ
item name n = record { name = name; id = ""; body = n }

-- All items have the title "test", so that their ids collide; an odd number is not kept.
abbrev envelope_of : Remote ℕ → Option (Envelope String)
envelope_of r =
    if nat_beq r.body 1
    then none
    else some
        (record { asset = "sentinel_analytic"; id = "test"; arm_name = r.name; payload = "query" })

abbrev tenant : List (Remote ℕ) → DriftCapable String ℕ
tenant remotes = record {
  asset = sentinel_analytic;
  list_remote = ok remotes;
  to_envelope = envelope_of;
}

abbrev down : DriftCapable String ℕ
down = record { asset = sentinel_watchlist; list_remote = raises "401"; to_envelope = envelope_of }

abbrev file : String → String → Option (LoadedAsset String)
file name payload = some (record {
  path = name;
  asset = sentinel_analytic;
  id = "test";
  arm_name = name;
  status = production;
  owner = none;
  local_customization = false;
  payload = payload;
})

abbrev kinds : List (DriftEntry String) → List (String × Kind)
kinds entries = map (λ e. (e.asset_id, e.kind)) entries

kinds_listed :
    kinds (
      detect_drift as_is same_payload
        (tenant (item "b-2" 0 ∷ item "c" 1 ∷ item "a-1" 2 ∷ []) ∷ down ∷ [])
        (file "a-1" "old" ∷ none ∷ []))
    ≡ (("test-a1", changed) ∷ ("test-b2", new) ∷ ("*", failed) ∷ [])
unfolding detect_drift text_ltb
kinds_listed = refl

suffix_cut : disambiguate as_is "a-" "6babf568-12ab" ≡ "a-6babf568"
unfolding disambiguate
suffix_cut = refl

detect_drift_relisted_example :
    detect_drift as_is same_payload
      (tenant (item "b-2" 0 ∷ item "a-1" 2 ∷ []) ∷ down ∷ [])
      (file "a-1" "old" ∷ none ∷ [])
    ≡ detect_drift as_is same_payload
        (tenant (item "a-1" 2 ∷ item "b-2" 0 ∷ []) ∷ down ∷ [])
        (file "a-1" "old" ∷ none ∷ [])
unfolding pairs_of pair_ltb text_ltb
detect_drift_relisted_example =
    detect_drift_relisted as_is same_payload (file "a-1" "old" ∷ none ∷ [])
      (tenant (item "b-2" 0 ∷ item "a-1" 2 ∷ []) ∷ down ∷ [])
      (tenant (item "a-1" 2 ∷ item "b-2" 0 ∷ []) ∷ down ∷ [])
      (
        IsRelisted.reordered (tenant []) (Shuffle.exchange (item "b-2" 0) (item "a-1" 2) [])
            ((inr (refl, refl), tt), (tt, tt)),
        (IsRelisted.unchanged down, tt),
      )

detect_drift-IsChecked_example :
    All
      (IsChecked same_payload as_is (file "a-1" "query" ∷ file "b-2" "query" ∷ []))
      (tenant (item "b-2" 0 ∷ item "a-1" 2 ∷ []) ∷ [])
unfolding detect_drift has_drift has_errors text_ltb
detect_drift-IsChecked_example =
    detect_drift-IsChecked same_payload as_is (file "a-1" "query" ∷ file "b-2" "query" ∷ [])
      (tenant (item "b-2" 0 ∷ item "a-1" 2 ∷ []) ∷ []) refl refl

abbrev rule : (query : String) → Value
rule query = dict (field "query" (string query) (field "enabled" (scalar "True") no_fields))

rule_normal :
    normalize (rule "T  \r\n| take 1 \n\n")
    ≡ dict (field "enabled" (scalar "True") (field "query" (string "T\n| take 1") no_fields))
unfolding normalize text_ltb
rule_normal = refl

payloads_match-normalize_example :
    IsTidy (normalize_text "T \r\n| take 1\n")
    × (IsTidy "T \r\n| take 1\n"
        → normalize (string "T \r\n| take 1\n") ≡ string "T \r\n| take 1\n")
    × (Each NotCr "T \r\n| take 1\n"
        → payloads_match (string (with_crlf "T \r\n| take 1\n")) (string "T \r\n| take 1\n") ≡ true)
    × (payloads_match (normalize (rule "T \r\n| take 1")) (rule "T \r\n| take 1") ≡ true)
    × (payloads_match (normalize (rule "T \r\n| take 1")) (rule "T")
        ≡ payloads_match (rule "T \r\n| take 1") (rule "T"))
    × (payloads_match (rule "T") (normalize (rule "T \r\n| take 1"))
        ≡ payloads_match (rule "T") (rule "T \r\n| take 1"))
payloads_match-normalize_example =
    payloads_match-normalize "T \r\n| take 1\n" (rule "T \r\n| take 1") (rule "T")

slug_cut : displayname_slug as_is as_is "sign-ins: 2 (new)!" none ≡ "sign-ins-2-new"
unfolding displayname_slug
slug_cut = refl

-- A slug of one character gives way to the fallback.
slug_of_one_character : displayname_slug as_is as_is "x" (some "6babf568") ≡ "6babf568"
unfolding displayname_slug
slug_of_one_character = refl

displayname_slug_bounds_example :
    ((displayname_slug as_is as_is "sign ins" none ≡ "")
      ⊎ (is_valid_envelope_id (displayname_slug as_is as_is "sign ins" none) ≡ true))
    × (char_count (displayname_slug as_is as_is "sign ins" none) ≤ 80)
    × (char_count (disambiguate as_is (displayname_slug as_is as_is "sign ins" none) "6bab-f568")
        ≤ 80)
displayname_slug_bounds_example = displayname_slug_bounds as_is as_is "sign ins" none "6bab-f568"
