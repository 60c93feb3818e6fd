-- ===== src/Prune/Orphans.antt =====
-- Which items the plan phase of `prune_cmd` of contentops/cli/commands/prune.py takes for orphans.
use mathlib.Core.Bool.{true≢false}
use content_ops.Prelude.{
  if◌then◌else◌, Bool-cases, Option-cases, nonempty, is_empty, All, All-append, contains, Member,
  All-Member, String, ◌≡◌, refl, sym, ◌∙◌, subst, inl, inr, Bool, true, false, ◌&&◌, ◌||◌, not,
  some, List, [], ◌∷◌, ◌++◌, string_eq, nat_eq, option_eq, pair_eq, option_eq, pair_eq,
}
use content_ops.Asset.{Asset, asset_eq}
use content_ops.Loaded.{ok, Result-cases}
use content_ops.Prune.Plan.{
  Remote, DriftHandler, Orphan, new_orphan, Plan, listed, noted, remote_id_of, is_orphan,
  consider_id, consider, consider_all, plan_items, plan_handler, plan_all,
}

-- An orphan: an item that the handler of its kind lists, with an envelope id, of which neither the
-- remote id nor the envelope id is a local key of the kind.
pub record IsListedBy (local : List String) (h : DriftHandler) (o : Orphan) : Type 0 where
  pub kind : o.asset ≡ h.asset
  pub items : List Remote
  pub listing : h.list_remote ≡ ok items
  pub remote : Remote
  pub is_listed : Member remote items
  pub remote_id : o.remote_id ≡ remote_id_of remote
  pub envelope : h.to_envelope remote ≡ some o.envelope_id
  pub remote_id_nonempty : nonempty o.remote_id ≡ true
  pub envelope_id_nonempty : nonempty o.envelope_id ≡ true
  pub remote_id_not_local : contains o.remote_id local ≡ false
  pub envelope_id_not_local : contains o.envelope_id local ≡ false

no_stop :
    (a b c d : Bool)
    → (not a || not b || not (not (c || d))) ≡ false
    → (a ≡ true) × (b ≡ true) × (c ≡ false) × (d ≡ false)
no_stop true true false false h = (refl, refl, refl, refl)
no_stop true true true d h = absurd (true≢false h)
no_stop true true false true h = absurd (true≢false h)
no_stop true false c d h = absurd (true≢false h)
no_stop false b c d h = absurd (true≢false h)

All-snoc :
    {A : Type 0} (P : A → Type 0) (xs : List A) (x : A) → All P xs → P x → All P (xs ++ (x ∷ []))
All-snoc P xs x h p = All-append P xs (x ∷ []) h (p, tt)

module _ (locked : List (Asset × String)) (include_locked : Bool) (allow : Bool)
    (Good : Orphan → Type 0) where
  abbrev pub AllGood : Plan → Type 0
  AllGood p = All Good p.orphans

  pick-Good :
      (stop is_locked : Bool) (p q : Plan) (o : Orphan)
      → AllGood p
      → q.orphans ≡ p.orphans
      → (stop ≡ false → Good o)
      → AllGood (
          if stop
          then p
          else if is_locked && not include_locked
          then q
          else record p { orphans = p.orphans ++ (o ∷ []) })
  pick-Good true is_locked p q o h e g = h
  pick-Good false is_locked p q o h e g = elim (Bool-cases (is_locked && not include_locked)) [
    | inl c ↦ rw c (subst (All Good) (sym e) h)
    | inr c ↦ rw c (All-snoc Good p.orphans o h (g refl))
  ]

  module _ (h : DriftHandler) (local : List String) (items : List Remote)
      (listing : h.list_remote ≡ ok items)
      (good : (o : Orphan) → IsListedBy local h o → Good o) where
    consider-Good :
        (remote : Remote) (p : Plan)
        → Member remote items
        → AllGood p
        → AllGood (consider locked include_locked h local remote p)
    unfolding consider consider_id is_orphan
    consider-Good remote p member all = elim (Option-cases (h.to_envelope remote)) [
      | inl e ↦ rw (e, consider) all
      | inr (env_id, e) ↦
          rw (e, consider)
            (pick-Good _ (contains (h.asset, env_id) locked) p _
              (new_orphan h.asset env_id (remote_id_of remote)) all refl
              (λ stop.
                let parts =
                  no_stop (nonempty env_id) (nonempty (remote_id_of remote))
                    (contains (remote_id_of remote) local) (contains env_id local) stop in
                good (new_orphan h.asset env_id (remote_id_of remote)) (record {
                  kind = refl;
                  items = items;
                  listing = listing;
                  remote = remote;
                  is_listed = member;
                  remote_id = refl;
                  envelope = e;
                  remote_id_nonempty = parts.1;
                  envelope_id_nonempty = parts.0;
                  remote_id_not_local = parts.2;
                  envelope_id_not_local = parts.3;
                })))
    ]

    consider_all-Good :
        (rest : List Remote) (p : Plan)
        → All (λ r. Member r items) rest
        → AllGood p
        → AllGood (consider_all locked include_locked h local rest p)
    unfolding consider_all
    consider_all-Good [] p members all = all
    consider_all-Good (remote ∷ rest) p members all =
        consider_all-Good rest (consider locked include_locked h local remote p) members.1
          (consider-Good remote p members.0 all)

  module _ (h : DriftHandler) (local : List String)
      (good : (o : Orphan)
        → IsListedBy local h o
        → (is_empty local ≡ true → allow ≡ true)
        → Good o) where
    plan_items-Good :
        (items : List Remote) (p : Plan)
        → h.list_remote ≡ ok items
        → AllGood p
        → AllGood (plan_items locked include_locked allow h local items p)
    unfolding plan_items
    plan_items-Good [] p listing all = all
    plan_items-Good (r ∷ rest) p listing all = elim (Bool-cases (is_empty local)) [
      | inr e ↦ rw e (
          consider_all-Good h local (r ∷ rest) listing
            (λ o l. good o l (λ t. absurd (true≢false (sym t ∙ e)))) (r ∷ rest) (listed p)
            (All-Member (r ∷ rest)) all)
      | inl e ↦ rw e (elim (Bool-cases allow) [
        | inr a ↦ rw a all
        | inl a ↦ rw a (
            consider_all-Good h local (r ∷ rest) listing (λ o l. good o l (λ t. a)) (r ∷ rest)
              (noted h p) (All-Member (r ∷ rest)) all)
      ])
    ]

    plan_handler-Good :
        (p : Plan) → AllGood p → AllGood (plan_handler locked include_locked allow h local p)
    unfolding plan_handler
    plan_handler-Good p all = elim (Result-cases h.list_remote) [
      | inl (items, e) ↦ rw (e, plan_handler) (plan_items-Good items p e all)
      | inr (exc, e) ↦ rw (e, plan_handler) all
    ]

  pub plan_all-Good :
      (local_of : Asset → List String) (handlers : List DriftHandler) (p : Plan)
      → All
          (λ (h : DriftHandler).
            (o : Orphan)
            → IsListedBy (local_of h.asset) h o
            → (is_empty (local_of h.asset) ≡ true → allow ≡ true)
            → Good o)
          handlers
      → AllGood p
      → AllGood (plan_all locked include_locked allow local_of handlers p)
  unfolding plan_all
  plan_all-Good local_of [] p good all = all
  plan_all-Good local_of (h ∷ rest) p good all =
      plan_all-Good local_of rest (plan_handler locked include_locked allow h (local_of h.asset) p)
        good.1 (plan_handler-Good h (local_of h.asset) good.0 p all)
