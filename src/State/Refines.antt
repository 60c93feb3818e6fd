-- ===== src/State/Refines.antt =====
-- The state as a client sees it: a function from an asset's kind and id to its entry.
use content_ops.Prelude.{
  if◌then◌else◌, ◌==◌, String, ◌≡◌, refl, ◌∙◌, ◌&&◌, Option, none, some, List, [], ◌∷◌, arith,
  string_eq, nat_eq, option_eq, pair_eq, option_eq, pair_eq,
}
use content_ops.State.{AssetStateEntry, EnvState, new_entry}
use content_ops.State.Managed.{
  entry_of, entry_of-remember, entry_of-forget, IsTidy, Change, remembered, forgotten, change,
  changes, changes-IsTidy,
}

abbrev pub View : Type 0
View = String → String → Option AssetStateEntry

-- The view, changed at one asset
abbrev pub update : View → (kind id : String) → Option AssetStateEntry → View
update v kind id entry k i = if kind == k && id == i then entry else v k i

-- The same calls, on a view
abbrev pub replay : List Change → View → View
replay [] v = v
replay (remembered kind id remote_id sha status now ∷ os) v =
    replay os (update v kind id (some (new_entry remote_id sha status now)))
replay (forgotten kind id ∷ os) v = replay os (update v kind id none)

view-change :
    (o : Change) (s : EnvState) (k i : String)
    → entry_of (change o s) k i ≡ replay (o ∷ []) (entry_of s) k i
view-change (remembered kind id remote_id sha status now) s k i =
    entry_of-remember s kind id remote_id sha status now k i
view-change (forgotten kind id) s k i = entry_of-forget s kind id k i

-- Views that agree stay in agreement.
replay-same :
    (os : List Change) (v w : View)
    → ((k i : String) → v k i ≡ w k i)
    → (k i : String) → replay os v k i ≡ replay os w k i
replay-same [] v w h k i = h k i
replay-same (remembered kind id remote_id sha status now ∷ os) v w h k i =
    replay-same os _ _ (λ k i. ground (arith, h k i)) k i
replay-same (forgotten kind id ∷ os) v w h k i =
    replay-same os _ _ (λ k i. ground (arith, h k i)) k i

replay-step :
    (o : Change) (os : List Change) (v : View) (k i : String)
    → replay os (replay (o ∷ []) v) k i ≡ replay (o ∷ os) v k i
replay-step (remembered kind id remote_id sha status now) os v k i = refl
replay-step (forgotten kind id) os v k i = refl

changes-replay :
    (os : List Change) (s : EnvState) (k i : String)
    → entry_of (changes os s) k i ≡ replay os (entry_of s) k i
changes-replay [] s k i = refl
changes-replay (o ∷ os) s k i =
    changes-replay os (change o s) k i
    ∙ replay-same os (entry_of (change o s)) (replay (o ∷ []) (entry_of s)) (view-change o s) k i
    ∙ replay-step o os (entry_of s) k i

-- Any calls of `remember` and `forget` on a state without empty buckets lead to a state without empty
-- buckets, which reads, for every asset, as the same calls made on the function from assets to their
-- entries.
pub changes_refine :
    (os : List Change) (s : EnvState)
    → IsTidy s
    → IsTidy (changes os s)
      × ((k i : String) → entry_of (changes os s) k i ≡ replay os (entry_of s) k i)
changes_refine os s t = (changes-IsTidy os s t, changes-replay os s)
