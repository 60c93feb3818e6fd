-- ===== src/State/Managed.antt =====
-- What `remember` and `forget` do to the assets that a state manages.
use text.Mathlib.TextEquality.{eq_iff}
use content_ops.Prelude.{
  if◌then◌else◌, Bool-cases, Option-cases, ◌==◌, length, is_empty, All, Dict, get, put, pop, has,
  get-nil, get-put, get-pop, ℕ, ◌+◌, String, ◌≡◌, refl, ap, inl, inr, true, false, ◌&&◌, Option,
  none, some, List, [], ◌∷◌, arith, string_eq, nat_eq,
}
use content_ops.State.{
  AssetStateEntry, Bucket, EnvState, or_empty, is_managed, new_entry, remember, drop_empty, forget,
  count_entries, asset_count,
}

-- The entry that a state holds for an asset.
unfoldable pub entry_of : EnvState → String → String → Option AssetStateEntry
entry_of s kind id = get id (or_empty (get kind s.managed_assets))

pub is_managed-entry_of :
    (s : EnvState) (kind id : String)
    → is_managed s kind id ≡ elim (entry_of s kind id) [ none ↦ false | some e ↦ true ]
unfolding is_managed entry_of has
is_managed-entry_of s kind id = refl

module _ (s : EnvState) (kind id remote_id sha status now : String) where
  -- After `remember` the asset has the entry that was given, and every other asset the entry that
  -- it had.
  pub entry_of-remember :
      (k i : String)
      → entry_of (remember s kind id remote_id sha status now) k i ≡ (
          if kind == k && id == i
          then some (new_entry remote_id sha status now)
          else entry_of s k i)
  unfolding entry_of remember
  entry_of-remember k i = simp get-put (
      ground (
        arith,
        eq_iff kind k,
        get-put id i (new_entry remote_id sha status now) (or_empty (get kind s.managed_assets)),
      ))

-- After `forget` the asset has no entry, and every other asset the entry that it had.
pub entry_of-forget :
    (s : EnvState) (kind id k i : String)
    → entry_of (forget s kind id) k i ≡ (if kind == k && id == i then none else entry_of s k i)
unfolding entry_of forget drop_empty
entry_of-forget s kind id k i = elim (Option-cases (get kind s.managed_assets)) [
  | inl absent ↦
      rw (absent, forget) (ground (arith, eq_iff kind k, get-nil {V = AssetStateEntry} i))
  | inr (bucket, found) ↦
      rw (found, forget)
        (ground (
          arith,
          eq_iff kind k,
          get-nil {V = AssetStateEntry} i,
          get-pop id i bucket,
          get-pop kind k s.managed_assets,
          get-put kind k (pop id bucket) s.managed_assets,
        ))
]

-- No bucket is empty.
abbrev pub IsTidy : EnvState → Type 0
IsTidy s = All (λ b. is_empty b.1 ≡ false) s.managed_assets

put-ne-nil : (k : String) (v : AssetStateEntry) (b : Bucket) → is_empty (put k v b) ≡ false
unfolding put
put-ne-nil k v [] = refl
put-ne-nil k v ((j, w) ∷ b) = ground arith

put-IsTidy :
    (k : String) (b : Bucket) (d : Dict String Bucket)
    → is_empty b ≡ false
    → All (λ b. is_empty b.1 ≡ false) d
    → All (λ b. is_empty b.1 ≡ false) (put k b d)
unfolding put
put-IsTidy k b [] h t = (h, tt)
put-IsTidy k b ((j, c) ∷ d) h t = elim (Bool-cases (j == k)) [
  | inl same ↦ rw same (h, t.1)
  | inr other ↦ rw other (t.0, put-IsTidy k b d h t.1)
]

pop-IsTidy :
    (k : String) (d : Dict String Bucket)
    → All (λ b. is_empty b.1 ≡ false) d
    → All (λ b. is_empty b.1 ≡ false) (pop k d)
unfolding pop
pop-IsTidy k [] t = tt
pop-IsTidy k ((j, c) ∷ d) t = elim (Bool-cases (j == k)) [
  | inl same ↦ rw same (pop-IsTidy k d t.1)
  | inr other ↦ rw other (t.0, pop-IsTidy k d t.1)
]

remember-IsTidy :
    (s : EnvState) (kind id remote_id sha status now : String)
    → IsTidy s
    → IsTidy (remember s kind id remote_id sha status now)
unfolding remember
remember-IsTidy s kind id remote_id sha status now t =
    put-IsTidy kind _ s.managed_assets (put-ne-nil id _ _) t

drop_empty-IsTidy :
    (kind : String) (b : Bucket) (d : Dict String Bucket)
    → All (λ b. is_empty b.1 ≡ false) d
    → All (λ b. is_empty b.1 ≡ false) (drop_empty kind b d)
unfolding drop_empty
drop_empty-IsTidy kind [] d t = pop-IsTidy kind d t
drop_empty-IsTidy kind (e ∷ b) d t = put-IsTidy kind (e ∷ b) d refl t

forget-IsTidy : (s : EnvState) (kind id : String) → IsTidy s → IsTidy (forget s kind id)
unfolding forget
forget-IsTidy s kind id t = elim (Option-cases (get kind s.managed_assets)) [
  | inl absent ↦ rw (absent, forget) t
  | inr (bucket, found) ↦
      rw (found, forget) (drop_empty-IsTidy kind (pop id bucket) s.managed_assets t)
]

-- One call of an operation that changes what is managed.
pub data Change : Type 0 where
  remembered : (kind id remote_id sha status now : String) → Change
  forgotten : (kind id : String) → Change

abbrev pub change : Change → EnvState → EnvState
change (remembered kind id remote_id sha status now) s = remember s kind id remote_id sha status now
change (forgotten kind id) s = forget s kind id

abbrev pub changes : List Change → EnvState → EnvState
changes [] s = s
changes (o ∷ os) s = changes os (change o s)

change-IsTidy : (o : Change) (s : EnvState) → IsTidy s → IsTidy (change o s)
change-IsTidy (remembered kind id remote_id sha status now) s t =
    remember-IsTidy s kind id remote_id sha status now t
change-IsTidy (forgotten kind id) s t = forget-IsTidy s kind id t

-- From a state without empty buckets, any calls of `remember` and `forget` lead to a state without
-- empty buckets.
pub changes-IsTidy : (os : List Change) (s : EnvState) → IsTidy s → IsTidy (changes os s)
changes-IsTidy [] s t = t
changes-IsTidy (o ∷ os) s t = changes-IsTidy os (change o s) (change-IsTidy o s t)

abbrev count_of : Option Bucket → ℕ
count_of none = 0
count_of (some b) = length b

count-put :
    (k : String) (b : Bucket) (d : Dict String Bucket)
    → count_entries (put k b d) + count_of (get k d) ≡ count_entries d + length b
unfolding put get count_entries
count-put k b [] = omega arith
count-put k b ((j, c) ∷ d) = ground (arith, count-put k b d)

length-put :
    (k : String) (v : AssetStateEntry) (b : Bucket)
    → length (put k v b) ≡ length b + (if has k b then 0 else 1)
unfolding put has
length-put k v [] = omega arith
length-put k v ((j, w) ∷ b) = ground (arith, length-put k v b)

-- `remember` adds one to the number of managed assets exactly if the asset was not managed.
pub asset_count-remember :
    (s : EnvState) (kind id remote_id sha status now : String)
    → asset_count (remember s kind id remote_id sha status now)
      ≡ asset_count s + (if is_managed s kind id then 0 else 1)
unfolding asset_count remember is_managed
asset_count-remember s kind id remote_id sha status now =
    let bucket = or_empty (get kind s.managed_assets) in
    let entry = new_entry remote_id sha status now in
    elim (Option-cases (get kind s.managed_assets)) [
      | inl absent ↦ rw absent (
          omega (
            arith,
            count-put kind (put id entry []) s.managed_assets,
            ap count_of absent,
            length-put id entry [],
          ))
      | inr (b, found) ↦ rw found (
          omega (
            arith,
            count-put kind (put id entry b) s.managed_assets,
            ap count_of found,
            length-put id entry b,
          ))
    ]
