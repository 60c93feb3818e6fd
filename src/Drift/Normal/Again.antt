-- ===== src/Drift/Normal/Again.antt =====
-- contentops/core/drift.py, `_normalize` and `_payloads_match`: a payload in normal form.
use content_ops.Prelude.{
  Bool-cases, string_eq, ==_refl, text_ltb, text_asym, text_not_less_trans, String, ◌≡◌, refl, ap,
  inl, inr, true, false,
}
use content_ops.Drift.Normal.{
  normalize_text, Value, string, scalar, list, dict, Items, no_items, item, Fields, no_fields,
  field, insert_field, normalize, normalize_items, normalize_fields, value_beq, items_beq,
  fields_beq, payloads_match,
}
use content_ops.Drift.Normal.Texts.{
  Each, NotCr, IsTidy, normalize_text-IsTidy, normalize_text_same, with_crlf,
  normalize_text-with_crlf, normalize_text_again,
}

-- No key is less.
abbrev IsBelow : String → Fields → Type 0
IsBelow k no_fields = Unit
IsBelow k (field j w fs) = (text_ltb j k ≡ false) × IsBelow k fs

abbrev IsSettled : Fields → Type 0
IsSettled no_fields = Unit
IsSettled (field k v fs) = (normalize v ≡ v) × IsBelow k fs × IsSettled fs

IsBelow-trans : (i k : String) (fs : Fields) → text_ltb k i ≡ false → IsBelow k fs → IsBelow i fs
IsBelow-trans i k no_fields h b = tt
IsBelow-trans i k (field j w fs) h b = (text_not_less_trans j k i b.0 h, IsBelow-trans i k fs h b.1)

insert_field-IsBelow :
    (i k : String) (v : Value) (fs : Fields)
    → text_ltb k i ≡ false
    → IsBelow i fs
    → IsBelow i (insert_field k v fs)
unfolding insert_field
insert_field-IsBelow i k v no_fields h b = (h, tt)
insert_field-IsBelow i k v (field j w fs) h b = elim (Bool-cases (text_ltb j k)) [
  | inl e ↦ rw e (b.0, insert_field-IsBelow i k v fs h b.1)
  | inr e ↦ rw e (h, b)
]

insert_field-IsSettled :
    (k : String) (v : Value) (fs : Fields)
    → normalize v ≡ v
    → IsSettled fs
    → IsSettled (insert_field k v fs)
unfolding insert_field
insert_field-IsSettled k v no_fields n s = (n, tt, tt)
insert_field-IsSettled k v (field j w fs) n s = elim (Bool-cases (text_ltb j k)) [
  | inl e ↦ rw e (
    s.0,
    insert_field-IsBelow j k v fs (text_asym j k e) s.1,
    insert_field-IsSettled k v fs n s.2,
  )
  | inr e ↦ rw e (n, (e, IsBelow-trans k j fs e s.1), s)
]

insert_field_first :
    (k : String) (v : Value) (fs : Fields) → IsBelow k fs → insert_field k v fs ≡ field k v fs
unfolding insert_field
insert_field_first k v no_fields b = refl
insert_field_first k v (field j w fs) b = rw b.0 refl

normalize_fields_same : (fs : Fields) → IsSettled fs → normalize_fields fs ≡ fs
unfolding normalize
normalize_fields_same no_fields s = refl
normalize_fields_same (field k v fs) s =
    rw (s.0, normalize_fields_same fs s.2) (insert_field_first k v fs s.1)

mutual
  unfolding normalize

  pub normalize_again : (v : Value) → normalize (normalize v) ≡ normalize v
  normalize_again (string s) = ap string (normalize_text_again s)
  normalize_again (scalar s) = refl
  normalize_again (list items) = ap list (normalize_items_again items)
  normalize_again (dict fs) =
      ap dict (normalize_fields_same (normalize_fields fs) (normalize_fields-IsSettled fs))

  normalize_items_again :
      (items : Items) → normalize_items (normalize_items items) ≡ normalize_items items
  normalize_items_again no_items = refl
  normalize_items_again (item v items) = rw (normalize_again v, normalize_items_again items) refl

  normalize_fields-IsSettled : (fs : Fields) → IsSettled (normalize_fields fs)
  normalize_fields-IsSettled no_fields = tt
  normalize_fields-IsSettled (field k v fs) =
      insert_field-IsSettled k (normalize v) (normalize_fields fs) (normalize_again v)
        (normalize_fields-IsSettled fs)

mutual
  unfolding value_beq

  value_beq_refl : (v : Value) → value_beq v v ≡ true
  value_beq_refl (string s) = ==_refl ⦃e = string_eq⦄ s
  value_beq_refl (scalar s) = ==_refl ⦃e = string_eq⦄ s
  value_beq_refl (list items) = items_beq_refl items
  value_beq_refl (dict fs) = fields_beq_refl fs

  items_beq_refl : (items : Items) → items_beq items items ≡ true
  items_beq_refl no_items = refl
  items_beq_refl (item v items) = rw (value_beq_refl v, items_beq_refl items) refl

  fields_beq_refl : (fs : Fields) → fields_beq fs fs ≡ true
  fields_beq_refl no_fields = refl
  fields_beq_refl (field k v fs) =
      rw (==_refl ⦃e = string_eq⦄ k, value_beq_refl v, fields_beq_refl fs) refl

-- The normal form of a text has no carriage return, no white space at the end of a line and no
-- newline at its end; a text that has none of these is its own normal form; and a text has the same
-- normal form with Windows line ends. A payload matches its own normal form, in which the keys are
-- in order too, and the two match the same payloads, on either side.
pub payloads_match-normalize :
    (s : String) (v w : Value)
    → IsTidy (normalize_text s)
      × (IsTidy s → normalize (string s) ≡ string s)
      × (Each NotCr s → payloads_match (string (with_crlf s)) (string s) ≡ true)
      × (payloads_match (normalize v) v ≡ true)
      × (payloads_match (normalize v) w ≡ payloads_match v w)
      × (payloads_match w (normalize v) ≡ payloads_match w v)
unfolding payloads_match normalize
payloads_match-normalize s v w = (
  normalize_text-IsTidy s,
  λ h. ap string (normalize_text_same s h),
  λ h. rw (normalize_text-with_crlf s h) (value_beq_refl (string (normalize_text s))),
  rw (normalize_again v) (value_beq_refl (normalize v)),
  rw (normalize_again v) refl,
  rw (normalize_again v) refl,
)
