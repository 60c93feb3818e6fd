-- ===== src/Drift/Stable.antt =====
-- contentops/core/drift.py, `detect_drift`: a tenant that lists its items in another order.
use content_ops.Prelude.{
  Bool-cases, Pointwise, text_not_less_trans, IsOrdered, Shuffle, Apart, sorted-Shuffle, String,
  ◌≡◌, refl, ap, inl, inr, Bool, true, false, Option, none, some, List, [], ◌∷◌, map, arith,
}
use content_ops.Loaded.{ok, LoadedAsset}
use content_ops.Drift.Detect.{
  Remote, Envelope, DriftCapable, Pair, local_index, disambiguate_envelope_ids, paired, pairs_of,
  pair_ltb, entries_for, compare_pairs, check_handler, detect_drift,
}

module _ {Payload Body : Type 0} where
  pair_not_less_trans :
      (p q r : Pair Payload Body)
      → pair_ltb p q ≡ false
      → pair_ltb q r ≡ false
      → pair_ltb p r ≡ false
  unfolding pair_ltb
  pair_not_less_trans p q r h k =
      let a = text_not_less_trans p.0.id q.0.id r.0.id in
      let b = text_not_less_trans r.0.id p.0.id q.0.id in
      let c = text_not_less_trans q.0.id r.0.id p.0.id in
      let d = text_not_less_trans p.1.name q.1.name r.1.name in ground (arith, a, b, c, d, h, k)

  pair_between :
      (p q r : Pair Payload Body) → pair_ltb r p ≡ true → pair_ltb r q ≡ false → pair_ltb q p ≡ true
  pair_between p q r h k = elim (Bool-cases (pair_ltb q p)) [
    | inl e ↦ e
    | inr e ↦ ground (arith, pair_not_less_trans r q p k e)
  ]

  paired-Shuffle :
      (o : Option (Envelope Payload)) (r : Remote Body) {xs ys : List (Pair Payload Body)}
      → Shuffle xs ys
      → Shuffle (paired o r xs) (paired o r ys)
  paired-Shuffle none r s = s
  paired-Shuffle (some e) r s = Shuffle.behind (e, r) s

  paired_swapped :
      (o u : Option (Envelope Payload)) (r q : Remote Body) (xs : List (Pair Payload Body))
      → Shuffle (paired o r (paired u q xs)) (paired u q (paired o r xs))
  paired_swapped none u r q xs = Shuffle.unmoved (paired u q xs)
  paired_swapped (some e) none r q xs = Shuffle.unmoved ((e, r) ∷ xs)
  paired_swapped (some e) (some f) r q xs = Shuffle.exchange (e, r) (f, q) xs

  pairs_of-Shuffle :
      (to_envelope : Remote Body → Option (Envelope Payload)) {xs ys : List (Remote Body)}
      → Shuffle xs ys
      → Shuffle (pairs_of to_envelope xs) (pairs_of to_envelope ys)
  unfolding pairs_of
  pairs_of-Shuffle to_envelope (Shuffle.unmoved xs) = Shuffle.unmoved (pairs_of to_envelope xs)
  pairs_of-Shuffle to_envelope (Shuffle.behind x s) =
      paired-Shuffle (to_envelope x) x (pairs_of-Shuffle to_envelope s)
  pairs_of-Shuffle to_envelope (Shuffle.exchange x y xs) =
      paired_swapped (to_envelope x) (to_envelope y) x y (pairs_of to_envelope xs)
  pairs_of-Shuffle to_envelope (Shuffle.through s t) =
      Shuffle.through (pairs_of-Shuffle to_envelope s) (pairs_of-Shuffle to_envelope t)

  -- The ids and names decide between any two of the items that have an envelope.
  abbrev pub AreDistinct : (Remote Body → Option (Envelope Payload)) → List (Remote Body) → Type 0
  AreDistinct to_envelope remotes =
      IsOrdered pair_ltb (Apart pair_ltb) (pairs_of to_envelope remotes)

  -- The same handler, that lists its items in another order.
  pub data IsRelisted : DriftCapable Payload Body → DriftCapable Payload Body → Type 0 where
    unchanged : (h : DriftCapable Payload Body) → IsRelisted h h
    reordered :
        (h : DriftCapable Payload Body) {xs ys : List (Remote Body)}
        → Shuffle xs ys
        → AreDistinct h.to_envelope xs
        → IsRelisted (record h { list_remote = ok xs }) (record h { list_remote = ok ys })

  module _ (lower : String → String) (payloads_match : Payload → Payload → Bool) where
    check_handler-relisted :
        (files : List (Option (LoadedAsset Payload))) {h k : DriftCapable Payload Body}
        → IsRelisted h k
        → check_handler lower payloads_match files h ≡ check_handler lower payloads_match files k
    unfolding check_handler compare_pairs
    check_handler-relisted files (unchanged h) = refl
    check_handler-relisted files (reordered h s distinct) =
        let e = sorted-Shuffle pair_ltb pair_between (pairs_of-Shuffle h.to_envelope s) distinct in
        ap
          (λ ordered.
            entries_for lower payloads_match h.asset (local_index h.asset files) ordered
              (disambiguate_envelope_ids lower (map (λ p. p.0) ordered)))
          e

    -- The drift report does not depend on the order in which each handler lists its remote items,
    -- as long as any two items that have an envelope differ in the envelope's id or in the item's
    -- name; handlers may also fail to list, in both runs.
    pub detect_drift_relisted :
        (files : List (Option (LoadedAsset Payload))) (hs ks : List (DriftCapable Payload Body))
        → Pointwise IsRelisted hs ks
        → detect_drift lower payloads_match hs files ≡ detect_drift lower payloads_match ks files
    unfolding detect_drift
    detect_drift_relisted files [] [] r = refl
    detect_drift_relisted files [] (k ∷ ks) r = elim r [ ]
    detect_drift_relisted files (h ∷ hs) [] r = elim r [ ]
    detect_drift_relisted files (h ∷ hs) (k ∷ ks) r =
        rw (check_handler-relisted files r.0, detect_drift_relisted files hs ks r.1) refl
