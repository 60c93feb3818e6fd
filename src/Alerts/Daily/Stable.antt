-- ===== src/Alerts/Daily/Stable.antt =====
-- After the overlay of ARM's incidents the daily files are settled: the same overlay finds nothing
-- to do.
use content_ops.Prelude.{
  Bool-cases, string_eq, option_beq, option_beq_iff, ℕ, String, ◌≡◌, refl, sym, subst, inl, inr,
  true, false, ◌&&◌, ◌||◌, not, Option, none, some, arith, nat_eq, option_eq, pair_eq, option_eq,
  pair_eq,
}
use content_ops.Alerts.Ledger.{LedgerEntry}
use content_ops.Alerts.Daily.{
  Patch, Update, or_undetermined, with_classification, with_closed, with_number, patch_entry,
}
use content_ops.Alerts.Model.{AlertClassification, classification_value}

-- Nothing is left for the patch's classification, closing time and number to change.
pub record Settled (p : Patch) (e : LedgerEntry) : Type 0 where
  classified : with_classification p.classification e ≡ (e, false)
  closed : with_closed p e.closed_at e ≡ (e, false)
  numbered : with_number p.incident_number e ≡ (e, false)

pub patch_entry_stays : (p : Patch) (e : LedgerEntry) → Settled p e → patch_entry p e ≡ (e, false)
unfolding patch_entry
patch_entry_stays p e h = simp (h.classified, h.closed, h.numbered)

classification_stays :
    (c : Option AlertClassification) (e : LedgerEntry)
    → (with_classification c e).1 ≡ false
    → with_classification c e ≡ (e, false)
unfolding with_classification
classification_stays none e h = refl
classification_stays (some c) e h = ground (arith, h)

closing_stays :
    (p : Patch) (before : Option String) (e : LedgerEntry)
    → (with_closed p before e).1 ≡ false
    → with_closed p before e ≡ (e, false)
unfolding with_closed
closing_stays p before e h = ground (arith, h)

number_stays :
    (n : Option ℕ) (e : LedgerEntry) → (with_number n e).1 ≡ false → with_number n e ≡ (e, false)
unfolding with_number
number_stays none e h = refl
number_stays (some n) e h = ground (arith, h)

-- The text is the classification's, if there is one.
abbrev Classified : Option AlertClassification → String → Type 0
Classified none text = Unit
Classified (some c) text = classification_value c ≡ text

with_classification-Classified :
    (c : Option AlertClassification) (e : LedgerEntry)
    → Classified c (with_classification c e).0.classification
unfolding with_classification
with_classification-Classified none e = tt
with_classification-Classified (some c) e =
    ground (arith, string_eq.equal_iff (classification_value c) e.classification)

or_undetermined-Classified : (c : Option AlertClassification) → Classified c (or_undetermined c)
or_undetermined-Classified none = tt
or_undetermined-Classified (some c) = refl

with_closed-Classified :
    (p : Patch) (before : Option String) (e : LedgerEntry)
    → Classified p.classification e.classification
    → Classified p.classification (with_closed p before e).0.classification
unfolding with_closed
with_closed-Classified p before e h =
    elim (Bool-cases (p.is_reopened && not (option_beq before none))) [
      | inl reopens ↦ rw (reopens, with_closed) (or_undetermined-Classified p.classification)
      | inr keeps ↦
          elim (Bool-cases
            (not (option_beq p.closed_at none) && not (option_beq p.closed_at before))) [
              | inl moves ↦ rw (keeps, moves, with_closed) h
              | inr stays ↦ rw (keeps, stays, with_closed) h
            ]
    ]

Classified-settles :
    (c : Option AlertClassification) (e : LedgerEntry)
    → Classified c e.classification
    → with_classification c e ≡ (e, false)
unfolding with_classification
Classified-settles none e h = refl
Classified-settles (some c) e h =
    ground (arith, h, string_eq.equal_iff (classification_value c) e.classification)

-- A reopened incident's entry is open, and any other has the patch's closing time, if there is one.
record Closed (p : Patch) (closed_at : Option String) : Type 0 where
  open_again : p.is_reopened ≡ true → closed_at ≡ none
  same : (option_beq p.closed_at none || option_beq p.closed_at closed_at) ≡ true

with_closed-Closed :
    (p : Patch) (e : LedgerEntry)
    → (p.is_reopened ≡ true → p.closed_at ≡ none)
    → (before : Option String) → e.closed_at ≡ before
    → Closed p (with_closed p before e).0.closed_at
unfolding with_closed
with_closed-Closed p e h before b =
    elim (Bool-cases (p.is_reopened && not (option_beq before none))) [
      | inl reopens ↦
          rw (reopens, with_closed)
            record {
              open_again = λ r. refl;
              same = ground (arith, h, option_beq_iff p.closed_at none);
            }
      | inr keeps ↦
          elim (Bool-cases
            (not (option_beq p.closed_at none) && not (option_beq p.closed_at before))) [
              | inl moves ↦
                  rw (keeps, moves, with_closed)
                    record {
                      open_again = h;
                      same = ground (arith, option_beq_iff p.closed_at p.closed_at);
                    }
              | inr stays ↦
                  rw (keeps, stays, with_closed)
                    record {
                      open_again = λ r. ground (arith, b, option_beq_iff before none);
                      same = ground (arith, b);
                    }
            ]
    ]

Closed-settles :
    (p : Patch) (e : LedgerEntry) → Closed p e.closed_at → with_closed p e.closed_at e ≡ (e, false)
unfolding with_closed
Closed-settles p e h = ground (arith, h.open_again, h.same, option_beq_iff e.closed_at none)

abbrev Numbered : Option ℕ → Option ℕ → Type 0
Numbered none number = Unit
Numbered (some n) number = number ≡ some n

with_number-Numbered :
    (n : Option ℕ) (e : LedgerEntry) → Numbered n (with_number n e).0.incident_number
unfolding with_number
with_number-Numbered none e = tt
with_number-Numbered (some n) e = ground (arith, option_beq_iff e.incident_number (some n))

Numbered-settles :
    (n : Option ℕ) (e : LedgerEntry) → Numbered n e.incident_number → with_number n e ≡ (e, false)
unfolding with_number
Numbered-settles none e h = refl
Numbered-settles (some n) e h = ground (arith, h, option_beq_iff e.incident_number (some n))

-- What with_number leaves
with_number_keeps :
    (n : Option ℕ) (e : LedgerEntry)
    → ((with_number n e).0.classification ≡ e.classification)
      × ((with_number n e).0.closed_at ≡ e.closed_at)
unfolding with_number
with_number_keeps none e = (refl, refl)
with_number_keeps (some n) e = (ground arith, ground arith)

with_classification_keeps :
    (c : Option AlertClassification) (e : LedgerEntry)
    → (with_classification c e).0.closed_at ≡ e.closed_at
unfolding with_classification
with_classification_keeps none e = refl
with_classification_keeps (some c) e = ground arith

unchanged :
    (p : Patch) (e : LedgerEntry)
    → (with_classification p.classification e).1 ≡ false
    → (with_closed p e.closed_at (with_classification p.classification e).0).1 ≡ false
    → (with_number p.incident_number
        (with_closed p e.closed_at (with_classification p.classification e).0).0).1
      ≡ false
    → Settled p e
unchanged p e a b c =
    let one = classification_stays p.classification e a in
    let two : with_closed p e.closed_at e ≡ (e, false) =
      closing_stays p e.closed_at e
        (subst (λ (u : Update). (with_closed p e.closed_at u.0).1 ≡ false) one b) in
    let three : with_number p.incident_number e ≡ (e, false) = number_stays p.incident_number e (
      subst (λ (u : Update). (with_number p.incident_number u.0).1 ≡ false) two
        (subst
          (λ (u : Update).
            (with_number p.incident_number (with_closed p e.closed_at u.0).0).1 ≡ false)
          one c)) in
    record { classified = one; closed = two; numbered = three }

pub patch_entry-Settled :
    (p : Patch) (e : LedgerEntry)
    → (p.is_reopened ≡ true → p.closed_at ≡ none)
    → Settled p (patch_entry p e).0
unfolding patch_entry
patch_entry-Settled p e h =
    let one = with_classification p.classification e in
    let two = with_closed p e.closed_at one.0 in
    let three = with_number p.incident_number two.0 in
    elim (Bool-cases (one.1 || two.1 || three.1)) [
      | inl updated ↦
          let kept = with_number_keeps p.incident_number two.0 in
          let new : LedgerEntry = record three.0 { source = "both" } in
          rw (updated, patch_entry)
            record {
              classified = Classified-settles p.classification new (
                  subst (Classified p.classification) (sym kept.0) (
                    with_closed-Classified p e.closed_at one.0
                      (with_classification-Classified p.classification e)));
              closed = Closed-settles p new (
                  subst (Closed p) (sym kept.1) (
                    with_closed-Closed p one.0 h e.closed_at
                      (with_classification_keeps p.classification e)));
              numbered =
                  Numbered-settles p.incident_number new
                    (with_number-Numbered p.incident_number two.0);
            }
      | inr same ↦
          rw (same, patch_entry) (unchanged p e (ground arith) (ground arith) (ground arith))
    ]
