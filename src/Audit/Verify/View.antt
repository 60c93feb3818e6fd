-- ===== src/Audit/Verify/View.antt =====
-- The audit trail as a chain of records, apart from the walk of `verify_chain`.
use content_ops.Prelude.{
  if◌then◌else◌, All, Dict, get, pop, String, ◌≡◌, refl, false, Option, some, List, [], ◌∷◌, ◌++◌,
  string_eq, nat_eq, option_eq, pair_eq, option_eq, pair_eq,
}
use content_ops.Audit.Record.{Json, string, object, Codec}
use content_ops.Audit.Tail.{Content, unreadable, undecodable, content, Log}
use content_ops.Audit.Verify.{regresses, next_timestamp}

-- A line as the chain sees it: passed over, a record with both hashes, or no record.
pub data View : Type 0 where
  skipped : View
  entry : (d : Dict String Json) → (actual stored : Json) → View
  broken : View

abbrev pub view_hashes : Dict String Json → (stored actual : Option Json) → View
view_hashes d (some stored) (some actual) = entry d actual stored
view_hashes d _ _ = broken

abbrev pub next_hash : Json → View → Json
next_hash p (entry d actual stored) = stored
next_hash p _ = p

abbrev pub next_time : String → View → String
next_time t (entry d actual stored) = next_timestamp (get "timestamp" d) t
next_time t _ = t

module _ (c : Codec) where
  abbrev pub digest : Dict String Json → Json
  digest d = string (c.sha256_hex (c.dumps (pop "record_hash" d)))

  unfoldable pub view : c.Line → View
  view line = if c.is_blank line then skipped else elim (c.loads line) [
    | object d ↦ view_hashes d (get "record_hash" d) (get "prev_hash" d)
    | _ ↦ broken
  ]

  -- A record that follows the hash `p` and the timestamp `t`.
  abbrev pub Follows : Json → String → View → Type 0
  Follows p t skipped = Unit
  Follows p t (entry d actual stored) =
      (digest d ≡ stored) × (actual ≡ p) × (regresses (get "timestamp" d) t ≡ false)
  Follows p t broken = ⊥

  -- Each line follows the one before it.
  abbrev pub IsChain : Json → String → List c.Line → Type 0
  IsChain p t [] = Unit
  IsChain p t (l ∷ ls) =
      Follows p t (view l) × IsChain (next_hash p (view l)) (next_time t (view l)) ls

  abbrev pub lines_of_file : Content c.Line → List c.Line
  lines_of_file unreadable = []
  lines_of_file undecodable = []
  lines_of_file (content lines ended) = lines

  abbrev pub Decodes : Content c.Line → Type 0
  Decodes undecodable = ⊥
  Decodes _ = Unit

  -- Every file that can be read is UTF-8.
  abbrev pub IsDecodable : Log c → Type 0
  IsDecodable log = All (λ f. Decodes f.lines) log

  -- The lines of the files that can be read, in the order of the walk.
  abbrev pub lines_of : Log c → List c.Line
  lines_of [] = []
  lines_of (f ∷ rest) = lines_of_file f.lines ++ lines_of rest

  -- The hash and the timestamp at the end of the lines.
  abbrev pub end_hash : Json → List c.Line → Json
  end_hash p [] = p
  end_hash p (l ∷ ls) = end_hash (next_hash p (view l)) ls

  abbrev pub end_time : String → List c.Line → String
  end_time t [] = t
  end_time t (l ∷ ls) = end_time (next_time t (view l)) ls

  pub IsChain-append :
      (xs ys : List c.Line) (p : Json) (t : String)
      → IsChain p t xs
      → IsChain (end_hash p xs) (end_time t xs) ys
      → IsChain p t (xs ++ ys)
  IsChain-append [] ys p t h k = k
  IsChain-append (x ∷ xs) ys p t h k = (h.0, IsChain-append xs ys _ _ h.1 k)

  pub IsChain-split :
      (xs ys : List c.Line) (p : Json) (t : String)
      → IsChain p t (xs ++ ys)
      → IsChain p t xs × IsChain (end_hash p xs) (end_time t xs) ys
  IsChain-split [] ys p t h = (tt, h)
  IsChain-split (x ∷ xs) ys p t h = let (a, b) = IsChain-split xs ys _ _ h.1 in ((h.0, a), b)

  pub end_hash-append :
      (xs ys : List c.Line) (p : Json) → end_hash p (xs ++ ys) ≡ end_hash (end_hash p xs) ys
  end_hash-append [] ys p = refl
  end_hash-append (x ∷ xs) ys p = end_hash-append xs ys _

  pub end_time-append :
      (xs ys : List c.Line) (t : String) → end_time t (xs ++ ys) ≡ end_time (end_time t xs) ys
  end_time-append [] ys t = refl
  end_time-append (x ∷ xs) ys t = end_time-append xs ys _
