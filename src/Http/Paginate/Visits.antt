-- ===== src/Http/Paginate/Visits.antt =====
-- Which pages `paginate` fetches, and what it returns.
use mathlib.Core.List.{append-nil, append_assoc}
use content_ops.Prelude.{
  Bool-cases, Option-cases, string_eq, nonempty, length, All, All-imp, contains, ℕ, zero, suc, ◌+◌,
  ◌≤◌, String, ◌≡◌, refl, sym, ap, ◌∙◌, subst, ◌⊎◌, inl, inr, true, false, Option, none, some, List,
  [], ◌∷◌, ◌++◌, arith, nat_eq, option_eq, pair_eq, option_eq, pair_eq,
}
use mathlib.Core.Bool.{true≢false}
use content_ops.Http.Paginate.{
  UrlLibrary, or_blank, url_origin, same_origin_as, is_same_origin, allowed_origin_of, http_failure,
  Page, page, page_failed, Listing, listed, refused, Walked, fetched, stop_before, page_loop,
  paginate,
}

-- None of these URLs is visited, and none comes twice.
abbrev pub IsFresh : List String → List String → Type 0
IsFresh visited [] = Unit
IsFresh visited (url ∷ rest) = (contains url visited ≡ false) × IsFresh (url ∷ visited) rest

module _ {A : Type 0} (fetch : ℕ → String → Page A) where
  abbrev pub values_of : Page A → List A
  values_of (page values next_link) = values
  values_of page_failed = []

  -- The values of the pages at these URLs, the first of them page number `n`.
  abbrev pub values_at : ℕ → List String → List A
  values_at n [] = []
  values_at n (url ∷ rest) = values_of (fetch n url) ++ values_at (n + 1) rest

  -- The URLs are those that the links lead to from `url`, up to a page with no link.
  abbrev pub IsWholeWalk : ℕ → String → List String → Type 0
  IsWholeWalk n url [] = nonempty url ≡ false
  IsWholeWalk n url (first ∷ rest) =
      (url ≡ first)
      × (values : List A) × (next_link : Option String) × (fetch n first ≡ page values next_link)
      × IsWholeWalk (n + 1) (or_blank next_link) rest

origins :
    (lib : UrlLibrary) (o allowed : Option String)
    → same_origin_as lib o allowed ≡ true
    → (origin : String) × (o ≡ some origin) × (allowed ≡ some origin)
origins lib none allowed h = absurd (true≢false (sym h))
origins lib (some o) none h = absurd (true≢false (sym h))
origins lib (some o) (some a) h = (a, ap some ((string_eq.equal_iff o a).0 h), refl)

-- The URL is relative, with neither scheme nor host, or its origin is the allowed one.
abbrev pub StaysOn : UrlLibrary → Option String → String → Type 0
StaysOn lib allowed url =
    (((lib.urlparse url).scheme ≡ "") × ((lib.urlparse url).netloc ≡ ""))
    ⊎ ((origin : String) × (url_origin lib url ≡ some origin) × (allowed ≡ some origin))

blank_text : (s : String) → nonempty s ≡ false → s ≡ ""
blank_text s h = (string_eq.equal_iff s "").0 (ground (arith, h))

same_origin-StaysOn :
    (lib : UrlLibrary) (allowed : Option String) (url : String)
    → is_same_origin lib url allowed ≡ true
    → StaysOn lib allowed url
unfolding is_same_origin
same_origin-StaysOn lib allowed url h = elim (Bool-cases (nonempty (lib.urlparse url).scheme)) [
  | inr no_scheme ↦ elim (Bool-cases (nonempty (lib.urlparse url).netloc)) [
    | inr no_host ↦ inl (blank_text _ no_scheme, blank_text _ no_host)
    | inl host ↦ inr (origins lib (url_origin lib url) allowed (ground (arith, h, no_scheme, host)))
  ]
  | inl scheme ↦ inr (origins lib (url_origin lib url) allowed (ground (arith, h, scheme)))
]

module _ (lib : UrlLibrary) {A : Type 0} (fetch : ℕ → String → Page A)
    (allowed : Option String) where
  -- What the tests before a fetch have found.
  go_on :
      (url : String) (visited : List String) (items : List A)
      → stop_before lib fetch allowed url visited items ≡ none
      → (is_same_origin lib url allowed ≡ true) × (contains url visited ≡ false)
  unfolding stop_before
  go_on url visited items e = (ground arith, ground arith)

  stop_listed :
      (url : String) (visited : List String) (items found : List A)
      → stop_before lib fetch allowed url visited items ≡ some (listed found)
      → (items ≡ found) × (nonempty url ≡ false)
  unfolding stop_before
  stop_listed url visited items found e = (ground arith, ground arith)

  abbrev Visits : ℕ → List String → List String → Type 0
  Visits left visited urls =
      All (λ url. is_same_origin lib url allowed ≡ true) urls
      × IsFresh visited urls
      × (length urls ≤ left)

  -- One round of the loop.
  module _ (left n : ℕ) (url : String) (visited : List String) (items : List A) where
    loop_stops :
        (listing : Listing A)
        → stop_before lib fetch allowed url visited items ≡ some listing
        → page_loop lib fetch allowed (suc left) n url visited items ≡ (listing, [])
    unfolding page_loop
    loop_stops listing e = rw (e, page_loop) refl

    loop_fails :
        stop_before lib fetch allowed url visited items ≡ none
        → fetch n url ≡ page_failed
        → page_loop lib fetch allowed (suc left) n url visited items
          ≡ (refused http_failure, url ∷ [])
    unfolding page_loop
    loop_fails e f = rw (e, f, page_loop) refl

    loop_goes :
        (values : List A) (next_link : Option String)
        → stop_before lib fetch allowed url visited items ≡ none
        → fetch n url ≡ page values next_link
        → page_loop lib fetch allowed (suc left) n url visited items
          ≡ fetched url (
              page_loop lib fetch allowed left
                (n + 1)
                (or_blank next_link)
                (url ∷ visited)
                (items ++ values))
    unfolding page_loop
    loop_goes values next_link e f = rw (e, f, page_loop) refl

  zero_stops :
      (n : ℕ) (url : String) (visited : List String) (items : List A) (listing : Listing A)
      → stop_before lib fetch allowed url visited items ≡ some listing
      → page_loop lib fetch allowed zero n url visited items ≡ (listing, [])
  unfolding page_loop
  zero_stops n url visited items listing e = ground arith

  Page-cases :
      (p : Page A)
      → (p ≡ page_failed)
        ⊎ ((values : List A) × (next_link : Option String) × (p ≡ page values next_link))
  Page-cases page_failed = inl refl
  Page-cases (page values next_link) = inr (values, next_link, refl)

  loop-Visits :
      (left n : ℕ) (url : String) (visited : List String) (items : List A)
      → Visits left visited (page_loop lib fetch allowed left n url visited items).1
  loop-Visits zero n url visited items = unfold page_loop in (tt, tt, omega arith)
  loop-Visits (suc left) n url visited items =
      elim (Option-cases (stop_before lib fetch allowed url visited items)) [
        | inl going ↦
            let (same, new) = go_on url visited items going in
            elim (Page-cases (fetch n url)) [
              | inl gone ↦
                  rw (loop_fails left n url visited items going gone)
                    ((same, tt), (new, tt), omega arith)
              | inr (values, next_link, got) ↦
                  let (origins, fresh, count) =
                    loop-Visits left (n + 1) (or_blank next_link) (url ∷ visited)
                      (items ++ values) in
                  rw (loop_goes left n url visited items values next_link going got)
                    ((same, origins), (new, fresh), omega (arith, count))
            ]
        | inr (listing, stopped) ↦
            rw (loop_stops left n url visited items listing stopped) (tt, tt, omega arith)
      ]

  ended :
      (n : ℕ) (url : String) (visited : List String) (items found : List A) (urls : List String)
      (listing : Listing A)
      → stop_before lib fetch allowed url visited items ≡ some listing
      → ◌≡◌ {A = Walked A} (listing, []) (listed found, urls)
      → (found ≡ items ++ values_at fetch n urls) × IsWholeWalk fetch n url urls
  ended n url visited items found urls listing stopped e =
      let same : listing ≡ listed found = ap (λ (w : Walked A). w.0) e in
      let none_fetched : [] ≡ urls = ap (λ (w : Walked A). w.1) e in
      let (all_items, no_url) = stop_listed url visited items found (stopped ∙ ap some same) in
      subst (λ us. (found ≡ items ++ values_at fetch n us) × IsWholeWalk fetch n url us)
        none_fetched (sym all_items ∙ sym (append-nil items), no_url)

  loop_listed :
      (left n : ℕ) (url : String) (visited : List String) (items found : List A)
      (urls : List String)
      → page_loop lib fetch allowed left n url visited items ≡ (listed found, urls)
      → (found ≡ items ++ values_at fetch n urls) × IsWholeWalk fetch n url urls
  loop_listed zero n url visited items found urls e =
      elim (Option-cases (stop_before lib fetch allowed url visited items)) [
        | inl going ↦ unfold page_loop in ground arith
        | inr (listing, stopped) ↦
            ended n url visited items found urls listing stopped
              (sym (zero_stops n url visited items listing stopped) ∙ e)
      ]
  loop_listed (suc left) n url visited items found urls e =
      elim (Option-cases (stop_before lib fetch allowed url visited items)) [
        | inl going ↦ elim (Page-cases (fetch n url)) [
          | inl gone ↦ cc (loop_fails left n url visited items going gone, e)
          | inr (values, next_link, got) ↦
              let after =
                page_loop lib fetch allowed left (n + 1) (or_blank next_link) (url ∷ visited)
                  (items ++ values) in
              let whole : fetched url after ≡ (listed found, urls) =
                sym (loop_goes left n url visited items values next_link going got) ∙ e in
              let (whole_items, walk) =
                loop_listed left (n + 1) (or_blank next_link) (url ∷ visited) (items ++ values)
                  found after.1 (ap (λ (w : Walked A). (w.0, after.1)) whole) in
              subst (λ us. (found ≡ items ++ values_at fetch n us) × IsWholeWalk fetch n url us)
                (ap (λ (w : Walked A). w.1) whole)
                (
                  rw got
                      (whole_items ∙ append_assoc items values (values_at fetch (n + 1) after.1)),
                  (refl, values, next_link, got, walk),
                )
        ]
        | inr (listing, stopped) ↦
            ended n url visited items found urls listing stopped
              (sym (loop_stops left n url visited items listing stopped) ∙ e)
      ]

module _ (lib : UrlLibrary) {A : Type 0} (fetch : ℕ → String → Page A) where
  -- Every URL that is fetched, also where the walk ends by an error, has neither scheme nor host, or
  -- its origin is known and the same as that of the first URL or, if that has none, of the base URL;
  -- no URL is fetched twice; and at most `max_pages` are.
  pub paginate_visits :
      (first_url : String) (max_pages : ℕ) (base_url : Option String)
      → let urls = (paginate lib fetch first_url max_pages base_url).1 in
        All (StaysOn lib (allowed_origin_of lib first_url base_url)) urls
        × IsFresh [] urls
        × (length urls ≤ max_pages)
  unfolding paginate
  paginate_visits first_url max_pages base_url =
      let allowed = allowed_origin_of lib first_url base_url in
      let (same, fresh, count) = loop-Visits lib fetch allowed max_pages 0 first_url [] [] in
      (All-imp _ (StaysOn lib allowed) _ (same_origin-StaysOn lib allowed) same, fresh, count)

  -- A list that is returned is the values of all the pages that the links lead to from the first
  -- URL, in their order, up to one with no next link.
  pub paginate-listed :
      (first_url : String) (max_pages : ℕ) (base_url : Option String) (found : List A)
      (urls : List String)
      → paginate lib fetch first_url max_pages base_url ≡ (listed found, urls)
      → (found ≡ values_at fetch 0 urls) × IsWholeWalk fetch 0 first_url urls
  unfolding paginate
  paginate-listed first_url max_pages base_url found urls e =
      loop_listed lib fetch (allowed_origin_of lib first_url base_url) max_pages 0 first_url [] []
        found urls e
