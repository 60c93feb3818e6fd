-- ===== src/Http/Paginate.antt =====
-- `url_origin`, `is_same_origin` and `paginate` of contentops/utils/http_retry.py. Python's
-- `urlparse`, `str.lower` and the printing of a port are parameters; a URL that `urlparse` refuses is
-- not modelled.
pub mod Visits
use Prim.Native.String.{◌++◌ as str_append}
use content_ops.Prelude.{
  if◌then◌else◌, ◌==◌, nonempty, contains, ℕ, zero, suc, ◌+◌, String, Bool, true, false, ◌&&◌, ◌||◌,
  not, Option, none, some, List, [], ◌∷◌, ◌++◌, string_eq, nat_eq,
}

-- `parsed.port`, whose reading raises ValueError for a port that is no number in range
pub data Port : Type 0 where
  no_port invalid_port : Port
  port : ℕ → Port

pub record Parts : Type 0 where
  pub scheme : String
  pub netloc : String
  pub hostname : Option String
  pub port_part : Port

pub record UrlLibrary : Type 0 where
  pub urlparse : String → Parts
  pub lower : String → String
  pub show : ℕ → String

abbrev pub or_blank : Option String → String
or_blank none = ""
or_blank (some s) = s

-- `{"https": 443, "http": 80}.get(scheme)`
abbrev pub default_port : String → Option ℕ
default_port scheme =
    if scheme == "https" then some 443 else if scheme == "http" then some 80 else none

module _ (lib : UrlLibrary) where
  -- `f":{port}" if port is not None and port != default_port else ""`
  abbrev pub port_suffix : String → Port → String
  port_suffix scheme (port n) = elim (default_port scheme) [
    | none ↦ str_append ":" (lib.show n)
    | some d ↦ if n == d then "" else str_append ":" (lib.show n)
  ]
  port_suffix scheme _ = ""

  unfoldable pub url_origin : String → Option String
  url_origin url =
      let parsed = lib.urlparse url in
      let scheme = lib.lower parsed.scheme in
      let host = or_blank parsed.hostname in
      if not (nonempty url) || not (nonempty parsed.scheme && nonempty host)
      then none
      else some (
          str_append (str_append (str_append scheme "://") (lib.lower host))
            (port_suffix scheme parsed.port_part))

  abbrev pub same_origin_as : (origin allowed : Option String) → Bool
  same_origin_as (some origin) (some allowed) = origin == allowed
  same_origin_as _ _ = false

  unfoldable pub is_same_origin : String → Option String → Bool
  unfolding url_origin
  is_same_origin url allowed_origin =
      let parsed = lib.urlparse url in
      if not (nonempty parsed.scheme) && not (nonempty parsed.netloc)
      then true
      else same_origin_as (url_origin url) allowed_origin

  -- `url_origin(first_url) or url_origin(base_url)`
  abbrev pub allowed_origin_of : String → Option String → Option String
  allowed_origin_of first_url base_url = elim (url_origin first_url) [
    | some origin ↦ some origin
    | none ↦ url_origin (or_blank base_url)
  ]

pub data PageError : Type 0 where
  cross_origin cycle too_many_pages http_failure : PageError

-- What `fetch_page` gives: the values and the next link of a page, or an error that is raised.
pub data Page (A : Type 0) : Type 0 where
  page : (values : List A) → (next_link : Option String) → Page A
  page_failed : Page A

-- The items, or what the walk raises; beside it the URLs that were fetched, in order.
pub data Listing (A : Type 0) : Type 0 where
  listed : List A → Listing A
  refused : PageError → Listing A

abbrev pub Walked : Type 0 → Type 0
Walked A = Listing A × List String

abbrev pub fetched : {A : Type 0} → String → Walked A → Walked A
fetched url (listing, urls) = (listing, url ∷ urls)

module _ (lib : UrlLibrary) {A : Type 0} (fetch : ℕ → String → Page A)
    (allowed : Option String) where
  -- The tests before a page is fetched: no URL is left, or it must not be followed.
  unfoldable pub stop_before : String → List String → List A → Option (Listing A)
  stop_before url visited items =
      if not (nonempty url)
      then some (listed items)
      else if not (is_same_origin lib url allowed)
      then some (refused cross_origin)
      else if contains url visited
      then some (refused cycle)
      else none

  -- The same where the number of visited URLs would pass `max_pages`.
  abbrev pub stopped_at : String → List String → List A → Listing A
  stopped_at url visited items = elim (stop_before url visited items) [
    | some listing ↦ listing
    | none ↦ refused too_many_pages
  ]

  -- The loop at `url`, after `n` pages, with `left` more allowed. `visited` is kept newest first.
  unfoldable pub page_loop :
      (left n : ℕ) → (url : String) → (visited : List String) → List A → Walked A
  page_loop zero n url visited items = (stopped_at url visited items, [])
  page_loop (suc left) n url visited items = elim (stop_before url visited items) [
    | some listing ↦ (listing, [])
    | none ↦ elim (fetch n url) [
      | page_failed ↦ (refused http_failure, url ∷ [])
      | page values next_link ↦
          fetched url
            (page_loop left (n + 1) (or_blank next_link) (url ∷ visited) (items ++ values))
    ]
  ]

unfoldable pub paginate :
    (lib : UrlLibrary) {A : Type 0}
    → (ℕ → String → Page A)
    → (first_url : String) (max_pages : ℕ) (base_url : Option String) → Walked A
unfolding page_loop
paginate lib fetch first_url max_pages base_url =
    page_loop lib fetch (allowed_origin_of lib first_url base_url) max_pages 0 first_url [] []
