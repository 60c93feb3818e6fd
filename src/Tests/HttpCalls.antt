-- ===== src/Tests/HttpCalls.antt =====
-- Retries and pagination at sample servers.
use content_ops.Prelude.{
  if◌then◌else◌, ◌==◌, length, All, contains, ℕ, zero, suc, ◌+◌, ◌≤◌, ◌<◌, String, ◌≡◌, refl, ◌||◌,
  none, some, List, [], ◌∷◌, arith, string_eq, nat_eq, option_eq, pair_eq, option_eq, pair_eq,
}
use content_ops.Http.Retry.{
  pos, absent, seconds, not_a_number, Attempt, answered, parse_retry_after, longer_wait,
  retryable_status, default_policy, non_idempotent_status, non_idempotent_policy, sleep_failed,
  retry_wait, retry_loop, request_with_retry,
}
use content_ops.Http.Retry.Calls.{
  NotProcessed, Retries, AsksNan, Concludes, request_with_retry_calls, non_idempotent_replays,
}
use content_ops.Http.Retry.Waits.{IsBackedOff, request_with_retry-IsBackedOff}
use content_ops.Http.Paginate.{
  no_port, port, UrlLibrary, url_origin, is_same_origin, allowed_origin_of, cross_origin, Page,
  page, listed, refused, stop_before, page_loop, paginate,
}
use content_ops.Http.Paginate.Visits.{
  IsFresh, values_at, IsWholeWalk, StaysOn, paginate_visits, paginate-listed,
}

-- Throttled, then a server error, then an answer
abbrev server : ℕ → Attempt
server zero = answered (record { status_code = 429; retry_after = seconds (pos 7000) })
server (suc zero) = answered (record { status_code = 503; retry_after = absent })
server (suc (suc n)) = answered (record { status_code = 200; retry_after = absent })

-- Throttled with a Retry-After of `nan`
abbrev broken_server : ℕ → Attempt
broken_server n = answered (record { status_code = 429; retry_after = not_a_number })

sleeps_never : (request_with_retry default_policy broken_server 3).outcome ≡ sleep_failed
unfolding request_with_retry retry_loop retry_wait longer_wait parse_retry_after retryable_status
    contains
sleeps_never = refl

request_with_retry_calls_example :
    let r = request_with_retry default_policy server 3 in
    (last : ℕ) × (r.calls ≡ last + 1)
    × (last ≤ 3)
    × ((i : ℕ)
        → i < last
        → Retries default_policy server (server i) × (¬ AsksNan default_policy server (server i)))
    × Concludes default_policy server 3 last r
request_with_retry_calls_example = request_with_retry_calls default_policy server 3

request_with_retry-IsBackedOff_example :
    IsBackedOff 0 (request_with_retry default_policy server 3).sleeps
    × (length (request_with_retry default_policy server 3).sleeps + 1
        ≡ (request_with_retry default_policy server 3).calls)
request_with_retry-IsBackedOff_example = request_with_retry-IsBackedOff default_policy server 3

replayed : 0 + 1 < (request_with_retry non_idempotent_policy server 3).calls
unfolding request_with_retry retry_loop retry_wait longer_wait parse_retry_after
    non_idempotent_status contains
replayed = omega arith

non_idempotent_replays_example : NotProcessed (server 0)
non_idempotent_replays_example = non_idempotent_replays server 3 0 replayed

-- Relative URLs only: two pages of two numbers
abbrev library : UrlLibrary
library = record {
  urlparse = λ url. record { scheme = ""; netloc = ""; hostname = none; port_part = no_port };
  lower = λ s. s;
  show = λ n. "";
}

abbrev site : ℕ → String → Page ℕ
site zero url = page (1 ∷ 2 ∷ []) (some "/rules?page=2")
site (suc n) url = page (3 ∷ 4 ∷ []) none

abbrev start : String
start = "/rules"

-- Three absolute URLs, of two origins, and relative ones.
abbrev two_hosts : UrlLibrary
two_hosts = record {
  urlparse = λ url.
      if url == "https://a/1" || url == "https://a:443/2"
      then record { scheme = "https"; netloc = "a"; hostname = some "a"; port_part = port 443 }
      else if url == "https://b/3"
      then record { scheme = "https"; netloc = "b"; hostname = some "b"; port_part = no_port }
      else record { scheme = ""; netloc = ""; hostname = none; port_part = no_port };
  lower = λ s. s;
  show = λ n. "";
}

-- The second page's link leaves the origin.
abbrev leaving : ℕ → String → Page ℕ
leaving zero url = page (1 ∷ []) (some "https://a:443/2")
leaving (suc n) url = page (2 ∷ []) (some "https://b/3")

refused_link :
    paginate two_hosts leaving "https://a/1" 5 none
    ≡ (refused cross_origin, "https://a/1" ∷ "https://a:443/2" ∷ [])
unfolding paginate page_loop stop_before is_same_origin url_origin contains
refused_link = refl

paginate_visits_example :
    All
      (StaysOn two_hosts (allowed_origin_of two_hosts "https://a/1" none))
      (paginate two_hosts leaving "https://a/1" 5 none).1
    × IsFresh [] (paginate two_hosts leaving "https://a/1" 5 none).1
    × (length (paginate two_hosts leaving "https://a/1" 5 none).1 ≤ 5)
paginate_visits_example = paginate_visits two_hosts leaving "https://a/1" 5 none

abbrev numbers : List ℕ
numbers = 1 ∷ 2 ∷ 3 ∷ 4 ∷ []

abbrev pages : List String
pages = start ∷ "/rules?page=2" ∷ []

two_pages : paginate library site start 5 none ≡ (listed numbers, pages)
unfolding paginate page_loop stop_before is_same_origin url_origin contains
two_pages = refl

paginate-listed_example : (numbers ≡ values_at site 0 pages) × IsWholeWalk site 0 start pages
paginate-listed_example = paginate-listed library site start 5 none numbers pages two_pages
