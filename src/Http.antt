-- ===== src/Http.antt =====
-- internal/script/modules/http.go: the `http` module of the Lua scripts. `host_of` is the host name that
-- `url.Parse` gives (`none` is an error), `hash` the hexadecimal SHA-256, `exchange` what comes of one
-- request. `sent` records the requests made, the latest first. Calls are one after the other: the
-- sharing of one exchange by concurrent calls is left out.
pub mod Hosts
pub mod Keys
mod Tests
use howk.Prelude.{
  ℕ, zero, suc, ◌+◌, ◌-◌, ◌*◌, Bool, true, false, not, ◌&&◌, ◌||◌, List, [], ◌∷◌, ◌++◌, Option,
  none, some, ltb, ◌==◌, if◌then◌else◌, length, any,
}
use howk.Prelude.Text.{Bytes, codes, bytes_eq, trim_space}
use howk.Domain.Matching.{matches_domain}

pub record HttpResponse : Type 0 where
  pub status_code : ℕ
  pub body : Bytes
  pub headers : List (Bytes × Bytes)

-- A cached response, with its own TTL.
pub record CacheEntry : Type 0 where
  pub response : HttpResponse
  pub cached_at : ℕ
  pub ttl : ℕ

pub record Request : Type 0 where
  pub method : Bytes
  pub url : Bytes
  pub body : Bytes
  pub headers : List (Bytes × Bytes)

pub record HttpModule : Type 0 where
  pub global_allowlist : List Bytes
  pub namespace_allowlists : List (Bytes × List Bytes)
  pub cache_enabled : Bool
  pub cache : List (Bytes × CacheEntry)
  pub sent : List Request

abbrev onto_part : ℕ → List Bytes → List Bytes
onto_part c [] = (c ∷ []) ∷ []
onto_part c (p ∷ ps) = (c ∷ p) ∷ ps

unfoldable split_commas : Bytes → List Bytes
split_commas [] = [] ∷ []
split_commas (c ∷ s) = if c == b',' then [] ∷ split_commas s else onto_part c (split_commas s)

abbrev named_hosts : List Bytes → List Bytes
named_hosts [] = []
named_hosts (p ∷ ps) =
    let rest = named_hosts ps in elim (trim_space p) [ [] ↦ rest | c ∷ s ↦ (c ∷ s) ∷ rest ]

unfoldable pub parse_host_list : Bytes → List Bytes
unfolding split_commas
parse_host_list s = named_hosts (split_commas s)

-- The allowlist of a namespace, if it has one.
abbrev pub list_for : Bytes → List (Bytes × List Bytes) → List Bytes
list_for ns [] = []
list_for ns ((n, hosts) ∷ m) = if bytes_eq n ns then hosts else list_for ns m

abbrev pub is_host_allowed : Bytes → List Bytes → Bool
is_host_allowed host patterns = any (matches_domain host) patterns

-- `validateHost`: the list of the namespace takes the place of the global one, unless it is empty.
unfoldable pub validate_host : (Bytes → Option Bytes) → HttpModule → Bytes → Bytes → Bool
validate_host host_of m ns url = elim (host_of url) [
  | none ↦ false
  | some host ↦ elim host [
    | [] ↦ false
    | c ∷ s ↦ elim (list_for ns m.namespace_allowlists) [
      | [] ↦ is_host_allowed (c ∷ s) m.global_allowlist
      | p ∷ ps ↦ is_host_allowed (c ∷ s) (p ∷ ps)
    ]
  ]
]

abbrev pub header_bytes : List (Bytes × Bytes) → Bytes
header_bytes [] = []
header_bytes ((k, v) ∷ m) = k ++ (v ++ header_bytes m)

-- The headers in the order in which Go runs through the map.
unfoldable pub build_cache_key :
    (Bytes → Bytes) → Bytes → Bytes → Bytes → List (Bytes × Bytes) → Bytes
build_cache_key hash method ns url headers = hash (method ++ (ns ++ (url ++ header_bytes headers)))

abbrev pub entry_for : Bytes → List (Bytes × CacheEntry) → Option CacheEntry
entry_for k [] = none
entry_for k ((j, e) ∷ m) = if bytes_eq j k then some e else entry_for k m

abbrev is_expired : ℕ → CacheEntry → Bool
is_expired now e = ltb (e.cached_at + e.ttl) now

unfoldable pub get_cached : Bytes → ℕ → HttpModule → Option HttpResponse
get_cached key now m = elim (entry_for key m.cache) [
  | none ↦ none
  | some e ↦ if is_expired now e then none else some e.response
]

-- `cache[key] = entry`.
abbrev store_entry : Bytes → CacheEntry → List (Bytes × CacheEntry) → List (Bytes × CacheEntry)
store_entry k e [] = (k, e) ∷ []
store_entry k e ((j, f) ∷ m) =
    let rest = store_entry k e m in if bytes_eq j k then (k, e) ∷ m else (j, f) ∷ rest

unfoldable pub cleanup_expired : ℕ → List (Bytes × CacheEntry) → List (Bytes × CacheEntry)
cleanup_expired now [] = []
cleanup_expired now ((k, e) ∷ m) =
    let rest = cleanup_expired now m in if is_expired now e then rest else (k, e) ∷ rest

unfoldable pub set_cached : Bytes → HttpResponse → ℕ → ℕ → HttpModule → HttpModule
unfolding cleanup_expired
set_cached key response ttl now m =
    let cache =
      store_entry key (record { response = response; cached_at = now; ttl = ttl }) m.cache in
    record m { cache = if ltb 1000 (length cache) then cleanup_expired now cache else cache }

pub data HttpResult : Type 0 where
  refused request_failed : HttpResult
  responded : HttpResponse → HttpResult

-- What comes of one request: a response, a redirect, with the request that the client makes of it,
-- or an error.
pub data Answer : Type 0 where
  answered : HttpResponse → Answer
  redirects : Request → Answer
  unreachable : Answer

-- `client.Do`. The client has no `CheckRedirect`, so it follows redirects, wherever they lead, and
-- gives up after ten requests. `sent` grows by the requests made.
unfoldable pub follow :
    (Request → Answer) → ℕ → Request → List Request → Option HttpResponse × List Request
follow exchange zero r sent = (none, sent)
follow exchange (suc n) r sent = elim (exchange r) [
  | answered response ↦ (some response, r ∷ sent)
  | redirects next ↦ follow exchange n next (r ∷ sent)
  | unreachable ↦ (none, r ∷ sent)
]

module _ (host_of : Bytes → Option Bytes) (hash : Bytes → Bytes) (exchange : Request → Answer) where
  unfoldable pub do_request : Request → HttpModule → Option HttpResponse × HttpModule
  unfolding follow
  do_request r m = let (o, sent) = follow exchange 10 r m.sent in (o, record m { sent = sent })

  abbrev result_of : Option HttpResponse → HttpResult
  result_of none = request_failed
  result_of (some response) = responded response

  abbrev pub cached_if : Bool → Bytes → Option HttpResponse → ℕ → ℕ → HttpModule → HttpModule
  cached_if false key o ttl now m = m
  cached_if true key none ttl now m = m
  cached_if true key (some response) ttl now m = set_cached key response ttl now m

  -- `http.get` on an allowed host, on what the cache gave.
  unfoldable pub get_fresh :
      Bytes → Request → ℕ → ℕ → Option HttpResponse → HttpModule → HttpResult × HttpModule
  unfolding do_request set_cached
  get_fresh key r ttl now (some response) m = (responded response, m)
  get_fresh key r ttl now none m =
      let (o, m') = do_request r m in
      (result_of o, cached_if (m.cache_enabled && ltb 0 ttl) key o ttl now m')

  unfoldable pub http_get :
      Bytes → Bytes → List (Bytes × Bytes) → ℕ → ℕ → HttpModule → HttpResult × HttpModule
  unfolding validate_host build_cache_key get_cached get_fresh
  http_get ns url headers ttl now m =
      let key = build_cache_key hash (codes "GET") ns url headers in
      let r : Request = record { method = codes "GET"; url = url; body = []; headers = headers } in
      if validate_host host_of m ns url
      then get_fresh key r ttl now
          (if m.cache_enabled && ltb 0 ttl then get_cached key now m else none) m
      else (refused, m)

  -- `http.post`, `http.put` and `http.delete`, which always go out.
  unfoldable pub http_send : Bytes → Request → HttpModule → HttpResult × HttpModule
  unfolding validate_host do_request
  http_send ns r m =
      if validate_host host_of m ns r.url
      then (let (o, m') = do_request r m in (result_of o, m'))
      else (refused, m)
