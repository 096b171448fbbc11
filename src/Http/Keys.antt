-- ===== src/Http/Keys.antt =====
-- internal/script/modules/http.go: the keys of the cache, and how long an entry serves.
use howk.Prelude.{
  ℕ, ◌+◌, ◌≤◌, ◌≡◌, refl, sym, ap, ◌∙◌, inl, inr, true, ◌&&◌, List, [], ◌∷◌, ◌++◌, Option, none,
  some, arith, ltb, if◌then◌else◌, Bool-cases,
}
use howk.Prelude.Text.{Bytes, codes, bytes_eq, bytes_eq_refl}
use howk.Redis.ZSet.{bytes_eq_iff}
use howk.Http.{
  HttpModule, HttpResponse, Answer, do_request, CacheEntry, responded, Request, validate_host,
  get_cached, get_fresh, http_get, build_cache_key, set_cached, entry_for, store_entry,
  cleanup_expired, header_bytes, is_expired,
}
use mathlib.Core.List.{append_assoc}

entry_for-store_entry :
    (k j : Bytes) (e : CacheEntry) (m : List (Bytes × CacheEntry))
    → entry_for k (store_entry j e m) ≡ (if bytes_eq j k then some e else entry_for k m)
entry_for-store_entry k j e [] = refl
entry_for-store_entry k j e ((i, f) ∷ m) =
    ground
      (arith, entry_for-store_entry k j e m, bytes_eq_iff i j, bytes_eq_iff i k, bytes_eq_iff j k)

-- What cannot be served is not served, before a cleanup and after it.
abbrev fresh : ℕ → Option CacheEntry → Option HttpResponse
fresh now none = none
fresh now (some e) = if is_expired now e then none else some e.response

-- Each key stands once.
abbrev pub IsCache : List (Bytes × CacheEntry) → Type 0
IsCache [] = Unit {0}
IsCache ((k, e) ∷ m) = (entry_for k m ≡ none) × IsCache m

entry_for-cleanup :
    (k : Bytes) (now : ℕ) (m : List (Bytes × CacheEntry))
    → entry_for k m ≡ none
    → entry_for k (cleanup_expired now m) ≡ none
unfolding cleanup_expired
entry_for-cleanup k now [] h = refl
entry_for-cleanup k now ((j, e) ∷ m) h = ground (arith, entry_for-cleanup k now m)

fresh-cleanup :
    (k : Bytes) (now later : ℕ) (m : List (Bytes × CacheEntry))
    → IsCache m
    → now ≤ later
    → fresh later (entry_for k (cleanup_expired now m)) ≡ fresh later (entry_for k m)
unfolding cleanup_expired
fresh-cleanup k now later [] h l = refl
fresh-cleanup k now later ((j, e) ∷ m) h l =
    ground
      (arith, fresh-cleanup k now later m h.1 l, entry_for-cleanup j now m h.0, bytes_eq_iff j k)

store_entry-IsCache :
    (k : Bytes) (e : CacheEntry) (m : List (Bytes × CacheEntry))
    → IsCache m
    → IsCache (store_entry k e m)
store_entry-IsCache k e [] h = (refl, tt)
store_entry-IsCache k e ((j, f) ∷ m) h = elim (Bool-cases (bytes_eq j k)) [
  | inl y ↦ rw y (ground (arith, bytes_eq_iff j k), h.1)
  | inr n ↦ rw n (
    ground (arith, entry_for-store_entry j k e m, bytes_eq_iff k j, bytes_eq_iff j k),
    store_entry-IsCache k e m h.1,
  )
]

get_cached-fresh :
    (k : Bytes) (now : ℕ) (m : HttpModule) → get_cached k now m ≡ fresh now (entry_for k m.cache)
unfolding get_cached
get_cached-fresh k now m = ground arith

-- After a response has been cached, the cache serves it under its key until its own TTL is over and
-- no longer, and serves each other key as before, whether or not the cache was cleaned up.
get_cached-set_cached :
    (k j : Bytes) (response : HttpResponse) (ttl now later : ℕ) (m : HttpModule)
    → IsCache m.cache
    → now ≤ later
    → get_cached k later (set_cached j response ttl now m) ≡ (
        if bytes_eq j k
        then (if ltb (now + ttl) later then none else some response)
        else get_cached k later m)
get_cached-set_cached k j response ttl now later m h l =
    get_cached-fresh k later (set_cached j response ttl now m)
    ∙ serve
    ∙ rw (get_cached-fresh k later m) held
  where
    e : CacheEntry
    e = record { response = response; cached_at = now; ttl = ttl }

    serve :
        fresh later (entry_for k (set_cached j response ttl now m).cache)
        ≡ fresh later (entry_for k (store_entry j e m.cache))
    serve =
        unfold set_cached in
        ground (
          arith,
          fresh-cleanup k now later (store_entry j e m.cache) (store_entry-IsCache j e m.cache h) l,
        )

    held : fresh later (entry_for k (store_entry j e m.cache)) ≡ (
        if bytes_eq j k
        then (if ltb (now + ttl) later then none else some response)
        else fresh later (entry_for k m.cache))
    held = ground (arith, entry_for-store_entry k j e m.cache)

abbrev pub get_request : Bytes → List (Bytes × Bytes) → Request
get_request url headers = record { method = codes "GET"; url = url; body = []; headers = headers }

-- The bytes of the key do not tell where a header's name ends and its value begins.
key_collides :
    (hash : Bytes → Bytes) (method ns url name part value : Bytes) (headers : List (Bytes × Bytes))
    → build_cache_key hash method ns url ((name ++ part, value) ∷ headers)
      ≡ build_cache_key hash method ns url ((name, part ++ value) ∷ headers)
unfolding build_cache_key
key_collides hash method ns url name part value headers =
    ap (λ h. hash (method ++ (ns ++ (url ++ h))))
      (append_assoc name part _
        ∙ ap (λ r. name ++ r) (sym (append_assoc part value (header_bytes headers))))

module _ (host_of : Bytes → Option Bytes) (hash : Bytes → Bytes) (exchange : Request → Answer) where
  from_cache :
      (ns url : Bytes) (headers : List (Bytes × Bytes)) (ttl now : ℕ) (m : HttpModule)
      (response : HttpResponse)
      → validate_host host_of m ns url ≡ true
      → m.cache_enabled ≡ true
      → ltb 0 ttl ≡ true
      → get_cached (build_cache_key hash (codes "GET") ns url headers) now m ≡ some response
      → http_get host_of hash exchange ns url headers ttl now m ≡ (responded response, m)
  unfolding http_get get_fresh
  from_cache ns url headers ttl now m response v c p g = rw (v, c, p, g) refl

  to_cache :
      (ns url : Bytes) (headers : List (Bytes × Bytes)) (ttl now : ℕ) (m : HttpModule)
      (response : HttpResponse)
      → validate_host host_of m ns url ≡ true
      → m.cache_enabled ≡ true
      → ltb 0 ttl ≡ true
      → get_cached (build_cache_key hash (codes "GET") ns url headers) now m ≡ none
      → (do_request host_of hash exchange (get_request url headers) m).0 ≡ some response
      → (http_get host_of hash exchange ns url headers ttl now m).1
        ≡ set_cached
            (build_cache_key hash (codes "GET") ns url headers)
            response
            ttl
            now
            (do_request host_of hash exchange (get_request url headers) m).1
  unfolding http_get get_fresh
  to_cache ns url headers ttl now m response v c p g f =
      let both : (m.cache_enabled && ltb 0 ttl) ≡ true = ground arith in
      rw (v, both, g, f) (rw both refl)

  -- A script fetches a URL with one header, and within the TTL of the cached response another call of the
  -- namespace fetches it with another header, where the bytes of the two headers, name and value
  -- run together, are the same. The second call is given the response to the first one, and
  -- its own request is never made.
  pub other_header_is_served :
      (ns url name part value : Bytes) (ttl now later : ℕ) (m : HttpModule)
      (response : HttpResponse)
      → validate_host host_of m ns url ≡ true
      → m.cache_enabled ≡ true
      → ltb 0 ttl ≡ true
      → IsCache m.cache
      → let first : List (Bytes × Bytes) = (name ++ part, value) ∷ [] in
        let second : List (Bytes × Bytes) = (name, part ++ value) ∷ [] in
        get_cached (build_cache_key hash (codes "GET") ns url first) now m ≡ none
        → (do_request host_of hash exchange (get_request url first) m).0 ≡ some response
        → now ≤ later
        → later ≤ now + ttl
        → let m' = (http_get host_of hash exchange ns url first ttl now m).1 in
          http_get host_of hash exchange ns url second ttl later m' ≡ (responded response, m')
  unfolding validate_host do_request
  other_header_is_served ns url name part value ttl now later m response v c p i cold f a b =
      let first : List (Bytes × Bytes) = (name ++ part, value) ∷ [] in
      let second : List (Bytes × Bytes) = (name, part ++ value) ∷ [] in
      let k = build_cache_key hash (codes "GET") ns url first in
      let sent = (do_request host_of hash exchange (get_request url first) m).1 in
      let served : get_cached k later (set_cached k response ttl now sent) ≡ some response =
        get_cached-set_cached k k response ttl now later sent i a
        ∙ ground (arith, bytes_eq_refl k) in
      rw (to_cache ns url first ttl now m response v c p cold f) (
        from_cache ns url second ttl later (set_cached k response ttl now sent) response
          (kept k response sent ∙ v) (enabled k response sent ∙ c) p
          (ap (λ x. get_cached x later (set_cached k response ttl now sent))
              (sym (key_collides hash (codes "GET") ns url name part value []))
            ∙ served))
    where
      kept :
          (k : Bytes) (response : HttpResponse) (x : HttpModule)
          → validate_host host_of (set_cached k response ttl now x) ns url
            ≡ validate_host host_of x ns url
      kept k response x = unfold set_cached validate_host in refl

      enabled :
          (k : Bytes) (response : HttpResponse) (x : HttpModule)
          → (set_cached k response ttl now x).cache_enabled ≡ x.cache_enabled
      enabled k response x = unfold set_cached in refl
