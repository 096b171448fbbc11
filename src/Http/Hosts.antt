-- ===== src/Http/Hosts.antt =====
-- internal/script/modules/http.go: where the requests of scripts go.
use howk.Prelude.{
  ℕ, zero, suc, ◌≡◌, ◌⊎◌, refl, inl, inr, Bool, true, false, ◌&&◌, List, [], ◌∷◌, ◌++◌, ap, sym,
  ◌∙◌, Option, none, some, arith, if◌then◌else◌, Bool-cases, Option-cases, ltb,
}
use howk.Prelude.Text.{Bytes, codes}
use howk.Domain.Matching.{HasMatch, any-HasMatch}
use howk.Http.{
  HttpModule, HttpResponse, Request, Answer, answered, redirects, unreachable, follow, do_request,
  list_for, is_host_allowed, validate_host, get_cached, get_fresh, http_get, http_send,
  build_cache_key, set_cached, cached_if,
}

-- A call of a script in some namespace.
pub data Call : Type 0 where
  gets : Bytes → List (Bytes × Bytes) → ℕ → ℕ → Call
  sends : Request → Call

-- The allowlist of the namespace, or the global one if that is empty.
abbrev pub patterns_for : Bytes → HttpModule → List Bytes
patterns_for ns m = elim (list_for ns m.namespace_allowlists) [
  | [] ↦ m.global_allowlist
  | p ∷ ps ↦ p ∷ ps
]

-- The URL has a host, and a pattern for the namespace matches it.
abbrev pub GoesToAllowed : (Bytes → Option Bytes) → HttpModule → Bytes → Bytes → Type 0
GoesToAllowed host_of m ns url =
    (host : Bytes) × (host_of url ≡ some host) × HasMatch host (patterns_for ns m)

by_list-HasMatch :
    (host : Bytes) (own global : List Bytes)
    → elim own [ [] ↦ is_host_allowed host global | p ∷ ps ↦ is_host_allowed host (p ∷ ps) ] ≡ true
    → HasMatch host (elim own [ [] ↦ global | p ∷ ps ↦ p ∷ ps ])
by_list-HasMatch host [] global v = any-HasMatch host global v
by_list-HasMatch host (p ∷ ps) global v = any-HasMatch host (p ∷ ps) v

validate_host-GoesToAllowed :
    (host_of : Bytes → Option Bytes) (m : HttpModule) (ns url : Bytes)
    → validate_host host_of m ns url ≡ true
    → GoesToAllowed host_of m ns url
unfolding validate_host
validate_host-GoesToAllowed host_of m ns url v = elim (Option-cases (host_of url)) [
  | inl e ↦ let q : false ≡ true = (rw (e, validate_host) at v) in ground arith
  | inr ([], e) ↦ let q : false ≡ true = (rw (e, validate_host) at v) in ground arith
  | inr (c ∷ s, e) ↦ (
    c ∷ s,
    e,
    by_list-HasMatch (c ∷ s) (list_for ns m.namespace_allowlists) m.global_allowlist
        (rw (e, validate_host) at v),
  )
]

-- Each request goes to an allowed host, or it is the redirect with which the one made just before it
-- was answered. The latest request comes first.
abbrev IsRedirect : (Request → Answer) → Request → List Request → Type 0
IsRedirect exchange r [] = ⊥
IsRedirect exchange r (q ∷ qs) = exchange q ≡ redirects r

abbrev pub AreVouched :
    (Bytes → Option Bytes) → (Request → Answer) → HttpModule → Bytes → List Request → Type 0
AreVouched host_of exchange m ns [] = Unit {0}
AreVouched host_of exchange m ns (r ∷ rs) =
    (GoesToAllowed host_of m ns r.url ⊎ IsRedirect exchange r rs)
    × AreVouched host_of exchange m ns rs

module _ (host_of : Bytes → Option Bytes) (hash : Bytes → Bytes) (exchange : Request → Answer)
    (ns : Bytes) where
  abbrev pub call : Call → HttpModule → HttpModule
  call (gets url headers ttl now) m = (http_get host_of hash exchange ns url headers ttl now m).1
  call (sends r) m = (http_send host_of hash exchange ns r m).1

  abbrev pub calls : List Call → HttpModule → HttpModule
  calls [] m = m
  calls (c ∷ cs) m = calls cs (call c m)

  -- The allowlists are those of a module, and what it sent besides is vouched for.
  pub record SentAllowed (before m : HttpModule) : Type 0 where
    pub global : m.global_allowlist ≡ before.global_allowlist
    pub lists : m.namespace_allowlists ≡ before.namespace_allowlists
    pub added : List Request
    pub grown : m.sent ≡ added ++ before.sent
    pub each : AreVouched host_of exchange before ns added

  validate_host-same :
      (a b : HttpModule) (url : Bytes)
      → a.global_allowlist ≡ b.global_allowlist
      → a.namespace_allowlists ≡ b.namespace_allowlists
      → validate_host host_of a ns url ≡ validate_host host_of b ns url
  unfolding validate_host
  validate_host-same a b url g l = rw (g, l) refl

  -- What the client makes of a request keeps to it.
  follow-AreVouched :
      (before : HttpModule) (n : ℕ) (r : Request) (added : List Request)
      → GoesToAllowed host_of before ns r.url ⊎ IsRedirect exchange r added
      → AreVouched host_of exchange before ns added
      → (more : List Request) × ((follow exchange n r (added ++ before.sent)).1
          ≡ more ++ before.sent)
        × AreVouched host_of exchange before ns more
  unfolding follow
  follow-AreVouched before zero r added v k = (added, refl, k)
  follow-AreVouched before (suc n) r added v k =
      go (exchange r) refl (λ next e. follow-AreVouched before n next (r ∷ added) (inr e) (v, k))
    where
      go :
          (a : Answer)
          → exchange r ≡ a
          → ((next : Request)
              → exchange r ≡ redirects next
              → (more : List Request) × ((follow exchange n next (r ∷ (added ++ before.sent))).1
                  ≡ more ++ before.sent)
                × AreVouched host_of exchange before ns more)
          → (more : List Request) × ((elim a as (λ _. Option HttpResponse × List Request) [
            | answered response ↦ (some response, r ∷ (added ++ before.sent))
            | redirects next ↦ follow exchange n next (r ∷ (added ++ before.sent))
            | unreachable ↦ (none, r ∷ (added ++ before.sent))
          ]).1
              ≡ more ++ before.sent)
            × AreVouched host_of exchange before ns more
      go (answered response) e on = (r ∷ added, refl, (v, k))
      go (redirects next) e on = on next e
      go unreachable e on = (r ∷ added, refl, (v, k))

  do_request-SentAllowed :
      (before m : HttpModule) (r : Request)
      → SentAllowed before m
      → validate_host host_of m ns r.url ≡ true
      → SentAllowed before (do_request host_of hash exchange r m).1
  unfolding do_request
  do_request-SentAllowed before m r k v =
      let allowed : GoesToAllowed host_of before ns r.url =
        validate_host-GoesToAllowed host_of before ns r.url
          (sym (validate_host-same m before r.url k.global k.lists) ∙ v) in
      let (more, e, c) = follow-AreVouched before 10 r k.added (inl allowed) k.each in
      record {
        global = k.global;
        lists = k.lists;
        added = more;
        grown = ap (λ s. (follow exchange 10 r s).1) k.grown ∙ e;
        each = c;
      }

  SentAllowed-cache :
      (before m : HttpModule) (key : Bytes) (response : HttpResponse) (ttl now : ℕ)
      → SentAllowed before m
      → SentAllowed before (set_cached key response ttl now m)
  unfolding set_cached
  SentAllowed-cache before m key response ttl now k = record {
    global = k.global;
    lists = k.lists;
    added = k.added;
    grown = k.grown;
    each = k.each;
  }

  SentAllowed-cached_if :
      (before m : HttpModule) (b : Bool) (key : Bytes) (o : Option HttpResponse) (ttl now : ℕ)
      → SentAllowed before m
      → SentAllowed before (cached_if host_of hash exchange b key o ttl now m)
  SentAllowed-cached_if before m false key o ttl now k = k
  SentAllowed-cached_if before m true key none ttl now k = k
  SentAllowed-cached_if before m true key (some response) ttl now k =
      SentAllowed-cache before m key response ttl now k

  get_fresh-SentAllowed :
      (before m : HttpModule) (key : Bytes) (r : Request) (ttl now : ℕ) (o : Option HttpResponse)
      → SentAllowed before m
      → validate_host host_of m ns r.url ≡ true
      → SentAllowed before (get_fresh host_of hash exchange key r ttl now o m).1
  unfolding get_fresh
  get_fresh-SentAllowed before m key r ttl now (some response) k v = k
  get_fresh-SentAllowed before m key r ttl now none k v =
      let (o, m') = do_request host_of hash exchange r m in
      SentAllowed-cached_if before m' (m.cache_enabled && ltb 0 ttl) key o ttl now
        (do_request-SentAllowed before m r k v)

  call-SentAllowed :
      (before m : HttpModule) (c : Call) → SentAllowed before m → SentAllowed before (call c m)
  unfolding http_get http_send
  call-SentAllowed before m (gets url headers ttl now) k =
      elim (Bool-cases (validate_host host_of m ns url)) [
        | inl e ↦
            rw (call, e)
              (get_fresh-SentAllowed before m (build_cache_key hash (codes "GET") ns url headers)
                (record { method = codes "GET"; url = url; body = []; headers = headers }) ttl now
                (if m.cache_enabled && ltb 0 ttl
                  then get_cached (build_cache_key hash (codes "GET") ns url headers) now m
                  else none)
                k e)
        | inr e ↦ rw (call, e) k
      ]
  call-SentAllowed before m (sends r) k = elim (Bool-cases (validate_host host_of m ns r.url)) [
    | inl e ↦ rw (call, e) (do_request-SentAllowed before m r k e)
    | inr e ↦ rw (call, e) k
  ]

  calls-SentAllowed :
      (before m : HttpModule) (cs : List Call)
      → SentAllowed before m
      → SentAllowed before (calls cs m)
  calls-SentAllowed before m [] k = k
  calls-SentAllowed before m (c ∷ cs) k =
      calls-SentAllowed before (call c m) cs (call-SentAllowed before m c k)

  -- Whatever calls the scripts of a namespace make, each request that goes out has a host that the
  -- allowlist of the namespace allows, or the global one if that list is empty, unless it is a
  -- redirect with which the server has answered the request just before it: where a redirect leads
  -- is not looked at. The calls change neither list.
  pub only_allowed_hosts : (m : HttpModule) (cs : List Call) → SentAllowed m (calls cs m)
  only_allowed_hosts m cs =
      calls-SentAllowed m m cs
        (record { global = refl; lists = refl; added = []; grown = refl; each = tt })
