-- ===== src/Http/Tests.antt =====
-- internal/script/modules/http.go: a script's calls on one allowed host.
use howk.Prelude.{◌≡◌, refl, true, List, [], ◌∷◌, Option, some, arith, if◌then◌else◌}
use howk.Prelude.Text.{Bytes, codes, bytes_eq}
use howk.Http.{
  HttpModule, HttpResponse, Request, Answer, answered, redirects, do_request, build_cache_key,
  responded, validate_host, get_cached, http_get, parse_host_list,
}
use howk.Http.Hosts.{gets, calls, SentAllowed, only_allowed_hosts}
use howk.Http.Keys.{get_request, other_header_is_served}

abbrev http_module : HttpModule
http_module = record {
  global_allowlist = [];
  namespace_allowlists = (codes "wh", codes "*" ∷ []) ∷ [];
  cache_enabled = true;
  cache = [];
  sent = [];
}

abbrev host : Bytes → Option Bytes
host url = some (codes "a.example")

abbrev response : HttpResponse
response = record { status_code = 200; body = codes "one"; headers = [] }

-- One URL is answered with a redirect to a host of the network that the server is in.
abbrev inner : Request
inner = record { method = codes "GET"; url = codes "http://10.0.0.1"; body = []; headers = [] }

abbrev exchange : Request → Answer
exchange r =
    if bytes_eq r.url (codes "https://a.example") then redirects inner else answered response

hosts_parse :
    parse_host_list (codes "a.example, ,b.example ") ≡ codes "a.example" ∷ codes "b.example" ∷ []
unfolding parse_host_list
hosts_parse = refl

only_allowed_hosts_example :
    SentAllowed host
      (λ k. k)
      exchange
      (codes "wh")
      http_module
      (calls host
        (λ k. k)
        exchange
        (codes "wh")
        (gets (codes "https://a.example") [] 5 0 ∷ [])
        http_module)
only_allowed_hosts_example =
    only_allowed_hosts host (λ k. k) exchange (codes "wh") http_module
      (gets (codes "https://a.example") [] 5 0 ∷ [])

-- It is followed, though no list was asked for that host.
redirect_is_followed :
    (http_get host
      (λ k. k)
      exchange
      (codes "wh")
      (codes "https://a.example")
      []
      0
      0
      http_module).1.sent
    ≡ inner ∷ get_request (codes "https://a.example") [] ∷ []
unfolding http_get validate_host do_request howk.Http.get_fresh howk.Domain.Matching.matches_domain
redirect_is_followed = refl

-- "X-A: bc" and "X-Ab: c".
other_header_is_served_example :
    let first : List (Bytes × Bytes) = (codes "X-A", codes "bc") ∷ [] in
    let m' =
      (http_get host
        (λ k. k)
        exchange
        (codes "wh")
        (codes "u")
        ((codes "X-Ab", codes "c") ∷ [])
        5
        0
        http_module).1 in
    http_get host (λ k. k) exchange (codes "wh") (codes "u") first 5 3 m' ≡ (responded response, m')
unfolding validate_host get_cached do_request howk.Domain.Matching.matches_domain
other_header_is_served_example =
    other_header_is_served host (λ k. k) exchange (codes "wh") (codes "u") (codes "X-A") (codes "b")
      (codes "c") 5 0 3 http_module response refl refl refl tt refl refl (omega arith) (omega arith)
