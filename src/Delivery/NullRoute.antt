-- ===== src/Delivery/NullRoute.antt =====
-- internal/delivery/nullroute.go: hosts that are answered without a request. `parse` is `url.Parse`: the
-- host name and the path of an endpoint, or `none` for an error. Hosts are ASCII.
use howk.Prelude.{
  ℕ, ◌≤◌, ◌≡◌, refl, Bool, true, ◌&&◌, ◌||◌, List, [], ◌∷◌, Option, none, some, arith, leb, ◌==◌,
  if◌then◌else◌, any,
}
use howk.Prelude.Int.{ℤ, pos, negsuc}
use howk.Prelude.Text.{Bytes, codes, bytes_eq, to_lower, has_suffix, trim, trim_space}
use howk.Prelude.Decimal.{atoi}
use howk.Domain.{Webhook}
use howk.Effects.{Delivery}

abbrev is_dot : ℕ → Bool
is_dot c = c == b'.'

-- The loop of `NewNullRouter` over the hosts of all lists.
unfoldable pub null_hosts : List Bytes → List Bytes
null_hosts [] = []
null_hosts (h ∷ hs) =
    let rest = null_hosts hs in
    elim (trim is_dot (to_lower (trim_space h))) [ [] ↦ rest | c ∷ s ↦ (c ∷ s) ∷ rest ]

-- `strings.TrimSuffix(host, ".")`.
abbrev without_dot : Bytes → Bytes
without_dot [] = []
without_dot (c ∷ []) = if c == b'.' then [] else c ∷ []
without_dot (c ∷ d ∷ s) = c ∷ without_dot (d ∷ s)

abbrev covers : Bytes → Bytes → Bool
covers host h = bytes_eq host h || has_suffix host (b'.' ∷ h)

-- `Matches`.
unfoldable pub matches_null : List Bytes → Bytes → Bool
matches_null hosts host = any (covers (without_dot (to_lower host))) hosts

abbrev status_or_200 : Option ℤ → ℕ
status_or_200 none = 200
status_or_200 (some (negsuc n)) = 200
status_or_200 (some (pos n)) = if leb 100 n && leb n 599 then n else 200

-- The status that the path "/NNN" asks for.
unfoldable pub null_status : Bytes → ℕ
null_status path = status_or_200 (atoi (trim (λ c. c == b'/') path))

unfoldable pub null_route :
    (Bytes → Option (Bytes × Bytes)) → List Bytes → (Webhook → Delivery) → Webhook → Delivery
unfolding matches_null null_status
null_route parse hosts inner h = elim (parse h.endpoint) [
  | none ↦ inner h
  | some u ↦
      if matches_null hosts u.0
      then record {
        status_code = null_status u.1;
        error = none;
        response_body = codes "{\"null_route\":true}";
        duration = 0;
      }
      else inner h
]

null_status-bounds : (path : Bytes) → (100 ≤ null_status path) × (null_status path ≤ 599)
unfolding null_status
null_status-bounds path = go (atoi (trim (λ c. c == b'/') path))
  where
    go : (o : Option ℤ) → (100 ≤ status_or_200 o) × (status_or_200 o ≤ 599)
    go none = (omega arith, omega arith)
    go (some (negsuc n)) = (omega arith, omega arith)
    go (some (pos n)) = ground arith

-- A webhook to a host that a null route covers is answered with a status from 100 to 599, and
-- without the inner deliverer, whatever that would do.
null_route_isolates :
    (parse : Bytes → Option (Bytes × Bytes)) (hosts : List Bytes) (inner other : Webhook → Delivery)
    (h : Webhook) (u : Bytes × Bytes)
    → parse h.endpoint ≡ some u
    → matches_null hosts u.0 ≡ true
    → let r = null_route parse hosts inner h in
      (r ≡ null_route parse hosts other h) × (100 ≤ r.status_code) × (r.status_code ≤ 599)
unfolding null_route
null_route_isolates parse hosts inner other h u e m =
    let (a, b) = null_status-bounds u.1 in rw (null_route, e, m) (refl, a, b)
