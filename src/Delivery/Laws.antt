-- ===== src/Delivery/Laws.antt =====
-- internal/delivery/overrides.go: what overrides do to a webhook.
use howk.Prelude.{
  ◌≡◌, refl, Bool, true, false, ◌&&◌, List, [], ◌∷◌, Option, none, some, arith, if◌then◌else◌,
}
use howk.Prelude.Text.{Bytes}
use howk.Domain.{Webhook, StringMap}
use howk.Domain.Headers.{get, header}
use howk.Domain.Entries.{entries, IsMap, get-set_entries, or_else}
use howk.Redis.ZSet.{bytes_eq_iff}
use howk.Delivery.{
  Overrides, is_empty, is_nil, extract_templates, extract_overrides, apply_overrides,
  resolve_entries, resolve_templates, lookup_delivery_overrides, with_headers,
}
use howk.Delivery.Expand.{expand}
use howk.Json.{Fields}

header-entries : (k : Bytes) (h : StringMap) → get k (entries h) ≡ header k h
header-entries k none = refl
header-entries k (some m) = refl

header-with_headers :
    (k : Bytes) (es : List (Bytes × Bytes)) (h : StringMap)
    → IsMap es
    → header k (with_headers es h) ≡ or_else (get k es) (header k h)
unfolding with_headers
header-with_headers k [] h i = refl
header-with_headers k (e ∷ es) h i =
    ground (arith, get-set_entries k (entries h) (e ∷ es) i, header-entries k h)

-- A name keeps one value at most when the empty ones go.
get-resolve_entries :
    (env : Bytes → Bytes) (k : Bytes) (m : List (Bytes × Bytes))
    → get k m ≡ none
    → get k (resolve_entries env m) ≡ none
unfolding resolve_entries
get-resolve_entries env k [] h = refl
get-resolve_entries env k ((j, v) ∷ m) h = ground (arith, get-resolve_entries env k m)

abbrev kept : Bytes → Bytes → List (Bytes × Bytes) → List (Bytes × Bytes)
kept k s rest = elim s [ [] ↦ rest | c ∷ t ↦ (k, c ∷ t) ∷ rest ]

kept-IsMap :
    (k s : Bytes) (rest : List (Bytes × Bytes))
    → get k rest ≡ none
    → IsMap rest
    → IsMap (kept k s rest)
kept-IsMap k [] rest n h = h
kept-IsMap k (c ∷ t) rest n h = (n, h)

resolve_entries-IsMap :
    (env : Bytes → Bytes) (m : List (Bytes × Bytes)) → IsMap m → IsMap (resolve_entries env m)
unfolding resolve_entries
resolve_entries-IsMap env [] h = tt
resolve_entries-IsMap env ((k, v) ∷ m) h =
    kept-IsMap k (expand env v) (resolve_entries env m) (get-resolve_entries env k m h.0)
      (resolve_entries-IsMap env m h.1)

-- What a name resolves to: its expanded template, unless that is empty.
abbrev pub resolved : (Bytes → Bytes) → Option Bytes → Option Bytes
resolved env none = none
resolved env (some v) = elim (expand env v) [ [] ↦ none | c ∷ s ↦ some (c ∷ s) ]

get-resolve_entries_eq :
    (env : Bytes → Bytes) (k : Bytes) (m : List (Bytes × Bytes))
    → IsMap m
    → get k (resolve_entries env m) ≡ resolved env (get k m)
unfolding resolve_entries
get-resolve_entries_eq env k [] h = refl
get-resolve_entries_eq env k ((j, v) ∷ m) h =
    ground
      (arith, bytes_eq_iff j k, get-resolve_entries_eq env k m h.1, get-resolve_entries env j m h.0)

header-resolve_templates :
    (set_query : Bytes → List (Bytes × Bytes) → Option Bytes) (env : Bytes → Bytes)
    (params headers : StringMap) (h : Webhook) (k : Bytes)
    → IsMap (entries headers)
    → header k (apply_overrides set_query h (resolve_templates env params headers)).headers
      ≡ or_else (resolved env (header k headers)) (header k h.headers)
unfolding apply_overrides resolve_templates
header-resolve_templates set_query env params headers h k i =
    go (resolve_entries env (entries params)) (resolve_entries env (entries headers))
      (resolve_entries-IsMap env (entries headers) i)
      (get-resolve_entries_eq env k (entries headers) i)
  where
    go :
        (ps hs : List (Bytes × Bytes))
        → IsMap hs
        → get k hs ≡ resolved env (get k (entries headers))
        → header k
            (apply_overrides set_query h (
              let o : Overrides = record { query_params = ps; headers = hs } in
              if is_empty (some o) then none else some o)).headers
          ≡ or_else (resolved env (header k headers)) (header k h.headers)
    go [] [] m e = ground (arith, header-entries k headers)
    go [] (x ∷ hs) m e =
        ground (arith, header-entries k headers, header-with_headers k (x ∷ hs) h.headers m)
    go (p ∷ ps) hs m e =
        ground (arith, header-entries k headers, header-with_headers k hs h.headers m)

apply_overrides-copies :
    (set_query : Bytes → List (Bytes × Bytes) → Option Bytes) (h : Webhook) (o : Option Overrides)
    → let g = apply_overrides set_query h o in
      g ≡ record h { endpoint = g.endpoint; headers = g.headers }
unfolding apply_overrides
apply_overrides-copies set_query h none = refl
apply_overrides-copies set_query h (some o) = refl

-- The header templates that `lookupDeliveryOverrides` takes: those of the webhook if it carries any
-- template, else those of the script.
abbrev pub header_templates : Option (Option Fields) → Webhook → StringMap
header_templates script h =
    if is_nil (entries h.delivery_query_params) && is_nil (entries h.delivery_headers)
    then elim script [ none ↦ none | some config ↦ (extract_templates config).1 ]
    else h.delivery_headers

-- The copy of a webhook that is sent differs from it in its endpoint and headers only. If no header
-- template has the name of another, each header of the copy has the value that its template
-- expands to, if there is a template and that value is not empty, and else the value that it
-- has in the webhook.
pub delivered_copy :
    (set_query : Bytes → List (Bytes × Bytes) → Option Bytes) (env : Bytes → Bytes)
    (script : Option (Option Fields)) (h : Webhook) (k : Bytes)
    → IsMap (entries (header_templates script h))
    → let g = apply_overrides set_query h (lookup_delivery_overrides env script h) in
      (g ≡ record h { endpoint = g.endpoint; headers = g.headers })
      × (header k g.headers
          ≡ or_else (resolved env (header k (header_templates script h))) (header k h.headers))
unfolding lookup_delivery_overrides extract_overrides
delivered_copy set_query env script h k i = (
  apply_overrides-copies set_query h (lookup_delivery_overrides env script h),
  go (is_nil (entries h.delivery_query_params) && is_nil (entries h.delivery_headers)) script i,
)
  where
    go :
        (b : Bool) (s : Option (Option Fields))
        → let t : StringMap =
            if b
            then elim s [ none ↦ none | some config ↦ (extract_templates config).1 ]
            else h.delivery_headers in
          let o =
            if b
            then elim s [ none ↦ none | some config ↦ extract_overrides env config ]
            else resolve_templates env h.delivery_query_params h.delivery_headers in
          IsMap (entries t)
          → header k (apply_overrides set_query h o).headers
            ≡ or_else (resolved env (header k t)) (header k h.headers)
    go false s i =
        header-resolve_templates set_query env h.delivery_query_params h.delivery_headers h k i
    go true none i = unfold apply_overrides in refl
    go true (some config) i =
        header-resolve_templates set_query env (extract_templates config).0
          (extract_templates config).1 h k i
