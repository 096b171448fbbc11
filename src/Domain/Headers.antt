-- ===== src/Domain/Headers.antt =====
-- internal/domain/types.go: `RedactHeaders` and `CloneForDLQ`. Header names are ASCII, as HTTP
-- requires, so `strings.ToLower` folds the letters A to Z.
use howk.Prelude.{
  ◌≡◌, refl, sym, Bool, false, List, [], ◌∷◌, Option, none, some, any, if◌then◌else◌, Bool-cases,
  inl, inr,
}
use howk.Prelude.Text.{Bytes, codes, to_lower, bytes_eq, bytes_eq→eq, bytes_eq_refl}
use howk.Domain.{Webhook, StringMap}

abbrev pub default_sensitive_headers : List Bytes
default_sensitive_headers =
    codes "Authorization"
    ∷ codes "Proxy-Authorization"
    ∷ codes "Cookie"
    ∷ codes "Set-Cookie"
    ∷ codes "X-API-Key"
    ∷ codes "X-Auth-Token"
    ∷ []

abbrev pub redacted : Bytes
redacted = codes "[REDACTED]"

-- Whether the set of the folded names holds the folded key.
unfoldable pub is_sensitive : List Bytes → Bytes → Bool
is_sensitive names k = any (λ n. bytes_eq (to_lower n) (to_lower k)) names

-- The loop over the entries of the map.
unfoldable pub redact_entries : List Bytes → List (Bytes × Bytes) → List (Bytes × Bytes)
redact_entries names [] = []
redact_entries names ((k, v) ∷ m) =
    (k, if is_sensitive names k then redacted else v) ∷ redact_entries names m

unfoldable pub redact_headers : StringMap → List Bytes → StringMap
unfolding redact_entries
redact_headers none names = none
redact_headers (some m) [] = some m
redact_headers (some m) (n ∷ names) = some (redact_entries (n ∷ names) m)

unfoldable pub clone_for_dlq : Webhook → List Bytes → Webhook
unfolding redact_headers
clone_for_dlq w names = record w { headers = redact_headers w.headers names }

abbrev pub get : Bytes → List (Bytes × Bytes) → Option Bytes
get k [] = none
get k ((j, v) ∷ m) = if bytes_eq j k then some v else get k m

abbrev pub header : Bytes → StringMap → Option Bytes
header k none = none
header k (some m) = get k m

-- What a reader of the dead letter topic may see of a header.
abbrev pub masked : Bool → Option Bytes → Option Bytes
masked b none = none
masked b (some v) = some (if b then redacted else v)

get-redact_entries :
    (names : List Bytes) (k : Bytes) (m : List (Bytes × Bytes))
    → get k (redact_entries names m) ≡ masked (is_sensitive names k) (get k m)
unfolding redact_entries
get-redact_entries names k [] = refl
get-redact_entries names k ((j, v) ∷ m) = elim (Bool-cases (bytes_eq j k)) [
  | inl e ↦ rw (bytes_eq→eq j k e, bytes_eq_refl k)
  | inr e ↦ rw e (get-redact_entries names k m)
]

masked_none : (o : Option Bytes) → masked false o ≡ o
masked_none none = refl
masked_none (some v) = refl

-- In the copy that goes to the dead letter queue each header has the value that it has in the
-- webhook, or the placeholder if its name is on the list up to the case of its letters; no header
-- comes or goes, and all else in the copy is as in the webhook.
pub clone_for_dlq_masks :
    (w : Webhook) (names : List Bytes) (k : Bytes)
    → let c = clone_for_dlq w names in
      (header k c.headers ≡ masked (is_sensitive names k) (header k w.headers))
      × (c ≡ record w { headers = c.headers })
unfolding clone_for_dlq is_sensitive
clone_for_dlq_masks w names k = (go w.headers names, refl)
  where
    go :
        (h : StringMap) (ns : List Bytes)
        → header k (redact_headers h ns) ≡ masked (is_sensitive ns k) (header k h)
    go none ns = refl
    go (some m) [] = sym (masked_none (get k m))
    go (some m) (n ∷ ns) = get-redact_entries (n ∷ ns) k m
