-- ===== src/Delivery/Client.antt =====
-- internal/delivery/client.go: the request of a delivery. Header names are put into the canonical form
-- of net/textproto, as `Header.Set` does; `hmac secret text` is the hexadecimal HMAC-SHA256.
use howk.Prelude.{
  ℕ, ◌-◌, ◌≡◌, refl, Bool, true, ◌&&◌, ◌||◌, List, [], ◌∷◌, ◌++◌, Option, none, some, arith, leb,
  ◌==◌, if◌then◌else◌, take, any,
}
use howk.Prelude.Int.{pos, incr}
use howk.Prelude.Text.{Bytes, codes, bytes_eq, lower}
use howk.Prelude.Decimal.{itoa}
use howk.Domain.{Webhook}
use howk.Domain.Headers.{get}
use howk.Domain.Entries.{
  set_entry, set_entries, entries, IsMap, get-set_entry, get-set_entries, or_else,
}
use howk.HotState.{unix}
use howk.Effects.{Delivery}

-- Letters, digits and the marks that HTTP allows in a token.
abbrev is_token : ℕ → Bool
is_token c =
    (leb b'0' c && leb c b'9')
    || (leb b'a' c && leb c b'z')
    || (leb b'A' c && leb c b'Z')
    || any (λ m. c == m) (codes "!#$%&'*+-.^_`|~")

abbrev all_token : Bytes → Bool
all_token [] = true
all_token (c ∷ s) = is_token c && all_token s

abbrev upper : ℕ → ℕ
upper c = if leb b'a' c && leb c b'z' then c - 32 else c

-- A letter is upper case at the start and after a dash.
abbrev canonical_from : Bool → Bytes → Bytes
canonical_from first [] = []
canonical_from first (c ∷ s) = (if first then upper c else lower c) ∷ canonical_from (c == b'-') s

-- `CanonicalMIMEHeaderKey`.
unfoldable pub canonical : Bytes → Bytes
canonical s = if all_token s then canonical_from true s else s

pub record Request : Type 0 where
  pub url : Bytes
  pub headers : List (Bytes × Bytes)
  pub body : Bytes

abbrev pub signature_header : Bytes
signature_header = codes "X-Webhook-Signature"

-- The headers that every delivery begins with; the attempt is counted from one.
unfoldable pub default_headers : Bytes → Webhook → ℕ → List (Bytes × Bytes)
default_headers agent h now =
    (codes "Content-Type", codes "application/json")
    ∷ (codes "User-Agent", agent)
    ∷ (canonical (codes "X-Webhook-ID"), h.id)
    ∷ (codes "X-Webhook-Attempt", itoa (incr h.attempt))
    ∷ (codes "X-Webhook-Timestamp", itoa (pos (unix now)))
    ∷ []

-- The loop over the webhook's own headers.
unfoldable pub set_custom : List (Bytes × Bytes) → List (Bytes × Bytes) → List (Bytes × Bytes)
set_custom headers [] = headers
set_custom headers ((k, v) ∷ m) = set_custom (set_entry headers (canonical k, v)) m

-- "t=<timestamp>,v1=<signature>".
unfoldable pub sign : (Bytes → Bytes → Bytes) → Bytes → Bytes → ℕ → Bytes
sign hmac payload secret timestamp =
    codes "t="
    ++ itoa (pos timestamp)
    ++ codes ",v1="
    ++ hmac secret (itoa (pos timestamp) ++ b'.' ∷ payload)

unfoldable pub set_signature :
    (Bytes → Bytes → Bytes) → Webhook → ℕ → List (Bytes × Bytes) → List (Bytes × Bytes)
unfolding sign
set_signature hmac h now headers = elim h.signing_secret [
  | [] ↦ headers
  | c ∷ s ↦ set_entry headers (signature_header, sign hmac h.payload (c ∷ s) (unix now))
]

-- `Deliver` up to the exchange; the clock is read for the timestamp and again for the signature.
unfoldable pub build_request : (Bytes → Bytes → Bytes) → Bytes → Webhook → ℕ → ℕ → Request
unfolding default_headers set_custom set_signature
build_request hmac agent h now₁ now₂ = record {
  url = h.endpoint;
  headers =
      set_signature hmac h now₂ (set_custom (default_headers agent h now₁) (entries h.headers));
  body = h.payload;
}

-- The custom headers under their canonical names.
abbrev pub canonical_entries : List (Bytes × Bytes) → List (Bytes × Bytes)
canonical_entries [] = []
canonical_entries ((k, v) ∷ m) = (canonical k, v) ∷ canonical_entries m

set_custom-set_entries :
    (headers m : List (Bytes × Bytes))
    → set_custom headers m ≡ set_entries headers (canonical_entries m)
unfolding set_custom
set_custom-set_entries headers [] = refl
set_custom-set_entries headers ((k, v) ∷ m) =
    set_custom-set_entries (set_entry headers (canonical k, v)) m

-- The signature of the payload, if there is a secret and this is its header.
abbrev pub signature_for : (Bytes → Bytes → Bytes) → Webhook → ℕ → Bytes → Option Bytes
signature_for hmac h now k = elim h.signing_secret [
  | [] ↦ none
  | c ∷ s ↦
      if bytes_eq signature_header k then some (sign hmac h.payload (c ∷ s) (unix now)) else none
]

-- If no two headers of the webhook have the same canonical name, each header of the request is the
-- signature of the payload where there is a secret and the header is the signature's, else the
-- webhook's own header of that name, else the one that every delivery has: a webhook's headers
-- replace the standard ones and never a signature.
pub request_headers :
    (hmac : Bytes → Bytes → Bytes) (agent : Bytes) (h : Webhook) (now₁ now₂ : ℕ) (k : Bytes)
    → IsMap (canonical_entries (entries h.headers))
    → get k (build_request hmac agent h now₁ now₂).headers
      ≡ or_else (signature_for hmac h now₂ k) (
          or_else
            (get k (canonical_entries (entries h.headers)))
            (get k (default_headers agent h now₁)))
unfolding build_request set_signature
request_headers hmac agent h now₁ now₂ k i = signed h.signing_secret (default_headers agent h now₁)
  where
    signed :
        (secret : Bytes) (ds : List (Bytes × Bytes))
        → get k (elim secret [
          | [] ↦ set_custom ds (entries h.headers)
          | c ∷ s ↦
              set_entry
                (set_custom ds (entries h.headers))
                (signature_header, sign hmac h.payload (c ∷ s) (unix now₂))
        ])
          ≡ or_else
              (elim secret [
                | [] ↦ none
                | c ∷ s ↦
                    if bytes_eq signature_header k
                    then some (sign hmac h.payload (c ∷ s) (unix now₂))
                    else none
              ])
              (or_else (get k (canonical_entries (entries h.headers))) (get k ds))
    signed [] ds =
        rw set_custom-set_entries (get-set_entries k ds (canonical_entries (entries h.headers)) i)
    signed (c ∷ s) ds = rw set_custom-set_entries (
        ground (
          arith,
          get-set_entry k signature_header (sign hmac h.payload (c ∷ s) (unix now₂))
              (set_entries ds (canonical_entries (entries h.headers))),
          get-set_entries k ds (canonical_entries (entries h.headers)) i,
        ))

-- What the endpoint does with a request: an error, or a status and a body.
pub data Exchange : Type 0 where
  failed : Bytes → Exchange
  answered : ℕ → Bytes → Exchange

abbrev max_response_body : ℕ
max_response_body = 2048

unfoldable pub result_of_exchange : ℕ → Exchange → Delivery
result_of_exchange duration (failed text) = record {
  status_code = 0;
  error = some (codes "execute request: " ++ text);
  response_body = [];
  duration = duration;
}
result_of_exchange duration (answered status body) = record {
  status_code = status;
  error = none;
  response_body = take max_response_body body;
  duration = duration;
}

-- `Deliver`. `invalid` is the error of `http.NewRequest` for an endpoint, if it has one; the clock is
-- read before, while the headers are set, for the signature and after.
unfoldable pub deliver :
    (Bytes → Bytes → Bytes)
    → (Bytes → Option Bytes)
    → (Request → Exchange)
    → Bytes
    → Webhook
    → (ℕ → ℕ)
    → Delivery
unfolding build_request result_of_exchange
deliver hmac invalid exchange agent h clock = elim (invalid h.endpoint) [
  | some text ↦ record {
    status_code = 0;
    error = some (codes "build request: " ++ text);
    response_body = [];
    duration = clock 1 - clock 0;
  }
  | none ↦
      result_of_exchange (clock 3 - clock 0)
        (exchange (build_request hmac agent h (clock 1) (clock 2)))
]
