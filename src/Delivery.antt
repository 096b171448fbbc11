-- ===== src/Delivery.antt =====
-- internal/delivery/overrides.go, and `lookupDeliveryOverrides` of internal/worker/worker.go: what is
-- added to a webhook just before it is sent. `getenv` is `os.Getenv`; `set_query` is net/url: the
-- endpoint with these query parameters set, or `none` if it does not parse.
pub mod Expand
pub mod Laws
pub mod Client
pub mod NullRoute
mod Tests
use howk.Prelude.{Bool, true, false, ◌&&◌, List, [], ◌∷◌, Option, none, some, if◌then◌else◌}
use howk.Prelude.Text.{Bytes, codes}
use howk.Domain.{Webhook, StringMap}
use howk.Domain.Entries.{set_entries, entries}
use howk.Json.{
  Value, json_null, json_bool, json_number, json_string, json_array, json_object, Fields, end,
  field, get,
}
use howk.Delivery.Expand.{expand}

abbrev pub override_query_params_key : Bytes
override_query_params_key = codes "_delivery_query_params"

abbrev pub override_headers_key : Bytes
override_headers_key = codes "_delivery_headers"

pub record Overrides : Type 0 where
  pub query_params : List (Bytes × Bytes)
  pub headers : List (Bytes × Bytes)

abbrev pub is_nil : List (Bytes × Bytes) → Bool
is_nil [] = true
is_nil (e ∷ es) = false

-- `IsEmpty`; a nil pointer is `none`.
unfoldable pub is_empty : Option Overrides → Bool
is_empty none = true
is_empty (some o) = is_nil o.query_params && is_nil o.headers

-- The loop of `templateMap`: values that are no strings are skipped.
unfoldable pub string_fields : Fields → List (Bytes × Bytes)
string_fields end = []
string_fields (field k (json_string v) fs) = (k, v) ∷ string_fields fs
string_fields (field k json_null fs) = string_fields fs
string_fields (field k (json_bool b) fs) = string_fields fs
string_fields (field k (json_number n) fs) = string_fields fs
string_fields (field k (json_array vs) fs) = string_fields fs
string_fields (field k (json_object o) fs) = string_fields fs

-- An empty map becomes nil.
abbrev non_empty : List (Bytes × Bytes) → StringMap
non_empty [] = none
non_empty (e ∷ es) = some (e ∷ es)

unfoldable pub template_map : Option Value → StringMap
unfolding string_fields
template_map none = none
template_map (some (json_object fs)) = non_empty (string_fields fs)
template_map (some json_null) = none
template_map (some (json_bool b)) = none
template_map (some (json_number n)) = none
template_map (some (json_string s)) = none
template_map (some (json_array vs)) = none

abbrev look_up : Bytes → Option Fields → Option Value
look_up k none = none
look_up k (some fs) = get k fs

-- The raw templates of the query parameters and of the headers.
unfoldable pub extract_templates : Option Fields → StringMap × StringMap
unfolding template_map
extract_templates config = (
  template_map (look_up override_query_params_key config),
  template_map (look_up override_headers_key config),
)

-- The loop of `resolveStringValues`: empty values are dropped.
unfoldable pub resolve_entries : (Bytes → Bytes) → List (Bytes × Bytes) → List (Bytes × Bytes)
resolve_entries getenv [] = []
resolve_entries getenv ((k, v) ∷ m) =
    let rest = resolve_entries getenv m in
    elim (expand getenv v) [ [] ↦ rest | c ∷ s ↦ (k, c ∷ s) ∷ rest ]

unfoldable pub resolve_templates : (Bytes → Bytes) → StringMap → StringMap → Option Overrides
unfolding resolve_entries is_empty
resolve_templates getenv params headers =
    let o : Overrides = record {
      query_params = resolve_entries getenv (entries params);
      headers = resolve_entries getenv (entries headers);
    } in
    if is_empty (some o) then none else some o

unfoldable pub extract_overrides : (Bytes → Bytes) → Option Fields → Option Overrides
unfolding extract_templates resolve_templates
extract_overrides getenv config =
    let (params, headers) = extract_templates config in resolve_templates getenv params headers

-- The endpoint, unless there are query parameters to set in one that parses.
unfoldable with_params :
    (Bytes → List (Bytes × Bytes) → Option Bytes) → List (Bytes × Bytes) → Bytes → Bytes
with_params set_query [] endpoint = endpoint
with_params set_query (e ∷ es) endpoint = elim (set_query endpoint (e ∷ es)) [
  | none ↦ endpoint
  | some url ↦ url
]

unfoldable pub with_headers : List (Bytes × Bytes) → StringMap → StringMap
with_headers [] h = h
with_headers (e ∷ es) h = some (set_entries (entries h) (e ∷ es))

-- The copy of the webhook that is sent; the webhook itself keeps what is stored.
unfoldable pub apply_overrides :
    (Bytes → List (Bytes × Bytes) → Option Bytes) → Webhook → Option Overrides → Webhook
unfolding with_params with_headers
apply_overrides set_query h none = h
apply_overrides set_query h (some o) = record h {
  endpoint = with_params set_query o.query_params h.endpoint;
  headers = with_headers o.headers h.headers;
}

-- The templates of the webhook, if it has any, else those in the configuration of its script:
-- `script` is the configuration of the script that the engine's loader holds for it.
unfoldable pub lookup_delivery_overrides :
    (Bytes → Bytes) → Option (Option Fields) → Webhook → Option Overrides
unfolding extract_overrides resolve_templates
lookup_delivery_overrides getenv script h =
    if is_nil (entries h.delivery_query_params) && is_nil (entries h.delivery_headers)
    then elim script [ none ↦ none | some config ↦ extract_overrides getenv config ]
    else resolve_templates getenv h.delivery_query_params h.delivery_headers
