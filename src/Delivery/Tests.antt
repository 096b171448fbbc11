-- ===== src/Delivery/Tests.antt =====
-- internal/delivery: overrides, requests and null routes on concrete webhooks.
use howk.Prelude.{◌≡◌, refl, [], ◌∷◌, none, some, if◌then◌else◌}
use howk.Prelude.Text.{Bytes, codes, bytes_eq}
use howk.Domain.{Webhook}
use howk.Domain.Headers.{get, header}
use howk.Domain.Entries.{entries, or_else}
use howk.Domain.Samples.{sample_webhook}
use howk.Effects.{Delivery}
use howk.Retry.{second}
use howk.Delivery.{apply_overrides, lookup_delivery_overrides}
use howk.Delivery.Laws.{header_templates, resolved, delivered_copy}
use howk.Delivery.Client.{
  build_request, signature_for, canonical, canonical_entries, default_headers, request_headers,
}

abbrev variables : Bytes → Bytes
variables name = if bytes_eq name (codes "API_KEY") then codes "s3cret" else []

abbrev with_template : Webhook
with_template = record sample_webhook {
  delivery_headers =
      some ((codes "X-Key", codes "${API_KEY}") ∷ (codes "X-None", codes "${NO}") ∷ []);
}

delivered_copy_example :
    let g =
      apply_overrides
        (λ e ps. some e)
        with_template
        (lookup_delivery_overrides variables none with_template) in
    (g ≡ record with_template { endpoint = g.endpoint; headers = g.headers })
    × (header (codes "X-Key") g.headers
        ≡ or_else
            (resolved variables (header (codes "X-Key") (header_templates none with_template)))
            (header (codes "X-Key") with_template.headers))
delivered_copy_example =
    delivered_copy (λ e ps. some e) variables none with_template (codes "X-Key") (refl, (refl, tt))

abbrev signed : Webhook
signed = record sample_webhook { signing_secret = codes "k" }

request_headers_example :
    get (codes "X-Kind") (build_request (λ s t. t) (codes "howk") signed second second).headers
    ≡ or_else (signature_for (λ s t. t) signed second (codes "X-Kind")) (
        or_else
          (get (codes "X-Kind") (canonical_entries (entries signed.headers)))
          (get (codes "X-Kind") (default_headers (codes "howk") signed second)))
unfolding canonical
request_headers_example =
    request_headers (λ s t. t) (codes "howk") signed second second (codes "X-Kind")
      (refl, (refl, tt))

abbrev inner : Delivery
inner = record { status_code = 404; error = none; response_body = []; duration = 1 }

abbrev other : Delivery
other = record inner { status_code = 204 }
