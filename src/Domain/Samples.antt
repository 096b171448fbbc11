-- ===== src/Domain/Samples.antt =====
-- A webhook and its parts for the tests of all components.
use howk.Prelude.{[], ◌∷◌, none, some}
use howk.Prelude.Int.{pos}
use howk.Prelude.Text.{codes}
use howk.Domain.{Webhook}

-- The second attempt of three, with a secret among its headers.
abbrev pub sample_webhook : Webhook
sample_webhook = record {
  id = codes "wh_1";
  config_id = codes "cfg";
  endpoint = codes "https://a.example/in";
  endpoint_hash = codes "h1";
  payload = codes "{}";
  headers = some ((codes "X-Kind", codes "order") ∷ (codes "AUTHORIZATION", codes "Bearer t") ∷ []);
  idempotency_key = [];
  signing_secret = [];
  attempt = pos 1;
  max_attempts = pos 3;
  created_at = 1000;
  scheduled_at = 1000;
  script_hash = [];
  delivery_query_params = none;
  delivery_headers = none;
  retry_on_status = 404 ∷ [];
}
