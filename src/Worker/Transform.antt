-- ===== src/Worker/Transform.antt =====
-- internal/script/engine.go: `applyTransformation`.
use howk.Prelude.{◌∷◌, [], List, none, some}
use howk.Prelude.Text.{Bytes}
use howk.Domain.Entries.{set_entries, delete_entries, entries}
use howk.Domain.{Webhook, StringMap}
use howk.Effects.{TransformResult}

-- A nil map stays nil if the script sets no header.
unfoldable transform_headers : StringMap → List (Bytes × Bytes) → List Bytes → StringMap
transform_headers none [] removed = none
transform_headers (some m) [] removed = some (delete_entries m removed)
transform_headers h (e ∷ es) removed =
    some (delete_entries (set_entries (entries h) (e ∷ es)) removed)

abbrev or_old {ℓ} : {A : Type ℓ} → List A → List A → List A
or_old [] old = old
or_old (x ∷ xs) old = x ∷ xs

unfoldable pub apply_transformation : Webhook → TransformResult → Webhook
unfolding transform_headers
apply_transformation h r = record h {
  payload = or_old r.body h.payload;
  headers = transform_headers h.headers r.headers r.removed_headers;
  retry_on_status = or_old r.retry_on_status h.retry_on_status;
}
