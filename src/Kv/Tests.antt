-- ===== src/Kv/Tests.antt =====
-- internal/script/modules/kv.go: two namespaces.
use howk.Prelude.{◌≡◌, refl, [], ◌∷◌, some}
use howk.Prelude.Int.{pos}
use howk.Prelude.Text.{codes}
use howk.Redis.{replied, empty_map}
use howk.HotState.ScriptCache.{before_colon}
use howk.Kv.{new_kv_module, extract_namespace, kv_get}
use howk.Kv.Namespaces.{sets, writes, namespaces_are_apart}

part_before_colon : extract_namespace (codes "music:10:2") ≡ codes "music"
unfolding extract_namespace before_colon
part_before_colon = refl

namespaces_are_apart_example :
    kv_get (new_kv_module (codes "music:11")) (codes "k") 5 replied (
      writes
        (new_kv_module (codes "music:10"))
        (sets (codes "k") (codes "v") (pos 60) 3 replied ∷ [])
        empty_map)
    ≡ some (some (codes "v"))
unfolding extract_namespace before_colon
namespaces_are_apart_example =
    namespaces_are_apart (codes "music:10") (codes "music:11")
      (sets (codes "k") (codes "v") (pos 60) 3 replied ∷ []) empty_map (codes "k") 5 replied
