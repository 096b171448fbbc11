-- ===== src/Domain/Entries.antt =====
-- A `map[string]string` as the list of its entries: assignment and `delete` of keys, one or many.
use howk.Prelude.{◌≡◌, refl, List, [], ◌∷◌, Option, none, some, arith, if◌then◌else◌}
use howk.Prelude.Text.{Bytes, bytes_eq}
use howk.Redis.ZSet.{bytes_eq_iff}
use howk.Domain.{StringMap}
use howk.Domain.Headers.{get}

abbrev pub set_entry : List (Bytes × Bytes) → Bytes × Bytes → List (Bytes × Bytes)
set_entry [] e = e ∷ []
set_entry ((k, v) ∷ m) (j, x) =
    let rest = set_entry m (j, x) in if bytes_eq k j then (j, x) ∷ m else (k, v) ∷ rest

abbrev pub delete_entry : List (Bytes × Bytes) → Bytes → List (Bytes × Bytes)
delete_entry [] k = []
delete_entry ((j, v) ∷ m) k =
    let rest = delete_entry m k in if bytes_eq j k then rest else (j, v) ∷ rest

abbrev pub set_entries : List (Bytes × Bytes) → List (Bytes × Bytes) → List (Bytes × Bytes)
set_entries m [] = m
set_entries m (e ∷ es) = set_entries (set_entry m e) es

abbrev pub delete_entries : List (Bytes × Bytes) → List Bytes → List (Bytes × Bytes)
delete_entries m [] = m
delete_entries m (k ∷ ks) = delete_entries (delete_entry m k) ks

abbrev pub entries : StringMap → List (Bytes × Bytes)
entries none = []
entries (some m) = m

-- What a map holds after one assignment.
pub get-set_entry :
    (k j x : Bytes) (m : List (Bytes × Bytes))
    → get k (set_entry m (j, x)) ≡ (if bytes_eq j k then some x else get k m)
get-set_entry k j x [] = refl
get-set_entry k j x ((i, v) ∷ m) =
    ground (arith, get-set_entry k j x m, bytes_eq_iff i j, bytes_eq_iff i k, bytes_eq_iff j k)

abbrev pub or_else : Option Bytes → Option Bytes → Option Bytes
or_else none o = o
or_else (some v) o = some v

-- Each name stands once, as in a Go map.
abbrev pub IsMap : List (Bytes × Bytes) → Type 0
IsMap [] = Unit {0}
IsMap ((k, v) ∷ m) = (get k m ≡ none) × IsMap m

-- `maps.Copy`: the copied entries come before those that were there.
pub get-set_entries :
    (k : Bytes) (m es : List (Bytes × Bytes))
    → IsMap es
    → get k (set_entries m es) ≡ or_else (get k es) (get k m)
get-set_entries k m [] h = refl
get-set_entries k m ((j, x) ∷ es) h =
    ground (
      arith,
      get-set_entries k (set_entry m (j, x)) es h.1,
      get-set_entry k j x m,
      bytes_eq_iff j k,
    )
