-- ===== src/Script/Ensure.antt =====
-- internal/script/engine.go: what `EnsureScript` brings into the loader.
use howk.Prelude.{ℕ, ◌≡◌, refl, Option, none, some, arith}
use howk.Prelude.Text.{Bytes}
use howk.Redis.{replied}
use howk.Redis.ZSet.{bytes_eq_iff}
use howk.HotState.ScriptCache.{namespace_of, get_namespace_script, get_script}
use howk.Script.{Config, Codec, Loader, Caches, load, load_namespace, cache_reply, ensure_script}
use howk.Script.Mirror.{Mirrors, namespace-ne}

-- Each script stands under its own config ID.
abbrev pub AreOwn : Loader → Type 0
AreOwn l = (id : Bytes) (c : Config) → l id ≡ some c → c.config_id ≡ id

-- If Redis mirrors the scripts `l`, each under its own config ID, and answers, and the loader finds no
-- script for a config ID, then after `EnsureScript` the loader finds the script that `l` has
-- for it or its namespace, and none if `l` has none.
ensure_script_finds :
    (k : Codec) (id : Bytes) (now : ℕ) (l : Loader) (s : Caches)
    → Mirrors k l s.store
    → AreOwn l
    → load s.loader id ≡ none
    → load (ensure_script k id now replied replied s).loader id ≡ load l id
unfolding ensure_script cache_reply load load_namespace get_script get_namespace_script
ensure_script_finds k id now l s h own cold = go (l id) refl (namespace_of id) refl
  where
    Goal : Type 0
    Goal = load (ensure_script k id now replied replied s).loader id ≡ load l id

    in_namespace :
        (ns : Bytes) (o : Option Config) → l id ≡ none → namespace_of id ≡ some ns → l ns ≡ o → Goal
    in_namespace ns none a e b = ground (arith, h id now, h ns now, namespace-ne id ns e)
    in_namespace ns (some c) a e b =
        ground (arith, h id now, h ns now, own ns c b, bytes_eq_iff ns ns, namespace-ne id ns e)

    go : (o : Option Config) → l id ≡ o → (n : Option Bytes) → namespace_of id ≡ n → Goal
    go (some c) a n e = ground (arith, h id now, own id c a, bytes_eq_iff id id)
    go none a none e = ground (arith, h id now)
    go none a (some ns) e = in_namespace ns (l ns) a e refl
