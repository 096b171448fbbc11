-- ===== src/Transformer/Tests.antt =====
-- internal/transformer: a directory with one script, and a run of it.
use howk.Prelude.{◌≡◌, refl, false, [], ◌∷◌, Option, none, some, if◌then◌else◌}
use howk.Prelude.Text.{Bytes, codes, has_suffix}
use howk.HotState.Tests.{ttls}
use howk.Worker.Tests.{healthy, before}
use howk.Transformer.{TransformerScript, listed, Files, TransformerConfig, load}
use howk.Transformer.Auth.{parse_passwd, AuthConfig}
use howk.Transformer.Names.{IsFiled, load-IsFiled}
use howk.Transformer.Engine.{Sources, Program, finished, post, execute_script}
use howk.Transformer.Posts.{Posted, posts_are_allowed}

-- The passwd file has these contents.
abbrev pub files : Bytes → Files
files passwd = record {
  list_dir = λ dir. listed ((codes "fan-out.lua", false) ∷ (codes "Old.lua", false) ∷ []);
  read_file = λ dir name.
      if has_suffix name (codes ".passwd")
      then some passwd
      else if has_suffix name (codes ".lua")
      then some (codes "howk.post(u, t)")
      else none;
  parse_config = λ text. none;
}

abbrev pub dirs : TransformerConfig
dirs = record { script_dirs = codes "/scripts" ∷ []; passwd_dirs = [] }

abbrev pub name : Bytes
name = codes "fan-out"

abbrev pub filed : Option AuthConfig → TransformerScript
filed auth = record { name = name; lua_code = codes "howk.post(u, t)"; config = none; auth = auth }

abbrev pub ann : AuthConfig
ann = record { credentials = (codes "ann", codes "pw") ∷ [] }

passwd_parses : parse_passwd (codes "# team\nann:pw\n") ≡ some ann
unfolding parse_passwd
passwd_parses = refl

load-IsFiled_example : IsFiled (files (codes "ann:pw")) dirs name (filed (some ann))
unfolding load has_suffix
load-IsFiled_example = load-IsFiled (files (codes "ann:pw")) dirs name (filed (some ann)) refl

abbrev pub sources : Sources
sources = record { ulid = λ n. codes "01"; hash = λ e. e }

-- The script posts once and ends.
abbrev pub one_post : Program
one_post =
    post
      (record { endpoint = codes "https://a.example"; payload = some (codes "{}"); options = [] })
      (λ r. finished none)

posts_are_allowed_example :
    let ((e, refs), w') = execute_script ttls sources (filed none) one_post [] healthy before in
    Posted healthy (filed none) [] w' refs
posts_are_allowed_example = posts_are_allowed ttls sources (filed none) one_post healthy before
