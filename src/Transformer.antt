-- ===== src/Transformer.antt =====
-- internal/transformer/registry.go: the transformer scripts of the configured directories. The file
-- system is an argument: what a directory lists and what a file of a directory holds.
pub mod Auth
pub mod Names
pub mod Engine
pub mod Posts
pub mod Tests
use howk.Prelude.{
  ℕ, Bool, true, false, not, ◌&&◌, ◌||◌, List, [], ◌∷◌, ◌++◌, Option, none, some, leb, ◌==◌,
  if◌then◌else◌,
}
use howk.Prelude.Text.{Bytes, codes, bytes_eq, has_suffix}
use howk.Redis.{Map, empty_map, put}
use howk.Json.{Fields}
use howk.Transformer.Auth.{AuthConfig, parse_passwd}

pub record TransformerScript : Type 0 where
  pub name : Bytes
  pub lua_code : Bytes
  pub config : Option Fields
  pub auth : Option AuthConfig

-- An entry of a directory: its name, and whether it is a directory.
abbrev pub DirEntry : Type 0
DirEntry = Bytes × Bool

pub data Listing : Type 0 where
  missing : Listing
  unreadable : Listing
  listed : List DirEntry → Listing

-- `parse_config` is encoding/json on a `map[string]any`.
pub record Files : Type 0 where
  pub list_dir : Bytes → Listing
  pub read_file : Bytes → Bytes → Option Bytes
  pub parse_config : Bytes → Option Fields

pub record TransformerConfig : Type 0 where
  pub script_dirs : List Bytes
  pub passwd_dirs : List Bytes

abbrev pub Registry : Type 0
Registry = Map TransformerScript

abbrev is_lower_digit : ℕ → Bool
is_lower_digit c = (leb b'a' c && leb c b'z') || (leb b'0' c && leb c b'9')

abbrev is_name_rest : Bytes → Bool
is_name_rest [] = true
is_name_rest (c ∷ s) = (is_lower_digit c || (c == b'_') || (c == b'-')) && is_name_rest s

-- `^[a-z0-9][a-z0-9_-]*$`.
unfoldable pub is_script_name : Bytes → Bool
is_script_name [] = false
is_script_name (c ∷ s) = is_lower_digit c && is_name_rest s

-- The loop of `loadPasswd`: a file that does not parse is passed over.
unfoldable pub load_passwd : Files → List Bytes → Bytes → Option AuthConfig
unfolding parse_passwd
load_passwd fs [] name = none
load_passwd fs (dir ∷ dirs) name =
    let rest = load_passwd fs dirs name in
    elim (fs.read_file dir (name ++ codes ".passwd")) [
      | none ↦ rest
      | some text ↦ elim (parse_passwd text) [ none ↦ rest | some a ↦ some a ]
    ]

-- The directories of the passwd files: the script directories, if none are configured.
abbrev pub passwd_dirs_of : TransformerConfig → List Bytes
passwd_dirs_of c = elim c.passwd_dirs [ [] ↦ c.script_dirs | d ∷ ds ↦ d ∷ ds ]

abbrev parsed_config : Files → Option Bytes → Option Fields
parsed_config fs none = none
parsed_config fs (some text) = fs.parse_config text

unfoldable pub load_script : Files → TransformerConfig → Bytes → Bytes → Option TransformerScript
unfolding load_passwd
load_script fs c dir name = elim (fs.read_file dir (name ++ codes ".lua")) [
  | none ↦ none
  | some code ↦ some (record {
    name = name;
    lua_code = code;
    config = parsed_config fs (fs.read_file dir (name ++ codes ".json"));
    auth = load_passwd fs (passwd_dirs_of c) name;
  })
]

-- `strings.TrimSuffix(name, ".lua")`, of a name that has the suffix.
unfoldable pub without_lua : Bytes → Bytes
without_lua [] = []
without_lua (c ∷ s) =
    let rest = without_lua s in if bytes_eq (c ∷ s) (codes ".lua") then [] else c ∷ rest

abbrev stored : Bytes → Option TransformerScript → Registry → Registry
stored name none dest = dest
stored name (some s) dest = put dest name s

-- The loop of `loadFromDir`; a later script of the same name takes the place of an earlier one.
unfoldable pub load_entries :
    Files → TransformerConfig → Bytes → List DirEntry → Registry → Registry
unfolding load_script without_lua is_script_name
load_entries fs c dir [] dest = dest
load_entries fs c dir ((file, is_dir) ∷ es) dest = load_entries fs c dir es (
    if is_dir
    then dest
    else if has_suffix file (codes ".lua")
    then (if is_script_name (without_lua file)
        then stored (without_lua file) (load_script fs c dir (without_lua file)) dest
        else dest)
    else dest)

-- Whether the directory could be read; one that does not exist is no error.
unfoldable pub load_from_dir : Files → TransformerConfig → Bytes → Registry → Bool × Registry
unfolding load_entries
load_from_dir fs c dir dest = elim (fs.list_dir dir) [
  | missing ↦ (true, dest)
  | unreadable ↦ (false, dest)
  | listed es ↦ (true, load_entries fs c dir es dest)
]

unfoldable pub load_dirs : Files → TransformerConfig → List Bytes → Registry → Bool × Registry
unfolding load_from_dir
load_dirs fs c [] dest = (true, dest)
load_dirs fs c (dir ∷ dirs) dest =
    let (good, dest') = load_from_dir fs c dir dest in
    let (rest, dest'') = load_dirs fs c dirs dest' in (good && rest, dest'')

-- `Load` and `Reload`: whether all went well, and the new scripts, whatever the old ones were.
unfoldable pub load : Files → TransformerConfig → Bool × Registry
unfolding load_dirs
load fs c = load_dirs fs c c.script_dirs empty_map
