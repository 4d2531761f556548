-- ===== src/Config/File.antt =====
-- service/src/config.rs: the configuration file, the environment, and which of them wins. The YAML
-- parser, the file system and the environment are parameters.
use green_relay.Prelude.{
  Bool, true, false, List, [], ◌∷◌, ◌++◌, Option, none, some, if◌then◌else◌, not, Result, ◌==◌,
}
use green_relay.Text.{Text, codes}
use green_relay.HashMap.{insert}
use green_relay.Config.{Config, ConfigError, file_read, ◌>>=◌, Settings, from_map, or_default}
use green_relay.Config.Keys.{key_config_file, default_config_filename, known_keys}

-- `yaml_serde::Value`, a number by its text
mutual
  pub data Value : Type 0 where
    null : Value
    bool : Bool → Value
    number : Text → Value
    string : Text → Value
    sequence : Values → Value
    mapping : Entries → Value
    tagged : Text → Value → Value

  pub data Values : Type 0 where
    end : Values
    item : Value → Values → Values

  pub data Entries : Type 0 where
    last : Entries
    entry : Value → Value → Entries → Entries

abbrev pub bool_text : Bool → Text
bool_text true = codes "true"
bool_text false = codes "false"

unfoldable pub scalar_to_string : Value → Option Text
scalar_to_string (string s) = some s
scalar_to_string (bool b) = some (bool_text b)
scalar_to_string (number n) = some n
scalar_to_string null = none
scalar_to_string (sequence vs) = none
scalar_to_string (mapping es) = none
scalar_to_string (tagged tag v) = none

-- `map.insert(key.clone(), value.clone())` for each variable, in the order of the iteration
unfoldable pub merge_env_over_file : Settings → Settings → Settings
unfolding insert
merge_env_over_file file [] = file
merge_env_over_file file ((k, v) ∷ env) = merge_env_over_file (insert k v file) env

module _ (debug : Value → Text) where
  abbrev pub scalar_expected : Text → Text
  scalar_expected k =
      codes "value for `" ++ k ++ codes "` must be a scalar (string, number, or boolean)"

  abbrev pub string_expected : Value → Text
  string_expected k = codes "configuration keys must be strings, found " ++ debug k

  abbrev pub add_scalar : Settings → Text → Value → Option Text → Result Settings Text
  add_scalar settings k v (some text) = Result.ok (insert k text settings)
  add_scalar settings k null none = Result.ok settings
  add_scalar settings k v none = Result.err (scalar_expected k)

  -- one round of the loop over the mapping
  unfoldable pub add_entry : Settings → Value → Value → Result Settings Text
  unfolding insert scalar_to_string
  add_entry settings (string k) v = add_scalar settings k v (scalar_to_string v)
  add_entry settings k v = Result.err (string_expected k)

  unfoldable pub add_entries : Settings → Entries → Result Settings Text
  unfolding ◌>>=◌ add_entry
  add_entries settings last = Result.ok settings
  add_entries settings (entry k v es) = add_entry settings k v >>= λ m. add_entries m es

  unfoldable pub parse_value : Value → Result Settings Text
  unfolding add_entries
  parse_value null = Result.ok []
  parse_value (mapping es) = add_entries [] es
  parse_value v = Result.err (codes "configuration file must be a YAML mapping of key/value pairs")

  unfoldable pub parse_config_file : (Text → Result Value Text) → Text → Result Settings Text
  unfolding ◌>>=◌ parse_value
  parse_config_file from_str contents = from_str contents >>= parse_value

abbrev pub set_var : Text → Option Text → Settings → Settings
set_var k none m = m
set_var k (some v) m = insert k v m

-- the variables of the environment that are known keys
unfoldable pub env_from : (Text → Option Text) → List Text → Settings → Settings
unfolding insert
env_from var [] m = m
env_from var (k ∷ ks) m = env_from var ks (set_var k (var k) m)

unfoldable pub env_map : (Text → Option Text) → Settings
unfolding env_from known_keys
env_map var = env_from var known_keys []

-- `Path::join` with a relative name, on Unix
abbrev pub join_tail : Text → Text → Text
join_tail [] name = name
join_tail (c ∷ []) name = if c == b'/' then c ∷ name else c ∷ b'/' ∷ name
join_tail (c ∷ s) name = c ∷ join_tail s name

-- the directory of the executable, if it is known
unfoldable pub default_config_path : Option Text → Text
default_config_path none = default_config_filename
default_config_path (some parent) = join_tail parent default_config_filename

pub data ReadError : Type 0 where
  not_found : ReadError
  other : Text → ReadError

abbrev pub is_none : {A : Type 0} → Option A → Bool
is_none none = true
is_none (some a) = false

abbrev pub file_error : Text → Result Settings Text → Result Settings ConfigError
file_error path (Result.ok settings) = Result.ok settings
file_error path (Result.err reason) = Result.err (file_read path reason)

module _ (debug : Value → Text) (yaml : Text → Result Value Text) (exe_parent : Option Text)
    (read_to_string : Text → Result Text ReadError) (var : Text → Option Text) where
  -- what is made of the file, for an error of kind `NotFound` displayed as `missing`
  abbrev pub read_file : Text → Bool → Result Text ReadError → Result Settings ConfigError
  read_file path is_explicit (Result.ok contents) =
      file_error path (parse_config_file debug yaml contents)
  read_file path true (Result.err not_found) =
      Result.err (file_read path (codes "No such file or directory (os error 2)"))
  read_file path false (Result.err not_found) = Result.ok []
  read_file path is_explicit (Result.err (other reason)) = Result.err (file_read path reason)

  unfoldable pub file_map : Result Settings ConfigError
  unfolding parse_config_file default_config_path
  file_map =
      let explicit = var key_config_file in
      let path = or_default (default_config_path exe_parent) explicit in
      read_file path (not (is_none explicit)) (read_to_string path)

  unfoldable pub load :
      {SocketAddr : Type 0}
      → (Text → Result SocketAddr Text)
      → Result (Config SocketAddr) ConfigError
  unfolding ◌>>=◌ file_map env_map merge_env_over_file from_map
  load from_str = do
    file ← file_map
    let env = env_map var
    let merged = merge_env_over_file file env
    from_map from_str merged
