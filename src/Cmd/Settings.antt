-- ===== src/Cmd/Settings.antt =====
-- Flags and environment variables: cmd/helpers.go, and the parts of listen.go, connect.go and
-- broker.go that choose between the two. Go's text functions are parameters.
pub mod Addresses
use Prim.Native.String.{String}
use text.Mathlib.Text.{starts_with}
use go_connect.Base.{
  Bool, true, false, not, ◌||◌, ◌&&◌, List, [], ◌∷◌, Option, none, some, Result, ok, err,
  if◌then◌else◌, Key, string_key, ℤ,
}
use go_connect.Ui.{Ui, new_default_ui}

pub record Texts : Type 0 where
  pub trim_space : String → String
  pub without_colon : String → String
  pub split_host_port : String → Option (String × String)
  pub join_host_port : String → String → String
  pub split_commas : String → List String
  pub scan_int : String → Option ℤ
  pub pad_address : String → String

-- `os.Getenv`
abbrev pub Env : Type 0
Env = String → String

abbrev pub is_empty : String → Bool
is_empty s = string_key.same s ""

abbrev pub default_port : String
default_port = "1781"

-- `s`, or where it is empty `d`.
abbrev pub or_text : String → String → String
or_text s d = if is_empty s then d else s

module _ (t : Texts) where
  unfoldable pub parse_address : String → String → String
  parse_address addr0 default_host =
      let addr = t.trim_space addr0 in
      if is_empty addr
      then t.join_host_port default_host default_port
      else if starts_with addr ":"
      then t.join_host_port default_host (or_text (t.without_colon addr) default_port)
      else elim (t.split_host_port addr) [
        | none ↦ t.join_host_port addr default_port
        | some (host, port) ↦
            t.join_host_port (or_text host default_host) (or_text port default_port)
      ]

  unfoldable pub parse_broker_address : String → String
  unfolding parse_address
  parse_broker_address addr = parse_address addr "127.0.0.1"

  unfoldable pub parse_bind_address : String → String
  unfolding parse_address
  parse_bind_address addr = parse_address addr "0.0.0.0"

  -- The connection ID of a flag, else that of the environment; it may be empty.
  unfoldable pub connection_id_of : String → Env → String
  connection_id_of flag env = or_text (t.trim_space flag) (t.trim_space (env "GO_CONNECT_ID"))

  -- A listener without one makes one up.
  unfoldable pub listen_id : String → Env → String → String
  unfolding connection_id_of
  listen_id flag env uuid = or_text (connection_id_of flag env) uuid

  -- A connector without one gives up.
  unfoldable pub connect_id : String → Env → Option String
  unfolding connection_id_of
  connect_id flag env = let id = connection_id_of flag env in if is_empty id then none else some id

  -- `MaxRetries`; `changed` is whether the flag was given.
  unfoldable pub max_retries_of : ℤ → Bool → Env → ℤ
  max_retries_of flag changed env =
      let text = env "GO_CONNECT_MAX_RETRIES" in
      if not (is_empty text) && not changed
      then elim (t.scan_int text) [ none ↦ flag | some n ↦ n ]
      else flag

unfoldable pub passphrase_of : String → Env → String
passphrase_of flag env = or_text flag (env "GO_CONNECT_PASSPHRASE")

-- A switch is on by its flag or by the value 1 of its variable.
unfoldable pub is_on : Bool → Env → String → Bool
is_on flag env name = if flag then true else string_key.same (env name) "1"

unfoldable pub ui_from_cmd : Bool → Bool → Bool → Bool → Env → Ui
unfolding is_on new_default_ui
ui_from_cmd is_terminal is_verbose is_quiet no_color env =
    new_default_ui is_terminal (not no_color && is_empty (env "NO_COLOR"))
      (is_on is_verbose env "GO_CONNECT_VERBOSE") (is_on is_quiet env "GO_CONNECT_QUIET")
