-- ===== src/Config.antt =====
-- src/relay.hpp (relay_config) and src/main.cpp (get_config, main): the configuration. The document
-- is read by the library of src/json.hpp, and what the accessors of that give is the input.
pub mod Reading
pub mod Texts
mod Tests
use ssl_socks.Base.{
  ℕ, ◌≡◌, refl, Bool, true, false, Option, none, some, List, [], ◌∷◌, if◌then◌else◌, Bytes, equal,
}
use ssl_socks.Gfw.{GfwList, load_list}
use ssl_socks.Manager.World.{is_remote}
use ssl_socks.Relay.{ServerType, local_server, remote_server, local_transparent}

infixl 1 ◌>>=◌
abbrev pub ◌>>=◌ {ℓ κ} : {A : Type ℓ} {B : Type κ} → Option A → (A → Option B) → Option B
none >>= f = none
some x >>= f = f x

-- A result has come through every step.
pub bind-elim {ℓ κ μ} :
    {A : Type ℓ} {B : Type κ} {C : Type μ}
    → (o : Option A) (f : A → Option B) {b : B} → (o >>= f) ≡ some b
    → ((a : A) → o ≡ some a → f a ≡ some b → C)
    → C
bind-elim (some a) f e k = k a refl e
bind-elim none f e k = absurd (cc e)

-- A number in the document: `n`, or `-(n + 1)`.
pub data ConfigInt : Type 0 where
  int_pos int_negsuc : ℕ → ConfigInt

-- relay_config
pub record RelayConfig : Type 0 where
  pub local_port : ConfigInt
  pub remote_port : Bytes
  pub remote_ip : Bytes
  pub thread_num : ConfigInt
  pub type : ServerType
  pub cert : Bytes
  pub key : Bytes
  pub logfile : Bytes
  pub gfw_file : Bytes
  pub gfw : GfwList

-- relay_config's initialisers.
abbrev pub default_config : RelayConfig
default_config = record {
  local_port = int_pos 10230;
  remote_port = (b'1' ∷ b'0' ∷ b'2' ∷ b'3' ∷ b'0' ∷ []);
  remote_ip = [];
  thread_num = int_pos 1;
  type = local_server;
  cert =
      (b'/' ∷ b'e' ∷ b't' ∷ b'c' ∷ b'/' ∷ b'g' ∷ b'r' ∷ b'o' ∷ b'x' ∷ b'y' ∷ b'_' ∷ b's' ∷ b's'
        ∷ b'l' ∷ b'/' ∷ b'g' ∷ b'r' ∷ b'o' ∷ b'x' ∷ b'y' ∷ b'_' ∷ b's' ∷ b's' ∷ b'l' ∷ b'.' ∷ b'c'
        ∷ b'r' ∷ b't' ∷ []);
  key =
      (b'/' ∷ b'e' ∷ b't' ∷ b'c' ∷ b'/' ∷ b'g' ∷ b'r' ∷ b'o' ∷ b'x' ∷ b'y' ∷ b'_' ∷ b's' ∷ b's'
        ∷ b'l' ∷ b'/' ∷ b'g' ∷ b'r' ∷ b'o' ∷ b'x' ∷ b'y' ∷ b'_' ∷ b's' ∷ b's' ∷ b'l' ∷ b'.' ∷ b'p'
        ∷ b'e' ∷ b'm' ∷ []);
  logfile = (b'/' ∷ b'd' ∷ b'e' ∷ b'v' ∷ b'/' ∷ b'n' ∷ b'u' ∷ b'l' ∷ b'l' ∷ []);
  gfw_file =
      (b'/' ∷ b'e' ∷ b't' ∷ b'c' ∷ b'/' ∷ b'g' ∷ b'r' ∷ b'o' ∷ b'x' ∷ b'y' ∷ b'_' ∷ b's' ∷ b's'
        ∷ b'l' ∷ b'/' ∷ b'g' ∷ b'f' ∷ b'w' ∷ b'l' ∷ b'i' ∷ b's' ∷ b't' ∷ []);
  gfw = record { hosts = []; whites = []; blocks = [] };
}

-- The members that get_config asks for, by their names in the document.
pub data ConfigKey : Type 0 where
  port_key threads_key type_key server_port_key server_key cert_key key_key log_key : ConfigKey

-- `jconf[key].get<int>()` and `.get<std::string>()`, where `none` is the type_error of a member that
-- is missing or of another type, and `jconf.value("gfwlist", default)`.
pub record Json : Type 0 where
  pub get_int : ConfigKey → Option ConfigInt
  pub get_string : ConfigKey → Option Bytes
  pub gfwlist_or : Bytes → Option Bytes

-- The names of the types; any other leaves the default.
unfoldable pub type_of : Bytes → ServerType
type_of text =
    if equal text (b'l' ∷ b'o' ∷ b'c' ∷ b'a' ∷ b'l' ∷ [])
    then local_server
    else if equal text (b't' ∷ b'p' ∷ b'r' ∷ b'o' ∷ b'x' ∷ b'y' ∷ [])
    then local_transparent
    else if equal text (b'r' ∷ b'e' ∷ b'm' ∷ b'o' ∷ b't' ∷ b'e' ∷ [])
    then remote_server
    else local_server

abbrev pub default_gfwlist : Bytes
default_gfwlist =
    (b'/' ∷ b'e' ∷ b't' ∷ b'c' ∷ b'/' ∷ b's' ∷ b's' ∷ b'l' ∷ b'-' ∷ b's' ∷ b'o' ∷ b'c' ∷ b'k' ∷ b's'
      ∷ b'/' ∷ b'g' ∷ b'f' ∷ b'w' ∷ b'l' ∷ b'i' ∷ b's' ∷ b't' ∷ [])

-- The part for a server that is not remote. `decimal` is what boost::format makes of an int, and
-- `contents` what a file holds.
unfoldable pub get_peer :
    (ConfigInt → Bytes) → (Bytes → Bytes) → Json → RelayConfig → Option RelayConfig
get_peer decimal contents j c = do
  r_port ← j.get_int server_port_key
  server ← j.get_string server_key
  file ← j.gfwlist_or default_gfwlist
  some (record c {
    remote_port = decimal r_port;
    remote_ip = server;
    gfw_file = file;
    gfw = record c.gfw { hosts = load_list file (contents file) c.gfw.hosts };
  })

-- `if (config.type != REMOTE_SERVER)`
unfoldable pub peer_unless :
    Bool → (ConfigInt → Bytes) → (Bytes → Bytes) → Json → RelayConfig → Option RelayConfig
unfolding get_peer
peer_unless true decimal contents j c = some c
peer_unless false decimal contents j c = get_peer decimal contents j c

-- get_config(jconf)
unfoldable pub get_config : (ConfigInt → Bytes) → (Bytes → Bytes) → Json → Option RelayConfig
unfolding type_of peer_unless
get_config decimal contents j = do
  port ← j.get_int port_key
  threads ← j.get_int threads_key
  text ← j.get_string type_key
  let c = record default_config { local_port = port; thread_num = threads; type = type_of text }
  peer ← peer_unless (is_remote c.type) decimal contents j c
  cert_file ← j.get_string cert_key
  key_file ← j.get_string key_key
  log_to ← j.get_string log_key
  some (record peer { cert = cert_file; key = key_file; logfile = log_to })

-- What getopt_long returns: `-c` with its argument, or another option.
pub data CommandOption : Type 0 where
  option_c : Bytes → CommandOption
  other_option : CommandOption

-- The loop of main over the options.
unfoldable pub conf_file : List CommandOption → Bytes → Bytes
conf_file [] file = file
conf_file (option_c arg ∷ rest) file = conf_file rest arg
conf_file (other_option ∷ rest) file = conf_file rest file

abbrev pub default_conf_file : Bytes
default_conf_file =
    (b'/' ∷ b'e' ∷ b't' ∷ b'c' ∷ b'/' ∷ b's' ∷ b's' ∷ b'l' ∷ b'-' ∷ b's' ∷ b'o' ∷ b'c' ∷ b'k' ∷ b's'
      ∷ b'/' ∷ b's' ∷ b'o' ∷ b'c' ∷ b'k' ∷ b'_' ∷ b's' ∷ b's' ∷ b'l' ∷ b'.' ∷ b'c' ∷ b'o' ∷ b'n'
      ∷ b'f' ∷ [])

-- main up to server_start: `parse` is json::parse on the file of that name, and `none` an exception.
unfoldable pub read_config :
    (ConfigInt → Bytes)
    → (Bytes → Bytes)
    → (Bytes → Option Json)
    → List CommandOption
    → Option RelayConfig
unfolding conf_file get_config
read_config decimal contents parse options = do
  j ← parse (conf_file options default_conf_file)
  get_config decimal contents j
