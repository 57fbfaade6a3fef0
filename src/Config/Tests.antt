-- ===== src/Config/Tests.antt =====
-- Tests of the configuration.
use ssl_socks.Base.{◌≡◌, refl, Bool, ◌||◌, Option, none, some, List, [], ◌∷◌, arith, Bytes, equal}
use ssl_socks.Config.{
  ConfigInt, int_pos, RelayConfig, default_config, port_key, threads_key, type_key, server_port_key,
  server_key, cert_key, key_key, log_key, Json, type_of, default_gfwlist, get_peer, peer_unless,
  get_config,
}
use ssl_socks.Config.Reading.{get_config-is_blocked}
use ssl_socks.Config.Texts.{find_first, find_last, contains, str_strip, str_split}
use ssl_socks.Gfw.{load_list, is_blocked}
use ssl_socks.Gfw.Blocked.{ends_with_any, is_empty}
use ssl_socks.Gfw.Lines.{Entry, AllEntries, file_of}
use ssl_socks.Gfw.Regex.{is_class}
use ssl_socks.Gfw.Suffix.{is_plain}
use ssl_socks.Relay.{local_server}

abbrev no_syntax : Bytes → Bytes → Option Bool
no_syntax entry host = none

-- A document of a local server.
abbrev document : Json
document = record {
  get_int = λ k. some (int_pos 1080);
  get_string = λ k. elim k [
    | type_key ↦ some (b'l' ∷ b'o' ∷ b'c' ∷ b'a' ∷ b'l' ∷ [])
    | port_key ↦ some []
    | threads_key ↦ some []
    | server_port_key ↦ some []
    | server_key ↦ some (b'1' ∷ b'.' ∷ b'2' ∷ b'.' ∷ b'3' ∷ b'.' ∷ b'4' ∷ [])
    | cert_key ↦ some []
    | key_key ↦ some []
    | log_key ↦ some []
  ];
  gfwlist_or = λ file. some file;
}

abbrev port_text : ConfigInt → Bytes
port_text n = (b'1' ∷ b'0' ∷ b'8' ∷ b'0' ∷ [])

abbrev listed : List Entry
listed = record { bars = 2; name = (b'a' ∷ b'.' ∷ b'i' ∷ b'o' ∷ []) } ∷ []

listed-AllEntries : AllEntries listed
unfolding is_plain is_class
listed-AllEntries = (((refl, (refl, (refl, (refl, tt)))), omega arith), tt)

abbrev files : Bytes → Bytes
files name = file_of [] listed

abbrev local_config : RelayConfig
local_config = record default_config {
  local_port = int_pos 1080;
  thread_num = int_pos 1080;
  type = local_server;
  remote_port = port_text (int_pos 1080);
  remote_ip = (b'1' ∷ b'.' ∷ b'2' ∷ b'.' ∷ b'3' ∷ b'.' ∷ b'4' ∷ []);
  gfw_file = default_gfwlist;
  gfw = record {
    hosts = load_list default_gfwlist (files default_gfwlist) [];
    whites = [];
    blocks = [];
  };
  cert = [];
  key = [];
  logfile = [];
}

local_config_read : get_config port_text files document ≡ some local_config
unfolding get_config peer_unless get_peer type_of equal
local_config_read = refl

get_config-is_blocked_example :
    is_blocked no_syntax local_config.gfw.hosts (b'b' ∷ b'.' ∷ b'a' ∷ b'.' ∷ b'i' ∷ b'o' ∷ [])
    ≡ some (is_empty listed || ends_with_any listed (b'b' ∷ b'.' ∷ b'a' ∷ b'.' ∷ b'i' ∷ b'o' ∷ []))
get_config-is_blocked_example =
    get_config-is_blocked port_text files document local_config no_syntax []
      (b'b' ∷ b'.' ∷ b'a' ∷ b'.' ∷ b'i' ∷ b'o' ∷ []) listed local_config_read refl
      (λ e. absurd (omega (arith, e))) refl tt listed-AllEntries

split_test :
    str_split (b'a' ∷ b'=' ∷ b'b' ∷ b'=' ∷ b'c' ∷ []) b'='
    ≡ ((b'a' ∷ []), (b'b' ∷ b'=' ∷ b'c' ∷ []))
unfolding str_split find_first
split_test = refl

strip_test :
    str_strip (b' ' ∷ b'a' ∷ b' ' ∷ b'b' ∷ b' ' ∷ []) (b' ' ∷ []) ≡ (b'a' ∷ b' ' ∷ b'b' ∷ [])
unfolding str_strip find_first find_last contains
strip_test = refl
