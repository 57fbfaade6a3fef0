-- ===== src/Gfw.antt =====
-- src/gfwlist.cpp: the list of host patterns. Lines of the file become regular expressions, and a
-- host is blocked if one of them is found in it. The file's contents are an argument.
pub mod Text
pub mod Regex
pub mod Replace
pub mod Suffix
pub mod Lines
pub mod Blocked
mod Tests
use ssl_socks.Base.{
  ℕ, ◌+◌, Bool, true, false, ◌&&◌, ◌||◌, Option, none, some, List, [], ◌∷◌, ◌++◌, leb, ◌==◌,
  if◌then◌else◌, get_or, take, drop, Bytes, equal,
}
use ssl_socks.Gfw.Regex.{regex_search}
use ssl_socks.Gfw.Text.{find, replace_string}

-- gfw_list. `whites` and `blocks` are not used.
pub record GfwList : Type 0 where
  pub hosts : List Bytes
  pub whites : List Bytes
  pub blocks : List Bytes

-- isspace of the C locale.
abbrev is_space : ℕ → Bool
is_space c = c == 32 || (leb 9 c && leb c 13)

-- The lines that are skipped: comments, exceptions, and those that begin with a space. `line[0]`
-- of an empty line is the terminating 0.
unfoldable pub is_skipped : Bytes → Bool
is_skipped line =
    get_or line 0 0 == b'!'
    || ((get_or line 0 0 == b'@' && get_or line 1 0 == b'@') || is_space (get_or line 0 0))

-- line.substr(pos + 2) behind the first "//", if there is one.
unfoldable pub strip_scheme : Bytes → Bytes
strip_scheme line = elim (find (b'/' ∷ b'/' ∷ []) line) [
  | none ↦ line
  | some pos ↦ drop (pos + 2) line
]

-- line.substr(0, pos) in front of the first "/", if there is one.
unfoldable pub strip_path : Bytes → Bytes
strip_path line = elim (find (b'/' ∷ []) line) [ none ↦ line | some pos ↦ take pos line ]

-- `line.empty()`, or the pattern with its end.
unfoldable pub finish_line : Bytes → Option Bytes
finish_line [] = none
finish_line (c ∷ cs) = some ((c ∷ cs) ++ b'$' ∷ [])

-- The body of the loop of load_list up to `push_back`; `none` is a `continue`.
unfoldable pub parse_line : Bytes → Option Bytes
parse_line line =
    if is_skipped line
    then none
    else let host = strip_path (strip_scheme (replace_string line (b'|' ∷ []) [])) in
      let dots = replace_string host (b'.' ∷ []) (b'\\' ∷ b'.' ∷ []) in
      finish_line (replace_string dots (b'*' ∷ []) (b'.' ∷ b'*' ∷ []))

unfoldable pub push_byte : ℕ → List Bytes → List Bytes
push_byte c [] = (c ∷ []) ∷ []
push_byte c (line ∷ lines) = (c ∷ line) ∷ lines

-- A byte in front of the lines that follow it.
unfoldable pub extend_line : ℕ → List Bytes → List Bytes
extend_line c lines = if c == b'\n' then [] ∷ lines else push_byte c lines

-- std::getline until the end of the file: a last line needs no newline.
unfoldable pub get_lines : Bytes → List Bytes
get_lines [] = []
get_lines (c ∷ cs) = extend_line c (get_lines cs)

-- The loop of load_list over the lines.
unfoldable pub add_lines : List Bytes → List Bytes → List Bytes
add_lines hosts [] = hosts
add_lines hosts (line ∷ lines) =
    add_lines (elim (parse_line line) [ none ↦ hosts | some p ↦ hosts ++ p ∷ [] ]) lines

unfoldable pub unique_after : Bytes → List Bytes → List Bytes
unique_after x [] = []
unique_after x (y ∷ ys) = if equal x y then unique_after x ys else y ∷ unique_after y ys

-- std::unique and the erase behind it: of a run of equal patterns the first stays.
unfoldable pub unique : List Bytes → List Bytes
unique [] = []
unique (x ∷ xs) = x ∷ unique_after x xs

-- load_list(file): `contents` is what the file holds, and nothing if it cannot be opened. The first
-- line is read and dropped.
unfoldable pub load_list : Bytes → Bytes → List Bytes → List Bytes
load_list [] contents hosts = hosts
load_list (c ∷ cs) contents hosts = unique (add_lines hosts (drop 1 (get_lines contents)))

-- add_host(host)
unfoldable pub add_host : Bytes → List Bytes → List Bytes
add_host host hosts = hosts ++ host ∷ []

-- The loop of is_blocked.
unfoldable pub any_match : (Bytes → Bytes → Option Bool) → List Bytes → Bytes → Option Bool
any_match other [] host = some false
any_match other (entry ∷ entries) host =
    let rest = any_match other entries host in
    elim (regex_search other entry host) [ none ↦ none | some true ↦ some true | some false ↦ rest ]

-- is_blocked(host): `none` is the regex_error of an entry that is no regular expression. `other` is
-- std::regex_search on the entries that need more of its syntax than Regex has.
unfoldable pub is_blocked : (Bytes → Bytes → Option Bool) → List Bytes → Bytes → Option Bool
is_blocked other [] host = some true
is_blocked other (h ∷ hosts) host = any_match other (h ∷ hosts) host
