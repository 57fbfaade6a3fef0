-- ===== src/Gfw/Tests.antt =====
-- Tests of the list of hosts.
-- Entries that need more of the syntax of regular expressions are no expressions here.
use ssl_socks.Base.{
  ◌≡◌, refl, ◌↔◌, Bool, true, ◌||◌, Option, none, some, List, [], ◌∷◌, ◌++◌, map, arith, Bytes,
}
use ssl_socks.Gfw.{
  is_skipped, strip_scheme, strip_path, finish_line, parse_line, unique, load_list, is_blocked,
}
use ssl_socks.Gfw.Blocked.{ends_with_any, is_empty, is_blocked-unique, is_blocked-load_list}
use ssl_socks.Gfw.Lines.{Entry, written, parse_line-written, AllEntries, file_of, load_list-file_of}
use ssl_socks.Gfw.Regex.{is_class, regex_search}
use ssl_socks.Gfw.Replace.{substitute, replace_string-substitute}
use ssl_socks.Gfw.Suffix.{is_plain, pattern_of, ends_with, ends_with_iff, regex_search-pattern_of}
use ssl_socks.Gfw.Text.{is_prefix, find, find_from, replace_loop, replace_string}

abbrev no_more : Bytes → Bytes → Option Bool
no_more entry host = none

abbrev entries : List Entry
entries =
    record { bars = 2; name = (b'a' ∷ b'.' ∷ b'i' ∷ b'o' ∷ []) }
    ∷ (record { bars = 0; name = (b'x' ∷ b'-' ∷ b'y' ∷ b'.' ∷ b'd' ∷ b'e' ∷ []) } ∷ [])

entries-AllEntries : AllEntries entries
unfolding is_plain is_class
entries-AllEntries = (
  ((refl, (refl, (refl, (refl, tt)))), omega arith),
  (((refl, (refl, (refl, (refl, (refl, (refl, tt)))))), omega arith), tt),
)

line_test :
    parse_line (
      b'|' ∷ b'|' ∷ b'h' ∷ b't' ∷ b't' ∷ b'p' ∷ b':' ∷ b'/' ∷ b'/' ∷ b'a' ∷ b'*' ∷ b'.' ∷ b'i'
      ∷ b'o' ∷ b'/' ∷ b'b' ∷ [])
    ≡ some (b'a' ∷ b'.' ∷ b'*' ∷ b'\\' ∷ b'.' ∷ b'i' ∷ b'o' ∷ b'$' ∷ [])
unfolding parse_line is_skipped finish_line replace_string replace_loop find_from find strip_path
    strip_scheme is_prefix
line_test = refl

skip_test : parse_line (b'@' ∷ b'@' ∷ b'a' ∷ b'.' ∷ b'i' ∷ b'o' ∷ []) ≡ none
unfolding parse_line is_skipped
skip_test = refl

replace_string-substitute_test :
    replace_string (b'a' ∷ b'.' ∷ b'b' ∷ b'.' ∷ []) (b'.' ∷ []) (b'\\' ∷ b'.' ∷ [])
    ≡ substitute b'.' (b'\\' ∷ b'.' ∷ []) (b'a' ∷ b'.' ∷ b'b' ∷ b'.' ∷ [])
replace_string-substitute_test =
    replace_string-substitute b'.' (b'\\' ∷ b'.' ∷ []) (b'a' ∷ b'.' ∷ b'b' ∷ b'.' ∷ [])

ends_with_iff_test :
    (ends_with (b'i' ∷ b'o' ∷ []) (b'a' ∷ b'.' ∷ b'i' ∷ b'o' ∷ []) ≡ true)
    ↔ ((front : Bytes) × ((b'a' ∷ b'.' ∷ b'i' ∷ b'o' ∷ []) ≡ front ++ (b'i' ∷ b'o' ∷ [])))
ends_with_iff_test = ends_with_iff (b'i' ∷ b'o' ∷ []) (b'a' ∷ b'.' ∷ b'i' ∷ b'o' ∷ [])

regex_search-pattern_of_test :
    regex_search no_more
      (pattern_of (b'a' ∷ b'.' ∷ b'i' ∷ b'o' ∷ []))
      (b'w' ∷ b'w' ∷ b'w' ∷ b'.' ∷ b'a' ∷ b'.' ∷ b'i' ∷ b'o' ∷ [])
    ≡ some (
        ends_with
          (b'a' ∷ b'.' ∷ b'i' ∷ b'o' ∷ [])
          (b'w' ∷ b'w' ∷ b'w' ∷ b'.' ∷ b'a' ∷ b'.' ∷ b'i' ∷ b'o' ∷ []))
regex_search-pattern_of_test =
    regex_search-pattern_of no_more (b'a' ∷ b'.' ∷ b'i' ∷ b'o' ∷ [])
      (b'w' ∷ b'w' ∷ b'w' ∷ b'.' ∷ b'a' ∷ b'.' ∷ b'i' ∷ b'o' ∷ []) (entries-AllEntries.0.0)

parse_line-written_test :
    parse_line (written (record { bars = 2; name = (b'a' ∷ b'.' ∷ b'i' ∷ b'o' ∷ []) }))
    ≡ some (pattern_of (b'a' ∷ b'.' ∷ b'i' ∷ b'o' ∷ []))
parse_line-written_test =
    parse_line-written (record { bars = 2; name = (b'a' ∷ b'.' ∷ b'i' ∷ b'o' ∷ []) })
      (entries-AllEntries.0)

load_list-file_of_test :
    load_list (b'/' ∷ b'f' ∷ []) (file_of (b'[' ∷ b'v' ∷ b']' ∷ []) entries) []
    ≡ unique (map (λ e. pattern_of e.name) entries)
load_list-file_of_test =
    load_list-file_of b'/' (b'f' ∷ []) (b'[' ∷ b'v' ∷ b']' ∷ []) entries (refl, (refl, (refl, tt)))
      entries-AllEntries

is_blocked-unique_test :
    is_blocked no_more (unique ((b'a' ∷ []) ∷ ((b'a' ∷ []) ∷ []))) (b'a' ∷ [])
    ≡ is_blocked no_more ((b'a' ∷ []) ∷ ((b'a' ∷ []) ∷ [])) (b'a' ∷ [])
is_blocked-unique_test = is_blocked-unique no_more (b'a' ∷ []) ((b'a' ∷ []) ∷ ((b'a' ∷ []) ∷ []))

is_blocked-load_list_test :
    is_blocked no_more
      (load_list (b'/' ∷ b'f' ∷ []) (file_of (b'[' ∷ b'v' ∷ b']' ∷ []) entries) [])
      (b'b' ∷ b'.' ∷ b'i' ∷ b'o' ∷ [])
    ≡ some (is_empty entries || ends_with_any entries (b'b' ∷ b'.' ∷ b'i' ∷ b'o' ∷ []))
is_blocked-load_list_test =
    is_blocked-load_list no_more (b'b' ∷ b'.' ∷ b'i' ∷ b'o' ∷ []) b'/' (b'f' ∷ [])
      (b'[' ∷ b'v' ∷ b']' ∷ []) entries (refl, (refl, (refl, tt))) entries-AllEntries
