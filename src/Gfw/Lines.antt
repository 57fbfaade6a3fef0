-- ===== src/Gfw/Lines.antt =====
-- The lines of a list file that name plain hosts, src/gfwlist.cpp (load_list).
use ssl_socks.Base.{
  ℕ, zero, suc, ◌<◌, ◌≡◌, refl, sym, ap, ◌∙◌, inl, inr, false, none, some, List, [], ◌∷◌, ◌++◌, map,
  append-nil, append_assoc, arith, ◌==◌, ==_iff, Bool-cases, length, replicate, Bytes,
}
use ssl_socks.Gfw.{
  is_skipped, strip_scheme, strip_path, finish_line, parse_line, push_byte, extend_line, get_lines,
  add_lines, unique, load_list,
}
use ssl_socks.Gfw.Regex.{is_class}
use ssl_socks.Gfw.Replace.{substitute, replace_string-substitute}
use ssl_socks.Gfw.Suffix.{is_plain, IsPlain, pattern_of}
use ssl_socks.Gfw.Text.{is_prefix, find}

-- Any number of bars, and a host name.
pub record Entry : Type 0 where
  pub bars : ℕ
  pub name : Bytes

abbrev pub written : Entry → Bytes
written e = replicate e.bars b'|' ++ e.name

abbrev pub IsEntry : Entry → Type 0
IsEntry e = IsPlain e.name × (0 < length e.name)

substitute_absent :
    (x : ℕ) (dest w : Bytes) → is_plain x ≡ false → IsPlain w → substitute x dest w ≡ w
substitute_absent x dest [] n h = refl
substitute_absent x dest (c ∷ cs) n h = elim (Bool-cases (c == x)) [
  | inl same ↦ absurd (ground (arith, ap is_plain ((==_iff c x).0 same)))
  | inr differ ↦ rw differ (ap (◌∷◌ c) (substitute_absent x dest cs n h.1))
]

substitute_bars : (n : ℕ) (w : Bytes) → IsPlain w → substitute b'|' [] (replicate n b'|' ++ w) ≡ w
unfolding replicate is_plain is_class
substitute_bars zero w h = substitute_absent b'|' [] w refl h
substitute_bars (suc n) w h = substitute_bars n w h

find_absent : (src w : Bytes) → IsPlain w → find (b'/' ∷ src) w ≡ none
unfolding find is_prefix is_plain is_class
find_absent src [] h = refl
find_absent src (c ∷ cs) h = ground (arith, find_absent src cs h.1)

-- Escaping the dots brings in no star.
substitute_star :
    (w : Bytes)
    → IsPlain w
    → substitute b'*' (b'.' ∷ b'*' ∷ []) (substitute b'.' (b'\\' ∷ b'.' ∷ []) w)
      ≡ substitute b'.' (b'\\' ∷ b'.' ∷ []) w
unfolding is_plain is_class
substitute_star [] h = refl
substitute_star (c ∷ cs) h = ground (arith, substitute_star cs h.1)

not-is_skipped : (n : ℕ) (w : Bytes) → IsPlain w → is_skipped (replicate n b'|' ++ w) ≡ false
unfolding is_skipped is_plain is_class replicate
not-is_skipped zero [] h = refl
not-is_skipped zero (c ∷ cs) h = ground arith
not-is_skipped (suc n) w h = refl

finish_line-pattern_of :
    (w : Bytes)
    → IsPlain w
    → 0 < length w
    → finish_line (substitute b'.' (b'\\' ∷ b'.' ∷ []) w) ≡ some (pattern_of w)
unfolding finish_line
finish_line-pattern_of [] h l = elim l [ ]
finish_line-pattern_of (c ∷ cs) h l = elim (Bool-cases (c == b'.')) [
  | inl dot ↦ rw dot refl
  | inr letter ↦ rw letter refl
]

-- The line of an entry, bars and then a plain name that is not empty, becomes the pattern of that
-- name.
pub parse_line-written : (e : Entry) → IsEntry e → parse_line (written e) ≡ some (pattern_of e.name)
unfolding parse_line strip_scheme strip_path
parse_line-written e (p, l) =
    rw (not-is_skipped e.bars e.name p, parse_line)
      (rw
        (replace_string-substitute b'|' [] (written e), substitute_bars e.bars e.name p, parse_line)
        (rw (find_absent (b'/' ∷ []) e.name p, strip_scheme, parse_line)
          (rw (find_absent [] e.name p, strip_path)
            (rw
              (
                replace_string-substitute b'.' (b'\\' ∷ b'.' ∷ []) e.name,
                replace_string-substitute b'*' (b'.' ∷ b'*' ∷ []) _,
                substitute_star e.name p,
              )
              (finish_line-pattern_of e.name p l)))))

abbrev pub AllEntries : List Entry → Type 0
AllEntries [] = Unit {0}
AllEntries (e ∷ es) = IsEntry e × AllEntries es

-- A file with a first line, which is dropped, and a line for each entry.
abbrev pub lines_of : List Entry → Bytes
lines_of [] = []
lines_of (e ∷ es) = written e ++ (b'\n' ∷ lines_of es)

abbrev pub file_of : Bytes → List Entry → Bytes
file_of header es = header ++ (b'\n' ∷ lines_of es)

abbrev pub OneLine : Bytes → Type 0
OneLine [] = Unit {0}
OneLine (c ∷ cs) = (c == b'\n' ≡ false) × OneLine cs

get_lines-append :
    (line rest : Bytes) → OneLine line → get_lines (line ++ (b'\n' ∷ rest)) ≡ line ∷ get_lines rest
unfolding get_lines extend_line push_byte
get_lines-append [] rest h = refl
get_lines-append (c ∷ cs) rest h = rw (get_lines-append cs rest h.1, h.0) refl

OneLine-plain : (w : Bytes) → IsPlain w → OneLine w
unfolding is_plain is_class
OneLine-plain [] h = tt
OneLine-plain (c ∷ cs) h = (ground arith, OneLine-plain cs h.1)

OneLine-bars : (n : ℕ) (w : Bytes) → IsPlain w → OneLine (replicate n b'|' ++ w)
unfolding replicate
OneLine-bars zero w h = OneLine-plain w h
OneLine-bars (suc n) w h = (refl, OneLine-bars n w h)

get_lines-lines_of :
    (es : List Entry) → AllEntries es → get_lines (lines_of es) ≡ map (λ e. written e) es
unfolding get_lines
get_lines-lines_of [] h = refl
get_lines-lines_of (e ∷ es) h =
    rw (get_lines-append (written e) (lines_of es) (OneLine-bars e.bars e.name h.0.0))
      (ap (◌∷◌ (written e)) (get_lines-lines_of es h.1))

add_lines-written :
    (hosts : List Bytes) (es : List Entry)
    → AllEntries es
    → add_lines hosts (map (λ e. written e) es) ≡ hosts ++ map (λ e. pattern_of e.name) es
unfolding add_lines
add_lines-written hosts [] h = sym (append-nil hosts)
add_lines-written hosts (e ∷ es) h =
    rw (parse_line-written e h.0, add_lines)
      (add_lines-written (hosts ++ pattern_of e.name ∷ []) es h.1
        ∙ append_assoc hosts (pattern_of e.name ∷ []) _)

-- Loading such a file puts one pattern for each entry into an empty list, up to repeated ones.
pub load_list-file_of :
    (c : ℕ) (cs header : Bytes) (es : List Entry)
    → OneLine header
    → AllEntries es
    → load_list (c ∷ cs) (file_of header es) [] ≡ unique (map (λ e. pattern_of e.name) es)
unfolding load_list
load_list-file_of c cs header es h k =
    rw (get_lines-append header (lines_of es) h, get_lines-lines_of es k, add_lines-written [] es k)
      refl
