-- ===== src/Gfw/Suffix.antt =====
-- What the patterns of plain host names find, src/gfwlist.cpp (is_blocked).
use ssl_socks.Base.{
  ℕ, ◌≡◌, refl, sym, ap, ◌↔◌, inl, inr, Bool, true, false, ◌||◌, Option, some, List, [], ◌∷◌, ◌++◌,
  arith, ◌==◌, Bool-cases, Bytes, equal, equal_iff,
}
use ssl_socks.Gfw.Regex.{
  lit, Item, one, end, is_special, is_class, Token, atom, finish, token, tokens, plain, put, group,
  items, compile, accepts, match_here, match_anywhere, regex_search,
}
use ssl_socks.Gfw.Replace.{substitute}

-- Letters, digits, and the punctuation of host names.
unfoldable pub is_plain : ℕ → Bool
unfolding is_class
is_plain c = is_class c || (c == b'.' || (c == b'-' || c == b'_'))

abbrev pub IsPlain : Bytes → Type 0
IsPlain [] = Unit {0}
IsPlain (c ∷ cs) = (is_plain c ≡ true) × IsPlain cs

-- A name with its dots escaped, and the end of the input.
abbrev pub pattern_of : Bytes → Bytes
pattern_of w = substitute b'.' (b'\\' ∷ b'.' ∷ []) w ++ b'$' ∷ []

unfoldable pub ends_with : Bytes → Bytes → Bool
ends_with w [] = equal w []
ends_with w (c ∷ cs) = equal w (c ∷ cs) || ends_with w cs

ends_with_split : (w s : Bytes) → ends_with w s ≡ true → (front : Bytes) × (s ≡ front ++ w)
unfolding ends_with
ends_with_split w [] h = ([], sym ((equal_iff w []).0 h))
ends_with_split w (c ∷ cs) h = elim (Bool-cases (equal w (c ∷ cs))) [
  | inl here ↦ ([], sym ((equal_iff w (c ∷ cs)).0 here))
  | inr later ↦ let (front, e) = ends_with_split w cs (ground arith) in (c ∷ front, ap (◌∷◌ c) e)
]

ends_with_self : (w : Bytes) → ends_with w w ≡ true
unfolding ends_with
ends_with_self [] = (equal_iff [] []).1 refl
ends_with_self (c ∷ cs) = rw ((equal_iff (c ∷ cs) (c ∷ cs)).1 refl) refl

ends_with-append : (w front : Bytes) → ends_with w (front ++ w) ≡ true
unfolding ends_with
ends_with-append w [] = ends_with_self w
ends_with-append w (c ∷ front) = ground (arith, ends_with-append w front)

-- The test holds exactly for the texts that end with `w`.
pub ends_with_iff : (w s : Bytes) → (ends_with w s ≡ true) ↔ ((front : Bytes) × (s ≡ front ++ w))
ends_with_iff w s = (ends_with_split w s, λ (front, e). rw e (ends_with-append w front))

spelled : Bytes → List Token
spelled [] = finish ∷ []
spelled (c ∷ cs) = atom (lit c) ∷ spelled cs

tokens-pattern_of : (w : Bytes) → IsPlain w → tokens false (pattern_of w) ≡ some (spelled w)
unfolding tokens token is_special is_class is_plain spelled
tokens-pattern_of [] h = refl
tokens-pattern_of (c ∷ cs) h = ground (arith, tokens-pattern_of cs h.1)

letters : Bytes → List Item
letters [] = end ∷ []
letters (c ∷ cs) = one (lit c) ∷ letters cs

group-spelled : (w : Bytes) → group (spelled w) ≡ plain (letters w)
unfolding group spelled letters put
group-spelled [] = refl
group-spelled (c ∷ cs) = rw (group-spelled cs) refl

match_here-letters : (w s : Bytes) → match_here (letters w) s ≡ equal w s
unfolding match_here letters equal accepts
match_here-letters [] [] = refl
match_here-letters [] (c ∷ cs) = refl
match_here-letters (x ∷ w) [] = refl
match_here-letters (x ∷ w) (c ∷ cs) = ground (arith, match_here-letters w cs)

match_anywhere-letters : (w s : Bytes) → match_anywhere (letters w) s ≡ ends_with w s
unfolding match_anywhere ends_with
match_anywhere-letters w [] = match_here-letters w []
match_anywhere-letters w (c ∷ cs) =
    rw (match_here-letters w (c ∷ cs), match_anywhere-letters w cs) refl

-- The search with the pattern of a plain name succeeds on exactly the hosts that end with it.
pub regex_search-pattern_of :
    (other : Bytes → Bytes → Option Bool) (w host : Bytes)
    → IsPlain w
    → regex_search other (pattern_of w) host ≡ some (ends_with w host)
unfolding regex_search compile items
regex_search-pattern_of other w host h =
    rw (tokens-pattern_of w h, regex_search, compile)
      (rw (group-spelled w, regex_search, compile, items) (rw match_anywhere-letters refl))
