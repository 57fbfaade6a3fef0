-- ===== src/Gfw/Regex.antt =====
-- The part of ECMAScript regular expressions that the patterns of src/gfwlist.cpp use: plain and
-- escaped characters, the dot, the star behind one of these, and the end of the input.
use ssl_socks.Base.{
  ℕ, Bool, true, false, not, ◌&&◌, ◌||◌, Option, none, some, List, [], ◌∷◌, leb, ◌==◌,
  if◌then◌else◌, Bytes,
}
use mathlib.Core.Option

pub data Atom : Type 0 where
  any : Atom
  lit : ℕ → Atom

pub data Item : Type 0 where
  one star : Atom → Item
  end : Item

-- Characters with a meaning of their own that is not modelled here.
unfoldable pub is_special : ℕ → Bool
is_special c =
    (c == b'^' || (c == b'+' || c == b'?'))
    || ((c == b'(' || c == b')')
        || ((c == b'[' || c == b']') || (c == b'{' || (c == b'}' || c == b'|'))))

-- Behind a backslash these name classes and control characters.
unfoldable pub is_class : ℕ → Bool
is_class c =
    (leb b'0' c && leb c b'9') || ((leb b'a' c && leb c b'z') || (leb b'A' c && leb c b'Z'))

pub data Token : Type 0 where
  atom : Atom → Token
  repeat finish : Token

unfoldable pub token : ℕ → Token
token c =
    if c == b'.'
    then atom any
    else if c == b'*'
    then repeat
    else if c == b'$'
    then finish
    else atom (lit c)

-- The flag says that a backslash stands in front. Its own token is the character behind it.
unfoldable pub tokens : Bool → Bytes → Option (List Token)
tokens true [] = none
tokens false [] = some []
tokens true (c ∷ cs) =
    let rest = tokens false cs in
    if is_class c then none else Option.map (λ r. atom (lit c) ∷ r) rest
tokens false (c ∷ cs) =
    let rest = tokens (c == b'\\') cs in
    if c == b'\\' then rest else if is_special c then none else Option.map (λ r. token c ∷ r) rest

-- What stands behind a token: nothing legal, a star and then items, or items.
pub data Group : Type 0 where
  bad : Group
  starred plain : List Item → Group

unfoldable pub put : Token → Group → Group
put t bad = bad
put (atom a) (starred r) = plain (star a ∷ r)
put (atom a) (plain r) = plain (one a ∷ r)
put repeat (starred r) = bad
put repeat (plain r) = starred r
put finish (starred r) = bad
put finish (plain r) = plain (end ∷ r)

unfoldable pub group : List Token → Group
group [] = plain []
group (t ∷ ts) = put t (group ts)

unfoldable pub items : Group → Option (List Item)
items (plain r) = some r
items _ = none

-- `none` is a pattern outside this part of the syntax.
unfoldable pub compile : Bytes → Option (List Item)
unfolding items
compile pattern = elim (tokens false pattern) [ none ↦ none | some ts ↦ items (group ts) ]

-- The dot matches any character but a line end.
unfoldable pub accepts : Atom → ℕ → Bool
accepts any c = not (c == 10 || c == 13)
accepts (lit d) c = c == d

-- Whether the items match a front part of the input.
unfoldable pub match_here : List Item → Bytes → Bool
match_here [] s = true
match_here (end ∷ r) [] = match_here r []
match_here (end ∷ r) (c ∷ cs) = false
match_here (one a ∷ r) [] = false
match_here (one a ∷ r) (c ∷ cs) = accepts a c && match_here r cs
match_here (star a ∷ r) [] = match_here r []
match_here (star a ∷ r) (c ∷ cs) =
    match_here r (c ∷ cs) || (accepts a c && match_here (star a ∷ r) cs)

-- Whether they match anywhere.
unfoldable pub match_anywhere : List Item → Bytes → Bool
match_anywhere r [] = match_here r []
match_anywhere r (c ∷ cs) = match_here r (c ∷ cs) || match_anywhere r cs

-- std::regex_search; `other` answers for patterns outside the part above.
unfoldable pub regex_search : (Bytes → Bytes → Option Bool) → Bytes → Bytes → Option Bool
regex_search other pattern host = elim (compile pattern) [
  | none ↦ other pattern host
  | some r ↦ some (match_anywhere r host)
]
