-- ===== src/Gfw/Text.antt =====
-- Searching and replacing in byte strings: std::string::find, and replace_string of
-- src/gfwlist.cpp.
use ssl_socks.Base.{
  ℕ, zero, suc, ◌+◌, Bool, true, false, ◌&&◌, Option, none, some, [], ◌∷◌, ◌++◌, ◌==◌,
  if◌then◌else◌, length, take, drop, Bytes,
}
use mathlib.Core.Option

unfoldable pub is_prefix : Bytes → Bytes → Bool
is_prefix [] s = true
is_prefix (x ∷ xs) [] = false
is_prefix (x ∷ xs) (y ∷ ys) = x == y && is_prefix xs ys

-- s.find(src): the first position at which `src` stands.
unfoldable pub find : Bytes → Bytes → Option ℕ
find src [] = if is_prefix src [] then some 0 else none
find src (c ∷ cs) = if is_prefix src (c ∷ cs) then some 0 else Option.map suc (find src cs)

-- s.find(src, pos)
unfoldable pub find_from : Bytes → Bytes → ℕ → Option ℕ
find_from src s pos = Option.map (λ p. pos + p) (find src (drop pos s))

-- The loop of replace_string, with fuel: each round replaces one occurrence and goes on behind it.
unfoldable pub replace_loop : ℕ → Bytes → ℕ → Bytes → Bytes → Bytes
replace_loop zero orig pos src dest = orig
replace_loop (suc fuel) orig pos src dest = elim (find_from src orig pos) [
  | none ↦ orig
  | some p ↦
      replace_loop fuel (take p orig ++ (dest ++ drop (p + length src) orig)) (p + length dest) src
        dest
]

-- replace_string(orig, src, dest). There are at most as many occurrences as bytes.
unfoldable pub replace_string : Bytes → Bytes → Bytes → Bytes
replace_string orig src dest = replace_loop (suc (length orig)) orig 0 src dest
