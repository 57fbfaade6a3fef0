-- ===== src/Gfw/Blocked.antt =====
-- Which hosts a loaded list blocks, src/gfwlist.cpp (load_list, is_blocked).
use ssl_socks.Base.{
  ℕ, ◌≡◌, refl, sym, ap, ◌∙◌, inl, inr, Bool, true, false, ◌||◌, Option, some, List, [], ◌∷◌, map,
  arith, Bool-cases, Bytes, equal, equal_iff,
}
use ssl_socks.Gfw.{unique_after, unique, load_list, any_match, is_blocked}
use ssl_socks.Gfw.Lines.{Entry, AllEntries, file_of, OneLine, load_list-file_of}
use ssl_socks.Gfw.Suffix.{pattern_of, ends_with, regex_search-pattern_of}

abbrev pub ends_with_any : List Entry → Bytes → Bool
ends_with_any [] host = false
ends_with_any (e ∷ es) host = ends_with e.name host || ends_with_any es host

abbrev pub is_empty : List Entry → Bool
is_empty [] = true
is_empty (e ∷ es) = false

module _ (other : Bytes → Bytes → Option Bool) (host : Bytes) where
  any_match-patterns :
      (es : List Entry)
      → AllEntries es
      → any_match other (map (λ e. pattern_of e.name) es) host ≡ some (ends_with_any es host)
  unfolding any_match
  any_match-patterns [] h = refl
  any_match-patterns (e ∷ es) h =
      rw (regex_search-pattern_of other e.name host h.0.0, any_match)
        (ground (arith, any_match-patterns es h.1))

  any_match_twice :
      (x : Bytes) (ys : List Bytes)
      → any_match other (x ∷ (x ∷ ys)) host ≡ any_match other (x ∷ ys) host
  unfolding any_match
  any_match_twice x ys = ground arith

  any_match_cons :
      (x : Bytes) (xs ys : List Bytes)
      → any_match other xs host ≡ any_match other ys host
      → any_match other (x ∷ xs) host ≡ any_match other (x ∷ ys) host
  unfolding any_match
  any_match_cons x xs ys e = ground arith

  any_match-unique_after :
      (x : Bytes) (xs : List Bytes)
      → any_match other (x ∷ unique_after x xs) host ≡ any_match other (x ∷ xs) host
  unfolding unique_after
  any_match-unique_after x [] = refl
  any_match-unique_after x (y ∷ ys) = elim (Bool-cases (equal x y)) [
    | inl same ↦ rw same (
        any_match-unique_after x ys
        ∙ (sym (any_match_twice x ys)
            ∙ ap (λ z. any_match other (x ∷ (z ∷ ys)) host) ((equal_iff x y).0 same)))
    | inr differ ↦ rw differ (any_match_cons x _ _ (any_match-unique_after y ys))
  ]

  -- Dropping repeated patterns changes no answer, errors included.
  pub is_blocked-unique :
      (patterns : List Bytes)
      → is_blocked other (unique patterns) host ≡ is_blocked other patterns host
  unfolding is_blocked unique
  is_blocked-unique [] = refl
  is_blocked-unique (x ∷ xs) = any_match-unique_after x xs

  is_blocked-patterns :
      (es : List Entry)
      → AllEntries es
      → is_blocked other (map (λ e. pattern_of e.name) es) host
        ≡ some (is_empty es || ends_with_any es host)
  unfolding is_blocked
  is_blocked-patterns [] h = refl
  is_blocked-patterns (e ∷ es) h = any_match-patterns (e ∷ es) h

  -- After a file with a first line and then lines of bars and plain host names is loaded into an
  -- empty list, a host is blocked exactly if it ends with one of the names, or if there are none.
  pub is_blocked-load_list :
      (c : ℕ) (cs header : Bytes) (es : List Entry)
      → OneLine header
      → AllEntries es
      → is_blocked other (load_list (c ∷ cs) (file_of header es) []) host
        ≡ some (is_empty es || ends_with_any es host)
  is_blocked-load_list c cs header es h k =
      rw (load_list-file_of c cs header es h k) (is_blocked-unique _ ∙ is_blocked-patterns es k)
