-- ===== src/Config/Texts.antt =====
-- The helpers on text of src/main.cpp (str_strip, str_split).
-- src.find_first_of(ch) and src.find_first_not_of(ch), where `none` is npos.
use ssl_socks.Base.{
  ℕ, suc, ◌+◌, ◌-◌, ◌≡◌, refl, ap, ◌∙◌, ◌⊎◌, inl, inr, Bool, true, false, not, ◌||◌, Option, none,
  some, [], ◌∷◌, ◌++◌, ◌==◌, if◌then◌else◌, ==_iff, Bool-cases, take, drop, Bytes,
}

unfoldable pub find_first : (ℕ → Bool) → Bytes → Option ℕ
find_first test [] = none
find_first test (c ∷ cs) =
    if test c then some 0 else elim (find_first test cs) [ none ↦ none | some i ↦ some (suc i) ]

-- src.find_last_not_of(ch)
unfoldable pub find_last : (ℕ → Bool) → Bytes → Option ℕ
find_last test [] = none
find_last test (c ∷ cs) = elim (find_last test cs) [
  | some i ↦ some (suc i)
  | none ↦ if test c then some 0 else none
]

unfoldable pub contains : Bytes → ℕ → Bool
contains [] c = false
contains (x ∷ xs) c = x == c || contains xs c

-- str_strip(src, ch): `src` afterwards. Where there is a first such byte there is a last one.
unfoldable pub str_strip : Bytes → Bytes → Bytes
unfolding find_first find_last contains
str_strip src ch = elim (find_first (λ c. not (contains ch c)) src) [
  | none ↦ []
  | some from ↦ elim (find_last (λ c. not (contains ch c)) src) [
    | none ↦ drop from src
    | some to ↦ take ((to - from) + 1) (drop from src)
  ]
]

-- str_split(src, ch)
unfoldable pub str_split : Bytes → ℕ → Bytes × Bytes
unfolding find_first
str_split src ch = elim (find_first (λ c. c == ch) src) [
  | none ↦ (src, [])
  | some at_ch ↦ (take at_ch src, drop (suc at_ch) src)
]

-- No byte of the text passes the test.
abbrev pub NonePass : (ℕ → Bool) → Bytes → Type 0
NonePass test [] = Unit {0}
NonePass test (c ∷ cs) = (test c ≡ false) × NonePass test cs

module _ (test : ℕ → Bool) where
  -- Where the first byte stands.
  pub FoundFirst : Bytes → Option ℕ → Type 0
  FoundFirst s none = NonePass test s
  FoundFirst s (some i) =
      NonePass test (take i s) × ((c : ℕ) × (test c ≡ true) × (s ≡ take i s ++ c ∷ drop (suc i) s))

  later_first :
      (c : ℕ) (cs : Bytes) (o : Option ℕ)
      → test c ≡ false
      → FoundFirst cs o
      → FoundFirst (c ∷ cs) (elim o [ none ↦ none | some i ↦ some (suc i) ])
  unfolding FoundFirst
  later_first c cs none n h = (n, h)
  later_first c cs (some i) n (h, (x, y, e)) = ((n, h), (x, y, ap (◌∷◌ c) e))

  pub find_first-FoundFirst : (s : Bytes) → FoundFirst s (find_first test s)
  unfolding FoundFirst find_first
  find_first-FoundFirst [] = tt
  find_first-FoundFirst (c ∷ cs) = elim (Bool-cases (test c)) [
    | inl hit ↦ rw hit (tt, (c, hit, refl))
    | inr miss ↦ rw miss (later_first c cs (find_first test cs) miss (find_first-FoundFirst cs))
  ]

-- A text without the byte is the first part, and the second is empty; any other text is the first
-- part, the byte, and the second part, and the byte is not in the first.
pub str_split-join :
    (src : Bytes) (ch : ℕ)
    → (NonePass (λ c. c == ch) src × (str_split src ch ≡ (src, [])))
      ⊎ (NonePass (λ c. c == ch) (str_split src ch).0
          × (src ≡ (str_split src ch).0 ++ ch ∷ (str_split src ch).1))
unfolding str_split FoundFirst
str_split-join src ch =
    by_first (find_first (λ c. c == ch) src) (find_first-FoundFirst (λ c. c == ch) src)
  where
    parts : Option ℕ → Bytes × Bytes
    parts none = (src, [])
    parts (some i) = (take i src, drop (suc i) src)

    by_first :
        (o : Option ℕ)
        → FoundFirst (λ c. c == ch) src o
        → (NonePass (λ c. c == ch) src × (parts o ≡ (src, [])))
          ⊎ (NonePass (λ c. c == ch) (parts o).0 × (src ≡ (parts o).0 ++ ch ∷ (parts o).1))
    by_first none h = inl (h, refl)
    by_first (some i) (h, (c, y, e)) =
        inr (h, e ∙ ap (λ x. take i src ++ x ∷ drop (suc i) src) ((==_iff c ch).0 y))
