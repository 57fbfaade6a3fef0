-- ===== src/Gfw/Replace.antt =====
-- The replacement of one character, src/gfwlist.cpp (replace_string): all four calls are of that
-- kind.
use ssl_socks.Base.{
  ℕ, zero, suc, ◌+◌, ◌<◌, ◌≡◌, refl, sym, ap, ◌∙◌, ◌⊎◌, inl, inr, none, some, [], ◌∷◌, ◌++◌,
  append_assoc, arith, ◌==◌, if◌then◌else◌, Bool-cases, length, take, drop, length-append,
  take-length_append, drop-length_append, Bytes,
}
use ssl_socks.Gfw.Text.{is_prefix, find, find_from, replace_loop, replace_string}
use mathlib.Core.Option
use mathlib.Core.Path.{ap₂}

-- Every `x` becomes `dest`, and nothing else changes.
abbrev pub substitute : ℕ → Bytes → Bytes → Bytes
substitute x dest [] = []
substitute x dest (c ∷ cs) = (if c == x then dest else c ∷ []) ++ substitute x dest cs

-- A search for one character finds nothing, or the first place where it stands.
abbrev FindOne : ℕ → Bytes → Bytes → Type 0
FindOne x dest s =
    ((find (x ∷ []) s ≡ none) × (substitute x dest s ≡ s))
    ⊎ ((a : Bytes) × (b : Bytes) × (find (x ∷ []) s ≡ some (length a))
        × (s ≡ a ++ (x ∷ b))
        × (substitute x dest s ≡ a ++ (dest ++ substitute x dest b)))

find_one : (x : ℕ) (dest s : Bytes) → FindOne x dest s
unfolding find is_prefix
find_one x dest [] = inl (refl, refl)
find_one x dest (c ∷ cs) = elim (Bool-cases (c == x)) [
  | inl here ↦ inr ([], cs, ground arith, ground arith, ground arith)
  | inr away ↦ elim (find_one x dest cs) [
    | inl (missing, same) ↦ inl (ground arith, ground arith)
    | inr (a, b, found, split, after) ↦ inr (c ∷ a, b, ground arith, ground arith, ground arith)
  ]
]

find_from-append :
    (src done s : Bytes)
    → find_from src (done ++ s) (length done) ≡ Option.map (λ p. length done + p) (find src s)
unfolding find_from
find_from-append src done s = rw (drop-length_append done s) refl

replace_loop-none :
    (fuel x : ℕ) (dest done s : Bytes)
    → find (x ∷ []) s ≡ none
    → replace_loop (suc fuel) (done ++ s) (length done) (x ∷ []) dest ≡ done ++ s
unfolding replace_loop
replace_loop-none fuel x dest done s e =
    rw (find_from-append (x ∷ []) done s, replace_loop) (rw (e, replace_loop) refl)

module _ (done a b : Bytes) (x : ℕ) where
  front : take (length done + length a) (done ++ (a ++ (x ∷ b))) ≡ done ++ a
  front =
      rw (← append_assoc done a (x ∷ b), ← length-append done a)
        (take-length_append (done ++ a) (x ∷ b))

  back : drop (length done + length a + 1) (done ++ (a ++ (x ∷ b))) ≡ b
  back =
      rw (← append_assoc done a (x ∷ b), ← length-append done a)
        (rw (snoc, len) (drop-length_append ((done ++ a) ++ x ∷ []) b))
    where
      snoc : (done ++ a) ++ (x ∷ b) ≡ ((done ++ a) ++ x ∷ []) ++ b
      snoc = sym (append_assoc (done ++ a) (x ∷ []) b)

      len : length (done ++ a) + 1 ≡ length ((done ++ a) ++ x ∷ [])
      len = omega (arith, length-append (done ++ a) (x ∷ []))

  replace_loop-some :
      (fuel : ℕ) (dest : Bytes)
      → find (x ∷ []) (a ++ (x ∷ b)) ≡ some (length a)
      → replace_loop (suc fuel) (done ++ (a ++ (x ∷ b))) (length done) (x ∷ []) dest
        ≡ replace_loop fuel
            ((done ++ (a ++ dest)) ++ b)
            (length (done ++ (a ++ dest)))
            (x ∷ [])
            dest
  unfolding replace_loop
  replace_loop-some fuel dest e =
      rw (find_from-append (x ∷ []) done (a ++ (x ∷ b)), replace_loop)
        (rw (e, replace_loop) (ap₂ (λ s k. replace_loop fuel s k (x ∷ []) dest) text position))
    where
      text :
          take (length done + length a) (done ++ (a ++ (x ∷ b)))
            ++ (dest ++ drop (length done + length a + 1) (done ++ (a ++ (x ∷ b))))
          ≡ (done ++ (a ++ dest)) ++ b
      text = rw (front, back) (simp append_assoc)

      position : length done + length a + length dest ≡ length (done ++ (a ++ dest))
      position = omega (arith, length-append done (a ++ dest), length-append a dest)

-- The loop, from behind a part that it has done.
replace_loop_lem :
    (fuel x : ℕ) (dest done s : Bytes)
    → length s < fuel
    → replace_loop fuel (done ++ s) (length done) (x ∷ []) dest ≡ done ++ substitute x dest s
replace_loop_lem zero x dest done s h = elim h [ ]
replace_loop_lem (suc fuel) x dest done s h = elim (find_one x dest s) [
  | inl (missing, same) ↦ replace_loop-none fuel x dest done s missing ∙ ap (◌++◌ done) (sym same)
  | inr (a, b, found, split, after) ↦ rw after (
      rw split (replace_loop-some done a b x fuel dest (rw split at found))
      ∙ (replace_loop_lem fuel x dest (done ++ (a ++ dest)) b
            (omega (arith, ap length split, length-append a (x ∷ b)))
          ∙ simp append_assoc))
]

-- replace_string of one character is the substitution of every occurrence of it, whatever is put
-- in, and what was put in is not searched again: the fuel suffices.
pub replace_string-substitute :
    (x : ℕ) (dest s : Bytes) → replace_string s (x ∷ []) dest ≡ substitute x dest s
unfolding replace_string
replace_string-substitute x dest s = replace_loop_lem (suc (length s)) x dest [] s (omega arith)
