-- ===== src/Address/Grammar/Lemmas.antt =====
-- Reading the parts of a written address, src/utils.cpp (parse_address).
use ssl_socks.Address.{AddressError, parsed, port_number, parse_fixed, parse_domain}
use ssl_socks.Base.{
  ℕ, zero, suc, ◌+◌, ◌≤◌, ◌<◌, ◌≡◌, refl, ap, ◌∙◌, ◌≢◌, ◌⊎◌, inl, inr, List, [], ◌∷◌, ◌++◌,
  append_assoc, arith, ltb, le→ltb, Bool-cases, length, get_or, take, drop, length-append,
  length-take, length-drop, take-length_append, get_or-take, take-drop-take, get_or-drop, Bytes,
}
use native.Mathlib.Nat.{zero-add, add-zero, suc-add, add-suc}

module _ {ℓ} {A : Type ℓ} where
  pub get_or-append :
      (xs ys : List A) (i : ℕ) (d : A) → get_or (xs ++ ys) (length xs + i) d ≡ get_or ys i d
  get_or-append [] ys i d = rw zero-add
  get_or-append (x ∷ xs) ys i d = rw suc-add (get_or-append xs ys i d)

  pub get_or-append_left :
      (xs ys : List A) (i : ℕ) (d : A) → i < length xs → get_or (xs ++ ys) i d ≡ get_or xs i d
  get_or-append_left [] ys i d h = elim h [ ]
  get_or-append_left (x ∷ xs) ys zero d h = refl
  get_or-append_left (x ∷ xs) ys (suc i) d h = get_or-append_left xs ys i d (omega arith)

  pub take_add : (m k : ℕ) (xs : List A) → take (m + k) xs ≡ take m xs ++ take k (drop m xs)
  take_add zero k xs = rw zero-add
  take_add (suc m) zero [] = rw suc-add refl
  take_add (suc m) (suc k) [] = rw suc-add refl
  take_add (suc m) k (x ∷ xs) = rw suc-add (ap (◌∷◌ x) (take_add m k xs))

  drop-drop : (m k : ℕ) (xs : List A) → drop m (drop k xs) ≡ drop (m + k) xs
  drop-drop m zero xs = rw add-zero refl
  drop-drop zero (suc k) [] = rw zero-add refl
  drop-drop (suc m) (suc k) [] = rw suc-add refl
  drop-drop m (suc k) (x ∷ xs) = rw add-suc (drop-drop m k xs)

  -- A run of `n + 2` bytes behind a prefix of `k`.
  pub take_two_parts :
      (n k : ℕ) (xs : List A)
      → take (n + 2) (drop k xs) ≡ take n (drop k xs) ++ take 2 (drop (n + k) xs)
  take_two_parts n k xs =
      take_add n 2 (drop k xs) ∙ ap (λ ys. take n (drop k xs) ++ take 2 ys) (drop-drop n k xs)

  pub take-suc :
      (n : ℕ) (xs : List A) (d : A)
      → 0 < length xs
      → take (suc n) xs ≡ get_or xs 0 d ∷ take n (drop 1 xs)
  take-suc n [] d h = elim h [ ]
  take-suc n (x ∷ xs) d h = refl

-- The port behind a prefix.
port_number-append :
    (xs p rest : Bytes) (k : ℕ)
    → length xs ≡ k
    → length p ≡ 2
    → port_number (xs ++ (p ++ rest)) k ≡ port_number p 0
port_number-append xs p rest k e h = rw (← e) (rw (first, second) refl)
  where
    first : get_or (xs ++ (p ++ rest)) (length xs) 0 ≡ get_or p 0 0
    first =
        (rw add-zero at (get_or-append xs (p ++ rest) 0 0))
        ∙ get_or-append_left p rest 0 0 (omega arith)

    second : get_or (xs ++ (p ++ rest)) (length xs + 1) 0 ≡ get_or p 1 0
    second = get_or-append xs (p ++ rest) 1 0 ∙ get_or-append_left p rest 1 0 (omega arith)

pub parse_fixed-append :
    (text : Bytes → Bytes) (int_text : ℕ → Bytes) (error : ℕ → AddressError) (tag n : ℕ)
    (a p rest : Bytes) (len : ℕ)
    → length a ≡ n
    → length p ≡ 2
    → n + 3 ≤ len
    → parse_fixed text int_text error n (tag ∷ ((a ++ p) ++ rest)) len
      ≡ parsed (text a) (int_text (port_number p 0))
unfolding parse_fixed
parse_fixed-append text int_text error tag n a p rest len ea ep h =
    rw
      (
        le→ltb len (n + 3) h,
        append_assoc a p rest,
        port_number-append (tag ∷ a) p rest (n + 1) (omega arith) ep,
        ← ea,
        take-length_append a (p ++ rest),
      )
      refl

pub parse_domain-append :
    (int_text : ℕ → Bytes) (n p rest : Bytes) (len : ℕ)
    → length p ≡ 2
    → length n + 4 ≤ len
    → parse_domain int_text (length n) (3 ∷ length n ∷ ((n ++ p) ++ rest)) len
      ≡ parsed n (int_text (port_number p 0))
unfolding parse_domain
parse_domain-append int_text n p rest len ep h =
    rw
      (
        le→ltb len (length n + 4) h,
        append_assoc n p rest,
        port_number-append (3 ∷ length n ∷ n) p rest (length n + 2) (omega arith) ep,
        take-length_append n (p ++ rest),
      )
      refl

pub parse_fixed-take :
    (text : Bytes → Bytes) (int_text : ℕ → Bytes) (error : ℕ → AddressError) (n : ℕ) (mem : Bytes)
    (len : ℕ)
    → parse_fixed text int_text error n (take len mem) len
      ≡ parse_fixed text int_text error n mem len
unfolding parse_fixed
parse_fixed-take text int_text error n mem len = ground (
  arith,
  take-drop-take n 1 len mem,
  get_or-take len (n + 1) mem 0,
  get_or-take len (n + 1 + 1) mem 0,
)

pub parse_domain-take :
    (int_text : ℕ → Bytes) (n : ℕ) (mem : Bytes) (len : ℕ)
    → parse_domain int_text n (take len mem) len ≡ parse_domain int_text n mem len
unfolding parse_domain
parse_domain-take int_text n mem len = ground (
  arith,
  take-drop-take n 2 len mem,
  get_or-take len (n + 2) mem 0,
  get_or-take len (n + 2 + 1) mem 0,
)

-- The port as it stands in memory.
port_number-drop : (mem : Bytes) (k : ℕ) → port_number mem k ≡ port_number (take 2 (drop k mem)) 0
port_number-drop mem k =
    rw
      (
        get_or-take 2 0 (drop k mem) 0 (omega arith),
        get_or-take 2 1 (drop k mem) 0 (omega arith),
        get_or-drop k 0 mem 0,
        get_or-drop k 1 mem 0,
        add-zero k,
      )
      refl

-- The parts that lie in front of `k + 2` bytes have their full lengths.
pub length-take-drop :
    (n k : ℕ) (mem : Bytes) → k + n ≤ length mem → length (take n (drop k mem)) ≡ n
length-take-drop n k mem h = omega (arith, length-take n (drop k mem), length-drop k mem)

module _ (mem : Bytes) (len : ℕ) (inside : len ≤ length mem) {host port : Bytes} where
  -- What an accepted address of `n` bytes says about the memory.
  pub parse_fixed_sound :
      (text : Bytes → Bytes) (int_text : ℕ → Bytes) (error : ℕ → AddressError) (tag n : ℕ)
      → get_or mem 0 0 ≡ tag
      → parse_fixed text int_text error n mem len ≡ parsed host port
      → (n + 3 ≤ len)
        × (take (suc (n + 2)) mem ≡ tag ∷ (take n (drop 1 mem) ++ take 2 (drop (n + 1) mem)))
        × (parsed
              (text (take n (drop 1 mem)))
              (int_text (port_number (take 2 (drop (n + 1) mem)) 0))
            ≡ parsed host port)
  unfolding parse_fixed
  parse_fixed_sound text int_text error tag n t e = elim (Bool-cases (ltb len (n + 3))) [
    | inl short ↦ absurd (ground arith)
    | inr full ↦ (
      ground arith,
      take-suc (n + 2) mem 0 (ground arith) ∙ rw t (ap (◌∷◌ tag) (take_two_parts n 1 mem)),
      ground (arith, port_number-drop mem (n + 1)),
    )
  ]

  -- What an accepted host name says about the memory.
  pub parse_domain_sound :
      (int_text : ℕ → Bytes) (n : ℕ)
      → get_or mem 0 0 ≡ 3
      → get_or mem 1 0 ≡ n
      → parse_domain int_text n mem len ≡ parsed host port
      → (n + 4 ≤ len)
        × (take (suc (suc (n + 2))) mem
            ≡ 3 ∷ n ∷ (take n (drop 2 mem) ++ take 2 (drop (n + 2) mem)))
        × (parsed (take n (drop 2 mem)) (int_text (port_number (take 2 (drop (n + 2) mem)) 0))
            ≡ parsed host port)
  unfolding parse_domain
  parse_domain_sound int_text n t c e = elim (Bool-cases (ltb len (n + 4))) [
    | inl short ↦ absurd (ground arith)
    | inr full ↦ (
      ground arith,
      take-suc (suc (n + 2)) mem 0 (ground arith)
          ∙ rw t (
              ap (◌∷◌ 3) (
                take-suc (n + 2) (drop 1 mem) 0 (ground (arith, length-drop 1 mem))
                ∙ rw (get_or-drop 1 0 mem 0, c, drop-drop 1 1 mem)
                    (ap (◌∷◌ n) (take_two_parts n 2 mem)))),
      ground (arith, port_number-drop mem (n + 2)),
    )
  ]

-- A host of `n` bytes at offset `k`, and the port behind it.
pub length_parts :
    (n k : ℕ) (mem : Bytes)
    → n + k + 2 ≤ length mem
    → length (take n (drop k mem) ++ take 2 (drop (n + k) mem)) ≡ n + 2
length_parts n k mem h = omega (
  arith,
  length-append (take n (drop k mem)) (take 2 (drop (n + k) mem)),
  length-take-drop n k mem,
  length-take-drop 2 (n + k) mem,
)

pub tag_cases : (c : ℕ) → (c ≡ 1) ⊎ ((c ≡ 4) ⊎ ((c ≡ 3) ⊎ ((c ≢ 1) × (c ≢ 4) × (c ≢ 3))))
tag_cases c = ground arith
