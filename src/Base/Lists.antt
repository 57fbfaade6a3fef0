-- ===== src/Base/Lists.antt =====
-- Lists measured and indexed by native numbers, under the library's names, and byte buffers.
use Prim.Native.Nat.{ℕ, zero, suc, ◌+◌, ◌-◌, ◌≤◌, ◌<◌, min}
use mathlib.Core.Path.{◌≡◌, refl, ap}
use mathlib.Core.List.{List, [], ◌∷◌, ◌++◌}
use native.Mathlib.Omega.{arith}
use native.Mathlib.Nat.{zero-add, suc-add}

module _ {ℓ} {A : Type ℓ} where
  abbrev pub length : List A → ℕ
  length [] = 0
  length (x ∷ xs) = suc (length xs)

  abbrev pub get_or : List A → ℕ → A → A
  get_or [] i d = d
  get_or (x ∷ xs) zero d = x
  get_or (x ∷ xs) (suc i) d = get_or xs i d

  abbrev pub take : ℕ → List A → List A
  take zero xs = []
  take (suc n) [] = []
  take (suc n) (x ∷ xs) = x ∷ take n xs

  abbrev pub drop : ℕ → List A → List A
  drop zero xs = xs
  drop (suc n) [] = []
  drop (suc n) (x ∷ xs) = drop n xs

  -- Shut, so that a buffer of 4096 bytes is not written out in a goal.
  unfoldable pub replicate : ℕ → A → List A
  replicate zero a = []
  replicate (suc n) a = a ∷ replicate n a

  -- `memcpy(&dst[n], src, size of src)`; what would fall behind the end of `dst` is lost.
  unfoldable pub write_at : ℕ → List A → List A → List A
  write_at n src [] = []
  write_at zero [] (y ∷ ys) = y ∷ ys
  write_at zero (x ∷ xs) (y ∷ ys) = x ∷ write_at zero xs ys
  write_at (suc n) src (y ∷ ys) = y ∷ write_at n src ys

  pub length-append : (xs ys : List A) → length (xs ++ ys) ≡ length xs + length ys
  length-append [] ys = omega arith
  length-append (x ∷ xs) ys = omega (arith, length-append xs ys)

  pub length-take : (n : ℕ) (xs : List A) → length (take n xs) ≡ min n (length xs)
  length-take zero xs = omega arith
  length-take (suc n) [] = omega arith
  length-take (suc n) (x ∷ xs) = omega (arith, length-take n xs)

  pub length-drop : (n : ℕ) (xs : List A) → length (drop n xs) ≡ length xs - n
  length-drop zero xs = omega arith
  length-drop (suc n) [] = omega arith
  length-drop (suc n) (x ∷ xs) = omega (arith, length-drop n xs)

  pub length-replicate : (n : ℕ) (a : A) → length (replicate n a) ≡ n
  unfolding replicate
  length-replicate zero a = refl
  length-replicate (suc n) a = ap suc (length-replicate n a)

  pub take-length_append : (xs ys : List A) → take (length xs) (xs ++ ys) ≡ xs
  take-length_append [] ys = refl
  take-length_append (x ∷ xs) ys = ap (◌∷◌ x) (take-length_append xs ys)

  pub drop-length_append : (xs ys : List A) → drop (length xs) (xs ++ ys) ≡ ys
  drop-length_append [] ys = refl
  drop-length_append (x ∷ xs) ys = drop-length_append xs ys

  pub take-append-drop : (n : ℕ) (xs : List A) → take n xs ++ drop n xs ≡ xs
  take-append-drop zero xs = refl
  take-append-drop (suc n) [] = refl
  take-append-drop (suc n) (x ∷ xs) = ap (◌∷◌ x) (take-append-drop n xs)

  pub length-write_at : (n : ℕ) (src dst : List A) → length (write_at n src dst) ≡ length dst
  unfolding write_at
  length-write_at n src [] = refl
  length-write_at zero [] (y ∷ ys) = refl
  length-write_at zero (x ∷ xs) (y ∷ ys) = ap suc (length-write_at zero xs ys)
  length-write_at (suc n) src (y ∷ ys) = ap suc (length-write_at n src ys)

  -- What was written at the front is read back.
  pub take-write_at :
      (src dst : List A) → length src ≤ length dst → take (length src) (write_at 0 src dst) ≡ src
  unfolding write_at
  take-write_at [] dst h = refl
  take-write_at (x ∷ xs) [] h = elim h [ ]
  take-write_at (x ∷ xs) (y ∷ ys) h = ap (◌∷◌ x) (take-write_at xs ys (omega arith))

  -- A read below `n` sees only the first `n` elements.
  pub get_or-take : (n i : ℕ) (xs : List A) (d : A) → i < n → get_or (take n xs) i d ≡ get_or xs i d
  get_or-take zero i xs d h = elim h [ ]
  get_or-take (suc n) i [] d h = refl
  get_or-take (suc n) zero (x ∷ xs) d h = refl
  get_or-take (suc n) (suc i) (x ∷ xs) d h = get_or-take n i xs d (omega arith)

  pub take-take : (m n : ℕ) (xs : List A) → m ≤ n → take m (take n xs) ≡ take m xs
  take-take zero n xs h = refl
  take-take (suc m) zero xs h = elim h [ ]
  take-take (suc m) (suc n) [] h = refl
  take-take (suc m) (suc n) (x ∷ xs) h = ap (◌∷◌ x) (take-take m n xs (omega arith))

  pub take-drop-take :
      (m k n : ℕ) (xs : List A) → k + m ≤ n → take m (drop k (take n xs)) ≡ take m (drop k xs)
  take-drop-take m zero n xs h = take-take m n xs (omega arith)
  take-drop-take m (suc k) zero xs h = absurd (omega arith)
  take-drop-take m (suc k) (suc n) [] h = refl
  take-drop-take m (suc k) (suc n) (x ∷ xs) h = take-drop-take m k n xs (omega arith)

-- What a write leaves alone, and what it puts in place.
module _ {ℓ} {A : Type ℓ} where
  pub take-drop-write_at_self :
      (n : ℕ) (src dst : List A)
      → n + length src ≤ length dst
      → take (length src) (drop n (write_at n src dst)) ≡ src
  unfolding write_at
  take-drop-write_at_self zero src dst h = take-write_at src dst (omega arith)
  take-drop-write_at_self (suc n) src [] h = absurd (omega arith)
  take-drop-write_at_self (suc n) src (y ∷ ys) h = take-drop-write_at_self n src ys (omega arith)

  pub take-drop-write_at_before :
      (k m n : ℕ) (src dst : List A)
      → m + k ≤ n
      → take k (drop m (write_at n src dst)) ≡ take k (drop m dst)
  unfolding write_at
  take-drop-write_at_before zero m n src dst h = refl
  take-drop-write_at_before (suc k) m n src [] h = refl
  take-drop-write_at_before (suc k) m zero src (y ∷ ys) h = absurd (omega arith)
  take-drop-write_at_before (suc k) zero (suc n) src (y ∷ ys) h =
      ap (◌∷◌ y) (take-drop-write_at_before k zero n src ys (omega arith))
  take-drop-write_at_before (suc k) (suc m) (suc n) src (y ∷ ys) h =
      take-drop-write_at_before (suc k) m n src ys (omega arith)

  pub drop-write_at_behind :
      (m n : ℕ) (src dst : List A) → n + length src ≤ m → drop m (write_at n src dst) ≡ drop m dst
  unfolding write_at
  drop-write_at_behind m n src [] h = refl
  drop-write_at_behind m zero [] (y ∷ ys) h = refl
  drop-write_at_behind zero zero (x ∷ xs) (y ∷ ys) h = absurd (omega arith)
  drop-write_at_behind (suc m) zero (x ∷ xs) (y ∷ ys) h =
      drop-write_at_behind m zero xs ys (omega arith)
  drop-write_at_behind zero (suc n) src (y ∷ ys) h = absurd (omega arith)
  drop-write_at_behind (suc m) (suc n) src (y ∷ ys) h =
      drop-write_at_behind m n src ys (omega arith)

  pub get_or-drop : (m i : ℕ) (xs : List A) (d : A) → get_or (drop m xs) i d ≡ get_or xs (m + i) d
  get_or-drop zero i xs d = rw zero-add
  get_or-drop (suc m) i [] d = refl
  get_or-drop (suc m) i (x ∷ xs) d = rw suc-add (get_or-drop m i xs d)

-- Bytes are numbers; that they are below 256 is stated where it matters.
abbrev pub Bytes : Type 0
Bytes = List ℕ

module _ {ℓ} {A : Type ℓ} where
  -- Writing at the front puts the one in place of the other's first elements.
  pub write_at-append :
      (src dst : List A)
      → length src ≤ length dst
      → write_at 0 src dst ≡ src ++ drop (length src) dst
  unfolding write_at
  write_at-append [] [] h = refl
  write_at-append [] (y ∷ ys) h = refl
  write_at-append (x ∷ xs) [] h = absurd (omega (arith, h))
  write_at-append (x ∷ xs) (y ∷ ys) h = ap (◌∷◌ x) (write_at-append xs ys (omega arith))

  -- Writing behind a front part leaves that as it is.
  pub write_at-append_behind :
      (front src dst : List A)
      → write_at (length front) src (front ++ dst) ≡ front ++ write_at 0 src dst
  unfolding write_at
  write_at-append_behind [] src dst = refl
  write_at-append_behind (x ∷ xs) src dst = ap (◌∷◌ x) (write_at-append_behind xs src dst)
