-- ===== src/Base/Maps.antt =====
-- Maps as association lists over a key type with a Boolean equality.
use mathlib.Core.Path.{◌≡◌, refl}
use mathlib.Core.Logic.{◌↔◌}
use mathlib.Core.Bool.{Bool, true, false}
use mathlib.Core.Option.{Option, none, some}
use mathlib.Core.List.{List, [], ◌∷◌}
use Prim.Native.Nat.{ℕ}
use native.Mathlib.Omega.{arith}
use ssl_socks.Base.Lists.{Bytes}
use ssl_socks.Base.Tests.{◌==◌, ==_iff, if◌then◌else◌}

pub record Eq {ℓ} (K : Type ℓ) : Type ℓ where
  pub beq : K → K → Bool
  pub beq_iff : (a b : K) → (beq a b ≡ true) ↔ (a ≡ b)

abbrev nat_beq : ℕ → ℕ → Bool
nat_beq a b = a == b

instance abbrev pub nat_eq : Eq ℕ
nat_eq = record { beq = nat_beq; beq_iff = ==_iff }

-- Equality of byte strings.
unfoldable pub equal : (xs ys : Bytes) → Bool
equal (c ∷ cs) (d ∷ ds) = if c == d then equal cs ds else false
equal [] (d ∷ ds) = false
equal (c ∷ cs) [] = false
equal [] [] = true

pub equal_iff : (xs ys : Bytes) → (equal xs ys ≡ true) ↔ (xs ≡ ys)
unfolding equal
equal_iff [] [] = ground arith
equal_iff [] (d ∷ ds) = ground arith
equal_iff (c ∷ cs) [] = ground arith
equal_iff (c ∷ cs) (d ∷ ds) = let rest = equal_iff cs ds in ground (rest, arith)

module _ {ℓ κ} {K : Type ℓ} {V : Type κ} ⦃e : Eq K⦄ where
  unfoldable pub lookup : (key : K) → List (K × V) → Option V
  lookup key ((k, old) ∷ rest) = if e.beq k key then some old else lookup key rest
  lookup key [] = none

  unfoldable pub insert : (key : K) (new : V) → List (K × V) → List (K × V)
  insert key new ((k, old) ∷ rest) =
      if e.beq k key then (key, new) ∷ rest else (k, old) ∷ insert key new rest
  insert key new [] = (key, new) ∷ []

  unfoldable pub erase : (key : K) → List (K × V) → List (K × V)
  erase key ((k, old) ∷ rest) = if e.beq k key then erase key rest else (k, old) ∷ erase key rest
  erase key [] = []

  pub lookup-insert :
      (key other : K) (new : V) (m : List (K × V))
      → lookup other (insert key new m) ≡ (if e.beq key other then some new else lookup other m)
  unfolding insert lookup
  lookup-insert key other new [] = refl
  lookup-insert key other new ((k, old) ∷ rest) =
      let later = lookup-insert key other new rest in
      ground (later, arith, e.beq_iff key other, e.beq_iff k key, e.beq_iff k other)

  pub insert-insert :
      (key : K) (old new : V) (m : List (K × V))
      → insert key new (insert key old m) ≡ insert key new m
  unfolding insert
  insert-insert key old new [] = rw ((e.beq_iff key key).1 refl) refl
  insert-insert key old new ((k, v) ∷ rest) =
      let later = insert-insert key old new rest in
      ground (later, arith, (e.beq_iff key key).1 refl)

  pub lookup-erase :
      (key other : K) (m : List (K × V))
      → lookup other (erase key m) ≡ (if e.beq key other then none else lookup other m)
  unfolding erase lookup
  lookup-erase key other [] = ground arith
  lookup-erase key other ((k, old) ∷ rest) =
      let later = lookup-erase key other rest in
      ground (later, arith, e.beq_iff key other, e.beq_iff k key, e.beq_iff k other)

pub beq_refl {ℓ} : {K : Type ℓ} ⦃e : Eq K⦄ (k : K) → e.beq k k ≡ true
beq_refl ⦃e⦄ k = (e.beq_iff k k).1 refl
