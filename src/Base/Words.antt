-- ===== src/Base/Words.antt =====
-- Little-endian words of any width, as a value lies in memory on the platforms that are served.
use Prim.Native.Nat.{ℕ, zero, suc, ◌+◌, ◌*◌, ◌/◌, ◌%◌, ◌^◌, ◌≤◌, ◌<◌}
use mathlib.Core.Path.{◌≡◌, refl, ap}
use mathlib.Core.List.{[], ◌∷◌}
use native.Mathlib.Omega.{arith}
use native.Mathlib.Nat.{pow-suc}
use ssl_socks.Base.Lists.{length, Bytes}

unfoldable pub to_le : ℕ → ℕ → Bytes
to_le zero n = []
to_le (suc w) n = (n % 256) ∷ to_le w (n / 256)

unfoldable pub of_le : Bytes → ℕ
of_le [] = 0
of_le (b ∷ bs) = b + 256 * of_le bs

pub length-to_le : (w n : ℕ) → length (to_le w n) ≡ w
unfolding to_le
length-to_le zero n = refl
length-to_le (suc w) n = ap suc (length-to_le w (n / 256))

pub of_le-to_le : (w n : ℕ) → n < 256 ^ w → of_le (to_le w n) ≡ n
unfolding of_le to_le
of_le-to_le zero n h = omega arith
of_le-to_le (suc w) n h = omega (arith, of_le-to_le w (n / 256) (omega (arith, pow-suc 256 w)))

abbrev pub AllOctets : Bytes → Type 0
AllOctets [] = Unit {0}
AllOctets (b ∷ bs) = (b < 256) × AllOctets bs

-- Octets in a word of a width that holds them.
pub of_le-lt : (w : ℕ) (bs : Bytes) → AllOctets bs → length bs ≤ w → of_le bs < 256 ^ w
unfolding of_le
of_le-lt zero [] h l = omega arith
of_le-lt zero (b ∷ bs) h l = absurd (omega arith)
of_le-lt (suc w) [] h l = omega (arith, pow-suc 256 w, of_le-lt w [] tt (omega arith))
of_le-lt (suc w) (b ∷ bs) h l = omega (arith, h.0, pow-suc 256 w, of_le-lt w bs h.1 (omega arith))
