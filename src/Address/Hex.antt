-- ===== src/Address/Hex.antt =====
-- src/utils.cpp (buf_to_string): bytes as text for the log.
use ssl_socks.Base.{ℕ, ◌+◌, ◌/◌, ◌%◌, ◌≡◌, refl, [], ◌∷◌, ◌++◌, ltb, ◌==◌, if◌then◌else◌, Bytes}

abbrev pub hex_digit : ℕ → ℕ
hex_digit n = if ltb n 10 then b'0' + n else 87 + n

-- `out << a` for a byte, under std::hex.
unfoldable pub hex_byte : ℕ → Bytes
hex_byte a = if ltb a 16 then hex_digit a ∷ [] else hex_digit (a / 16) ∷ (hex_digit (a % 16) ∷ [])

-- The same, padded to std::setw(2), which holds for the next output only.
unfoldable pub hex_padded : ℕ → Bytes
unfolding hex_byte
hex_padded a = if ltb a 16 then b'0' ∷ hex_byte a else hex_byte a

-- ' ', and '\n' behind each 32 bytes.
abbrev pub hex_end : ℕ → Bytes
hex_end i = if (i + 1) % 32 == 0 then b' ' ∷ (b'\n' ∷ []) else b' ' ∷ []

-- The loop, from byte `i`, behind the first output.
unfoldable pub hex_loop : ℕ → Bytes → Bytes
unfolding hex_byte
hex_loop i [] = []
hex_loop i (a ∷ rest) = hex_byte a ++ (hex_end i ++ hex_loop (i + 1) rest)

-- buf_to_string(buf, size), for the `size` bytes at `buf`.
unfoldable pub buf_to_string : Bytes → Bytes
unfolding hex_padded hex_loop
buf_to_string [] = []
buf_to_string (a ∷ rest) = hex_padded a ++ (hex_end 0 ++ hex_loop 1 rest)

-- Only the first of two small bytes is written with two digits.
padded_once : buf_to_string (1 ∷ (2 ∷ [])) ≡ b'0' ∷ (b'1' ∷ (b' ' ∷ (b'2' ∷ (b' ' ∷ []))))
unfolding buf_to_string hex_padded hex_loop hex_byte
padded_once = refl
