-- ===== src/Address.antt =====
-- src/utils.cpp (parse_addr, parse_address) and the reader of src/raw_udp.cpp (get_data_addr):
-- socket addresses in the socks5 form in which they travel in front of the data.
pub mod RoundTrip
pub mod Grammar
pub mod Hex
mod Tests
use ssl_socks.Base.{
  ℕ, ◌+◌, ◌*◌, ◌≡◌, ◌↔◌, Bool, true, false, ◌&&◌, [], ◌∷◌, arith, ltb, ◌==◌, if◌then◌else◌, length,
  get_or, take, drop, write_at, Bytes, equal, equal_iff, Eq,
}

-- A sockaddr_in, by its address and port bytes in network order, or a sockaddr_in6, with its
-- scope id behind them. A udp::endpoint is one of these.
pub data Sockaddr : Type 0 where
  inet : Bytes → Bytes → Sockaddr
  inet6 : Bytes → Bytes → ℕ → Sockaddr

pub sockaddr_beq : Sockaddr → Sockaddr → Bool
sockaddr_beq (inet a p) (inet b q) = equal a b && equal p q
sockaddr_beq (inet6 a p s) (inet6 b q t) = equal a b && (equal p q && s == t)
sockaddr_beq _ _ = false

pub sockaddr_beq_iff : (a b : Sockaddr) → (sockaddr_beq a b ≡ true) ↔ (a ≡ b)
unfolding sockaddr_beq
sockaddr_beq_iff (inet a p) (inet b q) = ground (arith, equal_iff a b, equal_iff p q)
sockaddr_beq_iff (inet6 a p s) (inet6 b q t) = ground (arith, equal_iff a b, equal_iff p q)
sockaddr_beq_iff _ _ = ground arith

instance abbrev pub endpoint_eq : Eq Sockaddr
endpoint_eq = record { beq = sockaddr_beq; beq_iff = sockaddr_beq_iff }

abbrev pub IsSockaddr : Sockaddr → Type 0
IsSockaddr (inet a p) = (length a ≡ 4) × (length p ≡ 2)
IsSockaddr (inet6 a p s) = (length a ≡ 16) × (length p ≡ 2)

-- udp::endpoint(udp::v6(), 0)
abbrev pub any6 : Sockaddr
any6 = inet6 (0 ∷ 0 ∷ 0 ∷ 0 ∷ 0 ∷ 0 ∷ 0 ∷ 0 ∷ 0 ∷ 0 ∷ 0 ∷ 0 ∷ 0 ∷ 0 ∷ 0 ∷ 0 ∷ []) (0 ∷ 0 ∷ []) 0

-- udp::endpoint(), which a fresh entry of a map holds.
abbrev pub any4 : Sockaddr
any4 = inet (0 ∷ 0 ∷ 0 ∷ 0 ∷ []) (0 ∷ 0 ∷ [])

-- The tag at offset 0, the address at 1, and the port at `k`.
unfoldable pub store : ℕ → ℕ → Bytes → Bytes → Bytes → Bytes
store tag k a p mem = write_at k p (write_at 1 a (write_at 0 (tag ∷ []) mem))

-- parse_addr(pdata, addr): the memory at `pdata` afterwards, and the size that is returned.
unfoldable pub parse_addr : Bytes → Sockaddr → Bytes × ℕ
parse_addr mem (inet a p) = (store 1 5 a p mem, 7)
parse_addr mem (inet6 a p s) = (store 4 17 a p mem, 19)

-- get_data_addr(data)
unfoldable pub get_data_addr : Bytes → Sockaddr
get_data_addr mem =
    if get_or mem 0 0 == 1
    then inet (take 4 (drop 1 mem)) (take 2 (drop 5 mem))
    else if get_or mem 0 0 == 4
    then inet6 (take 16 (drop 1 mem)) (take 2 (drop 17 mem)) 0
    else any6

-- What the program takes from asio and boost: the text of an address, and of a number.
pub record AddressText : Type 0 where
  pub v4_text : Bytes → Bytes
  pub v6_text : Bytes → Bytes
  pub int_text : ℕ → Bytes

-- The errors that parse_address throws.
pub data AddressError : Type 0 where
  addr4_len addr6_len host_len_error : ℕ → AddressError
  unsupported : ℕ → AddressError

pub data AddressResult : Type 0 where
  parsed : Bytes → Bytes → AddressResult
  refused : AddressError → AddressResult

-- port[0]<<8 | port[1], of two bytes.
abbrev pub port_number : Bytes → ℕ → ℕ
port_number mem k = get_or mem k 0 * 256 + get_or mem (k + 1) 0

-- An address of `n` bytes: the length check, then the host and the port behind it.
unfoldable pub parse_fixed :
    (Bytes → Bytes) → (ℕ → Bytes) → (ℕ → AddressError) → ℕ → Bytes → ℕ → AddressResult
parse_fixed text int_text error n mem len =
    if ltb len (n + 3)
    then refused (error len)
    else parsed (text (take n (drop 1 mem))) (int_text (port_number mem (n + 1)))

-- A host name, counted by the byte before it.
unfoldable pub parse_domain : (ℕ → Bytes) → ℕ → Bytes → ℕ → AddressResult
parse_domain int_text host_len mem len =
    if ltb len (host_len + 4)
    then refused (host_len_error len)
    else parsed (take host_len (drop 2 mem)) (int_text (port_number mem (host_len + 2)))

-- parse_address(buf, len)
unfoldable pub parse_address : AddressText → Bytes → ℕ → AddressResult
parse_address t mem len =
    let cmd = get_or mem 0 0 in
    if cmd == 1
    then parse_fixed t.v4_text t.int_text addr4_len 4 mem len
    else if cmd == 4
    then parse_fixed t.v6_text t.int_text addr6_len 16 mem len
    else if cmd == 3
    then parse_domain t.int_text (get_or mem 1 0) mem len
    else refused (unsupported cmd)
