-- ===== src/Address/Grammar.antt =====
-- The socks5 addresses that parse_address, src/utils.cpp, accepts, described by how they are
-- written: a tag, the address or the counted host name, and two bytes of port.
mod Lemmas
use ssl_socks.Address.{
  AddressText, addr4_len, addr6_len, AddressResult, parsed, port_number, parse_fixed, parse_domain,
  parse_address,
}
use ssl_socks.Address.Grammar.Lemmas.{
  parse_fixed-append, parse_domain-append, parse_fixed-take, parse_domain-take, length-take-drop,
  parse_fixed_sound, parse_domain_sound, length_parts, tag_cases,
}
use ssl_socks.Base.{
  ℕ, suc, ◌+◌, ◌≤◌, ◌≡◌, refl, sym, ap, subst, inl, inr, ◌∷◌, ◌++◌, arith, length, get_or, take,
  drop, length-append, get_or-take, Bytes,
}

pub data Request : Type 0 where
  ip4 ip6 domain : Bytes → Bytes → Request

abbrev pub IsRequest : Request → Type 0
IsRequest (ip4 a p) = (length a ≡ 4) × (length p ≡ 2)
IsRequest (ip6 a p) = (length a ≡ 16) × (length p ≡ 2)
IsRequest (domain n p) = length p ≡ 2

unfoldable pub encode : Request → Bytes
encode (ip4 a p) = 1 ∷ (a ++ p)
encode (ip6 a p) = 4 ∷ (a ++ p)
encode (domain n p) = 3 ∷ length n ∷ (n ++ p)

abbrev pub host_text : AddressText → Request → Bytes
host_text t (ip4 a p) = t.v4_text a
host_text t (ip6 a p) = t.v6_text a
host_text t (domain n p) = n

abbrev pub port_bytes : Request → Bytes
port_bytes (ip4 a p) = p
port_bytes (ip6 a p) = p
port_bytes (domain n p) = p

-- The host and the port number, as text.
abbrev pub meaning : AddressText → Request → AddressResult
meaning t r = parsed (host_text t r) (t.int_text (port_number (port_bytes r) 0))

-- Every address, of the right size for its kind, that is written in full within the first `len`
-- bytes is accepted, with its host and port, whatever stands behind it.
pub parse_address-encode :
    (t : AddressText) (r : Request) (rest : Bytes) (len : ℕ)
    → IsRequest r
    → length (encode r) ≤ len
    → parse_address t (encode r ++ rest) len ≡ meaning t r
unfolding parse_address encode
parse_address-encode t (ip4 a p) rest len h l =
    parse_fixed-append t.v4_text t.int_text addr4_len 1 4 a p rest len h.0 h.1
      (omega (arith, length-append a p, h.0, h.1))
parse_address-encode t (ip6 a p) rest len h l =
    parse_fixed-append t.v6_text t.int_text addr6_len 4 16 a p rest len h.0 h.1
      (omega (arith, length-append a p, h.0, h.1))
parse_address-encode t (domain n p) rest len h l =
    parse_domain-append t.int_text n p rest len h (omega (arith, length-append n p, h))

-- The memory begins with the written request, within its first `len` bytes.
abbrev pub Begins : Bytes → ℕ → Request → Type 0
Begins mem len r =
    IsRequest r × (take (length (encode r)) mem ≡ encode r) × (length (encode r) ≤ len)

module _ (t : AddressText) (mem : Bytes) (len : ℕ) (inside : len ≤ length mem)
    (host port : Bytes) where
  sized :
      (m : ℕ) (part : Bytes)
      → length part ≡ m
      → m ≤ len
      → take m mem ≡ part
      → (take (length part) mem ≡ part) × (length part ≤ len)
  sized m part e h bytes = (subst (λ (k : ℕ). take k mem ≡ part) (sym e) bytes, omega arith)

  v4_Begins :
      get_or mem 0 0 ≡ 1
      → parse_fixed t.v4_text t.int_text addr4_len 4 mem len ≡ parsed host port
      → (r : Request) × Begins mem len r × (meaning t r ≡ parsed host port)
  unfolding encode
  v4_Begins c e =
      let (bound, bytes, result) =
        parse_fixed_sound mem len inside t.v4_text t.int_text addr4_len 1 4 c e in
      let (prefix, inside_len) =
        sized 7 _ (ap suc (length_parts 4 1 mem (omega arith))) bound bytes in
      (
        ip4 (take 4 (drop 1 mem)) (take 2 (drop 5 mem)),
        (
          (length-take-drop 4 1 mem (omega arith), length-take-drop 2 5 mem (omega arith)),
          prefix,
          inside_len,
        ),
        result,
      )

  v6_Begins :
      get_or mem 0 0 ≡ 4
      → parse_fixed t.v6_text t.int_text addr6_len 16 mem len ≡ parsed host port
      → (r : Request) × Begins mem len r × (meaning t r ≡ parsed host port)
  unfolding encode
  v6_Begins c e =
      let (bound, bytes, result) =
        parse_fixed_sound mem len inside t.v6_text t.int_text addr6_len 4 16 c e in
      let (prefix, inside_len) =
        sized 19 _ (ap suc (length_parts 16 1 mem (omega arith))) bound bytes in
      (
        ip6 (take 16 (drop 1 mem)) (take 2 (drop 17 mem)),
        (
          (length-take-drop 16 1 mem (omega arith), length-take-drop 2 17 mem (omega arith)),
          prefix,
          inside_len,
        ),
        result,
      )

  domain_Begins :
      (n : ℕ)
      → get_or mem 0 0 ≡ 3
      → get_or mem 1 0 ≡ n
      → parse_domain t.int_text n mem len ≡ parsed host port
      → (r : Request) × Begins mem len r × (meaning t r ≡ parsed host port)
  unfolding encode
  domain_Begins n c k e =
      let (bound, bytes, result) = parse_domain_sound mem len inside t.int_text n c k e in
      let name_len = length-take-drop n 2 mem (omega arith) in
      let (prefix, inside_len) =
        sized (suc (suc (n + 2))) _ (ap suc (ap suc (length_parts n 2 mem (omega arith))))
          (omega arith) bytes in
      (
        domain (take n (drop 2 mem)) (take 2 (drop (n + 2) mem)),
        (length-take-drop 2 (n + 2) mem (omega arith), rw name_len prefix, inside_len),
        result,
      )

  -- Where the memory has `len` bytes, parse_address accepts only a buffer that begins with a written
  -- address which lies within them, and the result is the host and the port of that address.
  pub parse_address_sound :
      parse_address t mem len ≡ parsed host port
      → (r : Request) × Begins mem len r × (meaning t r ≡ parsed host port)
  unfolding parse_address
  parse_address_sound e = elim (tag_cases (get_or mem 0 0)) [
    | inl v4 ↦ v4_Begins v4 (ground arith)
    | inr (inl v6) ↦ v6_Begins v6 (ground arith)
    | inr (inr (inl name)) ↦ domain_Begins (get_or mem 1 0) name refl (ground arith)
    | inr (inr (inr (a, b, c))) ↦ absurd (ground arith)
  ]

-- No byte behind the first `len` is read, if two are given.
pub parse_address-take :
    (t : AddressText) (mem : Bytes) (len : ℕ)
    → 2 ≤ len
    → parse_address t (take len mem) len ≡ parse_address t mem len
unfolding parse_address
parse_address-take t mem len h =
    rw
      (
        get_or-take len 0 mem 0 (omega arith),
        get_or-take len 1 mem 0 (omega arith),
        parse_fixed-take t.v4_text t.int_text addr4_len 4 mem len,
        parse_fixed-take t.v6_text t.int_text addr6_len 16 mem len,
        parse_domain-take t.int_text (get_or mem 1 0) mem len,
      )
      refl
