-- ===== src/Address/Tests.antt =====
-- Tests of addresses.
use ssl_socks.Address.{
  Sockaddr, inet6, parse_addr, get_data_addr, AddressText, host_len_error, unsupported, parsed,
  refused, parse_domain, parse_address,
}
use ssl_socks.Address.Grammar.{
  Request, domain, encode, meaning, parse_address-encode, Begins, parse_address_sound,
  parse_address-take,
}
use ssl_socks.Address.RoundTrip.{unscoped, get_data_addr-parse_addr}
use ssl_socks.Base.{◌≡◌, refl, [], ◌∷◌, ◌++◌, arith, length, take, drop, replicate, Bytes}
use ssl_socks.Data.{udp_head}

abbrev texts : AddressText
texts = record { v4_text = λ a. a; v6_text = λ a. a; int_text = λ n. n ∷ [] }

abbrev site : Request
site = domain (b'a' ∷ b'.' ∷ b'i' ∷ b'o' ∷ []) (1 ∷ 187 ∷ [])

-- The port is 443, and the tag 2 is refused.
domain_test :
    parse_address texts (encode site) 8 ≡ parsed (b'a' ∷ b'.' ∷ b'i' ∷ b'o' ∷ []) (443 ∷ [])
unfolding parse_address parse_domain encode
domain_test = refl

short_test : parse_address texts (encode site) 7 ≡ refused (host_len_error 7)
unfolding parse_address parse_domain encode
short_test = refl

bind_test : parse_address texts (2 ∷ []) 9 ≡ refused (unsupported 2)
unfolding parse_address
bind_test = refl

site-length : length (encode site) ≡ 8
unfolding encode
site-length = refl

parse_address-encode_example : parse_address texts (encode site ++ 9 ∷ []) 9 ≡ meaning texts site
parse_address-encode_example =
    parse_address-encode texts site (9 ∷ []) 9 refl (rw site-length (omega arith))

parse_address_sound_example :
    (r : Request) × Begins (encode site) 8 r
    × (meaning texts r ≡ parsed (b'a' ∷ b'.' ∷ b'i' ∷ b'o' ∷ []) (443 ∷ []))
parse_address_sound_example =
    parse_address_sound texts (encode site) 8 (rw site-length (omega arith))
      (b'a' ∷ b'.' ∷ b'i' ∷ b'o' ∷ []) (443 ∷ []) domain_test

parse_address-take_test :
    parse_address texts (take 6 (encode site)) 6 ≡ parse_address texts (encode site) 6
parse_address-take_test = parse_address-take texts (encode site) 6 (omega arith)

abbrev sevens : Bytes
sevens = replicate 20 7

sevens-length : length sevens ≡ 20
unfolding replicate
sevens-length = refl

abbrev peer : Sockaddr
peer = inet6 (0 ∷ 0 ∷ 0 ∷ 0 ∷ 0 ∷ 0 ∷ 0 ∷ 0 ∷ 0 ∷ 0 ∷ 0 ∷ 0 ∷ 0 ∷ 0 ∷ 0 ∷ 1 ∷ []) (0 ∷ 53 ∷ []) 4

get_data_addr-parse_addr_test :
    (get_data_addr (parse_addr (sevens) peer).0 ≡ unscoped peer)
    × (drop udp_head (parse_addr (sevens) peer).0 ≡ drop udp_head (sevens))
    × (length (parse_addr (sevens) peer).0 ≡ length (sevens))
get_data_addr-parse_addr_test =
    get_data_addr-parse_addr (sevens) peer (refl, refl) (omega (arith, sevens-length))
