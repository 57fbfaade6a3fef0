-- ===== src/Address/RoundTrip.antt =====
-- Addresses written by parse_addr, src/utils.cpp, and read back.
use ssl_socks.Address.{Sockaddr, inet, inet6, IsSockaddr, store, parse_addr, get_data_addr}
use ssl_socks.Base.{
  ℕ, ◌+◌, ◌≤◌, ◌≡◌, refl, sym, ap, ◌∙◌, [], ◌∷◌, arith, length, get_or, take, drop, write_at,
  length-write_at, take-write_at, get_or-take, take-drop-write_at_self, take-drop-write_at_before,
  drop-write_at_behind, Bytes,
}
use ssl_socks.Data.{udp_head}

-- The scope id does not travel.
abbrev pub unscoped : Sockaddr → Sockaddr
unscoped (inet a p) = inet a p
unscoped (inet6 a p s) = inet6 a p 0

module _ (tag n k : ℕ) (a p mem : Bytes) (a_len : length a ≡ n) (p_len : length p ≡ 2)
    (k_is : k ≡ n + 1) (room : k + 2 ≤ length mem) where
  length-store : length (store tag k a p mem) ≡ length mem
  unfolding store
  length-store =
      length-write_at k p (write_at 1 a (write_at 0 (tag ∷ []) mem))
      ∙ (length-write_at 1 a (write_at 0 (tag ∷ []) mem) ∙ length-write_at 0 (tag ∷ []) mem)

  store_port : take 2 (drop k (store tag k a p mem)) ≡ p
  unfolding store
  store_port = rw (← p_len) (
      take-drop-write_at_self k p (write_at 1 a (write_at 0 (tag ∷ []) mem)) (
        omega (
          arith,
          length-write_at 1 a (write_at 0 (tag ∷ []) mem),
          length-write_at 0 (tag ∷ []) mem,
        )))

  store_host : take n (drop 1 (store tag k a p mem)) ≡ a
  unfolding store
  store_host =
      take-drop-write_at_before n 1 k p (write_at 1 a (write_at 0 (tag ∷ []) mem)) (omega arith)
      ∙ rw (← a_len) (
          take-drop-write_at_self 1 a (write_at 0 (tag ∷ []) mem)
            (omega (arith, length-write_at 0 (tag ∷ []) mem)))

  store_tag : get_or (store tag k a p mem) 0 0 ≡ tag
  unfolding store
  store_tag =
      sym (get_or-take 1 0 (store tag k a p mem) 0 (omega arith))
      ∙ ap (λ (xs : Bytes). get_or xs 0 0)
          (take-drop-write_at_before 1 0 k p (write_at 1 a (write_at 0 (tag ∷ []) mem))
              (omega arith)
            ∙ (take-drop-write_at_before 1 0 1 a (write_at 0 (tag ∷ []) mem) (omega arith)
                ∙ take-write_at (tag ∷ []) mem (omega arith)))

  store_behind : (m : ℕ) → k + 2 ≤ m → drop m (store tag k a p mem) ≡ drop m mem
  unfolding store
  store_behind m h =
      drop-write_at_behind m k p _ (omega arith)
      ∙ (drop-write_at_behind m 1 a _ (omega arith)
          ∙ drop-write_at_behind m 0 (tag ∷ []) mem (omega arith))

-- Where there is room for an address, what `get_data_addr` reads is the address that `parse_addr`
-- wrote, but for the scope id, and what lies behind the room and the length stay as they were.
pub get_data_addr-parse_addr :
    (mem : Bytes) (a : Sockaddr)
    → IsSockaddr a
    → udp_head ≤ length mem
    → (get_data_addr (parse_addr mem a).0 ≡ unscoped a)
      × (drop udp_head (parse_addr mem a).0 ≡ drop udp_head mem)
      × (length (parse_addr mem a).0 ≡ length mem)
unfolding get_data_addr parse_addr
get_data_addr-parse_addr mem (inet a p) h m =
    let room : 7 ≤ length mem = omega arith in
    (
      rw
          (
            store_tag 1 4 5 a p mem h.0 h.1 refl room,
            store_host 1 4 5 a p mem h.0 h.1 refl room,
            store_port 1 4 5 a p mem h.0 h.1 refl room,
          )
          refl,
      store_behind 1 4 5 a p mem h.0 h.1 refl room udp_head (omega arith),
      length-store 1 4 5 a p mem h.0 h.1 refl room,
    )
get_data_addr-parse_addr mem (inet6 a p s) h m = (
  rw
      (
        store_tag 4 16 17 a p mem h.0 h.1 refl m,
        store_host 4 16 17 a p mem h.0 h.1 refl m,
        store_port 4 16 17 a p mem h.0 h.1 refl m,
      )
      refl,
  store_behind 4 16 17 a p mem h.0 h.1 refl m udp_head (omega arith),
  length-store 4 16 17 a p mem h.0 h.1 refl m,
)
