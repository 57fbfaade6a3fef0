-- ===== src/Relay/Sending.antt =====
-- internal_send_data of the three classes, src/raw_tcp.cpp, src/raw_udp.cpp and src/ssl_relay.cpp:
-- the write that start_send awaits, and the test of its length.
-- What it comes back with: the length, the error of the write, an exception for a wrong length that
-- is a system_error, and one that is not: raw_tcp mixes %d with %1% in its boost::format.
use ssl_socks.Base.{
  ℕ, ◌≤◌, ◌≡◌, refl, sym, ◌∙◌, ◌↔◌, inl, inr, true, false, not, Option, none, some, arith, ◌==◌,
  if◌then◌else◌, ==_iff, Bool-cases, length, drop, length-take, length-drop, Bytes,
}
use ssl_socks.Data.{
  udp_head, RelayData, udp_data_size, data_buffer, udp_data_buffer, data_size, size, IsMessage,
}
use ssl_socks.Data.Wire.{buffers}
use ssl_socks.Data.Wire.RoundTrip.{length-data_buffer, length-buffers}
use ssl_socks.Relay.{RelayKind, raw_tcp, raw_udp, ssl_relay}

pub data SendEnd : Type 0 where
  returned : ℕ → SendEnd
  write_error length_error format_error : SendEnd

-- What is overridden in the derived classes: the buffers that are written, the size that the result
-- is compared with, and the exception where they differ.
pub record RelayClass : Type 0 where
  pub outgoing : RelayData → Bytes
  pub full_size : RelayData → ℕ
  pub refusal : SendEnd

abbrev pub tcp_class : RelayClass
tcp_class = record {
  outgoing = λ d. data_buffer d;
  full_size = λ d. data_size d;
  refusal = format_error;
}

abbrev pub udp_class : RelayClass
udp_class = record {
  outgoing = λ d. udp_data_buffer d;
  full_size = λ d. udp_data_size d;
  refusal = length_error;
}

abbrev pub tls_class : RelayClass
tls_class = record { outgoing = buffers; full_size = λ d. size d; refusal = length_error }

unfoldable pub class_of : RelayKind → RelayClass
class_of raw_tcp = tcp_class
class_of raw_udp = udp_class
class_of ssl_relay = tls_class

-- internal_send_data(buf), where the write gives a length or an error.
unfoldable pub internal_send_data : RelayClass → RelayData → Option ℕ → SendEnd
internal_send_data c d none = write_error
internal_send_data c d (some n) = if not (n == c.full_size d) then c.refusal else returned n

-- A message of the program, that holds an address if it is sent as a datagram.
abbrev pub IsSent : RelayKind → RelayData → Type 0
IsSent raw_udp d = IsMessage d × (udp_head ≤ d.len)
IsSent _ d = IsMessage d

expected_length :
    (k : RelayKind) (d : RelayData)
    → IsSent k d
    → (class_of k).full_size d ≡ length ((class_of k).outgoing d)
unfolding class_of
expected_length raw_tcp d h = sym (length-data_buffer d h)
expected_length raw_udp d h = omega (
  arith,
  length-take (udp_data_size d) (drop udp_head d.bytes),
  length-drop udp_head d.bytes,
  h.0.fits,
  h.0.buffer,
  h.1,
)
expected_length ssl_relay d h = sym (length-buffers d h)

refusal_not : (k : RelayKind) (n : ℕ) → (class_of k).refusal ≡ returned n → ⊥
unfolding class_of
refusal_not raw_tcp n e = cc
refusal_not raw_udp n e = cc
refusal_not ssl_relay n e = cc

-- A write of a message is taken for complete, by each class of relay, exactly if its length is that
-- of the bytes that the class had to write: the size that it is compared with is the right one.
pub internal_send_data_complete :
    (k : RelayKind) (d : RelayData) (n : ℕ)
    → IsSent k d
    → (internal_send_data (class_of k) d (some n) ≡ returned n)
      ↔ (n ≡ length ((class_of k).outgoing d))
unfolding internal_send_data
internal_send_data_complete k d n h =
    let size_is = expected_length k d h in
    elim (Bool-cases (n == (class_of k).full_size d)) [
      | inl same ↦ rw same (λ e. (==_iff n ((class_of k).full_size d)).0 same ∙ size_is, λ e. refl)
      | inr other ↦ rw other (
        λ e. absurd (refusal_not k n e),
        λ e.
            absurd (
              true_false (sym ((==_iff n ((class_of k).full_size d)).1 (e ∙ sym size_is)) ∙ other)),
      )
    ]
  where
    true_false : true ≡ false → ⊥
    true_false e = cc
