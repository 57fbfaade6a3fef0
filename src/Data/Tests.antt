-- ===== src/Data/Tests.antt =====
-- Tests of the message and of its form on the stream.
use ssl_socks.Base.{
  ◌+◌, ◌≤◌, ◌≡◌, refl, ap, ◌∙◌, [], ◌∷◌, ◌++◌, map, arith, length, drop, replicate, length-append,
  length-replicate, Bytes,
}
use ssl_socks.Base.Words.{to_le, of_le}
use ssl_socks.Data.{
  read_buffer_size, data_tcp, RelayData, for_session, header_size, data_buffer, IsMessage,
}
use ssl_socks.Data.Wire.{
  command_code, command_of, header_bytes, buffers, ok, parse_header, read_body, read_message, seen,
  read_messages, write_messages,
}
use ssl_socks.Data.Wire.Bounds.{AllMessages, read_messages-AllMessages}
use ssl_socks.Data.Wire.RoundTrip.{read_message-buffers, read_messages-write_messages}
use ssl_socks.Data.Wire.Rounds.{read_messages-enough}
use ssl_socks.Data.Wire.Safety.{read_message-IsSafe}

abbrev greeting : RelayData
greeting = record {
  session = 7;
  cmd = data_tcp;
  len = 5;
  bytes = (b'h' ∷ b'e' ∷ b'l' ∷ b'l' ∷ b'o' ∷ []) ++ replicate 4091 0;
}

greeting-IsMessage : IsMessage greeting
greeting-IsMessage = record {
  fits = omega arith;
  buffer =
      length-append (b'h' ∷ b'e' ∷ b'l' ∷ b'l' ∷ b'o' ∷ []) (replicate 4091 0)
      ∙ ap (λ n. 5 + n) (length-replicate 4091 0);
  word = omega arith;
}

-- A header of session 258, DATA_TCP and length 5.
header_test :
    header_bytes (record greeting { session = 258 })
    ≡ 2 ∷ 1 ∷ 0 ∷ 0 ∷ 3 ∷ 0 ∷ 0 ∷ 0 ∷ 5 ∷ 0 ∷ 0 ∷ 0 ∷ 0 ∷ 0 ∷ 0 ∷ 0 ∷ []
unfolding header_bytes command_code to_le
header_test = refl

read_message-buffers_test :
    (d' : RelayData) × (read_message header_size (buffers greeting ++ 1 ∷ []) ≡ ok (d', 1 ∷ []))
    × (seen d' ≡ seen greeting)
read_message-buffers_test = read_message-buffers greeting (1 ∷ []) greeting-IsMessage tt

abbrev greeting_read : RelayData
greeting_read = (read_message-buffers greeting (1 ∷ []) greeting-IsMessage tt).0

read_message-IsSafe_example :
    (header_size ≡ header_size)
    × (greeting_read.len ≤ read_buffer_size)
    × (length greeting_read.bytes ≡ read_buffer_size)
    × (drop header_size (buffers greeting ++ 1 ∷ []) ≡ data_buffer greeting_read ++ 1 ∷ [])
read_message-IsSafe_example =
    read_message-IsSafe header_size (buffers greeting ++ 1 ∷ [])
      (read_message-buffers greeting (1 ∷ []) greeting-IsMessage tt).1

read_messages-write_messages_example :
    map (λ d. seen d) (read_messages 3 (write_messages (greeting ∷ greeting ∷ [])))
    ≡ map (λ d. seen d) (greeting ∷ greeting ∷ [])
read_messages-write_messages_example =
    read_messages-write_messages (greeting ∷ greeting ∷ []) 3
      (greeting-IsMessage, tt, (greeting-IsMessage, tt, tt)) (omega arith)

-- A message that is cut off.
read_messages-enough_example :
    read_messages 3 (2 ∷ (0 ∷ (0 ∷ []))) ≡ read_messages 9 (2 ∷ (0 ∷ (0 ∷ [])))
read_messages-enough_example =
    read_messages-enough 3 9 (2 ∷ (0 ∷ (0 ∷ []))) (omega arith) (omega arith)

-- A header of session 7 and DATA_TCP with two bytes of data.
abbrev short_stream : Bytes
short_stream =
    7 ∷ (0 ∷ (0 ∷ (0 ∷ (3 ∷ (0 ∷ (0 ∷ (0 ∷ (2 ∷ (replicate 7 0 ++ (104 ∷ (105 ∷ [])))))))))))

short_stream_test : map (λ d. d.session) (read_messages 2 short_stream) ≡ 7 ∷ []
unfolding read_messages read_message parse_header read_body replicate of_le command_of for_session
short_stream_test = refl

read_messages-AllMessages_example : AllMessages (read_messages 2 short_stream)
unfolding replicate
read_messages-AllMessages_example = read_messages-AllMessages 2 short_stream (omega arith)
