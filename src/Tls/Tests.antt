-- ===== src/Tls/Tests.antt =====
-- Tests of the start of a TLS relay.
-- The handshake fails.
use ssl_socks.Base.{◌≡◌, refl, true, false, List, [], ◌∷◌, ◌++◌, take, replicate, Bytes}
use ssl_socks.Base.Words.{of_le}
use ssl_socks.Config.{default_config}
use ssl_socks.Data.{stop_tcp, for_session}
use ssl_socks.Data.Wire.{command_of, parse_header, read_body, read_message, read_messages}
use ssl_socks.Manager.World.{is_remote}
use ssl_socks.Relay.{remote_server}
use ssl_socks.Tls.{
  tls_server, role_of, TlsIo, sets_no_delay, shakes_hands, gives_up, attempt, tls_steps, start_tls,
}
use ssl_socks.Tls.Opening.{OpensOrNot, steps_in_order, start_tls-OpensOrNot}
use ssl_socks.Tls.Reading.{
  handles, throws_error, TlsRound, resets_tls, stops_tls, responds, hand_over, tls_read,
  read_arrived, header_lengths, answers, responses, stops, given, stopped_by, wholes,
  tls_read-Gives,
}

abbrev no_handshake : TlsIo
no_handshake = record { resolves = true; connects = true; sets_option = true; shakes = false }

start_tls-OpensOrNot_example :
    OpensOrNot
      (steps_in_order (is_remote default_config.type) default_config no_handshake)
      (start_tls default_config no_handshake)
start_tls-OpensOrNot_example = start_tls-OpensOrNot default_config no_handshake

failed_test :
    start_tls (record default_config { type = remote_server }) no_handshake
    ≡ sets_no_delay ∷ (shakes_hands tls_server ∷ (gives_up ∷ []))
unfolding start_tls tls_steps attempt role_of
failed_test = refl

-- A stream that is cut off within its second message; the first has no data.
abbrev cut_stream : Bytes
cut_stream = replicate 16 0 ++ (7 ∷ (0 ∷ []))

-- The manager handles the first message.
abbrev two_rounds : List TlsRound
two_rounds =
    record { there = 16; answer = handles } ∷ (record { there = 16; answer = handles } ∷ [])

tls_read-Gives_example :
    (responses (tls_read two_rounds cut_stream)
      ≡ given (answers two_rounds) (read_arrived (header_lengths two_rounds) cut_stream))
    × (stops (tls_read two_rounds cut_stream)
        ≡ stopped_by (answers two_rounds) (read_arrived (header_lengths two_rounds) cut_stream))
    × (read_arrived (header_lengths two_rounds) cut_stream
        ≡ take (wholes (header_lengths two_rounds)) (read_messages 2 cut_stream))
tls_read-Gives_example = tls_read-Gives two_rounds cut_stream

-- The manager throws at the first message.
thrown_test :
    tls_read (record { there = 16; answer = throws_error } ∷ []) cut_stream
    ≡ resets_tls
      ∷ (responds (record (for_session 0) { cmd = stop_tcp; len = 0 }) ∷ (stops_tls ∷ []))
unfolding tls_read hand_over read_message parse_header read_body command_of of_le replicate
    for_session
thrown_test = refl

-- A header that comes in part.
part_test : tls_read (record { there = 9; answer = handles } ∷ []) cut_stream ≡ stops_tls ∷ []
unfolding tls_read read_message parse_header replicate
part_test = refl
