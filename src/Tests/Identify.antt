-- ===== src/Tests/Identify.antt =====
-- A channel's stream that the receiver waits for.
use bdspro_udp_v.Common.{[], nat_eq, refl, string_eq, true, ◌∷◌, ◌≡◌}
use bdspro_udp_v.Tcp.Registry.{Registry}
use bdspro_udp_v.Tcp.Identify.{
  IdentificationRequest, i_am_channel, got, accepted, exchange, on_answer, create_channel,
  identify_connection, identified_as, framing_of, on_accept, data_channel,
}
use bdspro_udp_v.Tcp.Identify.Handshake.{served, handshake}

abbrev waiting : Registry
waiting = record {
  registered = [];
  spawned = [];
  opened = (("node", "data"), record { queue = 3; token = 4 }) ∷ [];
}

abbrev request : IdentificationRequest
request = i_am_channel "node" "data"

handshake_example :
    (data_channel ≡ framing_of (identified_as request))
    × (on_accept waiting (identify_connection (got request) true).1 ≡ served waiting request)
unfolding create_channel exchange on_answer identify_connection
handshake_example =
    handshake request true true true (got request) (got accepted) waiting refl refl refl
