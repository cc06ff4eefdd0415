-- ===== src/Tests/Bridge.antt =====
-- The bridge at a buffer with two child buffers, and at the generator's buffer of counter 8.
use bdspro_udp_v.Common.{
  List, [], arith, false, map, nat_eq, refl, some, string_eq, true, ℕ, ◌∷◌, ◌≡◌,
}
use bdspro_udp_v.Tcp.Channel.{buffer}
use bdspro_udp_v.Node.Generator.{generate}
use bdspro_udp_v.Bridge.{
  SerializedTupleBuffer, set_metadata, set_data, add_child_buffer, returned, receive_buffer,
  buffer_of, taken, send_channel,
}
use bdspro_udp_v.Bridge.Carried.{Panics, receive-send, generate-Panics}

abbrev metadata : SerializedTupleBuffer
metadata = record {
  sequence_number = 4;
  origin_id = 1;
  chunk_number = 2;
  number_of_tuples = 9;
  watermark = 77;
  last_chunk = false;
}

abbrev two : List (List ℕ)
two = (1 ∷ []) ∷ (2 ∷ 3 ∷ []) ∷ []

queued :
    (send_channel metadata (5 ∷ []) two taken).0 ≡ buffer (buffer_of metadata (5 ∷ []) two) ∷ []
unfolding send_channel
queued = refl

receive-send_example :
    receive_buffer (some (buffer_of metadata (5 ∷ []) two))
    ≡ returned true (set_metadata metadata ∷ set_data (5 ∷ []) ∷ map add_child_buffer two)
receive-send_example =
    receive-send metadata (5 ∷ []) two taken (buffer_of metadata (5 ∷ []) two) queued

generate-Panics_example : Panics (receive_buffer (some (generate 8)))
generate-Panics_example = generate-Panics 8 refl (λ e. absurd (omega (arith, e)))
