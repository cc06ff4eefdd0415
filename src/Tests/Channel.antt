-- ===== src/Tests/Channel.antt =====
-- The end of a data channel at a buffer that is sent, acknowledged and flushed.
use bdspro_udp_v.Common.{
  none, [], arith, false, nat_eq, refl, some, string_eq, true, ℕ, ◌+◌, ◌∷◌, ◌≡◌, ◌≤◌,
}
use bdspro_udp_v.HashMap
use bdspro_udp_v.HashMap.{HashMap}
use bdspro_udp_v.Tcp.Protocol.{sequence_eq, TupleBuffer, sequence, ack_data}
use bdspro_udp_v.Tcp.Channel.{
  max_pending_acks, buffer, flush, ChannelHandler, new, fed, got, running, flushing, goes, Pick,
  token, response, request, sent, Turn, turn,
}
use bdspro_udp_v.Tcp.Channel.History.{
  acknowledged_in, Reach, start, next, hits, occurrences, present,
}
use bdspro_udp_v.Tcp.Channel.Dropped.{dropped_send_waits}
use bdspro_udp_v.Tcp.Channel.Held.{every_buffer_held}
use bdspro_udp_v.Tcp.Channel.Flush.{flush_acknowledged}

abbrev pub chunk : ℕ → TupleBuffer
chunk n = record {
  sequence_number = n;
  origin_id = 1;
  watermark = 0;
  chunk_number = 1;
  number_of_tuples = 1;
  last_chunk = true;
  bytes = n ∷ [];
  child_buffers = [];
}

abbrev picks : Pick → Turn
picks pick = record { wrote = true; is_cancelled = false; pick = pick }

abbrev waiting : ChannelHandler
waiting = record { pending_writes = []; wait_for_ack = ((1, 1), chunk 1) ∷ [] }

waiting-Reach : Reach flushing waiting (chunk 1 ∷ []) []
unfolding turn HashMap.insert HashMap.remove sequence acknowledged_in
waiting-Reach =
    next
      (next (next start (picks (request false (some (buffer (chunk 1))))) refl) (picks (sent fed))
        refl)
      (picks (request false (some flush))) refl

drained-Reach : Reach flushing new (chunk 1 ∷ []) ((1, 1) ∷ [])
unfolding turn HashMap.get HashMap.remove acknowledged_in
drained-Reach = next waiting-Reach (picks (response false (got (ack_data (1, 1))))) refl

one_taken : occurrences (1, 1) (chunk 1 ∷ []) ≡ 1
unfolding occurrences sequence
one_taken = refl

flush_ends : turn flushing new (picks (token false)) ≡ goes running new []
unfolding turn
flush_ends = refl

every_buffer_held_example :
    (1 ≤ max_pending_acks)
    × (occurrences (1, 1) [] + present (HashMap.get (1, 1) waiting.wait_for_ack) + hits (1, 1) []
        ≡ occurrences (1, 1) (chunk 1 ∷ []))
every_buffer_held_example = every_buffer_held (1, 1) waiting-Reach (omega (arith, one_taken))

flush_acknowledged_example : hits (1, 1) ((1, 1) ∷ []) ≡ 1
flush_acknowledged_example =
    flush_acknowledged (1, 1) drained-Reach (picks (token false)) flush_ends one_taken

abbrev half_sent : ChannelHandler
half_sent = record waiting { pending_writes = chunk 2 ∷ [] }

first_waits : HashMap.get (1, 1) half_sent.wait_for_ack ≡ some (chunk 1)
unfolding HashMap.get
first_waits = refl

dropped_send_waits_example :
    (h' : ChannelHandler) × (turn running half_sent (picks (response true (got (ack_data (1, 1)))))
      ≡ goes running h' [])
    × (h'.pending_writes ≡ [])
    × (HashMap.get (2, 1) h'.wait_for_ack ≡ some (chunk 2))
    × (HashMap.get (1, 1) h'.wait_for_ack ≡ none)
unfolding sequence
dropped_send_waits_example =
    dropped_send_waits half_sent (chunk 2) (chunk 1) []
      (picks (response true (got (ack_data (1, 1))))) refl (omega arith) first_waits refl refl refl
