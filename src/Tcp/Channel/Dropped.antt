-- ===== src/Tcp/Channel/Dropped.antt =====
-- A send that is begun, and dropped because another branch of the `select!` was ready first.
use bdspro_udp_v.Common.{
  List, [], arith, false, length, nat_eq, none, refl, some, string_eq, true, ◌<◌, ◌==◌, ◌∷◌, ◌≡◌,
}
use bdspro_udp_v.HashMap
use bdspro_udp_v.HashMap.{
  HashMap, Distinct, get-insert, get-remove, insert-Distinct, remove-Distinct, length-insert_fresh,
  length-remove, remove_absent,
}
use bdspro_udp_v.Tcp.Protocol.{TupleBuffer, sequence_eq, sequence, ack_data}
use bdspro_udp_v.Tcp.Channel.{
  max_pending_acks, ChannelHandler, handle_response, send_pending, got, on_item, running, goes,
  response, holds_back, begun, run_turn, Turn, turn,
}

begun_moves :
    (h : ChannelHandler) (b : TupleBuffer) (rest : List TupleBuffer)
    → h.pending_writes ≡ b ∷ rest
    → length h.wait_for_ack < max_pending_acks
    → begun h true ≡ record {
      pending_writes = rest;
      wait_for_ack = HashMap.insert (sequence b) b h.wait_for_ack;
    }
unfolding begun holds_back send_pending
begun_moves h b rest pending room = ground arith

-- Where the acknowledgment of a waiting buffer comes while the send of another has begun and its writer
-- is not ready, the turn writes nothing, and the other buffer, which is not pending any more, waits for
-- an acknowledgment.
pub dropped_send_waits :
    (h : ChannelHandler) (b c : TupleBuffer) (rest : List TupleBuffer) (t : Turn)
    → h.pending_writes ≡ b ∷ rest
    → length h.wait_for_ack < max_pending_acks
    → HashMap.get (sequence c) h.wait_for_ack ≡ some c
    → (sequence b == sequence c) ≡ false
    → t.is_cancelled ≡ false
    → t.pick ≡ response true (got (ack_data (sequence c)))
    → (h' : ChannelHandler) × (turn running h t ≡ goes running h' [])
      × (h'.pending_writes ≡ rest)
      × (HashMap.get (sequence b) h'.wait_for_ack ≡ some b)
      × (HashMap.get (sequence c) h'.wait_for_ack ≡ none)
unfolding turn run_turn on_item handle_response
dropped_send_waits h b c rest t pending room waiting other quiet pick =
    let moved = HashMap.insert (sequence b) b h.wait_for_ack in
    let still : HashMap.get (sequence c) moved ≡ some c =
      ground (arith, get-insert (sequence b) (sequence c) b h.wait_for_ack) in
    (
      record { pending_writes = rest; wait_for_ack = HashMap.remove (sequence c) moved },
      rw quiet (
          rw pick
            (rw (begun_moves h b rest pending room) (rw (on_item, handle_response, still) refl))),
      refl,
      ground (
        arith,
        sequence_eq.same_iff (sequence c) (sequence b),
        sequence_eq.same_iff (sequence b) (sequence b),
        sequence_eq.same_iff (sequence b) (sequence c),
        get-insert (sequence b) (sequence b) b h.wait_for_ack,
        get-remove (sequence c) (sequence b) moved,
      ),
      ground (
        arith,
        sequence_eq.same_iff (sequence c) (sequence c),
        get-remove (sequence c) (sequence c) moved,
      ),
    )
