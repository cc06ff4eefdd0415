-- ===== src/Tcp/Channel/Cases.antt =====
-- What the operations of the handler can come to, with a motive.
use bdspro_udp_v.Common.{
  List, Option-cases, [], arith, false, inl, inr, length, nat_eq, refl, some, string_eq, ◌++◌, ◌<◌,
  ◌∷◌, ◌≡◌,
}
use bdspro_udp_v.HashMap
use bdspro_udp_v.HashMap.{
  HashMap, Distinct, get-insert, get-remove, insert-Distinct, remove-Distinct, length-insert_fresh,
  length-remove, remove_absent,
}
use bdspro_udp_v.Tcp.Protocol.{
  TupleBuffer, Sequence, sequence_eq, sequence, DataChannelRequest, tuples, DataChannelResponse,
  ack_data, nack_data,
}
use bdspro_udp_v.Tcp.Channel.{
  max_pending_acks, ChannelHandlerError, closed_by_other_side, connection_lost, protocol,
  ChannelHandler, Res, ok, err, handle_response, Feed, fed, refused, dropped, send_pending, Item,
  ended, broken, got, on_item, holds_back,
}

-- What a response does, by what waits for it.
pub on_item_cases :
    (P : Res → Type 0) (h : ChannelHandler) (item : Item)
    → ((e : ChannelHandlerError) → P (err e))
    → ((seq : Sequence) (write : TupleBuffer)
        → item ≡ got (nack_data seq)
        → HashMap.get seq h.wait_for_ack ≡ some write
        → P (
            ok (record {
              pending_writes = h.pending_writes ++ write ∷ [];
              wait_for_ack = HashMap.remove seq h.wait_for_ack;
            })))
    → ((seq : Sequence) (write : TupleBuffer)
        → item ≡ got (ack_data seq)
        → HashMap.get seq h.wait_for_ack ≡ some write
        → P (ok (record h { wait_for_ack = HashMap.remove seq h.wait_for_ack })))
    → P (on_item h item)
unfolding on_item handle_response
on_item_cases P h ended fails nacked acked = fails closed_by_other_side
on_item_cases P h broken fails nacked acked = fails connection_lost
on_item_cases P h (got DataChannelResponse.close) fails nacked acked = fails closed_by_other_side
on_item_cases P h (got (nack_data seq)) fails nacked acked =
    elim (Option-cases (HashMap.get seq h.wait_for_ack)) [
      | inl e ↦ rw (on_item, handle_response, e) (fails protocol)
      | inr (write, e) ↦ rw (on_item, handle_response, e) (nacked seq write refl e)
    ]
on_item_cases P h (got (ack_data seq)) fails nacked acked =
    elim (Option-cases (HashMap.get seq h.wait_for_ack)) [
      | inl e ↦ rw (on_item, handle_response, e) (fails protocol)
      | inr (write, e) ↦ rw (on_item, handle_response, e) (acked seq write refl e)
    ]

-- What the sending branch does, where it is not held back.
pub send_pending_cases :
    (P : ChannelHandler × List DataChannelRequest → Type 0) (h : ChannelHandler) (answer : Feed)
    → holds_back h ≡ false
    → ((b : TupleBuffer) (rest : List TupleBuffer) (wire : List DataChannelRequest)
        → h.pending_writes ≡ b ∷ rest
        → length h.wait_for_ack < max_pending_acks
        → P (
          record {
            pending_writes = rest;
            wait_for_ack = HashMap.insert (sequence b) b h.wait_for_ack;
          },
          wire,
        ))
    → ((b : TupleBuffer) (rest : List TupleBuffer)
        → h.pending_writes ≡ b ∷ rest
        → length h.wait_for_ack < max_pending_acks
        → P (
          record {
            pending_writes = b ∷ rest;
            wait_for_ack =
                HashMap.remove (sequence b) (HashMap.insert (sequence b) b h.wait_for_ack);
          },
          [],
        ))
    → P (send_pending h answer)
unfolding send_pending holds_back
send_pending_cases P h answer room moves stays = by_list h.pending_writes refl answer
  where
    by_list : (bs : List TupleBuffer) → h.pending_writes ≡ bs → (f : Feed) → P (send_pending h f)
    by_list [] e f = absurd (ground arith)
    by_list (b ∷ rest) e fed = rw e (moves b rest (tuples b ∷ []) e (ground arith))
    by_list (b ∷ rest) e dropped = rw e (moves b rest [] e (ground arith))
    by_list (b ∷ rest) e refused = rw e (stays b rest e (ground arith))
