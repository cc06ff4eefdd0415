-- ===== src/Tcp/Link/Drains.antt =====
-- How both ends can bring a flush to its end.
use bdspro_udp_v.Tcp.Dispatcher.{ran}
use bdspro_udp_v.Tcp.Intake
use bdspro_udp_v.Tcp.Intake.{take_in, acknowledge, deliver}
use bdspro_udp_v.Common.{
  List, Mem, [], ap, arith, false, length, nat_eq, none, refl, some, string_eq, subst, suc, sym,
  true, zero, ℕ, ◌*◌, ◌+◌, ◌<◌, ◌∷◌, ◌≡◌,
}
use mathlib.Core.List.{append-nil}
use bdspro_udp_v.HashMap
use bdspro_udp_v.HashMap.{
  length-remove_le, HashMap, Distinct, get-insert, get-remove, insert-Distinct, remove-Distinct,
  length-insert_fresh, length-remove, remove_absent,
}
use bdspro_udp_v.Tcp.Protocol.{
  TupleBuffer, Sequence, DataChannelRequest, tuples, DataChannelResponse, ack_data, nack_data,
  sequence_eq, sequence,
}
use bdspro_udp_v.Tcp.Channel
use bdspro_udp_v.Tcp.Channel.{
  ChannelHandler, flushing, running, goes, is_drained, Pick, response, sent, fed, got, flush_turn,
  flush_body, begun, on_item, handle_response, send_turn, holds_back, send_pending,
}
use bdspro_udp_v.Tcp.Channel.History.{hits, occurrences}
use bdspro_udp_v.Tcp.Channel.Finish.{drained_turn}
use bdspro_udp_v.Tcp.Link.Carried.{
  Carried, under_flush, picks, sent_one, acked-Carried, delivered-Carried, read-Carried,
  sent-Carried, nothing_heard, nothing_left, settled, waits, not_drained, ack_turn, fed_turn,
  none_waits,
}
use bdspro_udp_v.Tcp.Link.Delivered.{flush_delivered}
use bdspro_udp_v.Tcp.Link.{
  Link, Onward, Reach, start, join, sends, delivers, reads, Peer, serving, reading, ended, heard,
}

-- How far the state is from the end of the flush.
abbrev pub at_peer : Peer → ℕ
at_peer (serving none) = 1
at_peer (serving (some b)) = 2
at_peer reading = 0
at_peer ended = 0

abbrev pub steps_left :
    ChannelHandler → List DataChannelRequest → Peer → List DataChannelResponse → ℕ
steps_left h requests peer responses =
    4 * length h.pending_writes + 3 * length requests + at_peer peer + length responses

-- A state that both ends come to from the given one, under the flush, with nothing left of it, where the
-- sender's queue has handed over nothing more.
pub record Drained (from : Link) (taken : List TupleBuffer) (acked : List Sequence)
    (delivered : List TupleBuffer) : Type 0 where
  pub link : Link
  pub acked_then : List Sequence
  pub delivered_then : List TupleBuffer
  pub path : Onward from taken acked delivered link taken acked_then delivered_then
  pub flushes : link.place ≡ flushing
  pub drained : is_drained link.sender ≡ true

-- The fuel bounds the turns.
drains_within :
    {from : Link} {given : List TupleBuffer} {a₀ : List Sequence} {d₀ : List TupleBuffer} (fuel : ℕ)
    (h : ChannelHandler) (requests : List DataChannelRequest) (peer : Peer)
    (responses : List DataChannelResponse) {acked : List Sequence} {delivered : List TupleBuffer}
    → Onward from given a₀ d₀ (under_flush h requests peer responses) given acked delivered
    → Carried h requests peer responses
    → steps_left h requests peer responses < fuel
    → Drained from given a₀ d₀
unfolding deliver acknowledge take_in heard hits occurrences
drains_within zero h requests peer responses r c less = absurd (omega arith)
drains_within (suc fuel) h requests peer (ack_data q ∷ responses) r c less =
    let (write, there) = waits h requests peer q responses c in
    let h' = record h { wait_for_ack = HashMap.remove q h.wait_for_ack } in
    drains_within fuel h' requests peer responses
      (settled h' requests peer responses (
        sends r (picks (response false (got (ack_data q)))) responses
          (rw (not_drained h q write there) refl) (ack_turn h q write there)))
      (acked-Carried h requests peer q write responses there c)
      (omega (arith, length-remove_le q h.wait_for_ack))
drains_within (suc fuel) h requests peer (nack_data q ∷ responses) r c less = absurd c.only_acks.0
drains_within (suc fuel) h requests peer (DataChannelResponse.close ∷ responses) r c less =
    absurd c.only_acks.0
drains_within (suc fuel) h requests (serving none) [] r c less =
    drains_within fuel h requests reading [] (delivers r none (ran true) (ran true) refl)
      (record { is_there = tt; no_close = c.no_close; only_acks = tt; on_its_way = c.on_its_way })
      (omega arith)
drains_within (suc fuel) h requests (serving (some b)) [] r c less =
    drains_within fuel h requests reading (ack_data (sequence b) ∷ [])
      (delivers r (some b) (ran true) (ran true) refl) (delivered-Carried h requests b c)
      (omega arith)
drains_within (suc fuel) h requests ended [] r c less = absurd c.is_there
drains_within (suc fuel) h (tuples b ∷ requests) reading [] r c less =
    drains_within fuel h requests (serving (some b)) []
      (reads r (ran (Intake.got (tuples b))) requests refl refl) (read-Carried h b requests c)
      (omega arith)
drains_within (suc fuel) h (DataChannelRequest.close ∷ requests) reading [] r c less =
    absurd c.no_close.0
drains_within {from} {given} {a₀} {d₀} (suc fuel) h [] reading [] r c less =
    let none_there = none_waits h.wait_for_ack (λ q. sym (c.on_its_way q)) in
    by_pending h.pending_writes refl none_there (λ b rest e.
      drains_within fuel (sent_one h b rest) (tuples b ∷ []) reading []
        (rw (append-nil given) at
          (sends r (picks (sent fed)) [] (nothing_heard h) (fed_turn h b rest e none_there)))
        (sent-Carried h b rest none_there) (omega (arith, ap length e)))
  where
    by_pending :
        (bs : List TupleBuffer)
        → h.pending_writes ≡ bs
        → h.wait_for_ack ≡ []
        → ((b : TupleBuffer) (rest : List TupleBuffer)
            → h.pending_writes ≡ b ∷ rest
            → Drained from given a₀ d₀)
        → Drained from given a₀ d₀
    by_pending [] e none_there again = record {
      link = under_flush h [] reading [];
      acked_then = _;
      delivered_then = _;
      path = r;
      flushes = refl;
      drained = nothing_left h e none_there;
    }
    by_pending (b ∷ rest) e none_there again = again b rest e

-- Such an end, with the buffers that the receiver has handed to its queue by then.
pub record Completed (from : Link) (taken : List TupleBuffer) (acked : List Sequence)
    (delivered : List TupleBuffer) : Type 0 where
  pub end : Drained from taken acked delivered
  pub all_there : end.delivered_then ≡ taken

-- From every reachable state of a flush in which the receiver goes on, neither end has closed the channel,
-- and each buffer that waits for its acknowledgment is on its way to the receiver, or its acknowledgment is
-- on the way back, both ends have turns that lead from this state to one where the sender has nothing left
-- to flush; if no two of the buffers that its queue handed over have the same sequence, the receiver has
-- then handed exactly these to its own queue, in the same order.
pub flush-Completed :
    (h : ChannelHandler) (requests : List DataChannelRequest) (peer : Peer)
    (responses : List DataChannelResponse) {taken : List TupleBuffer} {acked : List Sequence}
    {delivered : List TupleBuffer}
    → Reach (under_flush h requests peer responses) taken acked delivered
    → Carried h requests peer responses
    → ((b : TupleBuffer) → Mem b taken → occurrences (sequence b) taken ≡ 1)
    → Completed (under_flush h requests peer responses) taken acked delivered
flush-Completed h requests peer responses {taken} {acked} {delivered} r c once =
    let from = under_flush h requests peer responses in
    let d : Drained from taken acked delivered =
      drains_within (suc (steps_left h requests peer responses)) h requests peer responses start c
        (omega arith) in
    record {
      end = d;
      all_there =
          flush_delivered (join r d.path) d.flushes (picks (Channel.token false))
            (subst
              (λ p.
                Channel.turn p d.link.sender (picks (Channel.token false))
                ≡ goes running d.link.sender [])
              (sym d.flushes) (drained_turn d.link.sender (picks (Channel.token false)) d.drained))
            once;
    }
