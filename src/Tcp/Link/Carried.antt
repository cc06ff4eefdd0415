-- ===== src/Tcp/Link/Carried.antt =====
-- What is on its way while nothing is lost, and the turns that bring it on.

use bdspro_udp_v.Common.{
  All, Bool-cases, List, Option-cases, [], arith, false, inl, inr, nat_eq, refl, some, string_eq,
  true, ◌++◌, ◌+◌, ◌∷◌, ◌≡◌,
}
use mathlib.Core.List.{append-nil}
use bdspro_udp_v.HashMap
use bdspro_udp_v.HashMap.{
  length-remove_le, HashMap, Distinct, get-insert, get-remove, insert-Distinct, remove-Distinct,
  length-insert_fresh, length-remove, remove_absent,
}
use bdspro_udp_v.Tcp.Protocol.{
  TupleBuffer, Sequence, DataChannelRequest, tuples, DataChannelResponse, ack_data, sequence_eq,
  sequence,
}
use bdspro_udp_v.Tcp.Channel
use bdspro_udp_v.Tcp.Channel.{
  ChannelHandler, flushing, running, goes, is_drained, Pick, response, sent, fed, got, flush_turn,
  flush_body, begun, on_item, handle_response, send_turn, holds_back, send_pending,
}
use bdspro_udp_v.Tcp.Channel.History.{hits, occurrences, present}
use bdspro_udp_v.Tcp.Intake.Delivery.{acks}
use bdspro_udp_v.Tcp.Link.{Link, Onward, Peer, serving, reading, ended, heard}
use bdspro_udp_v.Tcp.Link.Sending.{buffers}
use bdspro_udp_v.Tcp.Link.Receiving.{held}

abbrev pub IsTuples : DataChannelRequest → Type 0
IsTuples (tuples b) = Unit
IsTuples DataChannelRequest.close = ⊥

abbrev pub IsAck : DataChannelResponse → Type 0
IsAck (ack_data q) = Unit
IsAck _ = ⊥

abbrev pub IsThere : Peer → Type 0
IsThere (serving pending) = Unit
IsThere reading = Unit
IsThere ended = ⊥

-- The receiver goes on, neither end has closed the channel, and each buffer that waits is on its way,
-- or its acknowledgment is.
pub record Carried (h : ChannelHandler) (requests : List DataChannelRequest) (peer : Peer)
    (responses : List DataChannelResponse) : Type 0 where
  pub is_there : IsThere peer
  pub no_close : All IsTuples requests
  pub only_acks : All IsAck responses
  pub on_its_way :
      (q : Sequence)
      → occurrences q (buffers requests) + occurrences q (held peer) + hits q (acks responses)
        ≡ present (HashMap.get q h.wait_for_ack)

abbrev pub under_flush :
    ChannelHandler → List DataChannelRequest → Peer → List DataChannelResponse → Link
under_flush h requests peer responses = record {
  place = flushing;
  sender = h;
  requests = requests;
  peer = peer;
  responses = responses;
}

abbrev pub picks : Pick → Channel.Turn
picks pick = record { wrote = true; is_cancelled = false; pick = pick }

pub not_drained :
    (h : ChannelHandler) (q : Sequence) (write : TupleBuffer)
    → HashMap.get q h.wait_for_ack ≡ some write
    → is_drained h ≡ false
unfolding is_drained HashMap.get
not_drained h q write there = ground (arith, there)

pub ack_turn :
    (h : ChannelHandler) (q : Sequence) (write : TupleBuffer)
    → HashMap.get q h.wait_for_ack ≡ some write
    → Channel.turn flushing h (picks (response false (got (ack_data q))))
      ≡ goes flushing (record h { wait_for_ack = HashMap.remove q h.wait_for_ack }) []
unfolding Channel.turn flush_turn flush_body begun on_item handle_response
ack_turn h q write there =
    rw (not_drained h q write there) (rw (on_item, handle_response, there) refl)

abbrev pub sent_one : ChannelHandler → TupleBuffer → List TupleBuffer → ChannelHandler
sent_one h b rest = record {
  pending_writes = rest;
  wait_for_ack = HashMap.insert (sequence b) b h.wait_for_ack;
}

pub fed_turn :
    (h : ChannelHandler) (b : TupleBuffer) (rest : List TupleBuffer)
    → h.pending_writes ≡ b ∷ rest
    → h.wait_for_ack ≡ []
    → Channel.turn flushing h (picks (sent fed)) ≡ goes flushing (sent_one h b rest) (tuples b ∷ [])
unfolding Channel.turn flush_turn flush_body send_turn is_drained holds_back send_pending
fed_turn h b rest e none_waits = rw (e, none_waits) refl

-- Nothing on its way means that nothing waits.
pub none_waits :
    (m : HashMap Sequence TupleBuffer) → ((q : Sequence) → present (HashMap.get q m) ≡ 0) → m ≡ []
unfolding HashMap.get
none_waits [] all = refl
none_waits ((q, b) ∷ m) all = absurd (ground (arith, all q, sequence_eq.same_iff q q))

pub acked-Carried :
    (h : ChannelHandler) (requests : List DataChannelRequest) (peer : Peer) (q : Sequence)
    (write : TupleBuffer) (responses : List DataChannelResponse)
    → HashMap.get q h.wait_for_ack ≡ some write
    → Carried h requests peer (ack_data q ∷ responses)
    → Carried (record h { wait_for_ack = HashMap.remove q h.wait_for_ack }) requests peer responses
unfolding hits
acked-Carried h requests peer q write responses there c = record {
  is_there = c.is_there;
  no_close = c.no_close;
  only_acks = c.only_acks.1;
  on_its_way = λ k.
      ground
        (arith, c.on_its_way k, there, sequence_eq.same_iff q k, get-remove q k h.wait_for_ack);
}

pub delivered-Carried :
    (h : ChannelHandler) (requests : List DataChannelRequest) (b : TupleBuffer)
    → Carried h requests (serving (some b)) []
    → Carried h requests reading (ack_data (sequence b) ∷ [])
unfolding hits occurrences
delivered-Carried h requests b c = record {
  is_there = tt;
  no_close = c.no_close;
  only_acks = (tt, tt);
  on_its_way = λ k. ground (arith, c.on_its_way k);
}

pub read-Carried :
    (h : ChannelHandler) (b : TupleBuffer) (requests : List DataChannelRequest)
    → Carried h (tuples b ∷ requests) reading []
    → Carried h requests (serving (some b)) []
unfolding occurrences
read-Carried h b requests c = record {
  is_there = tt;
  no_close = c.no_close.1;
  only_acks = tt;
  on_its_way = λ k. ground (arith, c.on_its_way k);
}

pub sent-Carried :
    (h : ChannelHandler) (b : TupleBuffer) (rest : List TupleBuffer)
    → h.wait_for_ack ≡ []
    → Carried (sent_one h b rest) (tuples b ∷ []) reading []
unfolding occurrences hits HashMap.get HashMap.insert HashMap.remove
sent-Carried h b rest none_there = record {
  is_there = tt;
  no_close = (tt, tt);
  only_acks = tt;
  on_its_way = λ k. rw none_there (ground (arith, sequence_eq.same_iff (sequence b) k));
}

pub nothing_heard : (h : ChannelHandler) → [] ≡ heard flushing h (sent fed) ++ []
unfolding heard
nothing_heard h = elim (Bool-cases (is_drained h)) [
  | inl done ↦ rw done refl
  | inr more ↦ rw more refl
]

pub nothing_left :
    (h : ChannelHandler) → h.pending_writes ≡ [] → h.wait_for_ack ≡ [] → is_drained h ≡ true
unfolding is_drained
nothing_left h e none_there = rw (e, none_there) refl

pub settled :
    {from : Link} {t₀ : List TupleBuffer} {a₀ : List Sequence} {d₀ : List TupleBuffer}
    (h : ChannelHandler) (requests : List DataChannelRequest) (peer : Peer)
    (responses : List DataChannelResponse) {taken : List TupleBuffer} {acked : List Sequence}
    {delivered : List TupleBuffer}
    → Onward from t₀ a₀ d₀
        (under_flush h (requests ++ []) peer responses)
        (taken ++ [])
        acked
        delivered
    → Onward from t₀ a₀ d₀ (under_flush h requests peer responses) taken acked delivered
settled h requests peer responses {taken} r = rw (append-nil requests, append-nil taken) at r

pub waits :
    (h : ChannelHandler) (requests : List DataChannelRequest) (peer : Peer) (q : Sequence)
    (responses : List DataChannelResponse)
    → Carried h requests peer (ack_data q ∷ responses)
    → (write : TupleBuffer) × (HashMap.get q h.wait_for_ack ≡ some write)
unfolding hits
waits h requests peer q responses c = elim (Option-cases (HashMap.get q h.wait_for_ack)) [
  | inl e ↦ absurd (ground (arith, c.on_its_way q, e, sequence_eq.same_iff q q))
  | inr there ↦ there
]
