-- ===== src/Tcp/Channel/Flush.antt =====
-- What the end of a flush of `channel_handler` of network/src/sender.rs means.
use bdspro_udp_v.Common.{
  Bool, Bool-cases, List, [], arith, false, inl, inr, nat_eq, string_eq, subst, true, ◌≡◌,
}
use bdspro_udp_v.HashMap
use bdspro_udp_v.HashMap.{
  All-remove, All-insert, HashMap, Distinct, get-insert, get-remove, insert-Distinct,
  remove-Distinct, length-insert_fresh, length-remove, remove_absent,
}
use bdspro_udp_v.Tcp.Protocol.{DataChannelRequest, TupleBuffer, Sequence, sequence_eq}
use bdspro_udp_v.Tcp.Channel.{
  ChannelHandler, running, flushing, After, goes, stops, after, Pick, token, response, request,
  sent, holds_back, begun, send_turn, is_drained, flush_body, flush_turn, Turn, turn,
}
use bdspro_udp_v.Tcp.Channel.Cases.{on_item_cases}
use bdspro_udp_v.Tcp.Channel.History.{Reach, occurrences, hits}
use bdspro_udp_v.Tcp.Channel.Held.{every_buffer_held}

-- The body of the loop never leaves it but by an error.
abbrev Stays : After → Type 0
Stays (goes running h wire) = ⊥
Stays (goes flushing h wire) = Unit
Stays (stops e wire) = Unit

flush_body-Stays :
    (h : ChannelHandler) (wrote is_cancelled : Bool) (pick : Pick)
    → Stays (flush_body h wrote is_cancelled pick)
unfolding flush_body send_turn
flush_body-Stays h false is_cancelled pick = tt
flush_body-Stays h true true pick = tt
flush_body-Stays h true false (token cut) = tt
flush_body-Stays h true false (response cut item) =
    on_item_cases (λ r. Stays (after flushing [] r)) (begun h cut) item (λ _. tt) (λ _ _ _ _. tt)
      (λ _ _ _ _. tt)
flush_body-Stays h true false (request cut message) = tt
flush_body-Stays h true false (sent answer) = elim (Bool-cases (holds_back h)) [
  | inl full ↦ rw full tt
  | inr room ↦ rw room tt
]

drained_of_running :
    (h : ChannelHandler) (t : Turn) {h' : ChannelHandler} {wire : List DataChannelRequest}
    → turn flushing h t ≡ goes running h' wire
    → is_drained h ≡ true
unfolding turn flush_turn
drained_of_running h t e = elim (Bool-cases (is_drained h)) [
  | inl d ↦ d
  | inr d ↦ absurd (subst Stays (rw d at e) (flush_body-Stays h t.wrote t.is_cancelled t.pick))
]

-- When a flush comes to its end, every sequence that came from the queue once has been acknowledged
-- exactly once.
pub flush_acknowledged :
    (q : Sequence) {h h' : ChannelHandler} {taken : List TupleBuffer} {acks : List Sequence}
    {wire : List DataChannelRequest}
    → Reach flushing h taken acks
    → (t : Turn) → turn flushing h t ≡ goes running h' wire
    → occurrences q taken ≡ 1
    → hits q acks ≡ 1
unfolding occurrences HashMap.get is_drained
flush_acknowledged q {h} {h'} {taken} {acks} r t e once =
    ground (arith, (every_buffer_held q r (omega arith)).1, drained_of_running h t e)
