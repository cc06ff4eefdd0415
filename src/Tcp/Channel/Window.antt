-- ===== src/Tcp/Channel/Window.antt =====
-- How many buffers wait for their acknowledgment.
use bdspro_udp_v.Tcp.Channel.Cases.{send_pending_cases, on_item_cases}
use bdspro_udp_v.Tcp.Channel.{
  max_pending_acks, ChannelControlMessage, buffer, flush, terminate, ChannelHandler, new, Feed,
  dropped, send_pending, Item, on_item, Place, running, flushing, After, goes, stops, after,
  handle_request, on_request, Pick, token, response, request, sent, holds_back, begun, send_turn,
  run_turn, is_drained, flush_body, flush_turn, Turn, turn,
}
use bdspro_udp_v.Common.{
  Bool, Bool-cases, List, Option, [], arith, false, inl, inr, length, nat_eq, none, some, string_eq,
  true, ◌++◌, ◌∷◌, ◌≡◌, ◌≤◌,
}
use bdspro_udp_v.HashMap
use bdspro_udp_v.HashMap.{
  length-insert_le, length-remove_le, HashMap, Distinct, get-insert, get-remove, insert-Distinct,
  remove-Distinct, length-insert_fresh, length-remove, remove_absent,
}
use bdspro_udp_v.Tcp.Protocol.{TupleBuffer, Sequence, sequence_eq, sequence}

pub record IsBounded (h : ChannelHandler) : Type 0 where
  pub distinct : Distinct h.wait_for_ack
  pub few : length h.wait_for_ack ≤ max_pending_acks

pub new-IsBounded : IsBounded new
new-IsBounded = record { distinct = tt; few = omega arith }

-- A place after a turn is a bounded handler.
abbrev pub Bounded : After → Type 0
Bounded (goes place h wire) = IsBounded h
Bounded (stops e wire) = Unit

abbrev handler : List TupleBuffer → HashMap Sequence TupleBuffer → ChannelHandler
handler pending waiting = record { pending_writes = pending; wait_for_ack = waiting }

send_pending-IsBounded :
    (h : ChannelHandler) (answer : Feed)
    → holds_back h ≡ false
    → IsBounded h
    → IsBounded (send_pending h answer).0
send_pending-IsBounded h answer room v =
    send_pending_cases (λ s. IsBounded s.0) h answer room
      (λ b rest wire e less. record {
        distinct = insert-Distinct (sequence b) b h.wait_for_ack v.distinct;
        few = omega (arith, length-insert_le (sequence b) b h.wait_for_ack);
      })
      (λ b rest e less.
        let moved = HashMap.insert (sequence b) b h.wait_for_ack in
        record {
          distinct =
              remove-Distinct (sequence b) moved
                (insert-Distinct (sequence b) b h.wait_for_ack v.distinct);
          few = omega (
            arith,
            length-insert_le (sequence b) b h.wait_for_ack,
            length-remove_le (sequence b) moved,
          );
        })

begun-IsBounded : (h : ChannelHandler) (cut : Bool) → IsBounded h → IsBounded (begun h cut)
unfolding begun
begun-IsBounded h false v = v
begun-IsBounded h true v = elim (Bool-cases (holds_back h)) [
  | inl full ↦ rw full v
  | inr room ↦ rw room (send_pending-IsBounded h dropped room v)
]

send_turn-IsBounded :
    (place : Place) (h : ChannelHandler) (feed : Feed)
    → IsBounded h
    → Bounded (send_turn place h feed)
unfolding send_turn
send_turn-IsBounded place h feed v = elim (Bool-cases (holds_back h)) [
  | inl full ↦ rw full v
  | inr room ↦ rw room (send_pending-IsBounded h feed room v)
]

removed-IsBounded :
    (pending : List TupleBuffer) (waiting : HashMap Sequence TupleBuffer) (seq : Sequence)
    → Distinct waiting
    → length waiting ≤ max_pending_acks
    → IsBounded (handler pending (HashMap.remove seq waiting))
removed-IsBounded pending waiting seq distinct few = record {
  distinct = remove-Distinct seq waiting distinct;
  few = omega (arith, length-remove_le seq waiting);
}

on_item-IsBounded :
    (place : Place) (h : ChannelHandler) (item : Item)
    → IsBounded h
    → Bounded (after place [] (on_item h item))
on_item-IsBounded place h item v =
    on_item_cases (λ r. Bounded (after place [] r)) h item (λ _. tt)
      (λ seq write _ _.
        removed-IsBounded (h.pending_writes ++ write ∷ []) h.wait_for_ack seq v.distinct v.few)
      (λ seq write _ _. removed-IsBounded h.pending_writes h.wait_for_ack seq v.distinct v.few)

on_request-IsBounded :
    (h : ChannelHandler) (message : Option ChannelControlMessage)
    → IsBounded h
    → Bounded (on_request h message)
unfolding on_request handle_request
on_request-IsBounded h none v = tt
on_request-IsBounded h (some (buffer b)) v = record { distinct = v.distinct; few = v.few }
on_request-IsBounded h (some flush) v = v
on_request-IsBounded h (some terminate) v = tt

pub turn-IsBounded :
    (place : Place) (h : ChannelHandler) (t : Turn) → IsBounded h → Bounded (turn place h t)
unfolding turn run_turn flush_turn flush_body
turn-IsBounded running h t v = by_pick t.is_cancelled t.pick
  where
    by_pick : (c : Bool) (p : Pick) → Bounded (run_turn h c p)
    by_pick true p = tt
    by_pick false (token cut) = tt
    by_pick false (response cut item) =
        on_item-IsBounded running (begun h cut) item (begun-IsBounded h cut v)
    by_pick false (request cut message) =
        on_request-IsBounded (begun h cut) message (begun-IsBounded h cut v)
    by_pick false (sent feed) = send_turn-IsBounded running h feed v
turn-IsBounded flushing h t v = elim (Bool-cases (is_drained h)) [
  | inl e ↦ rw e v
  | inr e ↦ rw e (by_pick t.wrote t.is_cancelled t.pick)
]
  where
    by_pick : (w c : Bool) (p : Pick) → Bounded (flush_body h w c p)
    by_pick false c p = tt
    by_pick true true p = tt
    by_pick true false (token cut) = tt
    by_pick true false (response cut item) =
        on_item-IsBounded flushing (begun h cut) item (begun-IsBounded h cut v)
    by_pick true false (request cut message) = v
    by_pick true false (sent feed) = send_turn-IsBounded flushing h feed v
