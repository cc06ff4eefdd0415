-- ===== src/Tcp/Channel/Held.antt =====
-- Where every buffer that `channel_handler` of network/src/sender.rs took from its queue is.
use bdspro_udp_v.Tcp.Channel.Window.{IsBounded, new-IsBounded, Bounded, turn-IsBounded}
use bdspro_udp_v.Common.{
  All, Bool, Bool-cases, List, Option, [], arith, false, inl, inr, length, nat_eq, none, refl, some,
  string_eq, subst, true, ◌++◌, ◌+◌, ◌∷◌, ◌≡◌, ◌≤◌,
}
use bdspro_udp_v.HashMap
use bdspro_udp_v.HashMap.{
  All-remove, All-insert, HashMap, Distinct, get-insert, get-remove, insert-Distinct,
  remove-Distinct, length-insert_fresh, length-remove, remove_absent,
}
use bdspro_udp_v.Tcp.Protocol.{TupleBuffer, Sequence, sequence_eq, sequence}
use bdspro_udp_v.Tcp.Channel.{
  max_pending_acks, ChannelControlMessage, buffer, flush, terminate, ChannelHandler, Feed, dropped,
  send_pending, Item, on_item, Place, running, flushing, After, goes, stops, after, handle_request,
  on_request, Pick, token, response, request, sent, holds_back, begun, send_turn, run_turn,
  is_drained, flush_body, flush_turn, Turn, turn,
}
use bdspro_udp_v.Tcp.Channel.Cases.{on_item_cases, send_pending_cases}
use bdspro_udp_v.Tcp.Channel.History.{
  accepted, acknowledged, acknowledged_in, Reach, start, next, occurrences, hits, present,
  occurrences-append,
}

-- Every key is its buffer's sequence.
abbrev Keyed : Sequence × TupleBuffer → Type 0
Keyed (q, b) = sequence b ≡ q

-- Of a sequence, what is pending, waiting and acknowledged adds up to what was accepted.
record Inv (q : Sequence) (taken : List TupleBuffer) (acks : List Sequence) (h : ChannelHandler)
    : Type 0 where
  keyed : All Keyed h.wait_for_ack
  balanced :
      occurrences q h.pending_writes + present (HashMap.get q h.wait_for_ack) + hits q acks
      ≡ occurrences q taken

All-get :
    (m : HashMap Sequence TupleBuffer) (q : Sequence) (b : TupleBuffer)
    → All Keyed m
    → HashMap.get q m ≡ some b
    → sequence b ≡ q
unfolding HashMap.get
All-get [] q b ks e = absurd (ground arith)
All-get ((r, c) ∷ m) q b ks e = ground (arith, sequence_eq.same_iff r q, All-get m q b ks.1)

-- A place after a turn.
abbrev After-Inv : Sequence → List TupleBuffer → List Sequence → After → Type 0
After-Inv q taken acks (goes place h wire) = Inv q taken acks h
After-Inv q taken acks (stops e wire) = Unit

module _ (q : Sequence) (taken : List TupleBuffer) (acks : List Sequence)
    (few : occurrences q taken ≤ 1) where
  send_pending-Inv :
      (h : ChannelHandler) (answer : Feed)
      → holds_back h ≡ false
      → Inv q taken acks h
      → Inv q taken acks (send_pending h answer).0
  unfolding occurrences
  send_pending-Inv h answer room v =
      send_pending_cases (λ s. Inv q taken acks s.0) h answer room
        (λ b rest wire e _. record {
          keyed = All-insert Keyed (sequence b) b h.wait_for_ack refl v.keyed;
          balanced = ground (
            arith,
            v.balanced,
            e,
            sequence_eq.same_iff (sequence b) q,
            get-insert (sequence b) q b h.wait_for_ack,
          );
        })
        (λ b rest e _.
          let moved = HashMap.insert (sequence b) b h.wait_for_ack in
          record {
            keyed =
                All-remove Keyed (sequence b) moved
                  (All-insert Keyed (sequence b) b h.wait_for_ack refl v.keyed);
            balanced = ground (
              arith,
              v.balanced,
              e,
              sequence_eq.same_iff (sequence b) q,
              get-insert (sequence b) q b h.wait_for_ack,
              get-remove (sequence b) q moved,
            );
          })

  begun-Inv :
      (h : ChannelHandler) (cut : Bool) → Inv q taken acks h → Inv q taken acks (begun h cut)
  unfolding begun
  begun-Inv h false v = v
  begun-Inv h true v = elim (Bool-cases (holds_back h)) [
    | inl full ↦ rw full v
    | inr room ↦ rw room (send_pending-Inv h dropped room v)
  ]

  send_turn-Inv :
      (place : Place) (h : ChannelHandler) (answer : Feed)
      → Inv q taken acks h
      → After-Inv q taken acks (send_turn place h answer)
  unfolding send_turn
  send_turn-Inv place h answer v = elim (Bool-cases (holds_back h)) [
    | inl full ↦ rw full v
    | inr room ↦ rw room (send_pending-Inv h answer room v)
  ]

  on_item-Inv :
      (place : Place) (h : ChannelHandler) (cut : Bool) (item : Item)
      → Inv q taken acks h
      → After-Inv q taken
          (acknowledged (response cut item) ++ acks)
          (after place [] (on_item h item))
  unfolding hits occurrences
  on_item-Inv place h cut item v =
      on_item_cases
        (λ r. After-Inv q taken (acknowledged (response cut item) ++ acks) (after place [] r)) h
        item (λ _. tt)
        (λ seq write is e. rw is record {
          keyed = All-remove Keyed seq h.wait_for_ack v.keyed;
          balanced = ground (
            arith,
            v.balanced,
            All-get h.wait_for_ack seq write v.keyed e,
            sequence_eq.same_iff seq q,
            occurrences-append q h.pending_writes (write ∷ []),
            get-remove seq q h.wait_for_ack,
          );
        })
        (λ seq write is e. rw is record {
          keyed = All-remove Keyed seq h.wait_for_ack v.keyed;
          balanced =
              ground
                (arith, v.balanced, sequence_eq.same_iff seq q, get-remove seq q h.wait_for_ack);
        })

  on_request-Inv :
      (h : ChannelHandler) (cut : Bool) (message : Option ChannelControlMessage)
      → Inv q taken acks h
      → After-Inv q (accepted running (request cut message) ++ taken) acks (on_request h message)
  unfolding on_request handle_request occurrences
  on_request-Inv h cut none v = tt
  on_request-Inv h cut (some (buffer b)) v = record {
    keyed = v.keyed;
    balanced = ground (arith, v.balanced, occurrences-append q h.pending_writes (b ∷ []));
  }
  on_request-Inv h cut (some flush) v = v
  on_request-Inv h cut (some terminate) v = tt

  turn-Inv :
      (place : Place) (h : ChannelHandler) (t : Turn)
      → Inv q taken acks h
      → After-Inv q
          (accepted place t.pick ++ taken)
          (acknowledged_in place h t.pick ++ acks)
          (turn place h t)
  unfolding turn run_turn flush_turn flush_body acknowledged_in
  turn-Inv running h t v = by_pick t.is_cancelled t.pick
    where
      by_pick :
          (c : Bool) (p : Pick)
          → After-Inv q (accepted running p ++ taken) (acknowledged p ++ acks) (run_turn h c p)
      by_pick true p = tt
      by_pick false (token cut) = tt
      by_pick false (response cut item) =
          on_item-Inv running (begun h cut) cut item (begun-Inv h cut v)
      by_pick false (request cut message) =
          on_request-Inv (begun h cut) cut message (begun-Inv h cut v)
      by_pick false (sent answer) = send_turn-Inv running h answer v
  turn-Inv flushing h t v = elim (Bool-cases (is_drained h)) [
    | inl e ↦ rw (acknowledged_in, e) v
    | inr e ↦ rw (acknowledged_in, e) (by_pick t.wrote t.is_cancelled t.pick)
  ]
    where
      by_pick :
          (w c : Bool) (p : Pick)
          → After-Inv q (accepted flushing p ++ taken) (acknowledged p ++ acks) (flush_body h w c p)
      by_pick false c p = tt
      by_pick true true p = tt
      by_pick true false (token cut) = tt
      by_pick true false (response cut item) =
          on_item-Inv flushing (begun h cut) cut item (begun-Inv h cut v)
      by_pick true false (request cut message) = v
      by_pick true false (sent answer) = send_turn-Inv flushing h answer v

occurrences-le :
    (q : Sequence) (bs cs : List TupleBuffer) → occurrences q (bs ++ cs) ≤ 1 → occurrences q cs ≤ 1
occurrences-le q bs cs h = omega (arith, occurrences-append q bs cs)

Reach-Inv :
    (q : Sequence) {place : Place} {h : ChannelHandler} {taken : List TupleBuffer}
    {acks : List Sequence}
    → Reach place h taken acks
    → occurrences q taken ≤ 1
    → Inv q taken acks h
unfolding occurrences hits HashMap.get
Reach-Inv q start few = record { keyed = tt; balanced = omega arith }
Reach-Inv q (next {place} {h} {taken} {acks} r t e) few =
    let less = occurrences-le q (accepted place t.pick) taken few in
    let v = turn-Inv q taken acks less place h t (Reach-Inv q r less) in
    subst (After-Inv q (accepted place t.pick ++ taken) (acknowledged_in place h t.pick ++ acks)) e
      v

Reach-IsBounded :
    {place : Place} {h : ChannelHandler} {taken : List TupleBuffer} {acks : List Sequence}
    → Reach place h taken acks
    → IsBounded h
Reach-IsBounded start = new-IsBounded
Reach-IsBounded (next {place} {h} r t e) =
    subst Bounded e (turn-IsBounded place h t (Reach-IsBounded r))

-- In every reachable state of the handler at most 64 buffers wait for their acknowledgment, and a
-- sequence that came from the queue at most once is pending, waiting or acknowledged as often as it
-- came: no buffer of it is lost and none is there twice.
pub every_buffer_held :
    (q : Sequence) {place : Place} {h : ChannelHandler} {taken : List TupleBuffer}
    {acks : List Sequence}
    → Reach place h taken acks
    → occurrences q taken ≤ 1
    → (length h.wait_for_ack ≤ max_pending_acks)
      × (occurrences q h.pending_writes + present (HashMap.get q h.wait_for_ack) + hits q acks
          ≡ occurrences q taken)
every_buffer_held q r few = ((Reach-IsBounded r).few, (Reach-Inv q r few).balanced)
