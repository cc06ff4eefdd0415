-- ===== src/Tcp/Channel/Finish.antt =====
-- How many turns a flush takes when the outside answers.
use bdspro_udp_v.Common.{
  Bool-cases, List, [], arith, false, inl, inr, length, nat_eq, refl, some, string_eq, suc, true,
  zero, ℕ, ◌*◌, ◌+◌, ◌<◌, ◌∷◌, ◌≡◌,
}
use bdspro_udp_v.HashMap
use bdspro_udp_v.HashMap.{
  HashMap, Distinct, get-insert, get-remove, insert-Distinct, remove-Distinct, length-insert_fresh,
  length-remove, remove_absent,
}
use bdspro_udp_v.HashMap.{length-insert_le, length-remove_le}
use bdspro_udp_v.Tcp.Protocol.{TupleBuffer, Sequence, sequence_eq, sequence, ack_data}
use bdspro_udp_v.Tcp.Channel.{
  ChannelHandler, ChannelHandlerError, fed, send_pending, got, on_item, handle_response, running,
  flushing, After, goes, stops, Pick, response, sent, holds_back, begun, send_turn, is_drained,
  flush_body, flush_turn, Turn, turn,
}
use bdspro_udp_v.Tcp.Channel.Window.{IsBounded, Bounded, turn-IsBounded}

-- The loop of `flush`, for as many turns as there is fuel; the outside may go by the fuel that is left.
pub data Flushed : Type 0 where
  completed : ChannelHandler → Flushed
  failed : ChannelHandlerError → Flushed
  unfinished : Flushed

unfoldable pub flush_loop : ℕ → (ℕ → ChannelHandler → Turn) → ChannelHandler → Flushed
unfolding turn
flush_loop zero outside h = unfinished
flush_loop (suc fuel) outside h = elim (turn flushing h (outside fuel h)) [
  | goes running h' wire ↦ completed h'
  | goes flushing h' wire ↦ flush_loop fuel outside h'
  | stops e wire ↦ failed e
]

-- The outside answers: the writer is flushed, nothing is cancelled, and either the writer takes a buffer
-- that may be sent, or a buffer that waits is acknowledged.
pub data Helps (h : ChannelHandler) : Pick → Type 0 where
  takes : holds_back h ≡ false → Helps h (sent fed)
  acknowledges :
      {seq : Sequence} {write : TupleBuffer}
      → HashMap.get seq h.wait_for_ack ≡ some write
      → Helps h (response false (got (ack_data seq)))

pub record Answers (h : ChannelHandler) (t : Turn) : Type 0 where
  pub flushes : t.wrote ≡ true
  pub is_wanted : t.is_cancelled ≡ false
  pub helps : Helps h t.pick

-- What is left: a pending buffer has to be sent and acknowledged.
abbrev pub left_over : ChannelHandler → ℕ
left_over h = 2 * length h.pending_writes + length h.wait_for_ack

abbrev Shrinks : ChannelHandler → After → Type 0
Shrinks h (goes flushing h' wire) = left_over h' < left_over h
Shrinks h (goes running h' wire) = ⊥
Shrinks h (stops e wire) = ⊥

send_pending-Shrinks :
    (h : ChannelHandler) → holds_back h ≡ false → left_over (send_pending h fed).0 < left_over h
unfolding send_pending holds_back
send_pending-Shrinks h room = by_list h.pending_writes refl
  where
    by_list :
        (bs : List TupleBuffer)
        → h.pending_writes ≡ bs
        → left_over (send_pending h fed).0 < left_over h
    by_list [] e = absurd (ground arith)
    by_list (b ∷ rest) e =
        rw (send_pending, e) (omega (arith, length-insert_le (sequence b) b h.wait_for_ack))

turn-Shrinks :
    (h : ChannelHandler) (t : Turn)
    → is_drained h ≡ false
    → IsBounded h
    → Answers h t
    → Shrinks h (turn flushing h t)
unfolding turn flush_turn flush_body begun send_turn on_item handle_response
turn-Shrinks h t more v a = rw (more, a.flushes, a.is_wanted) (by_pick t.pick a.helps)
  where
    by_pick : (p : Pick) → Helps h p → Shrinks h (flush_body h true false p)
    by_pick _ (takes room) = rw room (send_pending-Shrinks h room)
    by_pick _ (acknowledges {seq} {write} there) =
        rw (flush_body, begun, on_item, handle_response, there)
          (omega (arith, length-remove seq h.wait_for_ack write v.distinct there))

pub drained_turn :
    (h : ChannelHandler) (t : Turn) → is_drained h ≡ true → turn flushing h t ≡ goes running h []
unfolding turn flush_turn
drained_turn h t e = rw e refl

abbrev pub Finishes : ℕ → (ℕ → ChannelHandler → Turn) → ChannelHandler → Type 0
Finishes fuel outside h =
    (h' : ChannelHandler) × (flush_loop fuel outside h ≡ completed h') × (is_drained h' ≡ true)

-- Turns that are answered drain the handler before the fuel is spent, if there are more than twice as many as
-- buffers are pending and once as many as buffers wait; it ends with nothing pending and nothing that
-- waits.
pub flush-Finishes :
    (fuel : ℕ) (outside : ℕ → ChannelHandler → Turn) (h : ChannelHandler)
    → IsBounded h
    → ((n : ℕ) (g : ChannelHandler) → is_drained g ≡ false → Answers g (outside n g))
    → left_over h < fuel
    → Finishes fuel outside h
unfolding flush_loop
flush-Finishes zero outside h v answers enough = absurd (omega arith)
flush-Finishes (suc fuel) outside h v answers enough = elim (Bool-cases (is_drained h)) [
  | inl e ↦ (h, rw (flush_loop, drained_turn h (outside fuel h) e) refl, e)
  | inr e ↦
      by_turn (turn flushing h (outside fuel h)) refl
        (turn-Shrinks h (outside fuel h) e v (answers fuel h e))
        (turn-IsBounded flushing h (outside fuel h) v)
        (λ g w less. flush-Finishes fuel outside g w answers less)
]
  where
    by_turn :
        (a : After)
        → turn flushing h (outside fuel h) ≡ a
        → Shrinks h a
        → Bounded a
        → ((g : ChannelHandler) → IsBounded g → left_over g < fuel → Finishes fuel outside g)
        → Finishes (suc fuel) outside h
    by_turn (goes flushing g wire) is less w next =
        let (h', ends, drained) = next g w (omega arith) in (h', rw (flush_loop, is) ends, drained)
    by_turn (goes running g wire) is less w next = absurd less
    by_turn (stops e wire) is less w next = absurd less
