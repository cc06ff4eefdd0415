-- ===== src/Tests/Finish.antt =====
-- A flush with a peer that acknowledges the buffer that waits longest in the table's order.
use bdspro_udp_v.Common.{
  Bool-cases, List, [], arith, false, if◌then◌else◌, inl, inr, nat_eq, refl, string_eq, true, ℕ,
  ◌∷◌, ◌≡◌,
}
use bdspro_udp_v.Common.{
  Bool-cases, List, [], arith, false, if◌then◌else◌, inl, inr, nat_eq, refl, string_eq, true, ℕ,
  ◌∷◌, ◌≡◌,
}
use bdspro_udp_v.HashMap
use bdspro_udp_v.HashMap.{HashMap}
use bdspro_udp_v.Tests.Channel.{chunk}
use bdspro_udp_v.Tcp.Protocol.{TupleBuffer, Sequence, sequence_eq, ack_data}
use bdspro_udp_v.Tcp.Channel.{
  ChannelHandler, Turn, Pick, token, response, sent, fed, got, holds_back, is_drained,
}
use bdspro_udp_v.Tcp.Channel.Window.{IsBounded}
use bdspro_udp_v.Tcp.Channel.Finish.{Finishes, Answers, Helps, takes, acknowledges, flush-Finishes}

unfoldable first_ack : HashMap Sequence TupleBuffer → Pick
first_ack [] = token false
first_ack ((seq, _) ∷ _) = response false (got (ack_data seq))

unfoldable answer : ChannelHandler → Pick
answer h = if holds_back h then first_ack h.wait_for_ack else sent fed

abbrev peer : ℕ → ChannelHandler → Turn
peer n h = record { wrote = true; is_cancelled = false; pick = answer h }

first_ack-Helps :
    (h : ChannelHandler)
    → holds_back h ≡ true
    → is_drained h ≡ false
    → Helps h (first_ack h.wait_for_ack)
unfolding holds_back is_drained first_ack HashMap.get
first_ack-Helps h full more = by_parts h.pending_writes h.wait_for_ack refl refl
  where
    by_parts :
        (p : List TupleBuffer) (w : HashMap Sequence TupleBuffer)
        → h.pending_writes ≡ p
        → h.wait_for_ack ≡ w
        → Helps h (first_ack w)
    by_parts p [] e f = absurd (ground (arith, e, f))
    by_parts p ((seq, write) ∷ m) e f =
        acknowledges {write = write} (rw f (ground (arith, sequence_eq.same_iff seq seq)))

peer-Answers : (n : ℕ) (h : ChannelHandler) → is_drained h ≡ false → Answers h (peer n h)
unfolding answer
peer-Answers n h more = record {
  flushes = refl;
  is_wanted = refl;
  helps = elim (Bool-cases (holds_back h)) [
    | inl full ↦ rw full (first_ack-Helps h full more)
    | inr room ↦ rw room (takes room)
  ];
}

abbrev three : ChannelHandler
three = record { pending_writes = chunk 2 ∷ chunk 3 ∷ []; wait_for_ack = ((1, 1), chunk 1) ∷ [] }

three-IsBounded : IsBounded three
unfolding HashMap.get
three-IsBounded = record { distinct = (refl, tt); few = omega arith }

flush-Finishes_example : Finishes 6 peer three
flush-Finishes_example = flush-Finishes 6 peer three three-IsBounded peer-Answers (omega arith)
