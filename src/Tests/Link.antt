-- ===== src/Tests/Link.antt =====
-- Both ends of a data channel, over a buffer that is sent, handed over, acknowledged and flushed.
use bdspro_udp_v.Common.{
  Mem, [], arith, false, inl, inr, nat_eq, none, refl, some, string_eq, true, ◌∷◌, ◌≡◌,
}
use bdspro_udp_v.HashMap
use bdspro_udp_v.Tests.Channel.{chunk}
use bdspro_udp_v.Tcp.Protocol.{TupleBuffer, tuples, sequence, sequence_eq, ack_data}
use bdspro_udp_v.Tcp.Dispatcher.{ran}
use bdspro_udp_v.Tcp.Channel.{
  ChannelHandler, Turn, Pick, request, sent, fed, response, got, buffer, flush, flushing, turn,
  token, new,
}
use bdspro_udp_v.Tcp.Channel.History.{occurrences, acknowledged_in}
use bdspro_udp_v.Tcp.Intake
use bdspro_udp_v.Tcp.Intake.{deliver, acknowledge, take_in}
use bdspro_udp_v.Tcp.Link.{serving, Link, Reach, start, sends, delivers, reads, reading, heard}
use bdspro_udp_v.Tcp.Channel.History.{hits}
use bdspro_udp_v.Tcp.Link.Carried.{Carried, under_flush}
use bdspro_udp_v.Tcp.Link.Drains.{Completed, flush-Completed}
use bdspro_udp_v.Tcp.Link.Delivered.{flush_delivered}

abbrev picks : Pick → Turn
picks pick = record { wrote = true; is_cancelled = false; pick = pick }

once : (b : TupleBuffer) → Mem b (chunk 1 ∷ []) → occurrences (sequence b) (chunk 1 ∷ []) ≡ 1
unfolding occurrences sequence
once b (inl e) = rw (← e) refl
once b (inr m) = absurd m

abbrev flushed : Link
flushed = record { place = flushing; sender = new; requests = []; peer = reading; responses = [] }

flushed-Reach : Reach flushed (chunk 1 ∷ []) ((1, 1) ∷ []) (chunk 1 ∷ [])
unfolding turn heard acknowledged_in deliver acknowledge take_in HashMap.insert HashMap.remove
    HashMap.get sequence
flushed-Reach =
    sends
      (delivers
        (reads
          (delivers
            (sends
              (sends (sends start (picks (request false (some (buffer (chunk 1))))) [] refl refl)
                (picks (request false (some flush))) [] refl refl)
              (picks (sent fed)) [] refl refl)
            none (ran true) (ran true) refl)
          (ran (Intake.got (tuples (chunk 1)))) [] refl refl)
        (some (chunk 1)) (ran true) (ran true) refl)
      (picks (response false (got (ack_data (1, 1))))) [] refl refl

flush_delivered_example : chunk 1 ∷ [] ≡ chunk 1 ∷ []
unfolding turn occurrences sequence
flush_delivered_example = flush_delivered flushed-Reach refl (picks (token false)) refl once

-- The buffer is written, and the receiver has not begun.
abbrev waiting : ChannelHandler
waiting = record { pending_writes = []; wait_for_ack = ((1, 1), chunk 1) ∷ [] }

written-Reach :
    Reach (under_flush waiting (tuples (chunk 1) ∷ []) (serving none) []) (chunk 1 ∷ []) [] []
unfolding turn heard acknowledged_in HashMap.insert HashMap.remove HashMap.get sequence
written-Reach =
    sends
      (sends (sends start (picks (request false (some (buffer (chunk 1))))) [] refl refl)
        (picks (request false (some flush))) [] refl refl)
      (picks (sent fed)) [] refl refl

written-Carried : Carried waiting (tuples (chunk 1) ∷ []) (serving none) []
unfolding occurrences hits sequence HashMap.get
written-Carried = record {
  is_there = tt;
  no_close = (tt, tt);
  only_acks = tt;
  on_its_way = λ q. ground (arith, sequence_eq.same_iff (1, 1) q);
}

flush-Completed_example :
    Completed (under_flush waiting (tuples (chunk 1) ∷ []) (serving none) []) (chunk 1 ∷ []) [] []
unfolding occurrences sequence
flush-Completed_example =
    flush-Completed waiting (tuples (chunk 1) ∷ []) (serving none) [] written-Reach written-Carried
      once
