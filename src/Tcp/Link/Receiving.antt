-- ===== src/Tcp/Link/Receiving.antt =====
-- The receiver's turns, by what they take from the connection and what they hand to the queue.
use mathlib.Core.List.Sublistᴰ
use bdspro_udp_v.Common.{
  All, Bool, List, Option, [], arith, false, nat_eq, none, refl, some, string_eq, true, ◌++◌, ◌+◌,
  ◌∷◌, ◌≡◌,
}
use bdspro_udp_v.Common.{
  All, Bool, List, Option, [], arith, false, nat_eq, none, refl, some, string_eq, true, ◌++◌, ◌+◌,
  ◌∷◌, ◌≡◌, ◌≤◌,
}
use bdspro_udp_v.Tcp.Protocol.{
  tuples, TupleBuffer, Sequence, DataChannelRequest, tuples, sequence_eq,
}
use bdspro_udp_v.Tcp.Dispatcher.{Ran, cut, ran}
use mathlib.Core.List.{Sublistᴰ}
use bdspro_udp_v.Common.{
  All, Bool, List, Option, [], arith, false, nat_eq, none, refl, some, string_eq, true, ◌++◌, ◌+◌,
  ◌∷◌, ◌≡◌, ◌≤◌,
}
use bdspro_udp_v.Tcp.Intake.{
  After, goes, stops, deliver, acknowledge, refuse, take_in, Item, broken, got,
}
use bdspro_udp_v.Tcp.Intake.Delivery.{acks, waiting}
use bdspro_udp_v.Tcp.Channel.History.{hits, occurrences}
use bdspro_udp_v.Tcp.Link.{
  after_delivery, after_request, handed, answered, reading, asked, Peer, serving, ended,
}
use bdspro_udp_v.Tcp.Link.Sending.{buffers, IsRefusal}

-- What the peer has read and not handed over.
abbrev pub held : Peer → List TupleBuffer
held (serving pending) = waiting pending
held reading = []
held ended = []

pub hits-append : (q : Sequence) (xs ys : List Sequence) → hits q (xs ++ ys) ≡ hits q xs + hits q ys
unfolding hits
hits-append q [] ys = omega arith
hits-append q (x ∷ xs) ys = ground (arith, hits-append q xs ys)

-- What `deliver` hands over was pending, and it acknowledges no more than it hands over and refuses
-- nothing.
pub deliver_lem :
    (pending : Option TupleBuffer) (queued written : Ran Bool)
    → Sublistᴰ (handed (deliver pending queued written)) (waiting pending)
      × ((q : Sequence)
          → hits q (acks (answered (deliver pending queued written)))
            ≤ occurrences q (handed (deliver pending queued written)))
      × All (λ r. ¬ IsRefusal r) (answered (deliver pending queued written))
unfolding deliver acknowledge refuse hits occurrences
deliver_lem none queued written = (Sublistᴰ.refl [], (λ q. omega arith), tt)
deliver_lem (some b) cut written = (Sublistᴰ.nil-sublist (b ∷ []), (λ q. omega arith), tt)
deliver_lem (some b) (ran true) cut = (Sublistᴰ.refl (b ∷ []), (λ q. ground arith), tt)
deliver_lem (some b) (ran true) (ran false) = (Sublistᴰ.refl (b ∷ []), (λ q. ground arith), tt)
deliver_lem (some b) (ran true) (ran true) =
    (Sublistᴰ.refl (b ∷ []), (λ q. ground arith), ((λ r. r), tt))
deliver_lem (some b) (ran false) cut = (Sublistᴰ.nil-sublist (b ∷ []), (λ q. omega arith), tt)
deliver_lem (some b) (ran false) (ran false) =
    (Sublistᴰ.nil-sublist (b ∷ []), (λ q. omega arith), tt)
deliver_lem (some b) (ran false) (ran true) =
    (Sublistᴰ.nil-sublist (b ∷ []), (λ q. omega arith), ((λ r. r), tt))

-- What `take_in` makes pending was asked for.
pub take_in_lem :
    (request : Ran Item)
    → Sublistᴰ (held (after_request (take_in request [] []))) (buffers (asked request))
unfolding take_in
take_in_lem cut = Sublistᴰ.slnil
take_in_lem (ran Item.ended) = Sublistᴰ.slnil
take_in_lem (ran broken) = Sublistᴰ.slnil
take_in_lem (ran (got (tuples b))) = Sublistᴰ.refl (b ∷ [])
take_in_lem (ran (got DataChannelRequest.close)) = Sublistᴰ.slnil

pub held-after_delivery : (a : After) → held (after_delivery a) ≡ []
held-after_delivery (goes pending done wire) = refl
held-after_delivery (stops end done wire) = refl
