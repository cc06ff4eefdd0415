-- ===== src/Udp/Receiver/Events.antt =====
-- The calls of `UdpReceiver` as one sequence of events, with what they hand to the caller.
use bdspro_udp_v.Udp.Receiver.{receive_from_buffer, receive_message, UdpReceiver}
use bdspro_udp_v.Udp.Semaphore.{Semaphore}
use bdspro_udp_v.Udp.Message.{err, Message, Json, Io, Result, Bytes}
use bdspro_udp_v.Common.{
  List, Option, [], if◌then◌else◌, length, nat_eq, none, some, string_eq, ℕ, ◌++◌, ◌+◌, ◌-◌, ◌==◌,
  ◌∷◌,
}

pub data Event : Type 0 where
  receives : Option Bytes → Io → Event
  pops : Event

-- What a call reports as received, if it is a DATA message.
abbrev pub reported : Result (Option Message) → List Message
reported (Result.ok (some message)) = if message.typ == "DATA" then message ∷ [] else []
reported (Result.ok none) = []
reported (err _) = []

abbrev pub taken : Option Message → List Message
taken none = []
taken (some message) = message ∷ []

module _ {S : Type 0} ⦃sem : Semaphore S⦄ ⦃json : Json⦄ where
  unfoldable pub step : UdpReceiver S → Event → UdpReceiver S
  step r (receives datagram answer) = (receive_message r datagram answer).state
  step r pops = (receive_from_buffer r).0

  unfoldable pub run : UdpReceiver S → List Event → UdpReceiver S
  run r [] = r
  run r (e ∷ es) = run (step r e) es

  -- The messages that the receive calls reported, in order.
  unfoldable pub reports : UdpReceiver S → List Event → List Message
  reports r [] = []
  reports r (receives datagram answer ∷ es) =
      reported (receive_message r datagram answer).result
      ++ reports (receive_message r datagram answer).state es
  reports r (pops ∷ es) = reports (receive_from_buffer r).0 es

  -- The messages that were taken from the buffer, in order.
  unfoldable pub popped : UdpReceiver S → List Event → List Message
  popped r [] = []
  popped r (receives datagram answer ∷ es) = popped (receive_message r datagram answer).state es
  popped r (pops ∷ es) = taken (receive_from_buffer r).1 ++ popped (receive_from_buffer r).0 es

  -- How many messages a failing receive has buffered all the same.
  unfoldable pub late_failure : UdpReceiver S → Event → ℕ
  late_failure r (receives datagram answer) =
      let call = receive_message r datagram answer in
      elim call.result [
        | Result.ok _ ↦ 0
        | err _ ↦ length call.state.receive_buffer - length r.receive_buffer
      ]
  late_failure r pops = 0

  unfoldable pub late_failures : UdpReceiver S → List Event → ℕ
  late_failures r [] = 0
  late_failures r (e ∷ es) = late_failure r e + late_failures (step r e) es
