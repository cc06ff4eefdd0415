-- ===== src/Udp/Receiver/Order.antt =====
-- The receive buffer as a queue.
use bdspro_udp_v.Udp.Receiver.Cases.{receive_message_cases}
use bdspro_udp_v.Udp.Receiver.Buffer.{late}
use bdspro_udp_v.Udp.Receiver.{
  record_message, receive_from_buffer, acknowledge, receive_message, UdpReceiver,
}
use bdspro_udp_v.Udp.Receiver.Events.{
  pops, taken, step, reported, receives, Event, late_failures, reports, run, late_failure, popped,
}
use bdspro_udp_v.Udp.Message.{Message, Outcome, Io, Bytes, Json}
use bdspro_udp_v.Udp.Semaphore.{Semaphore}
use bdspro_udp_v.Common.{
  List, Option, [], ap, arith, eq_iff, length-append, nat_eq, string_eq, sym, ◌++◌, ◌∙◌, ◌∷◌, ◌≡◌,
}
use mathlib.Core.List.{append_assoc, append-nil}

module _ {S : Type 0} ⦃sem : Semaphore S⦄ ⦃json : Json⦄ where
  -- A receive call that does not fail late appends what it reports to the buffer.
  receive-buffer :
      (r : UdpReceiver S) (datagram : Option Bytes) (answer : Io)
      → late_failure r (receives datagram answer) ≡ 0
      → let call = receive_message r datagram answer in
        call.state.receive_buffer ≡ r.receive_buffer ++ reported call.result
  unfolding late_failure acknowledge record_message
  receive-buffer r datagram answer =
      receive_message_cases Appends r datagram answer (λ _ _. sym (append-nil _))
        (λ message other _. ground (arith, eq_iff message.typ "DATA", append-nil r.receive_buffer))
        (λ _ _ _. sym (append-nil _))
        (λ _ message permits _ _ data_typ _ quiet.
          record_message-buffer message permits data_typ quiet)
    where
      Appends : Outcome (UdpReceiver S) (Option Message) → Type 0
      Appends call =
          late r call ≡ 0 → call.state.receive_buffer ≡ r.receive_buffer ++ reported call.result

      record_message-buffer :
          (message : Message) (permits : S)
          → message.typ ≡ "DATA"
          → Appends (acknowledge (record_message r permits message) message answer)
      record_message-buffer message permits data_typ quiet =
          ground (arith, eq_iff message.typ "DATA", length-append r.receive_buffer (message ∷ []))

  -- The message that is taken was at the front.
  pop-buffer :
      (r : UdpReceiver S)
      → taken (receive_from_buffer r).1 ++ (receive_from_buffer r).0.receive_buffer
        ≡ r.receive_buffer
  unfolding receive_from_buffer
  pop-buffer r = ground arith

  -- Where no receive fails after it buffered its message, the messages taken from the buffer and
  -- those still in it are, in order, those that were in it and those that the receive calls reported.
  pub popped-reports :
      (r : UdpReceiver S) (es : List Event)
      → late_failures r es ≡ 0
      → popped r es ++ (run r es).receive_buffer ≡ r.receive_buffer ++ reports r es
  unfolding popped run reports late_failures step late_failure
  popped-reports r [] h = sym (append-nil r.receive_buffer)
  popped-reports r (receives datagram answer ∷ es) h =
      let call = receive_message r datagram answer in
      popped-reports call.state es (omega arith)
      ∙ ap (λ b. b ++ reports call.state es) (receive-buffer r datagram answer (omega arith))
      ∙ append_assoc r.receive_buffer (reported call.result) (reports call.state es)
  popped-reports r (pops ∷ es) h =
      append_assoc (taken (receive_from_buffer r).1) (popped (receive_from_buffer r).0 es) _
      ∙ ap (◌++◌ (taken (receive_from_buffer r).1))
          (popped-reports (receive_from_buffer r).0 es (omega arith))
      ∙ sym (append_assoc (taken (receive_from_buffer r).1) _ (reports _ es))
      ∙ ap (λ b. b ++ reports (receive_from_buffer r).0 es) (pop-buffer r)
