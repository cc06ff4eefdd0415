-- ===== src/Udp/Sender/Overshoot.antt =====
-- A send that fails after its permit was taken.
use bdspro_udp_v.Udp.Sender.Window.{IsWindow}
use bdspro_udp_v.Udp.Sender.{
  in_flight_message, InFlightMessage, UdpSender, on_ack, send_message_auto_seq,
}
use bdspro_udp_v.Udp.Message.{failed, data_message, Bytes, Json}
use bdspro_udp_v.Udp.Semaphore.{Semaphore}
use bdspro_udp_v.Common.{
  String, arith, inl, inr, length, nat_eq, some, string_eq, ℕ, ◌+◌, ◌<◌, ◌^◌, ◌≡◌,
}
use bdspro_udp_v.HashMap
use bdspro_udp_v.HashMap.{
  HashMap, Distinct, get-insert, get-remove, insert-Distinct, remove-Distinct, length-insert_fresh,
  length-remove, remove_absent,
}

module _ {S : Type 0} ⦃sem : Semaphore S⦄ ⦃json : Json⦄ where
  -- Where the socket refuses a serialisable message that had its permit, the sender keeps the message
  -- in flight although the permit is back; a later acknowledgment of it leaves one permit more than
  -- there were before the call, and as many messages in flight.
  pub failed_send_widens :
      (size extra : ℕ) (s : UdpSender S) (text : String) (now : ℕ) (encoded : Bytes)
      → IsWindow size extra s
      → s.next_seq + 1 < 2 ^ 64
      → 0 < sem.available_permits s.send_window
      → json.to_vec (data_message s.next_seq text) ≡ some encoded
      → let sent = (send_message_auto_seq s text now failed).state in
        let acked = on_ack sent s.next_seq in
        (length sent.in_flight ≡ length s.in_flight + 1)
        × (sem.available_permits sent.send_window ≡ sem.available_permits s.send_window)
        × (length acked.in_flight ≡ length s.in_flight)
        × (sem.available_permits acked.send_window ≡ sem.available_permits s.send_window + 1)
  unfolding send_message_auto_seq on_ack
  failed_send_widens size extra s text now encoded v small free serial =
      elim (sem.available-try_acquire s.send_window) [
        | inl (_, empty) ↦ absurd (omega arith)
        | inr (window, taken, less) ↦
            let msg : InFlightMessage = in_flight_message s.next_seq text now in
            ground (
              arith,
              v.numbered s.next_seq (omega arith),
              length-insert_fresh s.next_seq msg s.in_flight,
              get-insert s.next_seq s.next_seq msg s.in_flight,
              insert-Distinct s.next_seq msg s.in_flight,
              length-remove s.next_seq (HashMap.insert s.next_seq msg s.in_flight) msg,
              sem.available-add_permits window 1,
              sem.available-add_permits (sem.add_permits window 1) 1,
            )
      ]
