-- ===== src/Udp/Simple/Refines.antt =====
-- Where there is room, the channel with flow control behaves as the simple one.
use bdspro_udp_v.Common.{Option, String, arith, inl, inr, nat_eq, string_eq, ℕ, ◌<◌, ◌≡◌}
use bdspro_udp_v.Udp.Message.{Bytes, Json, Io}
use bdspro_udp_v.Udp.Semaphore.{Semaphore}
use bdspro_udp_v.Udp.Sender
use bdspro_udp_v.Udp.Receiver
use bdspro_udp_v.Udp.Simple
use bdspro_udp_v.Udp.Simple.{SimpleSender, SimpleReceiver}

module _ {S : Type 0} ⦃sem : Semaphore S⦄ ⦃json : Json⦄ where
  abbrev pub forget_sender : Sender.UdpSender S → SimpleSender
  forget_sender s = record { sent_messages = s.sent_messages }

  abbrev pub forget_receiver : Receiver.UdpReceiver S → SimpleReceiver
  forget_receiver r = record { received_seqs = r.received_seqs }

  -- With a permit free, a send writes the same datagrams, returns the same and stores the same texts as
  -- the simple one, whatever the serialiser and the socket answer.
  pub send_refines :
      (s : Sender.UdpSender S) (seq : ℕ) (text : String) (now : ℕ) (answer : Io)
      → 0 < sem.available_permits s.send_window
      → let full = Sender.send_message s seq text now answer in
        let simple = Simple.send_message (forget_sender s) seq text answer in
        (full.wire ≡ simple.wire)
        × (full.result ≡ simple.result)
        × (forget_sender full.state ≡ simple.state)
  unfolding Sender.send_message Simple.send_message
  send_refines s seq text now answer room = elim (sem.available-try_acquire s.send_window) [
    | inl (_, empty) ↦ absurd (omega arith)
    | inr (window, taken, less) ↦ ground arith
  ]

  -- With a permit free, a receive writes the same datagrams, returns the same and knows the same numbers
  -- as the simple one, whatever was received and whatever the serialiser and the socket answer.
  pub receive_refines :
      (r : Receiver.UdpReceiver S) (datagram : Option Bytes) (answer : Io)
      → 0 < sem.available_permits r.buffer_semaphore
      → let full = Receiver.receive_message r datagram answer in
        let simple = Simple.receive_message (forget_receiver r) datagram answer in
        (full.wire ≡ simple.wire)
        × (full.result ≡ simple.result)
        × (forget_receiver full.state ≡ simple.state)
  unfolding Receiver.receive_message Simple.receive_message
  receive_refines r datagram answer room = elim (sem.available-try_acquire r.buffer_semaphore) [
    | inl (_, empty) ↦ absurd (omega arith)
    | inr (permits, taken, less) ↦ ground arith
  ]
