-- ===== src/Udp/Receiver/Overflow.antt =====
-- A receive whose acknowledgment cannot be sent.
use bdspro_udp_v.Udp.Receiver.{UdpReceiver, receive_message}
use bdspro_udp_v.Udp.Message.{io, err, failed, ack_message, recv_from, Message, Bytes, Json}
use bdspro_udp_v.Udp.Semaphore.{Semaphore}
use bdspro_udp_v.Common.{[], arith, eq_iff, inl, inr, nat_eq, some, string_eq, ◌++◌, ◌<◌, ◌∷◌, ◌≡◌}

module _ {S : Type 0} ⦃sem : Semaphore S⦄ ⦃json : Json⦄ where
  -- Where the socket refuses the acknowledgment of a DATA message that found room, the call fails with
  -- the socket's error and reports nothing, the message is in the buffer, and the permit is back: the
  -- buffer has grown and has as much room as before.
  pub failed_ack_overflows :
      (r : UdpReceiver S) (datagram encoded : Bytes) (message : Message)
      → recv_from datagram ≡ some message
      → message.typ ≡ "DATA"
      → json.to_vec (ack_message message.seq) ≡ some encoded
      → 0 < sem.available_permits r.buffer_semaphore
      → let call = receive_message r (some datagram) failed in
        (call.result ≡ err io)
        × (call.state.receive_buffer ≡ r.receive_buffer ++ message ∷ [])
        × (sem.available_permits call.state.buffer_semaphore
            ≡ sem.available_permits r.buffer_semaphore)
  unfolding receive_message
  failed_ack_overflows r datagram encoded message read data_typ serial free =
      elim (sem.available-try_acquire r.buffer_semaphore) [
        | inl (_, empty) ↦ absurd (omega arith)
        | inr (permits, taken, less) ↦
            ground (arith, eq_iff message.typ "DATA", sem.available-add_permits permits 1)
      ]
