-- ===== src/Udp/Receiver/Cases.antt =====
-- Splits on what a call of `receive_message` finds, once for all proofs.
use bdspro_udp_v.Udp.Receiver.{
  on_message, on_data, record_message, buffer_full_message, drop_permit, UdpReceiver, refuse,
  receive_message, acknowledge,
}
use bdspro_udp_v.Udp.Message.{
  done, failed, recv_from, io, receive_buffer_full, Result, ack_message, serialization,
  UdpChannelError, Bytes, err, Io, Message, Outcome, Json,
}
use bdspro_udp_v.Udp.Semaphore.{Semaphore}
use bdspro_udp_v.Common.{
  Bool-cases, Option, Option-cases, [], eq_iff, inl, inr, nat_eq, none, refl, some, string_eq, ◌+◌,
  ◌==◌, ◌∷◌, ◌≡◌, ◌≢◌,
}

module _ {S : Type 0} ⦃sem : Semaphore S⦄ ⦃json : Json⦄ where
  pub acknowledge_cases {ℓ} :
      (P : Outcome (UdpReceiver S) (Option Message) → Type ℓ) (r : UdpReceiver S)
      (message : Message) (answer : Io)
      → P (record { state = drop_permit r; wire = []; result = err serialization })
      → ((encoded : Bytes)
          → json.to_vec (ack_message message.seq) ≡ some encoded
          → P (record { state = drop_permit r; wire = encoded ∷ []; result = err io }))
      → ((encoded : Bytes)
          → json.to_vec (ack_message message.seq) ≡ some encoded
          → P (record { state = r; wire = encoded ∷ []; result = Result.ok (some message) }))
      → P (acknowledge r message answer)
  unfolding acknowledge
  acknowledge_cases P r message answer unserial lost sent =
      elim (Option-cases (json.to_vec (ack_message message.seq))) [
        | inl e ↦ rw (e, acknowledge) unserial
        | inr (encoded, e) ↦ rw (e, acknowledge) (by_answer answer encoded e)
      ]
    where
      by_answer :
          (given : Io) (encoded : Bytes)
          → json.to_vec (ack_message message.seq) ≡ some encoded
          → P (elim given [
            | failed ↦ record { state = drop_permit r; wire = encoded ∷ []; result = err io }
            | done ↦ record { state = r; wire = encoded ∷ []; result = Result.ok (some message) }
          ])
      by_answer failed encoded e = lost encoded e
      by_answer done encoded e = sent encoded e

  refuse_cases {ℓ} :
      (P : Outcome (UdpReceiver S) (Option Message) → Type ℓ) (r : UdpReceiver S)
      → P (record { state = r; wire = []; result = err serialization })
      → ((encoded : Bytes)
          → json.to_vec buffer_full_message ≡ some encoded
          → P (record { state = r; wire = encoded ∷ []; result = err receive_buffer_full }))
      → P (refuse r)
  unfolding refuse
  refuse_cases P r unserial refused = elim (Option-cases (json.to_vec buffer_full_message)) [
    | inl e ↦ rw (e, refuse) unserial
    | inr (encoded, e) ↦ rw (e, refuse) (refused encoded e)
  ]

  -- A call leaves the state alone and acknowledges nothing, or buffers a DATA message.
  pub receive_message_cases {ℓ} :
      (P : Outcome (UdpReceiver S) (Option Message) → Type ℓ) (r : UdpReceiver S)
      (datagram : Option Bytes) (answer : Io)
      → ((error : UdpChannelError) → P (record { state = r; wire = []; result = err error }))
      → ((message : Message)
          → message.typ ≢ "DATA"
          → P (record { state = r; wire = []; result = Result.ok (some message) }))
      → ((encoded : Bytes)
          → json.to_vec buffer_full_message ≡ some encoded
          → P (record { state = r; wire = encoded ∷ []; result = err receive_buffer_full }))
      → ((bytes : Bytes) (message : Message) (permits : S)
          → datagram ≡ some bytes
          → recv_from bytes ≡ some message
          → message.typ ≡ "DATA"
          → sem.available_permits permits + 1 ≡ sem.available_permits r.buffer_semaphore
          → P (acknowledge (record_message r permits message) message answer))
      → P (receive_message r datagram answer)
  unfolding receive_message
  receive_message_cases P r none answer error other full taken = error io
  receive_message_cases P r (some bytes) answer error other full taken =
      elim (Option-cases (recv_from bytes)) [
        | inl e ↦ rw (e, receive_message) (error serialization)
        | inr (message, e) ↦ rw (e, receive_message) (by_type message e)
      ]
    where
      by_permit :
          (message : Message)
          → recv_from bytes ≡ some message
          → message.typ ≡ "DATA"
          → P (on_data r message answer)
      by_permit message e data_typ = elim (sem.available-try_acquire r.buffer_semaphore) [
        | inl (f, _) ↦ rw (f, on_data) (refuse_cases P r (error serialization) full)
        | inr (permits, f, less) ↦
            rw (f, on_data) (taken bytes message permits refl e data_typ less)
      ]

      by_type :
          (message : Message) → recv_from bytes ≡ some message → P (on_message r message answer)
      by_type message e = elim (Bool-cases (message.typ == "DATA")) [
        | inl f ↦ rw (f, on_message) (by_permit message e ((eq_iff _ _).0 f))
        | inr f ↦
            rw (f, on_message) (other message (λ same. cc ((eq_iff message.typ "DATA").1 same)))
      ]
