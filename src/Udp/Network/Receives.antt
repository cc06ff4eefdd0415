-- ===== src/Udp/Network/Receives.antt =====
-- What a call of the receiver does, seen from the network.
use bdspro_udp_v.Udp.Receiver.Cases.{acknowledge_cases, receive_message_cases}
use bdspro_udp_v.Udp.Message.{
  done, ok, io, err, failed, Outcome, recv_from, rqst_message, Io, Message, Bytes, ack_message,
  Json,
}
use bdspro_udp_v.Udp.Semaphore.{Semaphore}
use bdspro_udp_v.Common.{
  All, List, Option, Option-cases, [], arith, eq_iff, inl, inr, nat_eq, refl, some, string_eq, ℕ,
  ◌++◌, ◌∷◌, ◌≡◌, ◌⊎◌,
}
use bdspro_udp_v.HashMap
use bdspro_udp_v.HashMap.{
  HashMap, Distinct, get-insert, get-remove, insert-Distinct, remove-Distinct, length-insert_fresh,
  length-remove, remove_absent,
}
use bdspro_udp_v.Udp.Network.{Fits}
use bdspro_udp_v.Udp.Receiver.{
  buffer_full_message, request_retransmit, record_message, UdpReceiver, drop_permit,
  receive_message,
}

module _ ⦃json : Json⦄ where
  -- The receiver's own messages fit in the buffer that a sender reads them into.
  pub record RepliesFit : Type 0 where
    pub ack : (seq : ℕ) → Fits (ack_message seq)
    pub rqst : (seq : ℕ) → Fits (rqst_message seq)
    pub full : Fits buffer_full_message

module _ {S : Type 0} ⦃sem : Semaphore S⦄ ⦃json : Json⦄ where
  abbrev pub Seen : UdpReceiver S → ℕ → Type 0
  Seen r seq = HashMap.get seq r.received_seqs ≡ some tt

  -- The datagram is a message that fits, and an acknowledgment only of a number that was seen.
  abbrev pub IsReply : UdpReceiver S → Bytes → Type 0
  IsReply r datagram =
      (message : Message) × (json.to_vec message ≡ some datagram)
      × Fits message
      × (message.typ ≡ "ACK" → Seen r message.seq)

  -- From `r` to `t` the receiver forgets no number, answers only with such datagrams, and buffers at
  -- most one message, the DATA message that it was given.
  pub record ReceiverMove (r t : UdpReceiver S) (datagram : Bytes) (wire : List Bytes)
      : Type 0 where
    pub grows : (seq : ℕ) → Seen r seq → Seen t seq
    pub replies : All (IsReply t) wire
    pub buffers :
        (t.receive_buffer ≡ r.receive_buffer)
        ⊎ ((message : Message) × (recv_from datagram ≡ some message)
            × (message.typ ≡ "DATA")
            × (t.receive_buffer ≡ r.receive_buffer ++ message ∷ []))

  quiet-Move :
      (r : UdpReceiver S) (datagram : Bytes) (wire : List Bytes)
      → All (IsReply r) wire
      → ReceiverMove r r datagram wire
  quiet-Move r datagram wire h = record { grows = λ _ seen. seen; replies = h; buffers = inl refl }

  pub receive-Move :
      (r : UdpReceiver S) (datagram : Bytes) (answer : Io)
      → RepliesFit
      → ReceiverMove r
          (receive_message r (some datagram) answer).state
          datagram
          (receive_message r (some datagram) answer).wire
  unfolding record_message drop_permit
  receive-Move r datagram answer short =
      receive_message_cases Moves r (some datagram) answer (λ _. quiet-Move r datagram [] tt)
        (λ _ _. quiet-Move r datagram [] tt)
        (λ encoded e.
          quiet-Move r datagram (encoded ∷ [])
            ((buffer_full_message, e, short.full, λ ack. not_ack ack), tt))
        (λ bytes message permits same read data_typ _.
          let here : recv_from datagram ≡ some message = ground arith in
          acknowledge_cases Moves (record_message r permits message) message answer
            (buffered message here data_typ _ [] tt)
            (λ encoded e.
              buffered message here data_typ _ (encoded ∷ [])
                ((ack_message message.seq, e, short.ack message.seq, λ _. seen message), tt))
            (λ encoded e.
              buffered message here data_typ _ (encoded ∷ [])
                ((ack_message message.seq, e, short.ack message.seq, λ _. seen message), tt)))
    where
      Moves : Outcome (UdpReceiver S) (Option Message) → Type 0
      Moves call = ReceiverMove r call.state datagram call.wire

      not_ack : buffer_full_message.typ ≡ "ACK" → Seen r 0
      not_ack ack = cc ((eq_iff buffer_full_message.typ "ACK").1 ack)

      seen :
          (message : Message)
          → HashMap.get message.seq (HashMap.insert message.seq tt r.received_seqs) ≡ some tt
      seen message = ground (arith, get-insert message.seq message.seq tt r.received_seqs)

      buffered :
          (message : Message)
          → recv_from datagram ≡ some message
          → message.typ ≡ "DATA"
          → (permits : S) (wire : List Bytes)
          → All (IsReply (record_message r permits message)) wire
          → ReceiverMove r (record_message r permits message) datagram wire
      buffered message read data_typ permits wire replies = record {
        grows = λ seq old. ground (arith, get-insert message.seq seq tt r.received_seqs);
        replies = replies;
        buffers = inr (message, read, data_typ, refl);
      }

  pub request-IsReply :
      (r : UdpReceiver S) (seq : ℕ) (answer : Io)
      → RepliesFit
      → All (IsReply r) (request_retransmit r seq answer).wire
  unfolding request_retransmit
  request-IsReply r seq answer short = elim (Option-cases (json.to_vec (rqst_message seq))) [
    | inl e ↦ rw (e, request_retransmit) tt
    | inr (encoded, e) ↦ rw (e, request_retransmit) (by_answer answer encoded e)
  ]
    where
      not_ack : (rqst_message seq).typ ≡ "ACK" → Seen r seq
      not_ack ack = cc ((eq_iff "RQST" "ACK").1 ack)

      by_answer :
          (given : Io) (encoded : Bytes)
          → json.to_vec (rqst_message seq) ≡ some encoded
          → All (IsReply r) (
              (elim given as (λ _. Outcome (UdpReceiver S) (Unit {0})) [
                | failed ↦ record { state = r; wire = encoded ∷ []; result = err io }
                | done ↦ record { state = r; wire = encoded ∷ []; result = ok tt }
              ]).wire)
      by_answer failed encoded e = ((rqst_message seq, e, short.rqst seq, λ ack. not_ack ack), tt)
      by_answer done encoded e = ((rqst_message seq, e, short.rqst seq, λ ack. not_ack ack), tt)
