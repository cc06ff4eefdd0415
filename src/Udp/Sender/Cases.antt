-- ===== src/Udp/Sender/Cases.antt =====
-- Splits on what a call of `UdpSender` finds, once for all proofs.
use bdspro_udp_v.HashMap
use bdspro_udp_v.Common.{
  none, List, eq_iff, refl, ◌+◌, ℕ, ◌≡◌, String, some, [], ◌∷◌, inl, inr, Bool-cases, Option-cases,
  nat_eq, string_eq, ◌==◌,
}
use bdspro_udp_v.Udp.Message.{
  recv_from, Message, Result, u64, send_window_full, Bytes, Json, Io, done, failed, Outcome, ok,
  err, io, serialization, data_message,
}
use bdspro_udp_v.Udp.Semaphore.{Semaphore}
use bdspro_udp_v.Udp.Sender.{
  listen_to, on_rqst, store, send_message_auto_seq, send_message, UdpSender, InFlightMessage,
  drop_permit, on_ack, transmit, dispatch, on_datagram, listen,
}
use bdspro_udp_v.Udp.Sender.Events.{failed_late}

module _ {S : Type 0} ⦃sem : Semaphore S⦄ where
  pub on_ack_cases {ℓ} :
      (P : UdpSender S → Type ℓ) (s : UdpSender S) (seq : ℕ)
      → P s
      → ((msg : InFlightMessage)
          → HashMap.get seq s.in_flight ≡ some msg
          → P (record s {
            in_flight = HashMap.remove seq s.in_flight;
            send_window = sem.add_permits s.send_window 1;
          }))
      → P (on_ack s seq)
  unfolding on_ack
  on_ack_cases P s seq unknown acked = elim (Option-cases (HashMap.get seq s.in_flight)) [
    | inl e ↦ rw (e, on_ack) unknown
    | inr (msg, e) ↦ rw (e, on_ack) (acked msg e)
  ]

module _ {S : Type 0} ⦃sem : Semaphore S⦄ ⦃json : Json⦄ where
  -- A datagram is passed over, asks for a message again, or acknowledges one.
  pub on_datagram_cases {ℓ} :
      (P : UdpSender S × List Bytes → Type ℓ) (s : UdpSender S) (datagram : Bytes)
      → P (s, [])
      → ((seq : ℕ) → P (s, on_rqst s seq))
      → ((message : Message)
          → recv_from datagram ≡ some message
          → message.typ ≡ "ACK"
          → P (on_ack s message.seq, []))
      → P (on_datagram s datagram)
  unfolding on_datagram
  on_datagram_cases P s datagram idle asked acked = elim (Option-cases (recv_from datagram)) [
    | inl e ↦ rw (e, listen, on_datagram) idle
    | inr (message, e) ↦ rw (e, listen, on_datagram) (by_type message e)
  ]
    where
      by_type :
          (message : Message)
          → recv_from datagram ≡ some message
          → P (elim (listen_to message) [ none ↦ (s, []) | some control ↦ dispatch s control ])
      by_type message e = elim (Bool-cases (message.typ == "RQST")) [
        | inl f ↦ rw f (asked message.seq)
        | inr f ↦ rw f (elim (Bool-cases (message.typ == "ACK")) [
          | inl g ↦ rw g (acked message e ((eq_iff message.typ "ACK").0 g))
          | inr g ↦ rw g idle
        ])
      ]

  pub transmit_cases {ℓ} :
      (P : Outcome (UdpSender S) (Unit {0}) → Type ℓ) (s : UdpSender S) (seq : ℕ) (text : String)
      (answer : Io)
      → P (record { state = drop_permit s; wire = []; result = err serialization })
      → ((encoded : Bytes)
          → json.to_vec (data_message seq text) ≡ some encoded
          → P (record { state = drop_permit s; wire = encoded ∷ []; result = err io }))
      → ((encoded : Bytes)
          → json.to_vec (data_message seq text) ≡ some encoded
          → P (record { state = s; wire = encoded ∷ []; result = ok tt }))
      → P (transmit s seq text answer)
  unfolding transmit
  transmit_cases P s seq text answer unserial lost sent =
      elim (Option-cases (json.to_vec (data_message seq text))) [
        | inl e ↦ rw (e, transmit) unserial
        | inr (encoded, e) ↦ rw (e, transmit) (by_answer answer encoded e)
      ]
    where
      by_answer :
          (given : Io) (encoded : Bytes)
          → json.to_vec (data_message seq text) ≡ some encoded
          → P (elim given [
            | failed ↦ record { state = drop_permit s; wire = encoded ∷ []; result = err io }
            | done ↦ record { state = s; wire = encoded ∷ []; result = ok tt }
          ])
      by_answer failed encoded e = lost encoded e
      by_answer done encoded e = sent encoded e

  pub send_message_cases {ℓ} :
      (P : Outcome (UdpSender S) (Unit {0}) → Type ℓ) (s : UdpSender S) (seq : ℕ) (text : String)
      (now : ℕ) (answer : Io)
      → P (record { state = s; wire = []; result = err send_window_full })
      → ((window : S)
          → sem.available_permits window + 1 ≡ sem.available_permits s.send_window
          → P (transmit (store s window seq text now) seq text answer))
      → P (send_message s seq text now answer)
  unfolding send_message
  send_message_cases P s seq text now answer refused taken =
      elim (sem.available-try_acquire s.send_window) [
        | inl (e, _) ↦ rw (e, send_message) refused
        | inr (window, e, less) ↦ rw (e, send_message) (taken window less)
      ]

  -- The number of a message changes only the value that is returned.
  pub auto_seq_failed_late :
      (s : UdpSender S) (text : String) (now : ℕ) (answer : Io)
      → failed_late (send_message_auto_seq s text now answer).result
        ≡ failed_late
            (send_message
              (record s { next_seq = u64 (s.next_seq + 1) })
              s.next_seq
              text
              now
              answer).result
  unfolding send_message_auto_seq
  auto_seq_failed_late s text now answer = by_result _
    where
      by_result :
          (r : Result (Unit {0}))
          → failed_late {A = ℕ} (elim r [ err e ↦ err e | ok _ ↦ ok s.next_seq ]) ≡ failed_late r
      by_result (ok _) = refl
      by_result (err io) = refl
      by_result (err _) = refl
