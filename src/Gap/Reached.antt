-- ===== src/Gap/Reached.antt =====
-- The states that the main loop of external/BDSPro_UDP_Channel/src/bin/receiver.rs comes to, and their
-- range of numbers.
use bdspro_udp_v.Common.{
  Bool-cases, List, Option, [], inl, inr, ltb, nat_eq, none, refl, some, string_eq, subst, sym, ℕ,
  ◌++◌, ◌==◌, ◌∷◌, ◌≡◌,
}
use bdspro_udp_v.HashMap
use bdspro_udp_v.HashMap.{HashMap}
use bdspro_udp_v.Udp.Message.{Message, Bytes, Json, Io, recv_from, rqst_message, ack_message}
use bdspro_udp_v.Gap.{
  Receiver, new, Fate, goes, panics, io_error, ◌>>=◌, Sent, encoded, answered, expected,
  request_all, track_request, detect_in_range, detect_and_request_missing_sequences,
  missing_sequences, note_data, give_up, give_up_all, check_retransmission_timeouts, or_zero,
  timed_out, on_data, on_message, on_packet, turn, retransmission_timeout,
  max_retransmission_attempts,
}
use bdspro_udp_v.Gap.Range.{Ranged, Noted, note_data_lem}

-- What holds of a result, where there is one.
abbrev Goes : {A : Type 0} → (A → Type 0) → Fate A → Type 0
Goes P (goes a) = P a
Goes P panics = Unit
Goes P io_error = Unit

Goes-bind :
    {A B : Type 0} (P : A → Type 0) (Q : B → Type 0) (f : Fate A) (g : A → Fate B)
    → Goes P f
    → ((a : A) → P a → Goes Q (g a))
    → Goes Q (f >>= g)
Goes-bind P Q (goes a) g h next = next a h
Goes-bind P Q panics g h next = tt
Goes-bind P Q io_error g h next = tt

abbrev Any : {A : Type 0} → A → Type 0
Any a = Unit

Goes-Any : {A : Type 0} (f : Fate A) → Goes Any f
Goes-Any (goes a) = tt
Goes-Any panics = tt
Goes-Any io_error = tt

abbrev SentRanged : Sent → Type 0
SentRanged (r, wire) = Ranged r

module _ ⦃json : Json⦄ where
  request_all-Ranged :
      (answer : ℕ → Io) (now : ℕ) (seqs : List ℕ) (r : Receiver) (wire : List Bytes)
      → Ranged r
      → Goes SentRanged (request_all answer now (r, wire) seqs)
  unfolding request_all track_request
  request_all-Ranged answer now [] r wire v = v
  request_all-Ranged answer now (seq ∷ seqs) r wire v =
      Goes-bind Any SentRanged (encoded (rqst_message seq)) _ (Goes-Any _) λ bytes _.
        Goes-bind Any SentRanged (answered (answer seq)) _ (Goes-Any _)
          λ _ _. request_all-Ranged answer now seqs (track_request r seq now) (wire ++ bytes ∷ []) v

  detect-Ranged :
      (answer : ℕ → Io) (now : ℕ) (r : Receiver) (wire : List Bytes) (min max : Option ℕ)
      → Ranged r
      → Goes SentRanged (detect_in_range answer now (r, wire) min max)
  unfolding detect_in_range detect_and_request_missing_sequences
  detect-Ranged answer now r wire (some min) (some max) v =
      request_all-Ranged answer now (missing_sequences r max_retransmission_attempts min max) r wire
        v
  detect-Ranged answer now r wire none max v = v
  detect-Ranged answer now r wire (some min) none v = v

  give_up-Ranged :
      (max_attempts : ℕ) (r : Receiver) (seq : ℕ)
      → Ranged r
      → Goes Ranged (give_up max_attempts r seq)
  unfolding give_up
  give_up-Ranged max_attempts r seq v =
      elim (Bool-cases (ltb (or_zero (HashMap.get seq r.retransmission_attempts)) max_attempts)) [
        | inl more ↦
            rw more (Goes-bind Any Ranged (encoded (rqst_message seq)) _ (Goes-Any _) λ _ _. v)
        | inr spent ↦ rw spent v
      ]

  give_up_all-Ranged :
      (max_attempts : ℕ) (seqs : List ℕ) (r : Receiver)
      → Ranged r
      → Goes Ranged (give_up_all max_attempts r seqs)
  unfolding give_up_all
  give_up_all-Ranged max_attempts [] r v = v
  give_up_all-Ranged max_attempts (seq ∷ seqs) r v =
      Goes-bind Ranged Ranged (give_up max_attempts r seq) _ (give_up-Ranged max_attempts r seq v)
        λ r' v'. give_up_all-Ranged max_attempts seqs r' v'

  on_packet-Ranged :
      (r : Receiver) (o : Option Message) (now : ℕ) (ack_answer : Io) (answer : ℕ → Io)
      → Ranged r
      → Goes SentRanged (on_packet r o now ack_answer answer)
  unfolding on_packet on_message on_data
  on_packet-Ranged r none now ack_answer answer v = v
  on_packet-Ranged r (some message) now ack_answer answer v =
      elim (Bool-cases (message.typ == "DATA")) [
        | inr other ↦ rw other v
        | inl data_is ↦ rw data_is (
            Goes-bind Ranged SentRanged (note_data r message.seq) _ keeps λ r' v'.
              Goes-bind Any SentRanged (encoded (ack_message message.seq)) _ (Goes-Any _) λ ack _.
                Goes-bind Any SentRanged (expected ack_answer) _ (Goes-Any _)
                  λ _ _. detect-Ranged answer now r' (ack ∷ []) r'.min_seq r'.max_seq v')
      ]
    where
      keeps : Goes Ranged (note_data r message.seq)
      keeps =
          let (r', e, noted) = note_data_lem r message.seq v in subst (Goes Ranged) (sym e) noted.0

  turn-Ranged :
      (r : Receiver) (datagram : Bytes) (now later : ℕ) (ack_answer : Io) (answer : ℕ → Io)
      → Ranged r
      → Goes SentRanged (turn r datagram now later ack_answer answer)
  unfolding turn check_retransmission_timeouts
  turn-Ranged r datagram now later ack_answer answer v =
      Goes-bind SentRanged SentRanged (on_packet r (recv_from datagram) now ack_answer answer) _
        (on_packet-Ranged r (recv_from datagram) now ack_answer answer v)
        λ s v'.
          Goes-bind Ranged SentRanged
            (check_retransmission_timeouts s.0 later retransmission_timeout
              max_retransmission_attempts)
            _
            (give_up_all-Ranged max_retransmission_attempts
              (timed_out retransmission_timeout later s.0.retransmission_requests) s.0 v')
            λ r'' v''. v''

  -- The states between two turns.
  pub data Reach : Receiver → Type 0 where
    begins : Reach new
    turns :
        {r r' : Receiver}
        → Reach r
        → (datagram : Bytes) (now later : ℕ) (ack_answer : Io) (answer : ℕ → Io) {wire : List Bytes}
        → turn r datagram now later ack_answer answer ≡ goes (r', wire)
        → Reach r'

  Reach-Ranged : {r : Receiver} → Reach r → Ranged r
  unfolding HashMap.get
  Reach-Ranged begins = λ k. refl
  Reach-Ranged (turns {r} reached datagram now later ack_answer answer e) =
      subst (Goes SentRanged) e
        (turn-Ranged r datagram now later ack_answer answer (Reach-Ranged reached))

  -- In every state that the main loop comes to, from the start and over any datagrams, a DATA message does
  -- not meet the unreachable case of the range; its number is then seen, between the ends of the range,
  -- which are numbers seen, and not asked for any more, and all the rest that was seen stays so.
  pub note_data_goes :
      {r : Receiver}
      → Reach r
      → (seq : ℕ) → (r' : Receiver) × (note_data r seq ≡ goes r') × Noted r seq r'
  note_data_goes {r} reached seq = note_data_lem r seq (Reach-Ranged reached)
