-- ===== src/Gap/Turns.antt =====
-- A turn of the main loop keeps the budget of a number.
use bdspro_udp_v.Common.{
  Bool-cases, List, Option, Option-cases, [], arith, false, inl, inr, nat_eq, none, refl, some,
  string_eq, subst, sym, ℕ, ◌+◌, ◌-◌, ◌==◌, ◌∷◌, ◌≡◌,
}
use bdspro_udp_v.HashMap
use bdspro_udp_v.HashMap.{
  HashMap, Distinct, get-insert, get-remove, insert-Distinct, remove-Distinct, length-insert_fresh,
  length-remove, remove_absent,
}
use bdspro_udp_v.Udp.Message.{Message, Bytes, Json, Io, done, failed, ack_message, recv_from}
use bdspro_udp_v.Gap.{
  Receiver, Fate, goes, panics, io_error, ◌>>=◌, Sent, max_retransmission_attempts, encoded,
  expected, missing_sequences, detect_and_request_missing_sequences, detect_in_range,
  check_retransmission_timeouts, timed_out, note_data, settle, widen, on_data, on_message,
  on_packet, turn, retransmission_timeout,
}
use bdspro_udp_v.Gap.Budget.{Budget, asks, asks-ack, Kept, After}
use bdspro_udp_v.Gap.Asking.{request_missing-Kept}
use bdspro_udp_v.Gap.Timeouts.{After-state, give_up_all-Kept}
use bdspro_udp_v.Gap.Range.{settle_seen}

settle_other :
    (r : Receiver) (seq k : ℕ)
    → (seq == k) ≡ false
    → (HashMap.get k (settle r seq).retransmission_requests
        ≡ HashMap.get k r.retransmission_requests)
      × (HashMap.get k (settle r seq).retransmission_attempts
          ≡ HashMap.get k r.retransmission_attempts)
unfolding settle
settle_other r seq k other = elim (Option-cases (HashMap.get seq r.retransmission_requests)) [
  | inl e ↦ ground (arith, e)
  | inr (time, e) ↦ ground (
    arith,
    e,
    get-remove seq k r.retransmission_requests,
    get-remove seq k r.retransmission_attempts,
  )
]

module _ ⦃json : Json⦄ where
  detect-Kept :
      (past k now : ℕ) (answer : ℕ → Io) (r : Receiver) (wire : List Bytes) (min max : Option ℕ)
      → Kept past k (r, wire)
      → After past k (detect_in_range answer now (r, wire) min max)
  unfolding detect_in_range detect_and_request_missing_sequences missing_sequences
  detect-Kept past k now answer r wire (some min) (some max) h =
      request_missing-Kept past k (max + 1 - min) min now answer r r wire (λ _. (refl, refl)) h
  detect-Kept past k now answer r wire none max h = h
  detect-Kept past k now answer r wire (some min) none h = h

  note_data-Kept :
      (past k seq : ℕ) (r : Receiver)
      → (HashMap.get k r.received_seqs ≡ none → Budget k r past)
      → After-state past k (note_data r seq)
  unfolding note_data
  note_data-Kept past k seq r h = by_range (widen r.min_seq r.max_seq seq)
    where
      noted : Option ℕ → Option ℕ → Receiver
      noted min max = record r {
        received_seqs = HashMap.insert seq tt r.received_seqs;
        min_seq = min;
        max_seq = max;
      }

      settled :
          (min max : Option ℕ)
          → HashMap.get k (settle (noted min max) seq).received_seqs ≡ none
          → Budget k (settle (noted min max) seq) past
      settled min max unseen =
          let here = get-insert seq k tt r.received_seqs in
          let old : HashMap.get k (HashMap.insert seq tt r.received_seqs) ≡ none =
            rw (← settle_seen (noted min max) seq) unseen in
          let other : (seq == k) ≡ false = ground (arith, here) in
          let v = h (ground (arith, here)) in
          let (requests, attempts) = settle_other (noted min max) seq k other in
          record {
            few = rw attempts v.few;
            spent = rw attempts v.spent;
            slack = rw requests (rw attempts v.slack);
          }

      by_range :
          (f : Fate (Option ℕ × Option ℕ))
          → After-state past k (f >>= λ range. goes (settle (noted range.0 range.1) seq))
      by_range (goes range) = settled range.0 range.1
      by_range panics = tt
      by_range io_error = tt

  on_data-Kept :
      (past k seq now : ℕ) (r : Receiver) (ack_answer : Io) (answer : ℕ → Io)
      → (HashMap.get k r.received_seqs ≡ none → Budget k r past)
      → After past k (on_data r seq now ack_answer answer)
  unfolding on_data encoded asks
  on_data-Kept past k seq now r ack_answer answer h =
      by_state (note_data r seq) (note_data-Kept past k seq r h)
    where
      acked :
          (r' : Receiver) (bytes : Bytes)
          → json.to_vec (ack_message seq) ≡ some bytes
          → (HashMap.get k r'.received_seqs ≡ none → Budget k r' past)
          → Kept past k (r', bytes ∷ [])
      acked r' bytes written h' unseen =
          let same : past + asks k (bytes ∷ []) ≡ past =
            omega (arith, asks-ack k seq bytes written) in
          subst (Budget k r') (sym same) (h' unseen)

      by_answer :
          (r' : Receiver) (o : Option Bytes) (io : Io)
          → json.to_vec (ack_message seq) ≡ o
          → (HashMap.get k r'.received_seqs ≡ none → Budget k r' past)
          → After past k (
              (elim o [ none ↦ panics | some bytes ↦ goes bytes ]) >>= λ ack.
              (expected io >>= λ _.
              detect_in_range answer now (r', ack ∷ []) r'.min_seq r'.max_seq))
      by_answer r' none io written h' = tt
      by_answer r' (some bytes) failed written h' = tt
      by_answer r' (some bytes) done written h' =
          detect-Kept past k now answer r' (bytes ∷ []) r'.min_seq r'.max_seq
            (acked r' bytes written h')

      by_state :
          (f : Fate Receiver)
          → After-state past k f
          → After past k (
              f >>= λ r'.
              (encoded (ack_message seq) >>= λ ack.
              (expected ack_answer >>= λ _.
              detect_in_range answer now (r', ack ∷ []) r'.min_seq r'.max_seq)))
      by_state (goes r') h' = by_answer r' (json.to_vec (ack_message seq)) ack_answer refl h'
      by_state panics h' = tt
      by_state io_error h' = tt

  on_packet-Kept :
      (past k now : ℕ) (r : Receiver) (o : Option Message) (ack_answer : Io) (answer : ℕ → Io)
      → (HashMap.get k r.received_seqs ≡ none → Budget k r past)
      → After past k (on_packet r o now ack_answer answer)
  unfolding on_packet on_message asks
  on_packet-Kept past k now r none ack_answer answer h =
      λ unseen. subst (Budget k r) (omega arith) (h unseen)
  on_packet-Kept past k now r (some message) ack_answer answer h =
      elim (Bool-cases (message.typ == "DATA")) [
        | inl e ↦ rw e (on_data-Kept past k message.seq now r ack_answer answer h)
        | inr e ↦ rw e (λ unseen. subst (Budget k r) (omega arith) (h unseen))
      ]

  pub turn-Kept :
      (past k : ℕ) (r : Receiver) (datagram : Bytes) (now later : ℕ) (ack_answer : Io)
      (answer : ℕ → Io)
      → (HashMap.get k r.received_seqs ≡ none → Budget k r past)
      → After past k (turn r datagram now later ack_answer answer)
  unfolding turn check_retransmission_timeouts
  turn-Kept past k r datagram now later ack_answer answer h =
      by_packet (on_packet r (recv_from datagram) now ack_answer answer)
        (on_packet-Kept past k now r (recv_from datagram) ack_answer answer h)
    where
      by_state :
          (wire : List Bytes) (f : Fate Receiver)
          → After-state (past + asks k wire) k f
          → After past k (f >>= λ r''. goes (r'', wire))
      by_state wire (goes r'') h' = h'
      by_state wire panics h' = tt
      by_state wire io_error h' = tt

      by_packet :
          (f : Fate Sent)
          → After past k f
          → After past k (
              f >>= λ s.
              (check_retransmission_timeouts s.0 later retransmission_timeout
                  max_retransmission_attempts
                >>= λ r''. goes (r'', s.1)))
      by_packet (goes (r', wire)) h' = by_state wire _ (
          give_up_all-Kept (past + asks k wire) k
            (timed_out retransmission_timeout later r'.retransmission_requests) r' h')
      by_packet panics h' = tt
      by_packet io_error h' = tt
