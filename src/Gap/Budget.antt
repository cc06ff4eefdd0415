-- ===== src/Gap/Budget.antt =====
-- How often a number is asked for.
use bdspro_udp_v.Common.{
  List, Option, [], arith, eq_iff, eqb_iff, false, if◌then◌else◌, nat_eq, none, some, string_eq, ℕ,
  ◌&&◌, ◌*◌, ◌++◌, ◌+◌, ◌<◌, ◌==◌, ◌∷◌, ◌≡◌, ◌≤◌,
}
use bdspro_udp_v.HashMap
use bdspro_udp_v.HashMap.{
  HashMap, Distinct, get-insert, get-remove, insert-Distinct, remove-Distinct, length-insert_fresh,
  length-remove, remove_absent,
}
use bdspro_udp_v.Udp.Message.{Message, Bytes, Json, rqst_message, ack_message, u32}
use bdspro_udp_v.Gap.{
  Receiver, Fate, goes, panics, io_error, Sent, or_zero, track_request, count_attempt,
}

-- Attempts, requests sent, and what is left: a request and its timeout count an attempt each.
pub record Budget (k : ℕ) (r : Receiver) (sent : ℕ) : Type 0 where
  pub few : or_zero (HashMap.get k r.retransmission_attempts) ≤ 3
  pub spent : 2 * sent ≤ or_zero (HashMap.get k r.retransmission_attempts) + 1
  pub slack :
      HashMap.get k r.retransmission_requests ≡ none
      → or_zero (HashMap.get k r.retransmission_attempts) < 3
      → 2 * sent ≤ or_zero (HashMap.get k r.retransmission_attempts)

module _ ⦃json : Json⦄ where
  abbrev pub asks_for : ℕ → Option Message → ℕ
  asks_for k none = 0
  asks_for k (some m) = if m.typ == "RQST" && m.seq == k then 1 else 0

  -- The datagrams that ask for the number.
  unfoldable pub asks : ℕ → List Bytes → ℕ
  asks k [] = 0
  asks k (d ∷ ds) = asks_for k (json.from_slice d) + asks k ds

  pub asks-append : (k : ℕ) (xs ys : List Bytes) → asks k (xs ++ ys) ≡ asks k xs + asks k ys
  unfolding asks
  asks-append k [] ys = omega arith
  asks-append k (x ∷ xs) ys = omega (arith, asks-append k xs ys)

  -- What is known of a number that has not come, after some requests in the past.
  abbrev pub Kept : ℕ → ℕ → Sent → Type 0
  Kept past k (r, wire) = HashMap.get k r.received_seqs ≡ none → Budget k r (past + asks k wire)

  abbrev pub After : ℕ → ℕ → Fate Sent → Type 0
  After past k (goes s) = Kept past k s
  After past k panics = Unit
  After past k io_error = Unit

  asks-rqst :
      (k seq : ℕ) (bytes : Bytes)
      → json.to_vec (rqst_message seq) ≡ some bytes
      → asks k (bytes ∷ []) ≡ (if seq == k then 1 else 0)
  unfolding asks
  asks-rqst k seq bytes e =
      rw (json.round_trip (rqst_message seq) bytes e) (ground (arith, eq_iff "RQST" "RQST"))

  pub asks-ack :
      (k seq : ℕ) (bytes : Bytes)
      → json.to_vec (ack_message seq) ≡ some bytes
      → asks k (bytes ∷ []) ≡ 0
  unfolding asks
  asks-ack k seq bytes e =
      rw (json.round_trip (ack_message seq) bytes e) (ground (arith, eq_iff "ACK" "RQST"))

  -- A request for another number.
  pub other-Kept :
      (past k seq now : ℕ) (r : Receiver) (wire : List Bytes) (bytes : Bytes)
      → json.to_vec (rqst_message seq) ≡ some bytes
      → (seq == k) ≡ false
      → Kept past k (r, wire)
      → Kept past k (track_request r seq now, wire ++ bytes ∷ [])
  unfolding track_request count_attempt
  other-Kept past k seq now r wire bytes e other h unseen =
      let v = h unseen in
      let sent = asks-rqst k seq bytes e in
      let all = asks-append k wire (bytes ∷ []) in
      record {
        few = ground (
          arith,
          v.few,
          get-insert seq k (u32 (or_zero (HashMap.get seq r.retransmission_attempts) + 1))
              r.retransmission_attempts,
        );
        spent = ground (
          arith,
          v.spent,
          get-insert seq k (u32 (or_zero (HashMap.get seq r.retransmission_attempts) + 1))
              r.retransmission_attempts,
        );
        slack = λ quiet left. ground (
          arith,
          v.slack,
          get-insert seq k now r.retransmission_requests,
          get-insert seq k (u32 (or_zero (HashMap.get seq r.retransmission_attempts) + 1))
              r.retransmission_attempts,
        );
      }

  -- A request for the number, which is not asked for at present and has attempts left.
  pub same-Kept :
      (past k now : ℕ) (r : Receiver) (wire : List Bytes) (bytes : Bytes)
      → json.to_vec (rqst_message k) ≡ some bytes
      → HashMap.get k r.retransmission_requests ≡ none
      → or_zero (HashMap.get k r.retransmission_attempts) < 3
      → Kept past k (r, wire)
      → Kept past k (track_request r k now, wire ++ bytes ∷ [])
  unfolding track_request count_attempt
  same-Kept past k now r wire bytes e quiet left h unseen =
      let v = h unseen in
      let sent = asks-rqst k k bytes e in
      let all = asks-append k wire (bytes ∷ []) in
      let slack = v.slack quiet left in
      let next =
        get-insert k k (u32 (or_zero (HashMap.get k r.retransmission_attempts) + 1))
          r.retransmission_attempts in
      record {
        few = ground (arith, next, eqb_iff k k);
        spent = ground (arith, next, slack, sent, all, eqb_iff k k);
        slack = λ none_ left'.
            absurd (ground (arith, get-insert k k now r.retransmission_requests, eqb_iff k k));
      }
