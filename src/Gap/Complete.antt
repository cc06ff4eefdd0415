-- ===== src/Gap/Complete.antt =====
-- After a detection no number of the range is forgotten.
use bdspro_udp_v.Common.{
  Bool-cases, List, Mem, Mem-append_left, Mem-append_right, Option, Option-cases, [], arith,
  eqb_iff, false, inl, inr, nat_eq, none, refl, some, string_eq, subst, true, ℕ, ℕ_discrete, ◌++◌,
  ◌+◌, ◌∷◌, ◌≡◌, ◌≤◌, ◌⊎◌,
}
use bdspro_udp_v.HashMap
use bdspro_udp_v.HashMap.{
  HashMap, Distinct, get-insert, get-remove, insert-Distinct, remove-Distinct, length-insert_fresh,
  length-remove, remove_absent,
}
use bdspro_udp_v.Udp.Message.{Bytes, Json, Io, done, failed, rqst_message, u32}
use bdspro_udp_v.Gap.{
  Receiver, Fate, goes, panics, io_error, ◌>>=◌, Sent, or_zero, encoded, answered, request_all,
  track_request, count_attempt, missing_sequences, is_missing, exhausted,
  detect_and_request_missing_sequences,
}
use bdspro_udp_v.Gap.Missing.{is_missing-Wanted, mem-missing_sequences}

-- The number has come, or is asked for at present, or has no attempts left.
abbrev pub Settled : Receiver → ℕ → ℕ → Type 0
Settled r max_attempts k =
    (HashMap.get k r.received_seqs ≡ some tt)
    ⊎ ((HashMap.contains_key k r.retransmission_requests ≡ true)
        ⊎ (exhausted max_attempts (HashMap.get k r.retransmission_attempts) ≡ true))

-- What a piece of the loop does for a number: it stays settled.
abbrev AllSettled : ℕ → ℕ → Fate Sent → Type 0
AllSettled max_attempts k (goes (r, wire)) = Settled r max_attempts k
AllSettled max_attempts k panics = Unit
AllSettled max_attempts k io_error = Unit

track-Settled :
    (r : Receiver) (max_attempts k seq now : ℕ)
    → ((seq ≡ k) ⊎ Settled r max_attempts k)
    → Settled (track_request r seq now) max_attempts k
unfolding track_request count_attempt HashMap.contains_key
track-Settled r max_attempts k seq now (inl here) =
    inr (inl (ground (arith, eqb_iff seq k, get-insert seq k now r.retransmission_requests)))
track-Settled r max_attempts k seq now (inr (inl seen)) = inl seen
track-Settled r max_attempts k seq now (inr (inr (inl asked))) =
    inr (inl (ground (arith, get-insert seq k now r.retransmission_requests)))
track-Settled r max_attempts k seq now (inr (inr (inr spent))) = elim (ℕ_discrete seq k) [
  | yes here ↦
      inr (inl (ground (arith, eqb_iff seq k, get-insert seq k now r.retransmission_requests)))
  | no other ↦ inr (
      inr (
        ground (
          arith,
          eqb_iff seq k,
          get-insert seq k (u32 (or_zero (HashMap.get seq r.retransmission_attempts) + 1))
              r.retransmission_attempts,
        )))
]

module _ ⦃json : Json⦄ where
  request_all-Settled :
      (max_attempts k now : ℕ) (answer : ℕ → Io) (seqs : List ℕ) (r : Receiver) (wire : List Bytes)
      → (Mem k seqs ⊎ Settled r max_attempts k)
      → AllSettled max_attempts k (request_all answer now (r, wire) seqs)
  unfolding request_all encoded
  request_all-Settled max_attempts k now answer [] r wire (inl m) = absurd m
  request_all-Settled max_attempts k now answer [] r wire (inr h) = h
  request_all-Settled max_attempts k now answer (seq ∷ seqs) r wire h =
      by_encoding (json.to_vec (rqst_message seq)) (answer seq) (λ bytes.
        request_all-Settled max_attempts k now answer seqs (track_request r seq now)
          (wire ++ bytes ∷ []) (moved h))
    where
      moved :
          Mem k (seq ∷ seqs) ⊎ Settled r max_attempts k
          → Mem k seqs ⊎ Settled (track_request r seq now) max_attempts k
      moved (inl (inl here)) = inr (track-Settled r max_attempts k seq now (inl here))
      moved (inl (inr later)) = inl later
      moved (inr old) = inr (track-Settled r max_attempts k seq now (inr old))

      by_encoding :
          (o : Option Bytes) (io : Io)
          → ((bytes : Bytes)
              → AllSettled max_attempts k
                  (request_all answer now (track_request r seq now, wire ++ bytes ∷ []) seqs))
          → AllSettled max_attempts k (
              (elim o [ none ↦ panics | some bytes ↦ goes bytes ]) >>= λ bytes.
              (answered io >>= λ _.
              request_all answer now (track_request r seq now, wire ++ bytes ∷ []) seqs))
      by_encoding none io later = tt
      by_encoding (some bytes) failed later = tt
      by_encoding (some bytes) done later = later bytes

  -- A request for the number has been handed to the socket.
  abbrev pub Asked : ℕ → List Bytes → Type 0
  Asked k wire = (bytes : Bytes) × (json.to_vec (rqst_message k) ≡ some bytes) × Mem bytes wire

  abbrev AllAsked : ℕ → Fate Sent → Type 0
  AllAsked k (goes (r, wire)) = Asked k wire
  AllAsked k panics = Unit
  AllAsked k io_error = Unit

  request_all-Asked :
      (k now : ℕ) (answer : ℕ → Io) (seqs : List ℕ) (r : Receiver) (wire : List Bytes)
      → (Mem k seqs ⊎ Asked k wire)
      → AllAsked k (request_all answer now (r, wire) seqs)
  unfolding request_all encoded
  request_all-Asked k now answer [] r wire (inl m) = absurd m
  request_all-Asked k now answer [] r wire (inr h) = h
  request_all-Asked k now answer (seq ∷ seqs) r wire h =
      by_encoding (json.to_vec (rqst_message seq)) (answer seq) refl (λ bytes e.
        request_all-Asked k now answer seqs (track_request r seq now) (wire ++ bytes ∷ [])
          (moved bytes e h))
    where
      moved :
          (bytes : Bytes)
          → json.to_vec (rqst_message seq) ≡ some bytes
          → Mem k (seq ∷ seqs) ⊎ Asked k wire
          → Mem k seqs ⊎ Asked k (wire ++ bytes ∷ [])
      moved bytes e (inl (inl here)) = inr (
        bytes,
        subst (λ q. json.to_vec (rqst_message q) ≡ some bytes) here e,
        Mem-append_right bytes wire (bytes ∷ []) (inl refl),
      )
      moved bytes e (inl (inr later)) = inl later
      moved bytes e (inr (old, same, there)) =
          inr (old, same, Mem-append_left old wire (bytes ∷ []) there)

      by_encoding :
          (o : Option Bytes) (io : Io)
          → json.to_vec (rqst_message seq) ≡ o
          → ((bytes : Bytes)
              → json.to_vec (rqst_message seq) ≡ some bytes
              → AllAsked k
                  (request_all answer now (track_request r seq now, wire ++ bytes ∷ []) seqs))
          → AllAsked k (
              (elim o [ none ↦ panics | some bytes ↦ goes bytes ]) >>= λ bytes.
              (answered io >>= λ _.
              request_all answer now (track_request r seq now, wire ++ bytes ∷ []) seqs))
      by_encoding none io e later = tt
      by_encoding (some bytes) failed e later = tt
      by_encoding (some bytes) done e later = later bytes e

  -- A number that is not to be asked for is settled.
  is_missing-Settled :
      (r : Receiver) (max_attempts k : ℕ)
      → is_missing r max_attempts k ≡ false
      → Settled r max_attempts k
  unfolding is_missing HashMap.contains_key
  is_missing-Settled r max_attempts k e = elim (Option-cases (HashMap.get k r.received_seqs)) [
    | inr (_, seen) ↦ inl seen
    | inl unseen ↦ elim (Option-cases (HashMap.get k r.retransmission_requests)) [
      | inr (_, asked) ↦ inr (inl (ground (arith, asked)))
      | inl unasked ↦ inr (inr (ground arith))
    ]
  ]

  -- After a detection that runs to its end, every number of the range has come, is asked for at present,
  -- or has no attempts left; and for each for which none of these held before, a request is among the
  -- datagrams that were handed to the socket.
  pub detection_complete :
      (answer : ℕ → Io) (now min max max_attempts : ℕ) (r : Receiver) {r' : Receiver}
      (wire : List Bytes) {wire' : List Bytes}
      → detect_and_request_missing_sequences answer now (r, wire) min max max_attempts
        ≡ goes (r', wire')
      → (k : ℕ) → min ≤ k
      → k ≤ max
      → Settled r' max_attempts k × (Settled r max_attempts k ⊎ Asked k wire')
  unfolding detect_and_request_missing_sequences
  detection_complete answer now min max max_attempts r {r'} wire {wire'} e k lo hi =
      elim (Bool-cases (is_missing r max_attempts k)) [
        | inl missing ↦
            let wanted : Mem k (missing_sequences r max_attempts min max) =
              (mem-missing_sequences r max_attempts min max k).1
                (lo, hi, is_missing-Wanted r max_attempts k missing) in
            (
              after (inl wanted),
              inr (
                  subst (AllAsked k) e (
                    request_all-Asked k now answer (missing_sequences r max_attempts min max) r wire
                      (inl wanted))),
            )
        | inr present ↦
            let settled = is_missing-Settled r max_attempts k present in
            (after (inr settled), inl settled)
      ]
    where
      after :
          Mem k (missing_sequences r max_attempts min max) ⊎ Settled r max_attempts k
          → Settled r' max_attempts k
      after h = subst (AllSettled max_attempts k) e (
          request_all-Settled max_attempts k now answer (missing_sequences r max_attempts min max) r
            wire h)
