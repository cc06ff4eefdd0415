-- ===== src/Gap/Timeouts.antt =====
-- What a timeout does to the budget of a number.
use bdspro_udp_v.Common.{
  Bool-cases, List, Option, [], arith, eqb_iff, false, inl, inr, ltb, nat_eq, none, some, string_eq,
  subst, sym, true, ℕ, ℕ_discrete, ◌+◌, ◌∷◌, ◌≡◌, ◌≢◌,
}
use bdspro_udp_v.HashMap
use bdspro_udp_v.HashMap.{
  HashMap, Distinct, get-insert, get-remove, insert-Distinct, remove-Distinct, length-insert_fresh,
  length-remove, remove_absent,
}
use bdspro_udp_v.Udp.Message.{Bytes, Json, rqst_message, u32}
use bdspro_udp_v.Gap.{
  Receiver, Fate, goes, panics, io_error, ◌>>=◌, or_zero, max_retransmission_attempts, encoded,
  count_attempt, give_up, give_up_all,
}
use bdspro_udp_v.Gap.Budget.{Budget}

module _ ⦃json : Json⦄ where
  -- A state of the receiver, after some requests in the past.
  abbrev pub After-state : ℕ → ℕ → Fate Receiver → Type 0
  After-state past k (goes r) = HashMap.get k r.received_seqs ≡ none → Budget k r past
  After-state past k panics = Unit
  After-state past k io_error = Unit

  -- A timeout of the number itself, with attempts left.
  counted_here :
      (k : ℕ) (r : Receiver) (sent : ℕ)
      → Budget k r sent
      → ltb (or_zero (HashMap.get k r.retransmission_attempts)) 3 ≡ true
      → Budget k
          (record r {
            retransmission_requests = HashMap.remove k r.retransmission_requests;
            retransmission_attempts = count_attempt k r.retransmission_attempts;
          })
          sent
  unfolding count_attempt
  counted_here k r sent v some_ =
      let next =
        get-insert k k (u32 (or_zero (HashMap.get k r.retransmission_attempts) + 1))
          r.retransmission_attempts in
      record {
        few = ground (arith, next, eqb_iff k k);
        spent = ground (arith, next, eqb_iff k k, v.spent);
        slack = λ quiet left. ground (arith, next, eqb_iff k k, v.spent);
      }

  counted_other :
      (k seq : ℕ) (r : Receiver) (sent : ℕ)
      → seq ≢ k
      → Budget k r sent
      → Budget k
          (record r {
            retransmission_requests = HashMap.remove seq r.retransmission_requests;
            retransmission_attempts = count_attempt seq r.retransmission_attempts;
          })
          sent
  unfolding count_attempt
  counted_other k seq r sent other v =
      let next =
        get-insert seq k (u32 (or_zero (HashMap.get seq r.retransmission_attempts) + 1))
          r.retransmission_attempts in
      record {
        few = ground (arith, next, eqb_iff seq k, v.few);
        spent = ground (arith, next, eqb_iff seq k, v.spent);
        slack = λ quiet left.
            ground
              (arith, next, eqb_iff seq k, v.slack, get-remove seq k r.retransmission_requests);
      }

  give_up-Kept :
      (past k seq : ℕ) (r : Receiver)
      → (HashMap.get k r.received_seqs ≡ none → Budget k r past)
      → After-state past k (give_up max_retransmission_attempts r seq)
  unfolding give_up encoded
  give_up-Kept past k seq r h =
      elim (Bool-cases (ltb (or_zero (HashMap.get seq r.retransmission_attempts)) 3)) [
        | inr none_ ↦ rw none_ (spent_out none_)
        | inl some_ ↦ rw some_ (by_encoding some_ (json.to_vec (rqst_message seq)))
      ]
    where
      spent_out :
          ltb (or_zero (HashMap.get seq r.retransmission_attempts)) 3 ≡ false
          → HashMap.get k r.received_seqs ≡ none
          → Budget k
              (record r { retransmission_requests = HashMap.remove seq r.retransmission_requests })
              past
      spent_out none_ unseen =
          let v = h unseen in
          record {
            few = v.few;
            spent = v.spent;
            slack = λ quiet left. elim (ℕ_discrete seq k) [
              | yes here ↦ absurd (ground (arith, (rw here at none_)))
              | no other ↦
                  ground (arith, v.slack, eqb_iff seq k, get-remove seq k r.retransmission_requests)
            ];
          }

      counted :
          ltb (or_zero (HashMap.get seq r.retransmission_attempts)) 3 ≡ true
          → HashMap.get k r.received_seqs ≡ none
          → Budget k
              (record r {
                retransmission_requests = HashMap.remove seq r.retransmission_requests;
                retransmission_attempts = count_attempt seq r.retransmission_attempts;
              })
              past
      counted some_ unseen = elim (ℕ_discrete seq k) [
        | yes here ↦
            subst
              (λ q.
                ltb (or_zero (HashMap.get q r.retransmission_attempts)) 3 ≡ true
                → Budget k
                    (record r {
                      retransmission_requests = HashMap.remove q r.retransmission_requests;
                      retransmission_attempts = count_attempt q r.retransmission_attempts;
                    })
                    past)
              (sym here) (counted_here k r past (h unseen)) some_
        | no other ↦ counted_other k seq r past other (h unseen)
      ]

      by_encoding :
          ltb (or_zero (HashMap.get seq r.retransmission_attempts)) 3 ≡ true
          → (o : Option Bytes)
          → After-state past k (
              (elim o [ none ↦ panics | some bytes ↦ goes bytes ]) >>= λ _. goes (record r {
                retransmission_requests = HashMap.remove seq r.retransmission_requests;
                retransmission_attempts = count_attempt seq r.retransmission_attempts;
              }))
      by_encoding some_ none = tt
      by_encoding some_ (some bytes) = counted some_

  pub give_up_all-Kept :
      (past k : ℕ) (seqs : List ℕ) (r : Receiver)
      → (HashMap.get k r.received_seqs ≡ none → Budget k r past)
      → After-state past k (give_up_all max_retransmission_attempts r seqs)
  unfolding give_up_all
  give_up_all-Kept past k [] r h = h
  give_up_all-Kept past k (seq ∷ seqs) r h =
      by_fate (give_up max_retransmission_attempts r seq) (give_up-Kept past k seq r h)
        (λ r' h'. give_up_all-Kept past k seqs r' h')
    where
      by_fate :
          (f : Fate Receiver)
          → After-state past k f
          → ((r' : Receiver)
              → (HashMap.get k r'.received_seqs ≡ none → Budget k r' past)
              → After-state past k (give_up_all max_retransmission_attempts r' seqs))
          → After-state past k (f >>= λ r'. give_up_all max_retransmission_attempts r' seqs)
      by_fate (goes r') h' later = later r' h'
      by_fate panics h' later = tt
      by_fate io_error h' later = tt
