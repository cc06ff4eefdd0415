-- ===== src/Gap/Asking.antt =====
-- The loop that asks for what is missing.
use bdspro_udp_v.Common.{
  Bool-cases, List, Option, Option-cases, [], arith, eqb_iff, inl, inr, nat_eq, none, refl, some,
  string_eq, subst, suc, sym, true, zero, ℕ, ℕ_discrete, ◌++◌, ◌+◌, ◌<◌, ◌∙◌, ◌∷◌, ◌≡◌, ◌≤◌,
}
use bdspro_udp_v.HashMap
use bdspro_udp_v.HashMap.{
  HashMap, Distinct, get-insert, get-remove, insert-Distinct, remove-Distinct, length-insert_fresh,
  length-remove, remove_absent,
}
use bdspro_udp_v.Udp.Message.{Bytes, Json, Io, done, failed, rqst_message, u32}
use bdspro_udp_v.Gap.{
  Receiver, goes, panics, ◌>>=◌, or_zero, encoded, answered, request_all, track_request,
  count_attempt, missing_from, is_missing,
}
use bdspro_udp_v.Gap.Missing.{Wanted, is_missing-Wanted}
use bdspro_udp_v.Gap.Budget.{Kept, After, other-Kept, same-Kept}

module _ ⦃json : Json⦄ where
  -- From a number on, the state is as it was when the search was made.
  abbrev Agrees : ℕ → ℕ → Receiver → Receiver → Type 0
  Agrees start k r r₀ =
      start ≤ k
      → (HashMap.get k r.retransmission_requests ≡ HashMap.get k r₀.retransmission_requests)
        × (HashMap.get k r.retransmission_attempts ≡ HashMap.get k r₀.retransmission_attempts)

  track-Agrees :
      (start k now : ℕ) (r r₀ : Receiver)
      → Agrees start k r r₀
      → Agrees (start + 1) k (track_request r start now) r₀
  unfolding track_request count_attempt
  track-Agrees start k now r r₀ same above =
      let (requests, attempts) = same (omega arith) in
      (
        ground (arith, eqb_iff start k, get-insert start k now r.retransmission_requests),
        ground (
          arith,
          eqb_iff start k,
          get-insert start k (u32 (or_zero (HashMap.get start r.retransmission_attempts) + 1))
              r.retransmission_attempts,
        ),
      )

  -- One request of the loop.
  requested-Kept :
      (past k start now : ℕ) (r r₀ : Receiver) (wire : List Bytes) (bytes : Bytes)
      → json.to_vec (rqst_message start) ≡ some bytes
      → is_missing r₀ 3 start ≡ true
      → Agrees start k r r₀
      → Kept past k (r, wire)
      → Kept past k (track_request r start now, wire ++ bytes ∷ [])
  requested-Kept past k start now r r₀ wire bytes e missing same h = elim (ℕ_discrete start k) [
    | no other ↦ other-Kept past k start now r wire bytes e (ground (arith, eqb_iff start k)) h
    | yes here ↦
        subst
          (λ q.
            Agrees q k r r₀
            → is_missing r₀ 3 q ≡ true
            → json.to_vec (rqst_message q) ≡ some bytes
            → Kept past k (track_request r q now, wire ++ bytes ∷ []))
          (sym here)
          (λ agrees yes_ e'.
            let w = is_missing-Wanted r₀ 3 k yes_ in
            let (requests, attempts) = agrees (omega arith) in
            same-Kept past k now r wire bytes e' (requests ∙ w.unasked) (left w attempts) h)
          same missing e
  ]
    where
      left :
          Wanted r₀ 3 k
          → HashMap.get k r.retransmission_attempts ≡ HashMap.get k r₀.retransmission_attempts
          → or_zero (HashMap.get k r.retransmission_attempts) < 3
      left w attempts = elim (Option-cases (HashMap.get k r₀.retransmission_attempts)) [
        | inl e₀ ↦ ground (arith, attempts, e₀)
        | inr (a, e₀) ↦ ground (arith, attempts, e₀, w.left a e₀)
      ]

  pub request_missing-Kept :
      (past k count start now : ℕ) (answer : ℕ → Io) (r₀ r : Receiver) (wire : List Bytes)
      → Agrees start k r r₀
      → Kept past k (r, wire)
      → After past k (request_all answer now (r, wire) (missing_from r₀ 3 count start))
  unfolding request_all missing_from encoded
  request_missing-Kept past k zero start now answer r₀ r wire same h = h
  request_missing-Kept past k (suc count) start now answer r₀ r wire same h =
      elim (Bool-cases (is_missing r₀ 3 start)) [
        | inr e ↦ rw e (
            request_missing-Kept past k count (start + 1) now answer r₀ r wire
              (λ above. same (omega arith)) h)
        | inl e ↦ rw e (
            by_encoding e (json.to_vec (rqst_message start)) refl (answer start) (λ bytes written.
              request_missing-Kept past k count (start + 1) now answer r₀
                (track_request r start now) (wire ++ bytes ∷ [])
                (track-Agrees start k now r r₀ same)
                (requested-Kept past k start now r r₀ wire bytes written e same h)))
      ]
    where
      rest : List ℕ
      rest = missing_from r₀ 3 count (start + 1)

      by_encoding :
          is_missing r₀ 3 start ≡ true
          → (o : Option Bytes) → json.to_vec (rqst_message start) ≡ o
          → (io : Io)
          → ((bytes : Bytes)
              → json.to_vec (rqst_message start) ≡ some bytes
              → After past k
                  (request_all answer now (track_request r start now, wire ++ bytes ∷ []) rest))
          → After past k (
              (elim o [ none ↦ panics | some bytes ↦ goes bytes ]) >>= λ bytes.
              (answered io >>= λ _.
              request_all answer now (track_request r start now, wire ++ bytes ∷ []) rest))
      by_encoding e none written io later = tt
      by_encoding e (some bytes) written done later = later bytes written
      by_encoding e (some bytes) written failed later = tt
