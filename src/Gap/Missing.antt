-- ===== src/Gap/Missing.antt =====
-- Which numbers the gap receiver asks for.
use bdspro_udp_v.Common.{
  ℕ_discrete, Bool-cases, Mem, Option-cases, arith, inl, inr, nat_eq, none, refl, some, string_eq,
  suc, true, zero, ℕ, ◌+◌, ◌-◌, ◌<◌, ◌↔◌, ◌≡◌, ◌≤◌,
}
use bdspro_udp_v.HashMap
use bdspro_udp_v.HashMap.{
  HashMap, Distinct, get-insert, get-remove, insert-Distinct, remove-Distinct, length-insert_fresh,
  length-remove, remove_absent,
}
use bdspro_udp_v.Gap.{Receiver, is_missing, missing_from, missing_sequences}

-- Not received, not asked for at present, and with attempts left.
pub record Wanted (r : Receiver) (max_attempts seq : ℕ) : Type 0 where
  pub unseen : HashMap.get seq r.received_seqs ≡ none
  pub unasked : HashMap.get seq r.retransmission_requests ≡ none
  pub left :
      (attempts : ℕ)
      → HashMap.get seq r.retransmission_attempts ≡ some attempts
      → attempts < max_attempts

pub is_missing-Wanted :
    (r : Receiver) (max_attempts seq : ℕ)
    → is_missing r max_attempts seq ≡ true
    → Wanted r max_attempts seq
unfolding is_missing
is_missing-Wanted r max_attempts seq h = record {
  unseen = ground arith;
  unasked = ground arith;
  left = λ attempts e. ground arith;
}

pub is_missing_of_Wanted :
    (r : Receiver) (max_attempts seq : ℕ)
    → Wanted r max_attempts seq
    → is_missing r max_attempts seq ≡ true
unfolding is_missing
is_missing_of_Wanted r max_attempts seq w =
    elim (Option-cases (HashMap.get seq r.retransmission_attempts)) [
      | inl e ↦ ground (arith, w.unseen, w.unasked)
      | inr (attempts, e) ↦ ground (arith, w.unseen, w.unasked, w.left attempts e)
    ]

module _ (r : Receiver) (max_attempts : ℕ) where
  pub Wanted_of_mem :
      (count start seq : ℕ)
      → Mem seq (missing_from r max_attempts count start)
      → (start ≤ seq) × (seq < start + count) × (is_missing r max_attempts seq ≡ true)
  unfolding missing_from
  Wanted_of_mem zero start seq m = absurd m
  Wanted_of_mem (suc count) start seq m = elim (Bool-cases (is_missing r max_attempts start)) [
    | inl yes_ ↦ elim (rw yes_ at m) [
      | inl here ↦ (omega arith, omega arith, rw (← here) yes_)
      | inr later ↦ widened (Wanted_of_mem count (start + 1) seq later)
    ]
    | inr no_ ↦ widened (Wanted_of_mem count (start + 1) seq (rw no_ at m))
  ]
    where
      widened :
          (start + 1 ≤ seq) × (seq < start + 1 + count) × (is_missing r max_attempts seq ≡ true)
          → (start ≤ seq) × (seq < start + suc count) × (is_missing r max_attempts seq ≡ true)
      widened (lo, hi, missing) = (omega arith, omega arith, missing)

  pub mem_of_missing :
      (count start seq : ℕ)
      → start ≤ seq
      → seq < start + count
      → is_missing r max_attempts seq ≡ true
      → Mem seq (missing_from r max_attempts count start)
  unfolding missing_from
  mem_of_missing zero start seq lo hi missing = absurd (omega arith)
  mem_of_missing (suc count) start seq lo hi missing = elim (ℕ_discrete start seq) [
    | yes here ↦ rw (here, missing) (inl refl)
    | no later ↦ elim (Bool-cases (is_missing r max_attempts start)) [
      | inl e ↦
          rw e (inr (mem_of_missing count (start + 1) seq (omega arith) (omega arith) missing))
      | inr e ↦ rw e (mem_of_missing count (start + 1) seq (omega arith) (omega arith) missing)
    ]
  ]

  -- The search over a range finds exactly the numbers of the range, its ends included, that were not
  -- received, are not asked for at present, and have attempts left.
  pub mem-missing_sequences :
      (min max seq : ℕ)
      → Mem seq (missing_sequences r max_attempts min max)
        ↔ ((min ≤ seq) × (seq ≤ max) × Wanted r max_attempts seq)
  unfolding missing_sequences
  mem-missing_sequences min max seq = (
    λ m.
        let (lo, hi, missing) = Wanted_of_mem (max + 1 - min) min seq m in
        (lo, omega arith, is_missing-Wanted r max_attempts seq missing),
    λ (lo, hi, wanted).
        mem_of_missing (max + 1 - min) min seq lo (omega arith)
          (is_missing_of_Wanted r max_attempts seq wanted),
  )
