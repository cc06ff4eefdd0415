-- ===== src/Node/Tracker/Counting.antt =====
-- How many keys a set of numbers in a range has.
use bdspro_udp_v.Common.{
  Option-cases, [], arith, eqb_iff, inl, inr, length, nat_eq, none, some, string_eq, suc, zero, ℕ,
  ℕ_discrete, ◌+◌, ◌<◌, ◌∷◌, ◌≡◌, ◌≤◌,
}
use bdspro_udp_v.HashMap
use bdspro_udp_v.HashMap.{
  HashMap, Distinct, get-insert, get-remove, insert-Distinct, remove-Distinct, length-insert_fresh,
  length-remove, remove_absent,
}

-- Every key is one of the `n` numbers after `lo`.
abbrev pub Within : ℕ → ℕ → HashMap ℕ (Unit {0}) → Type 0
Within lo n m = (k : ℕ) → HashMap.get k m ≡ some tt → (lo < k) × (k ≤ lo + n)

-- All of the `n` numbers after `lo` are keys.
abbrev pub Covers : ℕ → ℕ → HashMap ℕ (Unit {0}) → Type 0
Covers lo n m = (k : ℕ) → lo < k → k ≤ lo + n → HashMap.get k m ≡ some tt

removed-Within :
    (lo n : ℕ) (m : HashMap ℕ (Unit {0}))
    → Within lo (suc n) m
    → Within lo n (HashMap.remove (lo + suc n) m)
removed-Within lo n m w k e =
    ground (arith, w k, eqb_iff (lo + suc n) k, get-remove (lo + suc n) k m)

absent-Within :
    (lo n : ℕ) (m : HashMap ℕ (Unit {0}))
    → Within lo (suc n) m
    → HashMap.get (lo + suc n) m ≡ none
    → Within lo n m
absent-Within lo n m w absent k e = elim (ℕ_discrete k (lo + suc n)) [
  | yes same ↦ absurd (ground (arith, (rw same at e)))
  | no other ↦ ((w k e).0, omega (arith, w k e))
]

pub length-Within :
    (n lo : ℕ) (m : HashMap ℕ (Unit {0})) → Distinct m → Within lo n m → length m ≤ n
unfolding HashMap.get
length-Within zero lo [] d w = omega arith
length-Within zero lo ((j, v) ∷ m) d w = absurd (ground (arith, w j, eqb_iff j j))
length-Within (suc n) lo m d w = elim (Option-cases (HashMap.get (lo + suc n) m)) [
  | inl e ↦ omega (arith, length-Within n lo m d (absent-Within lo n m w e))
  | inr (v, e) ↦ omega (
    arith,
    length-remove (lo + suc n) m v d e,
    length-Within n lo (HashMap.remove (lo + suc n) m) (remove-Distinct (lo + suc n) m d)
        (removed-Within lo n m w),
  )
]

pub full-Covers :
    (n lo : ℕ) (m : HashMap ℕ (Unit {0}))
    → Distinct m
    → Within lo n m
    → length m ≡ n
    → Covers lo n m
full-Covers zero lo m d w full k above below = absurd (omega arith)
full-Covers (suc n) lo m d w full k above below = elim (Option-cases (HashMap.get (lo + suc n) m)) [
  | inl e ↦ absurd (omega (arith, length-Within n lo m d (absent-Within lo n m w e)))
  | inr (v, e) ↦ elim (ℕ_discrete k (lo + suc n)) [
    | yes same ↦ rw same e
    | no other ↦ ground (
      arith,
      eqb_iff (lo + suc n) k,
      get-remove (lo + suc n) k m,
      full-Covers n lo (HashMap.remove (lo + suc n) m) (remove-Distinct (lo + suc n) m d)
          (removed-Within lo n m w) (omega (arith, length-remove (lo + suc n) m v d e)) k above
          (omega arith),
    )
  ]
]

pub length-Covers :
    (n lo : ℕ) (m : HashMap ℕ (Unit {0})) → Distinct m → Covers lo n m → n ≤ length m
length-Covers zero lo m d c = omega arith
length-Covers (suc n) lo m d c =
    let e = c (lo + suc n) (omega arith) (omega arith) in
    omega (
      arith,
      length-remove (lo + suc n) m tt d e,
      length-Covers n lo (HashMap.remove (lo + suc n) m) (remove-Distinct (lo + suc n) m d)
          (λ k above below.
            ground (
              arith,
              eqb_iff (lo + suc n) k,
              get-remove (lo + suc n) k m,
              c k above (omega arith),
            )),
    )
