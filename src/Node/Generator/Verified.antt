-- ===== src/Node/Generator/Verified.antt =====
-- What the source generates is what the sink expects.
use bdspro_udp_v.Common.{
  Bool-cases, List, [], ap, arith, eqb_iff, false, inl, inr, ltb, nat_eq, refl, some, string_eq,
  suc, true, zero, ℕ, ◌%◌, ◌&&◌, ◌++◌, ◌+◌, ◌-◌, ◌==◌, ◌∷◌, ◌≡◌, ◌≤◌,
}
use bdspro_udp_v.Node.Generator.{
  fill, fill_capacity, children, child_size, expected_children, generate, bytes_equal,
  children_equal, verify_tuple_buffer, le_bytes, usize_bytes,
}

bytes_equal_refl : (l : List ℕ) → bytes_equal l l ≡ true
unfolding bytes_equal
bytes_equal_refl [] = refl
bytes_equal_refl (a ∷ l) = ground (arith, eqb_iff a a, bytes_equal_refl l)

children_equal_refl : (l : List (List ℕ)) → children_equal l l ≡ true
unfolding children_equal
children_equal_refl [] = refl
children_equal_refl (a ∷ l) = ground (arith, bytes_equal_refl a, children_equal_refl l)

both_equal :
    (a b : List ℕ) (l : List (List ℕ)) → a ≡ b → (bytes_equal a b && children_equal l l) ≡ true
both_equal a b l same =
    let reflexive : bytes_equal a b ≡ true = rw (← same) (bytes_equal_refl a) in
    ground (arith, children_equal_refl l)

-- Fuel for the bytes that are left is enough: more of it changes nothing.
fill_enough :
    (fuel value position len : ℕ)
    → len ≤ position + fuel
    → fill (suc fuel) value position len ≡ fill fuel value position len
unfolding fill
fill_enough zero value position len enough = ground arith
fill_enough (suc fuel) value position len enough = elim (Bool-cases (ltb position len)) [
  | inl more ↦ rw more (
      ap (◌++◌ (le_bytes usize_bytes value))
        (fill_enough fuel value (position + usize_bytes) len (omega arith)))
  | inr over ↦ rw over refl
]

-- Both loops write the value twice.
fills_equal : (counter : ℕ) → fill 16 counter 0 16 ≡ fill_capacity 16 counter 0 16
unfolding fill fill_capacity
fills_equal counter = refl

-- The two loops over the children make the same ones.
same_children :
    (count counter idx : ℕ) → children count counter idx ≡ expected_children count counter idx
unfolding children expected_children
same_children zero counter idx = refl
same_children (suc count) counter idx =
    ap (◌∷◌ (fill (child_size counter idx) counter 0 (child_size counter idx)))
      (same_children count counter (idx + 1))

-- The check of the sink accepts every buffer that the source generates.
pub generate_verified : (counter : ℕ) → verify_tuple_buffer (generate counter) ≡ some true
unfolding generate verify_tuple_buffer
generate_verified counter =
    let back : counter + 1 - 1 ≡ counter = omega arith in
    let nonzero : (counter + 1 == 0) ≡ false = ground arith in
    let same =
      both_equal (fill 16 counter 0 16) (fill_capacity 16 counter 0 16)
        (children (counter % 3) counter 0) (fills_equal counter) in
    rw (nonzero, back, ← same_children (counter % 3) counter 0) (ap some same)
