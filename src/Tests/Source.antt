-- ===== src/Tests/Source.antt =====
-- A generator that emits three buffers, of which the sink gets the third and the first.
use bdspro_udp_v.Common.{
  All, Bool, List, Mem, [], arith, false, inl, inr, nat_eq, refl, some, string_eq, true, ℕ, ◌+◌,
  ◌∷◌, ◌≡◌, ◌≤◌,
}
use bdspro_udp_v.Tcp.Protocol.{TupleBuffer}
use bdspro_udp_v.Node.Tracker.{query}
use bdspro_udp_v.Node.Tracker.Least.{IsLeast}
use bdspro_udp_v.Node.Tracker.Adding.{Fresh}
use bdspro_udp_v.Node.Generator.{generate, PrintSink, verify_tuple_buffer}
use bdspro_udp_v.Node.Source.{generator_loop}
use bdspro_udp_v.Node.Source.Received.{new_sink, execute_all, numbers, received-IsLeast}

abbrev flags : List Bool
flags = false ∷ false ∷ false ∷ true ∷ []

abbrev two_came : List TupleBuffer
two_came = generate 0 ∷ generate 2 ∷ []

two_came-Mem : All (λ b. Mem b (generator_loop 0 flags).0) two_came
unfolding generator_loop
two_came-Mem = (inl refl, (inr (inr (inl refl)), tt))

two_came-Fresh : Fresh (numbers two_came)
unfolding generate
two_came-Fresh = (
  omega arith,
  (λ m. elim m [ inl e ↦ absurd (omega (arith, e)) | inr n ↦ n ]),
  (omega arith, (λ m. m), tt),
)

received-IsLeast_example :
    (s : PrintSink) × (execute_all (new_sink (some 3) (some 1)) two_came ≡ some s)
    × (s.counter ≡ 2)
    × All (λ b. verify_tuple_buffer b ≡ some true) two_came
    × ((q : ℕ) × (query s.sequence_tracker ≡ some q)
        × IsLeast (numbers two_came) q
        × (q ≤ (generator_loop 0 flags).1 + 1))
received-IsLeast_example =
    received-IsLeast flags two_came (some 3) (some 1) two_came-Mem two_came-Fresh
