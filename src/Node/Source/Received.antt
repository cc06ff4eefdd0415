-- ===== src/Node/Source/Received.antt =====
-- A generator's buffers at a `PrintSink`, in any order and with losses.
use bdspro_udp_v.Common.{
  All, All-Mem, All-mono, Bool, List, Mem, Option, [], ap, arith, false, inl, inr, length, nat_eq,
  none, refl, some, string_eq, true, ℕ, ◌+◌, ◌<◌, ◌∙◌, ◌∷◌, ◌≡◌, ◌≤◌,
}
use bdspro_udp_v.Tcp.Protocol.{TupleBuffer}
use bdspro_udp_v.Node.Tracker
use bdspro_udp_v.Node.Tracker.{MissingSequenceTracker, query}
use bdspro_udp_v.Node.Tracker.Least.{leb_cases, IsLeast, IsTracked, query-IsLeast, new-IsTracked}
use bdspro_udp_v.Node.Tracker.Adding.{Fresh, add-IsTracked}
use bdspro_udp_v.Node.Generator.{generate, PrintSink, execute, verify_tuple_buffer}
use bdspro_udp_v.Node.Generator.Verified.{generate_verified}
use bdspro_udp_v.Node.Source.{generator_loop}

abbrev pub new_sink : Option ℕ → Option ℕ → PrintSink
new_sink expected uncertainty = record {
  sequence_tracker = Tracker.new;
  counter = 0;
  expected_messages = expected;
  expected_messages_uncertainty = uncertainty;
}

-- The buffers, the last one first.
unfoldable pub execute_all : PrintSink → List TupleBuffer → Option PrintSink
unfolding execute
execute_all s [] = some s
execute_all s (b ∷ bs) = elim (execute_all s bs) [ none ↦ none | some s' ↦ execute s' b ]

abbrev pub numbers : List TupleBuffer → List ℕ
numbers [] = []
numbers (b ∷ bs) = b.sequence_number ∷ numbers bs

-- A buffer that the loop emits between two values of its counter.
record Generated (first last : ℕ) (b : TupleBuffer) : Type 0 where
  at : ℕ
  is : b ≡ generate at
  above : first ≤ at
  below : at < last

generator_loop-Generated :
    (counter : ℕ) (flags : List Bool)
    → (counter ≤ (generator_loop counter flags).1)
      × All (Generated counter (generator_loop counter flags).1) (generator_loop counter flags).0
unfolding generator_loop
generator_loop-Generated counter [] = (omega arith, tt)
generator_loop-Generated counter (true ∷ flags) = (omega arith, tt)
generator_loop-Generated counter (false ∷ flags) =
    let (more, later) = generator_loop-Generated (counter + 1) flags in
    let last = (generator_loop (counter + 1) flags).1 in
    let this : Generated counter last (generate counter) = record {
      at = counter;
      is = refl;
      above = omega arith;
      below = omega arith;
    } in
    (
      omega arith,
      (
        this,
        All-mono (Generated (counter + 1) last) (Generated counter last)
            (λ b g. record {
              at = g.at;
              is = g.is;
              above = omega (arith, g.above);
              below = g.below;
            })
            (generator_loop (counter + 1) flags).0 later,
      ),
    )

-- A sink that has been handed buffers.
record Received (bs : List TupleBuffer) (s : PrintSink) : Type 0 where
  tracked : IsTracked (numbers bs) s.sequence_tracker
  counted : s.counter ≡ length bs

sequence_of : (counter : ℕ) → (generate counter).sequence_number ≡ counter + 1
unfolding generate
sequence_of counter = refl

executes :
    (s : PrintSink) (b : TupleBuffer) (t : MissingSequenceTracker) (valid : Bool)
    → verify_tuple_buffer b ≡ some valid
    → Tracker.add s.sequence_tracker b.sequence_number ≡ some t
    → execute s b ≡ some (record s { sequence_tracker = t; counter = s.counter + 1 })
unfolding execute
executes s b t valid verified added = rw (execute, verified, added) refl

execute-Received :
    (bs : List TupleBuffer) (s : PrintSink) (b : TupleBuffer) (first last : ℕ)
    → Received bs s
    → Generated first last b
    → ¬ Mem b.sequence_number (numbers bs)
    → (s' : PrintSink) × (execute s b ≡ some s') × Received (b ∷ bs) s'
execute-Received bs s b first last v g fresh =
    let number : b.sequence_number ≡ g.at + 1 =
      ap (λ (c : TupleBuffer). c.sequence_number) g.is ∙ sequence_of g.at in
    let (t, added, tracked) =
      add-IsTracked (numbers bs) s.sequence_tracker b.sequence_number v.tracked
        (omega (arith, number)) fresh in
    (
      record s { sequence_tracker = t; counter = s.counter + 1 },
      executes s b t true (rw g.is (generate_verified g.at)) added,
      record { tracked = tracked; counted = omega (arith, v.counted) },
    )

execute_all-Received :
    (bs : List TupleBuffer) (first last : ℕ) (expected uncertainty : Option ℕ)
    → All (Generated first last) bs
    → Fresh (numbers bs)
    → (s : PrintSink) × (execute_all (new_sink expected uncertainty) bs ≡ some s) × Received bs s
unfolding execute_all
execute_all-Received [] first last expected uncertainty gs fresh =
    (new_sink expected uncertainty, refl, record { tracked = new-IsTracked; counted = refl })
execute_all-Received (b ∷ bs) first last expected uncertainty gs fresh =
    let (s, done, v) = execute_all-Received bs first last expected uncertainty gs.1 fresh.2 in
    let (s', last_one, v') = execute-Received bs s b first last v gs.0 fresh.1 in
    (s', rw done last_one, v')

too_large :
    (last : ℕ) (cs : List TupleBuffer) → All (Generated 0 last) cs → ¬ Mem (last + 1) (numbers cs)
too_large last [] gs m = absurd m
too_large last (c ∷ cs) gs (inl e) = omega (
  arith,
  e,
  gs.0.below,
  ap (λ (b : TupleBuffer). b.sequence_number) gs.0.is ∙ sequence_of gs.0.at,
)
too_large last (c ∷ cs) gs (inr m) = too_large last cs gs.1 m

-- A new sink that is handed buffers that a generator emitted, each at most once, in any order, and some of
-- them perhaps never, takes them all without a panic and counts them, and they pass its check; its
-- tracker's query is the least positive number of none of them, which is at most one above the number of
-- buffers that were emitted.
pub received-IsLeast :
    (flags : List Bool) (bs : List TupleBuffer) (expected uncertainty : Option ℕ)
    → All (λ b. Mem b (generator_loop 0 flags).0) bs
    → Fresh (numbers bs)
    → (s : PrintSink) × (execute_all (new_sink expected uncertainty) bs ≡ some s)
      × (s.counter ≡ length bs)
      × All (λ b. verify_tuple_buffer b ≡ some true) bs
      × ((q : ℕ) × (query s.sequence_tracker ≡ some q)
          × IsLeast (numbers bs) q
          × (q ≤ (generator_loop 0 flags).1 + 1))
received-IsLeast flags bs expected uncertainty from fresh =
    let last = (generator_loop 0 flags).1 in
    let (_, emitted) = generator_loop-Generated 0 flags in
    let gs : All (Generated 0 last) bs =
      All-mono (λ b. Mem b (generator_loop 0 flags).0) (Generated 0 last)
        (λ b m. All-Mem (Generated 0 last) (generator_loop 0 flags).0 emitted m) bs from in
    let (s, done, v) = execute_all-Received bs 0 last expected uncertainty gs fresh in
    let (q, is, least) = query-IsLeast (numbers bs) s.sequence_tracker v.tracked in
    (
      s,
      done,
      v.counted,
      All-mono (Generated 0 last) (λ b. verify_tuple_buffer b ≡ some true)
          (λ b g. rw g.is (generate_verified g.at)) bs gs,
      (q, is, least, bounded bs gs q least),
    )
  where
    bounded :
        (cs : List TupleBuffer)
        → All (Generated 0 (generator_loop 0 flags).1) cs
        → (q : ℕ) → IsLeast (numbers cs) q
        → q ≤ (generator_loop 0 flags).1 + 1
    bounded cs gs q least = elim (leb_cases q ((generator_loop 0 flags).1 + 1)) [
      | inl small ↦ small
      | inr large ↦ absurd (
          too_large (generator_loop 0 flags).1 cs gs
            (least.below ((generator_loop 0 flags).1 + 1) (omega arith) large))
    ]
