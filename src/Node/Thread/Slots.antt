-- ===== src/Node/Thread/Slots.antt =====
-- The threads of a source of test-node/src/main.rs over any history of starts and stops.
use bdspro_udp_v.Common.{
  All, Bool, Bool-cases, List, Option, [], ap, arith, false, if◌then◌else◌, inl, inr, nat_eq, none,
  refl, some, string_eq, true, ℕ, ◌++◌, ◌+◌, ◌<◌, ◌==◌, ◌∙◌, ◌∷◌, ◌≡◌,
}
use bdspro_udp_v.Node.Thread.{
  Act, spawns, signals, joins, Found, drop_thread, drop_held, Slot, empty, Called, replace_thread,
  generator_start, network_start, stop,
}

pub data Call : Type 0 where
  starts_generator : Found → Call
  starts_network : Bool → Found → Call
  stops : Found → Call

-- The n-th call names the thread that it may spawn by n.
unfoldable pub call : Slot → ℕ → Call → Called
call s n (starts_generator f) = generator_start s n f
call s n (starts_network registered f) = network_start s registered n f
call s n (stops f) = stop s f

unfoldable pub run : Slot → ℕ → List Call → Slot × List Act
run s n [] = (s, [])
run s n (c ∷ cs) =
    let called = call s n c in
    let (last, acts) = run called.slot (n + 1) cs in (last, called.acts ++ acts)

unfoldable pub without : ℕ → List ℕ → List ℕ
without id [] = []
without id (i ∷ ids) = let rest = without id ids in if i == id then rest else i ∷ rest

-- The threads that were spawned and not told to stop, after those of before.
unfoldable pub unsignalled : List ℕ → List Act → List ℕ
unsignalled ids [] = ids
unsignalled ids (spawns id ∷ acts) = unsignalled (id ∷ ids) acts
unsignalled ids (signals id ∷ acts) = unsignalled (without id ids) acts
unsignalled ids (joins id ∷ acts) = unsignalled ids acts

abbrev pub held : Option ℕ → List ℕ
held none = []
held (some id) = id ∷ []

unsignalled-append :
    (ids : List ℕ) (xs ys : List Act)
    → unsignalled ids (xs ++ ys) ≡ unsignalled (unsignalled ids xs) ys
unfolding unsignalled
unsignalled-append ids [] ys = refl
unsignalled-append ids (spawns id ∷ xs) ys = unsignalled-append (id ∷ ids) xs ys
unsignalled-append ids (signals id ∷ xs) ys = unsignalled-append (without id ids) xs ys
unsignalled-append ids (joins id ∷ xs) ys = unsignalled-append ids xs ys

abbrev Below : ℕ → Option ℕ → Type 0
Below n thread = All (λ id. id < n) (held thread)

-- A drop leaves of the old thread and the new ones only these.
drop_held-unsignalled :
    (thread : Option ℕ) (f : Found) (n : ℕ)
    → Below n thread
    → (unsignalled (held thread) (drop_held thread f).0 ≡ [])
      × (unsignalled (n ∷ held thread) (drop_held thread f).0 ≡ n ∷ [])
unfolding drop_held drop_thread unsignalled without
drop_held-unsignalled none f n low = (refl, refl)
drop_held-unsignalled (some id) f n low = elim (Bool-cases f.is_finished) [
  | inl e ↦ (ground arith, ground arith)
  | inr e ↦ (ground arith, ground arith)
]

record Holds (s : Slot) (n : ℕ) (c : Called) : Type 0 where
  kept : unsignalled (held s.thread) c.acts ≡ held c.slot.thread
  low : Below (n + 1) c.slot.thread

Below-next : (n : ℕ) (thread : Option ℕ) → Below n thread → Below (n + 1) thread
Below-next n none low = tt
Below-next n (some id) low = (omega (arith, low.0), tt)

replace_thread-Holds :
    (s : Slot) (n : ℕ) (f : Found) → Below n s.thread → Holds s n (replace_thread s n f)
unfolding replace_thread unsignalled
replace_thread-Holds s n f low = elim (Bool-cases s.is_poisoned) [
  | inl e ↦ rw e (record { kept = refl; low = Below-next n s.thread low })
  | inr e ↦
      rw e (record { kept = (drop_held-unsignalled s.thread f n low).1; low = (omega arith, tt) })
]

call-Holds : (s : Slot) (n : ℕ) (c : Call) → Below n s.thread → Holds s n (call s n c)
unfolding call generator_start network_start stop unsignalled
call-Holds s n (starts_generator f) low = replace_thread-Holds s n f low
call-Holds s n (starts_network false f) low = record {
  kept = refl;
  low = Below-next n s.thread low;
}
call-Holds s n (starts_network true f) low = replace_thread-Holds s n f low
call-Holds s n (stops f) low = elim (Bool-cases s.is_poisoned) [
  | inl e ↦ rw e (record { kept = refl; low = Below-next n s.thread low })
  | inr e ↦ rw e (record { kept = (drop_held-unsignalled s.thread f n low).0; low = tt })
]

run-held :
    (cs : List Call) (s : Slot) (n : ℕ)
    → Below n s.thread
    → unsignalled (held s.thread) (run s n cs).1 ≡ held (run s n cs).0.thread
unfolding run unsignalled
run-held [] s n low = refl
run-held (c ∷ cs) s n low =
    let called = call s n c in
    let h = call-Holds s n c low in
    unsignalled-append (held s.thread) called.acts (run called.slot (n + 1) cs).1
    ∙ ap (λ ids. unsignalled ids (run called.slot (n + 1) cs).1) h.kept
    ∙ run-held cs called.slot (n + 1) h.low

-- Over any history of starts and stops of a source, whatever its calls find and whichever of them panic,
-- the threads that were spawned and not told to stop are exactly the one that the source holds, or none
-- where it holds none.
pub threads_accounted :
    (cs : List Call) → let (s, acts) = run empty 0 cs in unsignalled [] acts ≡ held s.thread
threads_accounted cs = run-held cs empty 0 tt
