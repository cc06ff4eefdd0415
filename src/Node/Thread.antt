-- ===== src/Node/Thread.antt =====
-- `Thread` of test-node/src/main.rs and the slots of `GeneratorSource` and `NetworkSource` that hold one.
-- Threads are named by numbers; whether a thread has finished, and how it ends, is an argument. A panic
-- while a slot is locked poisons its lock.
pub mod Slots
use bdspro_udp_v.Common.{
  All, All-Mem, All-append, All-mono, All_of_Mem, Bool, Bool-cases, Eq, List, Mem, Mem-append_right,
  Option, Option-cases, String, [], ap, arith, eq_iff, eqb, eqb_iff, false, get_elem?,
  get_elem?-append, get_elem?-append_left, if◌then◌else◌, inl, inr, leb, length, length-append, ltb,
  map, nat_eq, none, not, pair_eq, pair_same, refl, replicate, some, string_eq, subst, suc, sym,
  take, take_of_length-le, true, zero, ℕ, ℕ_discrete, ◌%◌, ◌&&◌, ◌*◌, ◌++◌, ◌+◌, ◌-◌, ◌/◌, ◌<◌,
  ◌==◌, ◌^◌, ◌||◌, ◌↔◌, ◌∙◌, ◌∷◌, ◌≡◌, ◌≢◌, ◌≤◌, ◌⊎◌,
}

pub data Act : Type 0 where
  spawns signals joins : ℕ → Act

-- What a call finds of the thread that it drops: whether it has finished, and, where it has not, whether it
-- then ends without a panic.
pub record Found : Type 0 where
  pub is_finished : Bool
  pub joined : Bool

-- `Thread::drop`, and whether it returns.
unfoldable pub drop_thread : ℕ → Found → List Act × Bool
drop_thread id f =
    if f.is_finished then (signals id ∷ [], true) else (signals id ∷ joins id ∷ [], f.joined)

unfoldable pub drop_held : Option ℕ → Found → List Act × Bool
drop_held none f = ([], true)
drop_held (some id) f = drop_thread id f

-- The lock of a source with its thread.
pub record Slot : Type 0 where
  pub thread : Option ℕ
  pub is_poisoned : Bool

abbrev pub empty : Slot
empty = record { thread = none; is_poisoned = false }

-- What a call does, and whether it returns.
pub record Called : Type 0 where
  pub slot : Slot
  pub acts : List Act
  pub returns : Bool

abbrev pub refused : Slot → Called
refused s = record { slot = s; acts = []; returns = false }

-- The slot holds the new thread when the old one is dropped, under the lock.
unfoldable pub replace_thread : Slot → ℕ → Found → Called
replace_thread s id f =
    if s.is_poisoned
    then refused s
    else (let (acts, fine) = drop_held s.thread f in
        record {
          slot = record { thread = some id; is_poisoned = not fine };
          acts = spawns id ∷ acts;
          returns = fine;
        })

-- `GeneratorSource::start`.
unfoldable pub generator_start : Slot → ℕ → Found → Called
generator_start = replace_thread

-- `NetworkSource::start`, with the answer of `register_channel`.
unfoldable pub network_start : Slot → Bool → ℕ → Found → Called
network_start s false id f = refused s
network_start s true id f = replace_thread s id f

-- `stop` of either source.
unfoldable pub stop : Slot → Found → Called
stop s f =
    if s.is_poisoned
    then refused s
    else (let (acts, fine) = drop_held s.thread f in
        record {
          slot = record { thread = none; is_poisoned = not fine };
          acts = acts;
          returns = fine;
        })
