-- ===== src/Tests/Thread.antt =====
-- A source that is started twice and stopped, and one whose thread panics.
use bdspro_udp_v.Common.{List, [], false, nat_eq, refl, some, string_eq, true, ◌∷◌, ◌≡◌}
use bdspro_udp_v.Node.Thread.{
  spawns, signals, joins, Found, empty, stop, generator_start, network_start, replace_thread,
  drop_held, drop_thread,
}
use bdspro_udp_v.Node.Thread.Slots.{
  Call, starts_generator, starts_network, stops, call, run, unsignalled, held, threads_accounted,
}

abbrev busy : Found
busy = record { is_finished = false; joined = true }

abbrev broken : Found
broken = record { is_finished = false; joined = false }

-- The second start finds a thread that panics, after which the lock is poisoned.
abbrev calls : List Call
calls = starts_generator busy ∷ starts_generator broken ∷ stops busy ∷ []

threads_accounted_example : let (s, acts) = run empty 0 calls in unsignalled [] acts ≡ held s.thread
threads_accounted_example = threads_accounted calls

poisoned : run empty 0 calls ≡ (
  record { thread = some 1; is_poisoned = true },
  spawns 0 ∷ spawns 1 ∷ signals 0 ∷ joins 0 ∷ [],
)
unfolding run call stop generator_start replace_thread drop_held drop_thread
poisoned = refl

both_stopped :
    run empty 0 (starts_network true busy ∷ starts_network true busy ∷ stops busy ∷ [])
    ≡ (empty, spawns 0 ∷ spawns 1 ∷ signals 0 ∷ joins 0 ∷ signals 1 ∷ joins 1 ∷ [])
unfolding run call stop network_start replace_thread drop_held drop_thread
both_stopped = refl
