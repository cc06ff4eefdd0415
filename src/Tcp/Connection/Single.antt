-- ===== src/Tcp/Connection/Single.antt =====
-- At any time there is at most one connection.
use bdspro_udp_v.Common.{
  Bool, Bool-cases, Option, arith, false, inl, inr, nat_eq, none, refl, some, string_eq, subst,
  true, ℕ, ◌+◌, ◌≡◌, ◌≤◌,
}
use bdspro_udp_v.Tcp.Connection.{
  Connection, Connector, connecting, awaiting, retired, sleeping, Worker, idle, serving, stopped,
  Event, connects, wakes, takes, drained, forsaken, opens, new, on_connect, on_open, stop, step,
  is_created, Identification, EstablishChannelResult, ok, channel_reject, cancelled, bad_connection,
}
use bdspro_udp_v.Tcp.Dispatcher.{Ran, cut, ran}

pub data Reach : Connection → Type 0 where
  start : Reach new
  next : {c : Connection} → Reach c → (e : Event) {d : Connection} → step c e ≡ some d → Reach d

-- The connections in the queue and with the worker.
abbrev pub in_queue : Bool → ℕ
in_queue true = 1
in_queue false = 0

abbrev pub in_use : Worker → ℕ
in_use idle = 0
in_use serving = 1
in_use stopped = 0

-- By the place of the task that connects.
abbrev Counts : Connector → Worker → Bool → ℕ → ℕ → Type 0
Counts connecting worker queued made bad = (queued ≡ false) × (worker ≡ idle) × (made ≡ bad)
Counts (sleeping _) worker queued made bad = (queued ≡ false) × (worker ≡ idle) × (made ≡ bad)
Counts awaiting worker queued made bad = (in_queue queued + in_use worker ≡ 1) × (made ≡ bad + 1)
Counts retired worker queued made bad =
    (in_queue queued + in_use worker ≡ 0) × (bad ≤ made) × (made ≤ bad + 1)

abbrev Inv : Connection → Type 0
Inv c = Counts c.connector c.worker c.queued c.made c.bad

abbrev MaybeInv : Option Connection → Type 0
MaybeInv none = Unit
MaybeInv (some c) = Inv c

on_connect-Inv :
    (c : Connection) (answer : Ran Identification)
    → Counts connecting c.worker c.queued c.made c.bad
    → Inv (on_connect c answer)
unfolding on_connect
on_connect-Inv c cut v = ground (arith, v)
on_connect-Inv c (ran identification) v = elim (Bool-cases (is_created identification)) [
  | inl e ↦ rw e (ground (arith, v))
  | inr e ↦ rw e v
]

on_open-Inv :
    (c : Connection) (answer : Ran EstablishChannelResult)
    → Counts awaiting serving c.queued c.made c.bad
    → c.worker ≡ serving
    → c.connector ≡ awaiting
    → Inv (on_open c answer)
unfolding on_open stop
on_open-Inv c cut v w k = ground (arith, v)
on_open-Inv c (ran cancelled) v w k = ground (arith, v)
on_open-Inv c (ran (bad_connection channel)) v w k = ground (arith, v)
on_open-Inv c (ran ok) v w k = ground (arith, v, w, k)
on_open-Inv c (ran channel_reject) v w k = ground (arith, v, w, k)

abbrev placed : Connection → Connector → Worker → Connection
placed c k w = record c { connector = k; worker = w }

step-Inv :
    (c : Connection) (k : Connector) (w : Worker) (e : Event)
    → Inv (placed c k w)
    → MaybeInv (step (placed c k w) e)
unfolding step stop
step-Inv c connecting w (connects answer) v = on_connect-Inv (placed c connecting w) answer v
step-Inv c awaiting w (connects answer) v = tt
step-Inv c retired w (connects answer) v = tt
step-Inv c (sleeping _) w (connects answer) v = tt
step-Inv c connecting w wakes v = tt
step-Inv c awaiting w wakes v = tt
step-Inv c retired w wakes v = tt
step-Inv c (sleeping _) w wakes v = v
step-Inv c k serving takes v = tt
step-Inv c k stopped takes v = tt
step-Inv c connecting idle takes v = ground (arith, v)
step-Inv c (sleeping _) idle takes v = ground (arith, v)
step-Inv c awaiting idle takes v = ground (arith, v)
step-Inv c retired idle takes v = ground (arith, v)
step-Inv c k idle (opens answer) v = tt
step-Inv c k stopped (opens answer) v = tt
step-Inv c connecting serving (opens answer) v = absurd (ground (arith, v))
step-Inv c (sleeping _) serving (opens answer) v = absurd (ground (arith, v))
step-Inv c retired serving (opens answer) v = absurd (ground (arith, v))
step-Inv c awaiting serving (opens answer) v =
    on_open-Inv (placed c awaiting serving) answer v refl refl
step-Inv c k idle drained v = tt
step-Inv c k stopped drained v = tt
step-Inv c connecting serving drained v = absurd (ground (arith, v))
step-Inv c (sleeping _) serving drained v = absurd (ground (arith, v))
step-Inv c awaiting serving drained v = ground (arith, v)
step-Inv c retired serving drained v = absurd (ground (arith, v))
step-Inv c connecting w forsaken v = tt
step-Inv c awaiting w forsaken v = tt
step-Inv c (sleeping _) w forsaken v = tt
step-Inv c retired serving forsaken v = tt
step-Inv c retired stopped forsaken v = tt
step-Inv c retired idle forsaken v = ground (arith, v)

Reach-Inv : {c : Connection} → Reach c → Inv c
Reach-Inv start = (refl, refl, refl)
Reach-Inv (next {c} r e h) = subst MaybeInv h (step-Inv c c.connector c.worker e (Reach-Inv r))

-- In every reachable state at most one connection is in the queue or with the worker, and a connection was
-- made only after every earlier one had been found bad.
pub single_connection :
    {c : Connection}
    → Reach c
    → (in_queue c.queued + in_use c.worker ≤ 1) × (c.bad ≤ c.made) × (c.made ≤ c.bad + 1)
single_connection {c} r = by_place c.connector (Reach-Inv r)
  where
    by_place :
        (k : Connector)
        → Counts k c.worker c.queued c.made c.bad
        → (in_queue c.queued + in_use c.worker ≤ 1) × (c.bad ≤ c.made) × (c.made ≤ c.bad + 1)
    by_place connecting v = ground (arith, v)
    by_place (sleeping _) v = ground (arith, v)
    by_place awaiting v = ground (arith, v)
    by_place retired v = ground (arith, v)
