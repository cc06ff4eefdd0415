-- ===== src/Tests/Connection.antt =====
-- The dispatcher with two registrations, and a connection that is lost.
use bdspro_udp_v.Common.{
  List, Mem, String, [], false, inl, inr, nat_eq, refl, some, string_eq, true, ℕ, ◌∷◌, ◌≡◌, ◌≤◌,
}
use bdspro_udp_v.Tcp.Connection.Attempts.{attempts_wait, ramp, refusals, any_last}
use bdspro_udp_v.HashMap
use bdspro_udp_v.Tcp.Dispatcher
use bdspro_udp_v.Tcp.Dispatcher.{Ran, cut, ran, RegisterChannel, Forward, dispatch}
use bdspro_udp_v.Tcp.Dispatcher.Handlers
use bdspro_udp_v.Tcp.Dispatcher.Handlers.{one_handler, cancel_reaches}
use bdspro_udp_v.Tcp.Connection
use bdspro_udp_v.Tcp.Connection.{
  attempt_channel_registration, Attempt, no_reply, replied, channel_reject, Connection, accepted,
  unreachable, connects, wakes, takes, opens, bad_connection, connecting, awaiting, serving, idle,
}
use bdspro_udp_v.Tcp.Connection.Single
use bdspro_udp_v.Tcp.Connection.Single.{single_connection, in_queue, in_use}

abbrev registers : RegisterChannel → ℕ → Dispatcher.Turn
registers message controller = record {
  received = ran (some message);
  made = ran (some controller);
  sent = ran true;
}

abbrev to_node : String → RegisterChannel
to_node channel = record { target_connection = "node"; channel = channel; reply = 0 }

abbrev first : Forward
first = record { controller = 7; registration = to_node "a" }

abbrev second : Forward
second = record { controller = 7; registration = to_node "b" }

two-Reach : Handlers.Reach (("node", 7) ∷ []) (second ∷ first ∷ [])
unfolding dispatch HashMap.get HashMap.insert HashMap.remove
two-Reach =
    Handlers.next (Handlers.next Handlers.start (registers (to_node "a") 7) refl)
      (registers (to_node "b") 8) refl

one_handler_example : first.controller ≡ second.controller
one_handler_example = one_handler two-Reach first second (inr (inl refl)) (inl refl) refl

abbrev cancels : Dispatcher.Turn
cancels = record { received = cut; made = cut; sent = cut }

cancelled_all : dispatch (("node", 7) ∷ []) cancels ≡ Dispatcher.stops (7 ∷ [])
unfolding dispatch
cancelled_all = refl

cancel_reaches_example : Mem second.controller (7 ∷ [])
cancel_reaches_example = cancel_reaches two-Reach second (inl refl) cancels cancelled_all

abbrev passes : List Attempt
passes = replied channel_reject ∷ replied (bad_connection "a") ∷ no_reply ∷ []

attempts_wait_example :
    let registration = attempt_channel_registration passes in
    (registration.waits ≡ ramp 100 0 (refusals passes)) × (registration.is_over ≡ any_last passes)
attempts_wait_example = attempts_wait passes

-- One failure, a connection, and its loss.
lost-Reach :
    Single.Reach (record {
      connector = connecting;
      retry = 0;
      worker = idle;
      queued = false;
      made = 1;
      bad = 1;
    })
unfolding Connection.step
lost-Reach =
    Single.next
      (Single.next
        (Single.next
          (Single.next (Single.next Single.start (connects (ran unreachable)) refl) wakes refl)
          (connects (ran accepted)) refl)
        takes refl)
      (opens (ran (bad_connection "a"))) refl

single_connection_example : (0 ≤ 1) × (1 ≤ 1) × (1 ≤ 2)
single_connection_example = single_connection lost-Reach
