-- ===== src/Tests/Stopped.antt =====
-- The loop that reads two registrations of a channel, and one of another that a sender asks for.
use bdspro_udp_v.Common.{
  List, Mem, String, [], arith, false, inl, nat_eq, none, refl, some, string_eq, true, ℕ, ◌==◌, ◌∷◌,
  ◌≡◌, ◌⊎◌,
}
use bdspro_udp_v.HashMap
use bdspro_udp_v.Tcp.Registry.{Entry, new, on_request, on_register, on_shutdown}
use bdspro_udp_v.Tcp.Registry.Service.{
  register_channel, started, register, Turn, Move, reads, asks, on_control, control_loop, at_end,
}
use bdspro_udp_v.Tcp.Registry.Offers.{last_offer}
use bdspro_udp_v.Tcp.Registry.Stopped.{shutdown_reaches}

waits :
    (register (register started "a" 5 true).0 "a" 6 true).0
    ≡ record started { control = register_channel "a" 5 ∷ register_channel "a" 6 ∷ [] }
unfolding register
waits = refl

abbrev meets : ℕ → Turn
meets token = record { token = token; is_cancelled = λ t. t == 9; is_there = true }

abbrev moves : List Move
moves =
    reads (register_channel "a" 5) (meets 9)
    ∷ reads (register_channel "b" 7) (meets 11)
    ∷ asks "node" "b" [] (λ _. false) 80 true
    ∷ reads (register_channel "a" 6) (meets 10)
    ∷ []

-- The token of the channel that was granted is not cancelled.
cancelled : at_end new moves ≡ 10 ∷ []
unfolding at_end control_loop on_control on_request on_register on_shutdown HashMap.get
    HashMap.insert HashMap.remove
cancelled = refl

abbrev Ended : ℕ → Type 0
Ended t = t ≡ 9

meets-Finds : (t : ℕ) → (t == 9) ≡ true → Ended t
meets-Finds t found = ground (arith, found)

abbrev last : Entry
last = record { queue = 6; token = 10 }

offered_last : last_offer "a" none moves ≡ some last
unfolding last_offer
offered_last = refl

shutdown_reaches_example :
    (Mem 10 (at_end new moves) ⊎ Ended 10)
    × ((c : String) × (e : Entry) × (last_offer c none moves ≡ some e) × (e.token ≡ 10))
shutdown_reaches_example =
    shutdown_reaches Ended moves "a" last 10 (meets-Finds, (meets-Finds, (tt, (meets-Finds, tt))))
      offered_last (rw cancelled (inl refl))
