-- ===== src/Tests/Registry.antt =====
-- A channel that is registered, requested, opened and connected.
use bdspro_udp_v.Common.{List, [], false, nat_eq, string_eq, true, ◌∷◌, ◌≤◌}
use bdspro_udp_v.Tcp.Registry.{Entry, new, open_key_eq}
use bdspro_udp_v.Tcp.Registry.Attached.{
  Event, requests, streams, opens, registers, attached, offered,
}
use bdspro_udp_v.Tcp.Registry.Once.{attached_once}

abbrev entry : Entry
entry = record { queue = 5; token = 9 }

-- The first stream comes before the task has opened the channel, and the third after it has its stream.
abbrev history : List Event
history =
    registers "a" entry (λ _. false) true
    ∷ requests "node" "a" [] (λ _. false) 80 true
    ∷ streams "node" "a"
    ∷ opens 0
    ∷ streams "node" "a"
    ∷ streams "node" "a"
    ∷ []

attached_once_example : attached "a" 5 new history ≤ offered "a" 5 history
attached_once_example = attached_once "a" 5 history
