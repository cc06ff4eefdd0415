-- ===== src/Tests/Node.antt =====
-- The node's sinks and sources at small inputs.
use bdspro_udp_v.Common.{
  Mem, [], arith, if◌then◌else◌, nat_eq, none, refl, some, string_eq, true, ℕ, ◌==◌, ◌∷◌, ◌≡◌,
}
use bdspro_udp_v.Tests.Channel.{chunk}
use bdspro_udp_v.Node.Sink
use bdspro_udp_v.Node.Sink.{taken, full, TrySend, returns}
use bdspro_udp_v.Node.Sink.Backlog.{Accounts, execute-Accounts, open_sink, backlog_repeats}
use bdspro_udp_v.Node.Tracker.{MissingSequenceTracker, query}
use bdspro_udp_v.Node.Tracker.Least.{IsLeast}
use bdspro_udp_v.Node.Tracker.Adding.{add_all, Fresh, added-IsLeast}

abbrev behind : Sink.NetworkSink
behind = open_sink none (chunk 1 ∷ chunk 2 ∷ [])

-- The queue takes one buffer and is full then.
abbrev takes_one : ℕ → TrySend
takes_one n = if n == 0 then taken else full

execute-Accounts_example :
    Accounts behind.backlog (chunk 3) (Sink.execute behind (chunk 3) true takes_one full)
execute-Accounts_example = execute-Accounts behind (chunk 3) true takes_one full refl

backlog_repeats_example :
    Sink.execute behind (chunk 3) true (λ _. taken) taken
    ≡ returns (open_sink none []) (chunk 1 ∷ chunk 2 ∷ chunk 3 ∷ chunk 3 ∷ [])
backlog_repeats_example = backlog_repeats none (chunk 3) (chunk 1) (chunk 2 ∷ [])

out_of_order : Fresh (2 ∷ 4 ∷ 1 ∷ [])
out_of_order =
    (omega arith, differs_from_both, (omega arith, differs_from_one, (omega arith, (λ m. m), tt)))
  where
    differs_from_both : ¬ Mem {A = ℕ} 2 (4 ∷ 1 ∷ [])
    differs_from_both m = ground arith

    differs_from_one : ¬ Mem {A = ℕ} 4 (1 ∷ [])
    differs_from_one m = ground arith

added-IsLeast_example :
    (t : MissingSequenceTracker) × (add_all (2 ∷ 4 ∷ 1 ∷ []) ≡ some t)
    × ((q : ℕ) × (query t ≡ some q) × IsLeast (2 ∷ 4 ∷ 1 ∷ []) q)
added-IsLeast_example = added-IsLeast (2 ∷ 4 ∷ 1 ∷ []) out_of_order
