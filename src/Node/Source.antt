-- ===== src/Node/Source.antt =====
-- The loops of `NetworkSource` and `GeneratorSource` of test-node/src/main.rs. What a turn finds (the flag
-- of its thread, the answer of the queue) is an argument.
pub mod Received
use bdspro_udp_v.Common.{
  Bool, List, Option, [], false, if◌then◌else◌, nat_eq, none, not, some, string_eq, true, ℕ, ◌+◌,
  ◌∷◌,
}
use bdspro_udp_v.Tcp.Protocol.{TupleBuffer}
use bdspro_udp_v.Node.Generator.{generate}

-- One turn of the loop of `NetworkSource::start`; the queue answers with a buffer, or is closed.
pub record Turn : Type 0 where
  pub is_stopped : Bool
  pub received : Option TupleBuffer

-- How the loop has ended; `internal` closes the queue.
pub data End : Type 0 where
  external internal : End

-- The buffers that the loop of `NetworkSource::start` emits, and its end, if it came to one.
unfoldable pub network_loop : List Turn → List TupleBuffer × Option End
network_loop [] = ([], none)
network_loop (t ∷ ts) = if t.is_stopped then ([], some internal) else elim t.received [
  | none ↦ ([], some external)
  | some b ↦ (b ∷ (network_loop ts).0, (network_loop ts).1)
]

-- The loop of `GeneratorSource::start` from a counter on, by what the flag is at each turn, and the counter
-- at its end.
unfoldable pub generator_loop : ℕ → List Bool → List TupleBuffer × ℕ
unfolding generate
generator_loop counter [] = ([], counter)
generator_loop counter (true ∷ flags) = ([], counter)
generator_loop counter (false ∷ flags) =
    let (later, last) = generator_loop (counter + 1) flags in (generate counter ∷ later, last)
