-- ===== src/Tests/Intake.antt =====
-- The receiving end of a data channel: two buffers come, and the second cannot be acknowledged.
use bdspro_udp_v.Common.{Bool, List, [], false, nat_eq, none, string_eq, true, ℕ, ◌∷◌}
use bdspro_udp_v.Tests.Channel.{chunk}
use bdspro_udp_v.Tcp.Protocol.{tuples}
use bdspro_udp_v.Tcp.Dispatcher.{ran}
use bdspro_udp_v.Tcp.Intake.{Turn, got, run}
use bdspro_udp_v.Tcp.Intake.Delivery.{InOrder, reads, run-InOrder}

abbrev brings : ℕ → Bool → Turn
brings n written = record {
  queued = ran true;
  written = ran written;
  request = ran (got (tuples (chunk n)));
}

abbrev two : List Turn
two = brings 1 true ∷ brings 2 true ∷ brings 3 false ∷ []

run-InOrder_example : InOrder (reads none two) (run none two)
run-InOrder_example = run-InOrder two
