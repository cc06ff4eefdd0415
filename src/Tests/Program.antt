-- ===== src/Tests/Program.antt =====
-- A configuration that starts a generator and a sink, waits, and stops the generator.
use bdspro_udp_v.Common.{
  Bool, List, Option, [], arith, nat_eq, none, refl, some, string_eq, true, ◌∷◌, ◌≡◌,
}
use bdspro_udp_v.HashMap
use bdspro_udp_v.Node.Engine.{Task}
use bdspro_udp_v.Node.ArrayQueue.{Bounded, bounded}
use bdspro_udp_v.Node.Engine
use bdspro_udp_v.Node.Program.{
  source, sink, Command, start_query, stop_query, wait, network_source, Program, Effect, initial,
  command, commands, start, starts_up, source_of,
}
use bdspro_udp_v.Node.Program.Commands.{described, stop-commands}

abbrev config : List (Command × Bool)
config =
    (start_query (source "out" "host:1" none none), true)
    ∷ (start_query (sink "in" none none none), true)
    ∷ (wait 1000, true)
    ∷ (stop_query 0, true)
    ∷ []

abbrev after : Option (List Effect × Program (Bounded Task))
after = commands initial config

abbrev the : Option (List Effect × Program (Bounded Task)) → Program (Bounded Task)
the none = initial
the (some (effects, p)) = p

abbrev effects : Option (List Effect × Program (Bounded Task)) → List Effect
effects none = []
effects (some (es, p)) = es

ran : commands initial config ≡ some (effects after, the after)
unfolding commands command start starts_up source_of Engine.default Engine.start_query
    Engine.stop_query HashMap.get HashMap.remove HashMap.insert
ran = refl

stop-commands_example :
    described (the after).objects (Engine.stop_query (the after).engine 1).0
    ≡ some (some (network_source "in" none) ∷ [])
unfolding source_of
stop-commands_example = stop-commands config 1 ran (omega arith)
