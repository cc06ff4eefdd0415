-- ===== src/Tests/Engine.antt =====
-- The engine over a queue that is a list with a capacity: two queries, a stop, and a pipeline that emits
-- its input twice.
use bdspro_udp_v.Common.{
  ◌+◌, List, [], arith, false, length, map, nat_eq, some, string_eq, ℕ, ◌↔◌, ◌∷◌, ◌≡◌, ◌≤◌,
}
use bdspro_udp_v.HashMap
use bdspro_udp_v.Tests.Channel.{chunk}
use bdspro_udp_v.Tcp.Protocol.{TupleBuffer}
use bdspro_udp_v.Node.ArrayQueue.{Bounded, bounded}
use bdspro_udp_v.Node.Engine.{
  last_node, node, Query, Task, compute, QueryEngine, EmitFn, default, stop_query, emit_fn, emit,
  emit_all, work, work_on, successor, pipeline,
}
use bdspro_udp_v.Node.Engine.Queries.{Command, start, stop, run, run-queries}
use bdspro_udp_v.Node.Engine.Tasks.{Reach, begins, emits, works, tasks_in_order}

abbrev of_sources : List ℕ → Query
of_sources is = record { sources = map (λ i. record { implementation = i; next = last_node i }) is }

abbrev commands : List Command
commands = start (of_sources (7 ∷ [])) ∷ stop 1 ∷ start (of_sources (8 ∷ 9 ∷ [])) ∷ stop 0 ∷ []

run-queries_example :
    (HashMap.get 1 (run {Q = Bounded Task} default commands).queries
      ≡ some (of_sources (8 ∷ 9 ∷ [])))
    × ((stop_query (run {Q = Bounded Task} default commands) 1).0 ≡ some (8 ∷ 9 ∷ []))
run-queries_example = run-queries (Bounded Task) commands 1 (omega arith)

abbrev twice : ℕ → ℕ → TupleBuffer → ℕ × List TupleBuffer
twice p s b = (s + 1, b ∷ b ∷ [])

abbrev source : EmitFn
source = record { query_id = 0; target = node 4 (last_node 5) }

abbrev emitted : QueryEngine (Bounded Task)
emitted = record {
  id_counter = 0;
  queue = (1024, compute 0 (chunk 1) (last_node 5) ∷ compute 0 (chunk 1) (last_node 5) ∷ []);
  queries = [];
}

abbrev put : List Task
put =
    compute 0 (chunk 1) source.target
    ∷ compute 0 (chunk 1) (last_node 5)
    ∷ compute 0 (chunk 1) (last_node 5)
    ∷ []

emitted-Reach : Reach twice emitted 1 put (compute 0 (chunk 1) source.target ∷ [])
unfolding default emit_fn work work_on emit_all emit successor pipeline
emitted-Reach = works (emits (begins 0) source (chunk 1))

tasks_in_order_example :
    (put ≡ put)
    × (length emitted.queue.1 ≤ 1024)
    × ((task : Task)
        → ((bounded.push emitted.queue task).0 ≡ false) ↔ (length emitted.queue.1 ≡ 1024))
tasks_in_order_example = tasks_in_order twice emitted-Reach
