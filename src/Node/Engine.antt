-- ===== src/Node/Engine.antt =====
-- test-node/src/engine.rs: the query engine. Sources emit tasks into a bounded queue, and one worker takes
-- them out, runs the pipeline of their node, and emits what that emits for the node's successor. The
-- pipelines and sources are trait objects; they are named by numbers, and what a pipeline does is a
-- parameter.
pub mod Queries
pub mod Tasks
use bdspro_udp_v.Common.{
  All, All-Mem, All-append, All-mono, All_of_Mem, Bool, Bool-cases, Eq, List, Mem, Option,
  Option-cases, String, [], ap, arith, eq_iff, eqb, eqb_iff, false, if◌then◌else◌, inl, inr, leb,
  length, length-append, ltb, map, nat_eq, none, not, pair_eq, pair_same, refl, replicate, some,
  string_eq, subst, suc, sym, take, take_of_length-le, true, zero, ℕ, ℕ_discrete, ◌%◌, ◌&&◌, ◌*◌,
  ◌++◌, ◌+◌, ◌-◌, ◌/◌, ◌<◌, ◌==◌, ◌^◌, ◌||◌, ◌↔◌, ◌∙◌, ◌∷◌, ◌≡◌, ◌≢◌, ◌≤◌, ◌⊎◌,
}
use bdspro_udp_v.HashMap
use bdspro_udp_v.HashMap.{HashMap}
use bdspro_udp_v.Tcp.Protocol.{TupleBuffer}
use bdspro_udp_v.Node.ArrayQueue.{ArrayQueue}

-- The pipeline, and the successor, if there is one.
pub data Node : Type 0 where
  last_node : ℕ → Node
  node : ℕ → Node → Node

unfoldable pub pipeline : Node → ℕ
pipeline (last_node p) = p
pipeline (node p _) = p

unfoldable pub successor : Node → Option Node
successor (last_node _) = none
successor (node _ next) = some next

pub record SourceNode : Type 0 where
  pub implementation : ℕ
  pub next : Node  -- the field `successor`

pub record Query : Type 0 where
  pub sources : List SourceNode

pub data Task : Type 0 where
  compute : ℕ → TupleBuffer → Node → Task

pub record QueryEngine (Q : Type 0) : Type 0 where
  pub id_counter : ℕ  -- usize
  pub queue : Q
  pub queries : HashMap ℕ Query

-- A call of a source that was started: the closure that it emits with.
pub record EmitFn : Type 0 where
  pub query_id : ℕ
  pub target : Node

abbrev pub usize : ℕ → ℕ
usize n = n % 2 ^ 64

-- `SourceNode::start`, by the source that it starts and the closure that it hands over.
unfoldable pub start_source : ℕ → SourceNode → ℕ × EmitFn
start_source id source = (source.implementation, record { query_id = id; target = source.next })

module _ {Q : Type 0} ⦃array : ArrayQueue Q Task⦄ where
  -- `QueryEngine::default`.
  unfoldable pub default : QueryEngine Q
  default = record { id_counter = 0; queue = array.new 1024; queries = [] }

  -- The closure of `SourceNode::start`; that the queue may be full is ignored.
  unfoldable pub emit_fn : EmitFn → TupleBuffer → Q → Q
  emit_fn f buffer queue = (array.push queue (compute f.query_id buffer f.target)).1

  -- `PEC::emit`.
  unfoldable pub emit : ℕ → Option Node → Q → TupleBuffer → Q
  emit id none queue buffer = queue
  emit id (some next) queue buffer = (array.push queue (compute id buffer next)).1

  unfoldable pub emit_all : ℕ → Option Node → Q → List TupleBuffer → Q
  emit_all id next queue [] = queue
  emit_all id next queue (buffer ∷ rest) = emit_all id next (emit id next queue buffer) rest

  -- The sources that are started, the identifier, and the engine.
  unfoldable pub start_query : QueryEngine Q → Query → List (ℕ × EmitFn) × ℕ × QueryEngine Q
  unfolding start_source
  start_query e query = (
    map (start_source e.id_counter) query.sources,
    e.id_counter,
    record e {
      id_counter = usize (e.id_counter + 1);
      queries = HashMap.insert e.id_counter query e.queries;
    },
  )

  -- The sources that are stopped, unless there is no such query.
  unfoldable pub stop_query : QueryEngine Q → ℕ → Option (List ℕ) × QueryEngine Q
  stop_query e id = elim (HashMap.get id e.queries) [
    | none ↦ (none, e)
    | some query ↦ (
      some (map (λ (source : SourceNode). source.implementation) query.sources),
      record e { queries = HashMap.remove id e.queries },
    )
  ]

  -- One turn of the worker's loop, over the pipelines and their states `P`.
  module _ {P : Type 0} (execute : ℕ → P → TupleBuffer → P × List TupleBuffer) where
    unfoldable pub work_on : QueryEngine Q → P → Task → QueryEngine Q × P
    unfolding emit_all pipeline successor
    work_on e p (compute id input n) =
        let (p', emitted) = execute (pipeline n) p input in
        (record e { queue = emit_all id (successor n) e.queue emitted }, p')

    unfoldable pub work : QueryEngine Q → P → Option Task × QueryEngine Q × P
    unfolding work_on
    work e p =
        let (popped, queue) = array.pop e.queue in
        let e' = record e { queue = queue } in
        elim popped [
          | none ↦ (none, e', p)
          | some task ↦ (some task, (work_on e' p task).0, (work_on e' p task).1)
        ]
