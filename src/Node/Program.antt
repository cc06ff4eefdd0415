-- ===== src/Node/Program.antt =====
-- `main` of test-node/src/main.rs with `generator`, `sink` and `bridge`, and test-node/src/config.rs: the
-- commands of a configuration, run against the query engine. The sources and pipelines that `main` makes
-- are kept in the order in which they are made, and named by their places. The parser of the
-- configuration is a parameter.
pub mod Commands
use bdspro_udp_v.Common.{
  All, All-Mem, All-append, All-mono, All_of_Mem, Bool, Bool-cases, Eq, List, Mem, Option,
  Option-cases, String, [], ap, arith, eq_iff, eqb, eqb_iff, false, get_elem?, if◌then◌else◌, inl,
  inr, leb, length, length-append, ltb, map, nat_eq, none, not, pair_eq, pair_same, refl, replicate,
  some, string_eq, subst, suc, sym, take, take_of_length-le, true, zero, ℕ, ℕ_discrete, ◌%◌, ◌&&◌,
  ◌*◌, ◌++◌, ◌+◌, ◌-◌, ◌/◌, ◌<◌, ◌==◌, ◌^◌, ◌||◌, ◌↔◌, ◌∙◌, ◌∷◌, ◌≡◌, ◌≢◌, ◌≤◌, ◌⊎◌,
}
use bdspro_udp_v.Tcp.Protocol.{ChannelIdentifier, ConnectionIdentifier}
use bdspro_udp_v.Node.ArrayQueue.{ArrayQueue}
use bdspro_udp_v.Node.Engine
use bdspro_udp_v.Node.Engine.{last_node, SourceNode, Task, QueryEngine, EmitFn}

-- `config::Query`.
pub data Query : Type 0 where
  source : ChannelIdentifier → ConnectionIdentifier → Option ℕ → Option Bool → Query
  bridge :
      ChannelIdentifier → ChannelIdentifier → ConnectionIdentifier → Option ℕ → Option Bool → Query
  sink : ChannelIdentifier → Option ℕ → Option ℕ → Option ℕ → Query

pub data Command : Type 0 where
  start_query : Query → Command
  stop_query : ℕ → Command
  wait : ℕ → Command

-- `config::Node`.
pub record Config : Type 0 where
  pub connection : ConnectionIdentifier
  pub bind : String
  pub commands : List Command

-- What `main` makes for a query; times are in milliseconds.
pub data Object : Type 0 where
  network_sink : ConnectionIdentifier → ChannelIdentifier → Option Bool → Object
  print_sink : Option ℕ → Option ℕ → Object
  generator_source : ℕ → Object
  network_source : ChannelIdentifier → Option ℕ → Object

abbrev pub or_else : ℕ → Option ℕ → ℕ
or_else n none = n
or_else n (some m) = m

-- The pipeline and the source of `generator`, `bridge` and `sink`.
unfoldable pub pipeline_of : Query → Object
pipeline_of (source channel connection rate closed) = network_sink connection channel closed
pipeline_of (bridge input channel connection rate closed) = network_sink connection channel closed
pipeline_of (sink input rate expected uncertainty) = print_sink expected uncertainty

unfoldable pub source_of : Query → Object
source_of (source channel connection rate closed) = generator_source (or_else 250 rate)
source_of (bridge input channel connection rate closed) = network_source input rate
source_of (sink input rate expected uncertainty) = network_source input rate

-- A source that is started may panic: a network source unwraps the answer of `register_channel`.
unfoldable pub starts_up : Object → Bool → Bool
starts_up (network_source channel rate) registered = registered
starts_up _ registered = true

-- The query of one source and one pipeline, which stand at `n` and after it.
abbrev pub query_at : ℕ → Engine.Query
query_at n = record { sources = record { implementation = n + 1; next = last_node n } ∷ [] }

pub record Program (Q : Type 0) : Type 0 where
  pub engine : QueryEngine Q
  pub objects : List Object

-- What a command does: the sources that it starts or stops.
pub data Effect : Type 0 where
  started : ℕ → List (ℕ × EmitFn) → Effect
  stopped : Option (List ℕ) → Effect
  waited : ℕ → Effect

-- `load_config`: the file's nodes, and `remove`, which panics past the end.
unfoldable pub load_config : (String → Option (List Config)) → String → ℕ → Option Config
load_config parse file index = elim (parse file) [
  | none ↦ none
  | some nodes ↦ get_elem? nodes index
]

module _ {Q : Type 0} ⦃array : ArrayQueue Q Task⦄ where
  abbrev pub initial : Program Q
  initial = record { engine = Engine.default; objects = [] }

  -- `generator`, `bridge` or `sink`.
  unfoldable pub start : Program Q → Query → Effect × Program Q
  unfolding pipeline_of source_of Engine.start_query
  start p q =
      let (sources, id, engine) = Engine.start_query p.engine (query_at (length p.objects)) in
      (
        started id sources,
        record { engine = engine; objects = p.objects ++ pipeline_of q ∷ source_of q ∷ [] },
      )

  -- One turn of the loop of `main`; it panics where a source does.
  unfoldable pub command : Program Q → Command → Bool → Option (Effect × Program Q)
  unfolding start starts_up source_of Engine.stop_query
  command p (start_query q) registered =
      if starts_up (source_of q) registered then some (start p q) else none
  command p (stop_query id) registered =
      let (sources, engine) = Engine.stop_query p.engine id in
      some (stopped sources, record p { engine = engine })
  command p (wait millis) registered = some (waited millis, p)

  abbrev pub with_effect :
      Effect → Option (List Effect × Program Q) → Option (List Effect × Program Q)
  with_effect effect none = none
  with_effect effect (some (effects, p)) = some (effect ∷ effects, p)

  -- The loop.
  unfoldable pub commands : Program Q → List (Command × Bool) → Option (List Effect × Program Q)
  unfolding command
  commands p [] = some ([], p)
  commands p ((c, registered) ∷ cs) = elim (command p c registered) [
    | none ↦ none
    | some (effect, p') ↦ with_effect effect (commands p' cs)
  ]
