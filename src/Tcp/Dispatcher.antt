-- ===== src/Tcp/Dispatcher.antt =====
-- `network_sender_dispatcher` of network/src/sender.rs and the calls of its `NetworkService`: one
-- connection handler for each target, made when a channel to it is first registered. A handler is named
-- by its controller, which `create_connection_handler` returns.
pub mod Handlers
use bdspro_udp_v.Common.{
  All, All-Mem, All-append, All-mono, All_of_Mem, Bool, Bool-cases, Eq, List, Mem, Option,
  Option-cases, String, [], ap, arith, eq_iff, eqb, eqb_iff, false, if◌then◌else◌, inl, inr, leb,
  length, length-append, ltb, map, nat_eq, none, not, pair_eq, pair_same, refl, replicate, some,
  string_eq, subst, suc, sym, take, take_of_length-le, true, zero, ℕ, ℕ_discrete, ◌%◌, ◌&&◌, ◌*◌,
  ◌++◌, ◌+◌, ◌-◌, ◌/◌, ◌<◌, ◌==◌, ◌^◌, ◌||◌, ◌↔◌, ◌∙◌, ◌∷◌, ◌≡◌, ◌≢◌, ◌≤◌, ◌⊎◌,
}
use bdspro_udp_v.HashMap
use bdspro_udp_v.HashMap.{HashMap}
use bdspro_udp_v.Tcp.Protocol.{ChannelIdentifier, ConnectionIdentifier}

-- `run_until_cancelled`: the token was first, or the call was.
pub data Ran (A : Type 0) : Type 0 where
  cut : Ran A
  ran : A → Ran A

-- A controller, with the token that `create_connection_handler` returns along with it.
abbrev pub Controller : Type 0
Controller = ℕ

-- `RegisterChannel`; the reply channel is named by a number.
pub record RegisterChannel : Type 0 where
  pub target_connection : ConnectionIdentifier
  pub channel : ChannelIdentifier
  pub reply : ℕ

-- What was sent to a controller: the channel and the reply channel, for a target.
pub record Forward : Type 0 where
  pub controller : Controller
  pub registration : RegisterChannel

-- How a turn ends. When the dispatcher stops by cancellation it has cancelled these handlers.
pub data Fate : Type 0 where
  goes : HashMap ConnectionIdentifier Controller → List Forward → Fate
  stops : List Controller → Fate
  fails : Fate

unfoldable pub on_cancel : HashMap ConnectionIdentifier Controller → List Controller
on_cancel [] = []
on_cancel ((_, controller) ∷ connections) = controller ∷ on_cancel connections

-- The `send` to the controller, whose answer is an argument; a missing key is the `expect`.
unfoldable pub forward : HashMap ConnectionIdentifier Controller → RegisterChannel → Ran Bool → Fate
unfolding on_cancel
forward connections message cut = stops (on_cancel connections)
forward connections message (ran false) = fails
forward connections message (ran true) = elim (HashMap.get message.target_connection connections) [
  | none ↦ fails
  | some controller ↦
      goes connections (record { controller = controller; registration = message } ∷ [])
]

-- Makes a handler; `made` is the answer of `create_connection_handler`.
unfoldable pub make :
    HashMap ConnectionIdentifier Controller
    → RegisterChannel
    → Ran (Option Controller)
    → Ran Bool
    → Fate
unfolding forward on_cancel
make connections message cut sent = stops (on_cancel connections)
make connections message (ran none) sent = fails
make connections message (ran (some controller)) sent =
    forward (HashMap.insert message.target_connection controller connections) message sent

unfoldable pub register :
    HashMap ConnectionIdentifier Controller
    → RegisterChannel
    → Ran (Option Controller)
    → Ran Bool
    → Fate
unfolding forward make HashMap.contains_key
register connections message made sent =
    if HashMap.contains_key message.target_connection connections
    then forward connections message sent
    else make connections message made sent

-- What the outside does in a turn: the next message, where `none` is a closed queue, and the answers.
pub record Turn : Type 0 where
  pub received : Ran (Option RegisterChannel)
  pub made : Ran (Option Controller)
  pub sent : Ran Bool

unfoldable pub dispatch : HashMap ConnectionIdentifier Controller → Turn → Fate
unfolding register on_cancel
dispatch connections t = elim t.received [
  | cut ↦ stops (on_cancel connections)
  | ran none ↦ fails
  | ran (some message) ↦ register connections message t.made t.sent
]

-- `NetworkService::register_channel`: the two answers are the queue's and the reply's.
unfoldable pub register_channel : Bool → Option ℕ → Option ℕ
register_channel false answer = none
register_channel true answer = answer

-- `NetworkService::shutdown`: whether the runtime is still there; it is gone afterwards. The token is
-- cancelled only the first time.
unfoldable pub shutdown : Bool → Bool × Bool
shutdown has_runtime = (false, has_runtime)
