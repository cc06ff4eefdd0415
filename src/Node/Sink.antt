-- ===== src/Node/Sink.antt =====
-- `NetworkSink` of test-node/src/main.rs: it hands buffers to a channel's queue, and keeps a backlog
-- while the queue is full. What each `try_send` answers is an argument.
pub mod Backlog
use bdspro_udp_v.Common.{
  All, All-Mem, All-append, All-mono, All_of_Mem, Bool, Bool-cases, Eq, List, Mem, Option,
  Option-cases, String, [], ap, arith, eq_iff, eqb, eqb_iff, false, if◌then◌else◌, inl, inr, leb,
  length, length-append, ltb, map, nat_eq, none, not, pair_eq, pair_same, refl, replicate, some,
  string_eq, subst, suc, sym, take, take_of_length-le, true, zero, ℕ, ℕ_discrete, ◌%◌, ◌&&◌, ◌*◌,
  ◌++◌, ◌+◌, ◌-◌, ◌/◌, ◌<◌, ◌==◌, ◌^◌, ◌||◌, ◌↔◌, ◌∙◌, ◌∷◌, ◌≡◌, ◌≢◌, ◌≤◌, ◌⊎◌,
}
use bdspro_udp_v.Tcp.Channel.{ChannelControlMessage, flush, terminate}
use bdspro_udp_v.Tcp.Protocol.{TupleBuffer}

pub record NetworkSink : Type 0 where
  pub has_queue : Bool
  pub backlog : List TupleBuffer  -- the field `buffer`, the front first
  pub should_close : Option Bool
  pub closed : Bool

abbrev pub new : Option Bool → NetworkSink
new should_close = record {
  has_queue = false;
  backlog = [];
  should_close = should_close;
  closed = false;
}

pub data TrySend : Type 0 where
  taken full shut : TrySend

-- What the queue took, and how a piece of the call ends: it goes on with a sink, it has returned with
-- one, or it panics.
pub data Call : Type 0 where
  goes returns : NetworkSink → List TupleBuffer → Call
  panics : List TupleBuffer → Call

-- The loop over the backlog, from the `i`-th `try_send` of the call on.
unfoldable pub drain : NetworkSink → (ℕ → TrySend) → ℕ → List TupleBuffer → List TupleBuffer → Call
drain s answer i sent [] = goes (record s { backlog = [] }) sent
drain s answer i sent (front ∷ rest) =
    let later = drain s answer (i + 1) (sent ++ front ∷ []) rest in
    elim (answer i) [
      | taken ↦ later
      | full ↦ returns (record s { backlog = front ∷ rest }) sent
      | shut ↦ panics sent
    ]

-- The message is put behind the backlog first, if there is one.
unfoldable pub send_backlog : NetworkSink → TupleBuffer → (ℕ → TrySend) → Call
unfolding drain
send_backlog s b answer = elim s.backlog [
  | [] ↦ goes s []
  | front ∷ rest ↦ drain s answer 0 [] (front ∷ rest ++ b ∷ [])
]

-- The send at the end of the call; `last` is its answer.
unfoldable pub send_last : NetworkSink → List TupleBuffer → TupleBuffer → TrySend → Call
send_last s sent b taken = returns s (sent ++ b ∷ [])
send_last s sent b full = returns (record s { backlog = s.backlog ++ b ∷ [] }) sent
send_last s sent b shut = returns (record s { closed = true }) sent

unfoldable pub after_backlog : TupleBuffer → TrySend → Call → Call
unfolding send_last
after_backlog b last (goes s sent) = send_last s sent b last
after_backlog b last (returns s sent) = returns s sent
after_backlog b last (panics sent) = panics sent

-- Registers the channel when there is no queue yet; `registered` is the answer, unwrapped.
unfoldable pub setup : NetworkSink → Bool → Option NetworkSink
setup s registered =
    if s.has_queue
    then some s
    else if registered
    then some (record s { has_queue = true })
    else none

unfoldable pub execute : NetworkSink → TupleBuffer → Bool → (ℕ → TrySend) → TrySend → Call
unfolding setup send_backlog after_backlog
execute s b registered answer last = if s.closed then returns s [] else elim (setup s registered) [
  | none ↦ panics []
  | some ready ↦ after_backlog b last (send_backlog ready b answer)
]

-- Does `stop` close the queue? The cases that do not were closed by the other side.
unfoldable pub closes : NetworkSink → Bool
closes s = elim s.should_close [ some _ ↦ not s.closed | none ↦ not s.closed ]

-- The rest of `stop`: what the queue took of a flush and a termination, and whether it was closed then.
-- The arguments are the answers of the queue, of the flush, and of the queue.
unfoldable pub terminate_queue : Bool → Bool → Bool → List ChannelControlMessage × Bool
terminate_queue false flushed ends = ([], false)
terminate_queue true false ends = (flush ∷ [], false)
terminate_queue true true false = (flush ∷ [], false)
terminate_queue true true true = (flush ∷ terminate ∷ [], true)

-- `none` is the `unwrap` of a queue that was never there.
unfoldable pub stop :
    NetworkSink → Bool → Bool → Bool → Option (NetworkSink × (List ChannelControlMessage × Bool))
unfolding closes terminate_queue
stop s sends flushed ends =
    if not (closes s)
    then some (s, ([], false))
    else if s.has_queue
    then some (record s { has_queue = false }, terminate_queue sends flushed ends)
    else none
