-- ===== src/Tcp/Channel.antt =====
-- `channel_handler` of network/src/sender.rs: one end of a data channel, which keeps what is to be
-- written and what waits for an acknowledgment. What `select!` picks, and what the socket, the queue
-- and the cancellation token answer, are arguments.
pub mod Cases
pub mod Window
pub mod History
pub mod Held
pub mod Flush
pub mod Dropped
pub mod Finish
use bdspro_udp_v.Common.{
  Bool, List, Option, [], false, if◌then◌else◌, leb, length, nat_eq, none, not, some, string_eq,
  true, ℕ, ◌++◌, ◌∷◌,
}
use bdspro_udp_v.HashMap
use bdspro_udp_v.HashMap.{HashMap}
use bdspro_udp_v.Tcp.Protocol.{
  TupleBuffer, Sequence, sequence_eq, sequence, DataChannelRequest, tuples, close,
  DataChannelResponse, ack_data, nack_data,
}

abbrev pub max_pending_acks : ℕ
max_pending_acks = 64

pub data ChannelControlMessage : Type 0 where
  buffer : TupleBuffer → ChannelControlMessage  -- `Data`
  flush terminate : ChannelControlMessage

pub data ChannelHandlerError : Type 0 where
  closed_by_other_side connection_lost protocol cancelled terminated : ChannelHandlerError

pub record ChannelHandler : Type 0 where
  pub pending_writes : List TupleBuffer  -- the front first
  pub wait_for_ack : HashMap Sequence TupleBuffer

abbrev pub new : ChannelHandler
new = record { pending_writes = []; wait_for_ack = [] }

pub data Res : Type 0 where
  ok : ChannelHandler → Res
  err : ChannelHandlerError → Res

unfoldable pub handle_response : ChannelHandler → DataChannelResponse → Res
handle_response h DataChannelResponse.close = err closed_by_other_side
handle_response h (nack_data seq) = elim (HashMap.get seq h.wait_for_ack) [
  | none ↦ err protocol
  | some write ↦ ok (record {
    pending_writes = h.pending_writes ++ write ∷ [];
    wait_for_ack = HashMap.remove seq h.wait_for_ack;
  })
]
handle_response h (ack_data seq) = elim (HashMap.get seq h.wait_for_ack) [
  | none ↦ err protocol
  | some _ ↦ ok (record h { wait_for_ack = HashMap.remove seq h.wait_for_ack })
]

-- What becomes of `feed`: the writer takes the buffer, refuses it, or is not ready before another
-- branch of the `select!` is, which drops the call where it stands.
pub data Feed : Type 0 where
  fed refused dropped : Feed

-- The buffer waits for its acknowledgment before it is written.
unfoldable pub send_pending : ChannelHandler → Feed → ChannelHandler × List DataChannelRequest
send_pending h feed = elim h.pending_writes [
  | [] ↦ (h, [])
  | next_buffer ∷ rest ↦
      let moved : HashMap Sequence TupleBuffer =
        HashMap.insert (sequence next_buffer) next_buffer h.wait_for_ack in
      elim feed [
        | fed ↦ (record { pending_writes = rest; wait_for_ack = moved }, tuples next_buffer ∷ [])
        | dropped ↦ (record { pending_writes = rest; wait_for_ack = moved }, [])
        | refused ↦ (
          record {
            pending_writes = next_buffer ∷ rest;
            wait_for_ack = HashMap.remove (sequence next_buffer) moved;
          },
          [],
        )
      ]
]

-- What the reader yields: the end of the stream, an error, or a response.
pub data Item : Type 0 where
  ended broken : Item
  got : DataChannelResponse → Item

unfoldable pub on_item : ChannelHandler → Item → Res
unfolding handle_response
on_item h ended = err closed_by_other_side
on_item h broken = err connection_lost
on_item h (got response) = handle_response h response

-- Which of the loops the handler is in: `flush` runs inside `run`.
pub data Place : Type 0 where
  running flushing : Place

-- A turn of a loop leaves a place, a handler and what was written, or an error.
pub data After : Type 0 where
  goes : Place → ChannelHandler → List DataChannelRequest → After
  stops : ChannelHandlerError → List DataChannelRequest → After

abbrev pub after : Place → List DataChannelRequest → Res → After
after place wire (ok h) = goes place h wire
after place wire (err e) = stops e wire

-- `Terminate` sends a last message; its outcome is ignored. A flush begins here, and `flush` does the
-- rest of it.
unfoldable pub handle_request : ChannelHandler → ChannelControlMessage → After
handle_request h (buffer b) =
    goes running (record h { pending_writes = h.pending_writes ++ b ∷ [] }) []
handle_request h flush = goes flushing h []
handle_request h terminate = stops terminated (close ∷ [])

-- The queue's answer; a closed queue cancels.
unfoldable pub on_request : ChannelHandler → Option ChannelControlMessage → After
unfolding handle_request
on_request h none = stops cancelled []
on_request h (some message) = handle_request h message

-- What a `select!` picks. The flag says whether the send was begun and dropped.
pub data Pick : Type 0 where
  token : Bool → Pick
  response : Bool → Item → Pick
  request : Bool → Option ChannelControlMessage → Pick
  sent : Feed → Pick

-- `pending_writes.is_empty() || wait_for_ack.len() >= MAX_PENDING_ACKS`
unfoldable pub holds_back : ChannelHandler → Bool
holds_back h = elim h.pending_writes [
  | [] ↦ true
  | _ ∷ _ ↦ leb max_pending_acks (length h.wait_for_ack)
]

-- The state that the other branches find: the branch that sends is there unless it is held back.
unfoldable pub begun : ChannelHandler → Bool → ChannelHandler
unfolding holds_back send_pending
begun h false = h
begun h true = if holds_back h then h else (send_pending h dropped).0

-- `sent` picks nothing where the branch is not there: the loop goes round.
unfoldable pub send_turn : Place → ChannelHandler → Feed → After
unfolding holds_back send_pending
send_turn place h feed =
    if holds_back h
    then goes place h []
    else goes place (send_pending h feed).0 (send_pending h feed).1

-- One turn of the loop of `run`.
unfoldable pub run_turn : ChannelHandler → Bool → Pick → After
unfolding begun on_item on_request send_turn
run_turn h true pick = stops cancelled []
run_turn h false (token _) = stops cancelled []
run_turn h false (response cut item) = after running [] (on_item (begun h cut) item)
run_turn h false (request cut message) = on_request (begun h cut) message
run_turn h false (sent feed) = send_turn running h feed

-- Has `flush` nothing more to do?
unfoldable pub is_drained : ChannelHandler → Bool
is_drained h = elim h.pending_writes [
  | [] ↦ elim h.wait_for_ack [ [] ↦ true | _ ∷ _ ↦ false ]
  | _ ∷ _ ↦ false
]

-- The body of the loop of `flush`, which has no branch for the queue; `wrote` is the answer of the
-- writer's flush.
unfoldable pub flush_body : ChannelHandler → Bool → Bool → Pick → After
unfolding begun on_item send_turn
flush_body h false is_cancelled pick = stops connection_lost []
flush_body h true true pick = stops cancelled []
flush_body h true false (token _) = stops cancelled []
flush_body h true false (response cut item) = after flushing [] (on_item (begun h cut) item)
flush_body h true false (request _ _) = goes flushing h []
flush_body h true false (sent feed) = send_turn flushing h feed

-- One turn of that loop, or its end.
unfoldable pub flush_turn : ChannelHandler → Bool → Bool → Pick → After
unfolding is_drained flush_body
flush_turn h wrote is_cancelled pick =
    if is_drained h then goes running h [] else flush_body h wrote is_cancelled pick

-- What the outside does in one turn.
pub record Turn : Type 0 where
  pub wrote : Bool
  pub is_cancelled : Bool
  pub pick : Pick

unfoldable pub turn : Place → ChannelHandler → Turn → After
unfolding run_turn flush_turn
turn running h t = run_turn h t.is_cancelled t.pick
turn flushing h t = flush_turn h t.wrote t.is_cancelled t.pick

-- The end of a handler, as `channel_handler` reports it.
pub data ChannelHandlerResult : Type 0 where
  was_cancelled was_lost was_closed : ChannelHandlerResult

-- `none` is a channel that could not be created; `run` has no other way out than an error.
unfoldable pub channel_handler : Option ChannelHandlerError → ChannelHandlerResult
channel_handler none = was_lost
channel_handler (some terminated) = was_closed
channel_handler (some closed_by_other_side) = was_closed
channel_handler (some cancelled) = was_cancelled
channel_handler (some connection_lost) = was_lost
channel_handler (some protocol) = was_lost
