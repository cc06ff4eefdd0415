-- ===== src/Bridge.antt =====
-- bridge-of-bridges/network/lib.rs: the two services behind functions that C++ calls. What the queues
-- and the services answer is an argument; the calls on the C++ builder are listed. usize has 64 bits.
pub mod Carried
use bdspro_udp_v.Common.{
  All, All-Mem, All-append, All-mono, All_of_Mem, Bool, Bool-cases, Eq, List, Mem, Option,
  Option-cases, String, [], ap, arith, eq_iff, eqb, eqb_iff, false, get_elem?, if◌then◌else◌, inl,
  inr, leb, length, length-append, ltb, map, nat_eq, none, not, pair_eq, pair_same, refl, replicate,
  some, string_eq, subst, suc, sym, take, take_of_length-le, true, zero, ℕ, ℕ_discrete, ◌%◌, ◌&&◌,
  ◌*◌, ◌++◌, ◌+◌, ◌-◌, ◌/◌, ◌<◌, ◌==◌, ◌^◌, ◌||◌, ◌↔◌, ◌∙◌, ◌∷◌, ◌≡◌, ◌≢◌, ◌≤◌, ◌⊎◌,
}
use bdspro_udp_v.Tcp.Protocol.{TupleBuffer, ChannelIdentifier, ConnectionIdentifier}
use bdspro_udp_v.Tcp.Channel.{ChannelControlMessage, buffer, flush, terminate}

pub data SendResult : Type 0 where
  ok error full : SendResult

pub record SerializedTupleBuffer : Type 0 where
  pub sequence_number : ℕ
  pub origin_id : ℕ
  pub chunk_number : ℕ
  pub number_of_tuples : ℕ
  pub watermark : ℕ
  pub last_chunk : Bool

-- A call on `TupleBufferBuilder`.
pub data Built : Type 0 where
  set_metadata : SerializedTupleBuffer → Built
  set_data add_child_buffer : List ℕ → Built

-- `RECEIVER` and `SENDER`, by the arguments that the service was started with.
pub record Services (Address : Type 0) : Type 0 where
  pub receiver : Option (Address × ConnectionIdentifier)
  pub sender : Option ConnectionIdentifier

-- `OnceCell::get_or_init`: the first value stays.
abbrev pub get_or_init {ℓ} : {A : Type ℓ} → Option A → A → Option A
get_or_init none a = some a
get_or_init (some b) a = some b

unfoldable pub init_sender_server : {A : Type 0} → Services A → ConnectionIdentifier → Services A
init_sender_server s connection = record s { sender = get_or_init s.sender connection }

-- `none` is an address that cannot be parsed.
unfoldable pub init_receiver_server :
    {A : Type 0}
    → (String → Option A)
    → Services A
    → String
    → ConnectionIdentifier
    → Option (Services A)
init_receiver_server parse s bind connection = elim (parse bind) [
  | none ↦ none
  | some address ↦ some (record s { receiver = get_or_init s.receiver (address, connection) })
]

-- What the builder was told, and how the call ended.
pub data Received : Type 0 where
  returned : Bool → List Built → Received
  panics : List Built → Received

-- The loop over the child buffers, after what was built.
unfoldable pub add_children : List Built → List (List ℕ) → Received
add_children built [] = returned true built
add_children built ([] ∷ rest) = panics built
add_children built ((byte ∷ bytes) ∷ rest) =
    add_children (built ++ add_child_buffer (byte ∷ bytes) ∷ []) rest

abbrev pub metadata_of : TupleBuffer → SerializedTupleBuffer
metadata_of b = record {
  sequence_number = b.sequence_number;
  origin_id = b.origin_id;
  chunk_number = b.chunk_number;
  number_of_tuples = b.number_of_tuples;
  watermark = b.watermark;
  last_chunk = b.last_chunk;
}

-- The answer of `recv_blocking`; `none` is a closed queue.
unfoldable pub receive_buffer : Option TupleBuffer → Received
unfolding add_children
receive_buffer none = returned false []
receive_buffer (some b) =
    add_children (set_metadata (metadata_of b) ∷ set_data b.bytes ∷ []) b.child_buffers

abbrev pub buffer_of : SerializedTupleBuffer → List ℕ → List (List ℕ) → TupleBuffer
buffer_of m bytes children = record {
  sequence_number = m.sequence_number;
  origin_id = m.origin_id;
  watermark = m.watermark;
  chunk_number = m.chunk_number;
  number_of_tuples = m.number_of_tuples;
  last_chunk = m.last_chunk;
  bytes = bytes;
  child_buffers = children;
}

-- The answer of `try_send`.
pub data TrySend : Type 0 where
  taken full closed : TrySend

-- What the queue takes, and the result.
unfoldable pub send_channel :
    SerializedTupleBuffer
    → List ℕ
    → List (List ℕ)
    → TrySend
    → List ChannelControlMessage × SendResult
send_channel m bytes children taken = (buffer (buffer_of m bytes children) ∷ [], ok)
send_channel m bytes children full = ([], SendResult.full)
send_channel m bytes children closed = ([], error)

unfoldable pub sender_writes_pending : (is_closed is_empty : Bool) → Bool
sender_writes_pending is_closed is_empty = if is_closed then false else not is_empty

-- What the queue takes; `accepted` is the answer of `send_blocking`. Nobody waits for the flush.
unfoldable pub flush_channel : (accepted : Bool) → List ChannelControlMessage
flush_channel accepted = if accepted then flush ∷ [] else []

-- A flush that the queue takes is waited for, and then the channel is terminated.
unfoldable pub close_sender_channel : (first second : Bool) → List ChannelControlMessage
close_sender_channel first second =
    if first then flush ∷ (if second then terminate ∷ [] else []) else []
