-- ===== src/Tcp/Protocol.antt =====
-- network/src/protocol.rs: the identifiers, the messages of the two kinds of connection, and the
-- buffers that they carry. The framing and the JSON codec belong to other crates.
use bdspro_udp_v.Common.{ℕ, Bool, String, List, Eq, nat_eq, pair_eq}

abbrev pub ChannelIdentifier : Type 0
ChannelIdentifier = String

abbrev pub ConnectionIdentifier : Type 0
ConnectionIdentifier = String

pub data ControlChannelRequest : Type 0 where
  channel_request : ChannelIdentifier → ControlChannelRequest

pub data ControlChannelResponse : Type 0 where
  ok_channel_response : ℕ → ControlChannelResponse  -- a port, u16
  deny_channel_response : ControlChannelResponse

pub record TupleBuffer : Type 0 where
  pub sequence_number : ℕ  -- u64, as the next four
  pub origin_id : ℕ
  pub watermark : ℕ
  pub chunk_number : ℕ
  pub number_of_tuples : ℕ
  pub last_chunk : Bool
  pub bytes : List ℕ  -- the field `data`
  pub child_buffers : List (List ℕ)

abbrev pub Sequence : Type 0
Sequence = ℕ × ℕ

instance abbrev pub sequence_eq : Eq Sequence
sequence_eq = pair_eq nat_eq nat_eq

unfoldable pub sequence : TupleBuffer → Sequence
sequence b = (b.sequence_number, b.chunk_number)

pub data DataChannelRequest : Type 0 where
  tuples : TupleBuffer → DataChannelRequest  -- `Data`
  close : DataChannelRequest

pub data DataChannelResponse : Type 0 where
  ack_data nack_data : Sequence → DataChannelResponse
  close : DataChannelResponse
