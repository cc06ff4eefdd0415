-- ===== src/Udp/Message.antt =====
-- external/BDSPro_UDP_Channel/src/message.rs and the shared types of src/lib.rs. `serde_json` is
-- the interface `Json`: a text of bytes for a message, and back.
use bdspro_udp_v.Common.{ℕ, ◌≡◌, ◌%◌, ◌^◌, String, Option, none, some, List, take}

pub record Message : Type 0 where
  pub typ : String
  pub seq : ℕ  -- u64
  pub payload : Option String  -- the field `data`

abbrev pub Bytes : Type 0
Bytes = List ℕ

-- `serde_json::to_vec` and `from_slice` at `Message`; a serialised message is read back as it was.
pub record Json : Type 0 where
  pub to_vec : Message → Option Bytes
  pub from_slice : Bytes → Option Message
  pub round_trip : (m : Message) (b : Bytes) → to_vec m ≡ some b → from_slice b ≡ some m

-- The buffer that each `recv_from` fills; what does not fit of a datagram is discarded.
abbrev pub buf_size : ℕ
buf_size = 1024

module _ ⦃json : Json⦄ where
  unfoldable pub recv_from : Bytes → Option Message
  recv_from datagram = json.from_slice (take buf_size datagram)

pub data UdpChannelError : Type 0 where
  io serialization channel_closed send_window_full receive_buffer_full : UdpChannelError

pub data Result (A : Type 0) : Type 0 where
  ok : A → Result A
  err : UdpChannelError → Result A

-- How a call of the socket ends.
pub data Io : Type 0 where
  done failed : Io

-- What a call leaves behind: the new state, the datagrams handed to the socket, the return value.
pub record Outcome (St A : Type 0) : Type 0 where
  pub state : St
  pub wire : List Bytes
  pub result : Result A

pub record FlowControlConfig : Type 0 where
  pub send_window_size : ℕ
  pub receive_buffer_size : ℕ
  pub ack_timeout : ℕ  -- milliseconds
  pub send_timeout : ℕ  -- milliseconds

-- `FlowControlConfig::default`
abbrev pub default_config : FlowControlConfig
default_config = record {
  send_window_size = 10;
  receive_buffer_size = 50;
  ack_timeout = 1000;
  send_timeout = 5000;
}

abbrev pub u64 : ℕ → ℕ
u64 n = n % 2 ^ 64

abbrev pub u32 : ℕ → ℕ
u32 n = n % 2 ^ 32

abbrev pub data_message : ℕ → String → Message
data_message seq text = record { typ = "DATA"; seq = seq; payload = some text }

abbrev pub ack_message : ℕ → Message
ack_message seq = record { typ = "ACK"; seq = seq; payload = none }

abbrev pub rqst_message : ℕ → Message
rqst_message seq = record { typ = "RQST"; seq = seq; payload = none }
