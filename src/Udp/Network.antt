-- ===== src/Udp/Network.antt =====
-- One sender and one receiver of external/BDSPro_UDP_Channel/src/lib.rs over a network that may lose,
-- repeat, delay and reorder datagrams: each side keeps every datagram that was handed to its socket,
-- and a step may deliver any of them, any number of times.
pub mod Moves
mod Sends
pub mod Receives
pub mod Invariant
pub mod Safety
use bdspro_udp_v.Udp.Semaphore.{Semaphore}
use bdspro_udp_v.Udp.Message.{
  ok, done, buf_size, data_message, FlowControlConfig, Message, Io, Json, Bytes,
}
use bdspro_udp_v.Common.{
  All, All-Mem, All-append, All-mono, Bool, Bool-cases, Eq, List, Mem, Option, Option-cases, String,
  [], ap, arith, eq_iff, eqb, eqb_iff, false, if◌then◌else◌, inl, inr, leb, length, length-append,
  ltb, map, nat_eq, none, not, pair_same, pair_eq, refl, replicate, some, string_eq, subst, suc,
  sym, take, take_of_length-le, true, zero, ℕ, ◌%◌, ◌&&◌, ◌*◌, ◌++◌, ◌+◌, ◌-◌, ◌/◌, ◌<◌, ◌==◌, ◌^◌,
  ◌||◌, ◌↔◌, ◌∙◌, ◌∷◌, ◌≡◌, ◌≢◌, ◌≤◌, ◌⊎◌,
}
use bdspro_udp_v.Udp.Sender.{UdpSender, send_message_auto_seq, on_datagram, tick}
use bdspro_udp_v.Udp.Receiver.{
  UdpReceiver, receive_message, receive_from_buffer, request_retransmit,
}
use bdspro_udp_v.Udp.Sender
use bdspro_udp_v.Udp.Receiver

pub record System (S : Type 0) : Type 0 where
  pub sender : UdpSender S
  pub receiver : UdpReceiver S
  pub to_receiver : List Bytes
  pub to_sender : List Bytes

module _ ⦃json : Json⦄ where
  -- The message fits in the buffer that a receiver reads it into.
  abbrev pub Fits : Message → Type 0
  Fits m = (encoded : Bytes) → json.to_vec m ≡ some encoded → length encoded ≤ buf_size

module _ {S : Type 0} ⦃sem : Semaphore S⦄ ⦃json : Json⦄ where
  pub data Step (n : System S) : System S → Type 0 where
    send :
        (text : String) (now : ℕ) (answer : Io)
        → n.sender.next_seq + 1 < 2 ^ 64
        → Fits (data_message n.sender.next_seq text)
        → Step n (record n {
          sender = (send_message_auto_seq n.sender text now answer).state;
          to_receiver = (send_message_auto_seq n.sender text now answer).wire ++ n.to_receiver;
        })
    timeout :
        (now : ℕ)
        → Step n (record n {
          sender = (tick n.sender now).0;
          to_receiver = (tick n.sender now).1 ++ n.to_receiver;
        })
    answered :
        (datagram : Bytes)
        → Mem datagram n.to_sender
        → Step n (record n {
          sender = (on_datagram n.sender datagram).0;
          to_receiver = (on_datagram n.sender datagram).1 ++ n.to_receiver;
        })
    delivered :
        (datagram : Bytes) (answer : Io)
        → Mem datagram n.to_receiver
        → Step n (record n {
          receiver = (receive_message n.receiver (some datagram) answer).state;
          to_sender = (receive_message n.receiver (some datagram) answer).wire ++ n.to_sender;
        })
    popped : Step n (record n { receiver = (receive_from_buffer n.receiver).0 })
    requested :
        (seq : ℕ) (answer : Io)
        → Step n (record n {
          to_sender = (request_retransmit n.receiver seq answer).wire ++ n.to_sender;
        })

  -- What can happen after both ends were made.
  pub data Reach : System S → Type 0 where
    start :
        (config : FlowControlConfig) {s : UdpSender S} {r : UdpReceiver S}
        → Sender.new_with_config done done config ≡ ok s
        → Receiver.new_with_config done config ≡ ok r
        → Reach (record { sender = s; receiver = r; to_receiver = []; to_sender = [] })
    next : {n m : System S} → Reach n → Step n m → Reach m
