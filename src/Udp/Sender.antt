-- ===== src/Udp/Sender.antt =====
-- `UdpSender` of external/BDSPro_UDP_Channel/src/lib.rs: the send window, the messages in flight and
-- the texts kept for retransmission. The clock and the socket's answers are arguments. A call of
-- `acquire` that finds no permit is one that waits in vain for `send_timeout`.
pub mod Events
pub mod Cases
pub mod Entries
pub mod Window
pub mod Runs
pub mod Overshoot
pub mod Resend
use bdspro_udp_v.HashMap.{HashMap}
use bdspro_udp_v.HashMap
use bdspro_udp_v.Common.{
  ℕ, ◌+◌, ◌-◌, String, Option, none, some, List, [], ◌∷◌, ◌++◌, length, ltb, Bool, true, false,
  if◌then◌else◌, ◌==◌, Eq, nat_eq, string_eq,
}
use bdspro_udp_v.Udp.Message.{
  Message, Bytes, Json, recv_from, UdpChannelError, io, serialization, send_window_full, Result, ok,
  err, Io, done, failed, Outcome, FlowControlConfig, default_config, u64, u32, data_message,
}
use bdspro_udp_v.Udp.Semaphore.{Semaphore}

pub record InFlightMessage : Type 0 where
  pub seq : ℕ
  pub text : String  -- the field `data`
  pub sent_time : ℕ
  pub retransmit_count : ℕ  -- u32

pub record FlowControlStats : Type 0 where
  pub in_flight_messages : ℕ
  pub available_window : ℕ
  pub total_window_size : ℕ

pub record UdpSender (S : Type 0) : Type 0 where
  pub flow_control : FlowControlConfig
  pub sent_messages : HashMap ℕ String
  pub send_window : S
  pub in_flight : HashMap ℕ InFlightMessage
  pub next_seq : ℕ

abbrev pub in_flight_message : ℕ → String → ℕ → InFlightMessage
in_flight_message seq text now = record {
  seq = seq;
  text = text;
  sent_time = now;
  retransmit_count = 0;
}

-- The body of the timeout task's loop: an entry whose acknowledgment is late is stamped anew.
unfoldable pub is_late : ℕ → ℕ → InFlightMessage → Bool
is_late timeout now msg = ltb timeout (now - msg.sent_time)

unfoldable pub refresh : ℕ → ℕ → InFlightMessage → InFlightMessage
unfolding is_late
refresh timeout now msg =
    if is_late timeout now msg
    then record msg { sent_time = now; retransmit_count = u32 (msg.retransmit_count + 1) }
    else msg

unfoldable pub refresh_all : ℕ → ℕ → HashMap ℕ InFlightMessage → HashMap ℕ InFlightMessage
refresh_all timeout now [] = []
refresh_all timeout now ((seq, msg) ∷ m) =
    (seq, refresh timeout now msg) ∷ refresh_all timeout now m

unfoldable pub to_retransmit : ℕ → ℕ → HashMap ℕ InFlightMessage → List (ℕ × String)
to_retransmit timeout now [] = []
to_retransmit timeout now ((seq, msg) ∷ m) =
    let rest = to_retransmit timeout now m in
    if is_late timeout now msg then (seq, msg.text) ∷ rest else rest

-- The task that reads the socket passes requests and acknowledgments on.
abbrev pub listen_to : Message → Option (String × ℕ)
listen_to message =
    if message.typ == "RQST"
    then some ("RQST", message.seq)
    else if message.typ == "ACK"
    then some ("ACK", message.seq)
    else none

module _ ⦃json : Json⦄ where
  -- A message that cannot be serialised is passed over.
  unfoldable pub encode : Message → List Bytes
  encode m = elim (json.to_vec m) [ none ↦ [] | some encoded ↦ encoded ∷ [] ]

  unfoldable pub encode_all : List (ℕ × String) → List Bytes
  unfolding encode
  encode_all [] = []
  encode_all ((seq, text) ∷ l) = encode (data_message seq text) ++ encode_all l

  unfoldable pub listen : Bytes → Option (String × ℕ)
  listen datagram = elim (recv_from datagram) [ none ↦ none | some message ↦ listen_to message ]

module _ {S : Type 0} ⦃sem : Semaphore S⦄ where
  unfoldable pub new_with_config : Io → Io → FlowControlConfig → Result (UdpSender S)
  new_with_config failed connect config = err io
  new_with_config done failed config = err io
  new_with_config done done config = ok (record {
    flow_control = config;
    sent_messages = [];
    send_window = sem.new config.send_window_size;
    in_flight = [];
    next_seq = 1;
  })

  unfoldable pub new : Io → Io → Result (UdpSender S)
  unfolding new_with_config
  new bind connect = new_with_config bind connect default_config

  -- `sent_messages` and `in_flight` learn of the message before it is sent.
  unfoldable pub store : UdpSender S → S → ℕ → String → ℕ → UdpSender S
  store s window seq text now = record s {
    send_window = window;
    sent_messages = HashMap.insert seq text s.sent_messages;
    in_flight = HashMap.insert seq (in_flight_message seq text now) s.in_flight;
  }

  -- An early return drops the permit, which gives it back.
  unfoldable pub drop_permit : UdpSender S → UdpSender S
  drop_permit s = record s { send_window = sem.add_permits s.send_window 1 }

  unfoldable pub on_ack : UdpSender S → ℕ → UdpSender S
  on_ack s seq = elim (HashMap.get seq s.in_flight) [
    | none ↦ s
    | some _ ↦ record s {
      in_flight = HashMap.remove seq s.in_flight;
      send_window = sem.add_permits s.send_window 1;
    }
  ]

  unfoldable pub get_flow_control_stats : UdpSender S → FlowControlStats
  get_flow_control_stats s = record {
    in_flight_messages = length s.in_flight;
    available_window = sem.available_permits s.send_window;
    total_window_size = s.flow_control.send_window_size;
  }

  module _ ⦃json : Json⦄ where
    -- `send_message` once it holds a permit.
    unfoldable pub transmit : UdpSender S → ℕ → String → Io → Outcome (UdpSender S) (Unit {0})
    unfolding drop_permit
    transmit s seq text answer = elim (json.to_vec (data_message seq text)) [
      | none ↦ record { state = drop_permit s; wire = []; result = err serialization }
      | some encoded ↦ elim answer [
        | failed ↦ record { state = drop_permit s; wire = encoded ∷ []; result = err io }
        | done ↦ record { state = s; wire = encoded ∷ []; result = ok tt }
      ]
    ]

    unfoldable pub send_message :
        UdpSender S → ℕ → String → ℕ → Io → Outcome (UdpSender S) (Unit {0})
    unfolding store transmit
    send_message s seq text now answer = elim (sem.try_acquire s.send_window) [
      | none ↦ record { state = s; wire = []; result = err send_window_full }
      | some window ↦ transmit (store s window seq text now) seq text answer
    ]

    unfoldable pub send_message_auto_seq : UdpSender S → String → ℕ → Io → Outcome (UdpSender S) ℕ
    unfolding send_message
    send_message_auto_seq s text now answer =
        let seq = s.next_seq in
        let sent = send_message (record s { next_seq = u64 (seq + 1) }) seq text now answer in
        record {
          state = sent.state;
          wire = sent.wire;
          result = elim sent.result [ err e ↦ err e | ok _ ↦ ok seq ];
        }

    unfoldable pub on_rqst : UdpSender S → ℕ → List Bytes
    unfolding encode
    on_rqst s seq = elim (HashMap.get seq s.sent_messages) [
      | none ↦ []
      | some text ↦ encode (data_message seq text)
    ]

    -- The task behind the queue.
    unfoldable pub dispatch : UdpSender S → String × ℕ → UdpSender S × List Bytes
    unfolding on_rqst on_ack
    dispatch s (msg_type, seq) =
        if msg_type == "RQST"
        then (s, on_rqst s seq)
        else if msg_type == "ACK"
        then (on_ack s seq, [])
        else (s, [])

    -- Both tasks on one datagram.
    unfoldable pub on_datagram : UdpSender S → Bytes → UdpSender S × List Bytes
    unfolding listen dispatch
    on_datagram s datagram = elim (listen datagram) [
      | none ↦ (s, [])
      | some control ↦ dispatch s control
    ]

    -- One turn of the timeout task.
    unfoldable pub tick : UdpSender S → ℕ → UdpSender S × List Bytes
    unfolding refresh_all to_retransmit encode_all
    tick s now =
        let timeout = s.flow_control.ack_timeout in
        (
          record s { in_flight = refresh_all timeout now s.in_flight },
          encode_all (to_retransmit timeout now s.in_flight),
        )
