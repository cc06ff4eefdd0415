-- ===== src/Tests/Udp.antt =====
-- The sender and the receiver of the UDP channel at concrete histories.
use bdspro_udp_v.Common.{
  List, Mem, String, [], arith, length, nat_eq, refl, some, string_eq, take, ℕ, ◌++◌, ◌+◌, ◌↔◌, ◌∷◌,
  ◌≡◌,
}
use bdspro_udp_v.HashMap
use bdspro_udp_v.Udp.Message.{ok, err, io, done, failed, FlowControlConfig, recv_from, data_message}
use bdspro_udp_v.Udp.Semaphore.{counter}
use bdspro_udp_v.Udp.Simple
use bdspro_udp_v.Udp.Simple.Refines.{forget_sender, forget_receiver, send_refines, receive_refines}
use bdspro_udp_v.Udp.Sender
use bdspro_udp_v.Udp.Sender.Events as SenderEvents
use bdspro_udp_v.Udp.Receiver
use bdspro_udp_v.Udp.Receiver.Events as ReceiverEvents
use bdspro_udp_v.Tests.Codec.{codec}
use bdspro_udp_v.Udp.Sender.Runs.{window_accounts}
use bdspro_udp_v.Udp.Sender.Resend.{resend_sent, tick_late, LateIn}
use bdspro_udp_v.Udp.Sender.Overshoot.{failed_send_widens}
use bdspro_udp_v.Udp.Sender.Window.{new-IsWindow}
use bdspro_udp_v.Udp.Receiver.Buffer.{buffer_accounts}
use bdspro_udp_v.Udp.Receiver.Order.{popped-reports}
use bdspro_udp_v.Udp.Receiver.Overflow.{failed_ack_overflows}

abbrev pub config : FlowControlConfig
config = record {
  send_window_size = 2;
  receive_buffer_size = 1;
  ack_timeout = 1000;
  send_timeout = 5000;
}

abbrev pub sender : Sender.UdpSender ℕ
sender = record {
  flow_control = config;
  sent_messages = [];
  send_window = 2;
  in_flight = [];
  next_seq = 1;
}

abbrev pub receiver : Receiver.UdpReceiver ℕ
receiver = record {
  received_seqs = [];
  flow_control = config;
  receive_buffer = [];
  buffer_semaphore = 1;
}

pub made_sender : Sender.new_with_config done done config ≡ ok sender
unfolding Sender.new_with_config
made_sender = refl

pub made_receiver : Receiver.new_with_config done config ≡ ok receiver
unfolding Receiver.new_with_config
made_receiver = refl

-- A send, one that the socket refuses, the acknowledgment of the first, and a turn of the timeout.
abbrev calls : List SenderEvents.Event
calls =
    SenderEvents.sends "hi" 0 done
    ∷ SenderEvents.sends "hi" 10 failed
    ∷ SenderEvents.receives (2 ∷ 1 ∷ [])
    ∷ SenderEvents.ticks 2000
    ∷ []

window_accounts_example :
    let stats = Sender.get_flow_control_stats (SenderEvents.run sender calls) in
    (stats.available_window + stats.in_flight_messages
      ≡ 2 + SenderEvents.late_failures sender calls)
    × (stats.total_window_size ≡ 2)
window_accounts_example = window_accounts config made_sender calls (omega arith)

sent_first : (Sender.send_message_auto_seq sender "hi" 0 done).result ≡ ok 1
unfolding Sender.send_message_auto_seq
sent_first = refl

resend_sent_example :
    let sent = Sender.send_message_auto_seq sender "hi" 0 done in
    Sender.on_rqst (SenderEvents.run sent.state calls) 1 ≡ sent.wire
resend_sent_example = resend_sent sender "hi" 0 1 done calls (omega arith) sent_first

abbrev busy : Sender.UdpSender ℕ
busy = record sender {
  send_window = 0;
  in_flight =
      (2, Sender.in_flight_message 2 "hi" 1500) ∷ (1, Sender.in_flight_message 1 "hi" 0) ∷ [];
  next_seq = 3;
}

busy-Distinct : HashMap.Distinct busy.in_flight
unfolding HashMap.get
busy-Distinct = (refl, (refl, tt))

-- Of two messages in flight one is late.
tick_late_example :
    let timeout = busy.flow_control.ack_timeout in
    (Mem (1 ∷ 1 ∷ []) (Sender.tick busy 2000).1 ↔ (
      (k : ℕ) × (t : String) × LateIn timeout 2000 busy.in_flight k t
      × (codec.to_vec (data_message k t) ≡ some (1 ∷ 1 ∷ []))))
    × (¬ LateIn timeout 2000 (Sender.tick busy 2000).0.in_flight 1 "hi")
tick_late_example = tick_late busy 2000 (1 ∷ 1 ∷ []) 1 "hi" busy-Distinct

failed_send_widens_example :
    let sent = (Sender.send_message_auto_seq sender "hi" 0 failed).state in
    let acked = Sender.on_ack sent 1 in
    (length sent.in_flight ≡ 1)
    × (sent.send_window ≡ 2)
    × (length acked.in_flight ≡ 0)
    × (acked.send_window ≡ 3)
failed_send_widens_example =
    failed_send_widens 2 0 sender "hi" 0 (1 ∷ 1 ∷ []) (new-IsWindow config made_sender)
      (omega arith) (omega arith) refl

-- Two messages, of which one fits, one that is taken, a datagram that is not a message, and a message
-- whose acknowledgment the socket refuses.
abbrev arrivals : List ReceiverEvents.Event
arrivals =
    ReceiverEvents.receives (some (1 ∷ 2 ∷ [])) done
    ∷ ReceiverEvents.receives (some (1 ∷ 1 ∷ [])) done
    ∷ ReceiverEvents.pops
    ∷ ReceiverEvents.receives (some (9 ∷ [])) done
    ∷ ReceiverEvents.receives (some (1 ∷ 1 ∷ [])) failed
    ∷ []

buffer_accounts_example :
    let stats = Receiver.get_buffer_stats (ReceiverEvents.run receiver arrivals) in
    (stats.available_space + stats.buffered_messages
      ≡ 1 + ReceiverEvents.late_failures receiver arrivals)
    × (stats.total_buffer_size ≡ 1)
buffer_accounts_example = buffer_accounts config made_receiver arrivals

read_first : recv_from (1 ∷ 7 ∷ []) ≡ some (data_message 7 "hi")
unfolding recv_from take
read_first = refl

failed_ack_overflows_example :
    let call = Receiver.receive_message receiver (some (1 ∷ 7 ∷ [])) failed in
    (call.result ≡ err io)
    × (call.state.receive_buffer ≡ data_message 7 "hi" ∷ [])
    × (call.state.buffer_semaphore ≡ 1)
failed_ack_overflows_example =
    failed_ack_overflows receiver (1 ∷ 7 ∷ []) (2 ∷ 7 ∷ []) (data_message 7 "hi") read_first refl
      refl (omega arith)

abbrev timely : List ReceiverEvents.Event
timely =
    ReceiverEvents.receives (some (1 ∷ 2 ∷ [])) done
    ∷ ReceiverEvents.receives (some (1 ∷ 1 ∷ [])) done
    ∷ ReceiverEvents.pops
    ∷ ReceiverEvents.receives (some (9 ∷ [])) done
    ∷ []

no_late_failures : ReceiverEvents.late_failures receiver timely ≡ 0
unfolding ReceiverEvents.late_failures ReceiverEvents.late_failure ReceiverEvents.step take
    Receiver.receive_message Receiver.receive_from_buffer Receiver.drop_permit
no_late_failures = refl

popped-reports_example :
    let es = timely in
    ReceiverEvents.popped receiver es ++ (ReceiverEvents.run receiver es).receive_buffer
    ≡ ReceiverEvents.reports receiver es
popped-reports_example = popped-reports receiver timely no_late_failures

send_refines_example :
    let full = Sender.send_message sender 1 "hi" 0 failed in
    let simple = Simple.send_message (forget_sender sender) 1 "hi" failed in
    (full.wire ≡ simple.wire)
    × (full.result ≡ simple.result)
    × (forget_sender full.state ≡ simple.state)
send_refines_example = send_refines sender 1 "hi" 0 failed (omega arith)

receive_refines_example :
    let full = Receiver.receive_message receiver (some (1 ∷ 7 ∷ [])) done in
    let simple = Simple.receive_message (forget_receiver receiver) (some (1 ∷ 7 ∷ [])) done in
    (full.wire ≡ simple.wire)
    × (full.result ≡ simple.result)
    × (forget_receiver full.state ≡ simple.state)
receive_refines_example = receive_refines receiver (some (1 ∷ 7 ∷ [])) done (omega arith)
