-- ===== src/Tests/Network.antt =====
-- One message over the network and back, and what the gap receiver does with a gap.
use bdspro_udp_v.Common.{
  String, [], arith, inl, nat_eq, none, refl, some, string_eq, take, ℕ, ◌∷◌, ◌≡◌,
}
use bdspro_udp_v.HashMap
use bdspro_udp_v.HashMap.{HashMap}
use bdspro_udp_v.Udp.Message.{done, recv_from, data_message}
use bdspro_udp_v.Udp.Semaphore.{counter}
use bdspro_udp_v.Udp.Sender
use bdspro_udp_v.Udp.Receiver
use bdspro_udp_v.Tests.Codec.{codec}
use bdspro_udp_v.Tests.Udp.{config, sender, receiver, made_sender, made_receiver}
use bdspro_udp_v.Udp.Network.{System, Step, send, delivered, answered, Reach, start, next}
use bdspro_udp_v.Udp.Network.Receives.{RepliesFit}
use bdspro_udp_v.Udp.Network.Safety.{acknowledged_was_received, popped_was_sent}

replies_fit : RepliesFit
replies_fit = record {
  ack = λ seq encoded e. ground arith;
  rqst = λ seq encoded e. ground arith;
  full = λ encoded e. ground arith;
}

abbrev sent : Sender.UdpSender ℕ
sent = record sender {
  sent_messages = (1, "hi") ∷ [];
  send_window = 1;
  in_flight = (1, Sender.in_flight_message 1 "hi" 0) ∷ [];
  next_seq = 2;
}

abbrev received : Receiver.UdpReceiver ℕ
received = record receiver {
  received_seqs = (1, tt) ∷ [];
  receive_buffer = data_message 1 "hi" ∷ [];
  buffer_semaphore = 0;
}

abbrev at_start : System ℕ
at_start = record { sender = sender; receiver = receiver; to_receiver = []; to_sender = [] }

abbrev after_send : System ℕ
after_send = record at_start { sender = sent; to_receiver = (1 ∷ 1 ∷ []) ∷ [] }

abbrev after_delivery : System ℕ
after_delivery = record after_send { receiver = received; to_sender = (2 ∷ 1 ∷ []) ∷ [] }

abbrev after_answer : System ℕ
after_answer = record after_delivery { sender = record sent { send_window = 2; in_flight = [] } }

send_step : Step at_start after_send
unfolding Sender.send_message_auto_seq HashMap.insert HashMap.remove
send_step = send "hi" 0 done (omega arith) (λ encoded e. ground arith)

delivery_step : Step after_send after_delivery
unfolding Receiver.receive_message HashMap.insert HashMap.remove take
delivery_step = delivered (1 ∷ 1 ∷ []) done (inl refl)

answer_step : Step after_delivery after_answer
unfolding Sender.on_datagram HashMap.get HashMap.remove take recv_from
answer_step = answered (2 ∷ 1 ∷ []) (inl refl)

delivery-Reach : Reach after_delivery
delivery-Reach = next (next (start config made_sender made_receiver) send_step) delivery_step

answer-Reach : Reach after_answer
answer-Reach = next delivery-Reach answer_step

front : (Receiver.receive_from_buffer received).1 ≡ some (data_message 1 "hi")
unfolding Receiver.receive_from_buffer
front = refl

stored : HashMap.get 1 sent.sent_messages ≡ some "hi"
unfolding HashMap.get
stored = refl

not_in_flight : HashMap.get 1 after_answer.sender.in_flight ≡ none
unfolding HashMap.get
not_in_flight = refl

acknowledged_was_received_example : HashMap.get 1 (Receiver.get_received_seqs received) ≡ some tt
acknowledged_was_received_example =
    acknowledged_was_received 1 "hi" replies_fit answer-Reach stored not_in_flight

popped_was_sent_example :
    (text : String) × (data_message 1 "hi" ≡ data_message 1 text)
    × (HashMap.get 1 sent.sent_messages ≡ some text)
popped_was_sent_example = popped_was_sent replies_fit delivery-Reach front
