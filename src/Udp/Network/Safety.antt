-- ===== src/Udp/Network/Safety.antt =====
-- What the UDP channel promises over a network that loses, repeats and reorders.
use bdspro_udp_v.Udp.Message.{data_message, Message, Json}
use bdspro_udp_v.Udp.Semaphore.{Semaphore}
use bdspro_udp_v.Common.{
  All, List, String, [], arith, nat_eq, none, refl, some, string_eq, subst, ℕ, ◌∷◌, ◌≡◌,
}
use bdspro_udp_v.HashMap
use bdspro_udp_v.Udp.Sender
use bdspro_udp_v.Udp.Receiver
use bdspro_udp_v.Udp.Receiver.{UdpReceiver}
use bdspro_udp_v.Udp.Sender.{UdpSender}
use bdspro_udp_v.Udp.Message.{FlowControlConfig, done, ok}
use bdspro_udp_v.Udp.Network.{System, Reach, start, next}
use bdspro_udp_v.Udp.Network.Invariant.{Inv, Step-Inv, IsStored}
use bdspro_udp_v.Udp.Network.Receives.{RepliesFit}
use bdspro_udp_v.Udp.Receiver.{get_received_seqs, receive_from_buffer}

module _ {S : Type 0} ⦃sem : Semaphore S⦄ ⦃json : Json⦄ where
  abbrev pub made_sender : FlowControlConfig → UdpSender S
  made_sender config = record {
    flow_control = config;
    sent_messages = [];
    send_window = sem.new config.send_window_size;
    in_flight = [];
    next_seq = 1;
  }

  abbrev pub made_receiver : FlowControlConfig → UdpReceiver S
  made_receiver config = record {
    received_seqs = [];
    flow_control = config;
    receive_buffer = [];
    buffer_semaphore = sem.new config.receive_buffer_size;
  }

  pub made-Inv :
      (config : FlowControlConfig)
      → Inv (record {
        sender = made_sender config;
        receiver = made_receiver config;
        to_receiver = [];
        to_sender = [];
      })
  unfolding HashMap.get
  made-Inv config = record {
    sender = record {
      fits = λ seq text found. absurd (ground arith);
      below = λ k h. refl;
      agree = tt;
    };
    data_sent = tt;
    replies = tt;
    buffered = tt;
    settled = λ seq text found quiet. absurd (ground arith);
  }

  start-Inv :
      (config : FlowControlConfig) {s : UdpSender S} {r : UdpReceiver S}
      → Sender.new_with_config done done config ≡ ok s
      → Receiver.new_with_config done config ≡ ok r
      → Inv (record { sender = s; receiver = r; to_receiver = []; to_sender = [] })
  unfolding Sender.new_with_config Receiver.new_with_config
  start-Inv config {s} {r} hs hr =
      let es : made_sender config ≡ s = cc in
      let er : made_receiver config ≡ r = cc in
      subst (λ t. Inv (record { sender = t; receiver = r; to_receiver = []; to_sender = [] })) es
        (subst
          (λ t. Inv (record {
            sender = made_sender config;
            receiver = t;
            to_receiver = [];
            to_sender = [];
          }))
          er (made-Inv config))

  Reach-Inv : {n : System S} → RepliesFit → Reach n → Inv n
  Reach-Inv short (start config hs hr) = start-Inv config hs hr
  Reach-Inv short (next r st) = Step-Inv short st (Reach-Inv short r)

  front-IsStored :
      (s : UdpSender S) (r : UdpReceiver S) (m : Message)
      → All (IsStored s) r.receive_buffer
      → (receive_from_buffer r).1 ≡ some m
      → IsStored s m
  unfolding receive_from_buffer
  front-IsStored s r m h e = by_list r.receive_buffer refl h
    where
      by_list : (ms : List Message) → r.receive_buffer ≡ ms → All (IsStored s) ms → IsStored s m
      by_list [] el hs = absurd (ground arith)
      by_list (front ∷ rest) el hs =
          let same : front ≡ m = ground arith in subst (IsStored s) same hs.0

  -- In every reachable state, a message that the receiver's buffer hands out is the DATA message of a
  -- text that the sender stored under that number; the receiver's own answers are assumed to fit
  -- in the buffer they are read into, and the texts sent to fit.
  pub popped_was_sent :
      {n : System S} {m : Message}
      → RepliesFit
      → Reach n
      → (receive_from_buffer n.receiver).1 ≡ some m
      → (text : String) × (m ≡ data_message m.seq text)
        × (HashMap.get m.seq n.sender.sent_messages ≡ some text)
  popped_was_sent {n} {m} short r e =
      front-IsStored n.sender n.receiver m (Reach-Inv short r).buffered e

  -- In every reachable state, a number whose text the sender stored and that is not in flight any more
  -- was seen by the receiver: the window slot of a message is freed only after it arrived; the receiver's
  -- own answers are assumed to fit in the buffer they are read into, and the texts sent to fit.
  pub acknowledged_was_received :
      {n : System S} (seq : ℕ) (text : String)
      → RepliesFit
      → Reach n
      → HashMap.get seq n.sender.sent_messages ≡ some text
      → HashMap.get seq n.sender.in_flight ≡ none
      → HashMap.get seq (get_received_seqs n.receiver) ≡ some tt
  unfolding get_received_seqs
  acknowledged_was_received seq text short r found quiet =
      (Reach-Inv short r).settled seq text found quiet
