-- ===== src/Udp/Network/Invariant.antt =====
-- What every datagram on the network and every buffered message has behind it.
use bdspro_udp_v.Udp.Sender.{UdpSender}
use bdspro_udp_v.Udp.Receiver.{UdpReceiver, receive_from_buffer}
use bdspro_udp_v.Udp.Semaphore.{Semaphore}
use bdspro_udp_v.Udp.Message.{buf_size, data_message, Message, Bytes, recv_from, Json}
use bdspro_udp_v.Common.{
  All, All-Mem, All-append, All-mono, List, Mem, String, [], arith, inl, inr, nat_eq, none, refl,
  some, string_eq, subst, sym, take_of_length-le, ℕ, ◌++◌, ◌∷◌, ◌≡◌,
}
use bdspro_udp_v.HashMap
use bdspro_udp_v.HashMap.{
  HashMap, Distinct, get-insert, get-remove, insert-Distinct, remove-Distinct, length-insert_fresh,
  length-remove, remove_absent,
}
use bdspro_udp_v.Udp.Network.{
  popped, send, timeout, answered, delivered, requested, requested, delivered, answered, timeout,
  send, Fits, System, Step,
}
use bdspro_udp_v.Udp.Network.Sends.{on_datagram-Move, tick-Move, send-Move}
use bdspro_udp_v.Udp.Network.Moves.{IsSent, SenderInv, SenderMove}
use bdspro_udp_v.Udp.Network.Receives.{
  request-IsReply, receive-Move, IsReply, ReceiverMove, RepliesFit, Seen,
}

module _ ⦃json : Json⦄ where
  pub read_fit :
      (m : Message) (datagram : Bytes)
      → json.to_vec m ≡ some datagram
      → Fits m
      → recv_from datagram ≡ some m
  unfolding recv_from
  read_fit m datagram e fit =
      rw (take_of_length-le buf_size datagram (fit datagram e), recv_from)
        (json.round_trip m datagram e)

module _ {S : Type 0} ⦃sem : Semaphore S⦄ ⦃json : Json⦄ where
  -- The message carries a text as the sender keeps it.
  abbrev pub IsStored : UdpSender S → Message → Type 0
  IsStored s m =
      (text : String) × (m ≡ data_message m.seq text)
      × (HashMap.get m.seq s.sent_messages ≡ some text)

  pub record Inv (n : System S) : Type 0 where
    pub sender : SenderInv n.sender
    pub data_sent : All (IsSent n.sender) n.to_receiver
    pub replies : All (IsReply n.receiver) n.to_sender
    pub buffered : All (IsStored n.sender) n.receiver.receive_buffer
    pub settled :
        (seq : ℕ) (text : String)
        → HashMap.get seq n.sender.sent_messages ≡ some text
        → HashMap.get seq n.sender.in_flight ≡ none
        → Seen n.receiver seq

  -- A move of the sender that confirms only what the receiver has seen.
  sender-Inv :
      (n : System S) (t : UdpSender S) (wire : List Bytes)
      → Inv n
      → SenderMove (Seen n.receiver) n.sender t wire
      → Inv (record n { sender = t; to_receiver = wire ++ n.to_receiver })
  sender-Inv n t wire v mv = record {
    sender = mv.inv;
    data_sent = All-append (IsSent t) wire n.to_receiver mv.sent (
        All-mono (IsSent n.sender) (IsSent t)
          (λ _ (seq, text, e, found). (seq, text, e, mv.grows seq text found)) n.to_receiver
          v.data_sent);
    replies = v.replies;
    buffered =
        All-mono (IsStored n.sender) (IsStored t)
          (λ m (text, e, found). (text, e, mv.grows m.seq text found)) n.receiver.receive_buffer
          v.buffered;
    settled = λ seq text found quiet. elim (mv.settled seq text found quiet) [
      | inl (old, open_) ↦ v.settled seq text old open_
      | inr seen ↦ seen
    ];
  }

  delivered-IsStored :
      (n : System S) (datagram : Bytes) (message : Message)
      → Inv n
      → Mem datagram n.to_receiver
      → recv_from datagram ≡ some message
      → IsStored n.sender message
  delivered-IsStored n datagram message v m read =
      let (seq, text, e, found) = All-Mem (IsSent n.sender) n.to_receiver v.data_sent m in
      let same : recv_from datagram ≡ some (data_message seq text) =
        read_fit (data_message seq text) datagram e (v.sender.fits seq text found) in
      let same_message : data_message seq text ≡ message = cc in
      subst (IsStored n.sender) same_message (text, refl, found)

  receiver-Inv :
      (n : System S) (t : UdpReceiver S) (datagram : Bytes) (wire : List Bytes)
      → Inv n
      → Mem datagram n.to_receiver
      → ReceiverMove n.receiver t datagram wire
      → Inv (record n { receiver = t; to_sender = wire ++ n.to_sender })
  receiver-Inv n t datagram wire v m mv = record {
    sender = v.sender;
    data_sent = v.data_sent;
    replies = All-append (IsReply t) wire n.to_sender mv.replies (
        All-mono (IsReply n.receiver) (IsReply t)
          (λ _ (msg, e, fit, ack). (msg, e, fit, λ a. mv.grows msg.seq (ack a))) n.to_sender
          v.replies);
    buffered = elim mv.buffers [
      | inl e ↦ rw e v.buffered
      | inr (message, read, _, e) ↦ rw e (
          All-append (IsStored n.sender) n.receiver.receive_buffer (message ∷ []) v.buffered
            (delivered-IsStored n datagram message v m read, tt))
    ];
    settled = λ seq text found quiet. mv.grows seq (v.settled seq text found quiet);
  }

  pop-buffered :
      (s : UdpSender S) (r : UdpReceiver S)
      → All (IsStored s) r.receive_buffer
      → All (IsStored s) (receive_from_buffer r).0.receive_buffer
  unfolding receive_from_buffer
  pop-buffered s r h = by_list r.receive_buffer refl h
    where
      by_list :
          (ms : List Message)
          → r.receive_buffer ≡ ms
          → All (IsStored s) ms
          → All (IsStored s) (receive_from_buffer r).0.receive_buffer
      by_list [] e hs = rw (e, receive_from_buffer) (subst (All (IsStored s)) (sym e) hs)
      by_list (m ∷ rest) e hs = rw (e, receive_from_buffer) hs.1

  pop-seqs : (r : UdpReceiver S) → (receive_from_buffer r).0.received_seqs ≡ r.received_seqs
  unfolding receive_from_buffer
  pop-seqs r = ground arith

  -- Every step keeps the invariant.
  pub Step-Inv : {n m : System S} → RepliesFit → Step n m → Inv n → Inv m
  Step-Inv {n} short (send text now answer small fit) v =
      sender-Inv n _ _ v (send-Move (Seen n.receiver) n.sender text now answer v.sender small fit)
  Step-Inv {n} short (timeout now) v =
      sender-Inv n _ _ v (tick-Move (Seen n.receiver) n.sender now v.sender)
  Step-Inv {n} short (answered datagram m) v = sender-Inv n _ _ v (
      on_datagram-Move (Seen n.receiver) n.sender datagram v.sender λ message read ack.
        let (reply, e, fit, seen) = All-Mem (IsReply n.receiver) n.to_sender v.replies m in
        let same : recv_from datagram ≡ some reply = read_fit reply datagram e fit in
        let same_message : reply ≡ message = cc in
        subst (λ x. x.typ ≡ "ACK" → Seen n.receiver x.seq) same_message seen ack)
  Step-Inv {n} short (delivered datagram answer m) v =
      receiver-Inv n _ datagram _ v m (receive-Move n.receiver datagram answer short)
  Step-Inv {n} short popped v = record {
    sender = v.sender;
    data_sent = v.data_sent;
    replies =
        All-mono (IsReply n.receiver) (IsReply (receive_from_buffer n.receiver).0)
          (λ _ (msg, e, fit, ack). (msg, e, fit, λ a. still_seen msg.seq (ack a))) n.to_sender
          v.replies;
    buffered = pop-buffered n.sender n.receiver v.buffered;
    settled = λ seq text found quiet. still_seen seq (v.settled seq text found quiet);
  }
    where
      still_seen : (seq : ℕ) → Seen n.receiver seq → Seen (receive_from_buffer n.receiver).0 seq
      still_seen seq seen = rw (pop-seqs n.receiver) seen
  Step-Inv {n} short (requested seq answer) v = record {
    sender = v.sender;
    data_sent = v.data_sent;
    replies =
        All-append (IsReply n.receiver) _ n.to_sender (request-IsReply n.receiver seq answer short)
          v.replies;
    buffered = v.buffered;
    settled = v.settled;
  }
