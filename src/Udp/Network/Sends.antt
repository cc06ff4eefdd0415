-- ===== src/Udp/Network/Sends.antt =====
-- What a call or task of the sender of lib.rs does, seen from the network.
use bdspro_udp_v.Common.{
  eqb_iff, subst, eqb, All_of_Mem, All, All-mono, Bool-cases, List, Mem, Option-cases, String, [],
  arith, inl, inr, nat_eq, refl, some, string_eq, ℕ, ◌+◌, ◌<◌, ◌^◌, ◌∷◌, ◌≡◌,
}
use bdspro_udp_v.HashMap
use bdspro_udp_v.HashMap.{
  HashMap, Distinct, get-insert, get-remove, insert-Distinct, remove-Distinct, length-insert_fresh,
  length-remove, remove_absent, All-remove, All-insert,
}
use bdspro_udp_v.Udp.Sender.{
  on_datagram, on_ack, on_rqst, in_flight_message, UdpSender, store, drop_permit,
}
use bdspro_udp_v.Udp.Network.{Fits}
use bdspro_udp_v.Udp.Sender.Entries.{get-refresh_all}
use bdspro_udp_v.Udp.Sender.Cases.{
  on_datagram_cases, on_ack_cases, send_message_cases, transmit_cases,
}
use bdspro_udp_v.Udp.Sender.{tick, send_message_auto_seq}
use bdspro_udp_v.Udp.Semaphore.{Semaphore}
use bdspro_udp_v.Udp.Message.{recv_from, Message, Bytes, Json, data_message, u64, Io, Outcome}
use bdspro_udp_v.Udp.Network.Moves.{
  IsSent, Agrees, SenderInv, SenderMove, encode-IsSent, encode_all-IsSent, refresh_all-Agrees,
}

module _ {S : Type 0} ⦃sem : Semaphore S⦄ ⦃json : Json⦄ where
  module _ (Confirmed : ℕ → Type 0) where
    still :
        (s : UdpSender S) {wire : List Bytes}
        → SenderInv s
        → All (IsSent s) wire
        → SenderMove Confirmed s s wire
    still s v w = record {
      inv = v;
      grows = λ _ _ found. found;
      sent = w;
      settled = λ _ _ found quiet. inl (found, quiet);
    }

    pub tick-Move :
        (s : UdpSender S) (now : ℕ)
        → SenderInv s
        → SenderMove Confirmed s (tick s now).0 (tick s now).1
    unfolding tick
    tick-Move s now v = record {
      inv = record {
        fits = v.fits;
        below = v.below;
        agree = refresh_all-Agrees s s.flow_control.ack_timeout now s.in_flight v.agree;
      };
      grows = λ _ _ found. found;
      sent = encode_all-IsSent s s.flow_control.ack_timeout now s.in_flight v.agree;
      settled = λ seq _ found quiet.
          inl
            (found, ground (arith, get-refresh_all s.flow_control.ack_timeout now seq s.in_flight));
    }

    -- A sender that differs from `s` in the message stored under its next number.
    stored-Move :
        (s t : UdpSender S) (text : String) (now : ℕ) (wire : List Bytes)
        → SenderInv s
        → s.next_seq + 1 < 2 ^ 64
        → Fits (data_message s.next_seq text)
        → t.sent_messages ≡ HashMap.insert s.next_seq text s.sent_messages
        → t.in_flight
          ≡ HashMap.insert s.next_seq (in_flight_message s.next_seq text now) s.in_flight
        → t.next_seq ≡ s.next_seq + 1
        → ((encoded : Bytes)
            → Mem encoded wire
            → json.to_vec (data_message s.next_seq text) ≡ some encoded)
        → SenderMove Confirmed s t wire
    stored-Move s t text now wire v small fit et ef en ew = record {
      inv = record {
        fits = λ seq kept found encoded e. ground (
          arith,
          get-insert s.next_seq seq text s.sent_messages,
          fit encoded,
          λ (h : HashMap.get seq s.sent_messages ≡ some kept). v.fits seq kept h encoded e,
        );
        below = λ k h.
            ground (arith, get-insert s.next_seq k text s.sent_messages, v.below k (omega arith));
        agree = rw ef (
            All-insert (Agrees t) s.next_seq (in_flight_message s.next_seq text now) s.in_flight
              (ground (arith, get-insert s.next_seq s.next_seq text s.sent_messages))
              (All-mono (Agrees s) (Agrees t) (λ e h. grown e.0 e.1.text h) s.in_flight v.agree));
      };
      grows = grown;
      sent = All_of_Mem (IsSent t) wire λ encoded m. (
        s.next_seq,
        text,
        ew encoded m,
        ground (arith, get-insert s.next_seq s.next_seq text s.sent_messages),
      );
      settled = λ seq kept found quiet. inl (
        ground (
          arith,
          get-insert s.next_seq seq text s.sent_messages,
          get-insert s.next_seq seq (in_flight_message s.next_seq text now) s.in_flight,
        ),
        ground
            (arith, get-insert s.next_seq seq (in_flight_message s.next_seq text now) s.in_flight),
      );
    }
      where
        grown :
            (seq : ℕ) (kept : String)
            → HashMap.get seq s.sent_messages ≡ some kept
            → HashMap.get seq t.sent_messages ≡ some kept
        grown seq kept found = ground (
          arith,
          get-insert s.next_seq seq text s.sent_messages,
          v.below s.next_seq (omega arith),
        )

    pub send-Move :
        (s : UdpSender S) (text : String) (now : ℕ) (answer : Io)
        → SenderInv s
        → s.next_seq + 1 < 2 ^ 64
        → Fits (data_message s.next_seq text)
        → SenderMove Confirmed s
            (send_message_auto_seq s text now answer).state
            (send_message_auto_seq s text now answer).wire
    unfolding send_message_auto_seq store drop_permit
    send-Move s text now answer v small fit =
        send_message_cases Moves (record s { next_seq = u64 (s.next_seq + 1) }) s.next_seq text now
          answer (skipped v)
          (λ window _.
            transmit_cases Moves _ s.next_seq text answer (stores _ [] (λ _ m. absurd m))
              (λ encoded e. stores _ (encoded ∷ []) (λ b m. only encoded e b m))
              (λ encoded e. stores _ (encoded ∷ []) (λ b m. only encoded e b m)))
      where
        Moves : Outcome (UdpSender S) (Unit {0}) → Type 0
        Moves sent = SenderMove Confirmed s sent.state sent.wire

        skipped :
            SenderInv s → SenderMove Confirmed s (record s { next_seq = u64 (s.next_seq + 1) }) []
        skipped w = record {
          inv = record { fits = w.fits; below = λ k h. w.below k (omega arith); agree = w.agree };
          grows = λ _ _ found. found;
          sent = tt;
          settled = λ _ _ found quiet. inl (found, quiet);
        }

        stores :
            (window : S) (wire : List Bytes)
            → ((encoded : Bytes)
                → Mem encoded wire
                → json.to_vec (data_message s.next_seq text) ≡ some encoded)
            → SenderMove Confirmed s
                (record s {
                  send_window = window;
                  sent_messages = HashMap.insert s.next_seq text s.sent_messages;
                  in_flight =
                      HashMap.insert s.next_seq (in_flight_message s.next_seq text now) s.in_flight;
                  next_seq = u64 (s.next_seq + 1);
                })
                wire
        stores window wire ew = stored-Move s _ text now wire v small fit refl refl (omega arith) ew

        only :
            (encoded : Bytes)
            → json.to_vec (data_message s.next_seq text) ≡ some encoded
            → (b : Bytes) → Mem b (encoded ∷ [])
            → json.to_vec (data_message s.next_seq text) ≡ some b
        only encoded e b (inl same) = ground arith
        only encoded e b (inr m) = absurd m

    on_ack-Move :
        (s : UdpSender S) (seq : ℕ)
        → SenderInv s
        → Confirmed seq
        → SenderMove Confirmed s (on_ack s seq) []
    on_ack-Move s seq v confirmed =
        on_ack_cases (λ t. SenderMove Confirmed s t []) s seq (still s v tt)
          λ msg _. record {
            inv = record {
              fits = v.fits;
              below = v.below;
              agree = All-remove (Agrees s) seq s.in_flight v.agree;
            };
            grows = λ _ _ found. found;
            sent = tt;
            settled = λ k text found quiet. elim (Bool-cases (eqb seq k)) [
              | inl same ↦ inr (subst Confirmed ((eqb_iff seq k).0 same) confirmed)
              | inr other ↦ inl (found, ground (arith, get-remove seq k s.in_flight))
            ];
          }

    on_rqst-IsSent : (s : UdpSender S) (seq : ℕ) → All (IsSent s) (on_rqst s seq)
    unfolding on_rqst
    on_rqst-IsSent s seq = elim (Option-cases (HashMap.get seq s.sent_messages)) [
      | inl e ↦ rw (e, on_rqst) tt
      | inr (text, e) ↦ rw (e, on_rqst) (encode-IsSent s seq text e)
    ]

    pub on_datagram-Move :
        (s : UdpSender S) (datagram : Bytes)
        → SenderInv s
        → ((message : Message)
            → recv_from datagram ≡ some message
            → message.typ ≡ "ACK"
            → Confirmed message.seq)
        → SenderMove Confirmed s (on_datagram s datagram).0 (on_datagram s datagram).1
    on_datagram-Move s datagram v confirmed =
        on_datagram_cases (λ r. SenderMove Confirmed s r.0 r.1) s datagram (still s v tt)
          (λ seq. still s v (on_rqst-IsSent s seq))
          (λ message e ack. on_ack-Move s message.seq v (confirmed message e ack))
