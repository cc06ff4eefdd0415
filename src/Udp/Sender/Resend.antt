-- ===== src/Udp/Sender/Resend.antt =====
-- What is kept for retransmission, and what the timeout task sends again.
use bdspro_udp_v.Udp.Message.{Bytes}
use bdspro_udp_v.Udp.Sender.Cases.{
  on_ack_cases, on_datagram_cases, transmit_cases, send_message_cases,
}
use bdspro_udp_v.Udp.Sender.Runs.{next_seq-step}
use bdspro_udp_v.Udp.Sender.Events.{ticks, receives, run, sends, Event, step}
use bdspro_udp_v.HashMap.{Distinct, HashMap}
use bdspro_udp_v.Udp.Semaphore.{Semaphore}
use bdspro_udp_v.Udp.Sender.{
  ok, Io, data_message, u64, Outcome, encode, refresh, encode_all, on_rqst, drop_permit, store,
  send_message_auto_seq, UdpSender, InFlightMessage, tick, is_late, Json, refresh_all,
  to_retransmit,
}
use bdspro_udp_v.Common.{
  Bool-cases, List, Mem, Mem-append_right, Option, String, [], ap, arith, false, inl, inr, length,
  nat_eq, none, refl, some, string_eq, subst, sym, ℕ, ◌++◌, ◌+◌, ◌-◌, ◌<◌, ◌^◌, ◌↔◌, ◌∙◌, ◌∷◌, ◌≡◌,
  ◌⊎◌,
}
use bdspro_udp_v.Udp.Message.{Message, Bytes}
use bdspro_udp_v.Udp.Sender.Entries.{get-refresh_all, refresh_found}
use bdspro_udp_v.HashMap
use bdspro_udp_v.HashMap.{
  HashMap, Distinct, get-insert, get-remove, insert-Distinct, remove-Distinct, length-insert_fresh,
  length-remove, remove_absent,
}

module _ (timeout now : ℕ) where
  refresh_fresh : (msg : InFlightMessage) → is_late timeout now (refresh timeout now msg) ≡ false
  unfolding refresh
  refresh_fresh msg = ground arith

  -- The map holds a late message with this number and text.
  abbrev pub LateIn : HashMap ℕ InFlightMessage → ℕ → String → Type 0
  LateIn m seq text =
      (msg : InFlightMessage) × (HashMap.get seq m ≡ some msg)
      × (msg.text ≡ text)
      × (timeout < now - msg.sent_time)

  -- The texts sent again are those of the late messages in flight, each with its own number.
  mem-to_retransmit :
      (m : HashMap ℕ InFlightMessage) (seq : ℕ) (text : String)
      → Distinct m
      → Mem (seq, text) (to_retransmit timeout now m)
      → (msg : InFlightMessage) × (HashMap.get seq m ≡ some msg)
        × (msg.text ≡ text)
        × (timeout < now - msg.sent_time)
  unfolding to_retransmit is_late HashMap.get
  mem-to_retransmit [] seq text d h = absurd h
  mem-to_retransmit ((k, msg) ∷ m) seq text d h = elim (Bool-cases (is_late timeout now msg)) [
    | inl late ↦ elim (rw late at h) [
      | inl e ↦ (msg, ground arith, ground arith, ground arith)
      | inr r ↦ in_tail (mem-to_retransmit m seq text d.1 r)
    ]
    | inr fresh ↦ in_tail (mem-to_retransmit m seq text d.1 (rw fresh at h))
  ]
    where
      in_tail : LateIn m seq text → LateIn ((k, msg) ∷ m) seq text
      in_tail (w, found, same, late) = (w, ground arith, same, late)

  mem_of_late :
      (m : HashMap ℕ InFlightMessage) (seq : ℕ) (msg : InFlightMessage)
      → HashMap.get seq m ≡ some msg
      → timeout < now - msg.sent_time
      → Mem (seq, msg.text) (to_retransmit timeout now m)
  unfolding to_retransmit is_late HashMap.get
  mem_of_late [] seq msg h late = ground arith
  mem_of_late ((k, w) ∷ m) seq msg h late = ground (arith, mem_of_late m seq msg)

  -- After a turn of the timeout task no message in flight is late.
  not_late :
      (m : HashMap ℕ InFlightMessage) (seq : ℕ) (text : String)
      → ¬ LateIn (refresh_all timeout now m) seq text
  unfolding is_late
  not_late m seq text (msg, found, same, late) =
      by_entry (HashMap.get seq m) (sym (get-refresh_all timeout now seq m) ∙ found)
    where
      by_entry : (o : Option InFlightMessage) → refresh_found timeout now o ≡ some msg → ⊥
      by_entry none e = absurd (ground (arith, e))
      by_entry (some w) e =
          let is_msg : refresh timeout now w ≡ msg = ap (λ o. elim o [ none ↦ w | some x ↦ x ]) e in
          let fresh : is_late timeout now msg ≡ false =
            subst (λ x. is_late timeout now x ≡ false) is_msg (refresh_fresh w) in
          ground (arith, fresh)

module _ ⦃json : Json⦄ where
  mem_encode_or :
      (m : Message) (datagram : Bytes) (rest : List Bytes) (o : Option Bytes)
      → json.to_vec m ≡ o
      → Mem datagram ((elim o [ none ↦ [] | some bytes ↦ bytes ∷ [] ]) ++ rest)
      → (json.to_vec m ≡ some datagram) ⊎ Mem datagram rest
  mem_encode_or m datagram rest none e there = inr there
  mem_encode_or m datagram rest (some bytes) e (inl same) = inl (e ∙ ap some same)
  mem_encode_or m datagram rest (some bytes) e (inr later) = inr later

  -- What is written for a list of texts are the DATA messages of its members.
  encode_all_mem :
      (entries : List (ℕ × String)) (datagram : Bytes)
      → Mem datagram (encode_all entries)
      → (seq : ℕ) × (text : String) × Mem (seq, text) entries
        × (json.to_vec (data_message seq text) ≡ some datagram)
  unfolding encode_all encode
  encode_all_mem [] datagram m = absurd m
  encode_all_mem ((seq, text) ∷ entries) datagram m =
      elim (mem_encode_or (data_message seq text) datagram (encode_all entries)
        (json.to_vec (data_message seq text)) refl m) [
          | inl e ↦ (seq, text, inl refl, e)
          | inr later ↦
              let (k, t, there, e) = encode_all_mem entries datagram later in (k, t, inr there, e)
        ]

  mem_encode_all :
      (entries : List (ℕ × String)) (datagram : Bytes) (seq : ℕ) (text : String)
      → Mem (seq, text) entries
      → json.to_vec (data_message seq text) ≡ some datagram
      → Mem datagram (encode_all entries)
  unfolding encode_all encode
  mem_encode_all [] datagram seq text m e = absurd m
  mem_encode_all ((k, t) ∷ entries) datagram seq text (inl same) e =
      subst
        (λ o. Mem datagram ((elim o [ none ↦ [] | some bytes ↦ bytes ∷ [] ]) ++ encode_all entries))
        (sym (ap (λ p. json.to_vec (data_message p.0 p.1)) same ∙ e)) (inl refl)
  mem_encode_all ((k, t) ∷ entries) datagram seq text (inr later) e =
      Mem-append_right datagram (encode (data_message k t)) (encode_all entries)
        (mem_encode_all entries datagram seq text later e)

module _ {S : Type 0} ⦃sem : Semaphore S⦄ ⦃json : Json⦄ where
  kept_step :
      (s : UdpSender S) (e : Event) (seq : ℕ) (text : String)
      → seq < s.next_seq
      → s.next_seq + 1 < 2 ^ 64
      → HashMap.get seq s.sent_messages ≡ some text
      → (HashMap.get seq (step s e).sent_messages ≡ some text) × (seq < (step s e).next_seq)
  unfolding step send_message_auto_seq tick store drop_permit
  kept_step s (sends t now answer) seq text below small found =
      send_message_cases Keeps (record s { next_seq = u64 (s.next_seq + 1) }) s.next_seq t now
        answer (found, omega arith)
        (λ window _.
          transmit_cases Keeps _ s.next_seq t answer (kept window) (λ _ _. kept window)
            (λ _ _. kept window))
    where
      Keeps : Outcome (UdpSender S) (Unit {0}) → Type 0
      Keeps sent =
          (HashMap.get seq sent.state.sent_messages ≡ some text) × (seq < sent.state.next_seq)

      kept :
          (window : S)
          → (HashMap.get seq (HashMap.insert s.next_seq t s.sent_messages) ≡ some text)
            × (seq < u64 (s.next_seq + 1))
      kept window = ground (arith, get-insert s.next_seq seq t s.sent_messages)
  kept_step s (receives datagram) seq text below small found =
      on_datagram_cases (λ r. Keeps r.0) s datagram (found, below) (λ _. (found, below))
        (λ message _ _. on_ack_cases Keeps s message.seq (found, below) (λ _ _. (found, below)))
    where
      Keeps : UdpSender S → Type 0
      Keeps t = (HashMap.get seq t.sent_messages ≡ some text) × (seq < t.next_seq)
  kept_step s (ticks now) seq text below small found = (found, below)

  kept_run :
      (es : List Event) (s : UdpSender S) (seq : ℕ) (text : String)
      → seq < s.next_seq
      → s.next_seq + length es < 2 ^ 64
      → HashMap.get seq s.sent_messages ≡ some text
      → HashMap.get seq (run s es).sent_messages ≡ some text
  unfolding run
  kept_run [] s seq text below small found = found
  kept_run (e ∷ es) s seq text below small found =
      let (found', below') = kept_step s e seq text below (omega arith) found in
      kept_run es (step s e) seq text below' (omega (arith, next_seq-step s e)) found'

  resend_after :
      (es : List Event) (s : UdpSender S) (seq : ℕ) (text : String)
      → seq < s.next_seq
      → s.next_seq + length es < 2 ^ 64
      → HashMap.get seq s.sent_messages ≡ some text
      → on_rqst (run s es) seq ≡ encode (data_message seq text)
  unfolding on_rqst
  resend_after es s seq text below small found =
      rw (kept_run es s seq text below small found, on_rqst)

  -- A successful call leaves its text stored and has handed over the message for it.
  stored_sent :
      (s : UdpSender S) (text : String) (now seq : ℕ) (answer : Io)
      → s.next_seq + 1 < 2 ^ 64
      → (send_message_auto_seq s text now answer).result ≡ ok seq
      → let sent = send_message_auto_seq s text now answer in
        (seq ≡ s.next_seq)
        × (sent.state.next_seq ≡ s.next_seq + 1)
        × (HashMap.get s.next_seq sent.state.sent_messages ≡ some text)
        × (sent.wire ≡ encode (data_message s.next_seq text))
  unfolding send_message_auto_seq encode drop_permit
  stored_sent s text now seq answer small h =
      ground (arith, get-insert s.next_seq s.next_seq text s.sent_messages)

  -- After a successful automatically numbered send, and any further history that does not use up the
  -- sequence numbers, a request for the number that the call returned is answered by exactly the
  -- datagrams that the call handed to the socket.
  pub resend_sent :
      (s : UdpSender S) (text : String) (now seq : ℕ) (answer : Io) (es : List Event)
      → s.next_seq + 1 + length es < 2 ^ 64
      → (send_message_auto_seq s text now answer).result ≡ ok seq
      → let sent = send_message_auto_seq s text now answer in
        on_rqst (run sent.state es) seq ≡ sent.wire
  resend_sent s text now seq answer es small h =
      let (number, next, found, wire) = stored_sent s text now seq answer (omega arith) h in
      rw (number, wire)
        (resend_after es (send_message_auto_seq s text now answer).state s.next_seq text
          (omega (arith, next)) (omega (arith, next)) found)

  -- One turn of the timeout task sends exactly the DATA messages of the messages in flight whose
  -- acknowledgment is late, each under its number, as far as they can be serialised; and after it no
  -- message in flight is late.
  pub tick_late :
      (s : UdpSender S) (now : ℕ) (datagram : Bytes) (seq : ℕ) (text : String)
      → Distinct s.in_flight
      → let timeout = s.flow_control.ack_timeout in
        (Mem datagram (tick s now).1 ↔ (
          (k : ℕ) × (t : String) × LateIn timeout now s.in_flight k t
          × (json.to_vec (data_message k t) ≡ some datagram)))
        × (¬ LateIn timeout now (tick s now).0.in_flight seq text)
  unfolding tick
  tick_late s now datagram seq text d = (
    (
      λ m.
          let (k, t, there, e) =
            encode_all_mem (to_retransmit timeout now s.in_flight) datagram m in
          (k, t, mem-to_retransmit timeout now s.in_flight k t d there, e),
      λ (k, t, (msg, found, same, late), e).
          mem_encode_all (to_retransmit timeout now s.in_flight) datagram k t
            (rw (← same) (mem_of_late timeout now s.in_flight k msg found late)) e,
    ),
    not_late timeout now s.in_flight seq text,
  )
    where
      timeout : ℕ
      timeout = s.flow_control.ack_timeout
