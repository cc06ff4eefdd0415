-- ===== src/Udp/Cli/Answers.antt =====
-- Both programs together: what the receiver asks for, and what the sender answers.
use bdspro_udp_v.Udp.Network.Invariant.{read_fit}
use bdspro_udp_v.Common.{
  Bool, List, Mem, Mem-append_right, String, [], ap, arith, eqb_iff, false, get_elem?,
  if◌then◌else◌, inl, length, nat_eq, none, refl, some, string_eq, suc, true, zero, ℕ, ◌++◌, ◌+◌,
  ◌-◌, ◌<◌, ◌==◌, ◌^◌, ◌∷◌, ◌≡◌, ◌≢◌,
}
use bdspro_udp_v.Udp.Network.{Fits}
use bdspro_udp_v.HashMap
use bdspro_udp_v.HashMap.{
  HashMap, Distinct, get-insert, get-remove, insert-Distinct, remove-Distinct, length-insert_fresh,
  length-remove, remove_absent,
}
use bdspro_udp_v.Udp.Message.{
  Message, Bytes, Json, Io, done, failed, rqst_message, ack_message, data_message,
}
use bdspro_udp_v.Udp.Cli.{
  listen, request_again, is_third, write, random_seq, resend, record_data, After, goes, ends,
  LineSender, TestReceiver, go_on, on_message,
}
use bdspro_udp_v.Udp.Network.Invariant.{read_fit}
use bdspro_udp_v.Udp.Cli.Lines.{Reach, delivers-Inv, Reach-Inv}

module _ ⦃json : Json⦄ where
  picked :
      (m : HashMap ℕ (Unit {0})) (i q : ℕ)
      → elim (get_elem? m i) [ none ↦ none | some (k, _) ↦ some k ] ≡ some q
      → HashMap.get q m ≢ none
  unfolding get_elem? HashMap.get
  picked [] i q e = absurd (ground (arith, e))
  picked ((k, w) ∷ m) zero q e = λ gone. absurd (ground (arith, e, gone, eqb_iff k q))
  picked ((k, w) ∷ m) (suc i) q e =
      λ gone. absurd (picked m i q e (ground (arith, gone, eqb_iff k q)))

  -- A number that the receiver picks is that of a line, and the sender answers with it.
  pick_answered :
      {s : LineSender} {r : TestReceiver} {lines : List String}
      → Reach s r lines
      → length lines + 1 < 2 ^ 64
      → (seq : ℕ) (text : String) → HashMap.get seq s.sent_messages ≡ some text
      → (roll q : ℕ) → random_seq (record_data r seq) roll ≡ some q
      → (answer : Io)
      → (0 < q)
        × ((line : String) × (get_elem? lines (q - 1) ≡ some line)
            × (resend s q answer ≡ go_on s (write (data_message q line) answer)))
  unfolding resend random_seq
  pick_answered {s} {r} {lines} reached few seq text sent roll q is answer =
      let v = delivers-Inv s r lines seq text sent (Reach-Inv reached few) in
      let (line, there) = v.seen q (picked (record_data r seq).received_seqs roll q is) in
      let (above, _, place) = v.kept q line there in (above, (line, place, rw (resend, there) refl))

  abbrev pub wire_of : {St : Type 0} → After St → List Bytes
  wire_of (goes t wire) = wire
  wire_of (ends wire) = wire

  wire-go_on : {St : Type 0} (s : St) (w : List Bytes × Bool) → wire_of (go_on s w) ≡ w.0
  wire-go_on s (wire, true) = refl
  wire-go_on s (wire, false) = refl

  written :
      (m : Message) (bytes : Bytes)
      → json.to_vec m ≡ some bytes
      → (write m done ≡ (bytes ∷ [], true)) × (write m failed ≡ (bytes ∷ [], false))
  written m bytes e = (rw (write, e) refl, rw (write, e) refl)

  request_first :
      (r : TestReceiver) (seq roll q : ℕ) (rqst again : Io) (asked : Bytes)
      → random_seq r roll ≡ some q
      → json.to_vec (rqst_message q) ≡ some asked
      → Mem asked (request_again r seq roll rqst again).0
  unfolding request_again
  request_first r seq roll q done again asked pick e =
      rw (request_again, pick) (rw ((written (rqst_message q) asked e).0) (inl refl))
  request_first r seq roll q failed again asked pick e =
      rw (request_again, pick) (rw ((written (rqst_message q) asked e).1) (inl refl))

  turn_writes :
      (r1 : TestReceiver) (w again : List Bytes × Bool) (third : Bool) (asked : Bytes)
      → w.1 ≡ true
      → third ≡ true
      → Mem asked again.0
      → Mem asked (
          wire_of (
            if w.1
            then if third then go_on r1 (w.0 ++ again.0, again.1) else goes r1 w.0
            else ends w.0))
  turn_writes r1 (acked, went) again third asked e t m =
      rw (e, t)
        (rw (wire-go_on r1 (acked ++ again.0, again.1)) (Mem-append_right asked acked again.0 m))

  -- The turn of a third message writes the request for the number that is picked.
  asks :
      (r : TestReceiver) (seq : ℕ) (text : String) (roll q : ℕ) (rqst again : Io)
      (acked asked : Bytes)
      → is_third (record_data r seq) ≡ true
      → random_seq (record_data r seq) roll ≡ some q
      → json.to_vec (ack_message seq) ≡ some acked
      → json.to_vec (rqst_message q) ≡ some asked
      → Mem asked (wire_of (on_message r (data_message seq text) roll done rqst again))
  unfolding on_message
  asks r seq text roll q rqst again acked asked third pick ack_e rqst_e =
      let r1 = record_data r seq in
      turn_writes r1 (write (ack_message seq) done) (request_again r1 seq roll rqst again)
        (is_third r1) asked (ap (λ p. p.1) (written (ack_message seq) acked ack_e).0) third
        (request_first r1 seq roll q rqst again asked pick rqst_e)

  -- In every state that the two programs come to with fewer than 2^64 lines, when a message that was sent
  -- comes to the receiver, is acknowledged, and is a third one, the turn writes a request for the number
  -- that it picks among those it has seen; the sender hears in it, if it fits into the buffer it is read
  -- into, this number, which is that of a line, and answers with the message of this line and its number.
  pub requests_answered :
      {s : LineSender} {r : TestReceiver} {lines : List String}
      → Reach s r lines
      → length lines + 1 < 2 ^ 64
      → (seq : ℕ) (text : String) → HashMap.get seq s.sent_messages ≡ some text
      → (roll q : ℕ) (rqst again answer : Io) (acked asked : Bytes)
      → is_third (record_data r seq) ≡ true
      → random_seq (record_data r seq) roll ≡ some q
      → json.to_vec (ack_message seq) ≡ some acked
      → json.to_vec (rqst_message q) ≡ some asked
      → Fits (rqst_message q)
      → Mem asked (wire_of (on_message r (data_message seq text) roll done rqst again))
        × (listen asked ≡ some q)
        × (0 < q)
        × ((line : String) × (get_elem? lines (q - 1) ≡ some line)
            × (resend s q answer ≡ go_on s (write (data_message q line) answer)))
  unfolding listen
  requests_answered {s} {r} {lines} reached few seq text sent roll q rqst again answer acked asked
        third pick ack_e rqst_e fits =
      let answered = pick_answered reached few seq text sent roll q pick answer in
      (
        asks r seq text roll q rqst again acked asked third pick ack_e rqst_e,
        ap
            (λ o. elim o [
              | none ↦ none
              | some message ↦ if message.typ == "RQST" then some message.seq else none
            ])
            (read_fit (rqst_message q) asked rqst_e fits),
        answered.0,
        answered.1,
      )
