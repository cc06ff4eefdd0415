-- ===== src/Udp/Cli.antt =====
-- The first command line programs: external/BDSPro_UDP_Channel/src/bin/sender.rs (its copy in
-- external/BDSPro_UDP_Channal is the same), and external/BDSPro_UDP_Channal/src/bin/receiver.rs. The
-- lines, the socket's answers and the random pick are arguments.
pub mod Lines
pub mod Answers
use bdspro_udp_v.Common.{
  All, All-Mem, All-append, All-mono, All_of_Mem, Bool, Bool-cases, Eq, List, Mem, Mem-append_right,
  Option, Option-cases, String, [], ap, arith, eq_iff, eqb, eqb_iff, false, get_elem?,
  get_elem?-append, get_elem?-append_left, if◌then◌else◌, inl, inr, leb, length, length-append, ltb,
  map, nat_eq, none, not, pair_eq, pair_same, refl, replicate, some, string_eq, subst, suc, sym,
  take, take_of_length-le, true, zero, ℕ, ℕ_discrete, ◌%◌, ◌&&◌, ◌*◌, ◌++◌, ◌+◌, ◌-◌, ◌/◌, ◌<◌,
  ◌==◌, ◌^◌, ◌||◌, ◌↔◌, ◌∙◌, ◌∷◌, ◌≡◌, ◌≢◌, ◌≤◌, ◌⊎◌,
}
use bdspro_udp_v.HashMap
use bdspro_udp_v.HashMap.{HashMap}
use bdspro_udp_v.Udp.Message.{
  Message, Bytes, Json, recv_from, Io, done, failed, u32, u64, data_message, ack_message,
  rqst_message,
}

-- What a piece of a program leaves: the state and the datagrams, or its end.
pub data After (St : Type 0) : Type 0 where
  goes : St → List Bytes → After St
  ends : List Bytes → After St

-- The map and the counter of the sender.
pub record LineSender : Type 0 where
  pub sent_messages : HashMap ℕ String
  pub seq : ℕ  -- u64

abbrev pub first_line : LineSender
first_line = record { sent_messages = []; seq = 1 }

-- The set and the counter of the receiver.
pub record TestReceiver : Type 0 where
  pub received_seqs : HashMap ℕ (Unit {0})
  pub msg_count : ℕ  -- the bits of an i32

abbrev pub nothing_yet : TestReceiver
nothing_yet = record { received_seqs = []; msg_count = 0 }

-- How far an i32 is from 0, by its bits: a remainder is 0 on both sides of 0 or on neither.
abbrev pub magnitude : ℕ → ℕ
magnitude bits = if ltb bits (2 ^ 31) then bits else 2 ^ 32 - bits

-- Every third message, a number that was seen is asked for again; `roll` is the answer of the random
-- generator, and `none` is a panic.
unfoldable pub is_third : TestReceiver → Bool
is_third r = magnitude r.msg_count % 3 == 0 && not (length r.received_seqs == 0)

unfoldable pub random_seq : TestReceiver → ℕ → Option ℕ
random_seq r roll = elim (get_elem? r.received_seqs roll) [ none ↦ none | some (q, _) ↦ some q ]

unfoldable pub record_data : TestReceiver → ℕ → TestReceiver
record_data r seq = record {
  received_seqs = HashMap.insert seq tt r.received_seqs;
  msg_count = u32 (r.msg_count + 1);
}

module _ ⦃json : Json⦄ where
  -- The datagram of a message, and whether the program goes on: serialising and sending may both fail.
  abbrev pub write : Message → Io → List Bytes × Bool
  write m answer = elim (json.to_vec m) [
    | none ↦ ([], false)
    | some encoded ↦ elim answer [ done ↦ (encoded ∷ [], true) | failed ↦ (encoded ∷ [], false) ]
  ]

  abbrev pub go_on : {St : Type 0} → St → List Bytes × Bool → After St
  go_on s (wire, true) = goes s wire
  go_on s (wire, false) = ends wire

  -- A turn of the main loop of the sender.
  unfoldable pub on_line : LineSender → String → Io → After LineSender
  on_line s line answer =
      go_on
        (record {
          sent_messages = HashMap.insert s.seq line s.sent_messages;
          seq = u64 (s.seq + 1);
        })
        (write (data_message s.seq line) answer)

  -- The listening task: what it puts into the queue of the other.
  unfoldable pub listen : Bytes → Option ℕ
  unfolding recv_from
  listen datagram = elim (recv_from datagram) [
    | none ↦ none
    | some message ↦ if message.typ == "RQST" then some message.seq else none
  ]

  -- The task that answers requests.
  unfoldable pub resend : LineSender → ℕ → Io → After LineSender
  resend s missing_seq answer = elim (HashMap.get missing_seq s.sent_messages) [
    | none ↦ goes s []
    | some text ↦ go_on s (write (data_message missing_seq text) answer)
  ]

  -- The second part of a turn of the receiver: the request, and the acknowledgment once more.
  unfoldable pub request_again : TestReceiver → ℕ → ℕ → Io → Io → List Bytes × Bool
  unfolding random_seq
  request_again r seq roll rqst again = elim (random_seq r roll) [
    | none ↦ ([], false)
    | some q ↦
        let (asked, sent) = write (rqst_message q) rqst in
        if sent
        then (asked ++ (write (ack_message seq) again).0, (write (ack_message seq) again).1)
        else (asked, false)
  ]

  -- A turn of the receiver's loop, with a message that was parsed.
  unfoldable pub on_message : TestReceiver → Message → ℕ → Io → Io → Io → After TestReceiver
  unfolding is_third record_data request_again
  on_message r message roll ack rqst again =
      if message.typ == "DATA"
      then (let r' = record_data r message.seq in
          let (acked, sent) = write (ack_message message.seq) ack in
          if sent
          then if is_third r'
            then go_on r' (
              acked ++ (request_again r' message.seq roll rqst again).0,
              (request_again r' message.seq roll rqst again).1,
            )
            else goes r' acked
          else ends acked)
      else goes r []
