-- ===== src/Udp/Simple.antt =====
-- external/BDSPro_UDP_Channel/src/lib_simple.rs: the channel without flow control, kept for tests. Its
-- error and configuration types are those of src/lib.rs.
pub mod Refines
use bdspro_udp_v.Common.{
  All, All-Mem, All-append, All-mono, All_of_Mem, Bool, Bool-cases, Eq, List, Mem, Option,
  Option-cases, String, [], ap, arith, eq_iff, eqb, eqb_iff, false, if◌then◌else◌, inl, inr, leb,
  length, length-append, ltb, map, nat_eq, none, not, pair_eq, pair_same, refl, replicate, some,
  string_eq, subst, suc, sym, take, take_of_length-le, true, zero, ℕ, ℕ_discrete, ◌%◌, ◌&&◌, ◌*◌,
  ◌++◌, ◌+◌, ◌-◌, ◌/◌, ◌<◌, ◌==◌, ◌^◌, ◌||◌, ◌↔◌, ◌∙◌, ◌∷◌, ◌≡◌, ◌≢◌, ◌≤◌, ◌⊎◌,
}
use bdspro_udp_v.HashMap
use bdspro_udp_v.HashMap.{HashMap}
use bdspro_udp_v.Udp.Message.{
  Message, Bytes, Json, recv_from, io, serialization, Result, ok, err, Io, done, failed, Outcome,
  data_message, ack_message, rqst_message,
}

pub record SimpleSender : Type 0 where
  pub sent_messages : HashMap ℕ String

pub record SimpleReceiver : Type 0 where
  pub received_seqs : HashMap ℕ (Unit {0})

unfoldable pub new_sender : Io → Io → Result SimpleSender
new_sender failed connect = err io
new_sender done failed = err io
new_sender done done = ok (record { sent_messages = [] })

unfoldable pub new_receiver : Io → Result SimpleReceiver
new_receiver failed = err io
new_receiver done = ok (record { received_seqs = [] })

-- What a call that writes one datagram comes to: the value, where the socket takes it.
abbrev pub sent_with : {St A : Type 0} → St → Bytes → Io → A → Outcome St A
sent_with s encoded done a = record { state = s; wire = encoded ∷ []; result = ok a }
sent_with s encoded failed a = record { state = s; wire = encoded ∷ []; result = err io }

module _ ⦃json : Json⦄ where
  -- Serialises the message and writes it.
  abbrev pub write : {St A : Type 0} → St → Message → Io → A → Outcome St A
  write s m answer a = elim (json.to_vec m) [
    | none ↦ record { state = s; wire = []; result = err serialization }
    | some encoded ↦ sent_with s encoded answer a
  ]

  unfoldable pub send_message : SimpleSender → ℕ → String → Io → Outcome SimpleSender (Unit {0})
  send_message s seq text answer =
      write (record s { sent_messages = HashMap.insert seq text s.sent_messages })
        (data_message seq text) answer tt

  unfoldable pub on_message :
      SimpleReceiver → Message → Io → Outcome SimpleReceiver (Option Message)
  on_message r message answer =
      if message.typ == "DATA"
      then write (record r { received_seqs = HashMap.insert message.seq tt r.received_seqs })
          (ack_message message.seq) answer (some message)
      else record { state = r; wire = []; result = ok (some message) }

  unfoldable pub receive_message :
      SimpleReceiver → Option Bytes → Io → Outcome SimpleReceiver (Option Message)
  unfolding on_message recv_from
  receive_message r none answer = record { state = r; wire = []; result = err io }
  receive_message r (some datagram) answer = elim (recv_from datagram) [
    | none ↦ record { state = r; wire = []; result = err serialization }
    | some message ↦ on_message r message answer
  ]

  unfoldable pub request_retransmit : SimpleReceiver → ℕ → Io → Outcome SimpleReceiver (Unit {0})
  request_retransmit r seq answer = write r (rqst_message seq) answer tt
