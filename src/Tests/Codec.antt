-- ===== src/Tests/Codec.antt =====
-- A codec that has the law of `Json`: it writes a kind and a number, and knows one text.
use bdspro_udp_v.Common.{
  Option, String, [], arith, eq_iff, eqb_iff, if◌then◌else◌, nat_eq, none, some, string_eq, ℕ, ◌&&◌,
  ◌==◌, ◌∷◌, ◌≡◌,
}
use bdspro_udp_v.Udp.Message.{Message, Bytes, Json, data_message, ack_message, rqst_message}
use bdspro_udp_v.Udp.Receiver.{buffer_full_message}

abbrev write : String → ℕ → Option String → Option Bytes
write typ seq (some text) =
    if typ == "DATA" && text == "hi"
    then some (1 ∷ seq ∷ [])
    else if typ == "FLOW_CONTROL" && text == "BUFFER_FULL" && seq == 0
    then some (4 ∷ 0 ∷ [])
    else none
write typ seq none =
    if typ == "ACK"
    then some (2 ∷ seq ∷ [])
    else if typ == "RQST"
    then some (3 ∷ seq ∷ [])
    else none

abbrev read : Bytes → Option Message
read (kind ∷ seq ∷ []) =
    if kind == 1
    then some (data_message seq "hi")
    else if kind == 2
    then some (ack_message seq)
    else if kind == 3
    then some (rqst_message seq)
    else if kind == 4
    then some buffer_full_message
    else none
read _ = none

pub written_back :
    (typ : String) (seq : ℕ) (payload : Option String) (b : Bytes)
    → write typ seq payload ≡ some b
    → read b ≡ some (record { typ = typ; seq = seq; payload = payload })
written_back typ seq (some text) b e = ground (
  arith,
  eq_iff typ "DATA",
  eq_iff text "hi",
  eq_iff typ "FLOW_CONTROL",
  eq_iff text "BUFFER_FULL",
  eqb_iff seq 0,
)
written_back typ seq none b e = ground (arith, eq_iff typ "ACK", eq_iff typ "RQST")

instance abbrev pub codec : Json
codec = record {
  to_vec = λ m. write m.typ m.seq m.payload;
  from_slice = read;
  round_trip = λ m b e. written_back m.typ m.seq m.payload b e;
}
