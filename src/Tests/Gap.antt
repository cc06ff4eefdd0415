-- ===== src/Tests/Gap.antt =====
-- The gap receiver on a gap.
use bdspro_udp_v.Common.{
  List, [], arith, nat_eq, none, refl, some, string_eq, take, ℕ, ◌+◌, ◌∷◌, ◌≡◌, ◌≤◌, ◌⊎◌,
}
use bdspro_udp_v.Gap.Reached.{Reach, begins, turns, note_data_goes}
use bdspro_udp_v.HashMap
use bdspro_udp_v.HashMap.{HashMap}
use bdspro_udp_v.Gap.Complete.{Settled, Asked, detection_complete}
use bdspro_udp_v.Gap.{
  turn, detect_and_request_missing_sequences, request_all, missing_from, is_missing, give_up,
  count_attempt, Receiver, new, note_data, goes,
}
use bdspro_udp_v.Udp.Message.{Bytes, done, recv_from}
use bdspro_udp_v.Tests.Codec.{codec}
use bdspro_udp_v.Gap.Budget.{asks}
use bdspro_udp_v.Gap.Bounded
use bdspro_udp_v.Gap.Bounded.{requests_bounded}
use bdspro_udp_v.Gap.Range.{Noted}

-- 1 and 4 were received, and 2 was asked for.
abbrev gapped : Receiver
gapped = record {
  received_seqs = (4, tt) ∷ (1, tt) ∷ [];
  min_seq = some 1;
  max_seq = some 4;
  retransmission_requests = (2, 0) ∷ [];
  retransmission_attempts = (2, 1) ∷ [];
}

-- 1 and 3 come, and 2 does not; its request times out twice.
abbrev at : ℕ → ℕ → Bounded.Packet
at seq now = record {
  datagram = 1 ∷ seq ∷ [];
  now = now;
  later = now + 1;
  ack_answer = done;
  answer = λ _. done;
}

abbrev packets : List Bounded.Packet
packets = at 1 0 ∷ at 3 10 ∷ at 3 5000 ∷ at 3 9000 ∷ at 3 14000 ∷ []

abbrev final : Receiver
final = record {
  received_seqs = (3, tt) ∷ (1, tt) ∷ [];
  min_seq = some 1;
  max_seq = some 3;
  retransmission_requests = [];
  retransmission_attempts = (2, 3) ∷ [];
}

abbrev wire : List Bytes
wire =
    (2 ∷ 1 ∷ [])
    ∷ (2 ∷ 3 ∷ [])
    ∷ (3 ∷ 2 ∷ [])
    ∷ (2 ∷ 3 ∷ [])
    ∷ (2 ∷ 3 ∷ [])
    ∷ (3 ∷ 2 ∷ [])
    ∷ (2 ∷ 3 ∷ [])
    ∷ []

ran : Bounded.run new packets ≡ goes (final, wire)
unfolding Bounded.run HashMap.get HashMap.insert HashMap.remove recv_from take request_all
    missing_from is_missing give_up count_attempt
ran = refl

two_unseen : HashMap.get 2 final.received_seqs ≡ none
unfolding HashMap.get
two_unseen = refl

requests_bounded_example : asks 2 wire ≤ 2
requests_bounded_example = requests_bounded 2 packets ran two_unseen

abbrev asked : Receiver
asked = record gapped {
  retransmission_requests = (3, 50) ∷ (2, 0) ∷ [];
  retransmission_attempts = (3, 1) ∷ (2, 1) ∷ [];
}

detected :
    detect_and_request_missing_sequences (λ _. done) 50 (gapped, []) 1 4 3
    ≡ goes (asked, (3 ∷ 3 ∷ []) ∷ [])
unfolding detect_and_request_missing_sequences request_all missing_from is_missing count_attempt
    HashMap.get HashMap.insert HashMap.remove
detected = refl

detection_complete_example : Settled asked 3 3 × (Settled gapped 3 3 ⊎ Asked 3 ((3 ∷ 3 ∷ []) ∷ []))
detection_complete_example =
    detection_complete (λ _. done) 50 1 4 3 gapped [] detected 3 (omega arith) (omega arith)

-- A first message, with the number 5.
abbrev with_five : Receiver
with_five = record new { received_seqs = (5, tt) ∷ []; min_seq = some 5; max_seq = some 5 }

with_five-Reach : Reach with_five
unfolding turn recv_from take HashMap.get request_all missing_from is_missing HashMap.insert
    HashMap.remove
with_five-Reach = turns begins (1 ∷ 5 ∷ []) 0 1 done (λ _. done) {wire = (2 ∷ 5 ∷ []) ∷ []} refl

note_data_goes_example : (r' : Receiver) × (note_data with_five 3 ≡ goes r') × Noted with_five 3 r'
note_data_goes_example = note_data_goes with_five-Reach 3
