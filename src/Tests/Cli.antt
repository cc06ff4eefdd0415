-- ===== src/Tests/Cli.antt =====
-- Two lines are typed, and the second message comes first.
use bdspro_udp_v.Common.{
  Mem, String, [], arith, get_elem?, nat_eq, refl, some, string_eq, ◌<◌, ◌∷◌, ◌≡◌,
}
use bdspro_udp_v.HashMap
use bdspro_udp_v.Tests.Codec.{codec}
use bdspro_udp_v.Udp.Message.{done, data_message}
use bdspro_udp_v.Udp.Cli.{
  LineSender, TestReceiver, write, go_on, on_line, on_message, is_third, record_data, random_seq,
  resend, listen,
}
use bdspro_udp_v.Udp.Cli.Lines.{Reach, begins, types, delivers}
use bdspro_udp_v.Udp.Cli.Answers.{wire_of, requests_answered}

abbrev sender : LineSender
sender = record { sent_messages = (2, "hi") ∷ (1, "hi") ∷ []; seq = 3 }

-- It has seen one number, twice.
abbrev receiver : TestReceiver
receiver = record { received_seqs = (2, tt) ∷ []; msg_count = 2 }

both-Reach : Reach sender receiver ("hi" ∷ "hi" ∷ [])
unfolding on_line on_message is_third record_data HashMap.get HashMap.insert HashMap.remove
both-Reach =
    delivers
      (delivers (types (types begins "hi" done refl) "hi" done refl) 2 "hi" 0 done done done refl
        refl)
      2 "hi" 0 done done done refl refl

requests_answered_example :
    Mem (3 ∷ 2 ∷ []) (wire_of (on_message receiver (data_message 1 "hi") 1 done done done))
    × (listen (3 ∷ 2 ∷ []) ≡ some 2)
    × (0 < 2)
    × ((line : String) × (get_elem? ("hi" ∷ "hi" ∷ []) 1 ≡ some line)
        × (resend sender 2 done ≡ go_on sender (write (data_message 2 line) done)))
unfolding HashMap.get HashMap.insert HashMap.remove random_seq record_data get_elem? is_third
requests_answered_example =
    requests_answered both-Reach (omega arith) 1 "hi" refl 1 2 done done done (2 ∷ 1 ∷ [])
      (3 ∷ 2 ∷ []) refl refl refl refl (λ encoded e. ground (arith, e))
