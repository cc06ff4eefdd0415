-- ===== src/Tests/Auto.antt =====
-- Two messages a second for two seconds: one is sent, one is refused by the socket, and the third tick is
-- late.
use bdspro_udp_v.Common.{List, String, [], arith, nat_eq, string_eq, ℕ, ◌∷◌}
use bdspro_udp_v.Udp.Message.{done, failed}
use bdspro_udp_v.Udp.Semaphore.{counter}
use bdspro_udp_v.Tests.Codec.{codec}
use bdspro_udp_v.Tests.Udp.{sender}
use bdspro_udp_v.Udp.Auto.{Args, AutoSender, Tick, loop}
use bdspro_udp_v.Udp.Auto.Numbered.{Run, loop-Run}

abbrev args : Args
args = record { duration = 2; rate = 2; message = "hi"; window_size = 2; ack_timeout = 1000 }

abbrev fresh : AutoSender ℕ
fresh = record { sender = sender; packets_sent = 0; packets_failed = 0 }

abbrev ticks : List Tick
ticks =
    record { elapsed = 0; now = 0; answer = done }
    ∷ record { elapsed = 500; now = 500; answer = failed }
    ∷ record { elapsed = 2000; now = 2000; answer = done }
    ∷ []

-- The prefix alone, which is the text that the codec knows.
abbrev prefix : String → ℕ → String
prefix text n = text

loop-Run_example : Run prefix args fresh 2 (loop prefix args fresh ticks)
loop-Run_example = loop-Run prefix args fresh ticks (omega arith) (omega arith)
