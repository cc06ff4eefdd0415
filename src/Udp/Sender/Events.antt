-- ===== src/Udp/Sender/Events.antt =====
-- The calls and tasks of `UdpSender` as one sequence of events. The tasks share the fields under
-- locks, and each event is one call, one datagram or one turn of the timeout task.
use bdspro_udp_v.Common.{ℕ, ◌+◌, String, List, [], ◌∷◌}
use bdspro_udp_v.Udp.Message.{Bytes, Json, send_window_full, Result, ok, err, Io}
use bdspro_udp_v.Udp.Semaphore.{Semaphore}
use bdspro_udp_v.Udp.Sender.{UdpSender, send_message_auto_seq, on_datagram, tick}

pub data Event : Type 0 where
  sends : String → ℕ → Io → Event
  receives : Bytes → Event
  ticks : ℕ → Event

-- A call that had its permit and failed all the same.
abbrev pub failed_late : {A : Type 0} → Result A → ℕ
failed_late (ok _) = 0
failed_late (err send_window_full) = 0
failed_late (err _) = 1

module _ {S : Type 0} ⦃sem : Semaphore S⦄ ⦃json : Json⦄ where
  unfoldable pub step : UdpSender S → Event → UdpSender S
  step s (sends text now answer) = (send_message_auto_seq s text now answer).state
  step s (receives datagram) = (on_datagram s datagram).0
  step s (ticks now) = (tick s now).0

  unfoldable pub run : UdpSender S → List Event → UdpSender S
  run s [] = s
  run s (e ∷ es) = run (step s e) es

  unfoldable pub late_failure : UdpSender S → Event → ℕ
  late_failure s (sends text now answer) =
      failed_late (send_message_auto_seq s text now answer).result
  late_failure s _ = 0

  unfoldable pub late_failures : UdpSender S → List Event → ℕ
  late_failures s [] = 0
  late_failures s (e ∷ es) = late_failure s e + late_failures (step s e) es
