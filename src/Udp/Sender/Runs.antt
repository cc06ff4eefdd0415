-- ===== src/Udp/Sender/Runs.antt =====
-- The window over whole histories.
use native.Mathlib.Nat.{zero-add}
use bdspro_udp_v.Udp.Sender.Cases.{
  on_ack_cases, on_datagram_cases, transmit_cases, send_message_cases,
}
use bdspro_udp_v.Common.{arith, ◌^◌, ◌<◌, length, ◌≤◌, ℕ, [], ◌∷◌, List, ◌+◌, ◌≡◌}
use bdspro_udp_v.Udp.Semaphore.{Semaphore}
use bdspro_udp_v.Udp.Message.{u64, ok, done, FlowControlConfig, Json}
use bdspro_udp_v.Udp.Sender.{
  tick, UdpSender, new_with_config, get_flow_control_stats, send_message_auto_seq,
}
use bdspro_udp_v.Udp.Sender.Events.{
  Event, sends, receives, ticks, step, run, late_failures, late_failure,
}
use bdspro_udp_v.Udp.Sender.Window.{step-IsWindow, new-IsWindow, IsWindow}

module _ {S : Type 0} ⦃sem : Semaphore S⦄ ⦃json : Json⦄ where
  next_seq-new :
      (config : FlowControlConfig) {s : UdpSender S}
      → new_with_config done done config ≡ ok s
      → s.next_seq ≡ 1
  unfolding new_with_config
  next_seq-new config h = ground arith

  pub next_seq-step : (s : UdpSender S) (e : Event) → (step s e).next_seq ≤ s.next_seq + 1
  unfolding step send_message_auto_seq tick
  next_seq-step s (sends text now answer) =
      send_message_cases (λ sent. sent.state.next_seq ≤ s.next_seq + 1)
        (record s { next_seq = u64 (s.next_seq + 1) }) s.next_seq text now answer (omega arith)
        (λ window _.
          transmit_cases (λ sent. sent.state.next_seq ≤ s.next_seq + 1) _ s.next_seq text answer
            (omega arith) (λ _ _. omega arith) (λ _ _. omega arith))
  next_seq-step s (receives datagram) =
      on_datagram_cases (λ r. r.0.next_seq ≤ s.next_seq + 1) s datagram (omega arith)
        (λ _. omega arith)
        (λ message _ _.
          on_ack_cases (λ t. t.next_seq ≤ s.next_seq + 1) s message.seq (omega arith)
            (λ _ _. omega arith))
  next_seq-step s (ticks now) = omega arith

  pub run-IsWindow :
      (size extra : ℕ) (s : UdpSender S) (es : List Event)
      → s.next_seq + length es < 2 ^ 64
      → IsWindow size extra s
      → IsWindow size (late_failures s es + extra) (run s es)
  unfolding run late_failures
  run-IsWindow size extra s [] small v = rw zero-add v
  run-IsWindow size extra s (e ∷ es) small v =
      let first = step-IsWindow size extra s e (omega arith) v in
      let later =
        run-IsWindow size (late_failure s e + extra) (step s e) es
          (omega (arith, next_seq-step s e)) first in
      let sum : late_failure s e + late_failures (step s e) es + extra
          ≡ late_failures (step s e) es + (late_failure s e + extra) =
        omega arith in
      rw sum later

  -- After any history of automatically numbered sends, received datagrams and timeout turns of a
  -- new sender, with fewer events than there are sequence numbers, the free permits and the messages
  -- in flight add up to the configured window and one for each send that failed holding a permit.
  pub window_accounts :
      (config : FlowControlConfig) {s : UdpSender S}
      → new_with_config done done config ≡ ok s
      → (es : List Event) → 1 + length es < 2 ^ 64
      → let stats = get_flow_control_stats (run s es) in
        (stats.available_window + stats.in_flight_messages
          ≡ config.send_window_size + late_failures s es)
        × (stats.total_window_size ≡ config.send_window_size)
  unfolding get_flow_control_stats
  window_accounts config {s} made es small =
      let v : IsWindow config.send_window_size (late_failures s es + 0) (run s es) =
        run-IsWindow config.send_window_size 0 s es (omega (arith, next_seq-new config made))
          (new-IsWindow config made) in
      (omega (arith, v.balanced), v.sized)
