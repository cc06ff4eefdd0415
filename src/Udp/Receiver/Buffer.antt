-- ===== src/Udp/Receiver/Buffer.antt =====
-- The receive buffer: its room, and its order.
use bdspro_udp_v.Udp.Receiver.Cases.{receive_message_cases}
use native.Mathlib.Nat.{zero-add}
use bdspro_udp_v.Udp.Receiver.Events.{pops, receives, Event, late_failures, late_failure, step, run}
use bdspro_udp_v.Udp.Receiver.{
  receive_from_buffer, record_message, new_with_config, get_buffer_stats, acknowledge, UdpReceiver,
}
use bdspro_udp_v.Udp.Message.{err, Io, Result, done, Message, Outcome, FlowControlConfig, Json}
use bdspro_udp_v.Udp.Semaphore.{Semaphore}
use bdspro_udp_v.Common.{
  List, Option, [], arith, length, length-append, nat_eq, string_eq, ℕ, ◌+◌, ◌-◌, ◌∷◌, ◌≡◌,
}

module _ {S : Type 0} ⦃sem : Semaphore S⦄ ⦃json : Json⦄ where
  -- Permits and buffered messages add up to the buffer and the `extra` permits of failed receives.
  pub record IsBuffer (size extra : ℕ) (r : UdpReceiver S) : Type 0 where
    pub balanced : sem.available_permits r.buffer_semaphore + length r.receive_buffer ≡ size + extra
    pub sized : r.flow_control.receive_buffer_size ≡ size

  new-IsBuffer :
      (config : FlowControlConfig) {r : UdpReceiver S}
      → new_with_config done config ≡ Result.ok r
      → IsBuffer config.receive_buffer_size 0 r
  unfolding new_with_config
  new-IsBuffer config h = ground (arith, sem.available-new config.receive_buffer_size)

  -- `late_failure` as a function of the call.
  abbrev pub late : UdpReceiver S → Outcome (UdpReceiver S) (Option Message) → ℕ
  late r call = elim call.result [
    | Result.ok _ ↦ 0
    | err _ ↦ length call.state.receive_buffer - length r.receive_buffer
  ]

  record_message-IsBuffer :
      (size extra : ℕ) (r : UdpReceiver S) (permits : S) (message : Message) (answer : Io)
      → sem.available_permits permits + 1 ≡ sem.available_permits r.buffer_semaphore
      → IsBuffer size extra r
      → let call = acknowledge (record_message r permits message) message answer in
        IsBuffer size (late r call + extra) call.state
  unfolding acknowledge record_message
  record_message-IsBuffer size extra r permits message answer less v =
      ground
        (arith, length-append r.receive_buffer (message ∷ []), sem.available-add_permits permits 1)

  step-IsBuffer :
      (size extra : ℕ) (r : UdpReceiver S) (e : Event)
      → IsBuffer size extra r
      → IsBuffer size (late_failure r e + extra) (step r e)
  unfolding step late_failure receive_from_buffer
  step-IsBuffer size extra r (receives datagram answer) v =
      receive_message_cases (λ call. IsBuffer size (late r call + extra) call.state) r datagram
        answer (λ _. ground arith) (λ _ _. ground arith) (λ _ _. ground arith)
        (λ _ message permits _ _ _ less.
          record_message-IsBuffer size extra r permits message answer less v)
  step-IsBuffer size extra r pops v = ground (arith, sem.available-add_permits r.buffer_semaphore 1)

  run-IsBuffer :
      (size extra : ℕ) (r : UdpReceiver S) (es : List Event)
      → IsBuffer size extra r
      → IsBuffer size (late_failures r es + extra) (run r es)
  unfolding run late_failures
  run-IsBuffer size extra r [] v = rw zero-add v
  run-IsBuffer size extra r (e ∷ es) v =
      let sum : late_failure r e + late_failures (step r e) es + extra
          ≡ late_failures (step r e) es + (late_failure r e + extra) =
        omega arith in
      rw sum (
        run-IsBuffer size (late_failure r e + extra) (step r e) es (step-IsBuffer size extra r e v))

  -- After any history of received datagrams and taken messages of a new receiver, the available space
  -- and the buffered messages add up to the configured buffer and one for each receive that buffered
  -- its message and failed all the same.
  pub buffer_accounts :
      (config : FlowControlConfig) {r : UdpReceiver S}
      → new_with_config done config ≡ Result.ok r
      → (es : List Event)
      → let stats = get_buffer_stats (run r es) in
        (stats.available_space + stats.buffered_messages
          ≡ config.receive_buffer_size + late_failures r es)
        × (stats.total_buffer_size ≡ config.receive_buffer_size)
  unfolding get_buffer_stats
  buffer_accounts config {r} made es =
      let v : IsBuffer config.receive_buffer_size (late_failures r es + 0) (run r es) =
        run-IsBuffer config.receive_buffer_size 0 r es (new-IsBuffer config made) in
      (omega (arith, v.balanced), v.sized)
