-- ===== src/Udp/Sender/Window.antt =====
-- The send window: permits and messages in flight.
use bdspro_udp_v.HashMap.{
  HashMap, Distinct, get-insert, get-remove, insert-Distinct, remove-Distinct, length-insert_fresh,
  length-remove,
}
use bdspro_udp_v.HashMap
use bdspro_udp_v.Common.{ℕ, ◌+◌, ◌^◌, ◌≤◌, ◌<◌, ◌≡◌, String, none, arith, length, nat_eq}
use bdspro_udp_v.Udp.Message.{Bytes, Json, Io, done, FlowControlConfig, ok, u64}
use bdspro_udp_v.Udp.Semaphore.{Semaphore}
use bdspro_udp_v.Udp.Sender.{
  UdpSender, in_flight_message, store, send_message_auto_seq, on_ack, on_datagram, tick,
  new_with_config, transmit, drop_permit,
}
use native.Mathlib.Nat.{zero-add}
use bdspro_udp_v.Udp.Sender.Cases.{
  on_ack_cases, on_datagram_cases, transmit_cases, send_message_cases, auto_seq_failed_late,
}
use bdspro_udp_v.Udp.Sender.Events.{Event, sends, receives, ticks, step, late_failure, failed_late}
use bdspro_udp_v.Udp.Sender.Entries.{length-refresh_all, get-refresh_all, refresh_all-Distinct}

module _ {S : Type 0} ⦃sem : Semaphore S⦄ ⦃json : Json⦄ where
  -- Every message in flight was numbered by `next_seq`, and permits and messages in flight add up
  -- to the window and the `extra` permits that failed sends have given back.
  pub record IsWindow (size extra : ℕ) (s : UdpSender S) : Type 0 where
    pub distinct : Distinct s.in_flight
    pub numbered : (k : ℕ) → s.next_seq ≤ k → HashMap.get k s.in_flight ≡ none
    pub balanced : sem.available_permits s.send_window + length s.in_flight ≡ size + extra
    pub sized : s.flow_control.send_window_size ≡ size

  pub new-IsWindow :
      (config : FlowControlConfig) {s : UdpSender S}
      → new_with_config done done config ≡ ok s
      → IsWindow config.send_window_size 0 s
  unfolding new_with_config HashMap.get
  new-IsWindow config h = ground (arith, sem.available-new config.send_window_size)

  on_ack-IsWindow :
      (size extra : ℕ) (s : UdpSender S) (seq : ℕ)
      → IsWindow size extra s
      → IsWindow size extra (on_ack s seq)
  on_ack-IsWindow size extra s seq v = on_ack_cases (IsWindow size extra) s seq v λ msg found.
      record {
        distinct = remove-Distinct seq s.in_flight v.distinct;
        sized = v.sized;
        numbered = λ k h. ground (arith, v.numbered k h, get-remove seq k s.in_flight);
        balanced = omega (
          arith,
          v.balanced,
          length-remove seq s.in_flight msg v.distinct found,
          sem.available-add_permits s.send_window 1,
        );
      }

  tick-IsWindow :
      (size extra : ℕ) (s : UdpSender S) (now : ℕ)
      → IsWindow size extra s
      → IsWindow size extra (tick s now).0
  unfolding tick
  tick-IsWindow size extra s now v = record {
    distinct = refresh_all-Distinct _ now s.in_flight v.distinct;
    sized = v.sized;
    numbered = λ k h.
        ground
          (arith, v.numbered k h, get-refresh_all s.flow_control.ack_timeout now k s.in_flight);
    balanced = ground (arith, length-refresh_all s.flow_control.ack_timeout now s.in_flight);
  }

  on_datagram-IsWindow :
      (size extra : ℕ) (s : UdpSender S) (datagram : Bytes)
      → IsWindow size extra s
      → IsWindow size extra (on_datagram s datagram).0
  on_datagram-IsWindow size extra s datagram v =
      on_datagram_cases (λ r. IsWindow size extra r.0) s datagram v (λ _. v)
        (λ message _ _. on_ack-IsWindow size extra s message.seq v)

  -- A message is stored under the number that `next_seq` had, with one permit less.
  store-IsWindow :
      (size extra : ℕ) (s : UdpSender S) (window : S) (text : String) (now : ℕ)
      → s.next_seq + 1 < 2 ^ 64
      → sem.available_permits window + 1 ≡ sem.available_permits s.send_window
      → IsWindow size extra s
      → IsWindow size extra
          (store (record s { next_seq = u64 (s.next_seq + 1) }) window s.next_seq text now)
  unfolding store
  store-IsWindow size extra s window text now small taken v = record {
    distinct = insert-Distinct s.next_seq _ s.in_flight v.distinct;
    sized = v.sized;
    numbered = λ k h. ground (
      arith,
      v.numbered k (omega arith),
      get-insert s.next_seq k (in_flight_message s.next_seq text now) s.in_flight,
    );
    balanced = omega (
      arith,
      v.balanced,
      length-insert_fresh s.next_seq _ s.in_flight (v.numbered s.next_seq (omega arith)),
    );
  }

  drop_permit-IsWindow :
      (size extra : ℕ) (s : UdpSender S)
      → IsWindow size extra s
      → IsWindow size (1 + extra) (drop_permit s)
  unfolding drop_permit
  drop_permit-IsWindow size extra s v = record {
    distinct = v.distinct;
    sized = v.sized;
    numbered = v.numbered;
    balanced = omega (arith, v.balanced, sem.available-add_permits s.send_window 1);
  }

  skip-IsWindow :
      (size extra : ℕ) (s : UdpSender S)
      → s.next_seq + 1 < 2 ^ 64
      → IsWindow size extra s
      → IsWindow size extra (record s { next_seq = u64 (s.next_seq + 1) })
  skip-IsWindow size extra s small v = record {
    distinct = v.distinct;
    sized = v.sized;
    numbered = λ k h. v.numbered k (omega arith);
    balanced = v.balanced;
  }

  transmit-IsWindow :
      (size extra : ℕ) (s : UdpSender S) (seq : ℕ) (text : String) (answer : Io)
      → IsWindow size extra s
      → IsWindow size
          (failed_late (transmit s seq text answer).result + extra)
          (transmit s seq text answer).state
  transmit-IsWindow size extra s seq text answer v =
      transmit_cases (λ sent. IsWindow size (failed_late sent.result + extra) sent.state) s seq text
        answer (drop_permit-IsWindow size extra s v) (λ _ _. drop_permit-IsWindow size extra s v)
        (λ _ _. rw zero-add v)

  send-IsWindow :
      (size extra : ℕ) (s : UdpSender S) (text : String) (now : ℕ) (answer : Io)
      → s.next_seq + 1 < 2 ^ 64
      → IsWindow size extra s
      → IsWindow size
          (late_failure s (sends text now answer) + extra)
          (send_message_auto_seq s text now answer).state
  unfolding late_failure send_message_auto_seq
  send-IsWindow size extra s text now answer small v = rw auto_seq_failed_late (
      send_message_cases (λ sent. IsWindow size (failed_late sent.result + extra) sent.state) _
        s.next_seq text now answer (rw zero-add (skip-IsWindow size extra s small v))
        (λ window taken.
          transmit-IsWindow size extra _ s.next_seq text answer
            (store-IsWindow size extra s window text now small taken v)))

  pub step-IsWindow :
      (size extra : ℕ) (s : UdpSender S) (e : Event)
      → s.next_seq + 1 < 2 ^ 64
      → IsWindow size extra s
      → IsWindow size (late_failure s e + extra) (step s e)
  unfolding step late_failure
  step-IsWindow size extra s (sends text now answer) small v =
      send-IsWindow size extra s text now answer small v
  step-IsWindow size extra s (receives datagram) small v =
      rw zero-add (on_datagram-IsWindow size extra s datagram v)
  step-IsWindow size extra s (ticks now) small v = rw zero-add (tick-IsWindow size extra s now v)
