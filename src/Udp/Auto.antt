-- ===== src/Udp/Auto.antt =====
-- external/BDSPro_UDP_Channel/src/bin/auto_sender.rs: messages at a rate for a time, over `UdpSender`. What a
-- tick of the interval finds (the time since the start, the clock, the socket's answer) is an argument,
-- and so is what `format!` makes of the prefix and a number.
pub mod Numbered
use bdspro_udp_v.Common.{
  All, All-Mem, All-append, All-mono, All_of_Mem, Bool, Bool-cases, Eq, List, Mem, Option,
  Option-cases, String, [], ap, arith, eq_iff, eqb, eqb_iff, false, get_elem?, get_elem?-append,
  get_elem?-append_left, if◌then◌else◌, inl, inr, leb, length, length-append, ltb, map, nat_eq,
  none, not, pair_eq, pair_same, refl, replicate, some, string_eq, subst, suc, sym, take,
  take_of_length-le, true, zero, ℕ, ℕ_discrete, ◌%◌, ◌&&◌, ◌*◌, ◌++◌, ◌+◌, ◌-◌, ◌/◌, ◌<◌, ◌==◌, ◌^◌,
  ◌||◌, ◌↔◌, ◌∙◌, ◌∷◌, ◌≡◌, ◌≢◌, ◌≤◌, ◌⊎◌,
}
use bdspro_udp_v.Udp.Message.{Json, Io, FlowControlConfig, Result, ok, err, u64}
use bdspro_udp_v.Udp.Semaphore.{Semaphore}
use bdspro_udp_v.Udp.Sender.{UdpSender, send_message_auto_seq, new_with_config}

pub record Args : Type 0 where
  pub duration : ℕ  -- seconds, u64 as the next and the last
  pub rate : ℕ
  pub message : String
  pub window_size : ℕ
  pub ack_timeout : ℕ

-- The milliseconds between two ticks; a rate of 0 ends the program.
unfoldable pub packet_interval : Args → Option ℕ
packet_interval args = if args.rate == 0 then none else some (1000 / args.rate)

abbrev pub total_duration : Args → ℕ
total_duration args = 1000 * args.duration

abbrev pub flow_config : Args → FlowControlConfig
flow_config args = record {
  send_window_size = args.window_size;
  receive_buffer_size = 50;
  ack_timeout = args.ack_timeout;
  send_timeout = 5000;
}

pub record AutoSender (S : Type 0) : Type 0 where
  pub sender : UdpSender S
  pub packets_sent : ℕ  -- u64, as the next
  pub packets_failed : ℕ

pub record Tick : Type 0 where
  pub elapsed : ℕ
  pub now : ℕ
  pub answer : Io

-- What was sent: the sequence number and the text.
unfoldable pub count :
    {S : Type 0} → AutoSender S → String → UdpSender S → Result ℕ → AutoSender S × List (ℕ × String)
count a text sender (ok seq) =
    (record a { sender = sender; packets_sent = u64 (a.packets_sent + 1) }, (seq, text) ∷ [])
count a text sender (err e) =
    (record a { sender = sender; packets_failed = u64 (a.packets_failed + 1) }, [])

module _ {S : Type 0} ⦃sem : Semaphore S⦄ ⦃json : Json⦄ (format : String → ℕ → String) where
  -- The rest of a turn, once it is in time.
  unfoldable pub send : Args → AutoSender S → Tick → AutoSender S × List (ℕ × String)
  unfolding send_message_auto_seq count
  send args a t =
      let text = format args.message (a.packets_sent + 1) in
      let outcome = send_message_auto_seq a.sender text t.now t.answer in
      count a text outcome.state outcome.result

  -- The loop; it ends at the first tick that comes too late.
  unfoldable pub loop : Args → AutoSender S → List Tick → AutoSender S × List (ℕ × String)
  unfolding send
  loop args a [] = (a, [])
  loop args a (t ∷ ts) =
      let rest = loop args (send args a t).0 ts in
      if leb (total_duration args) t.elapsed then (a, []) else (rest.0, (send args a t).1 ++ rest.1)
