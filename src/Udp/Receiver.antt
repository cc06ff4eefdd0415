-- ===== src/Udp/Receiver.antt =====
-- `UdpReceiver` of external/BDSPro_UDP_Channel/src/lib.rs: the receive buffer behind a semaphore, and
-- the sequence numbers seen. Answers go to the address that a datagram came from, which is left out.
pub mod Cases
pub mod Events
pub mod Buffer
pub mod Order
pub mod Overflow
use bdspro_udp_v.Common.{
  All, All-Mem, All-append, Bool, Bool-cases, Eq, List, Mem, Option, Option-cases, String, [], ap,
  arith, eq_iff, eqb, eqb_iff, false, if◌then◌else◌, inl, inr, leb, length, length-append, ltb, map,
  nat_eq, none, not, pair_same, pair_eq, refl, replicate, some, string_eq, subst, suc, sym, take,
  take_of_length-le, true, zero, ℕ, ◌%◌, ◌&&◌, ◌*◌, ◌++◌, ◌+◌, ◌-◌, ◌/◌, ◌<◌, ◌==◌, ◌^◌, ◌||◌, ◌↔◌,
  ◌∙◌, ◌∷◌, ◌≡◌, ◌≢◌, ◌≤◌, ◌⊎◌,
}
use bdspro_udp_v.HashMap
use bdspro_udp_v.HashMap.{HashMap}
use bdspro_udp_v.Udp.Message.{
  Result, err, io, serialization, receive_buffer_full, rqst_message, ack_message, Io, done, failed,
  default_config, FlowControlConfig, Message, Bytes, Json, recv_from, Outcome,
}
use bdspro_udp_v.Udp.Semaphore.{Semaphore}

-- A `HashSet` is a map to the unit type.
pub record UdpReceiver (S : Type 0) : Type 0 where
  pub received_seqs : HashMap ℕ (Unit {0})
  pub flow_control : FlowControlConfig
  pub receive_buffer : List Message  -- the front first
  pub buffer_semaphore : S

pub record BufferStats : Type 0 where
  pub buffered_messages : ℕ
  pub available_space : ℕ
  pub total_buffer_size : ℕ

abbrev pub buffer_full_message : Message
buffer_full_message = record { typ = "FLOW_CONTROL"; seq = 0; payload = some "BUFFER_FULL" }

module _ {S : Type 0} ⦃sem : Semaphore S⦄ where
  unfoldable pub new_with_config : Io → FlowControlConfig → Result (UdpReceiver S)
  new_with_config failed config = err io
  new_with_config done config = Result.ok (record {
    received_seqs = [];
    flow_control = config;
    receive_buffer = [];
    buffer_semaphore = sem.new config.receive_buffer_size;
  })

  unfoldable pub new : Io → Result (UdpReceiver S)
  unfolding new_with_config
  new bind = new_with_config bind default_config

  unfoldable pub get_buffer_stats : UdpReceiver S → BufferStats
  get_buffer_stats r = record {
    buffered_messages = length r.receive_buffer;
    available_space = sem.available_permits r.buffer_semaphore;
    total_buffer_size = r.flow_control.receive_buffer_size;
  }

  unfoldable pub get_received_seqs : UdpReceiver S → HashMap ℕ (Unit {0})
  get_received_seqs r = r.received_seqs

  -- The oldest message, whose place becomes free.
  unfoldable pub receive_from_buffer : UdpReceiver S → UdpReceiver S × Option Message
  receive_from_buffer r = elim r.receive_buffer [
    | [] ↦ (r, none)
    | msg ∷ rest ↦ (
      record r { receive_buffer = rest; buffer_semaphore = sem.add_permits r.buffer_semaphore 1 },
      some msg,
    )
  ]

  -- The message is recorded and buffered before it is acknowledged.
  unfoldable pub record_message : UdpReceiver S → S → Message → UdpReceiver S
  record_message r permits message = record r {
    received_seqs = HashMap.insert message.seq tt r.received_seqs;
    receive_buffer = r.receive_buffer ++ message ∷ [];
    buffer_semaphore = permits;
  }

  -- An early return drops the permit, which gives it back.
  unfoldable pub drop_permit : UdpReceiver S → UdpReceiver S
  drop_permit r = record r { buffer_semaphore = sem.add_permits r.buffer_semaphore 1 }

  module _ ⦃json : Json⦄ where
    unfoldable pub refuse : UdpReceiver S → Outcome (UdpReceiver S) (Option Message)
    refuse r = elim (json.to_vec buffer_full_message) [
      | none ↦ record { state = r; wire = []; result = err serialization }
      | some encoded ↦ record { state = r; wire = encoded ∷ []; result = err receive_buffer_full }
    ]

    unfoldable pub acknowledge :
        UdpReceiver S → Message → Io → Outcome (UdpReceiver S) (Option Message)
    unfolding drop_permit
    acknowledge r message answer = elim (json.to_vec (ack_message message.seq)) [
      | none ↦ record { state = drop_permit r; wire = []; result = err serialization }
      | some encoded ↦ elim answer [
        | failed ↦ record { state = drop_permit r; wire = encoded ∷ []; result = err io }
        | done ↦ record { state = r; wire = encoded ∷ []; result = Result.ok (some message) }
      ]
    ]

    unfoldable pub on_data : UdpReceiver S → Message → Io → Outcome (UdpReceiver S) (Option Message)
    unfolding refuse acknowledge record_message
    on_data r message answer = elim (sem.try_acquire r.buffer_semaphore) [
      | none ↦ refuse r
      | some permits ↦ acknowledge (record_message r permits message) message answer
    ]

    unfoldable pub on_message :
        UdpReceiver S → Message → Io → Outcome (UdpReceiver S) (Option Message)
    unfolding on_data
    on_message r message answer =
        if message.typ == "DATA"
        then on_data r message answer
        else record { state = r; wire = []; result = Result.ok (some message) }

    -- `none` is a datagram that the socket failed to deliver.
    unfoldable pub receive_message :
        UdpReceiver S → Option Bytes → Io → Outcome (UdpReceiver S) (Option Message)
    unfolding on_message recv_from
    receive_message r none answer = record { state = r; wire = []; result = err io }
    receive_message r (some datagram) answer = elim (recv_from datagram) [
      | none ↦ record { state = r; wire = []; result = err serialization }
      | some message ↦ on_message r message answer
    ]

    unfoldable pub request_retransmit : UdpReceiver S → ℕ → Io → Outcome (UdpReceiver S) (Unit {0})
    request_retransmit r seq answer = elim (json.to_vec (rqst_message seq)) [
      | none ↦ record { state = r; wire = []; result = err serialization }
      | some encoded ↦ elim answer [
        | failed ↦ record { state = r; wire = encoded ∷ []; result = err io }
        | done ↦ record { state = r; wire = encoded ∷ []; result = Result.ok tt }
      ]
    ]
