-- ===== src/Gap.antt =====
-- external/BDSPro_UDP_Channel/src/bin/receiver.rs: the receiver that watches for gaps in the sequence
-- numbers and asks for what is missing. The clock and the socket's answers are arguments.
pub mod Missing
pub mod Range
pub mod Budget
pub mod Asking
pub mod Timeouts
pub mod Turns
pub mod Bounded
pub mod Complete
pub mod Reached
use bdspro_udp_v.Common.{
  Bool, List, Option, [], false, if◌then◌else◌, leb, ltb, nat_eq, none, not, some, string_eq, suc,
  zero, ℕ, ◌&&◌, ◌++◌, ◌+◌, ◌-◌, ◌==◌, ◌∷◌,
}
use bdspro_udp_v.HashMap
use bdspro_udp_v.HashMap.{HashMap}
use bdspro_udp_v.Udp.Message.{
  Message, Bytes, Json, recv_from, Io, done, failed, ack_message, rqst_message, u32,
}

pub record Receiver : Type 0 where
  pub received_seqs : HashMap ℕ (Unit {0})
  pub min_seq : Option ℕ
  pub max_seq : Option ℕ
  pub retransmission_requests : HashMap ℕ ℕ  -- when each was made
  pub retransmission_attempts : HashMap ℕ ℕ  -- u32

abbrev pub new : Receiver
new = record {
  received_seqs = [];
  min_seq = none;
  max_seq = none;
  retransmission_requests = [];
  retransmission_attempts = [];
}

-- Milliseconds.
abbrev pub retransmission_timeout : ℕ
retransmission_timeout = 2000

abbrev pub max_retransmission_attempts : ℕ
max_retransmission_attempts = 3

-- How a piece of the program ends: it goes on, it panics at an `expect` or `unreachable!`, or an error
-- of the socket ends it.
pub data Fate (A : Type 0) : Type 0 where
  goes : A → Fate A
  panics : Fate A
  io_error : Fate A

infixl 5 ◌>>=◌
abbrev pub ◌>>=◌ : {A B : Type 0} → Fate A → (A → Fate B) → Fate B
goes a >>= f = f a
panics >>= f = panics
io_error >>= f = io_error

-- A state and the datagrams sent so far.
abbrev pub Sent : Type 0
Sent = Receiver × List Bytes

abbrev pub or_zero : Option ℕ → ℕ
or_zero none = 0
or_zero (some n) = n

-- `attempts >= max_attempts`, for a number that is in the table.
unfoldable pub exhausted : ℕ → Option ℕ → Bool
exhausted max_attempts none = false
exhausted max_attempts (some attempts) = leb max_attempts attempts

-- The body of the search: is this number to be asked for?
unfoldable pub is_missing : Receiver → ℕ → ℕ → Bool
unfolding exhausted HashMap.contains_key
is_missing r max_attempts seq =
    not (HashMap.contains_key seq r.received_seqs)
    && not (HashMap.contains_key seq r.retransmission_requests)
    && not (exhausted max_attempts (HashMap.get seq r.retransmission_attempts))

-- The loop over `count` numbers from `seq` on.
unfoldable pub missing_from : Receiver → ℕ → ℕ → ℕ → List ℕ
missing_from r max_attempts zero seq = []
missing_from r max_attempts (suc count) seq =
    let rest = missing_from r max_attempts count (seq + 1) in
    if is_missing r max_attempts seq then seq ∷ rest else rest

-- `min_seq..=max_seq`
unfoldable pub missing_sequences : Receiver → ℕ → ℕ → ℕ → List ℕ
missing_sequences r max_attempts min max = missing_from r max_attempts (max + 1 - min) min

-- `*entry(seq).or_insert(0) += 1`
unfoldable pub count_attempt : ℕ → HashMap ℕ ℕ → HashMap ℕ ℕ
count_attempt seq attempts =
    HashMap.insert seq (u32 (or_zero (HashMap.get seq attempts) + 1)) attempts

unfoldable pub track_request : Receiver → ℕ → ℕ → Receiver
track_request r seq now = record r {
  retransmission_requests = HashMap.insert seq now r.retransmission_requests;
  retransmission_attempts = count_attempt seq r.retransmission_attempts;
}

-- The two `Option`s of the range are both there or both absent.
unfoldable pub widen : Option ℕ → Option ℕ → ℕ → Fate (Option ℕ × Option ℕ)
widen none none seq = goes (some seq, some seq)
widen (some min) (some max) seq =
    goes (if ltb seq min then some seq else some min, if ltb max seq then some seq else some max)
widen _ _ seq = panics

-- A message that was asked for has come.
unfoldable pub settle : Receiver → ℕ → Receiver
settle r seq = elim (HashMap.get seq r.retransmission_requests) [
  | none ↦ r
  | some _ ↦ record r {
    retransmission_requests = HashMap.remove seq r.retransmission_requests;
    retransmission_attempts = HashMap.remove seq r.retransmission_attempts;
  }
]

-- What a DATA message does to the state before anything is sent.
unfoldable pub note_data : Receiver → ℕ → Fate Receiver
unfolding widen settle
note_data r seq = do
  (min, max) ← widen r.min_seq r.max_seq seq
  goes (
      settle
        (record r {
          received_seqs = HashMap.insert seq tt r.received_seqs;
          min_seq = min;
          max_seq = max;
        })
        seq)

-- The first loop of `check_retransmission_timeouts`.
unfoldable pub timed_out : ℕ → ℕ → HashMap ℕ ℕ → List ℕ
timed_out timeout now [] = []
timed_out timeout now ((seq, request_time) ∷ m) =
    let rest = timed_out timeout now m in
    if ltb timeout (now - request_time) then seq ∷ rest else rest

module _ ⦃json : Json⦄ where
  -- `expect` on the serialiser, and the socket's answer.
  unfoldable pub encoded : Message → Fate Bytes
  encoded m = elim (json.to_vec m) [ none ↦ panics | some bytes ↦ goes bytes ]

  -- The body of the second loop: forget the request, and count an attempt if there are some left. The
  -- message for the retry is built, and not sent.
  unfoldable pub give_up : ℕ → Receiver → ℕ → Fate Receiver
  unfolding encoded
  give_up max_attempts r seq =
      let attempts = r.retransmission_attempts in
      let r' = record r {
        retransmission_requests = HashMap.remove seq r.retransmission_requests;
      } in
      if ltb (or_zero (HashMap.get seq attempts)) max_attempts
      then (do
        _ ← encoded (rqst_message seq)
        goes (record r' { retransmission_attempts = count_attempt seq attempts }))
      else goes r'

  unfoldable pub give_up_all : ℕ → Receiver → List ℕ → Fate Receiver
  give_up_all max_attempts r [] = goes r
  give_up_all max_attempts r (seq ∷ seqs) =
      give_up max_attempts r seq >>= λ r'. give_up_all max_attempts r' seqs

  unfoldable pub check_retransmission_timeouts : Receiver → ℕ → ℕ → ℕ → Fate Receiver
  unfolding timed_out give_up_all
  check_retransmission_timeouts r now timeout max_attempts =
      give_up_all max_attempts r (timed_out timeout now r.retransmission_requests)

  abbrev pub answered : Io → Fate (Unit {0})
  answered done = goes tt
  answered failed = io_error

  abbrev pub expected : Io → Fate (Unit {0})
  expected done = goes tt
  expected failed = panics

  -- The second loop of `detect_and_request_missing_sequences`; `answer` is the socket's for each number.
  unfoldable pub request_all : (ℕ → Io) → ℕ → Sent → List ℕ → Fate Sent
  unfolding encoded track_request
  request_all answer now s [] = goes s
  request_all answer now (r, wire) (seq ∷ seqs) = do
    bytes ← encoded (rqst_message seq)
    _ ← answered (answer seq)
    request_all answer now (track_request r seq now, wire ++ bytes ∷ []) seqs

  unfoldable pub detect_and_request_missing_sequences : (ℕ → Io) → ℕ → Sent → ℕ → ℕ → ℕ → Fate Sent
  unfolding missing_sequences
  detect_and_request_missing_sequences answer now (r, wire) min max max_attempts =
      request_all answer now (r, wire) (missing_sequences r max_attempts min max)

  -- `if let (Some(min), Some(max))`
  unfoldable pub detect_in_range : (ℕ → Io) → ℕ → Sent → Option ℕ → Option ℕ → Fate Sent
  unfolding detect_and_request_missing_sequences
  detect_in_range answer now s (some min) (some max) =
      detect_and_request_missing_sequences answer now s min max max_retransmission_attempts
  detect_in_range answer now s _ _ = goes s

  unfoldable pub on_data : Receiver → ℕ → ℕ → Io → (ℕ → Io) → Fate Sent
  unfolding note_data encoded detect_in_range
  on_data r seq now ack_answer answer = do
    r' ← note_data r seq
    ack ← encoded (ack_message seq)
    _ ← expected ack_answer
    detect_in_range answer now (r', ack ∷ []) r'.min_seq r'.max_seq

  unfoldable pub on_message : Receiver → Message → ℕ → Io → (ℕ → Io) → Fate Sent
  unfolding on_data
  on_message r message now ack_answer answer =
      if message.typ == "DATA" then on_data r message.seq now ack_answer answer else goes (r, [])

  -- What cannot be parsed is logged.
  unfoldable pub on_packet : Receiver → Option Message → ℕ → Io → (ℕ → Io) → Fate Sent
  unfolding on_message
  on_packet r none now ack_answer answer = goes (r, [])
  on_packet r (some message) now ack_answer answer = on_message r message now ack_answer answer

  -- One turn of the main loop; the clock is read again for the timeouts.
  unfoldable pub turn : Receiver → Bytes → ℕ → ℕ → Io → (ℕ → Io) → Fate Sent
  unfolding on_packet check_retransmission_timeouts
  turn r datagram now later ack_answer answer = do
    (r', wire) ← on_packet r (recv_from datagram) now ack_answer answer
    r'' ← check_retransmission_timeouts r' later retransmission_timeout max_retransmission_attempts
    goes (r'', wire)
