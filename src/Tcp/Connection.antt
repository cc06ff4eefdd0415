-- ===== src/Tcp/Connection.antt =====
-- `connection_handler` of network/src/sender.rs: the task that connects and reconnects, the task that
-- opens channels over the control connection, and the attempts to register a channel. What the calls
-- answer, and which task moves, is an argument.
pub mod Attempts
pub mod Single
use bdspro_udp_v.Common.{
  All, All-Mem, All-append, All-mono, All_of_Mem, Bool, Bool-cases, Eq, List, Mem, Option,
  Option-cases, String, [], ap, arith, eq_iff, eqb, eqb_iff, false, if◌then◌else◌, inl, inr, leb,
  length, length-append, ltb, map, nat_eq, none, not, pair_eq, pair_same, refl, replicate, some,
  string_eq, subst, suc, sym, take, take_of_length-le, true, zero, ℕ, ℕ_discrete, ◌%◌, ◌&&◌, ◌*◌,
  ◌++◌, ◌+◌, ◌-◌, ◌/◌, ◌<◌, ◌==◌, ◌^◌, ◌||◌, ◌↔◌, ◌∙◌, ◌∷◌, ◌≡◌, ◌≢◌, ◌≤◌, ◌⊎◌,
}
use bdspro_udp_v.Tcp.Protocol.{
  ChannelIdentifier, ControlChannelRequest, channel_request, ControlChannelResponse,
  ok_channel_response, deny_channel_response,
}
use bdspro_udp_v.Tcp.Channel.{ChannelHandlerResult, was_cancelled, was_lost, was_closed}
use bdspro_udp_v.Tcp.Dispatcher.{Ran, cut, ran}

-- What a channel's identification comes to, and the same of a connection: the stream could not be had,
-- the request could not be sent, the stream ended or broke, or there was an answer.
pub data Identification : Type 0 where
  unreachable not_sent closed broken accepted denied : Identification

-- `create_connection` and `create_channel`: whether there is a stream.
unfoldable pub is_created : Identification → Bool
is_created accepted = true
is_created _ = false

pub data EstablishChannelResult : Type 0 where
  ok channel_reject cancelled : EstablishChannelResult
  bad_connection : ChannelIdentifier → EstablishChannelResult

-- What the reader of the control connection yields.
pub data ControlItem : Type 0 where
  ended failed : ControlItem
  got : ControlChannelResponse → ControlItem

unfoldable pub on_control : ChannelIdentifier → Ran ControlItem → EstablishChannelResult
on_control channel cut = cancelled
on_control channel (ran ended) = bad_connection channel
on_control channel (ran failed) = bad_connection channel
on_control channel (ran (got (ok_channel_response port))) = ok
on_control channel (ran (got deny_channel_response)) = channel_reject

-- The result, and what was written to the control connection; with `ok` a task is spawned that runs
-- the channel's handler.
unfoldable pub establish_channel :
    ChannelIdentifier
    → Ran Bool
    → Ran ControlItem
    → EstablishChannelResult × List ControlChannelRequest
unfolding on_control
establish_channel channel cut response = (cancelled, [])
establish_channel channel (ran false) response = (bad_connection channel, [])
establish_channel channel (ran true) response =
    (on_control channel response, channel_request channel ∷ [])

-- `NetworkingConnectionControlMessage`; the reply channel is named by a number.
pub data ConnectionControlMessage : Type 0 where
  register_channel : ChannelIdentifier → ℕ → ConnectionControlMessage
  retry_channel : ChannelIdentifier → ConnectionControlMessage

-- What the spawned task does when the channel's handler has ended: a lost channel is to be opened again,
-- if the message gets through.
unfoldable pub after_handler :
    ChannelIdentifier → ChannelHandlerResult → Ran Bool → List ConnectionControlMessage
after_handler channel was_lost (ran true) = retry_channel channel ∷ []
after_handler channel was_lost _ = []
after_handler channel was_cancelled _ = []
after_handler channel was_closed _ = []

-- One pass of `attempt_channel_registration`: the queue of the task is closed, the reply never comes,
-- or it comes.
pub data Attempt : Type 0 where
  queue_closed no_reply : Attempt
  replied : EstablishChannelResult → Attempt

-- Does the pass end the task?
unfoldable pub is_last : Attempt → Bool
is_last (replied channel_reject) = false
is_last (replied (bad_connection _)) = false
is_last _ = true

-- The waits between the passes, in milliseconds, and whether the task has ended.
pub record Registration : Type 0 where
  pub waits : List ℕ
  pub is_over : Bool

unfoldable pub attempt_from : ℕ → List Attempt → Registration
unfolding is_last
attempt_from retry [] = record { waits = []; is_over = false }
attempt_from retry (attempt ∷ attempts) =
    let rest = attempt_from (retry + 1) attempts in
    if is_last attempt
    then record { waits = []; is_over = true }
    else record { waits = 100 * (retry + 1) ∷ rest.waits; is_over = rest.is_over }

unfoldable pub attempt_channel_registration : List Attempt → Registration
unfolding attempt_from
attempt_channel_registration attempts = attempt_from 0 attempts

-- A control message starts the attempts, unless the one that registers is gone.
unfoldable pub on_control_message :
    ConnectionControlMessage → Bool → List Attempt → Option Registration
unfolding attempt_channel_registration
on_control_message (register_channel channel reply) false attempts = none
on_control_message (register_channel channel reply) true attempts =
    some (attempt_channel_registration attempts)
on_control_message (retry_channel channel) is_there attempts =
    some (attempt_channel_registration attempts)

-- Where the task that connects is: it connects, sleeps after a failure, waits to be told that its
-- connection is bad, or is done.
pub data Connector : Type 0 where
  connecting awaiting retired : Connector
  sleeping : ℕ → Connector  -- seconds

-- Where the task that opens channels is: it waits for a connection, has one, or is done.
pub data Worker : Type 0 where
  idle serving stopped : Worker

-- `queued` is the connection in the queue of length one between the two; the counts are of the
-- connections that were made and of those that were found bad.
pub record Connection : Type 0 where
  pub connector : Connector
  pub retry : ℕ
  pub worker : Worker
  pub queued : Bool
  pub made : ℕ
  pub bad : ℕ

abbrev pub new : Connection
new = record { connector = connecting; retry = 0; worker = idle; queued = false; made = 0; bad = 0 }

-- What may happen: an attempt to connect ends, a sleep ends, the worker takes the connection, it opens a
-- channel, there are no more channels to open, or the worker learns that no connection will come.
pub data Event : Type 0 where
  connects : Ran Identification → Event
  wakes takes drained forsaken : Event
  opens : Ran EstablishChannelResult → Event

unfoldable pub on_connect : Connection → Ran Identification → Connection
unfolding is_created
on_connect c cut = record c { connector = retired }
on_connect c (ran identification) =
    if is_created identification
    then record c { connector = awaiting; retry = 0; queued = true; made = c.made + 1 }
    else record c { connector = sleeping (c.retry + 1); retry = c.retry + 1 }

-- The worker ends, and with it the means to tell the other task to go on.
unfoldable pub stop : Connection → Connection
stop c = record c { connector = retired; worker = stopped }

unfoldable pub on_open : Connection → Ran EstablishChannelResult → Connection
unfolding stop
on_open c cut = stop c
on_open c (ran cancelled) = stop c
on_open c (ran (bad_connection channel)) = record c {
  connector = connecting;
  worker = idle;
  bad = c.bad + 1;
}
on_open c (ran ok) = c
on_open c (ran channel_reject) = c

-- An event that does not fit the places of the tasks does not happen.
unfoldable pub step : Connection → Event → Option Connection
unfolding on_connect on_open stop
step c (connects answer) = elim c.connector [ connecting ↦ some (on_connect c answer) | _ ↦ none ]
step c wakes = elim c.connector [
  | sleeping seconds ↦ some (record c { connector = connecting })
  | _ ↦ none
]
step c takes = elim c.worker [
  | idle ↦ if c.queued then some (record c { worker = serving; queued = false }) else none
  | _ ↦ none
]
step c (opens answer) = elim c.worker [ serving ↦ some (on_open c answer) | _ ↦ none ]
step c drained = elim c.worker [ serving ↦ some (stop c) | _ ↦ none ]
step c forsaken = elim c.connector [
  | retired ↦ elim c.worker [ idle ↦ if c.queued then none else some (stop c) | _ ↦ none ]
  | _ ↦ none
]
