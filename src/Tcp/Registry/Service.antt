-- ===== src/Tcp/Registry/Service.antt =====
-- `NetworkService` of network/src/receiver.rs and the loop of `control_socket` that reads what it sends.
-- The queue between them holds ten messages and a sender waits for room; what it holds is a list here,
-- and the reply to a registration is an argument.
use bdspro_udp_v.Common.{
  Bool, List, Option, [], false, if◌then◌else◌, nat_eq, none, some, string_eq, true, ℕ, ◌++◌, ◌∷◌,
}
use bdspro_udp_v.Tcp.Protocol.{ChannelIdentifier, ConnectionIdentifier}
use bdspro_udp_v.Tcp.Registry.{Entry, Registry, on_request, on_register, on_retry, on_shutdown}

-- The queue of a registration's data is named by a number; its reply channel is an answer of the turn.
pub data NetworkingServiceControl : Type 0 where
  retry_channel : ChannelIdentifier → Entry → NetworkingServiceControl
  register_channel : ChannelIdentifier → ℕ → NetworkingServiceControl

pub record NetworkService : Type 0 where
  pub control : List NetworkingServiceControl  -- sent and not read, the oldest first
  pub is_closed : Bool
  pub has_runtime : Bool

abbrev pub started : NetworkService
started = record { control = []; is_closed = false; has_runtime = true }

-- The receiver that the caller gets, unless the service was stopped; `answered` is whether a reply came.
unfoldable pub register : NetworkService → ChannelIdentifier → ℕ → Bool → NetworkService × Option ℕ
register s channel queue answered = if s.is_closed then (s, none) else (
  record s { control = s.control ++ register_channel channel queue ∷ [] },
  if answered then some queue else none,
)

-- Whether the runtime was still there; it is gone afterwards.
unfoldable pub shutdown : NetworkService → NetworkService × Bool
shutdown s = (record s { is_closed = true; has_runtime = false }, s.has_runtime)

-- What the loop meets at a message: the token that it makes for a registration, the tokens that are
-- cancelled by then, and whether the reply gets through.
pub record Turn : Type 0 where
  pub token : ℕ
  pub is_cancelled : ℕ → Bool
  pub is_there : Bool

-- The tables after the message, and the tokens that it cancels.
unfoldable pub on_control : Registry → NetworkingServiceControl → Turn → Registry × List ℕ
on_control r (retry_channel channel e) t = (on_retry r channel e, [])
on_control r (register_channel channel queue) t =
    on_register r channel (record { queue = queue; token = t.token }) t.is_cancelled t.is_there

-- What happens to the tables while the loop runs: it reads a message, or a control connection a request.
pub data Move : Type 0 where
  reads : NetworkingServiceControl → Turn → Move
  asks : ConnectionIdentifier → ChannelIdentifier → List ℕ → (ℕ → Bool) → ℕ → Bool → Move

-- The tables when the queue is closed and empty.
unfoldable pub control_loop : Registry → List Move → Registry
control_loop r [] = r
control_loop r (reads m t ∷ ms) = control_loop (on_control r m t).0 ms
control_loop r (asks connection channel active is_cancelled port written ∷ ms) =
    control_loop (on_request r connection channel active is_cancelled port written).0 ms

-- The tokens that the loop cancels at its end.
unfoldable pub at_end : Registry → List Move → List ℕ
at_end r ms = on_shutdown (control_loop r ms).registered
