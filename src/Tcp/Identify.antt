-- ===== src/Tcp/Identify.antt =====
-- How a stream is identified: `create_connection` and `create_channel` of network/src/sender.rs,
-- `identify_connection` and the loop that accepts in network/src/receiver.rs, with the messages of
-- network/src/protocol.rs. What the sockets answer is an argument.
pub mod Handshake
use bdspro_udp_v.Common.{
  All, All-Mem, All-append, All-mono, All_of_Mem, Bool, Bool-cases, Eq, List, Mem, Option,
  Option-cases, String, [], ap, arith, eq_iff, eqb, eqb_iff, false, get_elem?, get_elem?-append,
  get_elem?-append_left, if◌then◌else◌, inl, inr, leb, length, length-append, ltb, map, nat_eq,
  none, not, pair_eq, pair_same, refl, replicate, some, string_eq, subst, suc, sym, take,
  take_of_length-le, true, zero, ℕ, ℕ_discrete, ◌%◌, ◌&&◌, ◌*◌, ◌++◌, ◌+◌, ◌-◌, ◌/◌, ◌<◌, ◌==◌, ◌^◌,
  ◌||◌, ◌↔◌, ◌∙◌, ◌∷◌, ◌≡◌, ◌≢◌, ◌≤◌, ◌⊎◌,
}
use bdspro_udp_v.Tcp.Protocol.{ChannelIdentifier, ConnectionIdentifier}
use bdspro_udp_v.Tcp.Registry.{Registry, Entry, on_stream}

pub data IdentificationResponse : Type 0 where
  accepted not_ok : IdentificationResponse  -- `Ok` is `accepted`

pub data IdentificationRequest : Type 0 where
  i_am_connection : ConnectionIdentifier → IdentificationRequest
  i_am_channel : ConnectionIdentifier → ChannelIdentifier → IdentificationRequest

-- The addresses of a name: the first of version 4 is taken. `none` is a failed lookup.
pub data SocketAddr : Type 0 where
  v4 v6 : ℕ → ℕ → SocketAddr

unfoldable pub first_v4 : List SocketAddr → Option SocketAddr
first_v4 [] = none
first_v4 (v4 host port ∷ addresses) = some (v4 host port)
first_v4 (v6 host port ∷ addresses) = first_v4 addresses

unfoldable pub to_socket_address : Option (List SocketAddr) → Option SocketAddr
unfolding first_v4
to_socket_address none = none
to_socket_address (some addresses) = first_v4 addresses

-- What a reader yields.
pub data Read (A : Type 0) : Type 0 where
  ended broken : Read A
  got : A → Read A

-- How an end frames a stream: for control messages or for data.
pub data Framing : Type 0 where
  control_channel data_channel : Framing

-- The answer decides.
unfoldable pub on_answer : Framing → Read IdentificationResponse → Option Framing
on_answer framing ended = none
on_answer framing broken = none
on_answer framing (got accepted) = some framing
on_answer framing (got not_ok) = none

-- The request that is written, and how the stream is framed afterwards, if all goes well: the peer is
-- reached, the request is sent, and the peer accepts.
unfoldable pub exchange :
    IdentificationRequest
    → Framing
    → (reached sent : Bool) → Read IdentificationResponse
    → List IdentificationRequest × Option Framing
unfolding on_answer
exchange request framing false sent answer = ([], none)
exchange request framing true false answer = ([], none)
exchange request framing true true answer = (request ∷ [], on_answer framing answer)

unfoldable pub create_connection :
    ConnectionIdentifier
    → (reached sent : Bool) → Read IdentificationResponse
    → List IdentificationRequest × Option Framing
unfolding exchange
create_connection this reached sent answer =
    exchange (i_am_connection this) control_channel reached sent answer

unfoldable pub create_channel :
    ConnectionIdentifier
    → ChannelIdentifier
    → (reached sent : Bool) → Read IdentificationResponse
    → List IdentificationRequest × Option Framing
unfolding exchange
create_channel this channel reached sent answer =
    exchange (i_am_channel this channel) data_channel reached sent answer

pub data ConnectionIdentification : Type 0 where
  connection : ConnectionIdentifier → ConnectionIdentification
  channel : ConnectionIdentifier → ChannelIdentifier → ConnectionIdentification

unfoldable pub identified_as : IdentificationRequest → ConnectionIdentification
identified_as (i_am_connection c) = connection c
identified_as (i_am_channel c ch) = channel c ch

-- How the receiver frames it.
unfoldable pub framing_of : ConnectionIdentification → Framing
framing_of (connection c) = control_channel
framing_of (channel c ch) = data_channel

-- The response that is written, and what the stream is. Every request is accepted.
unfoldable pub identify_connection :
    Read IdentificationRequest
    → (sent : Bool) → List IdentificationResponse × Option ConnectionIdentification
unfolding identified_as
identify_connection ended sent = ([], none)
identify_connection broken sent = ([], none)
identify_connection (got request) false = ([], none)
identify_connection (got request) true = (accepted ∷ [], some (identified_as request))

-- What the loop that accepts does with a stream.
pub data Accepted : Type 0 where
  dropped : Accepted
  control_handler : ConnectionIdentifier → Accepted
  attached : Entry → Accepted

abbrev pub attach : Registry × Option Entry → Registry × Accepted
attach (r, none) = (r, dropped)
attach (r, some e) = (r, attached e)

unfoldable pub on_accept : Registry → Option ConnectionIdentification → Registry × Accepted
unfolding on_stream
on_accept r none = (r, dropped)
on_accept r (some (connection c)) = (r, control_handler c)
on_accept r (some (channel c ch)) = attach (on_stream r c ch)
