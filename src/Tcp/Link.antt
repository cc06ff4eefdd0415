-- ===== src/Tcp/Link.antt =====
-- Both ends of a data channel: `channel_handler` of network/src/sender.rs and `channel_handler` of
-- network/src/receiver.rs. The connection between them keeps what was written in order and loses
-- nothing while both ends read, as TCP does; what is written and not yet read is part of the state.
pub mod Sublists
pub mod Sending
pub mod Receiving
pub mod Kept
pub mod Side
pub mod Delivered
pub mod Carried
pub mod Drains
use bdspro_udp_v.Common.{
  Bool, List, Option, [], false, if◌then◌else◌, none, some, true, ◌++◌, ◌∷◌, ◌≡◌,
}
use bdspro_udp_v.Tcp.Protocol.{
  TupleBuffer, Sequence, DataChannelRequest, tuples, DataChannelResponse, sequence_eq,
}
use bdspro_udp_v.Tcp.Dispatcher.{Ran, cut, ran}
use bdspro_udp_v.Tcp.Channel
use bdspro_udp_v.Tcp.Channel.{
  ChannelHandler, Place, running, flushing, Pick, response, got, is_drained,
}
use bdspro_udp_v.Tcp.Channel.History.{accepted, acknowledged_in}
use bdspro_udp_v.Tcp.Intake.{Item, After, goes, stops, deliver, take_in}

-- Where the receiving end is: at the head of its loop with a pending buffer, waiting for the next request,
-- or at its end.
pub data Peer : Type 0 where
  serving : Option TupleBuffer → Peer
  reading ended : Peer

-- The two halves of a turn of the receiver, `deliver` and `take_in`, by where they lead, and what the
-- first hands to the queue and writes.
abbrev pub after_delivery : After → Peer
after_delivery (goes pending done wire) = reading
after_delivery (stops end done wire) = ended

abbrev pub after_request : After → Peer
after_request (goes pending done wire) = serving pending
after_request (stops end done wire) = ended

abbrev pub handed : After → List TupleBuffer
handed (goes pending done wire) = done
handed (stops end done wire) = done

abbrev pub answered : After → List DataChannelResponse
answered (goes pending done wire) = wire
answered (stops end done wire) = wire

pub record Link : Type 0 where
  pub place : Place
  pub sender : ChannelHandler
  pub requests : List DataChannelRequest  -- written by the sender and not read, the oldest first
  pub peer : Peer
  pub responses : List DataChannelResponse  -- written by the receiver and not read

abbrev pub opened : Link
opened = record {
  place = running;
  sender = Channel.new;
  requests = [];
  peer = serving none;
  responses = [];
}

-- The response that a turn of the sender reads; a flush that has nothing more to do reads none.
abbrev picked : Pick → List DataChannelResponse
picked (response _ (got r)) = r ∷ []
picked _ = []

unfoldable pub heard : Place → ChannelHandler → Pick → List DataChannelResponse
heard running h pick = picked pick
heard flushing h pick = if is_drained h then [] else picked pick

-- The request that a turn of the receiver reads.
abbrev pub asked : Ran Item → List DataChannelRequest
asked (ran (Item.got request)) = request ∷ []
asked _ = []

-- The states that both ends come to from a given one, each with the buffers that the sender's queue handed
-- over by then, the acknowledgments that the sender took (the last one first), and the buffers that the
-- receiver handed to its queue. An end that reads takes the oldest of what was written to it.
pub data Onward (from : Link) (before : List TupleBuffer) (heard_before : List Sequence)
    (given_before : List TupleBuffer)
    : Link → List TupleBuffer → List Sequence → List TupleBuffer → Type 0 where
  start : Onward from before heard_before given_before from before heard_before given_before
  sends :
      {l : Link} {taken : List TupleBuffer} {acks : List Sequence} {delivered : List TupleBuffer}
      → Onward from before heard_before given_before l taken acks delivered
      → (t : Channel.Turn) {place : Place} {h : ChannelHandler} {wire : List DataChannelRequest}
        (responses : List DataChannelResponse)
      → l.responses ≡ heard l.place l.sender t.pick ++ responses
      → Channel.turn l.place l.sender t ≡ Channel.goes place h wire
      → Onward from before heard_before given_before
          (record l {
            place = place;
            sender = h;
            requests = l.requests ++ wire;
            responses = responses;
          })
          (taken ++ accepted l.place t.pick)
          (acknowledged_in l.place l.sender t.pick ++ acks)
          delivered
  delivers :
      {l : Link} {taken : List TupleBuffer} {acks : List Sequence} {delivered : List TupleBuffer}
      → Onward from before heard_before given_before l taken acks delivered
      → (pending : Option TupleBuffer) (queued written : Ran Bool) → l.peer ≡ serving pending
      → Onward from before heard_before given_before
          (record l {
            peer = after_delivery (deliver pending queued written);
            responses = l.responses ++ answered (deliver pending queued written);
          })
          taken
          acks
          (delivered ++ handed (deliver pending queued written))
  reads :
      {l : Link} {taken : List TupleBuffer} {acks : List Sequence} {delivered : List TupleBuffer}
      → Onward from before heard_before given_before l taken acks delivered
      → (request : Ran Item) (requests : List DataChannelRequest) → l.peer ≡ reading
      → l.requests ≡ asked request ++ requests
      → Onward from before heard_before given_before
          (record l { requests = requests; peer = after_request (take_in request [] []) })
          taken
          acks
          delivered

abbrev pub Reach : Link → List TupleBuffer → List Sequence → List TupleBuffer → Type 0
Reach = Onward opened [] [] []

-- A path goes on with another.
pub join :
    {l m : Link} {t₀ t₁ : List TupleBuffer} {a₀ a₁ : List Sequence} {d₀ d₁ : List TupleBuffer}
    {n : Link} {t₂ : List TupleBuffer} {a₂ : List Sequence} {d₂ : List TupleBuffer}
    → Onward l t₀ a₀ d₀ m t₁ a₁ d₁
    → Onward m t₁ a₁ d₁ n t₂ a₂ d₂
    → Onward l t₀ a₀ d₀ n t₂ a₂ d₂
join p start = p
join p (sends q t responses read e) = sends (join p q) t responses read e
join p (delivers q pending queued written here) = delivers (join p q) pending queued written here
join p (reads q request requests here read) = reads (join p q) request requests here read
