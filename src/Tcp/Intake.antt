-- ===== src/Tcp/Intake.antt =====
-- `channel_handler` of network/src/receiver.rs: it hands the buffers of a data channel to a queue and
-- acknowledges them. What the reader, the writer, the queue and the token answer is an argument.
pub mod Delivery
use bdspro_udp_v.Common.{
  All, All-Mem, All-append, All-mono, All_of_Mem, Bool, Bool-cases, Eq, List, Mem, Option,
  Option-cases, String, [], ap, arith, eq_iff, eqb, eqb_iff, false, if◌then◌else◌, inl, inr, leb,
  length, length-append, ltb, map, nat_eq, none, not, pair_eq, pair_same, refl, replicate, some,
  string_eq, subst, suc, sym, take, take_of_length-le, true, zero, ℕ, ℕ_discrete, ◌%◌, ◌&&◌, ◌*◌,
  ◌++◌, ◌+◌, ◌-◌, ◌/◌, ◌<◌, ◌==◌, ◌^◌, ◌||◌, ◌↔◌, ◌∙◌, ◌∷◌, ◌≡◌, ◌≢◌, ◌≤◌, ◌⊎◌,
}
use bdspro_udp_v.Tcp.Protocol.{
  ChannelIdentifier, TupleBuffer, sequence, DataChannelRequest, tuples, close, DataChannelResponse,
  ack_data,
}
use bdspro_udp_v.Tcp.Dispatcher.{Ran, cut, ran}

pub data ChannelHandlerError : Type 0 where
  closed_by_other_side cancelled network : ChannelHandlerError

-- `Ok(())`, or an error.
pub data End : Type 0 where
  finished : End
  failed : ChannelHandlerError → End

-- What a piece of a turn has handed to the queue and to the writer, and whether the loop goes on, with
-- the buffer that is pending.
pub data After : Type 0 where
  goes : Option TupleBuffer → List TupleBuffer → List DataChannelResponse → After
  stops : End → List TupleBuffer → List DataChannelResponse → After

-- The queue has the buffer; the acknowledgment may be cut short or fail.
unfoldable pub acknowledge : TupleBuffer → Ran Bool → After
acknowledge b cut = stops (failed cancelled) (b ∷ []) []
acknowledge b (ran false) = stops (failed network) (b ∷ []) []
acknowledge b (ran true) = goes none (b ∷ []) (ack_data (sequence b) ∷ [])

-- The queue is closed.
unfoldable pub refuse : Ran Bool → After
refuse cut = stops (failed cancelled) [] []
refuse (ran false) = stops (failed network) [] []
refuse (ran true) = stops finished [] (DataChannelResponse.close ∷ [])

-- The first half of a turn: a pending buffer is handed over.
unfoldable pub deliver : Option TupleBuffer → Ran Bool → Ran Bool → After
unfolding acknowledge refuse
deliver none queued written = goes none [] []
deliver (some b) cut written = stops (failed cancelled) [] []
deliver (some b) (ran true) written = acknowledge b written
deliver (some b) (ran false) written = refuse written

-- What the reader yields.
pub data Item : Type 0 where
  ended broken : Item
  got : DataChannelRequest → Item

-- The second half: the next buffer becomes pending.
unfoldable pub take_in : Ran Item → List TupleBuffer → List DataChannelResponse → After
take_in cut done wire = stops (failed cancelled) done wire
take_in (ran ended) done wire = stops (failed network) done wire
take_in (ran broken) done wire = stops (failed network) done wire
take_in (ran (got (tuples b))) done wire = goes (some b) done wire
take_in (ran (got DataChannelRequest.close)) done wire =
    stops (failed closed_by_other_side) done wire

pub record Turn : Type 0 where
  pub queued : Ran Bool
  pub written : Ran Bool
  pub request : Ran Item

unfoldable pub then_take_in : Ran Item → After → After
unfolding take_in
then_take_in request (goes pending done wire) = take_in request done wire
then_take_in request (stops end done wire) = stops end done wire

unfoldable pub turn : Option TupleBuffer → Turn → After
unfolding deliver then_take_in
turn pending t = then_take_in t.request (deliver pending t.queued t.written)

unfoldable pub prepend : List TupleBuffer → List DataChannelResponse → After → After
prepend done wire (goes pending more answers) = goes pending (done ++ more) (wire ++ answers)
prepend done wire (stops end more answers) = stops end (done ++ more) (wire ++ answers)

-- The loop, for as many turns as there are.
unfoldable pub run : Option TupleBuffer → List Turn → After
unfolding turn prepend
run pending [] = goes pending [] []
run pending (t ∷ ts) = elim (turn pending t) [
  | goes pending' done wire ↦ prepend done wire (run pending' ts)
  | stops end done wire ↦ stops end done wire
]

-- What `create_channel_handler` does when the handler has ended: does it close the queue, and does it
-- ask for the channel to be opened again?
unfoldable pub after_handler : End → Bool × Bool
after_handler finished = (false, false)
after_handler (failed cancelled) = (false, false)
after_handler (failed network) = (false, true)
after_handler (failed closed_by_other_side) = (true, true)
