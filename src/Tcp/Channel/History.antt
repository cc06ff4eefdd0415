-- ===== src/Tcp/Channel/History.antt =====
-- The handler over whole histories, with the buffers that the queue handed over and the
-- acknowledgments that were taken.
use bdspro_udp_v.Common.{
  List, Option, [], arith, if◌then◌else◌, nat_eq, none, some, string_eq, suc, ℕ, ◌++◌, ◌+◌, ◌==◌,
  ◌∷◌, ◌≡◌,
}
use bdspro_udp_v.Tcp.Protocol.{
  TupleBuffer, Sequence, sequence_eq, sequence, DataChannelRequest, ack_data,
}
use bdspro_udp_v.Tcp.Channel.{
  flushing, is_drained, buffer, ChannelHandler, new, got, Place, running, goes, Pick, response,
  request, Turn, turn,
}

-- What a turn takes from the queue; `flush` takes nothing.
abbrev pub accepted : Place → Pick → List TupleBuffer
accepted running (request _ (some (buffer b))) = b ∷ []
accepted _ _ = []

abbrev pub acknowledged : Pick → List Sequence
acknowledged (response _ (got (ack_data seq))) = seq ∷ []
acknowledged _ = []

-- A flush that has nothing more to do takes no response.
unfoldable pub acknowledged_in : Place → ChannelHandler → Pick → List Sequence
acknowledged_in running h pick = acknowledged pick
acknowledged_in flushing h pick = if is_drained h then [] else acknowledged pick

pub data Reach : Place → ChannelHandler → List TupleBuffer → List Sequence → Type 0 where
  start : Reach running new [] []
  next :
      {place : Place} {h : ChannelHandler} {taken : List TupleBuffer} {acks : List Sequence}
      → Reach place h taken acks
      → (t : Turn) {place' : Place} {h' : ChannelHandler} {wire : List DataChannelRequest}
      → turn place h t ≡ goes place' h' wire
      → Reach place' h' (accepted place t.pick ++ taken) (acknowledged_in place h t.pick ++ acks)

-- How many of the buffers have a sequence.
unfoldable pub occurrences : Sequence → List TupleBuffer → ℕ
occurrences q [] = 0
occurrences q (b ∷ bs) = let rest = occurrences q bs in if sequence b == q then suc rest else rest

unfoldable pub hits : Sequence → List Sequence → ℕ
hits q [] = 0
hits q (r ∷ rs) = let rest = hits q rs in if r == q then suc rest else rest

abbrev pub present : Option TupleBuffer → ℕ
present none = 0
present (some _) = 1

pub occurrences-append :
    (q : Sequence) (bs cs : List TupleBuffer)
    → occurrences q (bs ++ cs) ≡ occurrences q bs + occurrences q cs
unfolding occurrences
occurrences-append q [] cs = omega arith
occurrences-append q (b ∷ bs) cs = ground (arith, occurrences-append q bs cs)
