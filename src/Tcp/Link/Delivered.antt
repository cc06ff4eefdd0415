-- ===== src/Tcp/Link/Delivered.antt =====
-- What has come to the receiver's queue when a flush of the sender ends.
use mathlib.Core.List.Sublistᴰ
use bdspro_udp_v.Common.{List, Mem, arith, nat_eq, string_eq, subst, ◌∙◌, ◌≡◌}
use bdspro_udp_v.Tcp.Protocol.{TupleBuffer, Sequence, DataChannelRequest, sequence_eq, sequence}
use bdspro_udp_v.Tcp.Channel
use bdspro_udp_v.Tcp.Channel.{ChannelHandler, flushing, running, goes}
use bdspro_udp_v.Common.{List, Mem, arith, nat_eq, string_eq, subst, ◌∙◌, ◌≡◌}
use bdspro_udp_v.Tcp.Channel.History.{
  hits, occurrences, occurrences-append, accepted, acknowledged_in,
}
use bdspro_udp_v.Tcp.Channel.Flush.{flush_acknowledged}
use bdspro_udp_v.Tcp.Link.{Link, Reach}
use bdspro_udp_v.Tcp.Link.Sublists.{prefix, full}
use bdspro_udp_v.Tcp.Link.Kept.{on_the_way, Reach-Inv}
use bdspro_udp_v.Tcp.Link.Side.{Reach-Side}

ended_flush :
    (q : Sequence) {place : Channel.Place} {h h' : ChannelHandler} {given : List TupleBuffer}
    {acked : List Sequence} {wire : List DataChannelRequest}
    → place ≡ flushing
    → Channel.History.Reach place h given acked
    → (t : Channel.Turn) → Channel.turn place h t ≡ goes running h' wire
    → occurrences q given ≡ 1
    → hits q acked ≡ 1
ended_flush q {place} {h} {h'} {given} {acked} {wire} here r t e once =
    flush_acknowledged q (subst (λ p. Channel.History.Reach p h given acked) here r) t
      (subst (λ p. Channel.turn p h t ≡ goes running h' wire) here e) once

-- When a flush of the sender comes to its end, and no two of the buffers that its queue handed over have
-- the same sequence, the receiver has handed exactly these buffers to its own queue, in the same order.
pub flush_delivered :
    {l : Link} {taken : List TupleBuffer} {acked : List Sequence} {delivered : List TupleBuffer}
    → Reach l taken acked delivered
    → l.place ≡ flushing
    → (t : Channel.Turn) {h : ChannelHandler} {wire : List DataChannelRequest}
    → Channel.turn l.place l.sender t ≡ goes running h wire
    → ((b : TupleBuffer) → Mem b taken → occurrences (sequence b) taken ≡ 1)
    → delivered ≡ taken
flush_delivered {l} {taken} {acked} {delivered} r here t {h} {wire} e once =
    let v = Reach-Inv r in
    let s = Reach-Side r in
    full (Sublistᴰ.trans (prefix delivered (on_the_way l)) v.kept) (λ b m.
      let q = sequence b in
      omega (arith, v.counted q, once b m, ended_flush q here s.reached t e (s.same q ∙ once b m)))
