-- ===== src/Tcp/Link/Side.antt =====
-- The sender of a link, `channel_handler` of network/src/sender.rs, has a history of its own.

use bdspro_udp_v.Common.{List, [], arith, nat_eq, refl, string_eq, ◌++◌, ◌≡◌}
use bdspro_udp_v.Tcp.Protocol.{TupleBuffer, Sequence, sequence_eq}
use bdspro_udp_v.Tcp.Channel
use bdspro_udp_v.Tcp.Channel.{ChannelHandler, flushing, running, goes}
use bdspro_udp_v.Common.{List, [], arith, nat_eq, refl, string_eq, ◌++◌, ◌≡◌}
use bdspro_udp_v.Tcp.Channel.History.{
  hits, occurrences, occurrences-append, accepted, acknowledged_in,
}
use bdspro_udp_v.Tcp.Link.{Link, Reach, start, sends, delivers, reads}

-- The sender's own history, which keeps what it took with the last one first.
pub record Side (l : Link) (taken : List TupleBuffer) (acked : List Sequence) : Type 0 where
  pub given : List TupleBuffer
  pub same : (q : Sequence) → occurrences q given ≡ occurrences q taken
  pub reached : Channel.History.Reach l.place l.sender given acked

pub Reach-Side :
    {l : Link} {taken : List TupleBuffer} {acked : List Sequence} {delivered : List TupleBuffer}
    → Reach l taken acked delivered
    → Side l taken acked
Reach-Side start = record { given = []; same = λ q. refl; reached = Channel.History.start }
Reach-Side (sends {l} {taken} r t responses read e) =
    let s = Reach-Side r in
    record {
      given = accepted l.place t.pick ++ s.given;
      same = λ q. omega (
        arith,
        s.same q,
        occurrences-append q (accepted l.place t.pick) s.given,
        occurrences-append q taken (accepted l.place t.pick),
      );
      reached = Channel.History.next s.reached t e;
    }
Reach-Side (delivers r pending queued written here) =
    let s = Reach-Side r in record { given = s.given; same = s.same; reached = s.reached }
Reach-Side (reads r request requests here read) =
    let s = Reach-Side r in record { given = s.given; same = s.same; reached = s.reached }
