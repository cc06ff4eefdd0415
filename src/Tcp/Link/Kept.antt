-- ===== src/Tcp/Link/Kept.antt =====
-- What a link of the two handlers of network/src keeps: the order of the buffers, and an acknowledgment
-- for what was handed over only.
use mathlib.Core.List.Sublistᴰ
use mathlib.Core.List.{Sublistᴰ, append_assoc}
use bdspro_udp_v.Common.{
  All, All-append, List, Option, [], ap, arith, nat_eq, string_eq, subst, sym, ◌++◌, ◌+◌, ◌∙◌, ◌∷◌,
  ◌≡◌, ◌≤◌,
}
use bdspro_udp_v.Tcp.Protocol.{
  TupleBuffer, Sequence, DataChannelRequest, DataChannelResponse, sequence_eq,
}
use bdspro_udp_v.Tcp.Channel
use bdspro_udp_v.Tcp.Channel.{ChannelHandler, flushing, running, goes}
use bdspro_udp_v.Common.{
  All, All-append, Bool, List, Option, [], ap, arith, nat_eq, string_eq, subst, sym, ◌++◌, ◌+◌, ◌∙◌,
  ◌∷◌, ◌≡◌, ◌≤◌,
}
use bdspro_udp_v.Tcp.Dispatcher.{Ran}
use bdspro_udp_v.Tcp.Intake.{deliver, take_in, Item}
use bdspro_udp_v.Tcp.Intake.Delivery.{acks, acks-append, waiting}
use bdspro_udp_v.Tcp.Channel.History.{
  hits, occurrences, occurrences-append, accepted, acknowledged_in,
}
use bdspro_udp_v.Tcp.Link.{
  Link, Reach, start, sends, delivers, reads, serving, reading, heard, asked, opened,
  after_delivery, after_request, handed, answered,
}
use bdspro_udp_v.Tcp.Link.Sending.{
  buffers, buffers-append, IsRefusal, Moves, turn-Moves, acknowledged_in-heard,
}
use bdspro_udp_v.Tcp.Link.Receiving.{
  held, hits-append, deliver_lem, take_in_lem, held-after_delivery,
}

-- What was accepted and may still come to the receiver's queue, after what has.
abbrev pub on_the_way : Link → List TupleBuffer
on_the_way l = held l.peer ++ buffers l.requests ++ l.sender.pending_writes

pub record Inv (l : Link) (taken : List TupleBuffer) (acked : List Sequence)
    (delivered : List TupleBuffer) : Type 0 where
  pub kept : Sublistᴰ (delivered ++ on_the_way l) taken
  pub counted : (q : Sequence) → hits q acked + hits q (acks l.responses) ≤ occurrences q delivered
  pub polite : All (λ r. ¬ IsRefusal r) l.responses

All-split :
    (P : DataChannelResponse → Type 0) (xs ys : List DataChannelResponse)
    → All P (xs ++ ys)
    → All P xs × All P ys
All-split P [] ys h = (tt, h)
All-split P (x ∷ xs) ys (first, h) =
    let (left, right) = All-split P xs ys h in ((first, left), right)

regroup : (done xs ys zs : List TupleBuffer) → (done ++ xs) ++ (ys ++ zs) ≡ done ++ (xs ++ ys ++ zs)
regroup done xs ys zs =
    append_assoc done xs (ys ++ zs) ∙ ap (◌++◌ done) (sym (append_assoc xs ys zs))

-- What is written goes behind what was.
slide :
    (done xs ys zs from more taken : List TupleBuffer)
    → Sublistᴰ (ys ++ zs) (from ++ more)
    → Sublistᴰ (done ++ (xs ++ from)) taken
    → Sublistᴰ (done ++ (xs ++ ys ++ zs)) (taken ++ more)
slide done xs ys zs from more taken moved kept = rw (append_assoc xs ys zs) (
    Sublistᴰ.trans (Sublistᴰ.append (Sublistᴰ.refl done) (Sublistᴰ.append (Sublistᴰ.refl xs) moved))
      (subst (λ bs. Sublistᴰ bs (taken ++ more))
        (append_assoc done (xs ++ from) more ∙ ap (◌++◌ done) (append_assoc xs from more))
        (Sublistᴰ.append kept (Sublistᴰ.refl more))))

start-Inv : Inv opened [] [] []
unfolding hits
start-Inv = record { kept = Sublistᴰ.slnil; counted = λ q. omega arith; polite = tt }

module _ {l : Link} {taken : List TupleBuffer} {acked : List Sequence}
    {delivered : List TupleBuffer} (v : Inv l taken acked delivered) where
  sends-Inv :
      (t : Channel.Turn) {place : Channel.Place} {h : ChannelHandler}
      {wire : List DataChannelRequest} (responses : List DataChannelResponse)
      → l.responses ≡ heard l.place l.sender t.pick ++ responses
      → Channel.turn l.place l.sender t ≡ goes place h wire
      → Inv
          (record l {
            place = place;
            sender = h;
            requests = l.requests ++ wire;
            responses = responses;
          })
          (taken ++ accepted l.place t.pick)
          (acknowledged_in l.place l.sender t.pick ++ acked)
          delivered
  sends-Inv t {place} {h} {wire} responses read e =
      let (polite, rest) =
        All-split (λ r. ¬ IsRefusal r) (heard l.place l.sender t.pick) responses
          (subst (All (λ r. ¬ IsRefusal r)) read v.polite) in
      let moved =
        subst (Moves (l.sender.pending_writes ++ accepted l.place t.pick)) e
          (turn-Moves l.place l.sender t polite) in
      record {
        kept =
            rw
              (
                buffers-append l.requests wire,
                ← append_assoc (held l.peer) (buffers l.requests) (buffers wire),
              )
              (slide delivered (held l.peer ++ buffers l.requests) (buffers wire) h.pending_writes
                l.sender.pending_writes (accepted l.place t.pick) taken moved v.kept);
        counted = λ q. omega (
          arith,
          v.counted q,
          hits-append q (acks (heard l.place l.sender t.pick)) (acks responses),
          hits-append q (acknowledged_in l.place l.sender t.pick) acked,
          ap (hits q) (acknowledged_in-heard l.place l.sender t.pick),
          ap (λ rs. hits q (acks rs)) read,
          ap (hits q) (acks-append (heard l.place l.sender t.pick) responses),
        );
        polite = rest;
      }

  delivers-Inv :
      (pending : Option TupleBuffer) (queued written : Ran Bool)
      → l.peer ≡ serving pending
      → Inv
          (record l {
            peer = after_delivery (deliver pending queued written);
            responses = l.responses ++ answered (deliver pending queued written);
          })
          taken
          acked
          (delivered ++ handed (deliver pending queued written))
  delivers-Inv pending queued written here =
      let a = deliver pending queued written in
      let (given, counted, civil) = deliver_lem pending queued written in
      let rest = buffers l.requests ++ l.sender.pending_writes in
      record {
        kept = rw (held-after_delivery a) (
            Sublistᴰ.trans
              (Sublistᴰ.append (Sublistᴰ.append (Sublistᴰ.refl delivered) given)
                (Sublistᴰ.refl rest))
              (subst (λ bs. Sublistᴰ bs taken)
                (sym (
                  regroup delivered (waiting pending) (buffers l.requests) l.sender.pending_writes))
                (rw here at v.kept)));
        counted = λ q. omega (
          arith,
          v.counted q,
          hits-append q (acks l.responses) (acks (answered a)),
          counted q,
          ap (hits q) (acks-append l.responses (answered a)),
          occurrences-append q delivered (handed a),
        );
        polite = All-append (λ r. ¬ IsRefusal r) l.responses (answered a) v.polite civil;
      }

  reads-Inv :
      (request : Ran Item) (requests : List DataChannelRequest)
      → l.peer ≡ reading
      → l.requests ≡ asked request ++ requests
      → Inv
          (record l { requests = requests; peer = after_request (take_in request [] []) })
          taken
          acked
          delivered
  reads-Inv request requests here read = record {
    kept =
        Sublistᴰ.trans
          (Sublistᴰ.append (Sublistᴰ.refl delivered) (
            Sublistᴰ.append
              (Sublistᴰ.append (take_in_lem request) (Sublistᴰ.refl (buffers requests)))
              (Sublistᴰ.refl l.sender.pending_writes)))
          (rw (here, read, buffers-append (asked request) requests) at v.kept);
    counted = v.counted;
    polite = v.polite;
  }

pub Reach-Inv :
    {l : Link} {taken : List TupleBuffer} {acked : List Sequence} {delivered : List TupleBuffer}
    → Reach l taken acked delivered
    → Inv l taken acked delivered
Reach-Inv start = start-Inv
Reach-Inv (sends r t responses read e) = sends-Inv (Reach-Inv r) t responses read e
Reach-Inv (delivers r pending queued written here) =
    delivers-Inv (Reach-Inv r) pending queued written here
Reach-Inv (reads r request requests here read) = reads-Inv (Reach-Inv r) request requests here read
