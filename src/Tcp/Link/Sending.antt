-- ===== src/Tcp/Link/Sending.antt =====
-- The sender's turns, by the buffers that they move to the connection, where no refusal is heard.
use mathlib.Core.List.{append-nil}
use mathlib.Core.List.Sublistᴰ
use mathlib.Core.List.{Sublistᴰ}
use bdspro_udp_v.Common.{
  All, Bool, Bool-cases, List, Option, [], ap, false, inl, inr, nat_eq, none, refl, some, string_eq,
  true, ◌++◌, ◌∷◌, ◌≡◌,
}
use bdspro_udp_v.Tcp.Protocol.{
  TupleBuffer, DataChannelRequest, tuples, DataChannelResponse, sequence_eq, ack_data, nack_data,
}
use bdspro_udp_v.Tcp.Channel.{
  ChannelHandler, Place, running, flushing, Pick, response, request, sent, token, Item, got, ended,
  broken, is_drained, goes, stops, After, turn, Turn, Feed, fed, refused, dropped, send_pending,
  holds_back, begun, send_turn, run_turn, flush_turn, flush_body, on_item, on_request,
  handle_request, ChannelControlMessage, buffer, flush, terminate, after,
}
use bdspro_udp_v.Tcp.Channel.Cases.{on_item_cases}
use bdspro_udp_v.Tcp.Channel.History.{accepted, acknowledged, acknowledged_in}
use bdspro_udp_v.Tcp.Intake.Delivery.{acks}
use bdspro_udp_v.Tcp.Link.{picked, heard}

-- The buffers among the requests.
abbrev pub buffers : List DataChannelRequest → List TupleBuffer
buffers [] = []
buffers (tuples b ∷ rs) = b ∷ buffers rs
buffers (DataChannelRequest.close ∷ rs) = buffers rs

pub buffers-append :
    (xs ys : List DataChannelRequest) → buffers (xs ++ ys) ≡ buffers xs ++ buffers ys
buffers-append [] ys = refl
buffers-append (tuples b ∷ xs) ys = ap (◌∷◌ b) (buffers-append xs ys)
buffers-append (DataChannelRequest.close ∷ xs) ys = buffers-append xs ys

abbrev pub IsRefusal : DataChannelResponse → Type 0
IsRefusal (nack_data seq) = Unit
IsRefusal _ = ⊥

-- What a turn leaves on the wire and in the handler comes, in its order, from what was there.
abbrev pub Moves : List TupleBuffer → After → Type 0
Moves from (goes place h wire) = Sublistᴰ (buffers wire ++ h.pending_writes) from
Moves from (stops e wire) = Unit

send_pending-Moves :
    (h : ChannelHandler) (answer : Feed)
    → Sublistᴰ
        (buffers (send_pending h answer).1 ++ (send_pending h answer).0.pending_writes)
        h.pending_writes
unfolding send_pending
send_pending-Moves h answer = by_list h.pending_writes refl answer
  where
    by_list :
        (bs : List TupleBuffer)
        → h.pending_writes ≡ bs
        → (f : Feed)
        → Sublistᴰ
            (buffers (send_pending h f).1 ++ (send_pending h f).0.pending_writes)
            h.pending_writes
    by_list [] e f = rw e (Sublistᴰ.refl [])
    by_list (b ∷ rest) e fed = rw e (Sublistᴰ.refl (b ∷ rest))
    by_list (b ∷ rest) e refused = rw e (Sublistᴰ.refl (b ∷ rest))
    by_list (b ∷ rest) e dropped = rw e (Sublistᴰ.cons (Sublistᴰ.refl rest))

later : (xs ys : List TupleBuffer) {zs : List TupleBuffer} → Sublistᴰ (xs ++ ys) zs → Sublistᴰ ys zs
later xs ys s = Sublistᴰ.trans (Sublistᴰ.append (Sublistᴰ.nil-sublist xs) (Sublistᴰ.refl ys)) s

begun-Moves :
    (h : ChannelHandler) (cut : Bool) → Sublistᴰ (begun h cut).pending_writes h.pending_writes
unfolding begun
begun-Moves h false = Sublistᴰ.refl h.pending_writes
begun-Moves h true = elim (Bool-cases (holds_back h)) [
  | inl full ↦ rw full (Sublistᴰ.refl h.pending_writes)
  | inr room ↦ rw room (later (buffers (send_pending h dropped).1) _ (send_pending-Moves h dropped))
]

send_turn-Moves :
    (place : Place) (h : ChannelHandler) (answer : Feed)
    → Moves h.pending_writes (send_turn place h answer)
unfolding send_turn
send_turn-Moves place h answer = elim (Bool-cases (holds_back h)) [
  | inl full ↦ rw full (Sublistᴰ.refl h.pending_writes)
  | inr room ↦ rw room (send_pending-Moves h answer)
]

on_item-Moves :
    (place : Place) (h : ChannelHandler) (item : Item)
    → ((r : DataChannelResponse) → item ≡ got r → ¬ IsRefusal r)
    → Moves h.pending_writes (after place [] (on_item h item))
on_item-Moves place h item kind =
    on_item_cases (λ r. Moves h.pending_writes (after place [] r)) h item (λ _. tt)
      (λ seq write is _. absurd (kind (nack_data seq) is tt))
      (λ seq write is _. Sublistᴰ.refl h.pending_writes)

on_request-Moves :
    (h : ChannelHandler) (cut : Bool) (message : Option ChannelControlMessage)
    → Moves (h.pending_writes ++ accepted running (request cut message)) (on_request h message)
unfolding on_request handle_request
on_request-Moves h cut none = tt
on_request-Moves h cut (some (buffer b)) = Sublistᴰ.refl (h.pending_writes ++ b ∷ [])
on_request-Moves h cut (some flush) =
    rw (append-nil h.pending_writes) (Sublistᴰ.refl h.pending_writes)
on_request-Moves h cut (some terminate) = tt

Moves-begun :
    (h : ChannelHandler) (cut : Bool) (more : List TupleBuffer) (a : After)
    → Moves ((begun h cut).pending_writes ++ more) a
    → Moves (h.pending_writes ++ more) a
Moves-begun h cut more (goes place h' wire) s =
    Sublistᴰ.trans s (Sublistᴰ.append (begun-Moves h cut) (Sublistᴰ.refl more))
Moves-begun h cut more (stops e wire) s = tt

allowed :
    (cut : Bool) (item : Item)
    → All (λ r. ¬ IsRefusal r) (picked (response cut item))
    → (r : DataChannelResponse) → item ≡ got r
    → ¬ IsRefusal r
allowed cut item kind r is = (rw is at kind).0

picked-acks : (pick : Pick) → acknowledged pick ≡ acks (picked pick)
picked-acks (response cut (got (ack_data seq))) = refl
picked-acks (response cut (got (nack_data seq))) = refl
picked-acks (response cut (got DataChannelResponse.close)) = refl
picked-acks (response cut ended) = refl
picked-acks (response cut broken) = refl
picked-acks (request cut message) = refl
picked-acks (token cut) = refl
picked-acks (sent answer) = refl

-- A turn that hears no refusal.
pub turn-Moves :
    (place : Place) (h : ChannelHandler) (t : Turn)
    → All (λ r. ¬ IsRefusal r) (heard place h t.pick)
    → Moves (h.pending_writes ++ accepted place t.pick) (turn place h t)
unfolding turn run_turn flush_turn flush_body heard
turn-Moves running h t kind = by_pick t.is_cancelled t.pick kind
  where
    by_pick :
        (c : Bool) (p : Pick)
        → All (λ r. ¬ IsRefusal r) (picked p)
        → Moves (h.pending_writes ++ accepted running p) (run_turn h c p)
    by_pick true p kind = tt
    by_pick false (token cut) kind = tt
    by_pick false (response cut item) kind =
        Moves-begun h cut [] (after running [] (on_item (begun h cut) item)) (
          rw (append-nil (begun h cut).pending_writes)
            (on_item-Moves running (begun h cut) item (allowed cut item kind)))
    by_pick false (request cut message) kind =
        Moves-begun h cut (accepted running (request cut message))
          (on_request (begun h cut) message) (on_request-Moves (begun h cut) cut message)
    by_pick false (sent answer) kind =
        rw (append-nil h.pending_writes) (send_turn-Moves running h answer)
turn-Moves flushing h t kind = elim (Bool-cases (is_drained h)) [
  | inl e ↦ rw (e, append-nil h.pending_writes) (Sublistᴰ.refl h.pending_writes)
  | inr e ↦ rw e (by_pick t.wrote t.is_cancelled t.pick (rw e at kind))
]
  where
    by_pick :
        (w c : Bool) (p : Pick)
        → All (λ r. ¬ IsRefusal r) (picked p)
        → Moves (h.pending_writes ++ accepted flushing p) (flush_body h w c p)
    by_pick false c p kind = tt
    by_pick true true p kind = tt
    by_pick true false (token cut) kind = tt
    by_pick true false (response cut item) kind =
        Moves-begun h cut [] (after flushing [] (on_item (begun h cut) item)) (
          rw (append-nil (begun h cut).pending_writes)
            (on_item-Moves flushing (begun h cut) item (allowed cut item kind)))
    by_pick true false (request cut message) kind =
        rw (append-nil h.pending_writes) (Sublistᴰ.refl h.pending_writes)
    by_pick true false (sent answer) kind =
        rw (append-nil h.pending_writes) (send_turn-Moves flushing h answer)

-- The acknowledgment that a turn takes is the one that it hears.
pub acknowledged_in-heard :
    (place : Place) (h : ChannelHandler) (pick : Pick)
    → acknowledged_in place h pick ≡ acks (heard place h pick)
unfolding acknowledged_in heard
acknowledged_in-heard running h pick = picked-acks pick
acknowledged_in-heard flushing h pick = elim (Bool-cases (is_drained h)) [
  | inl e ↦ rw e refl
  | inr e ↦ rw e (picked-acks pick)
]
