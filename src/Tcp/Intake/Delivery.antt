-- ===== src/Tcp/Intake/Delivery.antt =====
-- Acknowledgments follow deliveries, and deliveries follow what was read.
use mathlib.Core.List.{append_assoc, append-nil}
use bdspro_udp_v.Common.{
  subst, sym, ◌∙◌, Bool, List, Option, [], ap, false, inl, inr, map, nat_eq, none, refl, some,
  string_eq, true, ◌++◌, ◌∷◌, ◌≡◌, ◌⊎◌,
}
use bdspro_udp_v.Tcp.Protocol.{
  TupleBuffer, Sequence, sequence, DataChannelRequest, tuples, DataChannelResponse, ack_data,
  nack_data,
}
use bdspro_udp_v.Tcp.Dispatcher.{Ran, cut, ran}
use bdspro_udp_v.Tcp.Intake.{
  run, prepend, After, goes, stops, acknowledge, refuse, deliver, Item, ended, broken, got, take_in,
  Turn, then_take_in, turn,
}

-- The acknowledged sequences, in order.
abbrev pub acks : List DataChannelResponse → List Sequence
acks [] = []
acks (ack_data q ∷ rs) = q ∷ acks rs
acks (nack_data q ∷ rs) = acks rs
acks (DataChannelResponse.close ∷ rs) = acks rs

abbrev pub waiting : Option TupleBuffer → List TupleBuffer
waiting none = []
waiting (some b) = b ∷ []

-- The buffers that the reader yielded, by a turn that comes to read and by the loop.
abbrev pub read : Ran Item → List TupleBuffer
read (ran (got (tuples b))) = b ∷ []
read _ = []

unfoldable pub reads : Option TupleBuffer → List Turn → List TupleBuffer
reads pending [] = []
reads pending (t ∷ ts) = elim (turn pending t) [
  | goes pending' done wire ↦ read t.request ++ reads pending' ts
  | stops end done wire ↦ []
]

-- While the loop goes on, the delivered buffers are those acknowledged, and with the pending one they are
-- those that were there and those that were read. When it has ended, at most the last delivery is not
-- acknowledged, and at most the last buffer is not delivered.
abbrev pub InOrder : List TupleBuffer → After → Type 0
InOrder all (goes pending done wire) =
    (acks wire ≡ map sequence done) × (done ++ waiting pending ≡ all)
InOrder all (stops end done wire) =
    ((acks wire ≡ map sequence done)
      ⊎ ((b : TupleBuffer) × (acks wire ++ sequence b ∷ [] ≡ map sequence done)))
    × ((done ≡ all) ⊎ ((b : TupleBuffer) × (done ++ b ∷ [] ≡ all)))

pub acks-append : (xs ys : List DataChannelResponse) → acks (xs ++ ys) ≡ acks xs ++ acks ys
acks-append [] ys = refl
acks-append (ack_data q ∷ xs) ys = ap (◌∷◌ q) (acks-append xs ys)
acks-append (nack_data q ∷ xs) ys = acks-append xs ys
acks-append (DataChannelResponse.close ∷ xs) ys = acks-append xs ys

map-append :
    (xs ys : List TupleBuffer) → map sequence (xs ++ ys) ≡ map sequence xs ++ map sequence ys
map-append [] ys = refl
map-append (x ∷ xs) ys = ap (◌∷◌ (sequence x)) (map-append xs ys)

-- A turn that goes on has delivered what was pending, and what it read is pending.
abbrev TurnInOrder : Option TupleBuffer → Ran Item → After → Type 0
TurnInOrder pending request (goes pending' done wire) =
    (acks wire ≡ map sequence done) × (done ≡ waiting pending) × (waiting pending' ≡ read request)
TurnInOrder pending request (stops end done wire) = InOrder (waiting pending) (stops end done wire)

turn-InOrder :
    (pending : Option TupleBuffer) (t : Turn) → TurnInOrder pending t.request (turn pending t)
unfolding turn deliver then_take_in acknowledge refuse take_in
turn-InOrder pending t = by_answers pending t.queued t.written t.request
  where
    by_request :
        (p : Option TupleBuffer) (done : List TupleBuffer) (wire : List DataChannelResponse)
        (request : Ran Item)
        → acks wire ≡ map sequence done
        → done ≡ waiting p
        → TurnInOrder p request (take_in request done wire)
    by_request p done wire cut h e = (inl h, inl e)
    by_request p done wire (ran ended) h e = (inl h, inl e)
    by_request p done wire (ran broken) h e = (inl h, inl e)
    by_request p done wire (ran (got (tuples b))) h e = (h, e, refl)
    by_request p done wire (ran (got DataChannelRequest.close)) h e = (inl h, inl e)

    by_answers :
        (p : Option TupleBuffer) (q w : Ran Bool) (request : Ran Item)
        → TurnInOrder p request (then_take_in request (deliver p q w))
    by_answers none q w request = by_request none [] [] request refl refl
    by_answers (some b) cut w request = (inl refl, inr (b, refl))
    by_answers (some b) (ran true) cut request = (inr (b, refl), inl refl)
    by_answers (some b) (ran true) (ran false) request = (inr (b, refl), inl refl)
    by_answers (some b) (ran true) (ran true) request =
        by_request (some b) (b ∷ []) (ack_data (sequence b) ∷ []) request refl refl
    by_answers (some b) (ran false) cut request = (inl refl, inr (b, refl))
    by_answers (some b) (ran false) (ran false) request = (inl refl, inr (b, refl))
    by_answers (some b) (ran false) (ran true) request = (inl refl, inr (b, refl))

prepend-InOrder :
    (done all : List TupleBuffer) (wire : List DataChannelResponse) (later : After)
    → acks wire ≡ map sequence done
    → InOrder all later
    → InOrder (done ++ all) (prepend done wire later)
unfolding prepend
prepend-InOrder done all wire (goes pending more answers) h (acked, kept) = (
  acks-append wire answers ∙ rw (h, acked) (sym (map-append done more)),
  append_assoc done more (waiting pending) ∙ ap (◌++◌ done) kept,
)
prepend-InOrder done all wire (stops end more answers) h (acked, kept) = (
  elim acked [
    | inl same ↦ inl (acks-append wire answers ∙ rw (h, same) (sym (map-append done more)))
    | inr (b, same) ↦ inr (
      b,
      ap (λ l. l ++ sequence b ∷ []) (acks-append wire answers)
          ∙ append_assoc (acks wire) (acks answers) (sequence b ∷ [])
          ∙ rw (h, same) (sym (map-append done more)),
    )
  ],
  elim kept [
    | inl same ↦ inl (ap (◌++◌ done) same)
    | inr (b, same) ↦ inr (b, append_assoc done more (b ∷ []) ∙ ap (◌++◌ done) same)
  ],
)

run_from-InOrder :
    (ts : List Turn) (pending : Option TupleBuffer)
    → InOrder (waiting pending ++ reads pending ts) (run pending ts)
unfolding run reads
run_from-InOrder [] pending = (refl, sym (append-nil (waiting pending)))
run_from-InOrder (t ∷ ts) pending =
    by_turn (turn pending t) (turn-InOrder pending t) (λ pending'. run_from-InOrder ts pending')
  where
    by_turn :
        (f : After)
        → TurnInOrder pending t.request f
        → ((pending' : Option TupleBuffer)
            → InOrder (waiting pending' ++ reads pending' ts) (run pending' ts))
        → InOrder
            (waiting pending ++ elim f [
              | goes pending' done wire ↦ read t.request ++ reads pending' ts
              | stops end done wire ↦ []
            ])
            (elim f [
              | goes pending' done wire ↦ prepend done wire (run pending' ts)
              | stops end done wire ↦ stops end done wire
            ])
    by_turn (goes pending' done wire) (acked, given, taken) later =
        rw (← given, ← taken)
          (prepend-InOrder done (waiting pending' ++ reads pending' ts) wire (run pending' ts) acked
            (later pending'))
    by_turn (stops end done wire) h later =
        subst (λ all. InOrder all (stops end done wire)) (sym (append-nil (waiting pending))) h

-- Over any run of the handler of a channel, the buffers are handed to the queue in the order in which they
-- were read, and their acknowledgments are written in that order, after they were handed over: while the
-- handler goes on only the pending buffer is not delivered and every delivery is acknowledged; when
-- it has ended, at most the last buffer read is not delivered, and at most the last delivery is not
-- acknowledged.
pub run-InOrder : (ts : List Turn) → InOrder (reads none ts) (run none ts)
run-InOrder ts = run_from-InOrder ts none
