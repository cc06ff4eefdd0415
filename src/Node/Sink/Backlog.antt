-- ===== src/Node/Sink/Backlog.antt =====
-- What becomes of the backlog.
use bdspro_udp_v.Common.{
  Option, Bool, Bool-cases, List, [], ap, false, inl, inr, nat_eq, refl, string_eq, subst, sym,
  true, ℕ, ◌++◌, ◌+◌, ◌∙◌, ◌∷◌, ◌≡◌, ◌⊎◌,
}
use mathlib.Core.List.{append_assoc, append-nil}
use bdspro_udp_v.Tcp.Protocol.{TupleBuffer}
use bdspro_udp_v.Node.Sink.{
  NetworkSink, TrySend, taken, full, shut, Call, goes, returns, panics, drain, send_backlog,
  send_last, after_backlog, setup, execute,
}

-- The loop ends with the sink empty and everything sent, or returns with what is left; nothing changes
-- its order.
abbrev Drained : List TupleBuffer → Call → Type 0
Drained all (goes s sent) = (s.backlog ≡ []) × (sent ≡ all)
Drained all (returns s sent) = sent ++ s.backlog ≡ all
Drained all (panics sent) = Unit

drain-Drained :
    (s : NetworkSink) (answer : ℕ → TrySend) (i : ℕ) (sent bs : List TupleBuffer)
    → Drained (sent ++ bs) (drain s answer i sent bs)
unfolding drain
drain-Drained s answer i sent [] = (refl, sym (append-nil sent))
drain-Drained s answer i sent (front ∷ rest) = by_answer (answer i) (
    subst (λ all. Drained all (drain s answer (i + 1) (sent ++ front ∷ []) rest))
      (append_assoc sent (front ∷ []) rest)
      (drain-Drained s answer (i + 1) (sent ++ front ∷ []) rest))
  where
    by_answer :
        (a : TrySend)
        → Drained (sent ++ front ∷ rest) (drain s answer (i + 1) (sent ++ front ∷ []) rest)
        → Drained (sent ++ front ∷ rest) (elim a [
          | taken ↦ drain s answer (i + 1) (sent ++ front ∷ []) rest
          | full ↦ returns (record s { backlog = front ∷ rest }) sent
          | shut ↦ panics sent
        ])
    by_answer taken later = later
    by_answer full later = refl
    by_answer shut later = tt

-- What a call that returns leaves behind.
abbrev pub Accounts : List TupleBuffer → TupleBuffer → Call → Type 0
Accounts backlog b (goes s sent) = ⊥
Accounts backlog b (returns s sent) =
    (s.closed ≡ true)
    ⊎ ((sent ++ s.backlog ≡ backlog ++ b ∷ []) ⊎ (sent ++ s.backlog ≡ backlog ++ b ∷ b ∷ []))
Accounts backlog b (panics sent) = Unit

send_last-Accounts :
    (s : NetworkSink) (sent backlog : List TupleBuffer) (b : TupleBuffer) (last : TrySend)
    → s.backlog ≡ []
    → (sent ≡ backlog) ⊎ (sent ≡ backlog ++ b ∷ [])
    → Accounts backlog b (send_last s sent b last)
unfolding send_last
send_last-Accounts s sent backlog b shut e h = inl refl
send_last-Accounts s sent backlog b taken e h = inr (elim h [
  | inl once ↦ inl (rw (e, once) (append-nil (backlog ++ b ∷ [])))
  | inr twice ↦ inr (
      rw (e, twice)
        (append-nil ((backlog ++ b ∷ []) ++ b ∷ []) ∙ append_assoc backlog (b ∷ []) (b ∷ [])))
])
send_last-Accounts s sent backlog b full e h = inr (elim h [
  | inl once ↦ inl (rw (e, once) refl)
  | inr twice ↦ inr (rw (e, twice) (append_assoc backlog (b ∷ []) (b ∷ [])))
])

after_backlog-Accounts :
    (s : NetworkSink) (b : TupleBuffer) (answer : ℕ → TrySend) (last : TrySend)
    → Accounts s.backlog b (after_backlog b last (send_backlog s b answer))
unfolding after_backlog send_backlog
after_backlog-Accounts s b answer last = by_list s.backlog
  where
    by_call :
        (all : List TupleBuffer) (call : Call)
        → Drained (all ++ b ∷ []) call
        → Accounts all b (after_backlog b last call)
    by_call all (goes t sent) h = send_last-Accounts t sent all b last h.0 (inr h.1)
    by_call all (returns t sent) h = inr (inl h)
    by_call all (panics sent) h = tt

    by_list :
        (bs : List TupleBuffer)
        → Accounts bs b (after_backlog b last (send_backlog (record s { backlog = bs }) b answer))
    by_list [] = send_last-Accounts (record s { backlog = [] }) [] [] b last refl (inl refl)
    by_list (front ∷ rest) =
        by_call (front ∷ rest) _
          (drain-Drained (record s { backlog = front ∷ rest }) answer 0 [] (front ∷ rest ++ b ∷ []))

-- A call of an open sink that returns with the sink still open has lost nothing and kept the order: what
-- the queue took and then the backlog are the old backlog and then the message, once or twice.
pub execute-Accounts :
    (s : NetworkSink) (b : TupleBuffer) (registered : Bool) (answer : ℕ → TrySend) (last : TrySend)
    → s.closed ≡ false
    → Accounts s.backlog b (execute s b registered answer last)
unfolding execute setup
execute-Accounts s b registered answer last is_open = elim (Bool-cases s.has_queue) [
  | inl e ↦
      rw (is_open, e)
        (after_backlog-Accounts (record s { has_queue = true; closed = false }) b answer last)
  | inr e ↦ elim (Bool-cases registered) [
    | inl r ↦
        rw (is_open, e, r)
          (after_backlog-Accounts (record s { has_queue = true; closed = false }) b answer last)
    | inr r ↦ rw (is_open, e, r) tt
  ]
]

drain_all :
    (s : NetworkSink) (i : ℕ) (sent bs : List TupleBuffer)
    → drain s (λ _. taken) i sent bs ≡ goes (record s { backlog = [] }) (sent ++ bs)
unfolding drain
drain_all s i sent [] = ap (goes (record s { backlog = [] })) (sym (append-nil sent))
drain_all s i sent (front ∷ rest) =
    drain_all s (i + 1) (sent ++ front ∷ []) rest
    ∙ ap (goes (record s { backlog = [] })) (append_assoc sent (front ∷ []) rest)

abbrev pub open_sink : Option Bool → List TupleBuffer → NetworkSink
open_sink should_close backlog = record {
  has_queue = true;
  backlog = backlog;
  should_close = should_close;
  closed = false;
}

-- When the queue takes everything, an open sink that has a backlog hands the message over twice.
pub backlog_repeats :
    (should_close : Option Bool) (b front : TupleBuffer) (rest : List TupleBuffer)
    → execute (open_sink should_close (front ∷ rest)) b true (λ _. taken) taken
      ≡ returns (open_sink should_close []) (front ∷ rest ++ b ∷ b ∷ [])
unfolding execute setup send_backlog after_backlog send_last
backlog_repeats should_close b front rest =
    let all = front ∷ rest ++ b ∷ [] in
    ap (after_backlog b taken) (drain_all (open_sink should_close (front ∷ rest)) 0 [] all)
    ∙ ap (returns (open_sink should_close [])) (append_assoc (front ∷ rest) (b ∷ []) (b ∷ []))
