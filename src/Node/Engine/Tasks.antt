-- ===== src/Node/Engine/Tasks.antt =====
-- The tasks of the engine, from the push that the queue accepts to the worker.
use mathlib.Core.List.{append_assoc, append-nil}
use bdspro_udp_v.Common.{
  Bool-cases, List, Option, Option-cases, [], arith, false, if◌then◌else◌, inl, inr, length,
  length-append, ltb, nat_eq, none, refl, some, string_eq, subst, sym, ℕ, ◌++◌, ◌↔◌, ◌∙◌, ◌∷◌, ◌≡◌,
  ◌≤◌,
}
use bdspro_udp_v.HashMap
use bdspro_udp_v.Tcp.Protocol.{TupleBuffer}
use bdspro_udp_v.Node.ArrayQueue.{ArrayQueue}
use bdspro_udp_v.Node.Engine.{
  Node, pipeline, successor, Query, Task, compute, QueryEngine, EmitFn, default, start_query,
  stop_query, emit_fn, emit, emit_all, work, work_on,
}

abbrev one : Option Task → List Task
one none = []
one (some task) = task ∷ []

module _ {Q : Type 0} ⦃array : ArrayQueue Q Task⦄ where
  -- What the queue accepts of a push, and of all that a pipeline emits.
  abbrev pub accepted : Q → Task → List Task
  accepted q task = if (array.push q task).0 then task ∷ [] else []

  abbrev pub accepted_all : ℕ → Option Node → Q → List TupleBuffer → List Task
  accepted_all id next q [] = []
  accepted_all id none q (b ∷ bs) = accepted_all id none q bs
  accepted_all id (some next) q (b ∷ bs) =
      accepted q (compute id b next)
      ++ accepted_all id (some next) (array.push q (compute id b next)).1 bs

  module _ {P : Type 0} (execute : ℕ → P → TupleBuffer → P × List TupleBuffer) where
    abbrev pub accepted_by : P → Q → Option Task → List Task
    accepted_by p q none = []
    accepted_by p q (some (compute id input n)) =
        accepted_all id (successor n) q (execute (pipeline n) p input).1

    -- The states of the engine and of the pipelines, with the tasks that the queue accepted and those that
    -- the worker took.
    pub data Reach : QueryEngine Q → P → List Task → List Task → Type 0 where
      begins : (p : P) → Reach default p [] []
      starts :
          {e : QueryEngine Q} {p : P} {put taken : List Task}
          → Reach e p put taken
          → (query : Query) → Reach (start_query e query).2 p put taken
      stops :
          {e : QueryEngine Q} {p : P} {put taken : List Task}
          → Reach e p put taken
          → (id : ℕ) → Reach (stop_query e id).1 p put taken
      emits :
          {e : QueryEngine Q} {p : P} {put taken : List Task}
          → Reach e p put taken
          → (f : EmitFn) (b : TupleBuffer)
          → Reach
              (record e { queue = emit_fn f b e.queue })
              p
              (put ++ accepted e.queue (compute f.query_id b f.target))
              taken
      works :
          {e : QueryEngine Q} {p : P} {put taken : List Task}
          → Reach e p put taken
          → Reach
              (work execute e p).1
              (work execute e p).2
              (put ++ accepted_by p (array.pop e.queue).1 (array.pop e.queue).0)
              (taken ++ one (array.pop e.queue).0)

  record Held (q : Q) (put taken : List Task) : Type 0 where
    sized : array.capacity q ≡ 1024
    few : length (array.contents q) ≤ 1024
    in_order : put ≡ taken ++ array.contents q

  push-Held :
      (q : Q) (put taken : List Task) (task : Task)
      → Held q put taken
      → Held (array.push q task).1 (put ++ accepted q task) taken
  push-Held q put taken task v = elim (Bool-cases (ltb (length (array.contents q)) 1024)) [
    | inl room ↦
        let (took, holds) = array.push_with_room q task (ground (arith, v.sized, room)) in
        record {
          sized = array.capacity-push q task ∙ v.sized;
          few = rw holds (ground (arith, length-append (array.contents q) (task ∷ []), room));
          in_order =
              rw (took, holds, v.in_order) (append_assoc taken (array.contents q) (task ∷ []));
        }
    | inr full ↦
        let (took, holds) = array.push_when_full q task (ground (arith, v.sized, full)) in
        record {
          sized = array.capacity-push q task ∙ v.sized;
          few = rw holds v.few;
          in_order = rw (took, holds, append-nil put) v.in_order;
        }
  ]

  refused_iff :
      (q : Q) (put taken : List Task) (task : Task)
      → Held q put taken
      → ((array.push q task).0 ≡ false) ↔ (length (array.contents q) ≡ 1024)
  refused_iff q put taken task v = elim (Bool-cases (ltb (length (array.contents q)) 1024)) [
    | inl room ↦
        let (took, _) = array.push_with_room q task (ground (arith, v.sized, room)) in
        (
          (λ no_room. absurd (ground (arith, no_room, took))),
          (λ full. absurd (ground (arith, room, full))),
        )
    | inr full ↦
        let (refused, _) = array.push_when_full q task (ground (arith, v.sized, full)) in
        ((λ _. ground (arith, v.few, full)), (λ _. refused))
  ]

  pop-Held :
      (q : Q) (put taken : List Task)
      → Held q put taken
      → Held (array.pop q).1 put (taken ++ one (array.pop q).0)
  pop-Held q put taken v = by_contents (array.contents q) refl
    where
      by_contents :
          (ts : List Task)
          → array.contents q ≡ ts
          → Held (array.pop q).1 put (taken ++ one (array.pop q).0)
      by_contents [] e =
          let (none_there, still) = array.pop_when_empty q e in
          record {
            sized = array.capacity-pop q ∙ v.sized;
            few = rw still (omega arith);
            in_order = rw (none_there, still, append-nil taken, v.in_order, e) refl;
          }
      by_contents (t ∷ ts) e =
          let (front, rest) = array.pop_the_front q t ts e in
          record {
            sized = array.capacity-pop q ∙ v.sized;
            few = rw rest (omega (arith, rw e at v.few));
            in_order = rw (front, rest, v.in_order, e) (sym (append_assoc taken (t ∷ []) ts));
          }

  emit_all-Held :
      (id : ℕ) (next : Option Node) (bs : List TupleBuffer) (q : Q) (put taken : List Task)
      → Held q put taken
      → Held (emit_all id next q bs) (put ++ accepted_all id next q bs) taken
  unfolding emit_all emit
  emit_all-Held id next [] q put taken v = rw (append-nil put) v
  emit_all-Held id none (b ∷ bs) q put taken v = emit_all-Held id none bs q put taken v
  emit_all-Held id (some next) (b ∷ bs) q put taken v =
      rw
        (← append_assoc put (accepted q (compute id b next))
          (accepted_all id (some next) (array.push q (compute id b next)).1 bs))
        (emit_all-Held id (some next) bs (array.push q (compute id b next)).1
          (put ++ accepted q (compute id b next)) taken
          (push-Held q put taken (compute id b next) v))

  stop_query-queue : (e : QueryEngine Q) (id : ℕ) → (stop_query e id).1.queue ≡ e.queue
  unfolding stop_query
  stop_query-queue e id = elim (Option-cases (HashMap.get id e.queries)) [
    | inl absent ↦ rw (stop_query, absent) refl
    | inr (query, there) ↦ rw (stop_query, there) refl
  ]

  module _ {P : Type 0} (execute : ℕ → P → TupleBuffer → P × List TupleBuffer) where
    work-Held :
        (e : QueryEngine Q) (p : P) (put taken : List Task)
        → Held e.queue put taken
        → Held
            (work execute e p).1.queue
            (put ++ accepted_by execute p (array.pop e.queue).1 (array.pop e.queue).0)
            (taken ++ one (array.pop e.queue).0)
    unfolding work work_on
    work-Held e p put taken v = by_popped (array.pop e.queue).0 refl
      where
        by_popped :
            (t : Option Task)
            → (array.pop e.queue).0 ≡ t
            → Held
                (work execute e p).1.queue
                (put ++ accepted_by execute p (array.pop e.queue).1 (array.pop e.queue).0)
                (taken ++ one (array.pop e.queue).0)
        by_popped none is = rw (work, is, append-nil put) (rw is at (pop-Held e.queue put taken v))
        by_popped (some (compute id input n)) is =
            rw (work, is)
              (emit_all-Held id (successor n) (execute (pipeline n) p input).1 (array.pop e.queue).1
                put (taken ++ compute id input n ∷ []) (rw is at (pop-Held e.queue put taken v)))

    Reach-Held :
        {e : QueryEngine Q} {p : P} {put taken : List Task}
        → Reach execute e p put taken
        → Held e.queue put taken
    unfolding default start_query emit_fn
    Reach-Held (begins p) = record {
      sized = array.capacity-new 1024;
      few = rw (array.contents-new 1024) (omega arith);
      in_order = rw (array.contents-new 1024) refl;
    }
    Reach-Held (starts r query) = Reach-Held r
    Reach-Held (stops {e} {p} {put} {taken} r id) =
        subst (λ q. Held q put taken) (sym (stop_query-queue e id)) (Reach-Held r)
    Reach-Held (emits {e} {p} {put} {taken} r f b) =
        push-Held e.queue put taken (compute f.query_id b f.target) (Reach-Held r)
    Reach-Held (works {e} {p} {put} {taken} r) = work-Held e p put taken (Reach-Held r)

    -- In every state that the engine comes to, the tasks that the queue accepted are those that the worker
    -- took and those that wait, in this order; at most 1024 wait; and the next task is lost
    -- exactly if 1024 do.
    pub tasks_in_order :
        {e : QueryEngine Q} {p : P} {put taken : List Task}
        → Reach execute e p put taken
        → (put ≡ taken ++ array.contents e.queue)
          × (length (array.contents e.queue) ≤ 1024)
          × ((task : Task)
              → ((array.push e.queue task).0 ≡ false) ↔ (length (array.contents e.queue) ≡ 1024))
    tasks_in_order {e} {put = put} {taken = taken} r =
        let v = Reach-Held r in (v.in_order, v.few, λ task. refused_iff e.queue put taken task v)
