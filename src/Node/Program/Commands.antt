-- ===== src/Node/Program/Commands.antt =====
-- What a configuration's commands come to, and which query the number in a stop is of.
use Program.{true}
use mathlib.Core.List.{append_assoc, append-nil}
use bdspro_udp_v.Common.{
  get_elem?-append, Bool, Bool-cases, List, Option, [], ap, arith, false, get_elem?, if◌then◌else◌,
  inl, inr, length, length-append, map, nat_eq, none, refl, some, string_eq, subst, suc, sym, zero,
  ℕ, ◌++◌, ◌+◌, ◌<◌, ◌==◌, ◌^◌, ◌||◌, ◌∙◌, ◌∷◌, ◌≡◌,
}
use bdspro_udp_v.Node.ArrayQueue.{ArrayQueue}
use bdspro_udp_v.Node.Engine
use bdspro_udp_v.Node.Engine.{SourceNode, Task, QueryEngine}
use bdspro_udp_v.Node.Engine.Queries
use bdspro_udp_v.Node.Engine.Queries.{
  start, stop, run, run-queries, nth_start, unless_stopped, stopped_by,
}
use bdspro_udp_v.Node.Program
use bdspro_udp_v.Node.Program.{
  with_effect, Query, Command, start_query, stop_query, wait, Object, pipeline_of, source_of,
  starts_up, query_at, Program, Effect, initial, command, commands,
}

-- The `n`-th query to be started, from 0 on, and the commands after it.
abbrev pub nth_query : ℕ → List (Command × Bool) → Option (Query × List (Command × Bool))
nth_query n [] = none
nth_query zero ((start_query q, _) ∷ cs) = some (q, cs)
nth_query (suc n) ((start_query _, _) ∷ cs) = nth_query n cs
nth_query n ((stop_query _, _) ∷ cs) = nth_query n cs
nth_query n ((wait _, _) ∷ cs) = nth_query n cs

abbrev pub has_stop : ℕ → List (Command × Bool) → Bool
has_stop id [] = false
has_stop id ((start_query _, _) ∷ cs) = has_stop id cs
has_stop id ((stop_query j, _) ∷ cs) = j == id || has_stop id cs
has_stop id ((wait _, _) ∷ cs) = has_stop id cs

abbrev pub queries : List (Command × Bool) → ℕ
queries [] = 0
queries ((start_query _, _) ∷ cs) = suc (queries cs)
queries ((stop_query _, _) ∷ cs) = queries cs
queries ((wait _, _) ∷ cs) = queries cs

-- The sources that a stop is to reach.
abbrev pub source_unless_stopped :
    ℕ → Option (Query × List (Command × Bool)) → Option (List (Option Object))
source_unless_stopped id none = none
source_unless_stopped id (some (q, later)) =
    if has_stop id later then none else some (some (source_of q) ∷ [])

abbrev pub described : List Object → Option (List ℕ) → Option (List (Option Object))
described objects none = none
described objects (some is) = some (map (get_elem? objects) is)

-- The commands as the engine sees them, where the next object stands at `n`, and the objects.
abbrev orders : ℕ → List (Command × Bool) → List Queries.Command
orders n [] = []
orders n ((start_query q, _) ∷ cs) = start (query_at n) ∷ orders (n + 2) cs
orders n ((stop_query id, _) ∷ cs) = stop id ∷ orders n cs
orders n ((wait _, _) ∷ cs) = orders n cs

abbrev objects_of : List (Command × Bool) → List Object
objects_of [] = []
objects_of ((start_query q, _) ∷ cs) = pipeline_of q ∷ source_of q ∷ objects_of cs
objects_of ((stop_query _, _) ∷ cs) = objects_of cs
objects_of ((wait _, _) ∷ cs) = objects_of cs

starts-orders : (n : ℕ) (cs : List (Command × Bool)) → Queries.starts (orders n cs) ≡ queries cs
starts-orders n [] = refl
starts-orders n ((start_query q, _) ∷ cs) = ap suc (starts-orders (n + 2) cs)
starts-orders n ((stop_query id, _) ∷ cs) = starts-orders n cs
starts-orders n ((wait _, _) ∷ cs) = starts-orders n cs

is_stopped-orders :
    (id n : ℕ) (cs : List (Command × Bool)) → Queries.is_stopped id (orders n cs) ≡ has_stop id cs
is_stopped-orders id n [] = refl
is_stopped-orders id n ((start_query q, _) ∷ cs) = is_stopped-orders id (n + 2) cs
is_stopped-orders id n ((stop_query j, _) ∷ cs) = ap (◌||◌ (j == id)) (is_stopped-orders id n cs)
is_stopped-orders id n ((wait _, _) ∷ cs) = is_stopped-orders id n cs

-- The source of the query that a number is of, among the objects.
nth_start-orders :
    (id k n : ℕ) (before : List Object) (cs : List (Command × Bool))
    → length before ≡ k
    → described
        (before ++ objects_of cs)
        (stopped_by (unless_stopped id (nth_start n (orders k cs))))
      ≡ source_unless_stopped id (nth_query n cs)
unfolding get_elem?
nth_start-orders id k n before [] e = refl
nth_start-orders id k zero before ((start_query q, _) ∷ cs) e = elim (Bool-cases (has_stop id cs)) [
  | inl gone ↦ rw (is_stopped-orders id (k + 2) cs, gone) refl
  | inr kept ↦
      rw (is_stopped-orders id (k + 2) cs, kept)
        (ap (λ (o : Option Object). some (o ∷ []))
          (subst
            (λ j.
              get_elem? (before ++ pipeline_of q ∷ source_of q ∷ objects_of cs) (j + 1)
              ≡ some (source_of q))
            e (get_elem?-append before (pipeline_of q ∷ source_of q ∷ objects_of cs) 1)))
]
nth_start-orders id k (suc n) before ((start_query q, _) ∷ cs) e =
    subst
      (λ os.
        described os (stopped_by (unless_stopped id (nth_start n (orders (k + 2) cs))))
        ≡ source_unless_stopped id (nth_query n cs))
      (append_assoc before (pipeline_of q ∷ source_of q ∷ []) (objects_of cs))
      (nth_start-orders id (k + 2) n (before ++ pipeline_of q ∷ source_of q ∷ []) cs
        (length-append before (pipeline_of q ∷ source_of q ∷ []) ∙ ap (λ j. j + 2) e))
nth_start-orders id k n before ((stop_query j, _) ∷ cs) e = nth_start-orders id k n before cs e
nth_start-orders id k n before ((wait _, _) ∷ cs) e = nth_start-orders id k n before cs e

module _ {Q : Type 0} ⦃array : ArrayQueue Q Task⦄ where
  -- What the program is after commands that did not panic.
  record Follows (p : Program Q) (cs : List (Command × Bool)) (p' : Program Q) : Type 0 where
    engine : p'.engine ≡ run p.engine (orders (length p.objects) cs)
    objects : p'.objects ≡ p.objects ++ objects_of cs

  abbrev AllFollow : Program Q → List (Command × Bool) → Option (List Effect × Program Q) → Type 0
  AllFollow p cs none = Unit
  AllFollow p cs (some (effects, p')) = Follows p cs p'

  with_effect-Follow :
      (effect : Effect) (p q : Program Q) (cs ds : List (Command × Bool))
      (later : Option (List Effect × Program Q))
      → ((p' : Program Q) → Follows q ds p' → Follows p cs p')
      → AllFollow q ds later
      → AllFollow p cs (with_effect effect later)
  with_effect-Follow effect p q cs ds none lift h = tt
  with_effect-Follow effect p q cs ds (some (effects, p')) lift h = lift p' h

  commands-Follow : (cs : List (Command × Bool)) (p : Program Q) → AllFollow p cs (commands p cs)
  unfolding commands command run Program.start
  commands-Follow [] p = record { engine = refl; objects = sym (append-nil p.objects) }
  commands-Follow ((start_query q, registered) ∷ cs) p =
      by_answer (starts_up (source_of q) registered) (commands-Follow cs (Program.start p q).1)
    where
      by_answer :
          (up : Bool)
          → AllFollow (Program.start p q).1 cs (commands (Program.start p q).1 cs)
          → AllFollow p
              ((start_query q, registered) ∷ cs)
              (elim (if up then some (Program.start p q) else none) [
                | none ↦ none
                | some (effect, p') ↦ with_effect effect (commands p' cs)
              ])
      by_answer false later = tt
      by_answer true later =
          with_effect-Follow (Program.start p q).0 p (Program.start p q).1
            ((start_query q, registered) ∷ cs) cs (commands (Program.start p q).1 cs)
            (λ p' f. record {
              engine =
                  f.engine
                  ∙ ap (λ n. run (Program.start p q).1.engine (orders n cs))
                      (length-append p.objects (pipeline_of q ∷ source_of q ∷ []));
              objects =
                  f.objects
                  ∙ append_assoc p.objects (pipeline_of q ∷ source_of q ∷ []) (objects_of cs);
            })
            later
  commands-Follow ((stop_query id, registered) ∷ cs) p =
      let p' = record p { engine = (Engine.stop_query p.engine id).1 } in
      with_effect-Follow _ p p' ((stop_query id, registered) ∷ cs) cs (commands p' cs)
        (λ q f. record { engine = f.engine; objects = f.objects }) (commands-Follow cs p')
  commands-Follow ((wait millis, registered) ∷ cs) p =
      with_effect-Follow _ p p ((wait millis, registered) ∷ cs) cs (commands p cs)
        (λ q f. record { engine = f.engine; objects = f.objects }) (commands-Follow cs p)

  -- When the commands of a configuration, with fewer than 2^64 queries among them, have run without a panic,
  -- a stop of a number stops exactly the source of the query of that number, counted from 0 in the
  -- order of the commands, unless there is no such query or a stop of it came after its start.
  pub stop-commands :
      (cs : List (Command × Bool)) (id : ℕ) {effects : List Effect} {p : Program Q}
      → commands initial cs ≡ some (effects, p)
      → queries cs < 2 ^ 64
      → described p.objects (Engine.stop_query p.engine id).0
        ≡ source_unless_stopped id (nth_query id cs)
  stop-commands cs id {effects} {p} done few =
      let f : Follows initial cs p =
        subst (AllFollow initial cs) done (commands-Follow cs initial) in
      rw
        (
          f.engine,
          f.objects,
          (run-queries Q (orders 0 cs) id (omega (arith, starts-orders 0 cs))).1,
        )
        (nth_start-orders id 0 id [] cs refl)
