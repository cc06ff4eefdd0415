-- ===== src/Node/Engine/Queries.antt =====
-- The table of the engine's queries over a run of `start_query` and `stop_query`.
use bdspro_udp_v.Common.{
  Bool, List, Option, Option-cases, [], ap, arith, false, if◌then◌else◌, inl, inr, map, nat_eq,
  none, refl, some, string_eq, suc, zero, ℕ, ◌+◌, ◌<◌, ◌==◌, ◌^◌, ◌||◌, ◌∙◌, ◌∷◌, ◌≡◌, ◌≤◌,
}
use bdspro_udp_v.HashMap
use bdspro_udp_v.HashMap.{
  HashMap, Distinct, get-insert, get-remove, insert-Distinct, remove-Distinct, length-insert_fresh,
  length-remove, remove_absent,
}
use bdspro_udp_v.Node.ArrayQueue.{ArrayQueue}
use bdspro_udp_v.Node.Engine.{
  SourceNode, Query, Task, QueryEngine, default, start_query, stop_query,
}

pub data Command : Type 0 where
  start : Query → Command
  stop : ℕ → Command

-- The queries that are started, in order, are numbered from 0 on. A query is there from its start to the
-- first stop of its number.
abbrev pub starts : List Command → ℕ
starts [] = 0
starts (start _ ∷ cs) = suc (starts cs)
starts (stop _ ∷ cs) = starts cs

abbrev pub is_stopped : ℕ → List Command → Bool
is_stopped id [] = false
is_stopped id (start _ ∷ cs) = is_stopped id cs
is_stopped id (stop j ∷ cs) = j == id || is_stopped id cs

-- The `n`-th query to be started, and the commands after its start.
abbrev pub nth_start : ℕ → List Command → Option (Query × List Command)
nth_start n [] = none
nth_start n (stop _ ∷ cs) = nth_start n cs
nth_start zero (start query ∷ cs) = some (query, cs)
nth_start (suc n) (start _ ∷ cs) = nth_start n cs

abbrev pub unless_stopped : ℕ → Option (Query × List Command) → Option Query
unless_stopped id none = none
unless_stopped id (some (query, later)) = if is_stopped id later then none else some query

abbrev pub stopped_by : Option Query → Option (List ℕ)
stopped_by none = none
stopped_by (some query) = some (map (λ (source : SourceNode). source.implementation) query.sources)

module _ {Q : Type 0} ⦃array : ArrayQueue Q Task⦄ where
  unfoldable pub run : QueryEngine Q → List Command → QueryEngine Q
  unfolding start_query stop_query
  run e [] = e
  run e (start query ∷ cs) = run (start_query e query).2 cs
  run e (stop id ∷ cs) = run (stop_query e id).1 cs

  stop_query-get :
      (e : QueryEngine Q) (j id : ℕ)
      → HashMap.get id (stop_query e j).1.queries
        ≡ (if j == id then none else HashMap.get id e.queries)
  unfolding stop_query
  stop_query-get e j id = elim (Option-cases (HashMap.get j e.queries)) [
    | inl absent ↦ rw (stop_query, absent) (ground (arith, absent, nat_eq.same_iff j id))
    | inr (query, there) ↦ rw (stop_query, there) (get-remove j id e.queries)
  ]

  stop_query-counter : (e : QueryEngine Q) (j : ℕ) → (stop_query e j).1.id_counter ≡ e.id_counter
  unfolding stop_query
  stop_query-counter e j = elim (Option-cases (HashMap.get j e.queries)) [
    | inl absent ↦ rw (stop_query, absent) refl
    | inr (query, there) ↦ rw (stop_query, there) refl
  ]

  start_query-get :
      (e : QueryEngine Q) (query : Query) (id : ℕ)
      → HashMap.get id (start_query e query).2.queries
        ≡ (if e.id_counter == id then some query else HashMap.get id e.queries)
  unfolding start_query
  start_query-get e query id = get-insert e.id_counter id query e.queries

  start_query-counter :
      (e : QueryEngine Q) (query : Query)
      → e.id_counter + 1 < 2 ^ 64
      → (start_query e query).2.id_counter ≡ e.id_counter + 1
  unfolding start_query
  start_query-counter e query few = omega arith

  -- What the run comes to, of a number that is used up, and of one that is not.
  used_up :
      (cs : List Command) (e : QueryEngine Q) (id : ℕ)
      → e.id_counter + starts cs < 2 ^ 64
      → id < e.id_counter
      → HashMap.get id (run e cs).queries
        ≡ (if is_stopped id cs then none else HashMap.get id e.queries)
  unfolding run
  used_up [] e id few used = refl
  used_up (start query ∷ cs) e id few used =
      let next = start_query-counter e query (omega arith) in
      used_up cs (start_query e query).2 id (omega arith) (omega arith)
      ∙ ground (arith, start_query-get e query id, nat_eq.same_iff e.id_counter id)
  used_up (stop j ∷ cs) e id few used =
      let next = stop_query-counter e j in
      used_up cs (stop_query e j).1 id (omega arith) (omega arith)
      ∙ ground (arith, stop_query-get e j id)

  unused :
      (cs : List Command) (e : QueryEngine Q) (id n : ℕ)
      → id ≡ e.id_counter + n
      → e.id_counter + starts cs < 2 ^ 64
      → ((j : ℕ) → e.id_counter ≤ j → HashMap.get j e.queries ≡ none)
      → HashMap.get id (run e cs).queries ≡ unless_stopped id (nth_start n cs)
  unfolding run
  unused [] e id n is few fresh = fresh id (omega arith)
  unused (start query ∷ cs) e id zero is few fresh =
      let next = start_query-counter e query (omega arith) in
      used_up cs (start_query e query).2 id (omega arith) (omega arith)
      ∙ ground (arith, start_query-get e query id, nat_eq.same_iff e.id_counter id)
  unused (start query ∷ cs) e id (suc n) is few fresh =
      let next = start_query-counter e query (omega arith) in
      unused cs (start_query e query).2 id n (omega arith) (omega arith) (λ j above.
        start_query-get e query j ∙ ground (arith, fresh j, nat_eq.same_iff e.id_counter j))
  unused (stop j ∷ cs) e id n is few fresh =
      let same = stop_query-counter e j in
      unused cs (stop_query e j).1 id n (omega arith) (omega arith)
        (λ k above. stop_query-get e j k ∙ ground (arith, fresh k))

  stop_query-stops :
      (e : QueryEngine Q) (id : ℕ) → (stop_query e id).0 ≡ stopped_by (HashMap.get id e.queries)
  unfolding stop_query
  stop_query-stops e id = elim (Option-cases (HashMap.get id e.queries)) [
    | inl absent ↦ rw (stop_query, absent) refl
    | inr (query, there) ↦ rw (stop_query, there) refl
  ]

-- After any run of starts and stops of a new engine with fewer than 2^64 starts, the query under a number
-- is the one that was started as the so many-th, from 0 on, unless a stop of the number came after its
-- start; and a further stop of the number stops exactly its sources.
pub run-queries :
    (Q : Type 0) ⦃array : ArrayQueue Q Task⦄ (cs : List Command) (id : ℕ)
    → starts cs < 2 ^ 64
    → (HashMap.get id (run {Q = Q} default cs).queries ≡ unless_stopped id (nth_start id cs))
      × ((stop_query (run {Q = Q} default cs) id).0
          ≡ stopped_by (unless_stopped id (nth_start id cs)))
unfolding default HashMap.get
run-queries Q cs id few =
    let there = unused cs (default {Q = Q}) id id (omega arith) (omega arith) (λ j above. refl) in
    (there, stop_query-stops (run {Q = Q} default cs) id ∙ ap stopped_by there)
