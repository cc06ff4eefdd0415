-- ===== src/Node/ArrayQueue.antt =====
-- `crossbeam_queue::ArrayQueue`, as test-node/src/engine.rs uses it: a bounded queue whose `push` gives an
-- element back when it is full.
use bdspro_udp_v.Common.{
  Bool, List, Option, [], arith, false, if◌then◌else◌, length, ltb, nat_eq, none, refl, some,
  string_eq, true, ℕ, ◌++◌, ◌<◌, ◌∷◌, ◌≡◌, ◌≤◌,
}

-- What is waiting, the front first, is there to state what `push` and `pop` do.
pub record ArrayQueue (Q A : Type 0) : Type 0 where
  pub new : ℕ → Q
  pub push : Q → A → Bool × Q
  pub pop : Q → Option A × Q
  pub contents : Q → List A
  pub capacity : Q → ℕ
  pub contents-new : (n : ℕ) → contents (new n) ≡ []
  pub capacity-new : (n : ℕ) → capacity (new n) ≡ n
  pub capacity-push : (q : Q) (a : A) → capacity (push q a).1 ≡ capacity q
  pub capacity-pop : (q : Q) → capacity (pop q).1 ≡ capacity q
  pub push_with_room :
      (q : Q) (a : A)
      → length (contents q) < capacity q
      → ((push q a).0 ≡ true) × (contents (push q a).1 ≡ contents q ++ a ∷ [])
  pub push_when_full :
      (q : Q) (a : A)
      → capacity q ≤ length (contents q)
      → ((push q a).0 ≡ false) × (contents (push q a).1 ≡ contents q)
  pub pop_when_empty : (q : Q) → contents q ≡ [] → ((pop q).0 ≡ none) × (contents (pop q).1 ≡ [])
  pub pop_the_front :
      (q : Q) (a : A) (rest : List A)
      → contents q ≡ a ∷ rest
      → ((pop q).0 ≡ some a) × (contents (pop q).1 ≡ rest)

-- A list with a capacity has the laws.
abbrev pub Bounded : Type 0 → Type 0
Bounded A = ℕ × List A

module _ {A : Type 0} where
  abbrev pub push_to : Bounded A → A → Bool × Bounded A
  push_to (n, ts) t = if ltb (length ts) n then (true, (n, ts ++ t ∷ [])) else (false, (n, ts))

  abbrev pub pop_from : Bounded A → Option A × Bounded A
  pop_from (n, []) = (none, (n, []))
  pop_from (n, t ∷ ts) = (some t, (n, ts))

  pub capacity-push_to : (q : Bounded A) (t : A) → (push_to q t).1.0 ≡ q.0
  capacity-push_to (n, ts) t = ground arith

  pub capacity-pop_from : (q : Bounded A) → (pop_from q).1.0 ≡ q.0
  capacity-pop_from (n, []) = refl
  capacity-pop_from (n, t ∷ ts) = refl

  pub push_to_room :
      (q : Bounded A) (t : A)
      → length q.1 < q.0
      → ((push_to q t).0 ≡ true) × ((push_to q t).1.1 ≡ q.1 ++ t ∷ [])
  push_to_room (n, ts) t room = ground arith

  pub push_to_full :
      (q : Bounded A) (t : A)
      → q.0 ≤ length q.1
      → ((push_to q t).0 ≡ false) × ((push_to q t).1.1 ≡ q.1)
  push_to_full (n, ts) t full = ground arith

  pub pop_from_empty :
      (q : Bounded A) → q.1 ≡ [] → ((pop_from q).0 ≡ none) × ((pop_from q).1.1 ≡ [])
  pop_from_empty (n, []) e = (refl, refl)
  pop_from_empty (n, t ∷ ts) e = absurd (ground (arith, e))

  pub pop_from_front :
      (q : Bounded A) (t : A) (rest : List A)
      → q.1 ≡ t ∷ rest
      → ((pop_from q).0 ≡ some t) × ((pop_from q).1.1 ≡ rest)
  pop_from_front (n, []) t rest e = absurd (ground (arith, e))
  pop_from_front (n, u ∷ ts) t rest e = ground (arith, e)

  instance abbrev pub bounded : ArrayQueue (Bounded A) A
  bounded = record {
    new = λ n. (n, []);
    push = push_to;
    pop = pop_from;
    contents = λ q. q.1;
    capacity = λ q. q.0;
    contents-new = λ n. refl;
    capacity-new = λ n. refl;
    capacity-push = capacity-push_to;
    capacity-pop = capacity-pop_from;
    push_with_room = push_to_room;
    push_when_full = push_to_full;
    pop_when_empty = pop_from_empty;
    pop_the_front = pop_from_front;
  }
