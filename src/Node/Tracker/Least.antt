-- ===== src/Node/Tracker/Least.antt =====
-- The query returns the least number that was not seen.
use bdspro_udp_v.Common.{
  Bool, Bool-cases, List, Mem, Option, [], arith, eqb_iff, false, if◌then◌else◌, inl, inr, length,
  nat_eq, none, refl, some, string_eq, suc, true, zero, ℕ, ℕ_discrete, ◌+◌, ◌-◌, ◌<◌, ◌==◌, ◌≡◌,
  ◌≤◌, ◌⊎◌,
}
use bdspro_udp_v.HashMap
use bdspro_udp_v.HashMap.{
  HashMap, Distinct, get-insert, get-remove, insert-Distinct, remove-Distinct, length-insert_fresh,
  length-remove, remove_absent,
}
use bdspro_udp_v.Node.Tracker.{MissingSequenceTracker, new, search, query}
use bdspro_udp_v.Node.Tracker.Counting.{Within, length-Within, full-Covers, length-Covers}

-- The least positive number that is not in the list.
pub record IsLeast (numbers : List ℕ) (q : ℕ) : Type 0 where
  pub positive : 0 < q
  pub absent : ¬ Mem q numbers
  pub below : (k : ℕ) → 0 < k → k < q → Mem k numbers

-- What the tracker knows of the numbers that were added: above the mark the set has exactly these, and
-- up to the mark all were added.
pub record IsTracked (numbers : List ℕ) (t : MissingSequenceTracker) : Type 0 where
  pub distinct : Distinct t.seen
  pub within : Within t.lowest_removed (t.highest_seen - t.lowest_removed) t.seen
  pub ordered : t.lowest_removed ≤ t.highest_seen
  pub bounds : (k : ℕ) → Mem k numbers → (0 < k) × (k ≤ t.highest_seen)
  pub low : (k : ℕ) → 0 < k → k ≤ t.lowest_removed → Mem k numbers
  pub known : (k : ℕ) → HashMap.get k t.seen ≡ some tt → Mem k numbers
  pub kept : (k : ℕ) → t.lowest_removed < k → Mem k numbers → HashMap.get k t.seen ≡ some tt

pub new-IsTracked : IsTracked [] new
unfolding HashMap.get
new-IsTracked = record {
  distinct = tt;
  within = λ k e. absurd (ground arith);
  ordered = omega arith;
  bounds = λ k m. absurd m;
  low = λ k above below. absurd (omega arith);
  known = λ k e. absurd (ground arith);
  kept = λ k above m. absurd m;
}

-- The search finds the first number that is not in the set, or all are.
abbrev Found : MissingSequenceTracker → ℕ → ℕ → Option ℕ → Type 0
Found t count i none =
    (k : ℕ)
    → i + t.lowest_removed ≤ k
    → k < i + count + t.lowest_removed
    → HashMap.get k t.seen ≡ some tt
Found t count i (some q) =
    (i + t.lowest_removed ≤ q)
    × (HashMap.get q t.seen ≡ none)
    × ((k : ℕ) → i + t.lowest_removed ≤ k → k < q → HashMap.get k t.seen ≡ some tt)

widen :
    (t : MissingSequenceTracker) (count i : ℕ) (o : Option ℕ)
    → HashMap.get (i + t.lowest_removed) t.seen ≡ some tt
    → Found t count (i + 1) o
    → Found t (suc count) i o
widen t count i none first h = λ k above below. elim (ℕ_discrete k (i + t.lowest_removed)) [
  | yes same ↦ rw same first
  | no later ↦ h k (omega arith) (omega arith)
]
widen t count i (some q) first (above, absent, all) = (
  omega arith,
  absent,
  λ k above' below. elim (ℕ_discrete k (i + t.lowest_removed)) [
    | yes same ↦ rw same first
    | no later ↦ all k (omega arith) below
  ],
)

search-Found : (t : MissingSequenceTracker) (count i : ℕ) → Found t count i (search t count i)
unfolding search HashMap.contains_key
search-Found t zero i = λ k above below. absurd (omega arith)
search-Found t (suc count) i =
    by_lookup (HashMap.contains_key (i + t.lowest_removed) t.seen) refl
      (search-Found t count (i + 1))
  where
    by_lookup :
        (b : Bool)
        → HashMap.contains_key (i + t.lowest_removed) t.seen ≡ b
        → Found t count (i + 1) (search t count (i + 1))
        → Found t (suc count) i (if b then search t count (i + 1) else some (i + t.lowest_removed))
    by_lookup true e later = widen t count i (search t count (i + 1)) (ground arith) later
    by_lookup false e later = (omega arith, ground arith, λ k above below. absurd (omega arith))

pub leb_cases : (a b : ℕ) → (a ≤ b) ⊎ (b < a)
leb_cases a b = ground arith

-- The tracker's answer is the least number that was not added.
pub query-IsLeast :
    (numbers : List ℕ) (t : MissingSequenceTracker)
    → IsTracked numbers t
    → (q : ℕ) × (query t ≡ some q) × IsLeast numbers q
unfolding query
query-IsLeast numbers t v = elim (Bool-cases (length t.seen == t.highest_seen - t.lowest_removed)) [
  | inl full ↦ (t.highest_seen + 1, rw full refl, next_up ((eqb_iff _ _).0 full))
  | inr gaps ↦ by_search (search t t.highest_seen 1) refl gaps (search-Found t t.highest_seen 1)
]
  where
    next_up :
        length t.seen ≡ t.highest_seen - t.lowest_removed → IsLeast numbers (t.highest_seen + 1)
    next_up full = record {
      positive = omega arith;
      absent = λ m. omega (arith, v.bounds (t.highest_seen + 1) m);
      below = λ k above small. elim (leb_cases k t.lowest_removed) [
        | inl old ↦ v.low k above old
        | inr recent ↦ v.known k (
            full-Covers (t.highest_seen - t.lowest_removed) t.lowest_removed t.seen v.distinct
              v.within full k recent (omega (arith, v.ordered)))
      ];
    }

    by_search :
        (o : Option ℕ)
        → search t t.highest_seen 1 ≡ o
        → (length t.seen == t.highest_seen - t.lowest_removed) ≡ false
        → Found t t.highest_seen 1 o
        → (q : ℕ) × (query t ≡ some q) × IsLeast numbers q
    by_search none e gaps all = absurd (
        ground (
          arith,
          v.ordered,
          eqb_iff (length t.seen) (t.highest_seen - t.lowest_removed),
          length-Within (t.highest_seen - t.lowest_removed) t.lowest_removed t.seen v.distinct
              v.within,
          length-Covers t.highest_seen t.lowest_removed t.seen v.distinct
              (λ k above below. all k (omega arith) (omega arith)),
        ))
    by_search (some q) e gaps (above, absent, all) = (
      q,
      rw (gaps, query) e,
      record {
        positive = omega arith;
        absent = λ m. ground (arith, v.kept q (omega arith) m);
        below = λ k positive small. elim (leb_cases k t.lowest_removed) [
          | inl old ↦ v.low k positive old
          | inr recent ↦ v.known k (all k (omega arith) small)
        ];
      },
    )
