-- ===== src/Node/Tracker/Adding.antt =====
-- Adding keeps what the tracker knows.
use bdspro_udp_v.Common.{
  Bool-cases, List, Mem, Option, Option-cases, [], arith, eqb_iff, false, if◌then◌else◌, inl, inr,
  length, ltb, nat_eq, none, refl, some, string_eq, ℕ, ℕ_discrete, ◌+◌, ◌-◌, ◌<◌, ◌==◌, ◌∷◌, ◌≡◌,
}
use bdspro_udp_v.HashMap
use bdspro_udp_v.HashMap.{
  HashMap, Distinct, get-insert, get-remove, insert-Distinct, remove-Distinct, length-insert_fresh,
  length-remove, remove_absent,
}
use bdspro_udp_v.Node.Tracker.{MissingSequenceTracker, new, max_seen, query, retain, compact, add}
use bdspro_udp_v.Node.Tracker.Least.{IsLeast, IsTracked, new-IsTracked, query-IsLeast, leb_cases}

get-retain :
    (q k : ℕ) (m : HashMap ℕ (Unit {0}))
    → HashMap.get k (retain q m) ≡ (if ltb q k then HashMap.get k m else none)
unfolding HashMap.get retain
get-retain q k [] = ground arith
get-retain q k ((j, v) ∷ m) = ground (arith, eqb_iff j k, get-retain q k m)

retain-Distinct : (q : ℕ) (m : HashMap ℕ (Unit {0})) → Distinct m → Distinct (retain q m)
unfolding retain
retain-Distinct q [] d = tt
retain-Distinct q ((j, v) ∷ m) d = ground (arith, get-retain q j m, retain-Distinct q m)

-- The numbers up to the answer of the query can be dropped.
retain-IsTracked :
    (numbers : List ℕ) (t : MissingSequenceTracker) (q : ℕ)
    → IsTracked numbers t
    → IsLeast numbers q
    → IsTracked numbers (record t { seen = retain q t.seen; lowest_removed = q - 1 })
retain-IsTracked numbers t q v least = record {
  distinct = retain-Distinct q t.seen v.distinct;
  within = λ k e.
      let old : HashMap.get k t.seen ≡ some tt = ground (arith, get-retain q k t.seen) in
      (
        ground (arith, get-retain q k t.seen),
        ground (arith, get-retain q k t.seen, v.bounds k (v.known k old)),
      );
  ordered = elim (leb_cases q (t.highest_seen + 1)) [
    | inl small ↦ omega arith
    | inr large ↦ absurd (
        omega (
          arith,
          v.bounds (t.highest_seen + 1) (least.below (t.highest_seen + 1) (omega arith) large),
        ))
  ];
  bounds = v.bounds;
  low = λ k above small. least.below k above (omega (arith, least.positive));
  known = λ k e. v.known k (ground (arith, get-retain q k t.seen));
  kept = λ k above m. elim (ℕ_discrete k q) [
    | yes same ↦ absurd (least.absent (rw (← same) m))
    | no other ↦ elim (leb_cases k t.lowest_removed) [
      | inl old ↦ absurd (least.absent (v.low q least.positive (omega (arith, least.positive))))
      | inr recent ↦ ground (arith, get-retain q k t.seen, v.kept k recent m)
    ]
  ];
}

insert-IsTracked :
    (numbers : List ℕ) (t : MissingSequenceTracker) (num : ℕ)
    → IsTracked numbers t
    → 0 < num
    → t.lowest_removed < num
    → IsTracked (num ∷ numbers) (record t {
      seen = HashMap.insert num tt t.seen;
      highest_seen = if ltb t.highest_seen num then num else t.highest_seen;
    })
insert-IsTracked numbers t num v positive recent = record {
  distinct = insert-Distinct num tt t.seen v.distinct;
  within = λ k e. ground (arith, eqb_iff num k, get-insert num k tt t.seen, v.within k, v.ordered);
  ordered = ground (arith, v.ordered);
  bounds = λ k m. elim m [ inl same ↦ ground arith | inr old ↦ ground (arith, v.bounds k old) ];
  low = λ k above small. inr (v.low k above small);
  known = λ k e. elim (ℕ_discrete num k) [
    | yes same ↦ inl same
    | no other ↦ inr (v.known k (ground (arith, eqb_iff num k, get-insert num k tt t.seen)))
  ];
  kept = λ k above m. elim m [
    | inl same ↦ ground (arith, eqb_iff num k, get-insert num k tt t.seen)
    | inr old ↦ ground (arith, get-insert num k tt t.seen, v.kept k above old)
  ];
}

compact-IsTracked :
    (numbers : List ℕ) (t : MissingSequenceTracker)
    → IsTracked numbers t
    → (t' : MissingSequenceTracker) × (compact t ≡ some t') × IsTracked numbers t'
unfolding compact
compact-IsTracked numbers t v = elim (Bool-cases (ltb max_seen (length t.seen))) [
  | inr small ↦ (t, rw small refl, v)
  | inl large ↦
      let (q, answer, least) = query-IsLeast numbers t v in
      (
        record t { seen = retain q t.seen; lowest_removed = q - 1 },
        rw (large, answer) refl,
        retain-IsTracked numbers t q v least,
      )
]

-- A positive number that was not added before is accepted, and the tracker knows of it.
pub add-IsTracked :
    (numbers : List ℕ) (t : MissingSequenceTracker) (num : ℕ)
    → IsTracked numbers t
    → 0 < num
    → ¬ Mem num numbers
    → (t' : MissingSequenceTracker) × (add t num ≡ some t') × IsTracked (num ∷ numbers) t'
unfolding add HashMap.contains_key
add-IsTracked numbers t num v positive fresh = elim (leb_cases num t.lowest_removed) [
  | inl old ↦ absurd (fresh (v.low num positive old))
  | inr recent ↦
      let (t', done, v') =
        compact-IsTracked (num ∷ numbers) _ (insert-IsTracked numbers t num v positive recent) in
      let nonzero : (num == 0) ≡ false = ground arith in
      let absent : HashMap.contains_key num t.seen ≡ false =
        elim (Option-cases (HashMap.get num t.seen)) [
          | inl e ↦ ground (arith, e)
          | inr (_, e) ↦ absurd (fresh (v.known num e))
        ] in
      (t', rw nonzero (rw absent done), v')
]

-- The numbers, the last one first, are positive and all different.
abbrev pub Fresh : List ℕ → Type 0
Fresh [] = Unit
Fresh (n ∷ ns) = (0 < n) × (¬ Mem n ns) × Fresh ns

unfoldable pub add_all : List ℕ → Option MissingSequenceTracker
add_all [] = some new
add_all (n ∷ ns) = elim (add_all ns) [ none ↦ none | some t ↦ add t n ]

add_all-IsTracked :
    (ns : List ℕ) → Fresh ns → (t : MissingSequenceTracker) × (add_all ns ≡ some t) × IsTracked ns t
unfolding add_all
add_all-IsTracked [] fresh = (new, refl, new-IsTracked)
add_all-IsTracked (n ∷ ns) fresh =
    let (t, done, v) = add_all-IsTracked ns fresh.2 in
    let (t', last, v') = add-IsTracked ns t n v fresh.0 fresh.1 in (t', rw done last, v')

-- A new tracker to which different positive numbers are added, in any order and however many, accepts
-- them all, and its query then returns the least positive number that was not among them.
pub added-IsLeast :
    (ns : List ℕ)
    → Fresh ns
    → (t : MissingSequenceTracker) × (add_all ns ≡ some t)
      × ((q : ℕ) × (query t ≡ some q) × IsLeast ns q)
added-IsLeast ns fresh =
    let (t, done, v) = add_all-IsTracked ns fresh in (t, done, query-IsLeast ns t v)
