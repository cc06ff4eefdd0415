-- ===== src/Node/Tracker.antt =====
-- `MissingSequenceTracker` of test-node/src/main.rs: the numbers seen, less those that were dropped
-- when there were too many. The number after the highest seen is taken to stay in the range of
-- `u64`.
pub mod Counting
pub mod Least
pub mod Adding
use bdspro_udp_v.Common.{
  All, All-Mem, All-append, All-mono, All_of_Mem, Bool, Bool-cases, Eq, List, Mem, Option,
  Option-cases, String, [], ap, arith, eq_iff, eqb, eqb_iff, false, if◌then◌else◌, inl, inr, leb,
  length, length-append, ltb, map, nat_eq, none, not, pair_eq, pair_same, refl, replicate, some,
  string_eq, subst, suc, sym, take, take_of_length-le, true, zero, ℕ, ℕ_discrete, ◌%◌, ◌&&◌, ◌*◌,
  ◌++◌, ◌+◌, ◌-◌, ◌/◌, ◌<◌, ◌==◌, ◌^◌, ◌||◌, ◌↔◌, ◌∙◌, ◌∷◌, ◌≡◌, ◌≢◌, ◌≤◌, ◌⊎◌,
}
use bdspro_udp_v.HashMap
use bdspro_udp_v.HashMap.{HashMap}

pub record MissingSequenceTracker : Type 0 where
  pub seen : HashMap ℕ (Unit {0})
  pub highest_seen : ℕ
  pub lowest_removed : ℕ

abbrev pub new : MissingSequenceTracker
new = record { seen = []; highest_seen = 0; lowest_removed = 0 }

abbrev pub max_seen : ℕ
max_seen = 1000

-- The loop over `count` offsets from `i` on; `none` is the `unreachable!` after it.
unfoldable pub search : MissingSequenceTracker → ℕ → ℕ → Option ℕ
unfolding HashMap.contains_key
search t zero i = none
search t (suc count) i =
    let rest = search t count (i + 1) in
    if HashMap.contains_key (i + t.lowest_removed) t.seen then rest else some (i + t.lowest_removed)

unfoldable pub query : MissingSequenceTracker → Option ℕ
unfolding search
query t =
    if length t.seen == t.highest_seen - t.lowest_removed
    then some (t.highest_seen + 1)
    else search t t.highest_seen 1

-- `retain(|&x| x > lowest)`
unfoldable pub retain : ℕ → HashMap ℕ (Unit {0}) → HashMap ℕ (Unit {0})
retain lowest [] = []
retain lowest ((x, v) ∷ m) = if ltb lowest x then (x, v) ∷ retain lowest m else retain lowest m

unfoldable pub compact : MissingSequenceTracker → Option MissingSequenceTracker
unfolding query retain
compact t =
    if ltb max_seen (length t.seen)
    then (elim (query t) [
      | none ↦ none
      | some lowest ↦ some (record t { seen = retain lowest t.seen; lowest_removed = lowest - 1 })
    ])
    else some t

-- `none` is a panic.
unfoldable pub add : MissingSequenceTracker → ℕ → Option MissingSequenceTracker
unfolding compact HashMap.contains_key
add t num =
    if num == 0
    then none
    else if HashMap.contains_key num t.seen
    then none
    else compact (record t {
      seen = HashMap.insert num tt t.seen;
      highest_seen = if ltb t.highest_seen num then num else t.highest_seen;
    })
