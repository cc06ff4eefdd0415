-- ===== src/Node/Generator.antt =====
-- `GeneratorSource`, `verify_tuple_buffer` and `PrintSink` of test-node/src/main.rs: buffers made from a
-- counter, and their check at the other end. A `Cursor` over a vector grows it when it is written past
-- the end, and a `BytesMut` that is made with a capacity has exactly this one. The products and the
-- counter of `PrintSink` are taken to stay in the range of `usize`.
pub mod Verified
use bdspro_udp_v.Common.{
  All, All-Mem, All-append, All-mono, All_of_Mem, Bool, Bool-cases, Eq, List, Mem, Option,
  Option-cases, String, [], ap, arith, eq_iff, eqb, eqb_iff, false, if◌then◌else◌, inl, inr, leb,
  length, length-append, ltb, map, nat_eq, none, not, pair_eq, pair_same, refl, replicate, some,
  string_eq, subst, suc, sym, take, take_of_length-le, true, zero, ℕ, ℕ_discrete, ◌%◌, ◌&&◌, ◌*◌,
  ◌++◌, ◌+◌, ◌-◌, ◌/◌, ◌<◌, ◌==◌, ◌^◌, ◌||◌, ◌↔◌, ◌∙◌, ◌∷◌, ◌≡◌, ◌≢◌, ◌≤◌, ◌⊎◌,
}
use bdspro_udp_v.Tcp.Protocol.{TupleBuffer}
use bdspro_udp_v.Node.Tracker
use bdspro_udp_v.Node.Tracker.{MissingSequenceTracker}

-- `usize::to_le_bytes`, byte by byte.
unfoldable pub le_bytes : ℕ → ℕ → List ℕ
le_bytes zero n = []
le_bytes (suc count) n = n % 256 ∷ le_bytes count (n / 256)

abbrev pub usize_bytes : ℕ
usize_bytes = 8

-- `while cursor.has_remaining()` over a vector of `len` bytes, from a position on. `fuel` bounds the
-- turns; the length is enough, as each turn writes eight bytes.
unfoldable pub fill : ℕ → ℕ → ℕ → ℕ → List ℕ
unfolding le_bytes
fill zero value position len = []
fill (suc fuel) value position len =
    let rest = fill fuel value (position + usize_bytes) len in
    if ltb position len then le_bytes usize_bytes value ++ rest else []

-- `while expected_buffer.len() + size_of::<usize>() <= expected_buffer.capacity()`, from a length on.
unfoldable pub fill_capacity : ℕ → ℕ → ℕ → ℕ → List ℕ
unfolding le_bytes
fill_capacity zero value len capacity = []
fill_capacity (suc fuel) value len capacity =
    let rest = fill_capacity fuel value (len + usize_bytes) capacity in
    if leb (len + usize_bytes) capacity then le_bytes usize_bytes value ++ rest else []

abbrev pub child_size : ℕ → ℕ → ℕ
child_size counter idx = (idx + 1) * (10 * counter) % 16

-- `for idx in 0..count`, from an index on.
unfoldable pub children : ℕ → ℕ → ℕ → List (List ℕ)
unfolding fill
children zero counter idx = []
children (suc count) counter idx =
    fill (child_size counter idx) counter 0 (child_size counter idx)
    ∷ children count counter (idx + 1)

-- The buffer that the source emits when its counter stands at a value.
unfoldable pub generate : ℕ → TupleBuffer
unfolding fill children
generate counter = record {
  sequence_number = counter + 1;
  origin_id = 1;
  watermark = 2;
  chunk_number = 1;
  number_of_tuples = 1;
  last_chunk = true;
  bytes = fill 16 counter 0 16;
  child_buffers = children (counter % 3) counter 0;
}

-- The loop of the check over `0..count`, from an index on: it fills a buffer of its own for each child.
unfoldable pub expected_children : ℕ → ℕ → ℕ → List (List ℕ)
unfolding fill
expected_children zero counter idx = []
expected_children (suc count) counter idx =
    let size = (idx + 1) * (10 * counter) % 16 in
    fill size counter 0 size ∷ expected_children count counter (idx + 1)

unfoldable pub bytes_equal : List ℕ → List ℕ → Bool
bytes_equal [] [] = true
bytes_equal (a ∷ l) (b ∷ m) = a == b && bytes_equal l m
bytes_equal _ _ = false

-- The comparison of the lengths and then of the children.
unfoldable pub children_equal : List (List ℕ) → List (List ℕ) → Bool
unfolding bytes_equal
children_equal [] [] = true
children_equal (a ∷ l) (b ∷ m) = bytes_equal a b && children_equal l m
children_equal _ _ = false

-- `none` is the overflow of `sequence_number - 1`.
unfoldable pub verify_tuple_buffer : TupleBuffer → Option Bool
unfolding fill_capacity expected_children bytes_equal children_equal
verify_tuple_buffer received =
    if received.sequence_number == 0
    then none
    else (let counter = received.sequence_number - 1 in
        some (
          bytes_equal received.bytes (fill_capacity 16 counter 0 16)
          && children_equal received.child_buffers (expected_children (counter % 3) counter 0)))

pub record PrintSink : Type 0 where
  pub sequence_tracker : MissingSequenceTracker
  pub counter : ℕ
  pub expected_messages : Option ℕ
  pub expected_messages_uncertainty : Option ℕ

-- A buffer that is not valid is logged and counted all the same; a panic of the tracker is one of the
-- call.
unfoldable pub execute : PrintSink → TupleBuffer → Option PrintSink
unfolding verify_tuple_buffer Tracker.add
execute s received = elim (verify_tuple_buffer received) [
  | none ↦ none
  | some _ ↦ elim (Tracker.add s.sequence_tracker received.sequence_number) [
    | none ↦ none
    | some tracker ↦ some (record s { sequence_tracker = tracker; counter = s.counter + 1 })
  ]
]

abbrev pub or_zero : Option ℕ → ℕ
or_zero none = 0
or_zero (some n) = n

-- Whether `stop` finds as many messages as were expected; `none` is the overflow of the difference.
unfoldable pub receive_check : PrintSink → Option Bool
receive_check s = elim s.expected_messages [
  | none ↦ some true
  | some expected ↦
      let uncertainty = or_zero s.expected_messages_uncertainty in
      if ltb expected uncertainty
      then none
      else some (leb (expected - uncertainty) s.counter && leb s.counter (expected + uncertainty))
]
