-- ===== src/Bridge/Carried.antt =====
-- What one side of the bridge sends, and what the other builds.
use mathlib.Core.List.{append_assoc, append-nil}
use bdspro_udp_v.Common.{
  Bool, List, Mem, [], ap, arith, false, if◌then◌else◌, inl, inr, map, nat_eq, refl, some,
  string_eq, suc, sym, true, zero, ℕ, ◌%◌, ◌&&◌, ◌++◌, ◌∙◌, ◌∷◌, ◌≡◌, ◌≢◌,
}
use bdspro_udp_v.Tcp.Protocol.{TupleBuffer}
use bdspro_udp_v.Tcp.Channel.{ChannelControlMessage, buffer}
use bdspro_udp_v.Node.Generator.{generate, children, child_size, fill}
use bdspro_udp_v.Bridge.{
  SerializedTupleBuffer, Built, set_metadata, set_data, add_child_buffer, Received, returned,
  panics, add_children, receive_buffer, buffer_of, metadata_of, TrySend, taken, closed,
  send_channel,
}

abbrev pub is_filled : List ℕ → Bool
is_filled [] = false
is_filled (byte ∷ bytes) = true

abbrev pub all_filled : List (List ℕ) → Bool
all_filled [] = true
all_filled (c ∷ cs) = is_filled c && all_filled cs

-- The children before the first that is empty.
abbrev pub leading : List (List ℕ) → List (List ℕ)
leading [] = []
leading ([] ∷ cs) = []
leading ((byte ∷ bytes) ∷ cs) = (byte ∷ bytes) ∷ leading cs

abbrev pub Panics : Received → Type 0
Panics (returned answer built) = ⊥
Panics (panics built) = Unit

add_children_lem :
    (built : List Built) (cs : List (List ℕ))
    → add_children built cs ≡ (
        if all_filled cs
        then returned true (built ++ map add_child_buffer cs)
        else panics (built ++ map add_child_buffer (leading cs)))
unfolding add_children
add_children_lem built [] = ap (returned true) (sym (append-nil built))
add_children_lem built ([] ∷ rest) = ap panics (sym (append-nil built))
add_children_lem built ((byte ∷ bytes) ∷ rest) =
    add_children_lem (built ++ add_child_buffer (byte ∷ bytes) ∷ []) rest
    ∙ rw
        (
          append_assoc built (add_child_buffer (byte ∷ bytes) ∷ []) (map add_child_buffer rest),
          append_assoc built (add_child_buffer (byte ∷ bytes) ∷ [])
              (map add_child_buffer (leading rest)),
        )
        refl

add_children-Panics :
    (built : List Built) (cs : List (List ℕ)) → Mem [] cs → Panics (add_children built cs)
unfolding add_children
add_children-Panics built [] m = absurd m
add_children-Panics built ([] ∷ rest) m = tt
add_children-Panics built ((byte ∷ bytes) ∷ rest) (inl e) = absurd (ground (arith, e))
add_children-Panics built ((byte ∷ bytes) ∷ rest) (inr m) =
    add_children-Panics (built ++ add_child_buffer (byte ∷ bytes) ∷ []) rest m

abbrev buffer_in : TupleBuffer → List ChannelControlMessage → TupleBuffer
buffer_in b (buffer c ∷ _) = c
buffer_in b _ = b

-- A buffer that `send_channel` put into the queue is built at the other side with its metadata, its
-- data and its child buffers in order, if none of these is empty; otherwise the receiving call panics, when
-- it has built what comes before the first empty child.
pub receive-send :
    (m : SerializedTupleBuffer) (bytes : List ℕ) (cs : List (List ℕ)) (answer : TrySend)
    (b : TupleBuffer)
    → (send_channel m bytes cs answer).0 ≡ buffer b ∷ []
    → receive_buffer (some b) ≡ (
        if all_filled cs
        then returned true (set_metadata m ∷ set_data bytes ∷ map add_child_buffer cs)
        else panics (set_metadata m ∷ set_data bytes ∷ map add_child_buffer (leading cs)))
unfolding send_channel receive_buffer
receive-send m bytes cs taken b e =
    rw (← ap (buffer_in (buffer_of m bytes cs)) e)
      (add_children_lem (set_metadata m ∷ set_data bytes ∷ []) cs)
receive-send m bytes cs TrySend.full b e = absurd (ground (arith, e))
receive-send m bytes cs closed b e = absurd (ground (arith, e))

first_child :
    (counter count : ℕ) → count ≢ 0 → child_size counter 0 ≡ 0 → Mem [] (children count counter 0)
unfolding children fill
first_child counter zero any empty = absurd (any refl)
first_child counter (suc count) any empty = inl (rw empty refl)

-- The generator of the test node makes such buffers: whenever its counter is divisible by 8 and not by 3, the
-- receiving call panics at the buffer that it makes.
pub generate-Panics :
    (counter : ℕ)
    → counter % 8 ≡ 0
    → counter % 3 ≢ 0
    → Panics (receive_buffer (some (generate counter)))
unfolding receive_buffer generate
generate-Panics counter even three =
    add_children-Panics
      (set_metadata (metadata_of (generate counter)) ∷ set_data (fill 16 counter 0 16) ∷ [])
      (children (counter % 3) counter 0) (first_child counter (counter % 3) three (omega arith))
