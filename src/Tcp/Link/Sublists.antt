-- ===== src/Tcp/Link/Sublists.antt =====
-- Lists of buffers that are left when some are taken out.
use mathlib.Core.List.Sublistᴰ
use mathlib.Core.List.{Sublistᴰ, append-nil}
use bdspro_udp_v.Common.{
  List, Mem, ap, arith, inl, inr, nat_eq, refl, string_eq, subst, ◌++◌, ◌∷◌, ◌≡◌, ◌≤◌,
}
use bdspro_udp_v.Tcp.Protocol.{TupleBuffer, Sequence, sequence_eq, sequence}
use bdspro_udp_v.Tcp.Channel.History.{occurrences}

pub prefix : (xs ys : List TupleBuffer) → Sublistᴰ xs (xs ++ ys)
prefix xs ys =
    subst (λ zs. Sublistᴰ zs (xs ++ ys)) (append-nil xs)
      (Sublistᴰ.append (Sublistᴰ.refl xs) (Sublistᴰ.nil-sublist ys))

occurrences-Sublistᴰ :
    (q : Sequence) {xs ys : List TupleBuffer} → Sublistᴰ xs ys → occurrences q xs ≤ occurrences q ys
unfolding occurrences
occurrences-Sublistᴰ q Sublistᴰ.slnil = omega arith
occurrences-Sublistᴰ q (Sublistᴰ.cons {a} s) = ground (arith, occurrences-Sublistᴰ q s)
occurrences-Sublistᴰ q (Sublistᴰ.cons-cons {a} {b} e s) =
    rw e (ground (arith, occurrences-Sublistᴰ q s))

-- A sublist with every sequence as often as the list is the list.
pub full :
    {xs ys : List TupleBuffer}
    → Sublistᴰ xs ys
    → ((b : TupleBuffer) → Mem b ys → occurrences (sequence b) ys ≤ occurrences (sequence b) xs)
    → xs ≡ ys
unfolding occurrences
full Sublistᴰ.slnil all = refl
full (Sublistᴰ.cons {a} s) all = absurd (
    ground (
      arith,
      sequence_eq.same_iff (sequence a) (sequence a),
      all a (inl refl),
      occurrences-Sublistᴰ (sequence a) s,
    ))
full (Sublistᴰ.cons-cons {a} {b} e s) all =
    rw e (ap (◌∷◌ b) (full s (λ c m. ground (arith, e, all c (inr m)))))
