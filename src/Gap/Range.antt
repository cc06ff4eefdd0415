-- ===== src/Gap/Range.antt =====
-- The range of the numbers seen.
use bdspro_udp_v.Common.{
  Option, Option-cases, arith, eqb_iff, if◌then◌else◌, inl, inr, ltb, nat_eq, none, refl, some,
  string_eq, ℕ, ◌==◌, ◌≡◌, ◌≤◌,
}
use bdspro_udp_v.HashMap
use bdspro_udp_v.HashMap.{
  HashMap, Distinct, get-insert, get-remove, insert-Distinct, remove-Distinct, length-insert_fresh,
  length-remove, remove_absent,
}
use bdspro_udp_v.Gap.{Receiver, widen, settle, note_data, goes}

-- The two ends are seen numbers with all seen numbers between them; both are absent at the start.
abbrev pub Spans : Option ℕ → Option ℕ → HashMap ℕ (Unit {0}) → Type 0
Spans none none seen = (k : ℕ) → HashMap.get k seen ≡ none
Spans (some min) (some max) seen =
    (HashMap.get min seen ≡ some tt)
    × (HashMap.get max seen ≡ some tt)
    × ((k : ℕ) → HashMap.get k seen ≡ some tt → (min ≤ k) × (k ≤ max))
Spans _ _ seen = ⊥

widen-Spans :
    (min max : Option ℕ) (seen : HashMap ℕ (Unit {0})) (seq : ℕ)
    → Spans min max seen
    → (min' max' : Option ℕ) × (widen min max seq ≡ goes (min', max'))
      × Spans min' max' (HashMap.insert seq tt seen)
unfolding widen
widen-Spans none none seen seq h = (
  some seq,
  some seq,
  refl,
  (
    ground (arith, get-insert seq seq tt seen),
    ground (arith, get-insert seq seq tt seen),
    λ k e. ground (arith, get-insert seq k tt seen, h k),
  ),
)
widen-Spans (some min) (some max) seen seq h =
    let lo : ℕ = if ltb seq min then seq else min in
    let hi : ℕ = if ltb max seq then seq else max in
    (
      some lo,
      some hi,
      ground arith,
      (
        ground (arith, get-insert seq lo tt seen),
        ground (arith, get-insert seq hi tt seen),
        λ k e. ground (arith, get-insert seq k tt seen, h.2 k),
      ),
    )
widen-Spans none (some max) seen seq h = absurd h
widen-Spans (some min) none seen seq h = absurd h

-- What the ends of the receiver's range are.
abbrev pub Ranged : Receiver → Type 0
Ranged r = Spans r.min_seq r.max_seq r.received_seqs

pub settle_seen : (r : Receiver) (seq : ℕ) → (settle r seq).received_seqs ≡ r.received_seqs
unfolding settle
settle_seen r seq = ground arith

pub get_request-settle :
    (r : Receiver) (seq k : ℕ)
    → HashMap.get k (settle r seq).retransmission_requests
      ≡ (if seq == k then none else HashMap.get k r.retransmission_requests)
unfolding settle
get_request-settle r seq k = elim (Option-cases (HashMap.get seq r.retransmission_requests)) [
  | inl e ↦ ground (arith, e, eqb_iff seq k)
  | inr (time, e) ↦ ground (arith, e, get-remove seq k r.retransmission_requests)
]

settle_ends :
    (r : Receiver) (seq : ℕ)
    → ((settle r seq).min_seq ≡ r.min_seq) × ((settle r seq).max_seq ≡ r.max_seq)
unfolding settle
settle_ends r seq = ground arith

-- What a DATA message does where the range is as it should be.
abbrev pub Noted : Receiver → ℕ → Receiver → Type 0
Noted r seq r' =
    Ranged r'
    × (HashMap.get seq r'.retransmission_requests ≡ none)
    × ((k : ℕ)
        → HashMap.get k r'.received_seqs
          ≡ (if seq == k then some tt else HashMap.get k r.received_seqs))

pub note_data_lem :
    (r : Receiver) (seq : ℕ)
    → Ranged r
    → (r' : Receiver) × (note_data r seq ≡ goes r') × Noted r seq r'
unfolding note_data
note_data_lem r seq v =
    let (min', max', widened, spans) = widen-Spans r.min_seq r.max_seq r.received_seqs seq v in
    let r₁ : Receiver = record r {
      received_seqs = HashMap.insert seq tt r.received_seqs;
      min_seq = min';
      max_seq = max';
    } in
    let seen = settle_seen r₁ seq in
    let ends = settle_ends r₁ seq in
    (
      settle r₁ seq,
      rw widened refl,
      (
        rw (ends.0) (rw (ends.1) (rw seen spans)),
        ground (arith, eqb_iff seq seq, get_request-settle r₁ seq seq),
        λ k. rw seen (get-insert seq k tt r.received_seqs),
      ),
    )
