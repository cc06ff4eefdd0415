-- ===== src/Tcp/Registry/Attached.antt =====
-- How often a queue gets a stream.
use bdspro_udp_v.Common.{
  Bool, Bool-cases, Eq, List, Option, [], ap, arith, get_elem?, if◌then◌else◌, inl, inr, nat_eq,
  none, some, string_eq, suc, sym, zero, ℕ, ◌&&◌, ◌++◌, ◌+◌, ◌==◌, ◌∷◌, ◌≡◌, ◌≤◌,
}
use bdspro_udp_v.HashMap
use bdspro_udp_v.HashMap.{
  HashMap, Distinct, get-insert, get-remove, insert-Distinct, remove-Distinct, length-insert_fresh,
  length-remove, remove_absent,
}
use bdspro_udp_v.Tcp.Protocol.{ChannelIdentifier, ConnectionIdentifier}
use bdspro_udp_v.Tcp.Registry.{
  Entry, Registry, open_key_eq, on_request, on_stream, on_register, on_retry, on_spawned, remove_at,
}

-- What happens to the tables, whatever becomes of the replies.
pub data Event : Type 0 where
  requests : ConnectionIdentifier → ChannelIdentifier → List ℕ → (ℕ → Bool) → ℕ → Bool → Event
  streams : ConnectionIdentifier → ChannelIdentifier → Event
  registers : ChannelIdentifier → Entry → (ℕ → Bool) → Bool → Event
  retries : ChannelIdentifier → Entry → Event
  opens : ℕ → Event

unfoldable pub step : Registry → Event → Registry
step r (requests connection channel active is_cancelled port written) =
    (on_request r connection channel active is_cancelled port written).0
step r (streams connection channel) = (on_stream r connection channel).0
step r (registers channel e is_cancelled is_there) =
    (on_register r channel e is_cancelled is_there).0
step r (retries channel e) = on_retry r channel e
step r (opens n) = on_spawned r n

unfoldable pub run : Registry → List Event → Registry
run r [] = r
run r (e ∷ es) = run (step r e) es

abbrev pub matches : ChannelIdentifier → ℕ → ChannelIdentifier → Entry → ℕ
matches c q channel e = if channel == c && e.queue == q then 1 else 0

abbrev pub matches_some : ChannelIdentifier → ℕ → ChannelIdentifier → Option Entry → ℕ
matches_some c q channel none = 0
matches_some c q channel (some e) = matches c q channel e

-- The streams that the queue got under the channel.
unfoldable pub attached : ChannelIdentifier → ℕ → Registry → List Event → ℕ
attached c q r [] = 0
attached c q r (streams connection channel ∷ es) =
    matches_some c q channel (on_stream r connection channel).1
    + attached c q (on_stream r connection channel).0 es
attached c q r (requests connection channel active is_cancelled port written ∷ es) =
    attached c q (step r (requests connection channel active is_cancelled port written)) es
attached c q r (registers channel e is_cancelled is_there ∷ es) =
    attached c q (step r (registers channel e is_cancelled is_there)) es
attached c q r (opens n ∷ es) = attached c q (step r (opens n)) es
attached c q r (retries channel e ∷ es) = attached c q (step r (retries channel e)) es

-- How often it was registered, or was to be opened again.
unfoldable pub offered : ChannelIdentifier → ℕ → List Event → ℕ
offered c q [] = 0
offered c q (registers channel e is_cancelled is_there ∷ es) =
    matches c q channel e + offered c q es
offered c q (retries channel e ∷ es) = matches c q channel e + offered c q es
offered c q (requests _ _ _ _ _ _ ∷ es) = offered c q es
offered c q (streams _ _ ∷ es) = offered c q es
offered c q (opens _ ∷ es) = offered c q es

-- The weight of a table.
module _ {K : Type 0} ⦃k : Eq K⦄ (f : K → Entry → ℕ) where
  unfoldable pub weight : HashMap K Entry → ℕ
  weight [] = 0
  weight ((j, e) ∷ m) = f j e + weight m

  weight-remove : (j : K) (m : HashMap K Entry) → weight (HashMap.remove j m) ≤ weight m
  unfolding weight HashMap.remove
  weight-remove j [] = omega arith
  weight-remove j ((i, e) ∷ m) = ground (arith, weight-remove j m)

  pub weight-removed :
      (j : K) (m : HashMap K Entry) (e : Entry)
      → HashMap.get j m ≡ some e
      → f j e + weight (HashMap.remove j m) ≤ weight m
  unfolding weight HashMap.remove HashMap.get
  weight-removed j [] e found = absurd (ground arith)
  weight-removed j ((i, d) ∷ m) e found = elim (Bool-cases (i == j)) [
    | inl same ↦ ground (arith, k.same_iff i j, weight-remove j m)
    | inr other ↦ ground (arith, weight-removed j m e)
  ]

  pub weight-insert :
      (j : K) (e : Entry) (m : HashMap K Entry) → weight (HashMap.insert j e m) ≤ f j e + weight m
  unfolding weight HashMap.insert
  weight-insert j e m = omega (arith, weight-remove j m)

  pub weight-append :
      (m : HashMap K Entry) (j : K) (e : Entry) → weight (m ++ (j, e) ∷ []) ≡ weight m + f j e
  unfolding weight
  weight-append [] j e = omega arith
  weight-append ((i, d) ∷ m) j e = omega (arith, weight-append m j e)

  pub weight-remove_at :
      (m : HashMap K Entry) (n : ℕ) (j : K) (e : Entry)
      → get_elem? m n ≡ some (j, e)
      → f j e + weight (remove_at n m) ≡ weight m
  unfolding weight get_elem? remove_at
  weight-remove_at [] n j e there = absurd (ground (arith, there))
  weight-remove_at ((i, d) ∷ m) zero j e there =
      sym (ap (λ o. elim o [ none ↦ 0 | some (i', d') ↦ f i' d' + weight m ]) there)
  weight-remove_at ((i, d) ∷ m) (suc n) j e there = omega (arith, weight-remove_at m n j e there)
