-- ===== src/Tcp/Registry/Offers.antt =====
-- What `control_socket` of network/src/receiver.rs has of a channel, by what it was offered with last.
use bdspro_udp_v.Common.{
  Bool, List, Mem, Option, Option-cases, [], arith, if◌then◌else◌, inl, inr, nat_eq, none, some,
  string_eq, ℕ, ◌==◌, ◌∷◌, ◌≡◌,
}
use bdspro_udp_v.HashMap
use bdspro_udp_v.HashMap.{
  HashMap, Distinct, get-insert, get-remove, insert-Distinct, remove-Distinct,
}
use bdspro_udp_v.Tcp.Protocol.{ChannelIdentifier, ConnectionIdentifier}
use bdspro_udp_v.Tcp.Registry.{
  Entry, Registry, open_channel, on_request, on_register, on_retry, on_shutdown, retain_registered,
}
use bdspro_udp_v.Tcp.Registry.Service.{
  NetworkingServiceControl, retry_channel, register_channel, Turn, Move, reads, asks, on_control,
  control_loop,
}

abbrev pub channel_of : NetworkingServiceControl → ChannelIdentifier
channel_of (retry_channel channel e) = channel
channel_of (register_channel channel queue) = channel

abbrev pub entry_of : NetworkingServiceControl → ℕ → Entry
entry_of (retry_channel channel e) token = e
entry_of (register_channel channel queue) token = record { queue = queue; token = token }

-- What the channel was offered with last, after `before`, if no sender has asked for it since then.
unfoldable pub last_offer : ChannelIdentifier → Option Entry → List Move → Option Entry
last_offer c before [] = before
last_offer c before (reads m t ∷ ms) =
    last_offer c (if channel_of m == c then some (entry_of m t.token) else before) ms
last_offer c before (asks connection channel active is_cancelled port written ∷ ms) =
    last_offer c (if channel == c then none else before) ms

retain_absent :
    (is_cancelled : ℕ → Bool) (c : ChannelIdentifier) (m : HashMap ChannelIdentifier Entry)
    → HashMap.get c m ≡ none
    → HashMap.get c (retain_registered is_cancelled m) ≡ none
unfolding HashMap.get retain_registered
retain_absent is_cancelled c [] gone = gone
retain_absent is_cancelled c ((j, d) ∷ m) gone = ground (arith, retain_absent is_cancelled c m)

retain-Distinct :
    (is_cancelled : ℕ → Bool) (m : HashMap ChannelIdentifier Entry)
    → Distinct m
    → Distinct (retain_registered is_cancelled m)
unfolding retain_registered
retain-Distinct is_cancelled [] d = tt
retain-Distinct is_cancelled ((j, e) ∷ m) d =
    ground (arith, retain_absent is_cancelled j m d.0, retain-Distinct is_cancelled m d.1)

retained_get :
    (is_cancelled : ℕ → Bool) (c : ChannelIdentifier) (m : HashMap ChannelIdentifier Entry)
    (e : Entry)
    → Distinct m
    → HashMap.get c (retain_registered is_cancelled m) ≡ some e
    → HashMap.get c m ≡ some e
unfolding HashMap.get retain_registered
retained_get is_cancelled c [] e d found = found
retained_get is_cancelled c ((j, x) ∷ m) e d found = ground (
  arith,
  string_eq.same_iff j c,
  retain_absent is_cancelled j m d.0,
  retained_get is_cancelled c m e d.1,
)

pub on_shutdown-get :
    (m : HashMap ChannelIdentifier Entry) (token : ℕ)
    → Distinct m
    → Mem token (on_shutdown m)
    → (c : ChannelIdentifier) × (e : Entry) × (HashMap.get c m ≡ some e) × (e.token ≡ token)
unfolding HashMap.get on_shutdown
on_shutdown-get [] token d there = absurd there
on_shutdown-get ((j, x) ∷ m) token d (inl same) =
    (j, x, ground (arith, string_eq.same_iff j j), same)
on_shutdown-get ((j, x) ∷ m) token d (inr later) =
    let (c, e, found, same) = on_shutdown-get m token d.1 later in
    (c, e, ground (arith, string_eq.same_iff j c, found, d.0), same)

-- What the table has of a channel is its last offer, and no channel is there twice.
pub record Offers (m : HashMap ChannelIdentifier Entry) (offer : ChannelIdentifier → Option Entry)
    : Type 0 where
  pub there : (c : ChannelIdentifier) (e : Entry) → HashMap.get c m ≡ some e → offer c ≡ some e
  pub distinct : Distinct m

insert-Offers :
    (m : HashMap ChannelIdentifier Entry) (offer : ChannelIdentifier → Option Entry)
    (channel : ChannelIdentifier) (d : Entry)
    → Offers m offer
    → Offers (HashMap.insert channel d m) (λ c. if channel == c then some d else offer c)
insert-Offers m offer channel d v = record {
  there = λ c e found. ground (arith, found, get-insert channel c d m, v.there c e);
  distinct = insert-Distinct channel d m v.distinct;
}

on_control-Offers :
    (r : Registry) (m : NetworkingServiceControl) (t : Turn)
    (offer : ChannelIdentifier → Option Entry)
    → Offers r.registered offer
    → Offers
        (on_control r m t).0.registered
        (λ c. if channel_of m == c then some (entry_of m t.token) else offer c)
unfolding on_control on_register on_retry
on_control-Offers r (retry_channel channel d) t offer v =
    insert-Offers r.registered offer channel d v
on_control-Offers r (register_channel channel queue) t offer v =
    insert-Offers (retain_registered t.is_cancelled r.registered) offer channel
      (record { queue = queue; token = t.token })
      (record {
        there = λ c e found.
            v.there c e (retained_get t.is_cancelled c r.registered e v.distinct found);
        distinct = retain-Distinct t.is_cancelled r.registered v.distinct;
      })

on_request-Offers :
    (r : Registry) (connection : ConnectionIdentifier) (channel : ChannelIdentifier)
    (active : List ℕ) (is_cancelled : ℕ → Bool) (port : ℕ) (written : Bool)
    (offer : ChannelIdentifier → Option Entry)
    → Offers r.registered offer
    → Offers
        (on_request r connection channel active is_cancelled port written).0.registered
        (λ c. if channel == c then none else offer c)
unfolding on_request open_channel
on_request-Offers r connection channel active is_cancelled port written offer v =
    elim (Option-cases (HashMap.get channel r.registered)) [
      | inl gone ↦
          rw (on_request, gone)
            (record {
              there = λ c e found.
                  ground (arith, found, gone, string_eq.same_iff channel c, v.there c e found);
              distinct = v.distinct;
            })
      | inr (d, is_there) ↦
          rw (on_request, is_there)
            (record {
              there = λ c e found.
                  ground (arith, found, get-remove channel c r.registered, v.there c e);
              distinct = remove-Distinct channel r.registered v.distinct;
            })
    ]

pub control_loop-Offers :
    (ms : List Move) (r : Registry) (offer : ChannelIdentifier → Option Entry)
    → Offers r.registered offer
    → Offers (control_loop r ms).registered (λ c. last_offer c (offer c) ms)
unfolding control_loop last_offer
control_loop-Offers [] r offer v = v
control_loop-Offers (reads m t ∷ ms) r offer v =
    control_loop-Offers ms (on_control r m t).0 _ (on_control-Offers r m t offer v)
control_loop-Offers (asks connection channel active is_cancelled port written ∷ ms) r offer v =
    control_loop-Offers ms (on_request r connection channel active is_cancelled port written).0 _
      (on_request-Offers r connection channel active is_cancelled port written offer v)
