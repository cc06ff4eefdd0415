-- ===== src/Tcp/Registry/Stopped.antt =====
-- What comes of the channels when the loop of `control_socket` of network/src/receiver.rs ends.
use bdspro_udp_v.Common.{
  All, Bool, Bool-cases, List, Mem, Option, Option-cases, [], arith, false, if◌then◌else◌, inl, inr,
  nat_eq, none, some, string_eq, true, ℕ, ◌==◌, ◌∷◌, ◌≡◌, ◌⊎◌,
}
use bdspro_udp_v.HashMap
use bdspro_udp_v.HashMap.{
  HashMap, Distinct, get-insert, get-remove, insert-Distinct, remove-Distinct,
}
use bdspro_udp_v.Tcp.Protocol.{ChannelIdentifier, ConnectionIdentifier}
use bdspro_udp_v.Tcp.Registry.{
  Entry, Registry, new, open_channel, on_request, on_register, on_retry, on_shutdown,
  retain_registered,
}
use bdspro_udp_v.Tcp.Registry.Service.{
  NetworkingServiceControl, retry_channel, register_channel, Turn, Move, reads, asks, on_control,
  control_loop, at_end,
}
use bdspro_udp_v.Tcp.Registry.Offers.{
  channel_of, entry_of, last_offer, on_shutdown-get, control_loop-Offers,
}

get-on_shutdown :
    (c : ChannelIdentifier) (m : HashMap ChannelIdentifier Entry) (e : Entry)
    → HashMap.get c m ≡ some e
    → Mem e.token (on_shutdown m)
unfolding HashMap.get on_shutdown
get-on_shutdown c [] e found = absurd (ground arith)
get-on_shutdown c ((j, d) ∷ m) e found = elim (Bool-cases (j == c)) [
  | inl same ↦ inl (ground arith)
  | inr other ↦ inr (get-on_shutdown c m e (ground arith))
]

get-retain :
    (is_cancelled : ℕ → Bool) (c : ChannelIdentifier) (m : HashMap ChannelIdentifier Entry)
    (e : Entry)
    → HashMap.get c m ≡ some e
    → is_cancelled e.token ≡ false
    → HashMap.get c (retain_registered is_cancelled m) ≡ some e
unfolding HashMap.get retain_registered
get-retain is_cancelled c [] e found alive = found
get-retain is_cancelled c ((j, d) ∷ m) e found alive =
    ground (arith, string_eq.same_iff j c, get-retain is_cancelled c m e)

module _ (Ended : ℕ → Type 0) where
  -- The channel's last offer is in the table, or its token was cancelled.
  abbrev Kept : HashMap ChannelIdentifier Entry → ChannelIdentifier → Option Entry → Type 0
  Kept m c offer = (e : Entry) → offer ≡ some e → (HashMap.get c m ≡ some e) ⊎ Ended e.token

  -- A token that a message finds cancelled has ended.
  abbrev pub Finds : Move → Type 0
  Finds (reads m t) = (token : ℕ) → t.is_cancelled token ≡ true → Ended token
  Finds (asks connection channel active is_cancelled port written) = Unit

  insert-Kept :
      (m : HashMap ChannelIdentifier Entry) (c channel : ChannelIdentifier) (offer : Option Entry)
      (d : Entry)
      → Kept m c offer
      → Kept (HashMap.insert channel d m) c (if channel == c then some d else offer)
  insert-Kept m c channel offer d kept e now = elim (Bool-cases (channel == c)) [
    | inl same ↦ inl (ground (arith, get-insert channel c d m))
    | inr other ↦ elim (kept e (ground arith)) [
      | inl found ↦ inl (ground (arith, get-insert channel c d m))
      | inr ended ↦ inr ended
    ]
  ]

  retain-Kept :
      (is_cancelled : ℕ → Bool) (m : HashMap ChannelIdentifier Entry) (c : ChannelIdentifier)
      (offer : Option Entry)
      → ((token : ℕ) → is_cancelled token ≡ true → Ended token)
      → Kept m c offer
      → Kept (retain_registered is_cancelled m) c offer
  retain-Kept is_cancelled m c offer finds kept e now = elim (kept e now) [
    | inr ended ↦ inr ended
    | inl found ↦ elim (Bool-cases (is_cancelled e.token)) [
      | inl gone ↦ inr (finds e.token gone)
      | inr alive ↦ inl (get-retain is_cancelled c m e found alive)
    ]
  ]

  on_control-Kept :
      (r : Registry) (m : NetworkingServiceControl) (t : Turn) (c : ChannelIdentifier)
      (offer : Option Entry)
      → Finds (reads m t)
      → Kept r.registered c offer
      → Kept
          (on_control r m t).0.registered
          c
          (if channel_of m == c then some (entry_of m t.token) else offer)
  unfolding on_control on_register on_retry
  on_control-Kept r (retry_channel channel d) t c offer finds kept =
      insert-Kept r.registered c channel offer d kept
  on_control-Kept r (register_channel channel queue) t c offer finds kept =
      insert-Kept (retain_registered t.is_cancelled r.registered) c channel offer
        (record { queue = queue; token = t.token })
        (retain-Kept t.is_cancelled r.registered c offer finds kept)

  on_request-Kept :
      (r : Registry) (connection : ConnectionIdentifier) (channel : ChannelIdentifier)
      (active : List ℕ) (is_cancelled : ℕ → Bool) (port : ℕ) (written : Bool)
      (c : ChannelIdentifier) (offer : Option Entry)
      → Kept r.registered c offer
      → Kept
          (on_request r connection channel active is_cancelled port written).0.registered
          c
          (if channel == c then none else offer)
  unfolding on_request open_channel
  on_request-Kept r connection channel active is_cancelled port written c offer kept e now =
      elim (Bool-cases (channel == c)) [
        | inl same ↦ absurd (ground (arith, now))
        | inr other ↦ elim (kept e (ground (arith, now))) [
          | inr ended ↦ inr ended
          | inl found ↦ inl (elim (Option-cases (HashMap.get channel r.registered)) [
            | inl none_there ↦ rw (on_request, none_there) found
            | inr (d, there) ↦
                rw (on_request, there) (ground (arith, get-remove channel c r.registered))
          ])
        ]
      ]

  control_loop-Kept :
      (ms : List Move) (r : Registry) (c : ChannelIdentifier) (offer : Option Entry)
      → All Finds ms
      → Kept r.registered c offer
      → Kept (control_loop r ms).registered c (last_offer c offer ms)
  unfolding control_loop last_offer
  control_loop-Kept [] r c offer finds kept = kept
  control_loop-Kept (reads m t ∷ ms) r c offer finds kept =
      control_loop-Kept ms (on_control r m t).0 c _ finds.1
        (on_control-Kept r m t c offer finds.0 kept)
  control_loop-Kept (asks connection channel active is_cancelled port written ∷ ms) r c offer finds
        kept =
      control_loop-Kept ms (on_request r connection channel active is_cancelled port written).0 c _
        finds.1 (on_request-Kept r connection channel active is_cancelled port written c offer kept)

module _ (Ended : ℕ → Type 0) where
  pub shutdown_reaches :
      (ms : List Move) (c : ChannelIdentifier) (e : Entry) (token : ℕ)
      → All (Finds Ended) ms
      → last_offer c none ms ≡ some e
      → Mem token (at_end new ms)
      → (Mem e.token (at_end new ms) ⊎ Ended e.token)
        × ((c' : ChannelIdentifier) × (e' : Entry) × (last_offer c' none ms ≡ some e')
            × (e'.token ≡ token))
  unfolding at_end HashMap.get
  shutdown_reaches ms c e token finds last cancelled =
      let v =
        control_loop-Offers ms new (λ _. none)
          (record { there = λ _ _ found. found; distinct = tt }) in
      let (c', e', found, same) =
        on_shutdown-get (control_loop new ms).registered token v.distinct cancelled in
      (
        elim (control_loop-Kept Ended ms new c none finds (λ _ found. inl found) e last) [
          | inl there ↦ inl (get-on_shutdown c (control_loop new ms).registered e there)
          | inr ended ↦ inr ended
        ],
        (c', e', v.there c' e' found, same),
      )
