-- ===== src/Tcp/Registry/Once.antt =====
-- A queue gets no more streams than it was offered.
use bdspro_udp_v.Common.{
  Bool, List, Option-cases, [], arith, get_elem?, inl, inr, nat_eq, string_eq, ℕ, ◌+◌, ◌∷◌, ◌≤◌,
}
use bdspro_udp_v.HashMap
use bdspro_udp_v.HashMap.{
  HashMap, Distinct, get-insert, get-remove, insert-Distinct, remove-Distinct, length-insert_fresh,
  length-remove, remove_absent,
}
use bdspro_udp_v.Tcp.Protocol.{ChannelIdentifier, ConnectionIdentifier}
use bdspro_udp_v.Tcp.Registry.{
  Entry, Registry, new, OpenKey, open_key_eq, on_request, open_channel, on_stream, on_register,
  on_retry, on_spawned, retain_registered,
}
use bdspro_udp_v.Tcp.Registry.Attached.{
  Event, requests, streams, registers, retries, opens, step, run, matches, matches_some, attached,
  offered, weight, weight-removed, weight-insert, weight-append, weight-remove_at,
}

module _ (c : ChannelIdentifier) (q : ℕ) where
  abbrev of_open : OpenKey → Entry → ℕ
  of_open key e = matches c q key.1 e

  -- The entries of the queue under the channel, in the tables and the spawned tasks.
  abbrev total : Registry → ℕ
  total r = weight (matches c q) r.registered + weight of_open r.spawned + weight of_open r.opened

  weight-retain :
      (is_cancelled : ℕ → Bool) (m : HashMap ChannelIdentifier Entry)
      → weight (matches c q) (retain_registered is_cancelled m) ≤ weight (matches c q) m
  unfolding weight retain_registered
  weight-retain is_cancelled [] = omega arith
  weight-retain is_cancelled ((j, e) ∷ m) = ground (arith, weight-retain is_cancelled m)

  total-on_request :
      (r : Registry) (connection : ConnectionIdentifier) (channel : ChannelIdentifier)
      (active : List ℕ) (is_cancelled : ℕ → Bool) (port : ℕ) (written : Bool)
      → total (on_request r connection channel active is_cancelled port written).0 ≤ total r
  unfolding on_request open_channel
  total-on_request r connection channel active is_cancelled port written =
      elim (Option-cases (HashMap.get channel r.registered)) [
        | inl e ↦ rw (on_request, e) (omega arith)
        | inr (e, found) ↦
            rw (on_request, found)
              (omega (
                arith,
                weight-removed (matches c q) channel r.registered e found,
                weight-append of_open r.spawned (connection, channel) e,
              ))
      ]

  total-on_stream :
      (r : Registry) (connection : ConnectionIdentifier) (channel : ChannelIdentifier)
      → matches_some c q channel (on_stream r connection channel).1
          + total (on_stream r connection channel).0
        ≤ total r
  unfolding on_stream
  total-on_stream r connection channel =
      elim (Option-cases (HashMap.get (connection, channel) r.opened)) [
        | inl e ↦ rw (on_stream, e) (omega arith)
        | inr (e, found) ↦
            rw (on_stream, found)
              (omega (arith, weight-removed of_open (connection, channel) r.opened e found))
      ]

  total-on_spawned : (r : Registry) (n : ℕ) → total (on_spawned r n) ≤ total r
  unfolding on_spawned
  total-on_spawned r n = elim (Option-cases (get_elem? r.spawned n)) [
    | inl e ↦ rw (on_spawned, e) (omega arith)
    | inr ((key, e), found) ↦
        rw (on_spawned, found)
          (omega (
            arith,
            weight-remove_at of_open r.spawned n key e found,
            weight-insert of_open key e r.opened,
          ))
  ]

  run-total :
      (es : List Event) (r : Registry)
      → attached c q r es + total (run r es) ≤ total r + offered c q es
  unfolding attached offered run step on_register on_retry
  run-total [] r = omega arith
  run-total (requests connection channel active is_cancelled port written ∷ es) r =
      let r' = (on_request r connection channel active is_cancelled port written).0 in
      omega (
        arith,
        run-total es r',
        total-on_request r connection channel active is_cancelled port written,
      )
  run-total (streams connection channel ∷ es) r =
      omega (
        arith,
        run-total es (on_stream r connection channel).0,
        total-on_stream r connection channel,
      )
  run-total (registers channel e is_cancelled is_there ∷ es) r = omega (
    arith,
    run-total es (on_register r channel e is_cancelled is_there).0,
    weight-insert (matches c q) channel e (retain_registered is_cancelled r.registered),
    weight-retain is_cancelled r.registered,
  )
  run-total (opens n ∷ es) r = omega (arith, run-total es (on_spawned r n), total-on_spawned r n)
  run-total (retries channel e ∷ es) r = omega (
    arith,
    run-total es (on_retry r channel e),
    weight-insert (matches c q) channel e r.registered,
  )

  -- Over any history of requests, spawned tasks, data connections, registrations and retries, a queue gets a data
  -- connection under a channel at most as often as it was registered, or was to be opened again, under
  -- that channel; a queue that was not gets none.
  pub attached_once : (es : List Event) → attached c q new es ≤ offered c q es
  unfolding weight
  attached_once es = omega (arith, run-total es new)
