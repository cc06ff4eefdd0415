-- ===== src/Udp/Sender/Entries.antt =====
-- What a turn of the timeout task does to the messages in flight.
use bdspro_udp_v.HashMap.{HashMap, Distinct}
use bdspro_udp_v.HashMap
use bdspro_udp_v.Common.{ℕ, ◌≡◌, refl, Option, none, some, [], ◌∷◌, arith, length, nat_eq}
use bdspro_udp_v.Udp.Sender.{InFlightMessage, refresh, refresh_all}

abbrev pub refresh_found : ℕ → ℕ → Option InFlightMessage → Option InFlightMessage
refresh_found timeout now none = none
refresh_found timeout now (some msg) = some (refresh timeout now msg)

module _ (timeout now : ℕ) where
  pub length-refresh_all :
      (m : HashMap ℕ InFlightMessage) → length (refresh_all timeout now m) ≡ length m
  unfolding refresh_all
  length-refresh_all [] = refl
  length-refresh_all ((seq, msg) ∷ m) = ground (arith, length-refresh_all m)

  pub get-refresh_all :
      (k : ℕ) (m : HashMap ℕ InFlightMessage)
      → HashMap.get k (refresh_all timeout now m) ≡ refresh_found timeout now (HashMap.get k m)
  unfolding refresh_all HashMap.get
  get-refresh_all k [] = refl
  get-refresh_all k ((seq, msg) ∷ m) = ground (arith, get-refresh_all k m)

  pub refresh_all-Distinct :
      (m : HashMap ℕ InFlightMessage) → Distinct m → Distinct (refresh_all timeout now m)
  unfolding refresh_all
  refresh_all-Distinct [] d = tt
  refresh_all-Distinct ((seq, msg) ∷ m) d =
      ground (arith, get-refresh_all seq m, refresh_all-Distinct m)
