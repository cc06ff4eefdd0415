-- ===== src/Tcp/Connection/Attempts.antt =====
-- The attempts to register a channel.
use bdspro_udp_v.Common.{
  Bool, Bool-cases, List, [], ap, false, if◌then◌else◌, inl, inr, nat_eq, refl, string_eq, suc,
  zero, ℕ, ◌*◌, ◌+◌, ◌||◌, ◌∷◌, ◌≡◌,
}
use bdspro_udp_v.Tcp.Connection.{Attempt, is_last, attempt_from, attempt_channel_registration}

-- The passes before the first that ends the task.
abbrev pub refusals : List Attempt → ℕ
refusals [] = 0
refusals (a ∷ more) = if is_last a then 0 else suc (refusals more)

abbrev pub any_last : List Attempt → Bool
any_last [] = false
any_last (a ∷ more) = is_last a || any_last more

-- `step * (from + 1)`, `step * (from + 2)` and so on, `count` of them.
abbrev pub ramp : ℕ → ℕ → ℕ → List ℕ
ramp step from zero = []
ramp step from (suc count) = step * (from + 1) ∷ ramp step (from + 1) count

attempt_from_lem :
    (retry : ℕ) (attempts : List Attempt)
    → ((attempt_from retry attempts).waits ≡ ramp 100 retry (refusals attempts))
      × ((attempt_from retry attempts).is_over ≡ any_last attempts)
unfolding attempt_from
attempt_from_lem retry [] = (refl, refl)
attempt_from_lem retry (a ∷ more) = elim (Bool-cases (is_last a)) [
  | inl e ↦ rw e (refl, refl)
  | inr e ↦
      let rest = attempt_from_lem (retry + 1) more in
      rw e (ap (◌∷◌ (100 * (retry + 1))) rest.0, rest.1)
]

pub attempts_wait :
    (attempts : List Attempt)
    → let registration = attempt_channel_registration attempts in
      (registration.waits ≡ ramp 100 0 (refusals attempts))
      × (registration.is_over ≡ any_last attempts)
unfolding attempt_channel_registration
attempts_wait attempts = attempt_from_lem 0 attempts
