-- ===== src/Udp/Semaphore.antt =====
-- `tokio::sync::Semaphore`, as external/BDSPro_UDP_Channel/src/lib.rs uses it. No call closes it.
use bdspro_udp_v.Common.{ℕ, zero, suc, ◌+◌, ◌≡◌, refl, ◌⊎◌, inl, inr, Option, none, some, arith}

pub record Semaphore (S : Type 0) : Type 0 where
  pub new : ℕ → S
  pub available_permits : S → ℕ
  -- Takes a permit, if there is one.
  pub try_acquire : S → Option S
  pub add_permits : S → ℕ → S
  pub available-new : (n : ℕ) → available_permits (new n) ≡ n
  pub available-try_acquire :
      (s : S)
      → ((try_acquire s ≡ none) × (available_permits s ≡ 0))
        ⊎ ((t : S) × (try_acquire s ≡ some t) × (available_permits t + 1 ≡ available_permits s))
  pub available-add_permits :
      (s : S) (n : ℕ) → available_permits (add_permits s n) ≡ available_permits s + n

abbrev pub take_permit : ℕ → Option ℕ
take_permit zero = none
take_permit (suc n) = some n

pub available-take_permit :
    (s : ℕ)
    → ((take_permit s ≡ none) × (s ≡ 0)) ⊎ ((t : ℕ) × (take_permit s ≡ some t) × (t + 1 ≡ s))
available-take_permit zero = inl (refl, refl)
available-take_permit (suc n) = inr (n, refl, omega arith)

-- A bare counter has the laws.
instance abbrev pub counter : Semaphore ℕ
counter = record {
  new = λ n. n;
  available_permits = λ s. s;
  try_acquire = take_permit;
  add_permits = λ s n. s + n;
  available-new = λ n. refl;
  available-try_acquire = available-take_permit;
  available-add_permits = λ s n. refl;
}
