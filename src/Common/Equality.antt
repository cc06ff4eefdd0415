-- ===== src/Common/Equality.antt =====
-- Keys with a Boolean equality: `u64`, `String`, and pairs of such.
use Prim.Native.Nat.{ℕ}
use Prim.Native.String.{String}
use mathlib.Core.Path.{◌≡◌}
use mathlib.Core.Logic.{◌↔◌}
use mathlib.Core.Bool.{Bool, true, ◌&&◌}
use native.Mathlib.Omega.{arith}
use text.Mathlib.Text.{◌==◌ as str_eq}
use text.Mathlib.TextEquality.{eq_iff}
use bdspro_udp_v.Common.Tests.{eqb, eqb_iff}

pub record Eq {ℓ} (K : Type ℓ) : Type ℓ where
  pub same_as : K → K → Bool
  pub same_iff : (j k : K) → (same_as j k ≡ true) ↔ (j ≡ k)

instance abbrev pub nat_eq : Eq ℕ
nat_eq = record { same_as = eqb; same_iff = eqb_iff }

infix 50 ◌==◌
abbrev pub ◌==◌ {ℓ} : {K : Type ℓ} ⦃k : Eq K⦄ → K → K → Bool
◌==◌ ⦃k⦄ = k.same_as

instance abbrev pub string_eq : Eq String
string_eq = record { same_as = str_eq; same_iff = eq_iff }

abbrev pub pair_same {ℓ κ} : {A : Type ℓ} {B : Type κ} → Eq A → Eq B → A × B → A × B → Bool
pair_same e f (a, b) (c, d) = e.same_as a c && f.same_as b d

pub pair_same_iff {ℓ κ} :
    {A : Type ℓ} {B : Type κ} (e : Eq A) (f : Eq B) (p q : A × B)
    → (pair_same e f p q ≡ true) ↔ (p ≡ q)
pair_same_iff e f (a, b) (c, d) = ground (arith, e.same_iff a c, f.same_iff b d)

abbrev pub pair_eq {ℓ κ} : {A : Type ℓ} {B : Type κ} → Eq A → Eq B → Eq (A × B)
pair_eq e f = record { same_as = pair_same e f; same_iff = pair_same_iff e f }
