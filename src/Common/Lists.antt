-- ===== src/Common/Lists.antt =====
-- Lists measured by native numbers, and predicates on them by recursion.
use Prim.Native.Nat.{ℕ, zero, suc, ◌+◌, ◌≤◌, ◌<◌}
use mathlib.Core.Path.{◌≡◌, refl, subst}
use mathlib.Core.Logic.{◌⊎◌, inl, inr}
use mathlib.Core.Option.{Option, none, some}
use mathlib.Core.List.{List, [], ◌∷◌, ◌++◌}
use native.Mathlib.Omega.{arith}

zero_left : (i : ℕ) → i ≡ 0 + i
zero_left i = omega arith

suc_left : (n i : ℕ) → suc (n + i) ≡ suc n + i
suc_left n i = omega arith

module _ {ℓ} {A : Type ℓ} where
  abbrev pub length : List A → ℕ
  length [] = 0
  length (x ∷ xs) = suc (length xs)

  unfoldable pub take : ℕ → List A → List A
  take zero l = []
  take (suc count) [] = []
  take (suc count) (a ∷ l) = a ∷ take count l

  unfoldable pub get_elem? : List A → ℕ → Option A
  get_elem? [] i = none
  get_elem? (x ∷ xs) zero = some x
  get_elem? (x ∷ xs) (suc i) = get_elem? xs i

  abbrev pub replicate : ℕ → A → List A
  replicate zero a = []
  replicate (suc n) a = a ∷ replicate n a

  abbrev pub All {κ} : (A → Type κ) → List A → Type κ
  All P [] = Unit
  All P (x ∷ xs) = P x × All P xs

  pub length-append : (xs ys : List A) → length (xs ++ ys) ≡ length xs + length ys
  length-append [] ys = omega arith
  length-append (x ∷ xs) ys = omega (arith, length-append xs ys)

  pub get_elem?-append :
      (xs ys : List A) (i : ℕ) → get_elem? (xs ++ ys) (length xs + i) ≡ get_elem? ys i
  unfolding get_elem?
  get_elem?-append [] ys i = subst (λ j. get_elem? ys j ≡ get_elem? ys i) (zero_left i) refl
  get_elem?-append (x ∷ xs) ys i =
      subst (λ j. get_elem? (x ∷ xs ++ ys) j ≡ get_elem? ys i) (suc_left (length xs) i)
        (get_elem?-append xs ys i)

  pub get_elem?-append_left :
      (xs ys : List A) (i : ℕ) → i < length xs → get_elem? (xs ++ ys) i ≡ get_elem? xs i
  unfolding get_elem?
  get_elem?-append_left [] ys i small = absurd (omega arith)
  get_elem?-append_left (x ∷ xs) ys zero small = refl
  get_elem?-append_left (x ∷ xs) ys (suc i) small = get_elem?-append_left xs ys i (omega arith)

  pub All-append {κ} : (P : A → Type κ) (l m : List A) → All P l → All P m → All P (l ++ m)
  All-append P [] m _ ms = ms
  All-append P (a ∷ l) m (first, ls) ms = (first, All-append P l m ls ms)

  pub All-mono {κ ι} :
      (P : A → Type κ) (Q : A → Type ι)
      → ((a : A) → P a → Q a)
      → (xs : List A) → All P xs
      → All Q xs
  All-mono P Q f [] h = tt
  All-mono P Q f (x ∷ xs) h = (f x h.0, All-mono P Q f xs h.1)

  pub take_of_length-le : (count : ℕ) (l : List A) → length l ≤ count → take count l ≡ l
  unfolding take
  take_of_length-le zero [] short = refl
  take_of_length-le (suc count) [] short = refl
  take_of_length-le zero (a ∷ l) short = absurd (omega arith)
  take_of_length-le (suc count) (a ∷ l) short = ground (arith, take_of_length-le count l)

module _ {A : Type 0} where
  -- A member, with its place.
  abbrev pub Mem : A → List A → Type 0
  Mem a [] = ⊥
  Mem a (x ∷ xs) = (x ≡ a) ⊎ Mem a xs

  pub Mem-append_left : (a : A) (xs ys : List A) → Mem a xs → Mem a (xs ++ ys)
  Mem-append_left a [] ys m = absurd m
  Mem-append_left a (x ∷ xs) ys (inl e) = inl e
  Mem-append_left a (x ∷ xs) ys (inr m) = inr (Mem-append_left a xs ys m)

  pub Mem-append_right : (a : A) (xs ys : List A) → Mem a ys → Mem a (xs ++ ys)
  Mem-append_right a [] ys m = m
  Mem-append_right a (x ∷ xs) ys m = inr (Mem-append_right a xs ys m)

  pub All-Mem {κ} : (P : A → Type κ) {a : A} (xs : List A) → All P xs → Mem a xs → P a
  All-Mem P (x ∷ xs) h (inl e) = subst P e h.0
  All-Mem P (x ∷ xs) h (inr m) = All-Mem P xs h.1 m
  All-Mem P [] h m = absurd m

  pub All_of_Mem {κ} : (P : A → Type κ) (xs : List A) → ((a : A) → Mem a xs → P a) → All P xs
  All_of_Mem P [] h = tt
  All_of_Mem P (x ∷ xs) h = (h x (inl refl), All_of_Mem P xs (λ a m. h a (inr m)))
