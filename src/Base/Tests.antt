-- ===== src/Base/Tests.antt =====
-- Boolean tests on the native numbers, the conditional, and case splits that keep the equation.
use Prim.Native.Nat.{ℕ, zero, suc, ◌+◌, ◌-◌, ◌≤◌, ◌<◌, compare, Ordering}
use mathlib.Core.Path.{◌≡◌, refl}
use mathlib.Core.Logic.{◌⊎◌, inl, inr}
use mathlib.Core.Bool.{Bool, true, false}
use mathlib.Core.Option.{Option, none, some}
use native.Mathlib.Omega.{arith}

abbrev pub ltb : ℕ → ℕ → Bool
ltb a b = elim (compare a b) [ Ordering.lt ↦ true | _ ↦ false ]

abbrev pub leb : ℕ → ℕ → Bool
leb a b = elim (compare a b) [ Ordering.gt ↦ false | _ ↦ true ]

infix 50 ◌==◌
abbrev pub ◌==◌ : ℕ → ℕ → Bool
a == b = elim (compare a b) [ Ordering.eq ↦ true | _ ↦ false ]

infix 1 if◌then◌else◌
abbrev pub if◌then◌else◌ {ℓ} : {A : Type ℓ} → Bool → A → A → A
if true then x else y = x
if false then x else y = y

abbrev pub min : ℕ → ℕ → ℕ
min a b = if leb a b then a else b

pub ltb→lt : (a b : ℕ) → ltb a b ≡ true → a < b
ltb→lt a b h = ground arith

pub lt→ltb : (a b : ℕ) → a < b → ltb a b ≡ true
lt→ltb a b h = ground arith

pub ==→eq : (a b : ℕ) → (a == b) ≡ true → a ≡ b
==→eq a b h = ground arith

pub ==_refl : (a : ℕ) → (a == a) ≡ true
==_refl a = ground arith

pub Bool-cases : (b : Bool) → (b ≡ true) ⊎ (b ≡ false)
Bool-cases true = inl refl
Bool-cases false = inr refl

pub Option-cases {ℓ} : {A : Type ℓ} (o : Option A) → (o ≡ none) ⊎ ((a : A) × (o ≡ some a))
Option-cases none = inl refl
Option-cases (some a) = inr (a, refl)

pub suc-sub_one : (n : ℕ) → suc n - 1 ≡ n
suc-sub_one n = omega arith

pub suc-sub_three : (n : ℕ) → suc (suc (suc n)) - 3 ≡ n
suc-sub_three n = omega arith

-- Does the test pass each of the `count` numbers from `first` on?
unfoldable pub passes_from : ℕ → ℕ → (ℕ → Bool) → Bool
passes_from first zero test = true
passes_from first (suc count) test = elim (test first) [
  | false ↦ false
  | true ↦ passes_from (suc first) count test
]

passes_from_lem :
    (first count : ℕ) (test : ℕ → Bool) (k : ℕ)
    → first ≤ k
    → k < first + count
    → passes_from first count test ≡ true
    → test k ≡ true
unfolding passes_from
passes_from_lem first zero test k low high t = absurd (omega arith)
passes_from_lem first (suc count) test k low high t =
    ground (arith, passes_from_lem (suc first) count test k)

pub table_lem :
    (count : ℕ) (test : ℕ → Bool) (k : ℕ)
    → passes_from 0 count test ≡ true
    → k < count
    → test k ≡ true
table_lem count test k t high = passes_from_lem 0 count test k (omega arith) (omega arith) t
