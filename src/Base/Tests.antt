-- ===== src/Base/Tests.antt =====
-- Boolean tests on the native numbers, the conditional, and the lemmas by which proofs read them.
use Prim.Native.Nat.{ℕ, zero, suc, ◌≤◌, ◌<◌, compare, Ordering}
use mathlib.Core.Path.{◌≡◌, refl}
use mathlib.Core.Logic.{◌↔◌, ◌⊎◌, inl, inr}
use mathlib.Core.Bool.{Bool, true, false}
use mathlib.Core.Option.{Option, none, some}
use native.Mathlib.Omega.{arith}

abbrev pub ltb : ℕ → ℕ → Bool
ltb a b = elim (compare a b) [ Ordering.lt ↦ true | _ ↦ false ]

abbrev pub leb : ℕ → ℕ → Bool
leb a b = elim (compare a b) [ Ordering.gt ↦ false | _ ↦ true ]

infix 50 ◌==◌
abbrev pub ◌==◌ : ℕ → ℕ → Bool
a == b = elim (compare a b) [ Ordering.eq ↦ true | _ ↦ false ]

infix 1 if◌then◌else◌
abbrev pub if◌then◌else◌ {ℓ} : {A : Type ℓ} → Bool → A → A → A
if true then x else y = x
if false then x else y = y

pub ltb→lt : (a b : ℕ) → ltb a b ≡ true → a < b
ltb→lt a b h = ground arith

pub lt→ltb : (a b : ℕ) → a < b → ltb a b ≡ true
lt→ltb a b h = ground arith

pub le→ltb : (a b : ℕ) → b ≤ a → ltb a b ≡ false
le→ltb a b h = ground arith

pub ==_iff : (a b : ℕ) → ((a == b) ≡ true) ↔ (a ≡ b)
==_iff a b = ground arith

pub Bool-cases : (b : Bool) → (b ≡ true) ⊎ (b ≡ false)
Bool-cases true = inl refl
Bool-cases false = inr refl

pub Option-cases {ℓ} : {A : Type ℓ} (o : Option A) → (o ≡ none) ⊎ ((a : A) × (o ≡ some a))
Option-cases none = inl refl
Option-cases (some a) = inr (a, refl)

-- A table: does `p` hold of every number below `n`?
unfoldable pub all_below : (ℕ → Bool) → ℕ → Bool
all_below p zero = true
all_below p (suc n) = if all_below p n then p n else false

-- A row of the table.
pub all_below-row : (p : ℕ → Bool) {n : ℕ} → all_below p n ≡ true → (x : ℕ) → x < n → p x ≡ true
unfolding all_below
all_below-row p {n = zero} whole x below = absurd (omega arith)
all_below-row p {n = suc n} whole x below =
    ground (arith, λ (t : all_below p n ≡ true). all_below-row p {n = n} t x)

-- What holds of both branches, each under its test, holds of the conditional.
pub by_branch {ℓ κ} :
    {A : Type ℓ} (P : A → Type κ) (test : Bool) {x y : A}
    → (test ≡ true → P x)
    → (test ≡ false → P y)
    → P (if test then x else y)
by_branch P true f g = f refl
by_branch P false f g = g refl

-- The branch that a known test takes.
pub if_true {ℓ} :
    {A : Type ℓ} {test : Bool} {x : A} (y : A) → test ≡ true → (if test then x else y) ≡ x
if_true {x} y e = λ i. if e i then x else y

pub if_false {ℓ} :
    {A : Type ℓ} {test : Bool} (x : A) {y : A} → test ≡ false → (if test then x else y) ≡ y
if_false x {y} e = λ i. if e i then x else y
