-- ===== src/Base/Scan.antt =====
-- The loops over a table of slots that stop at the first one that passes a test, change it and return its
-- index.
use Prim.Native.Nat.{ℕ, ◌+◌, ◌≤◌}
use mathlib.Core.Path.{◌≡◌, refl, ap}
use mathlib.Core.Bool.{Bool, true, false}
use mathlib.Core.Option.{Option, none, some}
use mathlib.Core.List.{List, [], ◌∷◌, ◌++◌}
use native.Mathlib.Omega.{arith}
use open_bc.Base.Tests.{if◌then◌else◌, by_branch}
use open_bc.Base.Lists.{length, All}

abbrev pub moved_on {ℓ} : {A : Type ℓ} → A → Option (ℕ × List A) → Option (ℕ × List A)
moved_on a none = none
moved_on a (some (i, xs)) = some (i + 1, a ∷ xs)

abbrev pub update_first {ℓ} : {A : Type ℓ} → (A → Bool) → (A → A) → List A → Option (ℕ × List A)
update_first test change [] = none
update_first test change (a ∷ xs) =
    if test a then some (0, change a ∷ xs) else moved_on a (update_first test change xs)

-- The slot that was found, between those that fail the test and those that were not looked at.
pub record Found {ℓ} {A : Type ℓ} (test : A → Bool) (change : A → A) (xs : List A) (i : ℕ)
    (xs' : List A) : Type ℓ where
  pub front : List A
  pub slot : A
  pub back : List A
  pub passed_over : All (λ a. test a ≡ false) front
  pub passes : test slot ≡ true
  pub before : xs ≡ front ++ (slot ∷ back)
  pub after : xs' ≡ front ++ (change slot ∷ back)
  pub index : i ≡ length front

-- No slot passes.
pub record Exhausted {ℓ} {A : Type ℓ} (test : A → Bool) (xs : List A) : Type ℓ where
  pub all_fail : All (λ a. test a ≡ false) xs

abbrev pub Outcome {ℓ} : {A : Type ℓ} → (A → Bool) → (A → A) → List A → Option (ℕ × List A) → Type ℓ
Outcome test change xs none = Exhausted test xs
Outcome test change xs (some (i, xs')) = Found test change xs i xs'

module _ {ℓ} {A : Type ℓ} (test : A → Bool) (change : A → A) where
  moved_on-Outcome :
      (a : A) (xs : List A) (o : Option (ℕ × List A))
      → test a ≡ false
      → Outcome test change xs o
      → Outcome test change (a ∷ xs) (moved_on a o)
  moved_on-Outcome a xs none fails h = record { all_fail = (fails, h.all_fail) }
  moved_on-Outcome a xs (some (i, xs')) fails h = record {
    front = a ∷ h.front;
    slot = h.slot;
    back = h.back;
    passed_over = (fails, h.passed_over);
    passes = h.passes;
    before = ap (λ l. a ∷ l) h.before;
    after = ap (λ l. a ∷ l) h.after;
    index = omega (arith, h.index);
  }

  pub update_first-Outcome : (xs : List A) → Outcome test change xs (update_first test change xs)
  update_first-Outcome [] = record { all_fail = tt }
  update_first-Outcome (a ∷ xs) =
      by_branch (Outcome test change (a ∷ xs)) (test a)
        (λ t. record {
          front = [];
          slot = a;
          back = xs;
          passed_over = tt;
          passes = t;
          before = refl;
          after = refl;
          index = refl;
        })
        (λ t. moved_on-Outcome a xs (update_first test change xs) t (update_first-Outcome xs))

-- How many slots pass a test.
abbrev pub tally {ℓ} : {A : Type ℓ} → (A → Bool) → List A → ℕ
tally test [] = 0
tally test (a ∷ xs) = (if test a then 1 else 0) + tally test xs

module _ {ℓ} {A : Type ℓ} (test : A → Bool) where
  pub tally-append : (xs bs : List A) → tally test (xs ++ bs) ≡ tally test xs + tally test bs
  tally-append [] bs = omega arith
  tally-append (a ∷ xs) bs = omega (arith, tally-append xs bs)

  pub tally-le : (xs : List A) → tally test xs ≤ length xs
  tally-le [] = omega arith
  tally-le (a ∷ xs) = ground (arith, tally-le xs)
