-- ===== src/Base/Copies.antt =====
-- `memcpy` into an array, and where its bytes end up.
use Prim.Native.Nat.{ℕ, zero, suc, ◌+◌, ◌≤◌, ◌<◌}
use mathlib.Core.Path.{◌≡◌, refl, sym, ap}
use mathlib.Core.List.{List, [], ◌∷◌, ◌++◌}
use native.Mathlib.Omega.{arith}
use open_bc.Base.Lists.{length, take, drop, set, get_or}

-- `memcpy(xs + i, ys, length ys)`; what falls behind the end of `xs` is dropped.
module _ {ℓ} {A : Type ℓ} where
  abbrev pub overwrite : List A → List A → List A
  overwrite [] ys = []
  overwrite (x ∷ xs) [] = x ∷ xs
  overwrite (x ∷ xs) (y ∷ ys) = y ∷ overwrite xs ys

  abbrev pub copy_at : List A → ℕ → List A → List A
  copy_at xs zero ys = overwrite xs ys
  copy_at [] (suc i) ys = []
  copy_at (x ∷ xs) (suc i) ys = x ∷ copy_at xs i ys

module _ {ℓ} {A : Type ℓ} where
  overwrite-nil : (xs : List A) → overwrite xs [] ≡ xs
  overwrite-nil [] = refl
  overwrite-nil (x ∷ xs) = refl

  pub copy_at-nil : (xs : List A) (i : ℕ) → copy_at xs i [] ≡ xs
  copy_at-nil xs zero = overwrite-nil xs
  copy_at-nil [] (suc i) = refl
  copy_at-nil (x ∷ xs) (suc i) = ap (λ r. x ∷ r) (copy_at-nil xs i)

  pub set-eq-copy_at : (xs : List A) (i : ℕ) (v : A) → set xs i v ≡ copy_at xs i (v ∷ [])
  set-eq-copy_at [] zero v = refl
  set-eq-copy_at [] (suc i) v = refl
  set-eq-copy_at (x ∷ xs) zero v = ap (λ r. v ∷ r) (sym (overwrite-nil xs))
  set-eq-copy_at (x ∷ xs) (suc i) v = ap (λ r. x ∷ r) (set-eq-copy_at xs i v)

  pub length-overwrite : (xs ys : List A) → length (overwrite xs ys) ≡ length xs
  length-overwrite [] ys = refl
  length-overwrite (x ∷ xs) [] = refl
  length-overwrite (x ∷ xs) (y ∷ ys) = ap suc (length-overwrite xs ys)

  pub length-copy_at : (xs : List A) (i : ℕ) (ys : List A) → length (copy_at xs i ys) ≡ length xs
  length-copy_at xs zero ys = length-overwrite xs ys
  length-copy_at [] (suc i) ys = refl
  length-copy_at (x ∷ xs) (suc i) ys = ap suc (length-copy_at xs i ys)

  overwrite-append :
      (xs ys zs : List A) (n : ℕ)
      → n ≡ length ys
      → overwrite xs (ys ++ zs) ≡ copy_at (overwrite xs ys) n zs
  overwrite-append [] [] zs zero e = refl
  overwrite-append [] [] zs (suc n) e = refl
  overwrite-append [] (y ∷ ys) zs zero e = refl
  overwrite-append [] (y ∷ ys) zs (suc n) e = refl
  overwrite-append (x ∷ xs) [] zs zero e = refl
  overwrite-append (x ∷ xs) [] zs (suc n) e = absurd (omega arith)
  overwrite-append (x ∷ xs) (y ∷ ys) zs zero e = absurd (omega arith)
  overwrite-append (x ∷ xs) (y ∷ ys) zs (suc n) e =
      ap (λ r. y ∷ r) (overwrite-append xs ys zs n (omega arith))

  -- Two copies, the second behind the first, are one.
  pub copy_at-append :
      (xs : List A) (i : ℕ) (ys zs : List A) (j : ℕ)
      → j ≡ i + length ys
      → copy_at (copy_at xs i ys) j zs ≡ copy_at xs i (ys ++ zs)
  copy_at-append xs zero ys zs j e = sym (overwrite-append xs ys zs j (omega arith))
  copy_at-append [] (suc i) ys zs zero e = refl
  copy_at-append [] (suc i) ys zs (suc j) e = refl
  copy_at-append (x ∷ xs) (suc i) ys zs zero e = absurd (omega arith)
  copy_at-append (x ∷ xs) (suc i) ys zs (suc j) e =
      ap (λ r. x ∷ r) (copy_at-append xs i ys zs j (omega arith))

  pub overwrite_all :
      (xs ys : List A) → length ys ≤ length xs → overwrite xs ys ≡ ys ++ drop (length ys) xs
  overwrite_all [] [] h = refl
  overwrite_all [] (y ∷ ys) h = absurd (omega arith)
  overwrite_all (x ∷ xs) [] h = refl
  overwrite_all (x ∷ xs) (y ∷ ys) h = ap (λ r. y ∷ r) (overwrite_all xs ys (omega arith))

  -- What stands before the copy stays, and the copy ends where it should.
  pub take-copy_at :
      (xs : List A) (i : ℕ) (ys : List A) (j : ℕ)
      → j ≡ i + length ys
      → j ≤ length xs
      → take j (copy_at xs i ys) ≡ take i xs ++ ys
  take-copy_at xs zero [] zero e h = refl
  take-copy_at xs zero [] (suc j) e h = absurd (omega arith)
  take-copy_at xs zero (y ∷ ys) zero e h = absurd (omega arith)
  take-copy_at [] zero (y ∷ ys) (suc j) e h = absurd (omega arith)
  take-copy_at (x ∷ xs) zero (y ∷ ys) (suc j) e h =
      ap (λ r. y ∷ r) (take-copy_at xs zero ys j (omega arith) (omega arith))
  take-copy_at [] (suc i) ys zero e h = absurd (omega arith)
  take-copy_at [] (suc i) ys (suc j) e h = absurd (omega arith)
  take-copy_at (x ∷ xs) (suc i) ys zero e h = absurd (omega arith)
  take-copy_at (x ∷ xs) (suc i) ys (suc j) e h =
      ap (λ r. x ∷ r) (take-copy_at xs i ys j (omega arith) (omega arith))

  pub take_of_append : (xs ys : List A) (n : ℕ) → n ≡ length xs → take n (xs ++ ys) ≡ xs
  take_of_append [] ys zero e = refl
  take_of_append [] ys (suc n) e = absurd (omega arith)
  take_of_append (x ∷ xs) ys zero e = absurd (omega arith)
  take_of_append (x ∷ xs) ys (suc n) e = ap (λ r. x ∷ r) (take_of_append xs ys n (omega arith))

  pub drop_of_append : (xs ys : List A) (n : ℕ) → n ≡ length xs → drop n (xs ++ ys) ≡ ys
  drop_of_append [] ys zero e = refl
  drop_of_append [] ys (suc n) e = absurd (omega arith)
  drop_of_append (x ∷ xs) ys zero e = absurd (omega arith)
  drop_of_append (x ∷ xs) ys (suc n) e = drop_of_append xs ys n (omega arith)

  pub drop-drop : (m n : ℕ) (xs : List A) (k : ℕ) → k ≡ m + n → drop n (drop m xs) ≡ drop k xs
  drop-drop zero n xs k e = ap (λ j. drop j xs) (omega arith)
  drop-drop (suc m) zero [] zero e = refl
  drop-drop (suc m) zero [] (suc k) e = refl
  drop-drop (suc m) (suc n) [] zero e = refl
  drop-drop (suc m) (suc n) [] (suc k) e = refl
  drop-drop (suc m) n (x ∷ xs) zero e = absurd (omega arith)
  drop-drop (suc m) n (x ∷ xs) (suc k) e = drop-drop m n xs k (omega arith)

  pub get_or-drop :
      (xs : List A) (i j : ℕ) (d : A) (k : ℕ) → k ≡ i + j → get_or (drop i xs) j d ≡ get_or xs k d
  get_or-drop xs zero j d k e = ap (λ n. get_or xs n d) (omega arith)
  get_or-drop [] (suc i) zero d k e = refl
  get_or-drop [] (suc i) (suc j) d k e = refl
  get_or-drop (x ∷ xs) (suc i) j d zero e = absurd (omega arith)
  get_or-drop (x ∷ xs) (suc i) j d (suc k) e = get_or-drop xs i j d k (omega arith)

-- A copy and a store at a smaller index do not meet.
module _ {ℓ} {A : Type ℓ} where
  pub set-set : (xs : List A) (i : ℕ) (u v : A) → set (set xs i u) i v ≡ set xs i v
  set-set [] i u v = refl
  set-set (x ∷ xs) zero u v = refl
  set-set (x ∷ xs) (suc i) u v = ap (λ r. x ∷ r) (set-set xs i u v)

  pub set_same :
      (xs : List A) (i : ℕ) (v d : A) → i < length xs → get_or xs i d ≡ v → set xs i v ≡ xs
  set_same [] i v d h e = refl
  set_same (x ∷ xs) zero v d h e = ap (λ r. r ∷ xs) (sym e)
  set_same (x ∷ xs) (suc i) v d h e = ap (λ r. x ∷ r) (set_same xs i v d (omega arith) e)

  pub set-copy_at :
      (xs : List A) (i j : ℕ) (v : A) (ys : List A)
      → i < j
      → set (copy_at xs j ys) i v ≡ copy_at (set xs i v) j ys
  set-copy_at xs i zero v ys h = absurd (omega arith)
  set-copy_at [] i (suc j) v ys h = refl
  set-copy_at (x ∷ xs) zero (suc j) v ys h = refl
  set-copy_at (x ∷ xs) (suc i) (suc j) v ys h =
      ap (λ r. x ∷ r) (set-copy_at xs i j v ys (omega arith))

  pub get_or-copy_at :
      (xs : List A) (i j : ℕ) (d : A) (ys : List A)
      → i < j
      → get_or (copy_at xs j ys) i d ≡ get_or xs i d
  get_or-copy_at xs i zero d ys h = absurd (omega arith)
  get_or-copy_at [] i (suc j) d ys h = refl
  get_or-copy_at (x ∷ xs) zero (suc j) d ys h = refl
  get_or-copy_at (x ∷ xs) (suc i) (suc j) d ys h = get_or-copy_at xs i j d ys (omega arith)

  pub take_all : (xs : List A) → take (length xs) xs ≡ xs
  take_all [] = refl
  take_all (x ∷ xs) = ap (λ r. x ∷ r) (take_all xs)
