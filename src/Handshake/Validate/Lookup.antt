-- ===== src/Handshake/Validate/Lookup.antt =====
-- Look-ups by name, and entries of a list.
use open_bc.Base.{
  ℕ, Bool, true, some, ◌≡◌, ◌≢◌, ◌⊎◌, ◌↔◌, inl, inr, refl, sym, ap, subst, ◌∙◌, arith,
}
use open_bc.Base.{List, [], ◌∷◌, ◌==◌, if◌then◌else◌, if_true, if_false, Bool-cases, by_branch}
use open_bc.Manifest.{find_by}
use open_bc.Handshake.Validate.{is_listed}

-- Some entry has the property.
abbrev pub Any : {A : Type 0} → (A → Type 0) → List A → Type 0
Any P [] = ⊥
Any P (x ∷ xs) = P x ⊎ Any P xs

abbrev pub In : {A : Type 0} → A → List A → Type 0
In a xs = Any (λ x. x ≡ a) xs

-- No two entries have one name.
abbrev pub Distinct : {A : Type 0} → (A → ℕ) → List A → Type 0
Distinct name_of [] = Unit
Distinct name_of (x ∷ xs) = (¬ Any (λ y. name_of y ≡ name_of x) xs) × Distinct name_of xs

module _ {A : Type 0} (name_of : A → ℕ) where
  pub find_by-In :
      (n : ℕ) (xs : List A) (a : A) → find_by name_of n xs ≡ some a → In a xs × (name_of a ≡ n)
  unfolding find_by
  find_by-In n [] a e = cc
  find_by-In n (x ∷ xs) a e = elim (Bool-cases (name_of x == n)) [
    | inl here ↦
        let same : some x ≡ some a = sym (if_true _ here) ∙ e in
        let is : x ≡ a = cc in (inl is, ap name_of (sym is) ∙ ground (arith, here))
    | inr other ↦
        let later = find_by-In n xs a (sym (if_false (some x) other) ∙ e) in (inr later.0, later.1)
  ]

  named : (a : A) (xs : List A) → In a xs → Any (λ y. name_of y ≡ name_of a) xs
  named a [] i = i
  named a (x ∷ xs) (inl e) = inl (ap name_of e)
  named a (x ∷ xs) (inr i) = inr (named a xs i)

  pub find_by_own :
      (xs : List A) (a : A)
      → Distinct name_of xs
      → In a xs
      → find_by name_of (name_of a) xs ≡ some a
  unfolding find_by
  find_by_own [] a d i = absurd i
  find_by_own (x ∷ xs) a d (inl e) =
      if_true {test = name_of x == name_of a} (find_by name_of (name_of a) xs)
        (ground (arith, ap name_of e))
      ∙ ap (λ (y : A). some y) e
  find_by_own (x ∷ xs) a d (inr i) =
      let other : name_of x ≢ name_of a =
        λ eq. d.0 (subst (λ (n : ℕ). Any (λ y. name_of y ≡ n) xs) (sym eq) (named a xs i)) in
      if_false {test = name_of x == name_of a} (some x) (ground (arith, other))
      ∙ find_by_own xs a d.1 i

  pub is_listed_iff :
      (n : ℕ) (xs : List A) → (is_listed name_of n xs ≡ true) ↔ Any (λ x. name_of x ≡ n) xs
  unfolding is_listed
  is_listed_iff n [] = (λ e. absurd (cc e), λ h. absurd h)
  is_listed_iff n (x ∷ xs) = let rest = is_listed_iff n xs in (to rest.0, from rest.1)
    where
      to :
          (is_listed name_of n xs ≡ true → Any (λ y. name_of y ≡ n) xs)
          → (if name_of x == n then true else is_listed name_of n xs) ≡ true
          → Any (λ y. name_of y ≡ n) (x ∷ xs)
      to rest e = elim (Bool-cases (name_of x == n)) [
        | inl here ↦ inl (ground (arith, here))
        | inr other ↦ inr (rest (sym (if_false true other) ∙ e))
      ]

      from :
          (Any (λ y. name_of y ≡ n) xs → is_listed name_of n xs ≡ true)
          → Any (λ y. name_of y ≡ n) (x ∷ xs)
          → (if name_of x == n then true else is_listed name_of n xs) ≡ true
      from rest (inl e) =
          if_true {test = name_of x == n} (is_listed name_of n xs) (ground (arith, e))
      from rest (inr i) =
          by_branch (λ (b : Bool). b ≡ true) (name_of x == n) (λ _. refl) (λ _. rest i)
