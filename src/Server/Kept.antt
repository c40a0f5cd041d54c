-- ===== src/Server/Kept.antt =====
-- The table of kept scores at the top of src/server/server_handshake.c: what is stored is found.
use open_bc.Base.{
  ℕ, zero, suc, ◌+◌, ◌<◌, ◌≡◌, refl, sym, ap, ◌∙◌, arith, Bool, true, false, not, Option, none,
  some, inl, inr, Bool-cases, Option-cases,
}
use open_bc.Base.{List, [], ◌∷◌, length, get_elem?, set, ◌==◌, if_true, if_false}
use open_bc.EventBus.{same_name}
use open_bc.Server.{Server, ReconnectScore}
use open_bc.Server.Scores.{
  is_of, first_index, or_else, find_reconnect_score_by_name, reserve_reconnect_score_slot,
}
use open_bc.Server.Leave.{}

module _ {A : Type 0} where
  pub get_elem?-written :
      (xs : List A) (j : ℕ) (x : A) → j < length xs → get_elem? (set xs j x) j ≡ some x
  get_elem?-written [] j x h = absurd (omega arith)
  get_elem?-written (y ∷ xs) zero x h = refl
  get_elem?-written (y ∷ xs) (suc j) x h = get_elem?-written xs j x (omega arith)

module _ (test : ReconnectScore → Bool) (x : ReconnectScore) (passes : test x ≡ true) where
  -- What is written where the first one was found is found there.
  found_again :
      (i k : ℕ) (rs : List ReconnectScore)
      → first_index test i rs ≡ some k
      → (j : ℕ) × (k ≡ i + j) × (j < length rs) × (first_index test i (set rs j x) ≡ some k)
  found_again i k [] h = absurd (cc h)
  found_again i k (r ∷ rs) h = elim (Bool-cases (test r)) [
    | inl t ↦
        let at : some i ≡ some k = sym (if_true (first_index test (suc i) rs) t) ∙ h in
        let same : i ≡ k = cc at in
        (0, omega (arith, same), omega arith, if_true (first_index test (suc i) rs) passes ∙ at)
    | inr t ↦
        let (j, is, below, again) = found_again (suc i) k rs (sym (if_false (some i) t) ∙ h) in
        (suc j, omega (arith, is), omega (arith, below), if_false (some i) t ∙ again)
  ]

  -- So is what is written where none was found.
  found_new :
      (i j : ℕ) (rs : List ReconnectScore)
      → first_index test i rs ≡ none
      → j < length rs
      → first_index test i (set rs j x) ≡ some (i + j)
  found_new i j [] h below = absurd (omega arith)
  found_new i zero (r ∷ rs) h below =
      if_true (first_index test (suc i) rs) passes ∙ ap (λ (n : ℕ). some n) (omega arith)
  found_new i (suc j) (r ∷ rs) h below = elim (Bool-cases (test r)) [
    | inl t ↦
        let no_one : some i ≡ none = sym (if_true (first_index test (suc i) rs) t) ∙ h in
        absurd (cc no_one)
    | inr t ↦
        if_false (some i) t
        ∙ found_new (suc i) j rs (sym (if_false (some i) t) ∙ h) (omega arith)
        ∙ ap (λ (n : ℕ). some n) (omega arith)
  ]

pub same_name_refl : (xs : List ℕ) → same_name xs xs ≡ true
same_name_refl [] = refl
same_name_refl (x ∷ xs) = ground (arith, same_name_refl xs)

first_index-lt :
    (test : ReconnectScore → Bool) (i k : ℕ) (rs : List ReconnectScore)
    → first_index test i rs ≡ some k
    → k < i + length rs
first_index-lt test i k [] h = absurd (cc h)
first_index-lt test i k (r ∷ rs) h = elim (Bool-cases (test r)) [
  | inl t ↦
      let at : some i ≡ some k = sym (if_true (first_index test (suc i) rs) t) ∙ h in
      let same : i ≡ k = cc at in omega (arith, same)
  | inr t ↦ omega (arith, first_index-lt test (suc i) k rs (sym (if_false (some i) t) ∙ h))
]

pub find_lem :
    (name : List ℕ) (s : Server)
    → (length name == 0) ≡ false
    → find_reconnect_score_by_name name s ≡ first_index (is_of name) 0 s.reconnect_scores
unfolding find_reconnect_score_by_name
find_lem name s named = if_false none named

-- The entry of a name is found where it was stored.
pub stored :
    (name : List ℕ) (s : Server) (x : ReconnectScore)
    → (length name == 0) ≡ false
    → is_of name x ≡ true
    → 0 < length s.reconnect_scores
    → (j : ℕ) × (reserve_reconnect_score_slot name s ≡ j)
      × (j < length s.reconnect_scores)
      × (first_index (is_of name) 0 (set s.reconnect_scores j x) ≡ some j)
unfolding reserve_reconnect_score_slot
stored name s x named is room =
    elim (Option-cases (first_index (is_of name) 0 s.reconnect_scores)) [
      | inl none_yet ↦ (
        free,
        ap (λ (o : Option ℕ). or_else o free) (find_lem name s named ∙ none_yet),
        below (first_index (λ r. not r.valid) 0 s.reconnect_scores) refl,
        found_new (is_of name) x is 0 free s.reconnect_scores none_yet
              (below (first_index (λ r. not r.valid) 0 s.reconnect_scores) refl)
            ∙ ap (λ (n : ℕ). some n) (omega arith),
      )
      | inr (k, at_k) ↦
          let (j, same, small, again) = found_again (is_of name) x is 0 k s.reconnect_scores at_k in
          let e : k ≡ j = omega (arith, same) in
          (
            j,
            ap (λ (o : Option ℕ). or_else o free) (find_lem name s named ∙ at_k) ∙ e,
            small,
            again ∙ ap (λ (n : ℕ). some n) e,
          )
    ]
  where
    free : ℕ
    free = or_else (first_index (λ r. not r.valid) 0 s.reconnect_scores) 0

    below :
        (o : Option ℕ)
        → first_index (λ r. not r.valid) 0 s.reconnect_scores ≡ o
        → or_else o 0 < length s.reconnect_scores
    below none e = room
    below (some k) e = omega (arith, first_index-lt (λ r. not r.valid) 0 k s.reconnect_scores e)
