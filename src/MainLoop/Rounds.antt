-- ===== src/MainLoop/Rounds.antt =====
-- The rule for the loops of src/server/main.c over the players' slots.
use open_bc.Base.{ℕ, zero, suc, ◌+◌, ◌≤◌, ◌<◌, ◌≡◌, ◌≢◌, refl, ◌∙◌, subst, sym, arith, Option, some}
use open_bc.Base.{get_elem?}
use native.Mathlib.Decide.{dec_lt}
use open_bc.Peers.{Peer}
use open_bc.Server.{Server}
use open_bc.Server.Looks.{looks}
use open_bc.MainLoop.{slots_from}

-- The view of the peer in slot `i`
abbrev pub look_at : {X : Type 0} → (Peer → X) → ℕ → Server → Option X
look_at look i s = get_elem? (looks look s) i

-- A round of the loop changes its own slot, as far as `look` shows; `seen` is what is asked of the outcome.
module _ {X Y : Type 0} (look : Peer → X) (seen : X → Y) (step : X → Y) (body : ℕ → Server → Server)
    (elsewhere : (i j : ℕ) (s : Server) → j ≢ i → look_at look j (body i s) ≡ look_at look j s)
    (here : (i : ℕ) (s : Server) (x : X)
      → look_at look i s ≡ some x
      → (y : X) × (look_at look i (body i s) ≡ some y) × (seen y ≡ step x)) where
  slots_from-past :
      (left i j : ℕ) (s : Server)
      → j < i
      → look_at look j (slots_from body left i s) ≡ look_at look j s
  unfolding slots_from
  slots_from-past zero i j s past = refl
  slots_from-past (suc left) i j s past =
      slots_from-past left (suc i) j (body i s) (omega arith)
      ∙ elsewhere i j s (λ e. omega (arith, e, past))

  pub slots_from-each :
      (left i j : ℕ) (s : Server) (x : X)
      → i ≤ j
      → j < i + left
      → look_at look j s ≡ some x
      → (y : X) × (look_at look j (slots_from body left i s) ≡ some y) × (seen y ≡ step x)
  unfolding slots_from
  slots_from-each zero i j s x low high at_j = absurd (omega arith)
  slots_from-each (suc left) i j s x low high at_j = elim (dec_lt i j) [
    | yes later ↦
        slots_from-each left (suc i) j (body i s) x (omega arith) (omega arith)
          (elsewhere i j s (λ e. omega (arith, e, later)) ∙ at_j)
    | no now ↦
        let e : i ≡ j = omega (arith, now) in
        let (y, at_y, is) = here j s x at_j in
        let start : look_at look j (body i s) ≡ some y =
          subst (λ k. look_at look j (body k s) ≡ some y) (sym e) at_y in
        (y, slots_from-past left (suc i) j (body i s) (omega arith) ∙ start, is)
  ]
