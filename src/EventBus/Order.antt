-- ===== src/EventBus/Order.antt =====
-- The order of an event's handlers.
use open_bc.Base.{ℕ, ◌≤◌, ◌<◌, ◌≡◌, refl, ap, arith}
use open_bc.Base.{List, [], ◌∷◌, ◌++◌, All, ltb, ◌==◌, by_branch}
use open_bc.EventBus.{EventSub, insert_ordered, remove_first}

-- Each handler's priority number is at most those behind it.
abbrev pub Ordered : List EventSub → Type 0
Ordered [] = Unit
Ordered (s ∷ ss) = All (λ t. s.priority ≤ t.priority) ss × Ordered ss

All-insert :
    (P : EventSub → Type 0) (s : EventSub) (ts : List EventSub)
    → P s
    → All P ts
    → All P (insert_ordered s ts)
unfolding insert_ordered
All-insert P s [] p h = (p, tt)
All-insert P s (t ∷ ts) p h =
    by_branch (All P) (ltb s.priority t.priority) (λ _. (p, h))
      (λ _. (h.0, All-insert P s ts p h.1))

weaker :
    (m n : ℕ) (ts : List EventSub)
    → m ≤ n
    → All (λ t. n ≤ t.priority) ts
    → All (λ t. m ≤ t.priority) ts
weaker m n [] le h = tt
weaker m n (t ∷ ts) le h = (omega (arith, h.0), weaker m n ts le h.1)

pub insert_ordered-Ordered :
    (s : EventSub) (ts : List EventSub) → Ordered ts → Ordered (insert_ordered s ts)
unfolding insert_ordered
insert_ordered-Ordered s [] h = (tt, tt)
insert_ordered-Ordered s (t ∷ ts) h =
    by_branch Ordered (ltb s.priority t.priority)
      (λ before.
        let lower : s.priority ≤ t.priority = ground (arith, before) in
        ((lower, weaker s.priority t.priority ts lower h.0), h))
      (λ behind. (
        All-insert (λ u. t.priority ≤ u.priority) s ts (ground (arith, behind)) h.0,
        insert_ordered-Ordered s ts h.1,
      ))

All-remove :
    (P : EventSub → Type 0) (fn : ℕ) (ts : List EventSub) → All P ts → All P (remove_first fn ts)
unfolding remove_first
All-remove P fn [] h = tt
All-remove P fn (t ∷ ts) h =
    by_branch (All P) (t.fn == fn) (λ _. h.1) (λ _. (h.0, All-remove P fn ts h.1))

pub remove_first-Ordered : (fn : ℕ) (ts : List EventSub) → Ordered ts → Ordered (remove_first fn ts)
unfolding remove_first
remove_first-Ordered fn [] h = tt
remove_first-Ordered fn (t ∷ ts) h =
    by_branch Ordered (t.fn == fn) (λ _. h.1)
      (λ _. (All-remove (λ u. t.priority ≤ u.priority) fn ts h.0, remove_first-Ordered fn ts h.1))

-- Where a handler is put.
pub record Placed (s : EventSub) (ts after : List EventSub) : Type 0 where
  pub front : List EventSub
  pub back : List EventSub
  pub before : ts ≡ front ++ back
  pub result : after ≡ front ++ (s ∷ back)
  pub not_later : All (λ t. t.priority ≤ s.priority) front
  pub later : All (λ t. s.priority < t.priority) back

above :
    (p q : ℕ) (ts : List EventSub)
    → p < q
    → All (λ t. q ≤ t.priority) ts
    → All (λ t. p < t.priority) ts
above p q [] lt h = tt
above p q (t ∷ ts) lt h = (omega (arith, h.0), above p q ts lt h.1)

-- A handler put into ordered ones stands behind all of the same or a lower priority number and before all of
-- a higher one, and these keep their places: handlers of one priority fire in the order of subscription.
pub insert_ordered-Placed :
    (s : EventSub) (ts : List EventSub) → Ordered ts → Placed s ts (insert_ordered s ts)
unfolding insert_ordered
insert_ordered-Placed s [] h = record {
  front = [];
  back = [];
  before = refl;
  result = refl;
  not_later = tt;
  later = tt;
}
insert_ordered-Placed s (t ∷ ts) h =
    let rest = insert_ordered-Placed s ts h.1 in
    by_branch (Placed s (t ∷ ts)) (ltb s.priority t.priority)
      (λ lower.
        let less : s.priority < t.priority = ground (arith, lower) in
        record {
          front = [];
          back = t ∷ ts;
          before = refl;
          result = refl;
          not_later = tt;
          later = (less, above s.priority t.priority ts less h.0);
        })
      (λ higher. record {
        front = t ∷ rest.front;
        back = rest.back;
        before = ap (λ l. t ∷ l) rest.before;
        result = ap (λ l. t ∷ l) rest.result;
        not_later = (ground (arith, higher), rest.not_later);
        later = rest.later;
      })
