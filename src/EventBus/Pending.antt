-- ===== src/EventBus/Pending.antt =====
-- Changes asked for while an event of src/server/event_bus.c is fired.
use open_bc.Base.{
  ℕ, suc, ◌+◌, ◌≤◌, ◌<◌, ◌≡◌, ◌≢◌, ◌⊎◌, inl, inr, Bool, refl, sym, ap, ◌∙◌, subst, arith, true,
  false, Option, none,
}
use open_bc.Base.{
  List, [], ◌∷◌, ◌++◌, All, ==_iff, length, ltb, leb, ◌==◌, if_true, if_false, by_branch,
}
use open_bc.EventBus.{
  EventSub, EventEntry, max_subs, insert_ordered, insert_sub, remove_first, remove_sub, remove_all,
  flush_removals,
}
use open_bc.EventBus.{insert_all, go_on, flush_additions, subscribe_entry, unsubscribe_entry}
use open_bc.EventBus.Order.{
  Ordered, Placed, insert_ordered-Ordered, insert_ordered-Placed, remove_first-Ordered,
}
use open_bc.EventBus.Fire.{flush_idle, flush_idle_lem}

-- The handlers are in order and, with those that wait, fit in the array.
pub record IsWaiting (e : EventEntry) : Type 0 where
  pub ordered : Ordered e.subs
  pub room : length e.subs + length e.add_pending ≤ max_subs
  pub removals : length e.remove_pending ≤ max_subs

length-insert_ordered :
    (s : EventSub) (ts : List EventSub) → length (insert_ordered s ts) ≡ suc (length ts)
unfolding insert_ordered
length-insert_ordered s [] = refl
length-insert_ordered s (t ∷ ts) =
    by_branch (λ (l : List EventSub). length l ≡ suc (length (t ∷ ts))) (ltb s.priority t.priority)
      (λ _. refl) (λ _. ap suc (length-insert_ordered s ts))

length-remove_first : (fn : ℕ) (ts : List EventSub) → length (remove_first fn ts) ≤ length ts
unfolding remove_first
length-remove_first fn [] = omega arith
length-remove_first fn (t ∷ ts) =
    by_branch (λ (l : List EventSub). length l ≤ length (t ∷ ts)) (t.fn == fn) (λ _. omega arith)
      (λ _. omega (arith, length-remove_first fn ts))

-- While an event is fired, neither a subscription nor an unsubscription changes the handlers that are being
-- gone through.
pub firing_unchanged :
    (s : EventSub) (fn : ℕ) (e : EventEntry)
    → 0 < e.fire_depth
    → ((go_on e (λ e'. e') (subscribe_entry s e)).subs ≡ e.subs)
      × ((unsubscribe_entry fn e).subs ≡ e.subs)
unfolding subscribe_entry unsubscribe_entry
firing_unchanged s fn e firing =
    let under_way : ltb 0 e.fire_depth ≡ true = ground arith in
    (
      ap (λ o. (go_on e (λ e'. e') o).subs) (if_true _ under_way)
          ∙ by_branch (λ (o : Option EventEntry). (go_on e (λ e'. e') o).subs ≡ e.subs)
              (leb max_subs (length e.subs + length e.add_pending)) (λ _. refl) (λ _. refl),
      ap (λ (e' : EventEntry). e'.subs) (if_true _ under_way)
          ∙ by_branch (λ (e' : EventEntry). e'.subs ≡ e.subs)
              (ltb (length e.remove_pending) max_subs) (λ _. refl) (λ _. refl),
    )

-- All insertions, none of them refused.
abbrev inserted : List EventSub → List EventSub → List EventSub
inserted [] ts = ts
inserted (s ∷ ss) ts = inserted ss (insert_ordered s ts)

all_inserted :
    (ss : List EventSub) (e : EventEntry)
    → length e.subs + length ss ≤ max_subs
    → insert_all ss e ≡ record e { subs = inserted ss e.subs }
unfolding insert_sub
all_inserted [] e room = refl
all_inserted (s ∷ ss) e room =
    let free : leb max_subs (length e.subs) ≡ false = ground arith in
    ap (go_on e (insert_all ss)) (if_false none free)
    ∙ all_inserted ss (record e { subs = insert_ordered s e.subs })
        (omega (arith, length-insert_ordered s e.subs))

abbrev removed_all : List ℕ → List EventSub → List EventSub
removed_all [] ts = ts
removed_all (fn ∷ fns) ts = removed_all fns (remove_first fn ts)

all_removed :
    (fns : List ℕ) (e : EventEntry) → remove_all fns e ≡ record e { subs = removed_all fns e.subs }
unfolding remove_sub
all_removed [] e = refl
all_removed (fn ∷ fns) e = all_removed fns (remove_sub fn e)

-- The first handler of an address is cut out, and the others keep their places.
pub record IsCut (fn : ℕ) (ts after : List EventSub) : Type 0 where
  pub front : List EventSub
  pub sub : EventSub
  pub back : List EventSub
  pub before : ts ≡ front ++ (sub ∷ back)
  pub result : after ≡ front ++ back
  pub its_address : sub.fn ≡ fn
  pub is_first : All (λ t. t.fn ≢ fn) front

-- Or none has the address.
abbrev pub IsWithout : ℕ → List EventSub → List EventSub → Type 0
IsWithout fn ts after = IsCut fn ts after ⊎ (All (λ t. t.fn ≢ fn) ts × (after ≡ ts))

-- The removals, one behind the other.
abbrev pub HasRemoved : List ℕ → List EventSub → List EventSub → Type 0
HasRemoved [] ts after = after ≡ ts
HasRemoved (fn ∷ fns) ts after =
    (next : List EventSub) × IsWithout fn ts next × HasRemoved fns next after

-- The additions, one behind the other, each in its place.
abbrev pub HasAdded : List EventSub → List EventSub → List EventSub → Type 0
HasAdded [] ts after = after ≡ ts
HasAdded (s ∷ ss) ts after = (next : List EventSub) × Placed s ts next × HasAdded ss next after

behind_other :
    (fn : ℕ) (t : EventSub) (ts after : List EventSub)
    → t.fn ≢ fn
    → IsWithout fn ts after
    → IsWithout fn (t ∷ ts) (t ∷ after)
behind_other fn t ts after other (inl cut) = inl (record {
  front = t ∷ cut.front;
  sub = cut.sub;
  back = cut.back;
  before = ap (λ l. t ∷ l) cut.before;
  result = ap (λ l. t ∷ l) cut.result;
  its_address = cut.its_address;
  is_first = (other, cut.is_first);
})
behind_other fn t ts after other (inr (none_has, same)) =
    inr ((other, none_has), ap (λ l. t ∷ l) same)

remove_first-IsWithout : (fn : ℕ) (ts : List EventSub) → IsWithout fn ts (remove_first fn ts)
unfolding remove_first
remove_first-IsWithout fn [] = inr (tt, refl)
remove_first-IsWithout fn (t ∷ ts) =
    by_branch (IsWithout fn (t ∷ ts)) (t.fn == fn)
      (λ here. inl (record {
        front = [];
        sub = t;
        back = ts;
        before = refl;
        result = refl;
        its_address = (==_iff t.fn fn).0 here;
        is_first = tt;
      }))
      (λ other.
        behind_other fn t ts (remove_first fn ts) (λ e. differs other ((==_iff t.fn fn).1 e))
          (remove_first-IsWithout fn ts))
  where
    differs : {b : Bool} → b ≡ false → b ≡ true → ⊥
    differs f t = ground (arith, f, t)

removed_all-HasRemoved :
    (fns : List ℕ) (ts : List EventSub) → HasRemoved fns ts (removed_all fns ts)
removed_all-HasRemoved [] ts = refl
removed_all-HasRemoved (fn ∷ fns) ts = (
  remove_first fn ts,
  remove_first-IsWithout fn ts,
  removed_all-HasRemoved fns (remove_first fn ts),
)

inserted-HasAdded : (ss ts : List EventSub) → Ordered ts → HasAdded ss ts (inserted ss ts)
inserted-HasAdded [] ts h = refl
inserted-HasAdded (s ∷ ss) ts h = (
  insert_ordered s ts,
  insert_ordered-Placed s ts h,
  inserted-HasAdded ss (insert_ordered s ts) (insert_ordered-Ordered s ts h),
)

removed_all-Ordered :
    (fns : List ℕ) (ts : List EventSub)
    → Ordered ts
    → Ordered (removed_all fns ts) × (length (removed_all fns ts) ≤ length ts)
removed_all-Ordered [] ts h = (h, omega arith)
removed_all-Ordered (fn ∷ fns) ts h =
    let rest = removed_all-Ordered fns (remove_first fn ts) (remove_first-Ordered fn ts h) in
    (rest.0, omega (arith, rest.1, length-remove_first fn ts))

inserted-Ordered :
    (ss ts : List EventSub)
    → Ordered ts
    → Ordered (inserted ss ts) × (length (inserted ss ts) ≡ length ts + length ss)
inserted-Ordered [] ts h = (h, omega arith)
inserted-Ordered (s ∷ ss) ts h =
    let rest = inserted-Ordered ss (insert_ordered s ts) (insert_ordered-Ordered s ts h) in
    (rest.0, omega (arith, rest.1, length-insert_ordered s ts))

flushed_lem :
    (e : EventEntry)
    → IsWaiting e
    → flush_additions (flush_removals e) ≡ record e {
      subs = inserted e.add_pending (removed_all e.remove_pending e.subs);
      add_pending = [];
      remove_pending = [];
    }
unfolding flush_removals flush_additions
flushed_lem e h =
    let less = removed_all-Ordered e.remove_pending e.subs h.ordered in
    ap
      (λ (e' : EventEntry). record (insert_all e'.add_pending (record e' { remove_pending = [] })) {
        add_pending = [];
      })
      (all_removed e.remove_pending e)
    ∙ ap (λ (e' : EventEntry). record e' { add_pending = [] })
        (all_inserted e.add_pending
          (record e { subs = removed_all e.remove_pending e.subs; remove_pending = [] })
          (omega (arith, less.1, h.room)))

-- When the outermost firing of an event ends, the removals that wait are made, each of the first handler with the
-- address, if there is one, and then the additions, each behind the handlers of its priority and before the later
-- ones; no accepted addition is dropped, nothing waits any more, and the handlers are in order and fit in the array.
-- Before, they were in order and, with the additions that wait, fitted in the array.
pub flush_idle-HasAdded :
    (e : EventEntry)
    → e.fire_depth ≡ 0
    → IsWaiting e
    → IsWaiting (flush_idle e)
      × ((flush_idle e).add_pending ≡ [])
      × ((flush_idle e).remove_pending ≡ [])
      × (left : List EventSub) × HasRemoved e.remove_pending e.subs left
      × HasAdded e.add_pending left (flush_idle e).subs
flush_idle-HasAdded e idle h =
    let path = flush_idle_lem e idle ∙ flushed_lem e h in
    let less = removed_all-Ordered e.remove_pending e.subs h.ordered in
    let more = inserted-Ordered e.add_pending (removed_all e.remove_pending e.subs) less.0 in
    (
      subst IsWaiting (sym path) (record {
        ordered = more.0;
        room = omega (arith, less.1, more.1, h.room);
        removals = omega arith;
      }),
      ap (λ (e' : EventEntry). e'.add_pending) path,
      ap (λ (e' : EventEntry). e'.remove_pending) path,
      removed_all e.remove_pending e.subs,
      removed_all-HasRemoved e.remove_pending e.subs,
      subst
          (λ (e' : EventEntry).
            HasAdded e.add_pending (removed_all e.remove_pending e.subs) e'.subs)
          (sym path) (inserted-HasAdded e.add_pending (removed_all e.remove_pending e.subs) less.0),
    )
