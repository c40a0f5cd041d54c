-- ===== src/EventBus/Deferral.antt =====
-- What src/server/event_bus.c lets a handler do to an event that is being fired.
use open_bc.Base.{
  ℕ, zero, suc, ◌+◌, ◌-◌, if◌then◌else◌, ◌<◌, ◌≡◌, ap, ◌∙◌, arith, subst, sym, Bool, true, Option,
  none, some, List, [], ◌∷◌, length, ltb, leb, if_true, by_branch,
}
use open_bc.EventBus.{
  EventSub, EventEntry, EventTable, max_subs, max_events, same_name, validate_event_name, replaced,
  kept_in_front, subscribe_entry, unsubscribe_entry, subscribe_in, unsubscribe_in, event_subscribe,
  event_unsubscribe, clamp_priority,
}
use open_bc.EventBus.Calls.{Firing}

module _ (subs : List EventSub) (depth : ℕ) (positive : 0 < depth) where
  under_way :
      (e : EventEntry) (rest : EventTable)
      → Firing zero subs depth (e ∷ rest)
      → ltb 0 e.fire_depth ≡ true
  under_way e rest h =
      let same : e ≡ h.entry = cc h.found in
      let deep : e.fire_depth ≡ depth = ap (λ (x : EventEntry). x.fire_depth) same ∙ h.deep in
      ground (arith, deep, positive)

  -- With other pending changes the entry still has its handlers and its depth.
  like :
      (e e' : EventEntry) (rest : EventTable)
      → e'.subs ≡ e.subs
      → e'.fire_depth ≡ e.fire_depth
      → Firing zero subs depth (e ∷ rest)
      → Firing zero subs depth (e' ∷ rest)
  like e e' rest same_subs same_depth h =
      let same : e ≡ h.entry = cc h.found in
      record {
        entry = e';
        found = λ i. some e';
        handlers = same_subs ∙ ap (λ (x : EventEntry). x.subs) same ∙ h.handlers;
        deep = same_depth ∙ ap (λ (x : EventEntry). x.fire_depth) same ∙ h.deep;
      }

  subscribed :
      (s : EventSub) (e : EventEntry) (rest : EventTable)
      → Firing zero subs depth (e ∷ rest)
      → Firing zero subs depth (replaced e rest (subscribe_entry s e)).1
  unfolding subscribe_entry
  subscribed s e rest h =
      subst (λ (o : Option EventEntry). Firing zero subs depth (replaced e rest o).1)
        (sym (if_true _ (under_way e rest h)))
        (by_branch (λ (o : Option EventEntry). Firing zero subs depth (replaced e rest o).1)
          (leb max_subs (length e.subs + length e.add_pending)) (λ _. h)
          (λ _. like e _ rest (λ i. e.subs) (λ i. e.fire_depth) h))

  unsubscribed :
      (fn : ℕ) (e : EventEntry) (rest : EventTable)
      → Firing zero subs depth (e ∷ rest)
      → Firing zero subs depth (unsubscribe_entry fn e ∷ rest)
  unfolding unsubscribe_entry
  unsubscribed fn e rest h =
      subst (λ (x : EventEntry). Firing zero subs depth (x ∷ rest))
        (sym (if_true _ (under_way e rest h)))
        (by_branch (λ (x : EventEntry). Firing zero subs depth (x ∷ rest))
          (ltb (length e.remove_pending) max_subs)
          (λ _. like e _ rest (λ i. e.subs) (λ i. e.fire_depth) h) (λ _. h))

  -- An event behind the first one
  behind :
      (idx : ℕ) (e : EventEntry) (rest : EventTable)
      → Firing idx subs depth rest
      → Firing (suc idx) subs depth (e ∷ rest)
  behind idx e rest h = record {
    entry = h.entry;
    found = h.found;
    handlers = h.handlers;
    deep = h.deep;
  }

  ahead :
      (idx : ℕ) (e : EventEntry) (rest : EventTable)
      → Firing (suc idx) subs depth (e ∷ rest)
      → Firing idx subs depth rest
  ahead idx e rest h = record {
    entry = h.entry;
    found = h.found;
    handlers = h.handlers;
    deep = h.deep;
  }

  replaced-Firing :
      (idx : ℕ) (e : EventEntry) (rest : EventTable) (o : Option EventEntry)
      → Firing (suc idx) subs depth (e ∷ rest)
      → Firing (suc idx) subs depth (replaced e rest o).1
  replaced-Firing idx e rest none h = h
  replaced-Firing idx e rest (some e') h = behind idx e' rest (ahead idx e rest h)

  subscribe_turn :
      (name : List ℕ) (s : EventSub) (idx : ℕ) (e : EventEntry) (rest : EventTable)
      (later : Bool × EventTable)
      → ((i : ℕ) → Firing i subs depth rest → Firing i subs depth later.1)
      → Firing idx subs depth (e ∷ rest)
      → Firing idx subs depth
          (if same_name e.name name
            then replaced e rest (subscribe_entry s e)
            else kept_in_front e later).1
  subscribe_turn name s zero e rest later next h =
      by_branch (λ (r : Bool × EventTable). Firing zero subs depth r.1) (same_name e.name name)
        (λ _. subscribed s e rest h)
        (λ _. record { entry = h.entry; found = h.found; handlers = h.handlers; deep = h.deep })
  subscribe_turn name s (suc idx) e rest later next h =
      by_branch (λ (r : Bool × EventTable). Firing (suc idx) subs depth r.1) (same_name e.name name)
        (λ _. replaced-Firing idx e rest (subscribe_entry s e) h)
        (λ _. behind idx e later.1 (next idx (ahead idx e rest h)))

  subscribe_in-Firing :
      (name : List ℕ) (s : EventSub) (room : ℕ) (table : EventTable) (idx : ℕ)
      → Firing idx subs depth table
      → Firing idx subs depth (subscribe_in name s room table).1
  unfolding subscribe_in
  subscribe_in-Firing name s room [] idx h = absurd (cc h.found)
  subscribe_in-Firing name s zero (e ∷ rest) idx h =
      subscribe_turn name s idx e rest (subscribe_in name s zero rest)
        (subscribe_in-Firing name s zero rest) h
  subscribe_in-Firing name s (suc room) (e ∷ rest) idx h =
      subscribe_turn name s idx e rest (subscribe_in name s (suc room) rest)
        (subscribe_in-Firing name s (suc room) rest) h

  unsubscribe_in-Firing :
      (name : List ℕ) (fn : ℕ) (table : EventTable) (idx : ℕ)
      → Firing idx subs depth table
      → Firing idx subs depth (unsubscribe_in name fn table)
  unfolding unsubscribe_in
  unsubscribe_in-Firing name fn [] idx h = h
  unsubscribe_in-Firing name fn (e ∷ rest) zero h =
      by_branch (Firing zero subs depth) (same_name e.name name) (λ _. unsubscribed fn e rest h)
        (λ _. record { entry = h.entry; found = h.found; handlers = h.handlers; deep = h.deep })
  unsubscribe_in-Firing name fn (e ∷ rest) (suc idx) h =
      by_branch (Firing (suc idx) subs depth) (same_name e.name name)
        (λ _. behind idx (unsubscribe_entry fn e) rest (ahead idx e rest h))
        (λ _.
          behind idx e (unsubscribe_in name fn rest)
            (unsubscribe_in-Firing name fn rest idx (ahead idx e rest h)))

-- An event that is being fired keeps its place in the table, its handlers and its depth, whatever handler of whatever
-- event, its own included, is subscribed, and whatever is unsubscribed.
pub subscribe-Firing :
    (idx depth : ℕ) (subs : List EventSub) (name : List ℕ) (fn priority : ℕ) (table : EventTable)
    → 0 < depth
    → Firing idx subs depth table
    → Firing idx subs depth (event_subscribe name fn priority table).1
      × Firing idx subs depth (event_unsubscribe name fn table)
unfolding event_subscribe event_unsubscribe
subscribe-Firing idx depth subs name fn priority table positive h = (
  by_branch (λ (r : Bool × EventTable). Firing idx subs depth r.1) (validate_event_name name)
      (λ _.
        subscribe_in-Firing subs depth positive name
          (record { fn = fn; priority = clamp_priority priority }) (max_events - length table) table
          idx h)
      (λ _. h),
  by_branch (Firing idx subs depth) (validate_event_name name)
      (λ _. unsubscribe_in-Firing subs depth positive name fn table idx h) (λ _. h),
)
