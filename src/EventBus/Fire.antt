-- ===== src/EventBus/Fire.antt =====
-- `obc_event_fire` of src/server/event_bus.c. The handlers belong to the modules that the server loads: what one
-- does with the engine's functions and the event's data, with its own state `W` and with the bus, is the argument
-- `run`.
use open_bc.Base.{ℕ, zero, suc, ◌+◌, ◌-◌, ◌≡◌, refl, sym, ap, ◌∙◌, arith, Bool, true, false, ◌||◌}
use open_bc.Base.{Option, none, some, List, [], ◌∷◌, length, get_elem?, set, ltb, leb, ◌==◌}
use open_bc.Base.{if◌then◌else◌, if_true, by_branch, ==_iff}
use open_bc.EventBus.{
  EventSub, EventEntry, EventTable, max_subs, same_name, validate_event_name, flush_removals,
  flush_additions, remove_all, insert_all,
}

-- `OBC_EVENT_MAX_FIRE_DEPTH`
abbrev pub max_fire_depth : ℕ
max_fire_depth = 8

-- `cancelled` and `suppress_relay`
abbrev pub Latches : Type 0
Latches = Bool × Bool

-- Of a handler: its address, the event's name, the sender's slot, what stands in the context, and the states.
abbrev pub Handler : Type 0 → Type 0
Handler W = ℕ → List ℕ → ℕ → Latches → W × EventTable → Latches × (W × EventTable)

-- What was latched stays so.
abbrev pub latched : Latches → Latches → Latches
latched (cancelled, suppressed) (c, s) = (cancelled || c, suppressed || s)

abbrev pub subs_in : Option EventEntry → List EventSub
subs_in none = []
subs_in (some e) = e.subs

abbrev pub put_entry : ℕ → (EventEntry → EventEntry) → EventTable → Option EventEntry → EventTable
put_entry idx f table none = table
put_entry idx f table (some e) = set table idx (f e)

-- A change of the entry at an index
abbrev pub change_entry : ℕ → (EventEntry → EventEntry) → EventTable → EventTable
change_entry idx f table = put_entry idx f table (get_elem? table idx)

abbrev pub find_from : List ℕ → ℕ → EventTable → Option ℕ
find_from name i [] = none
find_from name i (e ∷ rest) =
    let later = find_from name (i + 1) rest in if same_name e.name name then some i else later

-- `find_entry`
abbrev pub find_entry : List ℕ → EventTable → Option ℕ
find_entry name table = find_from name 0 table

-- The removals that wait, then the additions, once nobody fires the event any more.
abbrev pub flush_idle : EventEntry → EventEntry
flush_idle e =
    if e.fire_depth == 0
    then (let e1 = if ltb 0 (length e.remove_pending) then flush_removals e else e in
        if ltb 0 (length e1.add_pending) then flush_additions e1 else e1)
    else e

none_wait {ℓ} : {A : Type ℓ} (l : List A) → ltb 0 (length l) ≡ false → l ≡ []
none_wait [] e = refl
none_wait (a ∷ l) e = absurd (ground (arith, e))

flush_removals_none : (e : EventEntry) → e.remove_pending ≡ [] → e ≡ flush_removals e
unfolding flush_removals
flush_removals_none e h = sym (
    ap (λ l. record (remove_all l e) { remove_pending = [] }) h
    ∙ (λ i. record e { remove_pending = sym h i }))

flush_additions_none : (e : EventEntry) → e.add_pending ≡ [] → e ≡ flush_additions e
unfolding flush_additions
flush_additions_none e h = sym (
    ap (λ l. record (insert_all l e) { add_pending = [] }) h
    ∙ (λ i. record e { add_pending = sym h i }))

-- The tests whether anything waits only save the work.
pub flush_idle_lem :
    (e : EventEntry) → e.fire_depth ≡ 0 → flush_idle e ≡ flush_additions (flush_removals e)
flush_idle_lem e idle =
    if_true e ((==_iff e.fire_depth 0).1 idle)
    ∙ by_branch (λ (e' : EventEntry). e' ≡ flush_additions e1) (ltb 0 (length e1.add_pending))
        (λ _. refl) (λ z. flush_additions_none e1 (none_wait e1.add_pending z))
    ∙ ap flush_additions (
        by_branch (λ (e' : EventEntry). e' ≡ flush_removals e) (ltb 0 (length e.remove_pending))
          (λ _. refl) (λ z. flush_removals_none e (none_wait e.remove_pending z)))
  where
    e1 : EventEntry
    e1 = if ltb 0 (length e.remove_pending) then flush_removals e else e

module _ {W : Type 0} (run : Handler W) (name : List ℕ) (sender_slot : ℕ) where
  -- A handler is called, and the loop goes on.
  abbrev pub fire_one :
      Bool
      → EventSub
      → (Latches × (W × EventTable) → Latches × (W × EventTable))
      → Latches
      → W × EventTable
      → Latches × (W × EventTable)
  fire_one true sub rest l st = (l, st)
  fire_one false sub rest l st = rest (run sub.fn name sender_slot l st)

  abbrev pub fire_next :
      Option EventSub
      → (Latches × (W × EventTable) → Latches × (W × EventTable))
      → Latches
      → W × EventTable
      → Latches × (W × EventTable)
  fire_next none rest l st = (l, st)
  fire_next (some sub) rest l st = fire_one l.0 sub rest l st

  -- The loop from handler `i` on, over the entry as it is at each turn; it has `left` turns at most.
  abbrev pub fire_from : ℕ → ℕ → ℕ → Latches → W × EventTable → Latches × (W × EventTable)
  fire_from idx zero i l st = (l, st)
  fire_from idx (suc left) i l st =
      fire_next (get_elem? (subs_in (get_elem? st.1 idx)) i)
        (λ r. fire_from idx left (i + 1) (latched l r.0) r.1) l st

  -- Behind the loop
  abbrev pub finished : ℕ → Latches × (W × EventTable) → Latches × (W × EventTable)
  finished idx (l, (w, table)) = (
    l,
    (
      w,
      change_entry idx flush_idle
          (change_entry idx (λ e. record e { fire_depth = e.fire_depth - 1 }) table),
    ),
  )

  abbrev pub entered : ℕ → W × EventTable → W × EventTable
  entered idx (w, table) =
      (w, change_entry idx (λ e. record e { fire_depth = e.fire_depth + 1 }) table)

  abbrev pub fire_entry : ℕ → Option EventEntry → W × EventTable → Latches × (W × EventTable)
  fire_entry idx none st = ((false, false), st)
  fire_entry idx (some e) st =
      if length e.subs == 0
      then ((false, false), st)
      else if leb max_fire_depth e.fire_depth
      then ((true, false), st)
      else finished idx (fire_from idx max_subs 0 (false, false) (entered idx st))

  abbrev pub fire_found : Option ℕ → W × EventTable → Latches × (W × EventTable)
  fire_found none st = ((false, false), st)
  fire_found (some idx) st = fire_entry idx (get_elem? st.1 idx) st

  unfoldable pub event_fire : W × EventTable → Latches × (W × EventTable)
  event_fire st =
      if validate_event_name name
      then fire_found (find_entry name st.1) st
      else ((false, false), st)
