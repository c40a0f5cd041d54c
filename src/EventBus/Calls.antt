-- ===== src/EventBus/Calls.antt =====
-- What `obc_event_fire` of src/server/event_bus.c does, handler by handler.
use open_bc.Base.{get_elem?-set, set-set}
use open_bc.Base.{
  ℕ, zero, suc, ◌+◌, ◌-◌, ◌≤◌, ◌<◌, ◌≡◌, refl, sym, ap, ◌∙◌, arith, Bool, true, false, ◌||◌,
}
use open_bc.Base.{
  Option, none, some, List, [], ◌∷◌, ◌++◌, length, length-append, get_elem?, get_elem?-append, set,
  leb, ◌==◌, if_true, if_false,
}
use mathlib.Core.List.{append_assoc}
use open_bc.EventBus.{
  EventSub, EventEntry, EventTable, max_subs, validate_event_name, flush_removals, flush_additions,
}
use open_bc.EventBus.Fire.{
  Latches, Handler, latched, subs_in, put_entry, change_entry, find_entry, flush_idle,
  flush_idle_lem, max_fire_depth, fire_one, fire_next, fire_from, finished, fire_entry, fire_found,
  event_fire,
}

get_elem?-end : (front : List EventSub) → get_elem? (front ++ []) (length front) ≡ none
get_elem?-end [] = refl
get_elem?-end (sub ∷ front) = get_elem?-end front

-- The event at an index is being fired, `depth` deep, with these handlers.
pub record Firing (idx : ℕ) (subs : List EventSub) (depth : ℕ) (table : EventTable) : Type 0 where
  pub entry : EventEntry
  pub found : get_elem? table idx ≡ some entry
  pub handlers : entry.subs ≡ subs
  pub deep : entry.fire_depth ≡ depth

-- The entry behind the handlers: one level up, and from the outermost one with the changes that wait made.
abbrev pub left_behind : ℕ → EventEntry → EventEntry
left_behind zero x = flush_additions (flush_removals (record x { fire_depth = 0 }))
left_behind (suc d) x = record x { fire_depth = suc d }

flush_idle-left_behind :
    (d : ℕ) (x : EventEntry)
    → x.fire_depth ≡ d + 1
    → flush_idle (record x { fire_depth = x.fire_depth - 1 }) ≡ left_behind d x
flush_idle-left_behind zero x h =
    let out : x.fire_depth - 1 ≡ 0 = omega (arith, h) in
    ap (λ k. flush_idle (record x { fire_depth = k })) out
    ∙ flush_idle_lem (record x { fire_depth = 0 }) refl
flush_idle-left_behind (suc d) x h =
    let up : x.fire_depth - 1 ≡ suc d = omega (arith, h) in
    ap (λ k. flush_idle (record x { fire_depth = k })) up
    ∙ if_false {test = suc d == 0} _ (ground arith)

module _ {W : Type 0} (run : Handler W) (name : List ℕ) (sender_slot : ℕ) where
  -- The handlers of a list are called in order, until one cancels. The flags are what earlier ones have latched:
  -- a later one cannot take back that the relay is suppressed.
  abbrev pub called :
      List EventSub → Bool → Bool → W × EventTable → (Bool × Bool) × (W × EventTable)
  called [] cancelled suppressed st = ((cancelled, suppressed), st)
  called (sub ∷ subs) true suppressed st = ((true, suppressed), st)
  called (sub ∷ subs) false suppressed st =
      let r = run sub.fn name sender_slot (false, suppressed) st in
      called subs r.0.0 (suppressed || r.0.1) r.1

  -- A handler may change the bus as the bus lets it: an event that is being fired keeps its handlers and its depth.
  abbrev pub Respects : Type 0
  Respects =
      (idx depth : ℕ) (subs : List EventSub) (fn : ℕ) (l : Latches) (st : W × EventTable)
      → 0 < depth
      → Firing idx subs depth st.1
      → Firing idx subs depth (run fn name sender_slot l st).1.1

  module _ (respects : Respects) (idx depth : ℕ) (subs : List EventSub) (positive : 0 < depth) where
    reached :
        (st : W × EventTable) (i : ℕ) (front back : List EventSub)
        → subs ≡ front ++ back
        → Firing idx subs depth st.1
        → get_elem? (subs_in (get_elem? st.1 idx)) i ≡ get_elem? (front ++ back) i
    reached st i front back split h =
        ap (λ (o : Option EventEntry). get_elem? (subs_in o) i) h.found
        ∙ ap (λ (l : List EventSub). get_elem? l i) (h.handlers ∙ split)

    at_next :
        (front : List EventSub) (sub : EventSub) (back : List EventSub) (i : ℕ)
        (rest : Latches × (W × EventTable) → Latches × (W × EventTable)) (l : Latches)
        (st : W × EventTable)
        → subs ≡ front ++ (sub ∷ back)
        → i ≡ length front
        → Firing idx subs depth st.1
        → fire_next run name sender_slot (get_elem? (subs_in (get_elem? st.1 idx)) i) rest l st
          ≡ fire_one run name sender_slot l.0 sub rest l st
    at_next front sub back i rest l st split at_i h =
        ap (λ (o : Option EventSub). fire_next run name sender_slot o rest l st)
          (reached st i front (sub ∷ back) split h
            ∙ ap (get_elem? (front ++ (sub ∷ back))) at_i
            ∙ get_elem?-append front sub back)

    fire_from-called :
        (left : ℕ) (front back : List EventSub) (i : ℕ) (c s : Bool) (st : W × EventTable)
        → subs ≡ front ++ back
        → i ≡ length front
        → length back ≤ left
        → Firing idx subs depth st.1
        → fire_from run name sender_slot idx left i (c, s) st ≡ called back c s st
    fire_from-called zero front [] i c s st split at_i enough h = refl
    fire_from-called zero front (sub ∷ back) i c s st split at_i enough h =
        absurd (omega (arith, enough))
    fire_from-called (suc left) front [] i c s st split at_i enough h =
        ap
          (λ (o : Option EventSub).
            fire_next run name sender_slot o
              (λ r. fire_from run name sender_slot idx left (i + 1) (latched (c, s) r.0) r.1) (c, s)
              st)
          (reached st i front [] split h ∙ ap (get_elem? (front ++ [])) at_i ∙ get_elem?-end front)
    fire_from-called (suc left) front (sub ∷ back) i true s st split at_i enough h =
        at_next front sub back i
          (λ r. fire_from run name sender_slot idx left (i + 1) (latched (true, s) r.0) r.1)
          (true, s) st split at_i h
    fire_from-called (suc left) front (sub ∷ back) i false s st split at_i enough h =
        let r = run sub.fn name sender_slot (false, s) st in
        at_next front sub back i
          (λ r. fire_from run name sender_slot idx left (i + 1) (latched (false, s) r.0) r.1)
          (false, s) st split at_i h
        ∙ fire_from-called left (front ++ (sub ∷ [])) back (i + 1) r.0.0 (s || r.0.1) r.1
            (split ∙ sym (append_assoc front (sub ∷ []) back))
            (omega (arith, at_i, length-append front (sub ∷ []))) (omega (arith, enough))
            (respects idx depth subs sub.fn (false, s) st positive h)

    called-Firing :
        (back : List EventSub) (c s : Bool) (st : W × EventTable)
        → Firing idx subs depth st.1
        → Firing idx subs depth (called back c s st).1.1
    called-Firing [] c s st h = h
    called-Firing (sub ∷ back) true s st h = h
    called-Firing (sub ∷ back) false s st h =
        let r = run sub.fn name sender_slot (false, s) st in
        called-Firing back r.0.0 (s || r.0.1) r.1
          (respects idx depth subs sub.fn (false, s) st positive h)

  finished-left_behind :
      (idx d : ℕ) (subs : List EventSub) (r : Latches × (W × EventTable))
      → (h : Firing idx subs (d + 1) r.1.1)
      → finished run name sender_slot idx r ≡ (r.0, (r.1.0, set r.1.1 idx (left_behind d h.entry)))
  finished-left_behind idx d subs r h = λ i. (r.0, (r.1.0, closed i))
    where
      up : EventEntry
      up = record h.entry { fire_depth = h.entry.fire_depth - 1 }

      dec : EventEntry → EventEntry
      dec e = record e { fire_depth = e.fire_depth - 1 }

      closed :
          change_entry idx flush_idle (change_entry idx dec r.1.1)
          ≡ set r.1.1 idx (left_behind d h.entry)
      closed =
          ap (λ (o : Option EventEntry). change_entry idx flush_idle (put_entry idx dec r.1.1 o))
            h.found
          ∙ ap (put_entry idx flush_idle (set r.1.1 idx up))
              (get_elem?-set r.1.1 idx h.entry up h.found)
          ∙ set-set r.1.1 idx up (flush_idle up)
          ∙ ap (set r.1.1 idx) (flush_idle-left_behind d h.entry h.deep)

  -- Firing an event that has handlers, at most 64, and that is fired less than eight deep: it goes one level deeper,
  -- the handlers that it has at that moment are called, in their order, until one cancels, what one has latched
  -- staying so, and it comes back to its depth, the removals and then the additions that wait being made if that is
  -- 0. Handlers are taken to leave an event that is being fired its handlers and its depth, as subscribing
  -- and unsubscribing do.
  pub event_fire_lem :
      (st : W × EventTable) (idx : ℕ) (e : EventEntry)
      → Respects
      → validate_event_name name ≡ true
      → find_entry name st.1 ≡ some idx
      → get_elem? st.1 idx ≡ some e
      → 0 < length e.subs
      → length e.subs ≤ max_subs
      → e.fire_depth < max_fire_depth
      → (during : (Bool × Bool) × (W × EventTable)) × (during
          ≡ called e.subs false false
              (st.0, set st.1 idx (record e { fire_depth = e.fire_depth + 1 })))
        × (h : Firing idx e.subs (e.fire_depth + 1) during.1.1) × (event_fire run name sender_slot
              st
            ≡ (during.0, (during.1.0, set during.1.1 idx (left_behind e.fire_depth h.entry))))
  unfolding event_fire
  event_fire_lem st idx e respects valid found at_e some_subs few shallow = (
    during,
    refl,
    still,
    if_true ((false, false), st) valid
        ∙ ap (λ (o : Option ℕ). fire_found run name sender_slot o st) found
        ∙ ap (λ (o : Option EventEntry). fire_entry run name sender_slot idx o st) at_e
        ∙ if_false {test = length e.subs == 0} ((false, false), st) (ground (arith, some_subs))
        ∙ if_false {test = leb max_fire_depth e.fire_depth} ((true, false), st)
            (ground (arith, shallow))
        ∙ ap
            (λ (table : EventTable).
              finished run name sender_slot idx
                (fire_from run name sender_slot idx max_subs 0 (false, false) (st.0, table)))
            (ap (put_entry idx (λ x. record x { fire_depth = x.fire_depth + 1 }) st.1) at_e)
        ∙ ap (finished run name sender_slot idx) (
            fire_from-called respects idx (e.fire_depth + 1) e.subs (omega arith) max_subs [] e.subs
              0 false false deeper refl refl few firing)
        ∙ finished-left_behind idx e.fire_depth e.subs during still,
  )
    where
      deeper : W × EventTable
      deeper = (st.0, set st.1 idx (record e { fire_depth = e.fire_depth + 1 }))

      firing : Firing idx e.subs (e.fire_depth + 1) deeper.1
      firing = record {
        entry = record e { fire_depth = e.fire_depth + 1 };
        found = get_elem?-set st.1 idx e (record e { fire_depth = e.fire_depth + 1 }) at_e;
        handlers = refl;
        deep = refl;
      }

      during : (Bool × Bool) × (W × EventTable)
      during = called e.subs false false deeper

      still : Firing idx e.subs (e.fire_depth + 1) during.1.1
      still =
          called-Firing respects idx (e.fire_depth + 1) e.subs (omega arith) e.subs false false
            deeper firing
