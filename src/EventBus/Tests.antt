-- ===== src/EventBus/Tests.antt =====
-- An event with three handlers.
use open_bc.Base.{Bool, ◌+◌, set, ℕ, ◌≡◌, ◌==◌, ◌++◌, true, false, refl, arith, List, [], ◌∷◌}
use open_bc.EventBus.{
  EventSub, EventEntry, EventTable, event_subscribe, event_unsubscribe, validate_event_name,
  insert_ordered, subscribe_entry, unsubscribe_entry, go_on,
}
use open_bc.EventBus.Order.{Ordered, Placed, insert_ordered-Placed}
use open_bc.EventBus.Fire.{Handler, event_fire, flush_idle}
use open_bc.EventBus.Calls.{Firing, left_behind, called, event_fire_lem}
use open_bc.EventBus.Deferral.{subscribe-Firing}
use open_bc.EventBus.Pending.{
  IsWaiting, HasRemoved, HasAdded, firing_unchanged, flush_idle-HasAdded,
}

abbrev handler : ℕ → ℕ → EventSub
handler fn priority = record { fn = fn; priority = priority }

abbrev three : List EventSub
three = handler 0xa0 10 ∷ handler 0xb0 10 ∷ handler 0xc0 50 ∷ []

three-Ordered : Ordered three
three-Ordered = ((omega arith, (omega arith, tt)), ((omega arith, tt), (tt, tt)))

-- Registration order among equals.
behind_equals :
    insert_ordered (handler 0xd0 10) three
    ≡ handler 0xa0 10 ∷ handler 0xb0 10 ∷ handler 0xd0 10 ∷ handler 0xc0 50 ∷ []
unfolding insert_ordered
behind_equals = refl

insert_ordered-Placed_here : Placed (handler 0xd0 10) three (insert_ordered (handler 0xd0 10) three)
insert_ordered-Placed_here = insert_ordered-Placed (handler 0xd0 10) three three-Ordered

-- In the middle of a firing, with a removal and an addition that wait.
abbrev firing : EventEntry
firing = record {
  name = 104 ∷ 105 ∷ [];
  subs = three;
  fire_depth = 1;
  remove_pending = 0xb0 ∷ [];
  add_pending = handler 0xd0 0 ∷ [];
}

-- The same at the end of the outermost firing
abbrev ending : EventEntry
ending = record firing { fire_depth = 0 }

ending-IsWaiting : IsWaiting ending
ending-IsWaiting = record { ordered = three-Ordered; room = omega arith; removals = omega arith }

firing_unchanged_here :
    ((go_on firing (λ e'. e') (subscribe_entry (handler 0xe0 5) firing)).subs ≡ three)
    × ((unsubscribe_entry 0xa0 firing).subs ≡ three)
firing_unchanged_here = firing_unchanged (handler 0xe0 5) 0xa0 firing (omega arith)

flush_idle-HasAdded_example :
    IsWaiting (flush_idle ending)
    × ((flush_idle ending).add_pending ≡ [])
    × ((flush_idle ending).remove_pending ≡ [])
    × (left : List EventSub) × HasRemoved (0xb0 ∷ []) three left
    × HasAdded (handler 0xd0 0 ∷ []) left (flush_idle ending).subs
flush_idle-HasAdded_example = flush_idle-HasAdded ending refl ending-IsWaiting

subscribe-Firing_example :
    Firing 0 three 1 (event_subscribe (104 ∷ 105 ∷ []) 0xe0 5 (firing ∷ [])).1
    × Firing 0 three 1 (event_unsubscribe (104 ∷ 105 ∷ []) 0xe0 (firing ∷ []))
subscribe-Firing_example =
    subscribe-Firing 0 1 three (104 ∷ 105 ∷ []) 0xe0 5 (firing ∷ []) (omega arith)
      (record { entry = firing; found = refl; handlers = refl; deep = refl })

-- Handlers that note that they ran and subscribe one more for the next time; handler 2 cancels.
abbrev noting : Handler (List ℕ)
noting fn name sender_slot l (ran, table) =
    ((fn == 2, false), (ran ++ (fn ∷ []), (event_subscribe name (fn + 10) 0 table).1))

abbrev kill : EventEntry
kill = record {
  name = 0x6b ∷ [];
  subs = handler 1 5 ∷ handler 2 5 ∷ handler 3 9 ∷ [];
  fire_depth = 0;
  remove_pending = [];
  add_pending = [];
}

kill_valid : validate_event_name (0x6b ∷ []) ≡ true
unfolding validate_event_name
kill_valid = refl

event_fire_lem_example :
    (during : (Bool × Bool) × (List ℕ × EventTable)) × (during
      ≡ called noting (0x6b ∷ []) 4 kill.subs false false ([], record kill { fire_depth = 1 } ∷ []))
    × (h : Firing 0 kill.subs 1 during.1.1) × (event_fire noting (0x6b ∷ []) 4 ([], kill ∷ [])
        ≡ (during.0, (during.1.0, set during.1.1 0 (left_behind 0 h.entry))))
event_fire_lem_example =
    event_fire_lem noting (0x6b ∷ []) 4 ([], kill ∷ []) 0 kill
      (λ idx depth subs fn l st positive h.
        (subscribe-Firing idx depth subs (0x6b ∷ []) (fn + 10) 0 st.1 positive h).0)
      kill_valid refl refl (omega arith) (omega arith) (omega arith)
