-- ===== src/EventBus.antt =====
-- The registry of src/server/event_bus.c: events, their handlers in order, and the changes that wait while an
-- event is fired. An array with its count is a list; a handler is the number that stands for its address; a
-- name is the bytes before the NUL. A NULL name or handler, which the functions refuse first, is outside the
-- model. EventBus.Fire has `obc_event_fire`.
pub mod Order
pub mod Pending
pub mod Fire
pub mod Calls
pub mod Deferral
mod Tests
use open_bc.Base.{
  ℕ, zero, suc, ◌+◌, ◌-◌, ◌^◌, Bool, true, false, ◌&&◌, not, Option, none, some, List, [], ◌∷◌,
  ◌++◌,
}
use open_bc.Base.{ltb, leb, ◌==◌, if◌then◌else◌, length}

abbrev pub max_subs : ℕ
max_subs = 64

abbrev pub max_events : ℕ
max_events = 128

abbrev pub name_max : ℕ
name_max = 64

-- `obc_event_sub_t`
pub record EventSub : Type 0 where
  pub fn : ℕ
  pub priority : ℕ

-- `obc_event_entry_t`
pub record EventEntry : Type 0 where
  pub name : List ℕ
  pub subs : List EventSub
  pub fire_depth : ℕ
  pub remove_pending : List ℕ
  pub add_pending : List EventSub

-- `g_events`, the first `g_event_count`
abbrev pub EventTable : Type 0
EventTable = List EventEntry

-- Not empty, and with its NUL in `OBC_EVENT_NAME_MAX` bytes.
unfoldable pub validate_event_name : List ℕ → Bool
validate_event_name name = ltb 0 (length name) && ltb (length name) name_max

-- `strcmp(a, b) == 0`
abbrev pub same_name : List ℕ → List ℕ → Bool
same_name [] [] = true
same_name [] (b ∷ bs) = false
same_name (a ∷ xs) [] = false
same_name (a ∷ xs) (b ∷ bs) = a == b && same_name xs bs

-- Before the first handler of a strictly higher priority number.
pub insert_ordered : EventSub → List EventSub → List EventSub
insert_ordered s [] = s ∷ []
insert_ordered s (t ∷ ts) =
    if ltb s.priority t.priority then s ∷ t ∷ ts else t ∷ insert_ordered s ts

-- `none` is -1.
pub insert_sub : EventSub → EventEntry → Option EventEntry
insert_sub s e =
    if leb max_subs (length e.subs)
    then none
    else some (record e { subs = insert_ordered s e.subs })

-- Without the first occurrence.
pub remove_first : ℕ → List EventSub → List EventSub
remove_first fn [] = []
remove_first fn (t ∷ ts) = if t.fn == fn then ts else t ∷ remove_first fn ts

pub remove_sub : ℕ → EventEntry → EventEntry
remove_sub fn e = record e { subs = remove_first fn e.subs }

abbrev pub remove_all : List ℕ → EventEntry → EventEntry
remove_all [] e = e
remove_all (fn ∷ fns) e = remove_all fns (remove_sub fn e)

pub flush_removals : EventEntry → EventEntry
flush_removals e = record (remove_all e.remove_pending e) { remove_pending = [] }

-- The loop ends at the first insertion that fails.
abbrev pub go_on : EventEntry → (EventEntry → EventEntry) → Option EventEntry → EventEntry
go_on e rest none = e
go_on e rest (some e') = rest e'

abbrev pub insert_all : List EventSub → EventEntry → EventEntry
insert_all [] e = e
insert_all (s ∷ ss) e = go_on e (insert_all ss) (insert_sub s e)

pub flush_additions : EventEntry → EventEntry
flush_additions e = record (insert_all e.add_pending e) { add_pending = [] }

-- An `int` is its bit pattern: a negative priority becomes 0.
pub clamp_priority : ℕ → ℕ
clamp_priority priority =
    if leb (2 ^ 31) priority then 0 else if ltb 255 priority then 255 else priority

-- The call on the event's entry: `none` where it returns -1.
pub subscribe_entry : EventSub → EventEntry → Option EventEntry
subscribe_entry s e =
    if ltb 0 e.fire_depth
    then (if leb max_subs (length e.subs + length e.add_pending)
        then none
        else some (record e { add_pending = e.add_pending ++ (s ∷ []) }))
    else insert_sub s e

pub unsubscribe_entry : ℕ → EventEntry → EventEntry
unsubscribe_entry fn e =
    if ltb 0 e.fire_depth
    then (if ltb (length e.remove_pending) max_subs
        then record e { remove_pending = e.remove_pending ++ (fn ∷ []) }
        else e)
    else remove_sub fn e

abbrev pub new_entry : List ℕ → EventEntry
new_entry name = record {
  name = name;
  subs = [];
  fire_depth = 0;
  remove_pending = [];
  add_pending = [];
}

abbrev pub kept_in_front : EventEntry → Bool × EventTable → Bool × EventTable
kept_in_front e (ok, table) = (ok, e ∷ table)

abbrev pub replaced : EventEntry → EventTable → Option EventEntry → Bool × EventTable
replaced e rest none = (false, e ∷ rest)
replaced e rest (some e') = (true, e' ∷ rest)

-- The search of `find_or_create_entry` with `room` entries more, and the subscription in the entry found or
-- made; `true` is 0, `false` is -1.
pub subscribe_in : List ℕ → EventSub → ℕ → EventTable → Bool × EventTable
subscribe_in name s zero [] = (false, [])
subscribe_in name s (suc room) [] =
    replaced (new_entry name) [] (subscribe_entry s (new_entry name))
subscribe_in name s room (e ∷ rest) =
    let later = subscribe_in name s room rest in
    if same_name e.name name then replaced e rest (subscribe_entry s e) else kept_in_front e later

pub event_subscribe : List ℕ → ℕ → ℕ → EventTable → Bool × EventTable
event_subscribe name fn priority table =
    if validate_event_name name
    then subscribe_in name (record { fn = fn; priority = clamp_priority priority })
        (max_events - length table) table
    else (false, table)

pub unsubscribe_in : List ℕ → ℕ → EventTable → EventTable
unsubscribe_in name fn [] = []
unsubscribe_in name fn (e ∷ rest) =
    let later = unsubscribe_in name fn rest in
    if same_name e.name name then unsubscribe_entry fn e ∷ rest else e ∷ later

pub event_unsubscribe : List ℕ → ℕ → EventTable → EventTable
event_unsubscribe name fn table =
    if validate_event_name name then unsubscribe_in name fn table else table

abbrev pub any_firing : EventTable → Bool
any_firing [] = false
any_firing (e ∷ rest) = if ltb 0 e.fire_depth then true else any_firing rest

-- `obc_event_bus_init` and `obc_event_bus_shutdown`
pub event_bus_init : EventTable → EventTable
event_bus_init table = if any_firing table then table else []
