-- ===== src/Messages/Ids.antt =====
-- Object identifiers and player identifiers: game_builders.c, game_events.c and player_ids.h. An `i32` is
-- its bit pattern.
use open_bc.Base.{ℕ, ◌+◌, ◌*◌, ◌^◌, Bool, Option, none, some}
use open_bc.Base.{ltb, leb, ◌&&◌, if◌then◌else◌, u32, sub32, ◌>>>◌}

-- `BC_MAX_PLAYERS`
abbrev max_slots : ℕ
max_slots = 9

pub make_object_id : ℕ → ℕ → ℕ
make_object_id player_slot sub_index = u32 (0x3fff_ffff + player_slot * 0x4_0000 + sub_index)

pub make_ship_id : ℕ → ℕ
make_ship_id player_slot = make_object_id player_slot 0

-- `none` is -1; the difference is negative where its highest bit is set.
pub object_id_to_slot : ℕ → Option ℕ
object_id_to_slot object_id =
    let offset = sub32 object_id 0x3fff_ffff in
    let slot = offset >>> 18 in
    if leb (2 ^ 31) offset then none else if leb max_slots slot then none else some slot

-- The slot may be negative, which is `none`.
abbrev pub player_id_from_peer_slot : Option ℕ → ℕ
player_id_from_peer_slot none = 0
player_id_from_peer_slot (some slot) = if leb max_slots slot then 0 else slot + 1

pub player_id_from_game_slot : ℕ → ℕ
player_id_from_game_slot game_slot = player_id_from_peer_slot (some (game_slot + 1))

pub is_valid_player_id : ℕ → Bool
is_valid_player_id player_id = ltb 0 player_id && leb player_id max_slots
