-- ===== src/Handshake/Build.antt =====
-- The builders of handshake.c. An `f32`, an `i32` and an `int` are their bit patterns.
pub mod Packets
pub mod Reader
pub mod Chains
pub mod Items
use open_bc.Base.{
  ℕ, ◌+◌, ◌^◌, Bool, true, false, Option, none, some, List, [], ◌∷◌, length, copy_at, ltb, leb,
  ◌==◌, if◌then◌else◌, u8, u16, low, ◌>>>◌,
}
use open_bc.Base.Text.{codes}
use open_bc.Buffer.{write_u8, write_u16, write_u32, write_i32, write_bytes, write_bit}
use open_bc.Buffer.Seq.{Write, ◌⨟◌, build}
use open_bc.Messages.{op_delete_player_anim}
use open_bc.Messages.Build.{Builder, store_whole}

abbrev pub op_settings : ℕ
op_settings = 0x00

abbrev pub op_game_init : ℕ
op_game_init = 0x01

abbrev pub op_boot_player : ℕ
op_boot_player = 0x04

abbrev pub op_ui_settings : ℕ
op_ui_settings = 0x16

abbrev pub op_delete_player_ui : ℕ
op_delete_player_ui = 0x17

abbrev pub op_checksum_req : ℕ
op_checksum_req = 0x20

abbrev pub op_checksum_resp : ℕ
op_checksum_resp = 0x21

abbrev pub msg_mission_init : ℕ
msg_mission_init = 0x35

abbrev pub rounds : ℕ
rounds = 4

-- `checksum_rounds[round]`
pub record Round : Type 0 where
  pub directory : List ℕ
  pub file_filter : List ℕ
  pub recursive : Bool

unfoldable pub checksum_round : ℕ → Round
checksum_round round =
    if round == 0
    then record { directory = codes "scripts/"; file_filter = codes "App.pyc"; recursive = false }
    else if round == 1
    then record {
      directory = codes "scripts/";
      file_filter = codes "Autoexec.pyc";
      recursive = false;
    }
    else if round == 2
    then record { directory = codes "scripts/ships"; file_filter = codes "*.pyc"; recursive = true }
    else record {
      directory = codes "scripts/mainmenu";
      file_filter = codes "*.pyc";
      recursive = false;
    }

-- The request for a directory, as both request builders write it.
abbrev pub write_request : ℕ → Round → Write
write_request index r =
    write_u8 op_checksum_req
    ⨟ write_u8 index
    ⨟ write_u16 (u16 (length r.directory))
    ⨟ write_bytes r.directory (length r.directory)
    ⨟ write_u16 (u16 (length r.file_filter))
    ⨟ write_bytes r.file_filter (length r.file_filter)
    ⨟ write_bit r.recursive

-- A negative round is a large number.
unfoldable pub build_checksum_request : ℕ → Builder
build_checksum_request round buf buf_size =
    if leb rounds round
    then (none, buf)
    else build (write_request (u8 round) (checksum_round round)) buf buf_size

abbrev pub final_round : Round
final_round = record {
  directory = codes "Scripts/Multiplayer";
  file_filter = codes "*.pyc";
  recursive = true;
}

unfoldable pub build_checksum_request_final : Builder
build_checksum_request_final = build (write_request 0xff final_round)

unfoldable pub build_settings : ℕ → Bool → Bool → ℕ → List ℕ → Builder
build_settings game_time collision_dmg friendly_fire player_slot map_name = build (
    write_u8 op_settings
    ⨟ write_u32 game_time
    ⨟ write_bit collision_dmg
    ⨟ write_bit friendly_fire
    ⨟ write_u8 player_slot
    ⨟ write_u16 (u16 (length map_name))
    ⨟ write_bytes map_name (u16 (length map_name))
    ⨟ write_bit false)

unfoldable pub build_gameinit : Builder
build_gameinit buf buf_size =
    if ltb buf_size 1 then (none, buf) else (some 1, copy_at buf 0 (op_game_init ∷ []))

-- A negative `int`
abbrev pub is_negative : ℕ → Bool
is_negative n = leb (2 ^ 31) n

-- `time_limit` and `end_time`, or 255 alone
abbrev pub write_time_limit : ℕ → ℕ → Write
write_time_limit time_limit end_time =
    if is_negative time_limit
    then write_u8 0xff
    else (write_u8 (low 8 time_limit) ⨟ write_i32 end_time)

unfoldable pub build_mission_init : ℕ → ℕ → ℕ → ℕ → ℕ → Builder
build_mission_init system_index current_player_count time_limit end_time frag_limit = build (
    write_u8 msg_mission_init
    ⨟ write_u8 (low 8 current_player_count)
    ⨟ write_u8 (low 8 system_index)
    ⨟ write_time_limit time_limit end_time
    ⨟ write_u8 (if is_negative frag_limit then 0xff else low 8 frag_limit))

unfoldable pub build_ui_collision : Bool → Builder
build_ui_collision collision_enabled = build (write_u8 op_ui_settings ⨟ write_bit collision_enabled)

unfoldable pub build_bootplayer : ℕ → Builder
build_bootplayer reason buf buf_size =
    if ltb buf_size 2 then (none, buf) else (some 2, copy_at buf 0 (op_boot_player ∷ reason ∷ []))

unfoldable pub build_delete_player_ui : ℕ → ℕ → ℕ → ℕ → Builder
build_delete_player_ui event_code src_obj_id tgt_obj_id wire_peer_id = build (
    write_u8 op_delete_player_ui
    ⨟ write_i32 0x866
    ⨟ write_i32 event_code
    ⨟ write_i32 src_obj_id
    ⨟ write_i32 tgt_obj_id
    ⨟ write_u8 wire_peer_id)

unfoldable pub build_delete_player_anim : List ℕ → Builder
build_delete_player_anim [] buf buf_size = (none, buf)
build_delete_player_anim (c ∷ name) buf buf_size =
    let len = length (c ∷ name) in
    store_whole (op_delete_player_anim ∷ low 8 len ∷ low 8 (len >>> 8) ∷ []) (c ∷ name) len buf
      buf_size
