-- ===== src/Messages/Build.antt =====
-- The builders of game_builders.c. Each answers the packet's length (`none`: -1) and the output array.
pub mod Wire
pub mod Writes
use open_bc.Base.{
  ℕ, ◌+◌, Bool, Option, none, some, List, [], ◌∷◌, length, take, copy_at, ltb, ◌==◌, if◌then◌else◌,
  u8, u16,
}
use open_bc.Buffer.{write_u8, write_u16, write_i32, write_bytes}
use open_bc.Buffer.Seq.{Write, ◌⨟◌, no_write, build}
use open_bc.Messages.{
  op_obj_create_team, op_python_event, op_destroy_obj, op_obj_not_found, op_enter_set,
  op_state_update, msg_chat, msg_team_chat, msg_score_change, msg_score, msg_end_game, msg_restart,
  msg_score_init, msg_team_score, msg_team_message,
}

abbrev pub Builder : Type 0
Builder = List ℕ → ℕ → Option ℕ × List ℕ

-- `buf[0] = ...; buf[n] = ...; memcpy(buf + n, bytes, len)` where the total fits.
abbrev pub store_whole : List ℕ → List ℕ → ℕ → Builder
store_whole header bytes len buf buf_size =
    if ltb buf_size (length header + len) then (none, buf) else (
      some (length header + len),
      copy_at (copy_at buf 0 header) (length header) (take len bytes),
    )

pub build_object_create_team : ℕ → ℕ → List ℕ → ℕ → Builder
build_object_create_team owner_slot team_id ship_data ship_data_len =
    store_whole (op_obj_create_team ∷ owner_slot ∷ team_id ∷ []) ship_data ship_data_len

pub build_event_forward : ℕ → List ℕ → ℕ → Builder
build_event_forward opcode bytes len = store_whole (opcode ∷ []) bytes len

pub build_destroy_obj : ℕ → Builder
build_destroy_obj object_id = build (write_u8 op_destroy_obj ⨟ write_i32 object_id)

pub build_obj_not_found : ℕ → Builder
build_obj_not_found object_id = build (write_u8 op_obj_not_found ⨟ write_i32 object_id)

pub build_enter_set : ℕ → List ℕ → Builder
build_enter_set object_id set_name =
    let name_len = length set_name in
    build (
      write_u8 op_enter_set
      ⨟ write_i32 object_id
      ⨟ write_i32 name_len
      ⨟ (if ltb 0 name_len then write_bytes set_name name_len else no_write)
      ⨟ write_u8 0x00)

pub build_chat : ℕ → Bool → List ℕ → Builder
build_chat sender_slot team message = build (
    write_u8 (if team then msg_team_chat else msg_chat)
    ⨟ write_u8 sender_slot
    ⨟ write_u8 0x00
    ⨟ write_u8 0x00
    ⨟ write_u8 0x00
    ⨟ write_u16 (u16 (length message))
    ⨟ write_bytes message (length message))

-- `bc_score_entry_t`
pub record ScoreEntry : Type 0 where
  pub player_id : ℕ
  pub score : ℕ

abbrev pub write_scores : List ScoreEntry → Write
write_scores [] = no_write
write_scores (e ∷ es) = write_i32 e.player_id ⨟ write_i32 e.score ⨟ write_scores es

-- `extra` are the `extra_count` entries.
pub build_score_change : ℕ → ℕ → ℕ → ℕ → ℕ → List ScoreEntry → Builder
build_score_change killer_id killer_kills killer_score victim_id victim_deaths extra = build (
    write_u8 msg_score_change
    ⨟ write_i32 killer_id
    ⨟ (if killer_id == 0 then no_write else (write_i32 killer_kills ⨟ write_i32 killer_score))
    ⨟ write_i32 victim_id
    ⨟ write_i32 victim_deaths
    ⨟ write_u8 (u8 (length extra))
    ⨟ write_scores extra)

pub build_team_message : ℕ → ℕ → Builder
build_team_message player_id team_id =
    build (write_u8 msg_team_message ⨟ write_i32 player_id ⨟ write_u8 team_id)

pub build_end_game : ℕ → Builder
build_end_game reason = build (write_u8 msg_end_game ⨟ write_i32 reason)

pub build_restart_game : Builder
build_restart_game buf buf_size =
    if ltb buf_size 1 then (none, buf) else (some 1, copy_at buf 0 (msg_restart ∷ []))

pub build_python_subsystem_event : ℕ → ℕ → ℕ → Builder
build_python_subsystem_event event_type source_obj_id dest_obj_id = build (
    write_u8 op_python_event
    ⨟ write_i32 0x101
    ⨟ write_i32 event_type
    ⨟ write_i32 source_obj_id
    ⨟ write_i32 dest_obj_id)

pub build_python_obj_ptr_event : ℕ → ℕ → ℕ → ℕ → Builder
build_python_obj_ptr_event event_type source_obj_id dest_obj_id obj_ptr = build (
    write_u8 op_python_event
    ⨟ write_i32 0x10c
    ⨟ write_i32 event_type
    ⨟ write_i32 source_obj_id
    ⨟ write_i32 dest_obj_id
    ⨟ write_i32 obj_ptr)

pub build_python_exploding_event : ℕ → ℕ → ℕ → ℕ → Builder
build_python_exploding_event source_obj_id dest_obj_id firing_player_id lifetime = build (
    write_u8 op_python_event
    ⨟ write_i32 0x8129
    ⨟ write_i32 0x80_004e
    ⨟ write_i32 source_obj_id
    ⨟ write_i32 dest_obj_id
    ⨟ write_i32 firing_player_id
    ⨟ write_i32 lifetime)

pub build_state_update : ℕ → ℕ → ℕ → List ℕ → ℕ → Builder
build_state_update object_id game_time dirty_flags field_data field_data_len = build (
    write_u8 op_state_update
    ⨟ write_i32 object_id
    ⨟ write_i32 game_time
    ⨟ write_u8 dirty_flags
    ⨟ (if ltb 0 field_data_len then write_bytes field_data field_data_len else no_write))

pub build_score : ℕ → ℕ → ℕ → ℕ → Builder
build_score player_id kills deaths score = build (
    write_u8 msg_score ⨟ write_i32 player_id ⨟ write_i32 kills ⨟ write_i32 deaths ⨟ write_i32 score)

pub build_score_init : ℕ → ℕ → ℕ → ℕ → ℕ → Builder
build_score_init player_id kills deaths score team_id = build (
    write_u8 msg_score_init
    ⨟ write_i32 player_id
    ⨟ write_i32 kills
    ⨟ write_i32 deaths
    ⨟ write_i32 score
    ⨟ write_u8 team_id)

pub build_team_score : ℕ → ℕ → ℕ → Builder
build_team_score team_id team_kills team_score =
    build (write_u8 msg_team_score ⨟ write_u8 team_id ⨟ write_i32 team_kills ⨟ write_i32 team_score)
