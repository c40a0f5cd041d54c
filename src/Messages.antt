-- ===== src/Messages.antt =====
-- The game messages of src/shared/protocol/game_builders.c and game_events.c whose fields are integers,
-- texts and plain floats. An `f32` is its bit pattern, as `bc_buf_write_f32` takes it; a C string is the
-- list of its bytes before the NUL. The messages with compressed floats are not here.
pub mod Build
pub mod Parse
pub mod Ids
mod Tests
use open_bc.Base.{ℕ}

abbrev pub op_obj_create_team : ℕ
op_obj_create_team = 0x03

abbrev pub op_python_event : ℕ
op_python_event = 0x06

abbrev pub op_set_phaser_level : ℕ
op_set_phaser_level = 0x12

abbrev pub op_host_msg : ℕ
op_host_msg = 0x13

abbrev pub op_destroy_obj : ℕ
op_destroy_obj = 0x14

abbrev pub op_delete_player_anim : ℕ
op_delete_player_anim = 0x18

abbrev pub op_state_update : ℕ
op_state_update = 0x1c

abbrev pub op_obj_not_found : ℕ
op_obj_not_found = 0x1d

abbrev pub op_request_obj : ℕ
op_request_obj = 0x1e

abbrev pub op_enter_set : ℕ
op_enter_set = 0x1f

abbrev pub msg_chat : ℕ
msg_chat = 0x2c

abbrev pub msg_team_chat : ℕ
msg_team_chat = 0x2d

abbrev pub msg_score_change : ℕ
msg_score_change = 0x36

abbrev pub msg_score : ℕ
msg_score = 0x37

abbrev pub msg_end_game : ℕ
msg_end_game = 0x38

abbrev pub msg_restart : ℕ
msg_restart = 0x39

abbrev pub msg_score_init : ℕ
msg_score_init = 0x3f

abbrev pub msg_team_score : ℕ
msg_team_score = 0x40

abbrev pub msg_team_message : ℕ
msg_team_message = 0x41
