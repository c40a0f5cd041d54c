-- ===== src/Messages/Parse.antt =====
-- The parsers of game_events.c. `none` stands for `false`; the events' fields are those that the parser
-- fills in.
pub mod RoundTrip
use open_bc.Base.{
  ℕ, zero, suc, ◌*◌, ◌+◌, ◌-◌, Bool, true, false, not, ◌||◌, ◌&&◌, Option, none, some, List, [],
  ◌∷◌, length, ltb, leb, ◌==◌, if◌then◌else◌, low, ◌>>>◌, get_or, min,
}
use open_bc.Buffer.{Buffer, remaining, read_u8, read_u16, read_i32, read_bytes, bit_at}
use open_bc.Buffer.Seq.{Read, ◌>>=◌, ◌>>◌, pure, guard, fail, parse}
use open_bc.Messages.{
  op_destroy_obj, op_request_obj, op_set_phaser_level, op_host_msg, op_delete_player_anim, msg_chat,
  msg_team_chat,
}

-- `if (!bc_buf_read_u8(&buf, &opcode)) return false; if (opcode != ...) return false;`
abbrev pub opcode : ℕ → Read (Unit {0})
opcode op = read_u8 >>= λ x. guard (x == op)

pub parse_destroy_obj : List ℕ → Option ℕ
parse_destroy_obj payload = parse (opcode op_destroy_obj >> read_i32) payload

pub parse_request_obj : List ℕ → Option ℕ
parse_request_obj payload = parse (opcode op_request_obj >> read_i32) payload

-- `bc_object_create_header_t`; `team_id` is `none` where `has_team` is false.
pub record CreateHeader : Type 0 where
  pub type_tag : ℕ
  pub owner_slot : ℕ
  pub team_id : Option ℕ

abbrev pub read_team : ℕ → Read (Option ℕ)
read_team type_tag = if type_tag == 3 then (read_u8 >>= λ team. pure (some team)) else pure none

abbrev pub read_create_header : Read CreateHeader
read_create_header = read_u8 >>= λ tag.
    guard (tag == 2 || tag == 3)
    >> (read_u8 >>= λ owner. read_team tag >>= λ team.
        pure (record { type_tag = tag; owner_slot = owner; team_id = team }))

pub parse_object_create_header : List ℕ → Option CreateHeader
parse_object_create_header payload = parse read_create_header payload

-- `bc_chat_event_t`; `message` has `message_len` bytes.
pub record ChatEvent : Type 0 where
  pub sender_slot : ℕ
  pub message : List ℕ

-- `if (copy_len > 0) bc_buf_read_bytes(..., copy_len)`
abbrev pub read_some : ℕ → Read (List ℕ)
read_some copy_len = if ltb 0 copy_len then read_bytes copy_len else pure []

-- A length clamped to the array of the message and to what is left.
abbrev pub clamp : ℕ → ℕ → ℕ
clamp left str_len =
    let copy_len = if ltb 255 str_len then 255 else str_len in
    if ltb left copy_len then left else copy_len

abbrev pub read_clamped : ℕ → Read (List ℕ)
read_clamped str_len b = read_some (clamp (remaining b) str_len) b

abbrev pub read_chat : Read ChatEvent
read_chat = read_u8 >>= λ op.
    guard (op == msg_chat || op == msg_team_chat)
    >> (read_u8 >>= λ slot. read_bytes 3 >>= λ pad. read_u16 >>= λ str_len.
        read_clamped str_len >>= λ text. pure (record { sender_slot = slot; message = text }))

pub parse_chat_message : List ℕ → Option ChatEvent
parse_chat_message payload = parse read_chat payload

-- `bc_phaser_level_event_t`
pub record PhaserLevel : Type 0 where
  pub source_object_id : ℕ
  pub phaser_level : ℕ

pub parse_set_phaser_level : List ℕ → Option PhaserLevel
parse_set_phaser_level payload =
    if ltb (length payload) 18
    then none
    else parse
        (opcode op_set_phaser_level
          >> (read_i32 >>= λ class_id. read_i32 >>= λ code. read_i32 >>= λ source.
              read_i32 >>= λ related. read_u8 >>= λ level.
              pure (record { source_object_id = source; phaser_level = level })))
        payload

pub parse_host_msg : List ℕ → Bool
parse_host_msg payload = if ltb (length payload) 1 then false else get_or payload 0 0 == op_host_msg

-- The name of `bc_delete_player_anim_event_t`, whose array has `size` bytes.
abbrev pub read_name : ℕ → ℕ → Read (List ℕ)
read_name size name_len b =
    let copy_len = if ltb (size - 1) name_len then size - 1 else name_len in
    if ltb (remaining b) copy_len then (none, b) else read_some copy_len b

pub parse_delete_player_anim : List ℕ → Option (List ℕ)
parse_delete_player_anim payload =
    parse (opcode op_delete_player_anim >> (read_u16 >>= λ name_len. read_name 64 name_len)) payload
