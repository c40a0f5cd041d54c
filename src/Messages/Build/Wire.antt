-- ===== src/Messages/Build/Wire.antt =====
-- The messages that can be built, and their wire formats.
use open_bc.Base.{ℕ, Bool}
use open_bc.Base.{List, [], ◌∷◌, ◌++◌, length, ◌==◌, if◌then◌else◌, u8, u16}
use open_bc.Buffer.Writes.{le16, le32}
use open_bc.Messages.Build.{
  Builder, ScoreEntry, build_object_create_team, build_event_forward, build_destroy_obj,
  build_obj_not_found, build_enter_set, build_chat, build_score_change, build_team_message,
  build_end_game, build_restart_game, build_python_subsystem_event, build_python_obj_ptr_event,
  build_python_exploding_event, build_state_update, build_score, build_score_init, build_team_score,
}

pub data Message : Type 0 where
  object_create_team : ℕ → ℕ → List ℕ → Message
  event_forward : ℕ → List ℕ → Message
  destroy_obj : ℕ → Message
  obj_not_found : ℕ → Message
  enter_set : ℕ → List ℕ → Message
  chat : ℕ → Bool → List ℕ → Message
  score_change : ℕ → ℕ → ℕ → ℕ → ℕ → List ScoreEntry → Message
  team_message : ℕ → ℕ → Message
  end_game : ℕ → Message
  restart_game : Message
  python_subsystem_event : ℕ → ℕ → ℕ → Message
  python_obj_ptr_event : ℕ → ℕ → ℕ → ℕ → Message
  python_exploding_event : ℕ → ℕ → ℕ → ℕ → Message
  state_update : ℕ → ℕ → ℕ → List ℕ → Message
  score : ℕ → ℕ → ℕ → ℕ → Message
  score_init : ℕ → ℕ → ℕ → ℕ → ℕ → Message
  team_score : ℕ → ℕ → ℕ → Message

-- The builder that is called for a message.
abbrev pub build_message : Message → Builder
build_message (object_create_team owner team blob) =
    build_object_create_team owner team blob (length blob)
build_message (event_forward opcode bytes) = build_event_forward opcode bytes (length bytes)
build_message (destroy_obj id) = build_destroy_obj id
build_message (obj_not_found id) = build_obj_not_found id
build_message (enter_set id name) = build_enter_set id name
build_message (chat slot team text) = build_chat slot team text
build_message (score_change k kk ks v vd extra) = build_score_change k kk ks v vd extra
build_message (team_message player team) = build_team_message player team
build_message (end_game reason) = build_end_game reason
build_message restart_game = build_restart_game
build_message (python_subsystem_event kind source dest) =
    build_python_subsystem_event kind source dest
build_message (python_obj_ptr_event kind source dest obj) =
    build_python_obj_ptr_event kind source dest obj
build_message (python_exploding_event source dest firing lifetime) =
    build_python_exploding_event source dest firing lifetime
build_message (state_update id time dirty fields) =
    build_state_update id time dirty fields (length fields)
build_message (score player kills deaths points) = build_score player kills deaths points
build_message (score_init player kills deaths points team) =
    build_score_init player kills deaths points team
build_message (team_score team kills points) = build_team_score team kills points

abbrev pub score_bytes : List ScoreEntry → List ℕ
score_bytes [] = []
score_bytes (e ∷ es) = le32 e.player_id ++ (le32 e.score ++ score_bytes es)

abbrev pub killer_bytes : ℕ → ℕ → ℕ → List ℕ
killer_bytes killer kills points = if killer == 0 then [] else le32 kills ++ le32 points

-- The wire format.
abbrev pub wire : Message → List ℕ
wire (object_create_team owner team blob) = 0x03 ∷ owner ∷ team ∷ blob
wire (event_forward opcode bytes) = opcode ∷ bytes
wire (destroy_obj id) = 0x14 ∷ le32 id
wire (obj_not_found id) = 0x1d ∷ le32 id
wire (enter_set id name) = 0x1f ∷ (le32 id ++ (le32 (length name) ++ (name ++ (0x00 ∷ []))))
wire (chat slot team text) =
    (if team then 0x2d else 0x2c) ∷ slot ∷ 0x00 ∷ 0x00 ∷ 0x00 ∷ (le16 (u16 (length text)) ++ text)
wire (score_change killer kills points victim deaths extra) =
    0x36
    ∷ (le32 killer
        ++ (killer_bytes killer kills points
            ++ (le32 victim ++ (le32 deaths ++ (u8 (length extra) ∷ score_bytes extra)))))
wire (team_message player team) = 0x41 ∷ (le32 player ++ (team ∷ []))
wire (end_game reason) = 0x38 ∷ le32 reason
wire restart_game = 0x39 ∷ []
wire (python_subsystem_event kind source dest) =
    0x06 ∷ (le32 0x101 ++ (le32 kind ++ (le32 source ++ le32 dest)))
wire (python_obj_ptr_event kind source dest obj) =
    0x06 ∷ (le32 0x10c ++ (le32 kind ++ (le32 source ++ (le32 dest ++ le32 obj))))
wire (python_exploding_event source dest firing lifetime) =
    0x06
    ∷ (le32 0x8129
        ++ (le32 0x80_004e ++ (le32 source ++ (le32 dest ++ (le32 firing ++ le32 lifetime)))))
wire (state_update id time dirty fields) = 0x1c ∷ (le32 id ++ (le32 time ++ (dirty ∷ fields)))
wire (score player kills deaths points) =
    0x37 ∷ (le32 player ++ (le32 kills ++ (le32 deaths ++ le32 points)))
wire (score_init player kills deaths points team) =
    0x3f ∷ (le32 player ++ (le32 kills ++ (le32 deaths ++ (le32 points ++ (team ∷ [])))))
wire (team_score team kills points) = 0x40 ∷ team ∷ (le32 kills ++ le32 points)
