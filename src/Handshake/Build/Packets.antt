-- ===== src/Handshake/Build/Packets.antt =====
-- The server's handshake packets, field by field.
use open_bc.Base.{ℕ, ◌<◌, ◌^◌, ◌≡◌, ◌≢◌, ◌⊎◌, Bool, true, false, Option, List, [], ◌∷◌}
use open_bc.Base.{length, if◌then◌else◌, low}
use open_bc.Buffer.Script.{Item, byte, word, long, text, flag}
use open_bc.Handshake.Build.{
  Round, checksum_round, final_round, is_negative, build_checksum_request,
  build_checksum_request_final, build_settings, build_gameinit, build_mission_init,
  build_ui_collision, build_bootplayer, build_delete_player_ui, build_delete_player_anim,
}

-- The packets of the handshake.
pub data Packet : Type 0 where
  checksum_request : ℕ → Packet
  checksum_request_final : Packet
  settings : ℕ → Bool → Bool → ℕ → List ℕ → Packet
  gameinit : Packet
  mission_init : ℕ → ℕ → ℕ → ℕ → ℕ → Packet
  ui_collision : Bool → Packet
  bootplayer : ℕ → Packet
  delete_player_ui : ℕ → ℕ → ℕ → ℕ → Packet
  delete_player_anim : List ℕ → Packet

abbrev pub build_packet : Packet → List ℕ → ℕ → Option ℕ × List ℕ
build_packet (checksum_request round) = build_checksum_request round
build_packet checksum_request_final = build_checksum_request_final
build_packet (settings time collision friendly slot map_name) =
    build_settings time collision friendly slot map_name
build_packet gameinit = build_gameinit
build_packet (mission_init system players limit end_time frags) =
    build_mission_init system players limit end_time frags
build_packet (ui_collision on) = build_ui_collision on
build_packet (bootplayer reason) = build_bootplayer reason
build_packet (delete_player_ui event src tgt peer) = build_delete_player_ui event src tgt peer
build_packet (delete_player_anim name) = build_delete_player_anim name

-- A text behind its length.
abbrev pub with_length : List ℕ → List Item → List Item
with_length t rest = word (length t) ∷ text t ∷ rest

abbrev pub request : ℕ → Round → List Item
request index r =
    byte 0x20
    ∷ byte index
    ∷ with_length r.directory (with_length r.file_filter (flag r.recursive ∷ []))

abbrev pub time_items : ℕ → ℕ → List Item → List Item
time_items limit end_time rest =
    if is_negative limit then byte 0xff ∷ rest else byte (low 8 limit) ∷ long end_time ∷ rest

-- A packet's fields, in order.
abbrev pub items : Packet → List Item
items (checksum_request round) = request round (checksum_round round)
items checksum_request_final = request 0xff final_round
items (settings time collision friendly slot map_name) =
    byte 0x00
    ∷ long time
    ∷ flag collision
    ∷ flag friendly
    ∷ byte slot
    ∷ with_length map_name (flag false ∷ [])
items gameinit = byte 0x01 ∷ []
items (mission_init system players limit end_time frags) =
    byte 0x35
    ∷ byte (low 8 players)
    ∷ byte (low 8 system)
    ∷ time_items limit end_time (byte (if is_negative frags then 0xff else low 8 frags) ∷ [])
items (ui_collision on) = byte 0x16 ∷ flag on ∷ []
items (bootplayer reason) = byte 0x04 ∷ byte reason ∷ []
items (delete_player_ui event src tgt peer) =
    byte 0x17 ∷ long 0x866 ∷ long event ∷ long src ∷ long tgt ∷ byte peer ∷ []
items (delete_player_anim name) = byte 0x18 ∷ with_length name []

-- The arguments for which a builder makes a packet that can be read: a round that there is, texts whose length a word
-- holds, a name that is not empty; of a mission's time limit not the low byte 255, which says that there is none.
abbrev pub IsBuildable : Packet → Type 0
IsBuildable (checksum_request round) = round < 4
IsBuildable (settings time collision friendly slot map_name) = length map_name < 2 ^ 16
IsBuildable (mission_init system players limit end_time frags) =
    (is_negative limit ≡ true) ⊎ (low 8 limit ≢ 0xff)
IsBuildable (delete_player_anim name) = (0 < length name) × (length name < 2 ^ 16)
IsBuildable _ = Unit
