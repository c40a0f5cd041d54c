-- ===== src/Server/Answer.antt =====
-- `bc_handle_checksum_response` of server_handshake.c.
use open_bc.Base.{ℕ, ◌+◌, Bool, true, false, not, ◌||◌, Option, none, some, List}
use open_bc.Base.{ltb, if◌then◌else◌, get_elem?, replicate, u8}
use open_bc.Handshake.Build.{rounds, build_bootplayer, build_checksum_request_final}
use open_bc.Handshake.Response.{ChecksumResp, checksum_response_parse}
use open_bc.Handshake.Validate.{ChecksumResult, ok, checksum_response_validate}
use open_bc.Manifest.{ManifestDir}
use open_bc.Peers.{
  Peer, PeerState, empty, connecting, checksumming, checksumming_final, lobby, in_game,
}
use open_bc.Server.{Server, set_peer, queue_to, flush_slot, if_built, next32}
use open_bc.Server.Leave.{handle_peer_disconnect}
use open_bc.Server.Enter.{send_checksum_request, send_settings_and_gameinit}

-- `BC_BOOT_CHECKSUM`
abbrev pub boot_checksum : ℕ
boot_checksum = 4

-- The peer is told, counted and removed.
unfoldable pub boot_peer : ℕ → ℕ → Server → Server
boot_peer slot now_ms s = handle_peer_disconnect slot now_ms (
    if_built (build_bootplayer boot_checksum (replicate 4 0) 4)
      (λ payload len s'. queue_to slot payload len now_ms s')
      (record s { boots_checksum = next32 s.boots_checksum }))

abbrev pub is_ok : ChecksumResult → Bool
is_ok ok = true
is_ok _ = false

-- A response that was parsed, against the round's directory; the source reads no directory past the array.
abbrev pub passes : Option ChecksumResp → Option ManifestDir → Bool
passes none dir = false
passes (some resp) none = false
passes (some resp) (some dir) = is_ok (checksum_response_validate resp dir)

unfoldable pub is_accepted : Server → ℕ → List ℕ → Bool
is_accepted s round payload =
    if s.no_checksum || not s.manifest_loaded
    then true
    else passes (checksum_response_parse payload) (get_elem? s.manifest_dirs round)

unfoldable pub send_final_request : ℕ → ℕ → Server → Server
send_final_request slot now_ms s =
    if_built (build_checksum_request_final (replicate 256 0) 256)
      (λ payload len s'. flush_slot slot (queue_to slot payload len now_ms s')) s

-- After a round that was accepted: the next one, or the final one.
unfoldable pub advance_round : ℕ → ℕ → ℕ → Server → Server
advance_round slot round now_ms s =
    let s1 = set_peer slot (λ p. record p { checksum_round = round }) s in
    if ltb round rounds
    then send_checksum_request slot round now_ms s1
    else set_peer slot (λ p. record p { state = checksumming_final })
        (send_final_request slot now_ms s1)

abbrev pub is_parsed : Option ChecksumResp → Bool
is_parsed none = false
is_parsed (some resp) = true

-- By the peer's state: a response in any other state is a retransmission.
abbrev pub answer_in : PeerState → ℕ → ℕ → List ℕ → ℕ → Server → Server
answer_in checksumming_final round slot payload now_ms s =
    if is_parsed (checksum_response_parse payload)
    then send_settings_and_gameinit slot now_ms s
    else boot_peer slot now_ms s
answer_in checksumming round slot payload now_ms s =
    if is_accepted s round payload
    then advance_round slot (u8 (round + 1)) now_ms s
    else boot_peer slot now_ms s
answer_in empty round slot payload now_ms s = s
answer_in connecting round slot payload now_ms s = s
answer_in lobby round slot payload now_ms s = s
answer_in in_game round slot payload now_ms s = s

abbrev pub answer_of : ℕ → List ℕ → ℕ → Option Peer → Server → Server
answer_of slot payload now_ms none s = s
answer_of slot payload now_ms (some p) s = answer_in p.state p.checksum_round slot payload now_ms s

unfoldable pub handle_checksum_response : ℕ → List ℕ → ℕ → Server → Server
handle_checksum_response slot payload now_ms s =
    answer_of slot payload now_ms (get_elem? s.peers.peers slot) s
