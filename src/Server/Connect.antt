-- ===== src/Server/Connect.antt =====
-- `bc_handle_connect` of server_handshake.c. `i->maxplayers` only goes to the log.
use open_bc.Base.{
  ℕ, ◌+◌, ◌-◌, Bool, true, false, not, Option, none, some, List, [], ◌∷◌, ◌++◌, length,
}
use open_bc.Base.{ltb, if◌then◌else◌, replicate, take, u8, u16, low}
use open_bc.Base.Text.{codes}
use open_bc.Cipher.{alby_cipher_encrypt}
use open_bc.Handshake.Build.{build_checksum_request, build_bootplayer}
use open_bc.Peers.{Addr, Peer, PeerMgr, checksumming, peers_find, peers_add}
use open_bc.Reliable.{reliable_add}
use open_bc.Transport.{dir_server, type_reliable}
use open_bc.Sending.{Datagram, send_unreliable_direct}
use open_bc.Server.{
  Server, PlayerRecord, master_statechanged, put_out, at_slot, set_peer, if_built, next32,
}
use open_bc.Server.Scores.{clear_slot_score_state}
use open_bc.Server.Limit.{connect_rate_limited}

-- `BC_BOOT_GENERIC`, `BC_BOOT_SERVER_FULL`
abbrev pub boot_generic : ℕ
boot_generic = 0

abbrev pub boot_server_full : ℕ
boot_server_full = 2

abbrev pub boot_directly : Addr → ℕ → Server → Server
boot_directly from reason s =
    if_built (build_bootplayer reason (replicate 4 0) 4)
      (λ payload len s'. put_out (send_unreliable_direct from payload len) s') s

-- A slot's digit in the name "slot %d"
abbrev pub slot_name : ℕ → List ℕ
slot_name slot = codes "slot " ++ ((48 + slot) ∷ [])

abbrev pub new_record : ℕ → ℕ → PlayerRecord
new_record slot now_ms = record {
  name = slot_name slot;
  connect_time = now_ms;
  disconnect_time = 0;
}

abbrev pub max_records : ℕ
max_records = 32

-- The players besides the server itself
abbrev pub active_players : Server → ℕ
active_players s = if ltb 1 s.peers.count then s.peers.count - 1 else 0

abbrev pub count_connection : ℕ → ℕ → Server → Server
count_connection slot now_ms s = record s {
  total_connections = next32 s.total_connections;
  peak_players = if ltb s.peak_players (active_players s) then active_players s else s.peak_players;
  players =
      if ltb (length s.players) max_records
      then s.players ++ (new_record slot now_ms ∷ [])
      else s.players;
}

-- `BC_TRANSPORT_CONNECT`
abbrev pub type_connect : ℕ
type_connect = 0x03

-- The connect response, which gives the peer its slot
abbrev pub connect_bytes : ℕ → List ℕ
connect_bytes slot = dir_server ∷ 2 ∷ type_connect ∷ 0x06 ∷ 0xc0 ∷ 0x00 ∷ 0x00 ∷ u8 (slot + 1) ∷ []

-- The first request, wrapped as a reliable message, and its entry in the reliable queue
abbrev pub first_request : Option ℕ × List ℕ → ℕ → ℕ → Peer → Peer × List ℕ
first_request (none, payload) slot now_ms p = (p, connect_bytes slot)
first_request (some len, payload) slot now_ms p =
    if ltb 0 len
    then (
      record p {
        reliable_seq_out = u16 (p.reliable_seq_out + 1);
        reliable_out = (reliable_add payload len p.reliable_seq_out now_ms p.reliable_out).1;
      },
      connect_bytes slot
          ++ (type_reliable
              ∷ u8 (5 + len)
              ∷ 0x80
              ∷ low 8 p.reliable_seq_out
              ∷ 0
              ∷ take len payload),
    )
    else (p, connect_bytes slot)

abbrev pub enciphered : Addr → Peer × List ℕ → Peer × List Datagram
enciphered from (p, pkt) = (p, record { to_addr = from; bytes = alby_cipher_encrypt pkt } ∷ [])

-- The peer's part of the answer: it is being checked, from round 0.
abbrev pub greet : Addr → ℕ → ℕ → Peer → Peer × List Datagram
greet from slot now_ms p = enciphered from (
    first_request (build_checksum_request 0 (replicate 256 0) 256) slot now_ms
      (record p { state = checksumming; checksum_round = 0 }))

abbrev pub new_peer : Addr → ℕ → Peer → Peer
new_peer from now_ms p = record p {
  addr = from;
  last_recv_time = now_ms;
  connect_time = now_ms;
  score = 0;
  kills = 0;
  deaths = 0;
}

abbrev pub note_master : Server → Server
note_master s = record s { output = s.output ++ (master_statechanged ∷ []) }

abbrev pub seat : Addr → ℕ → Option ℕ × PeerMgr → Server → Server
seat from now_ms (none, mgr) s =
    boot_directly from boot_server_full (record s { peers = mgr; boots_full = next32 s.boots_full })
seat from now_ms (some slot, mgr) s =
    let s1 =
      set_peer slot (new_peer from now_ms)
        (clear_slot_score_state slot (record s { peers = mgr })) in
    note_master (at_slot slot (greet from slot now_ms) (count_connection slot now_ms s1))

abbrev pub is_known : Option ℕ → Bool
is_known none = false
is_known (some slot) = true

unfoldable pub handle_connect : Addr → ℕ → Server → Server
handle_connect from now_ms s =
    if is_known (peers_find from s.peers)
    then s
    else if connect_rate_limited from.ip now_ms s
    then s
    else if not s.accept_new_players
    then boot_directly from boot_generic s
    else seat from now_ms (peers_add from s.peers) s
