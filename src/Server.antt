-- ===== src/Server.antt =====
-- The server's state, src/server/server_state.c and include/openbc/server_state.h, as far as the handshake and
-- the dispatch of messages use it, and the changes to it that src/server/server_handshake.c is made of. An `i32`
-- and an `f32` are their bit patterns; a name is the bytes before its NUL; the clock is an argument. What leaves
-- the server is kept in `output`, oldest first; the log is left out.
pub mod Scores
pub mod Limit
pub mod Leave
pub mod Enter
pub mod Connect
pub mod Answer
pub mod Phases
pub mod Looks
pub mod Kept
pub mod Blind
pub mod Reconnect
pub mod Refused
pub mod Moves
pub mod Rounds
pub mod Seats
pub mod Start
pub mod Run
mod Tests
use open_bc.Base.{
  ℕ, suc, ◌+◌, ◌%◌, ◌^◌, Bool, true, false, not, ◌&&◌, Option, none, some, List, [], ◌∷◌, ◌++◌,
}
use open_bc.Base.{ltb, ◌==◌, if◌then◌else◌, get_elem?, set, map}
use open_bc.Manifest.{ManifestDir}
use open_bc.Peers.{Peer, PeerMgr}
use open_bc.Sending.{Datagram, relay_to_others, send_to_all, queue_reliable, flush_peer}

-- `player_record_t`
pub record PlayerRecord : Type 0 where
  pub name : List ℕ
  pub connect_time : ℕ
  pub disconnect_time : ℕ

-- `bc_reconnect_score_t`
pub record ReconnectScore : Type 0 where
  pub valid : Bool
  pub name : List ℕ
  pub score : ℕ
  pub kills : ℕ
  pub deaths : ℕ
  pub team_id : ℕ
  pub old_slot : ℕ

-- `bc_connect_attempt_t`
pub record ConnectAttempt : Type 0 where
  pub ip : ℕ
  pub disconnect_ms : ℕ

-- `bc_damage_ledger_entry_t`: shield and hull damage
abbrev pub LedgerEntry : Type 0
LedgerEntry = ℕ × ℕ

-- A datagram, or the heartbeats of `bc_master_statechanged`
pub data Output : Type 0 where
  sent : Datagram → Output
  master_statechanged : Output

pub record Server : Type 0 where
  pub peers : PeerMgr
  pub output : List Output
  pub connect_history : List ConnectAttempt
  pub connect_history_idx : ℕ
  pub total_connections : ℕ
  pub peak_players : ℕ
  pub boots_full : ℕ
  pub boots_checksum : ℕ
  pub disconnects : ℕ
  pub timeouts : ℕ
  pub reliable_retransmits : ℕ
  pub players : List PlayerRecord
  pub player_scores : List ℕ
  pub player_kills : List ℕ
  pub player_deaths : List ℕ
  pub player_teams : List ℕ
  pub damage_ledger : List (List LedgerEntry)
  pub reconnect_scores : List ReconnectScore
  pub team_scores : List ℕ
  pub team_kills : List ℕ
  pub team_mode : Bool
  pub accept_new_players : Bool
  pub no_checksum : Bool
  pub manifest_loaded : Bool
  pub manifest_dirs : List ManifestDir
  pub game_time : ℕ
  pub collision_dmg : Bool
  pub friendly_fire : Bool
  pub map_name : List ℕ
  pub system_index : ℕ
  pub time_limit : ℕ
  pub frag_limit : ℕ
  pub round_end_time : ℕ
  pub opcodes_recv : List ℕ
  pub opcodes_rejected : List ℕ

-- `BC_TEAM_NONE`
abbrev pub team_none : ℕ
team_none = 0xff

abbrev pub put_out : List Datagram → Server → Server
put_out ds s = record s { output = s.output ++ map (λ d. sent d) ds }

abbrev pub with_peers : PeerMgr × List Datagram → Server → Server
with_peers (mgr, ds) s = put_out ds (record s { peers = mgr })

-- A change of one peer, with what it sends. There is no slot out of range in the source's calls.
abbrev pub put_peer : ℕ → Server → Option (Peer × List Datagram) → Server
put_peer slot s none = s
put_peer slot s (some (p, ds)) =
    with_peers (record s.peers { peers = set s.peers.peers slot p }, ds) s

abbrev pub changed : (Peer → Peer × List Datagram) → Option Peer → Option (Peer × List Datagram)
changed f none = none
changed f (some p) = some (f p)

unfoldable pub at_slot : ℕ → (Peer → Peer × List Datagram) → Server → Server
at_slot slot f s = put_peer slot s (changed f (get_elem? s.peers.peers slot))

abbrev pub set_peer : ℕ → (Peer → Peer) → Server → Server
set_peer slot f = at_slot slot (λ p. (f p, []))

abbrev pub queue_to : ℕ → List ℕ → ℕ → ℕ → Server → Server
queue_to slot payload len now_ms = at_slot slot (queue_reliable payload len now_ms)

abbrev pub flush_slot : ℕ → Server → Server
flush_slot slot = at_slot slot flush_peer

-- `len = build(...); if (len > 0) ...` over what the builder answers
abbrev pub if_built : Option ℕ × List ℕ → (List ℕ → ℕ → Server → Server) → Server → Server
if_built (none, buf) act s = s
if_built (some len, buf) act s = if ltb 0 len then act buf len s else s

unfoldable pub relay : ℕ → ℕ → List ℕ → ℕ → Server → Server
relay slot now_ms payload len s =
    with_peers (relay_to_others slot payload len true now_ms s.peers) s

unfoldable pub tell_all : ℕ → List ℕ → ℕ → Server → Server
tell_all now_ms payload len s = with_peers (send_to_all payload len true now_ms s.peers) s

-- An `int` counter of type `u32`
abbrev pub next32 : ℕ → ℕ
next32 n = (n + 1) % 2 ^ 32
