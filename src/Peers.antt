-- ===== src/Peers.antt =====
-- The table of peers, src/server/network/peer.c, with `bc_addr_equal` of src/server/network/net.c. Of
-- `bc_peer_t` the anti-cheat fields are left out, and of `ship` all but two identifiers: the operations here
-- only zero them.
pub mod Inv
pub mod Lookup
pub mod Timeout
pub mod Reach
mod Tests
use open_bc.Base.{
  ℕ, zero, suc, ◌+◌, ◌-◌, Bool, true, false, not, ◌&&◌, ◌||◌, Option, none, some, List, [], ◌∷◌,
}
use open_bc.Base.{ltb, leb, ◌==◌, if◌then◌else◌, sub32, replicate, get_elem?, set}
use open_bc.Base.Scan.{update_first}
use open_bc.Fragment.{Fragment, fragment_buf_size}
use open_bc.Reliable.{ReliableQueue, reliable_init}
use open_bc.Outbox.{Outbox, max_packet_size, outbox_init}

-- `bc_addr_t`
pub record Addr : Type 0 where
  pub ip : ℕ
  pub port : ℕ

unfoldable pub addr_equal : Addr → Addr → Bool
addr_equal a b = a.ip == b.ip && a.port == b.port

-- `peer_state_t`
pub data PeerState : Type 0 where
  empty : PeerState
  connecting : PeerState
  checksumming : PeerState
  checksumming_final : PeerState
  lobby : PeerState
  in_game : PeerState

abbrev pub is_empty : PeerState → Bool
is_empty empty = true
is_empty _ = false

-- `bc_peer_t`; an `i32` and an `f32` are their bit patterns.
pub record Peer : Type 0 where
  pub state : PeerState
  pub addr : Addr
  pub last_recv_time : ℕ
  pub checksum_round : ℕ
  pub reliable_seq_out : ℕ
  pub reliable_seq_in : ℕ
  pub object_id : ℕ
  pub connect_time : ℕ
  pub name : List ℕ
  pub keepalive_data : List ℕ
  pub keepalive_len : ℕ
  pub spawn_payload : List ℕ
  pub spawn_len : ℕ
  pub score : ℕ
  pub kills : ℕ
  pub deaths : ℕ
  pub fragment : Fragment
  pub reliable_out : ReliableQueue
  pub outbox : Outbox
  pub class_index : ℕ
  pub has_ship : Bool
  pub ship_object_id : ℕ
  pub ship_team_id : ℕ
  pub respawn_timer : ℕ
  pub respawn_class : ℕ

-- -1
abbrev pub minus_one : ℕ
minus_one = 0xffff_ffff

-- `memset(&peer, 0, sizeof(bc_peer_t))`
abbrev pub zero_peer : Peer
zero_peer = record {
  state = empty;
  addr = record { ip = 0; port = 0 };
  last_recv_time = 0;
  checksum_round = 0;
  reliable_seq_out = 0;
  reliable_seq_in = 0;
  object_id = 0;
  connect_time = 0;
  name = replicate 32 0;
  keepalive_data = replicate 64 0;
  keepalive_len = 0;
  spawn_payload = replicate 256 0;
  spawn_len = 0;
  score = 0;
  kills = 0;
  deaths = 0;
  fragment = record {
    buf = replicate fragment_buf_size 0;
    buf_len = 0;
    frags_expected = 0;
    frags_received = 0;
    active = false;
  };
  reliable_out = reliable_init;
  outbox = record { buf = replicate max_packet_size 0; pos = 0; msg_count = 0 };
  class_index = 0;
  has_ship = false;
  ship_object_id = 0;
  ship_team_id = 0;
  respawn_timer = 0;
  respawn_class = 0;
}

abbrev pub max_players : ℕ
max_players = 9

-- `bc_peer_mgr_t`
pub record PeerMgr : Type 0 where
  pub peers : List Peer
  pub count : ℕ

-- A slot that `bc_peers_init` or `bc_peers_remove` has cleared.
abbrev pub cleared : Peer
cleared = record zero_peer { object_id = minus_one; class_index = minus_one }

pub peers_init : PeerMgr
peers_init = record { peers = replicate max_players cleared; count = 0 }

abbrev pub has_addr : Addr → Peer → Bool
has_addr a p = not (is_empty p.state) && addr_equal p.addr a

abbrev pub index_of : Option (ℕ × List Peer) → Option ℕ
index_of none = none
index_of (some (i, ps)) = some i

-- The slot's index, or `none` for -1; the loop changes nothing.
unfoldable pub peers_find : Addr → PeerMgr → Option ℕ
peers_find a mgr = index_of (update_first (has_addr a) (λ p. p) mgr.peers)

-- The fields of a new peer over the zeroed slot.
unfoldable pub connected : Addr → Peer
connected a = record zero_peer {
  state = connecting;
  addr = a;
  object_id = minus_one;
  class_index = minus_one;
  outbox = outbox_init (zero_peer.outbox);
}

abbrev pub seated : PeerMgr → Option (ℕ × List Peer) → Option ℕ × PeerMgr
seated mgr none = (none, mgr)
seated mgr (some (i, ps)) = (some i, record { peers = ps; count = mgr.count + 1 })

unfoldable pub peers_add : Addr → PeerMgr → Option ℕ × PeerMgr
peers_add a mgr = seated mgr (update_first (λ p. is_empty p.state) (λ p. connected a) mgr.peers)

-- `bc_peers_remove` of the slot at an index, or of none out of range; `slot` is not negative.
abbrev pub remove_at : ℕ → Option Peer → PeerMgr → PeerMgr
remove_at slot none mgr = mgr
remove_at slot (some p) mgr =
    if is_empty p.state
    then mgr
    else record { peers = set mgr.peers slot cleared; count = mgr.count - 1 }

unfoldable pub peers_remove : ℕ → PeerMgr → PeerMgr
peers_remove slot mgr = remove_at slot (get_elem? mgr.peers slot) mgr

abbrev pub timed_out : ℕ → ℕ → Peer → Bool
timed_out now_ms timeout_ms p =
    not (is_empty p.state) && ltb timeout_ms (sub32 now_ms p.last_recv_time)

abbrev pub slot_timed_out : ℕ → ℕ → Option Peer → Bool
slot_timed_out now_ms timeout_ms none = false
slot_timed_out now_ms timeout_ms (some p) = timed_out now_ms timeout_ms p

-- One round of the loop of `bc_peers_timeout`: `removed` and the table after slot `i`.
pub timeout_slot : ℕ → ℕ → ℕ → ℕ × PeerMgr → ℕ × PeerMgr
timeout_slot now_ms timeout_ms i (removed, mgr) =
    if slot_timed_out now_ms timeout_ms (get_elem? mgr.peers i)
    then (removed + 1, peers_remove i mgr)
    else (removed, mgr)

-- The rounds from slot `i` on, of which `left` are to come.
pub timeout_from : ℕ → ℕ → ℕ → ℕ → ℕ × PeerMgr → ℕ × PeerMgr
timeout_from now_ms timeout_ms zero i s = s
timeout_from now_ms timeout_ms (suc left) i s =
    timeout_from now_ms timeout_ms left (i + 1) (timeout_slot now_ms timeout_ms i s)

pub peers_timeout : ℕ → ℕ → PeerMgr → ℕ × PeerMgr
peers_timeout now_ms timeout_ms mgr = timeout_from now_ms timeout_ms max_players 0 (0, mgr)
