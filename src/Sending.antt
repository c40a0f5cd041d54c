-- ===== src/Sending.antt =====
-- Messages to peers, src/server/server_send.c. What is handed to `bc_socket_send` is answered beside the new
-- state, oldest first; the log is left out. The clock is an argument.
pub mod Delivery
pub mod Relay
mod Tests
use open_bc.Base.{
  ℕ, suc, ◌+◌, Bool, true, false, not, ◌&&◌, Option, none, some, List, [], ◌∷◌, ◌++◌,
}
use open_bc.Base.{ltb, ◌==◌, if◌then◌else◌, u16, take, replicate}
use open_bc.Cipher.{alby_cipher_encrypt}
use open_bc.Transport.{build_unreliable}
use open_bc.Outbox.{
  Outbox, max_packet_size, pending, flush_to_buf, datagram, add_reliable, add_unreliable,
}
use open_bc.Reliable.{reliable_add}
use open_bc.Peers.{Addr, Peer, PeerMgr, PeerState, lobby, in_game}

-- What is sent, and to whom.
pub record Datagram : Type 0 where
  pub to_addr : Addr
  pub bytes : List ℕ

abbrev pub to_peer : Peer → Option (List ℕ) → List Datagram
to_peer p none = []
to_peer p (some bytes) = record { to_addr = p.addr; bytes = bytes } ∷ []

abbrev pub with_outbox : Peer → Option (List ℕ) × Outbox → Peer × List Datagram
with_outbox p (sent, o) = (record p { outbox = o }, to_peer p sent)

unfoldable pub flush_peer : Peer → Peer × List Datagram
flush_peer p =
    if not (pending p.outbox)
    then (p, [])
    else with_outbox p
        (datagram (flush_to_buf (replicate max_packet_size 0) max_packet_size p.outbox))

-- The second try: a message that is refused again is dropped.
abbrev pub added_last : (Outbox → Bool × Outbox) → Peer × List Datagram → Peer × List Datagram
added_last add (p, sent) = (record p { outbox = (add p.outbox).1 }, sent)

abbrev pub add_or_flush : (Outbox → Bool × Outbox) → Peer → Peer × List Datagram
add_or_flush add p =
    if (add p.outbox).0
    then (record p { outbox = (add p.outbox).1 }, [])
    else added_last add (flush_peer p)

-- The peer after `reliable_seq_out++` and `bc_reliable_add`.
abbrev pub tracked : List ℕ → ℕ → ℕ → Peer → Peer
tracked payload len now_ms p = record p {
  reliable_seq_out = u16 (p.reliable_seq_out + 1);
  reliable_out = (reliable_add payload len p.reliable_seq_out now_ms p.reliable_out).1;
}

unfoldable pub queue_reliable : List ℕ → ℕ → ℕ → Peer → Peer × List Datagram
queue_reliable payload len now_ms p =
    add_or_flush (add_reliable payload len p.reliable_seq_out) (tracked payload len now_ms p)

unfoldable pub queue_unreliable : List ℕ → ℕ → Peer → Peer × List Datagram
queue_unreliable payload len p = add_or_flush (add_unreliable payload len) p

abbrev pub direct : Addr → Option ℕ × List ℕ → List Datagram
direct to (none, pkt) = []
direct to (some len, pkt) =
    if ltb 0 len
    then record { to_addr = to; bytes = alby_cipher_encrypt (take len pkt) } ∷ []
    else []

unfoldable pub send_unreliable_direct : Addr → List ℕ → ℕ → List Datagram
send_unreliable_direct to payload len =
    direct to (build_unreliable (replicate max_packet_size 0) max_packet_size payload len)

-- `state >= PEER_LOBBY`
abbrev pub has_entered : PeerState → Bool
has_entered lobby = true
has_entered in_game = true
has_entered _ = false

abbrev pub queue : Bool → List ℕ → ℕ → ℕ → Peer → Peer × List Datagram
queue reliable payload len now_ms p =
    if reliable then queue_reliable payload len now_ms p else queue_unreliable payload len p

-- One round of the loops of `bc_relay_to_others` and `bc_send_to_all`, and the rounds behind it.
abbrev pub and_others : Peer × List Datagram → List Peer × List Datagram → List Peer × List Datagram
and_others (p, sent) (ps, later) = (p ∷ ps, sent ++ later)

abbrev pub queue_from :
    (ℕ → Peer → Bool) → Bool → List ℕ → ℕ → ℕ → ℕ → List Peer → List Peer × List Datagram
queue_from chosen reliable payload len now_ms i [] = ([], [])
queue_from chosen reliable payload len now_ms i (p ∷ ps) =
    and_others (if chosen i p then queue reliable payload len now_ms p else (p, []))
      (queue_from chosen reliable payload len now_ms (suc i) ps)

-- Slot 0 is the dedicated server itself.
abbrev pub is_other : ℕ → ℕ → Peer → Bool
is_other sender_slot i p = ltb 0 i && not (i == sender_slot) && has_entered p.state

abbrev pub is_player : ℕ → Peer → Bool
is_player i p = ltb 0 i && has_entered p.state

abbrev pub in_table : PeerMgr → List Peer × List Datagram → PeerMgr × List Datagram
in_table mgr (ps, sent) = (record mgr { peers = ps }, sent)

unfoldable pub relay_to_others : ℕ → List ℕ → ℕ → Bool → ℕ → PeerMgr → PeerMgr × List Datagram
relay_to_others sender_slot payload len reliable now_ms mgr =
    in_table mgr (queue_from (is_other sender_slot) reliable payload len now_ms 0 mgr.peers)

unfoldable pub send_to_all : List ℕ → ℕ → Bool → ℕ → PeerMgr → PeerMgr × List Datagram
send_to_all payload len reliable now_ms mgr =
    in_table mgr (queue_from is_player reliable payload len now_ms 0 mgr.peers)
