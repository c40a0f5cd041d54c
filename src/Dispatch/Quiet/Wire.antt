-- ===== src/Dispatch/Quiet/Wire.antt =====
-- What src/server/server_dispatch.c does about ACKs, keepalives and requests to connect that come again moves no
-- peer.
use open_bc.Base.{ℕ, ◌≡◌, refl, ◌∙◌, ◌&&◌, Option, none, some, List, [], ◌∷◌}
use open_bc.Base.{
  u16, low, ◌<<<◌, ◌>>>◌, ◌++◌, copy_at, drop, if◌then◌else◌, length, get_elem?, get_or, ltb, leb,
  ◌==◌, by_branch,
}
use open_bc.Outbox.{add_ack, add_fragment_ack}
use open_bc.Reliable.{reliable_ack}
use open_bc.Peers.{Addr, Peer}
use open_bc.Transport.{TransportMsg, type_reliable}
use open_bc.Server.{Server}
use open_bc.Server.Scores.{}
use open_bc.Server.Connect.{type_connect}
use open_bc.Server.Phases.{view, Stays, flush_slot-Stays}
use open_bc.Dispatch.Game.{}
use open_bc.Dispatch.Packet.{
  payload_of, has_reliable_bit, queue_ack, queue_fragment_ack, take_ack, ack_below_32, ack_game,
  take_name, name_from, store_name, decoded_name, cache_keepalive, keepalive, keepalive_size,
  ack_connects, duplicate_connect, heard,
}
use open_bc.Dispatch.Quiet.Restore.{set_peer-Stays, try_restore-Stays}

pub take_ack-Stays : (slot seq : ℕ) → Stays (take_ack slot seq)
take_ack-Stays slot seq =
    set_peer-Stays slot (λ p. record p { reliable_out = (reliable_ack seq p.reliable_out).1 })
      (λ p. refl)

queue_ack-Stays : (slot seq flags : ℕ) → Stays (queue_ack slot seq flags)
queue_ack-Stays slot seq flags =
    set_peer-Stays slot (λ p. record p { outbox = (add_ack seq flags p.outbox).1 }) (λ p. refl)

queue_fragment_ack-Stays : (slot seq frag_idx : ℕ) → Stays (queue_fragment_ack slot seq frag_idx)
queue_fragment_ack-Stays slot seq frag_idx =
    set_peer-Stays slot (λ p. record p { outbox = (add_fragment_ack seq frag_idx p.outbox).1 })
      (λ p. refl)

pub ack_below_32-Stays : (slot kind : ℕ) (payload : List ℕ) → Stays (ack_below_32 slot kind payload)
ack_below_32-Stays slot kind payload s =
    by_branch (λ (s' : Server). view s' ≡ view s)
      (ltb kind 0x32 && leb 2 (length payload) && has_reliable_bit (get_or payload 0 0))
      (λ _. queue_ack-Stays slot (u16 (get_or payload 1 0 <<< 8)) 0x02 s) (λ _. refl)

pub ack_game-Stays :
    (slot : ℕ) (msg : TransportMsg) (payload : List ℕ) → Stays (ack_game slot msg payload)
ack_game-Stays slot msg payload s =
    by_branch (λ (s' : Server). view s' ≡ view s)
      (msg.kind == type_reliable && has_reliable_bit msg.flags)
      (λ _.
        by_branch (λ (s' : Server). view s' ≡ view s)
          (low 1 (msg.flags >>> 5) == 1 && leb 1 (length payload))
          (λ _. queue_fragment_ack-Stays slot msg.seq (get_or payload 0 0) s)
          (λ _. queue_ack-Stays slot msg.seq 0x00 s))
      (λ _. refl)

ack_connects-Stays :
    (slot : ℕ) (bytes : List ℕ) (msgs : List TransportMsg) → Stays (ack_connects slot bytes msgs)
ack_connects-Stays slot bytes [] s = refl
ack_connects-Stays slot bytes (msg ∷ msgs) s =
    ack_connects-Stays slot bytes msgs
      (if msg.kind == type_connect then ack_below_32 slot msg.kind (payload_of msg bytes) s else s)
    ∙ by_branch (λ (s' : Server). view s' ≡ view s) (msg.kind == type_connect)
        (λ _. ack_below_32-Stays slot msg.kind (payload_of msg bytes) s) (λ _. refl)

pub duplicate_connect-Stays :
    (a : Addr) (slot : ℕ) (bytes : List ℕ) (msgs : List TransportMsg)
    → Stays (duplicate_connect a slot bytes msgs)
duplicate_connect-Stays a slot bytes msgs s =
    flush_slot-Stays slot (ack_connects slot bytes msgs s) ∙ ack_connects-Stays slot bytes msgs s

pub heard-Stays : (found : Option ℕ) (now_ms : ℕ) → Stays (heard found now_ms)
heard-Stays none now_ms s = refl
heard-Stays (some slot) now_ms s =
    set_peer-Stays slot (λ p. record p { last_recv_time = now_ms }) (λ p. refl) s

-- Keepalives.
store_name-Stays : (slot : ℕ) (name : List ℕ) → Stays (store_name slot name)
store_name-Stays slot name =
    set_peer-Stays slot (λ p. record p { name = copy_at p.name 0 (name ++ (0 ∷ [])) }) (λ p. refl)

take_name-Stays :
    (slot connect_time : ℕ) (name : List ℕ) (now_ms : ℕ)
    → Stays (take_name slot connect_time name now_ms)
take_name-Stays slot connect_time name now_ms s =
    by_branch (λ (s' : Server). view s' ≡ view s) (ltb 0 (length name))
      (λ _.
        try_restore-Stays slot name now_ms (store_name slot name s) ∙ store_name-Stays slot name s)
      (λ _. store_name-Stays slot name s)

name_from-Stays :
    (slot : ℕ) (payload : List ℕ) (now_ms : ℕ) (o : Option Peer)
    → Stays (name_from slot payload now_ms o)
name_from-Stays slot payload now_ms none s = refl
name_from-Stays slot payload now_ms (some p) s =
    by_branch (λ (s' : Server). view s' ≡ view s) (get_or p.name 0 0 == 0)
      (λ _. take_name-Stays slot p.connect_time (decoded_name 30 (drop 8 payload)) now_ms s)
      (λ _. refl)

cache_keepalive-Stays : (slot : ℕ) (payload : List ℕ) → Stays (cache_keepalive slot payload)
cache_keepalive-Stays slot payload s =
    by_branch (λ (s' : Server). view s' ≡ view s) (leb (length payload) keepalive_size)
      (λ _.
        set_peer-Stays slot
          (λ p. record p {
            keepalive_data = copy_at p.keepalive_data 0 payload;
            keepalive_len = length payload;
          })
          (λ p. refl) s)
      (λ _. refl)

pub keepalive-Stays :
    (slot : ℕ) (payload : List ℕ) (now_ms : ℕ) → Stays (keepalive slot payload now_ms)
keepalive-Stays slot payload now_ms s =
    by_branch (λ (s' : Server). view s' ≡ view s) (leb 8 (length payload))
      (λ _.
        cache_keepalive-Stays slot payload
          (name_from slot payload now_ms (get_elem? s.peers.peers slot) s)
        ∙ name_from-Stays slot payload now_ms (get_elem? s.peers.peers slot) s)
      (λ _. refl)
