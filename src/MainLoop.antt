-- ===== src/MainLoop.antt =====
-- The main loop of src/server/main.c: what arrives is dispatched, and every 33 ms a tick resends, drops and
-- flushes. A turn of the loop is a function of what arrived, each datagram with the time at which it is taken,
-- and of the clock at the tick. The parts that the loop only calls, and its simulation of ships, are a `Rest`.
pub mod Overdue
pub mod Resend
pub mod Rounds
pub mod Standing
pub mod Drops
pub mod Silence
pub mod Unsent
pub mod Earned
mod Tests
use open_bc.Base.{
  ℕ, zero, suc, ◌+◌, ◌%◌, Bool, true, false, not, ◌&&◌, Option, none, some, List, [], ◌∷◌, ◌++◌,
}
use open_bc.Base.{ltb, leb, ◌==◌, if◌then◌else◌, get_elem?, get_or, length, sub32, replicate}
use open_bc.Outbox.{Outbox, max_packet_size, add_keepalive, add_keepalive_data}
use open_bc.Reliable.{Entry, ReliableQueue, check_retransmit, check_timeout}
use open_bc.Peers.{Addr, Peer, is_empty, slot_timed_out}
use open_bc.Transport.{build_reliable}
use open_bc.Sending.{Datagram, direct, has_entered}
use open_bc.Server.{Server, put_peer, at_slot, flush_slot, next32}
use open_bc.Server.Leave.{handle_peer_disconnect}
use open_bc.Dispatch.Game.{Combat}
use open_bc.Dispatch.Packet.{handle_packet}

-- The datagram of an entry that is sent again
abbrev pub resend_entry : Addr → Option Entry → List Datagram
resend_entry a none = []
resend_entry a (some e) =
    direct a
      (build_reliable (replicate max_packet_size 0) max_packet_size e.payload e.payload_len e.seq)

-- The queue, what was sent, and `g_stats.reliable_retransmits`.
pub record Resending : Type 0 where
  pub queue : ReliableQueue
  pub datagrams : List Datagram
  pub retransmits : ℕ

abbrev pub sent_again : Addr → Resending → ℕ → ReliableQueue → Resending
sent_again a r i q = record {
  queue = q;
  datagrams = r.datagrams ++ resend_entry a (get_elem? q.entries i);
  retransmits = next32 r.retransmits;
}

-- One check of the loop, and the loop behind it.
abbrev pub resend_on :
    (Resending → Resending) → Addr → Resending → Option ℕ × ReliableQueue → Resending
resend_on loop a r (none, q) = record r { queue = q }
resend_on loop a r (some i, q) = loop (sent_again a r i q)

-- The `while` loop over `bc_reliable_check_retransmit`, on fuel
pub resend : ℕ → ℕ → Addr → Resending → Resending
resend zero now_ms a r = r
resend (suc fuel) now_ms a r =
    resend_on (resend fuel now_ms a) a r (check_retransmit now_ms r.queue)

abbrev pub put_resent : ℕ → Peer → Resending → Server → Server
put_resent slot p r s =
    put_peer slot (record s { reliable_retransmits = r.retransmits })
      (some (record p { reliable_out = r.queue }, r.datagrams))

-- The loop comes to its end with one round more than there are entries.
abbrev pub resend_to : ℕ → Peer → Server → Resending
resend_to now_ms p s =
    resend (suc (length p.reliable_out.entries)) now_ms p.addr
      (record { queue = p.reliable_out; datagrams = []; retransmits = s.reliable_retransmits })

abbrev pub resend_due : ℕ → ℕ → Peer → Server → Server
resend_due now_ms slot p s = put_resent slot p (resend_to now_ms p s) s

abbrev pub retransmit_at : ℕ → ℕ → Option Peer → Server → Server
retransmit_at now_ms slot none s = s
retransmit_at now_ms slot (some p) s =
    if is_empty p.state
    then s
    else if check_timeout p.reliable_out
    then handle_peer_disconnect slot now_ms s
    else resend_due now_ms slot p s

pub retransmit_slot : ℕ → ℕ → Server → Server
retransmit_slot now_ms slot s = retransmit_at now_ms slot (get_elem? s.peers.peers slot) s

abbrev pub silence_ms : ℕ
silence_ms = 30_000

pub drop_silent : ℕ → ℕ → Server → Server
drop_silent now_ms slot s =
    if slot_timed_out now_ms silence_ms (get_elem? s.peers.peers slot)
    then handle_peer_disconnect slot now_ms (record s { timeouts = next32 s.timeouts })
    else s

abbrev pub kept_alive : Peer → Outbox
kept_alive p =
    if ltb 0 p.keepalive_len
    then (add_keepalive_data p.keepalive_data p.keepalive_len p.outbox).1
    else (add_keepalive p.outbox).1

abbrev pub keep_alive : ℕ → Server → Server
keep_alive slot =
    at_slot slot (λ p. (if has_entered p.state then record p { outbox = kept_alive p } else p, []))

abbrev pub flush_at : ℕ → Option Peer → Server → Server
flush_at slot none s = s
flush_at slot (some p) s = if is_empty p.state then s else flush_slot slot s

abbrev pub flush_active : ℕ → Server → Server
flush_active slot s = flush_at slot (get_elem? s.peers.peers slot) s

-- The rounds of a loop over the slots from `i` on, of which `left` are to come.
pub slots_from : (ℕ → Server → Server) → ℕ → ℕ → Server → Server
slots_from body zero i s = s
slots_from body (suc left) i s = slots_from body left (suc i) (body i s)

-- `for (int i = 1; i < BC_MAX_PLAYERS; i++)`
abbrev pub players : (ℕ → Server → Server) → Server → Server
players body = slots_from body 8 1

-- Every second: resend or give up, then drop who is silent.
abbrev pub check_peers : ℕ → Server → Server
check_peers now_ms s = players (drop_silent now_ms) (players (retransmit_slot now_ms) s)

-- What the loop calls or does beside: the game clock, an `f32`, by the milliseconds passed; `bc_master_tick`; the
-- simulation of ships, the time limit and the respawns, by the milliseconds passed and the tick;
-- `bc_handle_gamespy`; and the handlers of ships and torpedoes.
pub record Rest : Type 0 where
  pub advance_clock : ℕ → Server → Server
  pub master_tick : ℕ → Server → Server
  pub simulate : ℕ → ℕ → Server → Server
  pub answer_query : Addr → List ℕ → Server → Server
  pub combat : Combat

-- `bc_gamespy_is_query`
abbrev pub is_query : List ℕ → Bool
is_query bytes = ltb 0 (length bytes) && get_or bytes 0 0 == b'\\'

-- A datagram as a socket gives it, with the clock when it is dispatched.
pub record Arrival : Type 0 where
  pub sender : Addr
  pub bytes : List ℕ
  pub time : ℕ

-- `last_tick` and `tick_counter` beside the server.
pub record Loop : Type 0 where
  pub server : Server
  pub last_tick : ℕ
  pub tick_counter : ℕ

module _ (rest : Rest) where
  abbrev pub arrive : Arrival → Server → Server
  arrive a s =
      if is_query a.bytes
      then rest.answer_query a.sender a.bytes s
      else handle_packet rest.combat a.sender a.bytes a.time s

  abbrev pub receive : List Arrival → Server → Server
  receive [] s = s
  receive (a ∷ as') s = receive as' (arrive a s)

  -- The query port answers queries only.
  abbrev pub receive_queries : List Arrival → Server → Server
  receive_queries [] s = s
  receive_queries (a ∷ as') s =
      receive_queries as' (if is_query a.bytes then rest.answer_query a.sender a.bytes s else s)

  abbrev pub second : ℕ → Server → Server
  second now_ms s = rest.master_tick now_ms (check_peers now_ms s)

  -- A tick at `counter`, after `elapsed` milliseconds
  abbrev pub tick : ℕ → ℕ → ℕ → Server → Server
  tick counter elapsed now_ms s =
      let s1 = rest.advance_clock elapsed s in
      let s2 = if counter % 30 == 0 then second now_ms s1 else s1 in
      let s3 = rest.simulate elapsed counter s2 in
      let s4 = if counter % 30 == 0 then players keep_alive s3 else s3 in players flush_active s4

  abbrev pub tick_if_due : ℕ → Loop → Loop
  tick_if_due now_ms l =
      let elapsed = sub32 now_ms l.last_tick in
      if ltb elapsed 33 then l else record {
        server = tick (next32 l.tick_counter) elapsed now_ms l.server;
        last_tick = now_ms;
        tick_counter = next32 l.tick_counter;
      }

  -- A turn of the loop
  unfoldable pub turn : List Arrival → List Arrival → ℕ → Loop → Loop
  turn game queries now_ms l =
      tick_if_due now_ms (record l { server = receive_queries queries (receive game l.server) })
