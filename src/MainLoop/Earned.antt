-- ===== src/MainLoop/Earned.antt =====
-- What every run of the main loop of src/server/main.c keeps: a place in the game is earned.
use open_bc.Base.{ℕ, zero, suc, ◌%◌, ◌≡◌, refl, ap, ◌∙◌, Option, none, some, List, [], ◌∷◌}
use open_bc.Base.{get_elem?, ltb, ◌==◌, sub32, if◌then◌else◌, by_branch}
use open_bc.Peers.{Addr, Peer, is_empty, slot_timed_out}
use open_bc.Reliable.{check_timeout}
use open_bc.Sending.{has_entered}
use open_bc.Sending.Relay.{Phase, phase}
use open_bc.Server.{Server, flush_slot, next32}
use open_bc.Server.Phases.{
  Policy, view, Stays, map-set, set-map_same, at_slot-Stays, flush_slot-Stays,
}
use open_bc.Server.Run.{Log, IsStart, IsEarned}
use open_bc.Server.Run.Earned.{start-IsEarned, leave-IsEarned}
use open_bc.Dispatch.Session.{log_datagram}
use open_bc.Dispatch.Session.Message.{by_branches, quiet}
use open_bc.Dispatch.Session.Safe.{handle_packet-IsEarned}
use open_bc.MainLoop.{
  is_query, Rest, Arrival, Loop, Resending, put_resent, resend_to, retransmit_at, retransmit_slot,
  silence_ms, drop_silent, kept_alive, keep_alive, flush_at, flush_active, slots_from, players,
  check_peers, arrive, receive, receive_queries, second, tick, tick_if_due, turn,
}

-- The other parts of the loop leave the peers' states and the settings of the checks alone.
pub record IsQuiet (rest : Rest) : Type 0 where
  pub advance_clock-Stays : (elapsed : ℕ) → Stays (rest.advance_clock elapsed)
  pub master_tick-Stays : (now_ms : ℕ) → Stays (rest.master_tick now_ms)
  pub simulate-Stays : (elapsed counter : ℕ) → Stays (rest.simulate elapsed counter)
  pub answer_query-Stays : (a : Addr) (bytes : List ℕ) → Stays (rest.answer_query a bytes)
  pub combat-Stays :
      (opcode slot : ℕ) (payload : List ℕ) (now_ms : ℕ)
      → Stays (rest.combat opcode slot payload now_ms)

module _ (rest : Rest) where
  abbrev pub log_arrive : Arrival → Server → Log → Log
  log_arrive a s log =
      if is_query a.bytes then log else log_datagram rest.combat a.sender a.bytes a.time s log

  abbrev pub log_arrivals : List Arrival → Server → Log → Log
  log_arrivals [] s log = log
  log_arrivals (a ∷ as') s log = log_arrivals as' (arrive rest a s) (log_arrive a s log)

  -- Turns of the loop from the server's start on, with the responses handed to the checksum handler
  pub data Serving (c : Policy) : Loop → Log → Type 0 where
    start : (l : Loop) → IsStart c l.server → Serving c l (λ _. [])
    next :
        {l : Loop} {log : Log}
        → Serving c l log
        → (game queries : List Arrival) (now_ms : ℕ)
        → Serving c (turn rest game queries now_ms l) (log_arrivals game l.server log)

module _ (c : Policy) (log : Log) where
  slots_from-IsEarned :
      (body : ℕ → Server → Server)
      → ((i : ℕ) (s : Server) → IsEarned c s log → IsEarned c (body i s) log)
      → (left i : ℕ) (s : Server) → IsEarned c s log
      → IsEarned c (slots_from body left i s) log
  unfolding slots_from
  slots_from-IsEarned body keeps zero i s h = h
  slots_from-IsEarned body keeps (suc left) i s h =
      slots_from-IsEarned body keeps left (suc i) (body i s) (keeps i s h)

  put_resent-IsEarned :
      (slot : ℕ) (s : Server) (p : Peer) (r : Resending)
      → get_elem? s.peers.peers slot ≡ some p
      → IsEarned c s log
      → IsEarned c (put_resent slot p r s) log
  put_resent-IsEarned slot s p r at_p = quiet c s (put_resent slot p r s) log (
      ap (λ (l : List Phase). (l, (view s).1))
        (map-set phase s.peers.peers slot (record p { reliable_out = r.queue })
          ∙ set-map_same phase s.peers.peers slot p (phase p) at_p refl))

  retransmit-IsEarned :
      (now_ms slot : ℕ) (s : Server)
      → IsEarned c s log
      → IsEarned c (retransmit_slot now_ms slot s) log
  unfolding retransmit_slot
  retransmit-IsEarned now_ms slot s h = found (get_elem? s.peers.peers slot) refl
    where
      found :
          (o : Option Peer)
          → get_elem? s.peers.peers slot ≡ o
          → IsEarned c (retransmit_at now_ms slot o s) log
      found none e = h
      found (some p) e =
          by_branch (λ (s' : Server). IsEarned c s' log) (is_empty p.state) (λ _. h)
            (λ _.
              by_branch (λ (s' : Server). IsEarned c s' log) (check_timeout p.reliable_out)
                (λ _. leave-IsEarned c s log slot now_ms h)
                (λ _. put_resent-IsEarned slot s p (resend_to now_ms p s) e h))

  drop_silent-IsEarned :
      (now_ms slot : ℕ) (s : Server) → IsEarned c s log → IsEarned c (drop_silent now_ms slot s) log
  unfolding drop_silent
  drop_silent-IsEarned now_ms slot s h =
      by_branch (λ (s' : Server). IsEarned c s' log)
        (slot_timed_out now_ms silence_ms (get_elem? s.peers.peers slot))
        (λ _. leave-IsEarned c (record s { timeouts = next32 s.timeouts }) log slot now_ms h)
        (λ _. h)

  flush_active-IsEarned :
      (slot : ℕ) (s : Server) → IsEarned c s log → IsEarned c (flush_active slot s) log
  flush_active-IsEarned slot s h = found (get_elem? s.peers.peers slot)
    where
      found : (o : Option Peer) → IsEarned c (flush_at slot o s) log
      found none = h
      found (some p) =
          by_branch (λ (s' : Server). IsEarned c s' log) (is_empty p.state) (λ _. h)
            (λ _. quiet c s (flush_slot slot s) log (flush_slot-Stays slot s) h)

  keep_alive-IsEarned :
      (slot : ℕ) (s : Server) → IsEarned c s log → IsEarned c (keep_alive slot s) log
  keep_alive-IsEarned slot s = quiet c s (keep_alive slot s) log (
      at_slot-Stays slot
        (λ p. (if has_entered p.state then record p { outbox = kept_alive p } else p, []))
        (λ p.
          by_branch (λ (q : Peer). phase q ≡ phase p) (has_entered p.state) (λ _. refl) (λ _. refl))
        s)

module _ (c : Policy) (rest : Rest) (q : IsQuiet rest) where
  receive-IsEarned :
      (arrivals : List Arrival) (s : Server) (log : Log)
      → IsEarned c s log
      → IsEarned c (receive rest arrivals s) (log_arrivals rest arrivals s log)
  receive-IsEarned [] s log h = h
  receive-IsEarned (a ∷ as') s log h =
      receive-IsEarned as' (arrive rest a s) (log_arrive rest a s log) (
        by_branches (IsEarned c) (is_query a.bytes)
          (λ _.
            quiet c s (rest.answer_query a.sender a.bytes s) log
              (q.answer_query-Stays a.sender a.bytes s) h)
          (λ _.
            handle_packet-IsEarned c rest.combat q.combat-Stays a.sender a.bytes a.time s log h))

  queries-IsEarned :
      (arrivals : List Arrival) (s : Server) (log : Log)
      → IsEarned c s log
      → IsEarned c (receive_queries rest arrivals s) log
  queries-IsEarned [] s log h = h
  queries-IsEarned (a ∷ as') s log h = queries-IsEarned as' _ log (
      by_branch (λ (s' : Server). IsEarned c s' log) (is_query a.bytes)
        (λ _.
          quiet c s (rest.answer_query a.sender a.bytes s) log
            (q.answer_query-Stays a.sender a.bytes s) h)
        (λ _. h))

  second-IsEarned :
      (now_ms : ℕ) (s : Server) (log : Log)
      → IsEarned c s log
      → IsEarned c (second rest now_ms s) log
  second-IsEarned now_ms s log h =
      quiet c (check_peers now_ms s) (rest.master_tick now_ms (check_peers now_ms s)) log
        (q.master_tick-Stays now_ms (check_peers now_ms s))
        (slots_from-IsEarned c log (drop_silent now_ms) (drop_silent-IsEarned c log now_ms) 8 1
          (players (retransmit_slot now_ms) s)
          (slots_from-IsEarned c log (retransmit_slot now_ms) (retransmit-IsEarned c log now_ms) 8 1
            s h))

  tick-IsEarned :
      (counter elapsed now_ms : ℕ) (s : Server) (log : Log)
      → IsEarned c s log
      → IsEarned c (tick rest counter elapsed now_ms s) log
  tick-IsEarned counter elapsed now_ms s log h =
      slots_from-IsEarned c log flush_active (flush_active-IsEarned c log) 8 1
        (if counter % 30 == 0 then players keep_alive moved else moved)
        (by_branch (λ (s' : Server). IsEarned c s' log) (counter % 30 == 0)
          (λ _.
            slots_from-IsEarned c log keep_alive (keep_alive-IsEarned c log) 8 1 moved simulated)
          (λ _. simulated))
    where
      clocked : Server
      clocked = rest.advance_clock elapsed s

      advanced : IsEarned c clocked log
      advanced = quiet c s clocked log (q.advance_clock-Stays elapsed s) h

      checked : Server
      checked = if counter % 30 == 0 then second rest now_ms clocked else clocked

      moved : Server
      moved = rest.simulate elapsed counter checked

      simulated : IsEarned c moved log
      simulated =
          quiet c checked (rest.simulate elapsed counter checked) log
            (q.simulate-Stays elapsed counter checked)
            (by_branch (λ (s' : Server). IsEarned c s' log) (counter % 30 == 0)
              (λ _. second-IsEarned now_ms clocked log advanced) (λ _. advanced))

  tick_if_due-IsEarned :
      (now_ms : ℕ) (l : Loop) (log : Log)
      → IsEarned c l.server log
      → IsEarned c (tick_if_due rest now_ms l).server log
  tick_if_due-IsEarned now_ms l log h =
      by_branch (λ (l' : Loop). IsEarned c l'.server log) (ltb (sub32 now_ms l.last_tick) 33)
        (λ _. h)
        (λ _.
          tick-IsEarned (next32 l.tick_counter) (sub32 now_ms l.last_tick) now_ms l.server log h)

  -- However long the loop runs, and whatever arrives in its turns and whenever: a peer in the lobby or the game has,
  -- since its slot was last free, had its responses to all four rounds accepted and then given a well-formed final
  -- one, and a peer in round `n` exactly those to the rounds below; ticks that resend, drop peers and flush change
  -- nothing of this. It is assumed that the parts of the loop outside the model, ships, queries and the master servers,
  -- leave the peers' states and the settings of the checks alone.
  pub Serving-IsEarned : {l : Loop} {log : Log} → Serving rest c l log → IsEarned c l.server log
  unfolding turn
  Serving-IsEarned (start l h) = start-IsEarned c l.server h
  Serving-IsEarned (next {l} {log} before game queries now_ms) =
      tick_if_due-IsEarned now_ms
        (record l { server = receive_queries rest queries (receive rest game l.server) })
        (log_arrivals rest game l.server log)
        (queries-IsEarned queries (receive rest game l.server) _
          (receive-IsEarned game l.server log (Serving-IsEarned before)))
