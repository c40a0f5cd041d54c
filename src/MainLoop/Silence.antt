-- ===== src/MainLoop/Silence.antt =====
-- Whom src/server/main.c throws out, once a second.
use open_bc.Base.{ℕ, ◌≤◌, ◌<◌, ◌≡◌, ap, ◌∙◌, arith, not, ◌&&◌, ◌||◌, some}
use open_bc.Base.{get_elem?, ltb, sub32, if◌then◌else◌}
use open_bc.Reliable.{check_timeout}
use open_bc.Peers.{Peer, is_empty}
use open_bc.Server.{Server}
use open_bc.MainLoop.{silence_ms, retransmit_slot, drop_silent, check_peers, players}
use open_bc.MainLoop.Rounds.{look_at, slots_from-each}
use open_bc.MainLoop.Standing.{
  heard_of, Standing, standing, nobody, after_resend, after_silence, both_checks, peer_at, at_peer,
}
use open_bc.MainLoop.Drops.{retransmit_elsewhere, retransmit_here, silent_elsewhere, silent_here}

module _ (now_ms : ℕ) where
  -- The check that runs once a second throws out, of the players in slots 1 to 8, exactly those whose reliable queue has
  -- timed out and those from whom nothing came for more than 30 seconds, on the wrapping clock: their slots are free.
  -- Each other one keeps its state, its round and the time it was last heard.
  pub check_peers_lem :
      (j : ℕ) (s : Server) (p : Peer)
      → 1 ≤ j
      → j < 9
      → get_elem? s.peers.peers j ≡ some p
      → look_at heard_of j (check_peers now_ms s)
        ≡ some (
            if not (is_empty p.state)
              && (check_timeout p.reliable_out || ltb silence_ms (sub32 now_ms p.last_recv_time))
            then nobody
            else heard_of p)
  check_peers_lem j s p low high at_p =
      let (y, at_y, is) =
        slots_from-each standing (λ x. x.0) after_resend (retransmit_slot now_ms)
          (retransmit_elsewhere now_ms) (retransmit_here now_ms) 8 1 j s (standing p) low
          (omega (arith, high)) (at_peer standing s.peers.peers j p at_p) in
      let (q, at_q, of_q) =
        peer_at standing (players (retransmit_slot now_ms) s).peers.peers j y at_y in
      let (h, at_h, after) =
        slots_from-each heard_of (λ x. x) (after_silence now_ms) (drop_silent now_ms)
          (silent_elsewhere now_ms) (silent_here now_ms) 8 1 j (players (retransmit_slot now_ms) s)
          (heard_of q) low (omega (arith, high))
          (at_peer heard_of (players (retransmit_slot now_ms) s).peers.peers j q at_q) in
      at_h
      ∙ ap (λ x. some x)
          (after
            ∙ ap (λ (x : Standing). after_silence now_ms x.0) of_q
            ∙ ap (after_silence now_ms) is
            ∙ both_checks now_ms (standing p))
