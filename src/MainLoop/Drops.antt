-- ===== src/MainLoop/Drops.antt =====
-- One slot's turn in the two checks that src/server/main.c makes once a second.
use open_bc.Base.{
  ℕ, ◌≡◌, ◌≢◌, refl, sym, ap, ◌∙◌, subst, arith, Bool, true, false, not, ◌&&◌, Option, none, some,
}
use open_bc.Base.{get_elem?, if◌then◌else◌, if_true, if_false, by_branch, get_elem?-set}
use open_bc.Reliable.{check_timeout}
use open_bc.Peers.{Peer, is_empty, cleared, slot_timed_out, timed_out}
use open_bc.Server.{Server, next32}
use open_bc.Server.Leave.{handle_peer_disconnect}
use open_bc.Server.Looks.{looks}
use open_bc.Server.Phases.{map-set}
use open_bc.MainLoop.{silence_ms, retransmit_slot, retransmit_at, resend_due, drop_silent}
use open_bc.MainLoop.Rounds.{look_at}
use open_bc.MainLoop.Standing.{
  Heard, heard_of, Standing, standing, nobody, after_resend, after_silence, peer_at, at_peer,
  set_elsewhere, standing-leaves, heard-leaves,
}

module _ (now_ms : ℕ) where
  pub retransmit_elsewhere :
      (i j : ℕ) (s : Server)
      → j ≢ i
      → look_at standing j (retransmit_slot now_ms i s) ≡ look_at standing j s
  unfolding retransmit_slot
  retransmit_elsewhere i j s other = found (get_elem? s.peers.peers i) refl
    where
      found :
          (o : Option Peer)
          → get_elem? s.peers.peers i ≡ o
          → look_at standing j (retransmit_at now_ms i o s) ≡ look_at standing j s
      found none e = refl
      found (some p) e =
          by_branch (λ (s' : Server). look_at standing j s' ≡ look_at standing j s)
            (is_empty p.state) (λ _. refl)
            (λ occupied.
              by_branch (λ (s' : Server). look_at standing j s' ≡ look_at standing j s)
                (check_timeout p.reliable_out)
                (λ _.
                  set_elsewhere standing i j other s (handle_peer_disconnect i now_ms s)
                    (standing cleared) (standing-leaves i now_ms s p e occupied))
                (λ _.
                  set_elsewhere standing i j other s (resend_due now_ms i p s) _
                    (map-set standing s.peers.peers i _)))

  pub retransmit_here :
      (i : ℕ) (s : Server) (x : Standing)
      → look_at standing i s ≡ some x
      → (y : Standing) × (look_at standing i (retransmit_slot now_ms i s) ≡ some y)
        × (y.0 ≡ after_resend x)
  unfolding retransmit_slot
  retransmit_here i s x at_i =
      let (p, at_p, is) = peer_at standing s.peers.peers i x at_i in
      subst
        (λ (x : Standing).
          (y : Standing) × (look_at standing i
              (retransmit_at now_ms i (get_elem? s.peers.peers i) s)
            ≡ some y)
          × (y.0 ≡ after_resend x))
        is
        (subst
          (λ (o : Option Peer).
            (y : Standing) × (look_at standing i (retransmit_at now_ms i o s) ≡ some y)
            × (y.0 ≡ after_resend (standing p)))
          (sym at_p) (found p at_p (at_peer standing s.peers.peers i p at_p)))
    where
      found :
          (p : Peer)
          → get_elem? s.peers.peers i ≡ some p
          → look_at standing i s ≡ some (standing p)
          → (y : Standing) × (look_at standing i (retransmit_at now_ms i (some p) s) ≡ some y)
            × (y.0 ≡ after_resend (standing p))
      found p at_p seen =
          by_branch
            (λ (s' : Server).
              (y : Standing) × (look_at standing i s' ≡ some y) × (y.0 ≡ after_resend (standing p)))
            (is_empty p.state)
            (λ free. (
              standing p,
              seen,
              sym (if_false nobody (ap (λ b. not b && check_timeout p.reliable_out) free)),
            ))
            (λ occupied.
              by_branch
                (λ (s' : Server).
                  (y : Standing) × (look_at standing i s' ≡ some y)
                  × (y.0 ≡ after_resend (standing p)))
                (check_timeout p.reliable_out)
                (λ dead. (
                  standing cleared,
                  ap (λ l. get_elem? l i) (standing-leaves i now_ms s p at_p occupied)
                      ∙ get_elem?-set (looks standing s) i (standing p) (standing cleared) seen,
                  sym (if_true (heard_of p) (λ k. not (occupied k) && dead k)),
                ))
                (λ alive. (
                  _,
                  ap (λ l. get_elem? l i) (map-set standing s.peers.peers i _)
                      ∙ get_elem?-set (looks standing s) i (standing p) _ seen,
                  sym (if_false nobody (λ k. not (occupied k) && alive k)),
                )))

  pub silent_elsewhere :
      (i j : ℕ) (s : Server)
      → j ≢ i
      → look_at heard_of j (drop_silent now_ms i s) ≡ look_at heard_of j s
  unfolding drop_silent
  silent_elsewhere i j s other = found (get_elem? s.peers.peers i) refl
    where
      counted : Server
      counted = record s { timeouts = next32 s.timeouts }

      found :
          (o : Option Peer)
          → get_elem? s.peers.peers i ≡ o
          → look_at heard_of j (
              if slot_timed_out now_ms silence_ms o
              then handle_peer_disconnect i now_ms counted
              else s)
            ≡ look_at heard_of j s
      found none e = refl
      found (some p) e =
          by_branch (λ (s' : Server). look_at heard_of j s' ≡ look_at heard_of j s)
            (timed_out now_ms silence_ms p)
            (λ silent.
              set_elsewhere heard_of i j other s (handle_peer_disconnect i now_ms counted) nobody
                (heard-leaves i now_ms counted p e (ground (arith, silent))))
            (λ _. refl)

  pub silent_here :
      (i : ℕ) (s : Server) (x : Heard)
      → look_at heard_of i s ≡ some x
      → (y : Heard) × (look_at heard_of i (drop_silent now_ms i s) ≡ some y)
        × (y ≡ after_silence now_ms x)
  unfolding drop_silent
  silent_here i s x at_i =
      let (p, at_p, is) = peer_at heard_of s.peers.peers i x at_i in
      (
        after_silence now_ms x,
        subst (λ h. Outcome h) is
            (subst (λ (o : Option Peer). After o (heard_of p)) (sym at_p)
              (found p at_p (at_peer heard_of s.peers.peers i p at_p))),
        refl,
      )
    where
      counted : Server
      counted = record s { timeouts = next32 s.timeouts }

      After : Option Peer → Heard → Type 0
      After o h =
          look_at heard_of i (
            if slot_timed_out now_ms silence_ms o
            then handle_peer_disconnect i now_ms counted
            else s)
          ≡ some (after_silence now_ms h)

      Outcome : Heard → Type 0
      Outcome = After (get_elem? s.peers.peers i)

      found :
          (p : Peer)
          → get_elem? s.peers.peers i ≡ some p
          → look_at heard_of i s ≡ some (heard_of p)
          → After (some p) (heard_of p)
      found p at_p seen = both (timed_out now_ms silence_ms p) refl
        where
          both :
              (t : Bool)
              → timed_out now_ms silence_ms p ≡ t
              → look_at heard_of i (if t then handle_peer_disconnect i now_ms counted else s)
                ≡ some (if t then nobody else heard_of p)
          both true silent =
              ap (λ l. get_elem? l i)
                (heard-leaves i now_ms counted p at_p (ground (arith, silent)))
              ∙ get_elem?-set (looks heard_of s) i (heard_of p) nobody seen
          both false _ = seen
