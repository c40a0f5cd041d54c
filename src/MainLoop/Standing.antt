-- ===== src/MainLoop/Standing.antt =====
-- What src/server/main.c looks at once a second, and what a peer that leaves does to it.
use open_bc.Base.{ℕ, zero, suc, ◌≡◌, ◌≢◌, refl, ap, ◌∙◌, Bool, true, false, not, ◌&&◌, ◌||◌, some}
use open_bc.Base.{
  List, [], ◌∷◌, get_elem?, set, map, ltb, sub32, if◌then◌else◌, get_elem?-set_other,
}
use open_bc.Reliable.{check_timeout}
use open_bc.Reliable.Retransmit.{reliable_add-check_timeout}
use open_bc.Peers.{Peer, is_empty, cleared, empty}
use open_bc.Sending.{tracked}
use open_bc.Sending.Relay.{Phase, phase}
use open_bc.Server.{Server}
use open_bc.Server.Leave.{handle_peer_disconnect}
use open_bc.Server.Looks.{looks, handle_peer_disconnect-look}
use open_bc.MainLoop.{silence_ms}
use open_bc.MainLoop.Rounds.{look_at}

-- How far a peer has come and when it was last heard, and whether its queue has given up.
abbrev pub Heard : Type 0
Heard = Phase × ℕ

abbrev pub heard_of : Peer → Heard
heard_of p = (phase p, p.last_recv_time)

abbrev pub Standing : Type 0
Standing = Heard × Bool

abbrev pub standing : Peer → Standing
standing p = (heard_of p, check_timeout p.reliable_out)

abbrev pub nobody : Heard
nobody = ((empty, 0), 0)

-- The first loop drops who has not acknowledged, the second who has not been heard.
abbrev pub after_resend : Standing → Heard
after_resend (h, gave_up) = if not (is_empty h.0.0) && gave_up then nobody else h

abbrev pub after_silence : ℕ → Heard → Heard
after_silence now_ms h =
    if not (is_empty h.0.0) && ltb silence_ms (sub32 now_ms h.1) then nobody else h

either_check :
    (a b c : Bool) (h : Heard)
    → (if a && b then nobody else (if a && c then nobody else h))
      ≡ (if a && (b || c) then nobody else h)
either_check false b c h = refl
either_check true false c h = refl
either_check true true c h = refl

-- The two loops as one test
pub both_checks :
    (now_ms : ℕ) (x : Standing)
    → after_silence now_ms (after_resend x) ≡ (
        if not (is_empty x.0.0.0) && (x.1 || ltb silence_ms (sub32 now_ms x.0.1))
        then nobody
        else x.0)
both_checks now_ms (h, gave_up) =
    past (not (is_empty h.0.0) && gave_up)
    ∙ either_check (not (is_empty h.0.0)) gave_up (ltb silence_ms (sub32 now_ms h.1)) h
  where
    past :
        (t : Bool)
        → after_silence now_ms (if t then nobody else h)
          ≡ (if t then nobody else after_silence now_ms h)
    past true = refl
    past false = refl

standing-tracked :
    (payload : List ℕ) (len now_ms : ℕ) (p : Peer)
    → standing (tracked payload len now_ms p) ≡ standing p
standing-tracked payload len now_ms p =
    ap (λ (b : Bool). (heard_of p, b))
      (reliable_add-check_timeout payload len p.reliable_seq_out now_ms p.reliable_out)

-- The peer of a slot whose view is known
pub peer_at :
    {X : Type 0} (look : Peer → X) (ps : List Peer) (i : ℕ) (x : X)
    → get_elem? (map look ps) i ≡ some x
    → (p : Peer) × (get_elem? ps i ≡ some p) × (look p ≡ x)
peer_at look [] i x h = absurd (cc h)
peer_at look (p ∷ ps) zero x h = (p, refl, cc h)
peer_at look (p ∷ ps) (suc i) x h = peer_at look ps i x h

pub at_peer :
    {X : Type 0} (look : Peer → X) (ps : List Peer) (i : ℕ) (p : Peer)
    → get_elem? ps i ≡ some p
    → get_elem? (map look ps) i ≡ some (look p)
at_peer look [] i p h = absurd (cc h)
at_peer look (q ∷ ps) zero p h = let e : q ≡ p = cc h in ap (λ r. some (look r)) e
at_peer look (q ∷ ps) (suc i) p h = at_peer look ps i p h

module _ {X : Type 0} (look : Peer → X) (i j : ℕ) (other : j ≢ i) where
  -- A change of slot `i` alone is not seen at `j`.
  pub set_elsewhere :
      (s s' : Server) (x : X)
      → looks look s' ≡ set (looks look s) i x
      → look_at look j s' ≡ look_at look j s
  set_elsewhere s s' x e =
      ap (λ l. get_elem? l j) e ∙ get_elem?-set_other (looks look s) i j x other

pub standing-leaves :
    (slot now_ms : ℕ) (s : Server) (p : Peer)
    → get_elem? s.peers.peers slot ≡ some p
    → is_empty p.state ≡ false
    → looks standing (handle_peer_disconnect slot now_ms s)
      ≡ set (looks standing s) slot (standing cleared)
standing-leaves = handle_peer_disconnect-look standing standing-tracked (λ o p. refl) (λ p. refl)

pub heard-leaves :
    (slot now_ms : ℕ) (s : Server) (p : Peer)
    → get_elem? s.peers.peers slot ≡ some p
    → is_empty p.state ≡ false
    → looks heard_of (handle_peer_disconnect slot now_ms s) ≡ set (looks heard_of s) slot nobody
heard-leaves =
    handle_peer_disconnect-look heard_of (λ payload len now_ms p. refl) (λ o p. refl) (λ p. refl)
