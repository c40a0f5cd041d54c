-- ===== src/Server/Refused.antt =====
-- Who has just left cannot connect again at once, src/server/server_handshake.c.
use open_bc.Base.{
  ℕ, ◌+◌, ◌%◌, ◌≤◌, ◌<◌, ◌≡◌, ◌⊎◌, inl, inr, refl, ap, sym, ◌∙◌, arith, true, false, ◌||◌, some,
  Option,
}
use open_bc.Base.{
  List, [], ◌∷◌, length, get_elem?, set, sub32, ◌==◌, if_true, if_false, by_branch, Bool-cases,
  Option-cases,
}
use open_bc.Base.Text.{c_string}
use open_bc.Peers.{Addr, Peer, is_empty, minus_one, peers_find}
use open_bc.Server.{Server, ConnectAttempt}
use open_bc.Server.Scores.{no_player, store_reconnect_score}
use open_bc.Server.Limit.{
  rate_limit_ms, rate_slots, record_disconnect_ip, any_too_soon, connect_rate_limited,
}
use open_bc.Server.Limit.Ring.{IsRing, record_all, reconnect_limited}
use open_bc.Server.Leave.{
  preserve_scores, note_disconnect, tell_others, peer_leaves, handle_peer_disconnect,
}
use open_bc.Server.Connect.{is_known, handle_connect}
use open_bc.Server.Blind.{tell_others-blind, at_slot-blind}

abbrev Ring : Type 0
Ring = List ConnectAttempt × ℕ

abbrev ring : Server → Ring
ring s = (s.connect_history, s.connect_history_idx)

-- The ring behind an address that is recorded.
abbrev written : ℕ → ℕ → Ring → Ring
written ip now_ms (attempts, i) =
    (set attempts i (record { ip = ip; disconnect_ms = now_ms }), (i + 1) % rate_slots)

record_disconnect_ip-ring :
    (ip now_ms : ℕ) (s : Server)
    → ring (record_disconnect_ip ip now_ms s) ≡ written ip now_ms (ring s)
unfolding record_disconnect_ip
record_disconnect_ip-ring ip now_ms s = refl

preserve_scores-ring : (slot : ℕ) (p : Peer) (s : Server) → ring (preserve_scores slot p s) ≡ ring s
unfolding store_reconnect_score
preserve_scores-ring slot p s =
    by_branch (λ (s' : Server). ring s' ≡ ring s) (no_player slot || length (c_string p.name) == 0)
      (λ _. refl) (λ _. refl)

-- A peer that leaves has its address written into the ring.
leaves_ring :
    (slot now_ms : ℕ) (p : Peer) (s : Server)
    → get_elem? s.peers.peers slot ≡ some p
    → is_empty p.state ≡ false
    → ring (handle_peer_disconnect slot now_ms s) ≡ written p.addr.ip now_ms (ring s)
unfolding handle_peer_disconnect record_disconnect_ip
leaves_ring slot now_ms p s at_p occupied =
    ap (λ (o : Option Peer). ring (peer_leaves slot now_ms o s)) at_p
    ∙ ap ring (if_false s occupied)
    ∙ ap (written p.addr.ip now_ms) (
        at_slot-blind ring (λ s' mgr out. refl) slot
          (λ q. (record q { respawn_timer = 0; respawn_class = minus_one }, []))
          (tell_others slot p now_ms noted)
        ∙ tell_others-blind ring (λ s' mgr out. refl) slot p now_ms noted
        ∙ preserve_scores-ring slot p s)
  where
    noted : Server
    noted = note_disconnect slot p now_ms (preserve_scores slot p s)

-- Peers that leave, the slot and the time of each, the first one first.
abbrev pub all_leave : List (ℕ × ℕ) → Server → Server
all_leave [] s = s
all_leave ((slot, ms) ∷ rest) s = all_leave rest (handle_peer_disconnect slot ms s)

-- What a departure does to the ring: an address is written into it, or nothing.
one_leaves :
    (slot now_ms : ℕ) (s : Server)
    → ((ip : ℕ) × (ring (handle_peer_disconnect slot now_ms s) ≡ written ip now_ms (ring s)))
      ⊎ (ring (handle_peer_disconnect slot now_ms s) ≡ ring s)
unfolding handle_peer_disconnect
one_leaves slot now_ms s = elim (Option-cases (get_elem? s.peers.peers slot)) [
  | inl nobody ↦ inr (ap (λ (o : Option Peer). ring (peer_leaves slot now_ms o s)) nobody)
  | inr (p, at_p) ↦ elim (Bool-cases (is_empty p.state)) [
    | inl free ↦ inr (
        ap (λ (o : Option Peer). ring (peer_leaves slot now_ms o s)) at_p
        ∙ ap ring (if_true _ free))
    | inr occupied ↦ inl (p.addr.ip, leaves_ring slot now_ms p s at_p occupied)
  ]
]

record_all-ring :
    (rest : List (ℕ × ℕ)) (s s' : Server)
    → ring s ≡ ring s'
    → ring (record_all rest s) ≡ ring (record_all rest s')
record_all-ring [] s s' e = e
record_all-ring ((ip, ms) ∷ rest) s s' e =
    record_all-ring rest (record_disconnect_ip ip ms s) (record_disconnect_ip ip ms s') (
      record_disconnect_ip-ring ip ms s
      ∙ ap (written ip ms) e
      ∙ sym (record_disconnect_ip-ring ip ms s'))

-- So departures write no more addresses than there are departures.
all_leave-ring :
    (others : List (ℕ × ℕ)) (s s' : Server)
    → ring s ≡ ring s'
    → (rest : List (ℕ × ℕ)) × (length rest ≤ length others)
      × (ring (all_leave others s) ≡ ring (record_all rest s'))
all_leave-ring [] s s' e = ([], omega arith, e)
all_leave-ring ((slot, ms) ∷ others) s s' e = elim (one_leaves slot ms s) [
  | inl (ip, wrote) ↦
      let (rest, few, same) =
        all_leave-ring others (handle_peer_disconnect slot ms s) (record_disconnect_ip ip ms s')
          (wrote ∙ ap (written ip ms) e ∙ sym (record_disconnect_ip-ring ip ms s')) in
      ((ip, ms) ∷ rest, omega (arith, few), same)
  | inr same_ring ↦
      let (rest, few, same) =
        all_leave-ring others (handle_peer_disconnect slot ms s) s' (same_ring ∙ e) in
      (rest, omega (arith, few), same)
]

-- For two seconds after a peer was disconnected, on the wrapping clock, the handler of connect requests changes
-- nothing and sends nothing for a request from the peer's address, whatever its port, unless sixteen others have been
-- disconnected since. Whatever else has happened since has not changed the ring of addresses.
pub reconnect_refused :
    (slot t now_ms : ℕ) (p : Peer) (a : Addr) (others : List (ℕ × ℕ)) (s s' : Server)
    → IsRing s
    → get_elem? s.peers.peers slot ≡ some p
    → is_empty p.state ≡ false
    → a.ip ≡ p.addr.ip
    → length others < rate_slots
    → sub32 now_ms t < rate_limit_ms
    → s'.connect_history ≡ (all_leave others (handle_peer_disconnect slot t s)).connect_history
    → handle_connect a now_ms s' ≡ s'
unfolding handle_connect connect_rate_limited
reconnect_refused slot t now_ms p a others s s' is_ring at_p occupied same_ip few soon kept =
    let (rest, fewer, same) =
      all_leave-ring others (handle_peer_disconnect slot t s) (record_disconnect_ip p.addr.ip t s)
        (leaves_ring slot t p s at_p occupied ∙ sym (record_disconnect_ip-ring p.addr.ip t s)) in
    let limited : any_too_soon a.ip now_ms s'.connect_history ≡ true =
      (λ i. any_too_soon (same_ip i) now_ms (kept i))
      ∙ ap (λ (r : Ring). any_too_soon p.addr.ip now_ms r.0) same
      ∙ reconnect_limited p.addr.ip t now_ms rest s is_ring (omega (arith, fewer, few)) soon in
    by_branch (λ (x : Server). x ≡ s') (is_known (peers_find a s'.peers)) (λ _. refl)
      (λ _. if_true _ limited)
