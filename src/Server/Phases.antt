-- ===== src/Server/Phases.antt =====
-- How the handlers of server_handshake.c move the peers: each slot's state and checksum round, and the settings
-- by which responses are judged.
use open_bc.Base.{ℕ, zero, suc, ◌≡◌, refl, sym, ap, ◌∙◌, Bool, true, Option, none, some}
use open_bc.Base.{List, [], ◌∷◌, get_elem?, set, map, ltb, by_branch}
use open_bc.Manifest.{ManifestDir}
use open_bc.Peers.{Peer}
use open_bc.Sending.{
  Datagram, queue_reliable, flush_peer, relay_to_others, send_to_all, is_other, is_player,
}
use open_bc.Sending.Relay.{Phase, phase, flush_peer-phase, queue_reliable-phase, queue_from-phase}
use open_bc.Server.{
  Server, put_peer, changed, at_slot, queue_to, flush_slot, if_built, relay, tell_all,
}

-- `g_no_checksum`, `g_manifest_loaded` and the directories of `g_manifest`
abbrev pub Policy : Type 0
Policy = Bool × Bool × List ManifestDir

abbrev pub View : Type 0
View = List Phase × Policy

abbrev pub view : Server → View
view s = (map phase s.peers.peers, (s.no_checksum, s.manifest_loaded, s.manifest_dirs))

abbrev pub Stays : (Server → Server) → Type 0
Stays f = (s : Server) → view (f s) ≡ view s

pub map-set {ℓ} :
    {X : Type ℓ} (look : Peer → X) (ps : List Peer) (i : ℕ) (p : Peer)
    → map look (set ps i p) ≡ set (map look ps) i (look p)
map-set look [] i p = refl
map-set look (q ∷ ps) zero p = refl
map-set look (q ∷ ps) (suc i) p = ap (λ l. look q ∷ l) (map-set look ps i p)

abbrev pub phase_of : Option Peer → Option Phase
phase_of none = none
phase_of (some p) = some (phase p)

pub get_elem?-phases :
    (ps : List Peer) (i : ℕ) → get_elem? (map phase ps) i ≡ phase_of (get_elem? ps i)
get_elem?-phases [] i = refl
get_elem?-phases (p ∷ ps) zero = refl
get_elem?-phases (p ∷ ps) (suc i) = get_elem?-phases ps i

pub set-map_same {ℓ} :
    {X : Type ℓ} (look : Peer → X) (ps : List Peer) (i : ℕ) (p : Peer) (x : X)
    → get_elem? ps i ≡ some p
    → x ≡ look p
    → set (map look ps) i x ≡ map look ps
set-map_same look [] i p x e same = refl
set-map_same look (r ∷ ps) zero p x e same =
    let is : r ≡ p = cc in ap (λ y. y ∷ map look ps) (same ∙ ap look (sym is))
set-map_same look (r ∷ ps) (suc i) p x e same =
    ap (λ l. look r ∷ l) (set-map_same look ps i p x e same)

-- A change of one slot that moves its phase to `q`.
pub at_slot-view :
    (slot : ℕ) (f : Peer → Peer × List Datagram) (s : Server) (p : Peer) (q : Phase)
    → get_elem? s.peers.peers slot ≡ some p
    → phase (f p).0 ≡ q
    → view (at_slot slot f s) ≡ (set (view s).0 slot q, (view s).1)
unfolding at_slot
at_slot-view slot f s p q e moved =
    ap (λ (o : Option Peer). view (put_peer slot s (changed f o))) e
    ∙ ap (λ (l : List Phase). (l, (view s).1))
        (map-set phase s.peers.peers slot (f p).0
          ∙ ap (λ (x : Phase). set (map phase s.peers.peers) slot x) moved)

pub at_slot-Stays :
    (slot : ℕ) (f : Peer → Peer × List Datagram)
    → ((p : Peer) → phase (f p).0 ≡ phase p)
    → Stays (at_slot slot f)
unfolding at_slot
at_slot-Stays slot f kept s = found (get_elem? s.peers.peers slot) refl
  where
    found :
        (o : Option Peer)
        → get_elem? s.peers.peers slot ≡ o
        → view (put_peer slot s (changed f o)) ≡ view s
    found none e = refl
    found (some p) e =
        ap (λ (l : List Phase). (l, (view s).1))
          (map-set phase s.peers.peers slot (f p).0
            ∙ set-map_same phase s.peers.peers slot p (phase (f p).0) e (kept p))

pub queue_to-Stays :
    (slot : ℕ) (payload : List ℕ) (len now_ms : ℕ) → Stays (queue_to slot payload len now_ms)
queue_to-Stays slot payload len now_ms =
    at_slot-Stays slot (queue_reliable payload len now_ms) (queue_reliable-phase payload len now_ms)

pub flush_slot-Stays : (slot : ℕ) → Stays (flush_slot slot)
flush_slot-Stays slot = at_slot-Stays slot flush_peer flush_peer-phase

pub if_built-Stays :
    (r : Option ℕ × List ℕ) (act : List ℕ → ℕ → Server → Server)
    → ((payload : List ℕ) (len : ℕ) → Stays (act payload len))
    → Stays (if_built r act)
if_built-Stays (none, buf) act h s = refl
if_built-Stays (some len, buf) act h s =
    by_branch (λ (s' : Server). view s' ≡ view s) (ltb 0 len) (λ _. h buf len s) (λ _. refl)

pub relay-Stays :
    (slot now_ms : ℕ) (payload : List ℕ) (len : ℕ) → Stays (relay slot now_ms payload len)
unfolding relay relay_to_others
relay-Stays slot now_ms payload len s =
    ap (λ (l : List Phase). (l, (view s).1))
      (queue_from-phase (is_other slot) true payload len now_ms 0 s.peers.peers)

pub tell_all-Stays : (now_ms : ℕ) (payload : List ℕ) (len : ℕ) → Stays (tell_all now_ms payload len)
unfolding tell_all send_to_all
tell_all-Stays now_ms payload len s =
    ap (λ (l : List Phase). (l, (view s).1))
      (queue_from-phase is_player true payload len now_ms 0 s.peers.peers)
