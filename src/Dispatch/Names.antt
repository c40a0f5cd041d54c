-- ===== src/Dispatch/Names.antt =====
-- What the handlers of src/server/server_dispatch.c for a keepalive do to the names of the peers.
use open_bc.Base.{
  ℕ, zero, suc, ◌+◌, ◌≤◌, ◌<◌, ◌≡◌, refl, ap, ◌∙◌, arith, true, ◌&&◌, not, Option, none, some, List,
  [], ◌∷◌, ◌++◌, All,
}
use open_bc.Base.{
  length, get_elem?, get_elem?-set, get_or, set, map, drop, ltb, leb, ◌==◌, if_true, if_false,
  by_branch, length-append, ==_iff, copy_at, overwrite_all,
}
use mathlib.Core.List.{append_assoc}
use open_bc.Base.Text.{c_string}
use open_bc.Messages.Ids.{player_id_from_peer_slot, is_valid_player_id}
use open_bc.Peers.{Peer}
use open_bc.Sending.{Datagram, is_player, send_to_all}
use open_bc.Sending.Relay.{queue_from-look}
use open_bc.Server.{Server, ReconnectScore, if_built, tell_all, at_slot, put_peer, changed}
use open_bc.Server.Scores.{
  try_restore_reconnect_score, restore_at, restore_entry, no_player, give_back, clear_old,
  clear_slot_score_state, slot_is_empty, tell_score, tell_team, tell_teams, score_message,
  team_message, forget, find_reconnect_score_by_name,
}
use open_bc.Server.Phases.{map-set}
use open_bc.Server.Looks.{looks, at_slot-look}
use open_bc.Dispatch.Packet.{
  ack_below_32, has_reliable_bit, decoded_name, store_name, take_name, name_from, cache_keepalive,
  keepalive_size, keepalive,
}

abbrev pub name_of : Peer → List ℕ
name_of p = p.name

abbrev pub names : Server → List (List ℕ)
names = looks name_of

tell_all-names :
    (now_ms : ℕ) (r : Option ℕ × List ℕ) (s : Server)
    → names (if_built r (tell_all now_ms) s) ≡ names s
unfolding tell_all send_to_all
tell_all-names now_ms (none, buf) s = refl
tell_all-names now_ms (some len, buf) s =
    by_branch (λ (s' : Server). names s' ≡ names s) (ltb 0 len)
      (λ _.
        queue_from-look name_of (λ payload len now_ms p. refl) (λ o p. refl) is_player true buf len
          now_ms 0 s.peers.peers)
      (λ _. refl)

clear_old-names : (slot old_slot : ℕ) (s : Server) → names (clear_old slot old_slot s) ≡ names s
unfolding clear_slot_score_state
clear_old-names slot old_slot s =
    by_branch (λ (s' : Server). names s' ≡ names s)
      (not (no_player old_slot)
        && not (old_slot == slot)
        && slot_is_empty (get_elem? s.peers.peers old_slot))
      (λ _.
        by_branch (λ (s' : Server). names s' ≡ names s) (no_player old_slot) (λ _. refl)
          (λ _. refl))
      (λ _. refl)

give_back-names :
    (slot : ℕ) (r : ReconnectScore) (s : Server) → names (give_back slot r s) ≡ names s
give_back-names slot r s =
    at_slot-look name_of slot
      (λ p. (record p { score = r.score; kills = r.kills; deaths = r.deaths }, [])) (λ p. refl)
      (record s {
        player_scores = set s.player_scores slot r.score;
        player_kills = set s.player_kills slot r.kills;
        player_deaths = set s.player_deaths slot r.deaths;
        player_teams = set s.player_teams slot r.team_id;
      })

tell_score-names : (slot now_ms : ℕ) (s : Server) → names (tell_score slot now_ms s) ≡ names s
tell_score-names slot now_ms s =
    by_branch (λ (s' : Server). names s' ≡ names s)
      (is_valid_player_id (player_id_from_peer_slot (some slot)))
      (λ _. tell_all-names now_ms (score_message slot s) s) (λ _. refl)

tell_teams-names : (now_ms : ℕ) (s : Server) → names (tell_teams now_ms s) ≡ names s
tell_teams-names now_ms s =
    by_branch (λ (s' : Server). names s' ≡ names s) s.team_mode
      (λ _.
        tell_all-names now_ms (team_message 1 (tell_team 0 now_ms s)) (tell_team 0 now_ms s)
        ∙ tell_all-names now_ms (team_message 0 s) s)
      (λ _. refl)

restore_entry-names :
    (slot idx now_ms : ℕ) (o : Option ReconnectScore) (s : Server)
    → names (restore_entry slot idx now_ms o s) ≡ names s
restore_entry-names slot idx now_ms none s = refl
restore_entry-names slot idx now_ms (some r) s =
    tell_teams-names now_ms
      (tell_score slot now_ms (forget idx r (clear_old slot r.old_slot (give_back slot r s))))
    ∙ tell_score-names slot now_ms (forget idx r (clear_old slot r.old_slot (give_back slot r s)))
    ∙ clear_old-names slot r.old_slot (give_back slot r s)
    ∙ give_back-names slot r s

restore_at-names :
    (slot now_ms : ℕ) (found : Option ℕ) (s : Server)
    → names (restore_at slot now_ms found s) ≡ names s
restore_at-names slot now_ms none s = refl
restore_at-names slot now_ms (some idx) s =
    restore_entry-names slot idx now_ms (get_elem? s.reconnect_scores idx) s

try_restore-names :
    (slot : ℕ) (name : List ℕ) (now_ms : ℕ) (s : Server)
    → names (try_restore_reconnect_score slot name now_ms s) ≡ names s
unfolding try_restore_reconnect_score
try_restore-names slot name now_ms s =
    by_branch (λ (s' : Server). names s' ≡ names s) (no_player slot) (λ _. refl)
      (λ _. restore_at-names slot now_ms (find_reconnect_score_by_name name s) s)

cache_keepalive-names :
    (slot : ℕ) (payload : List ℕ) (s : Server) → names (cache_keepalive slot payload s) ≡ names s
cache_keepalive-names slot payload s =
    by_branch (λ (s' : Server). names s' ≡ names s) (leb (length payload) keepalive_size)
      (λ _. at_slot-look name_of slot _ (λ p. refl) s) (λ _. refl)

ack_below_32-names :
    (slot kind : ℕ) (payload : List ℕ) (s : Server)
    → names (ack_below_32 slot kind payload s) ≡ names s
ack_below_32-names slot kind payload s =
    by_branch (λ (s' : Server). names s' ≡ names s)
      (ltb kind 0x32 && leb 2 (length payload) && has_reliable_bit (get_or payload 0 0))
      (λ _. at_slot-look name_of slot _ (λ p. refl) s) (λ _. refl)

pub named_at :
    (ps : List Peer) (i : ℕ) (name : List ℕ)
    → get_elem? (map name_of ps) i ≡ some name
    → (q : Peer) × (get_elem? ps i ≡ some q) × (q.name ≡ name)
named_at [] i name h = absurd (cc h)
named_at (p ∷ ps) zero name h = (p, refl, cc h)
named_at (p ∷ ps) (suc i) name h = named_at ps i name h

pub at_named :
    (ps : List Peer) (i : ℕ) (p : Peer)
    → get_elem? ps i ≡ some p
    → get_elem? (map name_of ps) i ≡ some p.name
at_named [] i p h = absurd (cc h)
at_named (q ∷ ps) zero p h = let same : q ≡ p = cc h in ap (λ (x : Peer). some x.name) same
at_named (q ∷ ps) (suc i) p h = at_named ps i p h

take_name-names :
    (slot connect_time : ℕ) (name : List ℕ) (now_ms : ℕ) (s : Server) (p : Peer)
    → get_elem? s.peers.peers slot ≡ some p
    → names (take_name slot connect_time name now_ms s)
      ≡ set (names s) slot (copy_at p.name 0 (name ++ (0 ∷ [])))
unfolding at_slot
take_name-names slot connect_time name now_ms s p at_p =
    by_branch (λ (s' : Server). names s' ≡ names s1) (ltb 0 (length name))
      (λ _. try_restore-names slot name now_ms s1) (λ _. refl)
    ∙ ap (λ (o : Option Peer). names (put_peer slot s (changed change o))) at_p
    ∙ map-set name_of s.peers.peers slot (change p).0
  where
    change : Peer → Peer × List Datagram
    change q = (record q { name = copy_at q.name 0 (name ++ (0 ∷ [])) }, [])

    s1 : Server
    s1 = store_name slot name s

-- A keepalive with a name, of a peer that has none yet.
keepalive-names :
    (slot : ℕ) (payload : List ℕ) (now_ms : ℕ) (s : Server) (p : Peer)
    → 8 ≤ length payload
    → get_elem? s.peers.peers slot ≡ some p
    → get_or p.name 0 0 ≡ 0
    → names (keepalive slot payload now_ms s)
      ≡ set (names s) slot (copy_at p.name 0 (decoded_name 30 (drop 8 payload) ++ (0 ∷ [])))
keepalive-names slot payload now_ms s p long at_p nameless =
    ap names (if_true {test = leb 8 (length payload)} s (ground (arith, long)))
    ∙ cache_keepalive-names slot payload
        (name_from slot payload now_ms (get_elem? s.peers.peers slot) s)
    ∙ ap (λ (o : Option Peer). names (name_from slot payload now_ms o s)) at_p
    ∙ ap names
        (if_true {test = get_or p.name 0 0 == 0} s ((==_iff (get_or p.name 0 0) 0).1 nameless))
    ∙ take_name-names slot p.connect_time (decoded_name 30 (drop 8 payload)) now_ms s p at_p

c_string-stored :
    (name rest : List ℕ) → All (λ c. 0 < c) name → c_string (name ++ (0 ∷ rest)) ≡ name
c_string-stored [] rest h = refl
c_string-stored (c ∷ name) rest h =
    if_false {test = c == 0} [] (ground (arith, h.0))
    ∙ ap (λ l. c ∷ l) (c_string-stored name rest h.1)

-- After the message of a keepalive the peer has the name that it holds.
pub keepalive-named :
    (slot : ℕ) (payload : List ℕ) (now_ms : ℕ) (name : List ℕ) (s : Server) (p : Peer)
    → 8 ≤ length payload
    → get_elem? s.peers.peers slot ≡ some p
    → get_or p.name 0 0 ≡ 0
    → decoded_name 30 (drop 8 payload) ≡ name
    → All (λ c. 0 < c) name
    → length name < length p.name
    → (q : Peer) × (get_elem?
          (keepalive slot payload now_ms (ack_below_32 slot 0 payload s)).peers.peers
          slot
        ≡ some q)
      × (c_string q.name ≡ name)
keepalive-named slot payload now_ms name s p long at_p nameless decoded h fits =
    let (p1, at_p1, same) = named_at s1.peers.peers slot p.name (
      ap (λ (l : List (List ℕ)). get_elem? l slot) (ack_below_32-names slot 0 payload s)
      ∙ at_named s.peers.peers slot p at_p) in
    let now : names (keepalive slot payload now_ms s1)
        ≡ set (names s1) slot (copy_at p.name 0 (name ++ (0 ∷ []))) =
      keepalive-names slot payload now_ms s1 p1 long at_p1
        (ap (λ (l : List ℕ). get_or l 0 0) same ∙ nameless)
      ∙ (λ i. set (names s1) slot (copy_at (same i) 0 (decoded i ++ (0 ∷ [])))) in
    let (q, at_q, its_name) =
      named_at (keepalive slot payload now_ms s1).peers.peers slot
        (copy_at p.name 0 (name ++ (0 ∷ [])))
        (ap (λ (l : List (List ℕ)). get_elem? l slot) now
          ∙ get_elem?-set (names s1) slot p1.name _ (at_named s1.peers.peers slot p1 at_p1)) in
    (
      q,
      at_q,
      ap c_string (
            its_name
            ∙ overwrite_all p.name (name ++ (0 ∷ [])) (omega (arith, fits, whole))
            ∙ append_assoc name (0 ∷ []) (drop (length (name ++ (0 ∷ []))) p.name))
          ∙ c_string-stored name (drop (length (name ++ (0 ∷ []))) p.name) h,
    )
  where
    s1 : Server
    s1 = ack_below_32 slot 0 payload s

    whole : length (name ++ (0 ∷ [])) ≡ length name + 1
    whole = length-append name (0 ∷ [])
