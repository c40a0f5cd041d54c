-- ===== src/Dispatch/Session/Message.antt =====
-- What one message of the game, through `handle_game_message` of src/server/server_dispatch.c, keeps.
use open_bc.Base.{ℕ, ◌≡◌, ◌⊎◌, inl, inr, refl, ap, ◌∙◌, Bool, true, false, not, Option, none, some}
use open_bc.Base.{List, [], ◌∷◌, ltb, ◌==◌, if◌then◌else◌, length, get_elem?, by_branch}
use open_bc.Handshake.Build.{op_checksum_resp}
use open_bc.Messages.Parse.{parse_request_obj}
use open_bc.Peers.{Peer, lobby, empty, connecting, checksumming, checksumming_final, in_game}
use open_bc.Sending.{has_entered}
use open_bc.Sending.Relay.{Phase, phase}
use open_bc.Transport.{}
use open_bc.Server.{Server, set_peer, relay}
use open_bc.Server.Phases.{
  Policy, view, Stays, phase_of, get_elem?-phases, flush_slot-Stays, relay-Stays, tell_all-Stays,
}
use open_bc.Server.Moves.{moved, Stands, set_peer-moved}
use open_bc.Server.Run.{Log, Entered, Earned, IsEarned}
use open_bc.Server.Run.Keeps.{IsEarned-same, IsEarned-moved}
use open_bc.Server.Run.Earned.{answer-IsEarned}
use open_bc.Dispatch.Game.{
  Combat, Case, chats, relays, absorbs, joins, teams, requests, fights, unhandled, case_of, play,
  gated, dispatch_whole, count_received, count_rejected, reassembled, corrected, chat, relay_team,
  request_obj, new_player_in_game, send_mission, announce, tell_of_players, handle_game_message,
}
use open_bc.Dispatch.Packet.{}
use open_bc.Dispatch.Quiet.Play.{
  reassembled-view, send_mission-Stays, announce-Stays, tell_of_players-Stays, relay_team-Stays,
  request_obj-Stays,
}
use open_bc.Dispatch.Session.{log_whole, log_game}

-- Of two conditionals under one test.
pub by_branches :
    {A B : Type 0} (P : A → B → Type 0) (test : Bool) {x y : A} {v w : B}
    → (test ≡ true → P x v)
    → (test ≡ false → P y w)
    → P (if test then x else y) (if test then v else w)
by_branches P true f g = f refl
by_branches P false f g = g refl

has_entered-Entered :
    (c : Policy) (answers : List (List ℕ)) (q : Phase)
    → has_entered q.0 ≡ true
    → Earned c answers q.0 q.1
    → Entered c answers
has_entered-Entered c answers (lobby, r) t h = h
has_entered-Entered c answers (in_game, r) t h = h
has_entered-Entered c answers (empty, r) t h = absurd (cc t)
has_entered-Entered c answers (connecting, r) t h = absurd (cc t)
has_entered-Entered c answers (checksumming, r) t h = absurd (cc t)
has_entered-Entered c answers (checksumming_final, r) t h = absurd (cc t)

pub new_player-moved :
    (slot : ℕ) (payload : List ℕ) (now_ms : ℕ) (s : Server) (q : Phase)
    → Stands slot q (view s)
    → (view (new_player_in_game slot payload now_ms s) ≡ view s)
      ⊎ (view (new_player_in_game slot payload now_ms s) ≡ moved slot (in_game, q.1) (view s))
new_player-moved slot payload now_ms s q h =
    by_branch (λ (s' : Server). (view s' ≡ view s) ⊎ (view s' ≡ moved slot (in_game, q.1) (view s)))
      (ltb (length payload) 2) (λ _. inl refl)
      (λ _. inr (
        flush_slot-Stays slot (tell_of_players slot now_ms 0 s2.peers.peers s2)
        ∙ tell_of_players-Stays slot now_ms 0 s2.peers.peers s2
        ∙ announce-Stays slot now_ms (send_mission slot now_ms s1)
        ∙ send_mission-Stays slot now_ms s1
        ∙ relay-Stays slot now_ms payload (length payload)
            (set_peer slot (λ p. record p { state = in_game }) s)
        ∙ set_peer-moved slot (λ p. record p { state = in_game }) s q (in_game, q.1) h
            (λ p e. ap (λ (x : Phase). (in_game, x.1)) e)))
  where
    s1 : Server
    s1 =
        relay slot now_ms payload (length payload)
          (set_peer slot (λ p. record p { state = in_game }) s)

    s2 : Server
    s2 = announce slot now_ms (send_mission slot now_ms s1)

module _ (c : Policy) where
  pub quiet : (s s' : Server) (log : Log) → view s' ≡ view s → IsEarned c s log → IsEarned c s' log
  quiet s s' log same h = IsEarned-same c s s' log log h same (λ i r at_r e. e)

  module _ (combat : Combat)
      (combat-Stays : (opcode slot : ℕ) (payload : List ℕ) (now_ms : ℕ)
        → Stays (combat opcode slot payload now_ms)) where
    join-IsEarned :
        (slot : ℕ) (payload : List ℕ) (now_ms : ℕ) (s : Server) (log : Log) (q : Phase)
        → Stands slot q (view s)
        → has_entered q.0 ≡ true
        → IsEarned c s log
        → IsEarned c (new_player_in_game slot payload now_ms s) log
    join-IsEarned slot payload now_ms s log q at_q entered h =
        elim (new_player-moved slot payload now_ms s q at_q) [
          | inl same ↦ quiet s (new_player_in_game slot payload now_ms s) log same h
          | inr joined ↦
              IsEarned-moved c s (new_player_in_game slot payload now_ms s) log log slot
                (in_game, q.1) h joined (λ i other r at_r e. e)
                (λ positive. has_entered-Entered c (log slot) q entered (h.0 slot q positive at_q))
        ]

    play-IsEarned :
        (k : Case) (opcode slot : ℕ) (payload : List ℕ) (now_ms : ℕ) (s : Server) (log : Log)
        (q : Phase)
        → Stands slot q (view s)
        → has_entered q.0 ≡ true
        → IsEarned c s log
        → IsEarned c (play combat k opcode slot payload now_ms s) log
    play-IsEarned chats opcode slot payload now_ms s log q at_q entered h =
        quiet s (chat slot payload now_ms s) log
          (tell_all-Stays now_ms (corrected slot payload) (length payload) s) h
    play-IsEarned relays opcode slot payload now_ms s log q at_q entered h =
        quiet s (relay slot now_ms payload (length payload) s) log
          (relay-Stays slot now_ms payload (length payload) s) h
    play-IsEarned absorbs opcode slot payload now_ms s log q at_q entered h = h
    play-IsEarned joins opcode slot payload now_ms s log q at_q entered h =
        join-IsEarned slot payload now_ms s log q at_q entered h
    play-IsEarned teams opcode slot payload now_ms s log q at_q entered h =
        quiet s (relay_team slot payload now_ms s) log (relay_team-Stays slot payload now_ms s) h
    play-IsEarned requests opcode slot payload now_ms s log q at_q entered h =
        quiet s (request_obj slot (parse_request_obj payload) now_ms s) log
          (request_obj-Stays slot (parse_request_obj payload) now_ms s) h
    play-IsEarned fights opcode slot payload now_ms s log q at_q entered h =
        quiet s (combat opcode slot payload now_ms s) log
          (combat-Stays opcode slot payload now_ms s) h
    play-IsEarned unhandled opcode slot payload now_ms s log q at_q entered h =
        quiet s (count_rejected opcode s) log refl h

    gated-IsEarned :
        (opcode slot : ℕ) (payload : List ℕ) (now_ms : ℕ) (s : Server) (log : Log) (o : Option Peer)
        → get_elem? s.peers.peers slot ≡ o
        → IsEarned c s log
        → IsEarned c (gated combat opcode slot payload now_ms o s) log
    gated-IsEarned opcode slot payload now_ms s log none e h = h
    gated-IsEarned opcode slot payload now_ms s log (some p) e h = either (has_entered p.state) refl
      where
        either :
            (t : Bool)
            → has_entered p.state ≡ t
            → IsEarned c
                (if not t
                  then count_rejected opcode s
                  else play combat (case_of opcode) opcode slot payload now_ms s)
                log
        either true is =
            play-IsEarned (case_of opcode) opcode slot payload now_ms s log (phase p)
              (get_elem?-phases s.peers.peers slot ∙ ap phase_of e) is h
        either false is = quiet s (count_rejected opcode s) log refl h

    whole-IsEarned :
        (slot now_ms : ℕ) (o : Option (List ℕ)) (s : Server) (log : Log)
        → IsEarned c s log
        → IsEarned c (dispatch_whole combat slot now_ms (o, s)) (log_whole slot o log)
    whole-IsEarned slot now_ms none s log h = h
    whole-IsEarned slot now_ms (some []) s log h = h
    whole-IsEarned slot now_ms (some (opcode ∷ rest)) s log h =
        by_branches (IsEarned c) (opcode == op_checksum_resp)
          (λ _. answer-IsEarned c (count_received opcode s) log slot (opcode ∷ rest) now_ms counted)
          (λ _.
            gated-IsEarned opcode slot (opcode ∷ rest) now_ms (count_received opcode s) log
              (get_elem? s.peers.peers slot) refl counted)
      where
        counted : IsEarned c (count_received opcode s) log
        counted = quiet s (count_received opcode s) log refl h

    pub game-IsEarned :
        (slot kind flags : ℕ) (payload : List ℕ) (now_ms : ℕ) (s : Server) (log : Log)
        → IsEarned c s log
        → IsEarned c
            (handle_game_message combat slot kind flags payload now_ms s)
            (log_game slot kind flags payload s log)
    unfolding handle_game_message
    game-IsEarned slot kind flags payload now_ms s log h =
        by_branches (IsEarned c) (ltb (length payload) 1) (λ _. h)
          (λ _.
            whole-IsEarned slot now_ms (reassembled slot kind flags payload s).0
              (reassembled slot kind flags payload s).1 log
              (quiet s (reassembled slot kind flags payload s).1 log
                (reassembled-view slot kind flags payload s) h))
