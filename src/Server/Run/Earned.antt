-- ===== src/Server/Run/Earned.antt =====
-- What every run of the handlers of src/server/server_handshake.c keeps.
use open_bc.Base.{
  ℕ, zero, suc, ◌<◌, ◌≡◌, inl, inr, Option-cases, subst, sym, ap, ◌∙◌, arith, Option, none, some,
}
use open_bc.Base.{List, [], ◌∷◌, get_elem?, if◌then◌else◌}
use open_bc.Peers.{Addr, empty, checksumming}
use open_bc.Sending.Relay.{Phase}
use open_bc.Server.{Server}
use open_bc.Server.Leave.{handle_peer_disconnect}
use open_bc.Server.Connect.{handle_connect}
use open_bc.Server.Answer.{handle_checksum_response}
use open_bc.Server.Phases.{Policy, View, view}
use open_bc.Server.Moves.{Stands, handle_peer_disconnect-either}
use open_bc.Server.Rounds.{judged, handle_checksum_response-moved, handle_checksum_response-missing}
use open_bc.Server.Seats.{handle_connect-moved}
use open_bc.Server.Run.{
  Log, forgotten, noted, was_free, IsStart, Run, start, connect, answer, leave, Earned, IsEarned,
}
use open_bc.Server.Run.Keeps.{
  Earned-judged, noted_same, noted-Keeps, forgotten-Keeps, get_elem?-replicate, IsEarned-same,
  IsEarned-moved,
}

pub connect-IsEarned :
    (c : Policy) (s : Server) (log : Log) (a : Addr) (now_ms : ℕ)
    → IsEarned c s log
    → IsEarned c (handle_connect a now_ms s) (forgotten (view s) log)
connect-IsEarned c s log a now_ms h = elim (handle_connect-moved a now_ms s) [
  | inl same ↦
      IsEarned-same c s (handle_connect a now_ms s) log (forgotten (view s) log) h same
        (forgotten-Keeps c s log)
  | inr seated ↦
      IsEarned-moved c s (handle_connect a now_ms s) log (forgotten (view s) log) seated.slot
        (checksumming, 0) h seated.seated_at (λ i other. forgotten-Keeps c s log i)
        (λ positive. (
          omega arith,
          ap (λ (o : Option Phase). if was_free o then [] else log seated.slot) seated.was_empty,
        ))
]

pub answer-IsEarned :
    (c : Policy) (s : Server) (log : Log) (slot : ℕ) (payload : List ℕ) (now_ms : ℕ)
    → IsEarned c s log
    → IsEarned c (handle_checksum_response slot payload now_ms s) (noted slot payload log)
answer-IsEarned c s log slot payload now_ms h = elim (Option-cases (get_elem? (view s).0 slot)) [
  | inl missing ↦
      IsEarned-same c s (handle_checksum_response slot payload now_ms s) log
        (noted slot payload log) h (handle_checksum_response-missing slot payload now_ms s missing)
        (λ i r at_r.
          noted-Keeps c s slot payload log i
            (λ e.
              let no : none ≡ some r =
                sym missing ∙ ap (λ k. get_elem? (view s).0 k) (sym e) ∙ at_r in
              cc no)
            r at_r)
  | inr (q, at_q) ↦
      IsEarned-moved c s (handle_checksum_response slot payload now_ms s) log
        (noted slot payload log) slot (judged (view s).1 payload q.0 q.1) h
        (handle_checksum_response-moved slot payload now_ms s q at_q)
        (noted-Keeps c s slot payload log)
        (λ positive.
          subst
            (λ answers.
              Earned c answers (judged (view s).1 payload q.0 q.1).0
                (judged (view s).1 payload q.0 q.1).1)
            (sym (noted_same slot payload log))
            (subst
              (λ (x : Policy).
                Earned c (payload ∷ log slot) (judged x payload q.0 q.1).0
                  (judged x payload q.0 q.1).1)
              (sym h.1) (Earned-judged c payload (log slot) q.0 q.1 (h.0 slot q positive at_q))))
]

pub leave-IsEarned :
    (c : Policy) (s : Server) (log : Log) (slot now_ms : ℕ)
    → IsEarned c s log
    → IsEarned c (handle_peer_disconnect slot now_ms s) log
leave-IsEarned c s log slot now_ms h = elim (handle_peer_disconnect-either slot now_ms s) [
  | inl same ↦
      IsEarned-same c s (handle_peer_disconnect slot now_ms s) log log h same (λ i r at_r e. e)
  | inr left ↦
      IsEarned-moved c s (handle_peer_disconnect slot now_ms s) log log slot (empty, 0) h left
        (λ i other r at_r e. e) (λ positive. tt)
]

pub start-IsEarned : (c : Policy) (s : Server) → IsStart c s → IsEarned c s (λ _. [])
start-IsEarned c s h = (one, ap (λ (v : View). v.1) h)
  where
    one : (i : ℕ) (r : Phase) → 0 < i → Stands i r (view s) → Earned c [] r.0 r.1
    one zero r positive at_r = absurd (omega (arith, positive))
    one (suc i) r positive at_r =
        subst (λ (x : Phase). Earned c [] x.0 x.1)
          (sym (
            get_elem?-replicate 8 i (empty, 0) r
              (sym (ap (λ (v : View). get_elem? v.0 (suc i)) h) ∙ at_r)))
          tt

-- In every order of connections, answers and disconnections, a peer's state is one that it has earned since its
-- slot was last free: in round `n` it has given exactly the answers to the rounds below `n`, each accepted; before
-- the final answer, those to all four; and a peer in the lobby or the game has passed all four rounds and then given
-- a well-formed final answer. The settings do not change.
pub Run-IsEarned : {c : Policy} {s : Server} {log : Log} → Run c s log → IsEarned c s log
Run-IsEarned {c} (start s h) = start-IsEarned c s h
Run-IsEarned {c} (connect {s} {log} run a now_ms) =
    connect-IsEarned c s log a now_ms (Run-IsEarned run)
Run-IsEarned {c} (answer {s} {log} run slot payload now_ms) =
    answer-IsEarned c s log slot payload now_ms (Run-IsEarned run)
Run-IsEarned {c} (leave {s} {log} run slot now_ms) =
    leave-IsEarned c s log slot now_ms (Run-IsEarned run)
