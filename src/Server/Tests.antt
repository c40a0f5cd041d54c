-- ===== src/Server/Tests.antt =====
-- The handlers of the handshake at a concrete server.
use open_bc.Base.{copy_at, ◌≡◌, ◌⊎◌, refl, arith, true, false, [], ◌∷◌, replicate}
use open_bc.Base.Text.{codes}
use open_bc.Peers.{Addr, Peer, cleared, lobby, checksumming}
use open_bc.Server.{Server, team_none}
use open_bc.Server.Scores.{try_restore_reconnect_score}
use open_bc.Server.Leave.{handle_peer_disconnect}
use open_bc.Server.Reconnect.{score_of, scores_return}
use open_bc.Server.Connect.{handle_connect}
use open_bc.Server.Answer.{handle_checksum_response}
use open_bc.Server.Refused.{reconnect_refused}
use open_bc.Server.Start.{start_state}
use open_bc.Server.Phases.{Policy, view}
use open_bc.Server.Moves.{moved}
use open_bc.Server.Rounds.{judged, handle_checksum_response-moved}
use open_bc.Server.Seats.{Seated, handle_connect-moved}
use open_bc.Server.Run.{start, connect, answer, noted, forgotten, IsEarned}
use open_bc.Server.Run.Earned.{Run-IsEarned}

abbrev settings : Policy
settings = (false, true, [])

abbrev at_start : Server
at_start = start_state settings

abbrev visitor : Addr
visitor = record { ip = 0x0a00_0001; port = 22101 }

handle_connect-moved_example :
    (view (handle_connect visitor 100 at_start) ≡ view at_start)
    ⊎ Seated (view at_start) (view (handle_connect visitor 100 at_start))
handle_connect-moved_example = handle_connect-moved visitor 100 at_start

abbrev checked : Server
checked = record at_start {
  peers = record {
    peers =
        record cleared { state = lobby }
        ∷ record cleared { state = checksumming; addr = visitor }
        ∷ replicate 7 cleared;
    count = 2;
  };
}

handle_checksum_response-moved_example :
    view (handle_checksum_response 1 (0x21 ∷ []) 200 checked)
    ≡ moved 1 (judged settings (0x21 ∷ []) checksumming 0) (view checked)
handle_checksum_response-moved_example =
    handle_checksum_response-moved 1 (0x21 ∷ []) 200 checked (checksumming, 0) refl

Run-IsEarned_example :
    IsEarned settings
      (handle_checksum_response 1 (0x21 ∷ []) 200 (handle_connect visitor 100 at_start))
      (noted 1 (0x21 ∷ []) (forgotten (view at_start) (λ _. [])))
Run-IsEarned_example =
    Run-IsEarned (answer (connect (start at_start refl) visitor 100) 1 (0x21 ∷ []) 200)

-- The one who was being checked leaves, the dedicated server's slot after that.
reconnect_refused_example :
    handle_connect
      (record visitor { port = 5 })
      1900
      (handle_peer_disconnect 0 300 (handle_peer_disconnect 1 100 checked))
    ≡ handle_peer_disconnect 0 300 (handle_peer_disconnect 1 100 checked)
reconnect_refused_example =
    reconnect_refused 1 100 1900 (record cleared { state = checksumming; addr = visitor })
      (record visitor { port = 5 }) ((0, 300) ∷ []) checked
      (handle_peer_disconnect 0 300 (handle_peer_disconnect 1 100 checked)) (refl, omega arith) refl
      refl refl (omega arith) (omega arith) refl

-- A player with a score, who leaves slot 1 and comes back into slot 2.
abbrev scorer : Peer
scorer = record cleared {
  state = lobby;
  name = copy_at (replicate 32 0) 0 (codes "Ro Laren");
  score = 700;
  kills = 2;
  deaths = 1;
}

abbrev played : Server
played = record at_start {
  peers = record {
    peers = record cleared { state = lobby } ∷ scorer ∷ replicate 7 cleared;
    count = 2;
  };
}

abbrev later : Server
later = record at_start {
  reconnect_scores = (handle_peer_disconnect 1 5000 played).reconnect_scores;
}

scores_return_example :
    score_of 2 (try_restore_reconnect_score 2 (codes "Ro Laren") 9000 later)
    ≡ (700, 2, 1, team_none)
scores_return_example =
    scores_return 1 5000 2 9000 scorer played later
      (record { scores = refl; kills = refl; deaths = refl; teams = refl }) refl
      (record { scores = refl; kills = refl; deaths = refl; teams = refl }) refl refl refl refl refl
      refl
