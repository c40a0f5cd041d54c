-- ===== src/Server/Rounds.antt =====
-- The states that `bc_handle_checksum_response` of server_handshake.c takes a peer through.
use open_bc.Base.{get_elem?-set}
use open_bc.Base.{ℕ, ◌+◌, ◌≡◌, refl, sym, ap, ◌∙◌, Bool, true, false, not, ◌||◌, Option, none, some}
use open_bc.Base.{
  zero, suc, set-set, List, [], ◌∷◌, get_elem?, set, ltb, if◌then◌else◌, u8, replicate,
}
use open_bc.Handshake.Build.{
  build_checksum_request, build_checksum_request_final, build_bootplayer, rounds,
}
use open_bc.Handshake.Response.{checksum_response_parse}
use open_bc.Peers.{
  Peer, PeerState, empty, connecting, checksumming, checksumming_final, lobby, in_game, is_empty,
}
use open_bc.Sending.Relay.{Phase}
use open_bc.Server.{Server, queue_to, flush_slot, if_built, next32, set_peer}
use open_bc.Server.Enter.{queue_for, send_checksum_request, send_settings_and_gameinit}
use open_bc.Server.Answer.{
  boot_peer, boot_checksum, is_accepted, passes, send_final_request, advance_round, is_parsed,
  answer_in, answer_of, handle_checksum_response,
}
use open_bc.Server.Phases.{
  Policy, View, view, Stays, queue_to-Stays, flush_slot-Stays, if_built-Stays,
}
use open_bc.Server.Moves.{
  moved, Stands, peer_of, missing_peer, set_peer-moved, handle_peer_disconnect-moved,
  send_settings-moved,
}

-- The verdict on a response in a round.
unfoldable pub accepts : Policy → ℕ → List ℕ → Bool
accepts (no_checksum, manifest_loaded, dirs) round payload =
    if no_checksum || not manifest_loaded
    then true
    else passes (checksum_response_parse payload) (get_elem? dirs round)

-- After a round: the next one, or the final one.
abbrev pub round_after : ℕ → Phase
round_after round = if ltb round rounds then (checksumming, round) else (checksumming_final, round)

-- Where a response takes a peer.
abbrev pub judged : Policy → List ℕ → PeerState → ℕ → Phase
judged c payload checksumming round =
    if accepts c round payload then round_after (u8 (round + 1)) else (empty, 0)
judged c payload checksumming_final round =
    if is_parsed (checksum_response_parse payload) then (lobby, round) else (empty, 0)
judged c payload empty round = (empty, round)
judged c payload connecting round = (connecting, round)
judged c payload lobby round = (lobby, round)
judged c payload in_game round = (in_game, round)

kept :
    (slot : ℕ) (q : Phase) (s s' : Server)
    → view s' ≡ view s
    → Stands slot q (view s)
    → Stands slot q (view s')
kept slot q s s' same h = ap (λ (v : View). get_elem? v.0 slot) same ∙ h

boot_peer-moved :
    (slot now_ms : ℕ) (s : Server) (q : Phase)
    → Stands slot q (view s)
    → is_empty q.0 ≡ false
    → view (boot_peer slot now_ms s) ≡ moved slot (empty, 0) (view s)
unfolding boot_peer
boot_peer-moved slot now_ms s q h occupied =
    handle_peer_disconnect-moved slot now_ms told q (kept slot q s told same h) occupied
    ∙ ap (moved slot (empty, 0)) same
  where
    told : Server
    told =
        if_built (build_bootplayer boot_checksum (replicate 4 0) 4) (queue_for slot now_ms)
          (record s { boots_checksum = next32 s.boots_checksum })

    same : view told ≡ view s
    same =
        if_built-Stays (build_bootplayer boot_checksum (replicate 4 0) 4) (queue_for slot now_ms)
          (λ payload len. queue_to-Stays slot payload len now_ms) _

asked-Stays :
    (slot now_ms : ℕ) (r : Option ℕ × List ℕ)
    → Stays (if_built r (λ payload len s. flush_slot slot (queue_to slot payload len now_ms s)))
asked-Stays slot now_ms r =
    if_built-Stays r (λ payload len s. flush_slot slot (queue_to slot payload len now_ms s))
      (λ payload len s.
        flush_slot-Stays slot (queue_to slot payload len now_ms s)
        ∙ queue_to-Stays slot payload len now_ms s)

send_checksum_request-Stays :
    (slot round now_ms : ℕ) → Stays (send_checksum_request slot round now_ms)
unfolding send_checksum_request
send_checksum_request-Stays slot round now_ms =
    asked-Stays slot now_ms (build_checksum_request round (replicate 256 0) 256)

send_final_request-Stays : (slot now_ms : ℕ) → Stays (send_final_request slot now_ms)
unfolding send_final_request
send_final_request-Stays slot now_ms =
    asked-Stays slot now_ms (build_checksum_request_final (replicate 256 0) 256)

-- The round that comes next is asked for.
pub advance_round-moved :
    (slot round now_ms : ℕ) (s : Server) (old : ℕ)
    → Stands slot (checksumming, old) (view s)
    → view (advance_round slot round now_ms s) ≡ moved slot (round_after round) (view s)
unfolding advance_round
advance_round-moved slot round now_ms s old h = either (ltb round rounds)
  where
    s1 : Server
    s1 = set_peer slot (λ p. record p { checksum_round = round }) s

    there : view s1 ≡ moved slot (checksumming, round) (view s)
    there =
        set_peer-moved slot (λ p. record p { checksum_round = round }) s (checksumming, old)
          (checksumming, round) h (λ p e. ap (λ (q : Phase). (q.0, round)) e)

    asked : Server
    asked = send_final_request slot now_ms s1

    asked-view : view asked ≡ moved slot (checksumming, round) (view s)
    asked-view = send_final_request-Stays slot now_ms s1 ∙ there

    stands : Stands slot (checksumming, round) (view asked)
    stands =
        ap (λ (v : View). get_elem? v.0 slot) asked-view
        ∙ get_elem?-set (view s).0 slot (checksumming, old) (checksumming, round) h

    either :
        (x : Bool)
        → view (
            if x
            then send_checksum_request slot round now_ms s1
            else set_peer slot (λ p. record p { state = checksumming_final }) asked)
          ≡ moved slot (if x then (checksumming, round) else (checksumming_final, round)) (view s)
    either true = send_checksum_request-Stays slot round now_ms s1 ∙ there
    either false =
        set_peer-moved slot (λ p. record p { state = checksumming_final }) asked
          (checksumming, round) (checksumming_final, round) stands
          (λ p e. ap (λ (q : Phase). (checksumming_final, q.1)) e)
        ∙ ap (moved slot (checksumming_final, round)) asked-view
        ∙ ap (λ (l : List Phase). (l, (view s).1))
            (set-set (view s).0 slot (checksumming, round) (checksumming_final, round))

set_same :
    (ps : List Phase) (slot : ℕ) (q : Phase) → get_elem? ps slot ≡ some q → set ps slot q ≡ ps
set_same [] slot q h = refl
set_same (p ∷ ps) zero q h = let is : q ≡ p = cc h in ap (λ (x : Phase). x ∷ ps) is
set_same (p ∷ ps) (suc slot) q h = ap (λ l. p ∷ l) (set_same ps slot q h)

stays_put :
    (slot : ℕ) (q : Phase) (s : Server) → Stands slot q (view s) → view s ≡ moved slot q (view s)
stays_put slot q s h = ap (λ (l : List Phase). (l, (view s).1)) (sym (set_same (view s).0 slot q h))

answer_in-moved :
    (state : PeerState) (round slot : ℕ) (payload : List ℕ) (now_ms : ℕ) (s : Server)
    → Stands slot (state, round) (view s)
    → view (answer_in state round slot payload now_ms s)
      ≡ moved slot (judged (view s).1 payload state round) (view s)
unfolding is_accepted accepts
answer_in-moved checksumming round slot payload now_ms s h =
    either (accepts (view s).1 round payload)
  where
    either :
        (x : Bool)
        → view (if x then advance_round slot (u8 (round + 1)) now_ms s else boot_peer slot now_ms s)
          ≡ moved slot (if x then round_after (u8 (round + 1)) else (empty, 0)) (view s)
    either true = advance_round-moved slot (u8 (round + 1)) now_ms s round h
    either false = boot_peer-moved slot now_ms s (checksumming, round) h refl
answer_in-moved checksumming_final round slot payload now_ms s h =
    either (is_parsed (checksum_response_parse payload))
  where
    either :
        (x : Bool)
        → view (if x then send_settings_and_gameinit slot now_ms s else boot_peer slot now_ms s)
          ≡ moved slot (if x then (lobby, round) else (empty, 0)) (view s)
    either true = send_settings-moved slot now_ms s (checksumming_final, round) h
    either false = boot_peer-moved slot now_ms s (checksumming_final, round) h refl
answer_in-moved empty round slot payload now_ms s h = stays_put slot (empty, round) s h
answer_in-moved connecting round slot payload now_ms s h = stays_put slot (connecting, round) s h
answer_in-moved lobby round slot payload now_ms s h = stays_put slot (lobby, round) s h
answer_in-moved in_game round slot payload now_ms s h = stays_put slot (in_game, round) s h

-- A response takes its peer where the verdict says, and nobody else anywhere: from a round to the next one, from
-- the last to the final one, from there to the lobby, out of the table on a refusal; in any other state nothing
-- moves. The settings stay.
pub handle_checksum_response-moved :
    (slot : ℕ) (payload : List ℕ) (now_ms : ℕ) (s : Server) (q : Phase)
    → Stands slot q (view s)
    → view (handle_checksum_response slot payload now_ms s)
      ≡ moved slot (judged (view s).1 payload q.0 q.1) (view s)
unfolding handle_checksum_response
handle_checksum_response-moved slot payload now_ms s q h =
    let (p, at_p, is) = peer_of slot q s h in
    ap (λ (o : Option Peer). view (answer_of slot payload now_ms o s)) at_p
    ∙ answer_in-moved p.state p.checksum_round slot payload now_ms s (h ∙ ap some (sym is))
    ∙ ap (λ (x : Phase). moved slot (judged (view s).1 payload x.0 x.1) (view s)) is

-- A response to a slot out of the table is ignored.
pub handle_checksum_response-missing :
    (slot : ℕ) (payload : List ℕ) (now_ms : ℕ) (s : Server)
    → get_elem? (view s).0 slot ≡ none
    → view (handle_checksum_response slot payload now_ms s) ≡ view s
unfolding handle_checksum_response
handle_checksum_response-missing slot payload now_ms s h =
    ap (λ (o : Option Peer). view (answer_of slot payload now_ms o s)) (missing_peer slot s h)
