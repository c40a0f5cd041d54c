-- ===== src/Server/Run.antt =====
-- The handlers of src/server/server_handshake.c in any order and number, with the answers that each slot has given
-- since it was last free.
pub mod Keeps
pub mod Earned
use open_bc.Base.{
  ℕ, zero, suc, ◌+◌, ◌<◌, ◌≡◌, ◌≢◌, ◌⊎◌, inl, inr, Bool-cases, Option-cases, ==_iff, if_true,
  if_false, ltb→lt, subst, refl, sym, ap, ◌∙◌, arith, Bool, true, false, not, Option, none, some,
}
use open_bc.Base.{
  List, [], ◌∷◌, ◌++◌, get_elem?, set, ltb, ◌==◌, if◌then◌else◌, by_branch, replicate, u8,
}
use open_bc.Handshake.Build.{rounds}
use open_bc.Handshake.Response.{ChecksumResp, checksum_response_parse}
use open_bc.Peers.{
  Addr, PeerState, empty, connecting, checksumming, checksumming_final, lobby, in_game, is_empty,
}
use open_bc.Sending.Relay.{Phase}
use open_bc.Server.{Server}
use open_bc.Server.Leave.{handle_peer_disconnect}
use open_bc.Server.Connect.{handle_connect}
use open_bc.Server.Answer.{is_parsed, handle_checksum_response}
use open_bc.Server.Phases.{Policy, View, view}
use open_bc.Server.Moves.{
  moved, Stands, handle_peer_disconnect-moved, handle_peer_disconnect-either,
}
use open_bc.Server.Rounds.{
  accepts, round_after, judged, handle_checksum_response-moved, handle_checksum_response-missing,
}
use open_bc.Server.Seats.{Seated, handle_connect-moved}

abbrev pub Log : Type 0
Log = ℕ → List (List ℕ)

abbrev pub was_free : Option Phase → Bool
was_free none = true
was_free (some q) = is_empty q.0

-- A free slot's answers are forgotten.
abbrev pub forgotten : View → Log → Log
forgotten v log slot = if was_free (get_elem? v.0 slot) then [] else log slot

-- An answer, the newest first
abbrev pub noted : ℕ → List ℕ → Log → Log
noted slot payload log i = if i == slot then payload ∷ log i else log i

-- `main` seats the server itself in slot 0.
abbrev pub IsStart : Policy → Server → Type 0
IsStart c s = view s ≡ ((lobby, 0) ∷ replicate 8 (empty, 0), c)

pub data Run (c : Policy) : Server → Log → Type 0 where
  start : (s : Server) → IsStart c s → Run c s (λ _. [])
  connect :
      {s : Server} {log : Log}
      → Run c s log
      → (a : Addr) (now_ms : ℕ) → Run c (handle_connect a now_ms s) (forgotten (view s) log)
  answer :
      {s : Server} {log : Log}
      → Run c s log
      → (slot : ℕ) (payload : List ℕ) (now_ms : ℕ)
      → Run c (handle_checksum_response slot payload now_ms s) (noted slot payload log)
  leave :
      {s : Server} {log : Log}
      → Run c s log
      → (slot now_ms : ℕ) → Run c (handle_peer_disconnect slot now_ms s) log

-- The answers are those to the rounds below `n`, and each was accepted.
abbrev pub Passed : Policy → ℕ → List (List ℕ) → Type 0
Passed c zero answers = answers ≡ []
Passed c (suc n) [] = ⊥
Passed c (suc n) (payload ∷ answers) = (accepts c n payload ≡ true) × Passed c n answers

-- All rounds were passed, then the final answer was a well-formed one; what follows is of no account.
pub record Entered (c : Policy) (answers : List (List ℕ)) : Type 0 where
  pub later : List (List ℕ)
  pub final : List ℕ
  pub earlier : List (List ℕ)
  pub split : answers ≡ later ++ (final ∷ earlier)
  pub well_formed : is_parsed (checksum_response_parse final) ≡ true
  pub passed : Passed c rounds earlier

-- What a slot has done for its state.
abbrev pub Earned : Policy → List (List ℕ) → PeerState → ℕ → Type 0
Earned c answers empty round = Unit
Earned c answers connecting round = ⊥
Earned c answers checksumming round = (round < rounds) × Passed c round answers
Earned c answers checksumming_final round = Passed c rounds answers
Earned c answers lobby round = Entered c answers
Earned c answers in_game round = Entered c answers

-- Each slot but the server's own has earned its state, under the settings `c`.
abbrev pub IsEarned : Policy → Server → Log → Type 0
IsEarned c s log =
    ((slot : ℕ) (q : Phase) → 0 < slot → Stands slot q (view s) → Earned c (log slot) q.0 q.1)
    × ((view s).1 ≡ c)
