-- ===== src/Server/Run/Keeps.antt =====
-- How a change of one slot keeps what all have earned, in runs of src/server/server_handshake.c.
use open_bc.Base.{get_elem?-set_other}
use open_bc.Base.{
  ℕ, zero, suc, ◌+◌, ◌<◌, ◌≡◌, ◌≢◌, ◌⊎◌, inl, inr, Bool-cases, ==_iff, if_true, if_false, ltb→lt,
  subst, refl, sym, ap, ◌∙◌, arith, true, false, Option, some,
}
use open_bc.Base.{List, [], ◌∷◌, get_elem?, set, ltb, ◌==◌, if◌then◌else◌, by_branch, replicate, u8}
use open_bc.Handshake.Build.{rounds}
use open_bc.Handshake.Response.{checksum_response_parse}
use open_bc.Peers.{
  PeerState, empty, connecting, checksumming, checksumming_final, lobby, in_game, is_empty,
}
use open_bc.Sending.Relay.{Phase}
use open_bc.Server.{Server}
use open_bc.Server.Answer.{is_parsed}
use open_bc.Server.Phases.{Policy, View, view}
use open_bc.Server.Moves.{moved, Stands}
use open_bc.Server.Rounds.{accepts, round_after, judged}
use open_bc.Server.Run.{Log, forgotten, noted, was_free, Passed, Entered, Earned, IsEarned}

after_round :
    (c : Policy) (answers : List (List ℕ)) (round : ℕ)
    → round < rounds
    → Passed c (suc round) answers
    → Earned c answers (round_after (u8 (round + 1))).0 (round_after (u8 (round + 1))).1
after_round c answers round h p =
    by_branch (λ (q : Phase). Earned c answers q.0 q.1) (ltb (u8 (round + 1)) rounds)
      (λ t. (ltb→lt (u8 (round + 1)) rounds t, subst (λ n. Passed c n answers) (sym next) p))
      (λ t. subst (λ n. Passed c n answers) (full t) p)
  where
    next : u8 (round + 1) ≡ suc round
    next = omega (arith, h)

    full : ltb (u8 (round + 1)) rounds ≡ false → suc round ≡ rounds
    full t = ground (arith, next, h)

one_later :
    (c : Policy) (payload : List ℕ) (answers : List (List ℕ))
    → Entered c answers
    → Entered c (payload ∷ answers)
one_later c payload answers h = record {
  later = payload ∷ h.later;
  final = h.final;
  earlier = h.earlier;
  split = ap (λ l. payload ∷ l) h.split;
  well_formed = h.well_formed;
  passed = h.passed;
}

-- One more answer.
pub Earned-judged :
    (c : Policy) (payload : List ℕ) (answers : List (List ℕ)) (state : PeerState) (round : ℕ)
    → Earned c answers state round
    → Earned c (payload ∷ answers) (judged c payload state round).0 (judged c payload state round).1
Earned-judged c payload answers empty round h = tt
Earned-judged c payload answers connecting round h = h
Earned-judged c payload answers checksumming round h =
    by_branch (λ (q : Phase). Earned c (payload ∷ answers) q.0 q.1) (accepts c round payload)
      (λ t. after_round c (payload ∷ answers) round h.0 (t, h.1)) (λ _. tt)
Earned-judged c payload answers checksumming_final round h =
    by_branch (λ (q : Phase). Earned c (payload ∷ answers) q.0 q.1)
      (is_parsed (checksum_response_parse payload))
      (λ t. record {
        later = [];
        final = payload;
        earlier = answers;
        split = refl;
        well_formed = t;
        passed = h;
      })
      (λ _. tt)
Earned-judged c payload answers lobby round h = one_later c payload answers h
Earned-judged c payload answers in_game round h = one_later c payload answers h

get_elem?-set_same :
    (ps : List Phase) (slot : ℕ) (q r : Phase) → get_elem? (set ps slot q) slot ≡ some r → r ≡ q
get_elem?-set_same [] slot q r h = absurd (cc h)
get_elem?-set_same (p ∷ ps) zero q r h = cc h
get_elem?-set_same (p ∷ ps) (suc slot) q r h = get_elem?-set_same ps slot q r h

pub get_elem?-replicate : (n i : ℕ) (x q : Phase) → get_elem? (replicate n x) i ≡ some q → q ≡ x
get_elem?-replicate zero i x q h = absurd (cc h)
get_elem?-replicate (suc n) zero x q h = cc h
get_elem?-replicate (suc n) (suc i) x q h = get_elem?-replicate n i x q h

same_or_other : (i k : ℕ) → (i ≡ k) ⊎ (i ≢ k)
same_or_other i k = elim (Bool-cases (i == k)) [
  | inl t ↦ inl ((==_iff i k).0 t)
  | inr t ↦ inr (λ e. let no : true ≡ false = sym ((==_iff i k).1 e) ∙ t in cc no)
]

-- What other slots have earned is not lost.
abbrev pub Keeps : Policy → Server → Log → Log → ℕ → Type 0
Keeps c s log log' i =
    (r : Phase) → Stands i r (view s) → Earned c (log i) r.0 r.1 → Earned c (log' i) r.0 r.1

pub IsEarned-same :
    (c : Policy) (s s' : Server) (log log' : Log)
    → IsEarned c s log
    → view s' ≡ view s
    → ((i : ℕ) → Keeps c s log log' i)
    → IsEarned c s' log'
IsEarned-same c s s' log log' h same keeps = (
  λ i r positive at_r.
      let before : Stands i r (view s) = sym (ap (λ (v : View). get_elem? v.0 i) same) ∙ at_r in
      keeps i r before (h.0 i r positive before),
  ap (λ (v : View). v.1) same ∙ h.1,
)

-- A change of one slot that earns what it gives.
pub IsEarned-moved :
    (c : Policy) (s s' : Server) (log log' : Log) (slot : ℕ) (q : Phase)
    → IsEarned c s log
    → view s' ≡ moved slot q (view s)
    → ((i : ℕ) → i ≢ slot → Keeps c s log log' i)
    → (0 < slot → Earned c (log' slot) q.0 q.1)
    → IsEarned c s' log'
IsEarned-moved c s s' log log' slot q h move keeps earned = (one, ap (λ (v : View). v.1) move ∙ h.1)
  where
    one : (i : ℕ) (r : Phase) → 0 < i → Stands i r (view s') → Earned c (log' i) r.0 r.1
    one i r positive at_r =
        let there : get_elem? (set (view s).0 slot q) i ≡ some r =
          sym (ap (λ (v : View). get_elem? v.0 i) move) ∙ at_r in
        elim (same_or_other i slot) [
          | inl same ↦
              let is : r ≡ q =
                get_elem?-set_same (view s).0 slot q r
                  (ap (λ k. get_elem? (set (view s).0 slot q) k) (sym same) ∙ there) in
              subst (λ (x : Phase). Earned c (log' i) x.0 x.1) (sym is)
                (subst (λ k. Earned c (log' k) q.0 q.1) (sym same)
                  (earned (omega (arith, same, positive))))
          | inr other ↦
              let before : Stands i r (view s) =
                sym (get_elem?-set_other (view s).0 slot i q other) ∙ there in
              keeps i other r before (h.0 i r positive before)
        ]

noted_other :
    (slot : ℕ) (payload : List ℕ) (log : Log) (i : ℕ) → i ≢ slot → noted slot payload log i ≡ log i
noted_other slot payload log i other = elim (Bool-cases (i == slot)) [
  | inl t ↦ absurd (other ((==_iff i slot).0 t))
  | inr t ↦ if_false (payload ∷ log i) t
]

pub noted_same :
    (slot : ℕ) (payload : List ℕ) (log : Log) → noted slot payload log slot ≡ payload ∷ log slot
noted_same slot payload log = if_true (log slot) ((==_iff slot slot).1 refl)

pub noted-Keeps :
    (c : Policy) (s : Server) (slot : ℕ) (payload : List ℕ) (log : Log) (i : ℕ)
    → i ≢ slot
    → Keeps c s log (noted slot payload log) i
noted-Keeps c s slot payload log i other r at_r =
    subst (λ answers. Earned c answers r.0 r.1) (sym (noted_other slot payload log i other))

free_or_Earned :
    (c : Policy) (answers : List (List ℕ)) (q : Phase)
    → Earned c answers q.0 q.1
    → Earned c (if is_empty q.0 then [] else answers) q.0 q.1
free_or_Earned c answers (empty, r) h = h
free_or_Earned c answers (connecting, r) h = h
free_or_Earned c answers (checksumming, r) h = h
free_or_Earned c answers (checksumming_final, r) h = h
free_or_Earned c answers (lobby, r) h = h
free_or_Earned c answers (in_game, r) h = h

pub forgotten-Keeps :
    (c : Policy) (s : Server) (log : Log) (i : ℕ) → Keeps c s log (forgotten (view s) log) i
forgotten-Keeps c s log i r at_r h =
    subst (λ (o : Option Phase). Earned c (if was_free o then [] else log i) r.0 r.1) (sym at_r)
      (free_or_Earned c (log i) r h)
