-- ===== src/Server/Limit/Ring.antt =====
-- The ring of disconnected addresses in src/server/server_handshake.c, and the connection requests that it refuses.
use open_bc.Base.{ℕ, zero, suc, ◌+◌, ◌%◌, ◌<◌, ◌≡◌, ◌≢◌, refl, ap, ◌∙◌, arith, Bool, true, some}
use open_bc.Base.{
  List, [], ◌∷◌, ◌&&◌, length, get_elem?, set, ltb, if_true, by_branch, sub32, lt→ltb, ==_iff,
}
use open_bc.Server.{Server, ConnectAttempt}
use open_bc.Server.Limit.{
  rate_limit_ms, rate_slots, record_disconnect_ip, too_soon, any_too_soon, connect_rate_limited,
}

-- The ring has its sixteen slots.
abbrev pub IsRing : Server → Type 0
IsRing s = (length s.connect_history ≡ rate_slots) × (s.connect_history_idx < rate_slots)

-- Disconnections, the oldest first
abbrev pub record_all : List (ℕ × ℕ) → Server → Server
record_all [] s = s
record_all ((ip, ms) ∷ rest) s = record_all rest (record_disconnect_ip ip ms s)

attempt_at :
    (as' : List ConnectAttempt) (i : ℕ) (a : ConnectAttempt)
    → i < length as'
    → get_elem? (set as' i a) i ≡ some a
attempt_at [] i a h = absurd (omega (arith, h))
attempt_at (b ∷ bs) zero a h = refl
attempt_at (b ∷ bs) (suc i) a h = attempt_at bs i a (omega (arith, h))

attempt_other :
    (bs : List ConnectAttempt) (k i : ℕ) (a : ConnectAttempt)
    → i ≢ k
    → get_elem? (set bs k a) i ≡ get_elem? bs i
attempt_other [] k i a h = refl
attempt_other (b ∷ bs) zero zero a h = absurd (h refl)
attempt_other (b ∷ bs) zero (suc i) a h = refl
attempt_other (b ∷ bs) (suc k) zero a h = refl
attempt_other (b ∷ bs) (suc k) (suc i) a h = attempt_other bs k i a (λ e. h (ap suc e))

any_too_soon-here :
    (ip now_ms : ℕ) (bs : List ConnectAttempt) (i : ℕ) (a : ConnectAttempt)
    → get_elem? bs i ≡ some a
    → too_soon ip now_ms a ≡ true
    → any_too_soon ip now_ms bs ≡ true
any_too_soon-here ip now_ms [] i a h soon = absurd (cc h)
any_too_soon-here ip now_ms (b ∷ bs) zero a h soon =
    let is : b ≡ a = cc h in if_true (any_too_soon ip now_ms bs) (ap (too_soon ip now_ms) is ∙ soon)
any_too_soon-here ip now_ms (b ∷ bs) (suc i) a h soon =
    by_branch (λ (x : Bool). x ≡ true) (too_soon ip now_ms b) (λ _. refl)
      (λ _. any_too_soon-here ip now_ms bs i a h soon)

-- The entry in slot `k` outlives `length rest` more disconnections, if `j` slots have been written since and the
-- ring is not full.
kept_entry :
    (rest : List (ℕ × ℕ)) (s : Server) (k j : ℕ) (a : ConnectAttempt)
    → k < rate_slots
    → s.connect_history_idx ≡ (k + 1 + j) % rate_slots
    → length rest + j < rate_slots
    → get_elem? s.connect_history k ≡ some a
    → get_elem? (record_all rest s).connect_history k ≡ some a
unfolding record_disconnect_ip
kept_entry [] s k j a hk at fits h = h
kept_entry ((ip, ms) ∷ rest) s k j a hk at fits h =
    kept_entry rest (record_disconnect_ip ip ms s) k (j + 1) a hk (omega (arith, at))
      (omega (arith, fits))
      (attempt_other s.connect_history s.connect_history_idx k
          (record { ip = ip; disconnect_ms = ms }) (λ e. omega (arith, e, at, hk, fits))
        ∙ h)

too_soon-itself :
    (ip t now_ms : ℕ)
    → sub32 now_ms t < rate_limit_ms
    → too_soon ip now_ms (record { ip = ip; disconnect_ms = t }) ≡ true
too_soon-itself ip t now_ms soon =
    ap (λ (x : Bool). x && ltb (sub32 now_ms t) rate_limit_ms) ((==_iff ip ip).1 refl)
    ∙ lt→ltb (sub32 now_ms t) rate_limit_ms soon

pub reconnect_limited :
    (ip t now_ms : ℕ) (rest : List (ℕ × ℕ)) (s : Server)
    → IsRing s
    → length rest < rate_slots
    → sub32 now_ms t < rate_limit_ms
    → connect_rate_limited ip now_ms (record_all rest (record_disconnect_ip ip t s)) ≡ true
unfolding record_disconnect_ip connect_rate_limited
reconnect_limited ip t now_ms rest s ring few soon =
    any_too_soon-here ip now_ms (record_all rest (record_disconnect_ip ip t s)).connect_history
      s.connect_history_idx here
      (kept_entry rest (record_disconnect_ip ip t s) s.connect_history_idx 0 here ring.1
        (omega arith) (omega (arith, few))
        (attempt_at s.connect_history s.connect_history_idx here (omega (arith, ring.0, ring.1))))
      (too_soon-itself ip t now_ms soon)
  where
    here : ConnectAttempt
    here = record { ip = ip; disconnect_ms = t }
