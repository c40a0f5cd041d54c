-- ===== src/Server/Limit.antt =====
-- The limit on rapid reconnects in server_handshake.c: a ring of the last sixteen addresses that disconnected.
pub mod Ring
use open_bc.Base.{ℕ, ◌+◌, ◌%◌, Bool, true, false, ◌&&◌, List, [], ◌∷◌}
use open_bc.Base.{ltb, ◌==◌, if◌then◌else◌, set, sub32}
use open_bc.Server.{Server, ConnectAttempt}

-- `BC_CONNECT_RATE_LIMIT_MS`
abbrev pub rate_limit_ms : ℕ
rate_limit_ms = 2000

-- `BC_CONNECT_RATE_SLOTS`
abbrev pub rate_slots : ℕ
rate_slots = 16

unfoldable pub record_disconnect_ip : ℕ → ℕ → Server → Server
record_disconnect_ip ip now_ms s = record s {
  connect_history =
      set s.connect_history s.connect_history_idx (record { ip = ip; disconnect_ms = now_ms });
  connect_history_idx = (s.connect_history_idx + 1) % rate_slots;
}

abbrev pub too_soon : ℕ → ℕ → ConnectAttempt → Bool
too_soon ip now_ms a = a.ip == ip && ltb (sub32 now_ms a.disconnect_ms) rate_limit_ms

abbrev pub any_too_soon : ℕ → ℕ → List ConnectAttempt → Bool
any_too_soon ip now_ms [] = false
any_too_soon ip now_ms (a ∷ attempts) =
    if too_soon ip now_ms a then true else any_too_soon ip now_ms attempts

unfoldable pub connect_rate_limited : ℕ → ℕ → Server → Bool
connect_rate_limited ip now_ms s = any_too_soon ip now_ms s.connect_history
