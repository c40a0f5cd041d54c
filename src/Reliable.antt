-- ===== src/Reliable.antt =====
-- The queue of messages that wait for an ACK, src/server/network/reliable.c. Times are `u32`
-- milliseconds, whose difference wraps; the retry count is a `u8`.
pub mod Inv
pub mod Contents
pub mod Retransmit
pub mod Reach
mod Tests
use open_bc.Base.{
  ℕ, zero, suc, ◌+◌, ◌-◌, Bool, true, false, not, ◌&&◌, Option, none, some, List, [], ◌∷◌,
}
use open_bc.Base.{ltb, leb, ◌==◌, if◌then◌else◌, u8, sub32, take, copy_at, replicate}
use open_bc.Base.Scan.{update_first}

-- `bc_reliable_entry_t`
pub record Entry : Type 0 where
  pub payload : List ℕ
  pub payload_len : ℕ
  pub seq : ℕ
  pub send_time : ℕ
  pub retries : ℕ
  pub active : Bool

-- `bc_reliable_queue_t`
pub record ReliableQueue : Type 0 where
  pub entries : List Entry
  pub count : ℕ

abbrev pub queue_size : ℕ
queue_size = 16

abbrev pub max_payload : ℕ
max_payload = 512

abbrev pub retransmit_ms : ℕ
retransmit_ms = 2000

abbrev pub max_retries : ℕ
max_retries = 8

abbrev pub zero_entry : Entry
zero_entry = record {
  payload = replicate max_payload 0;
  payload_len = 0;
  seq = 0;
  send_time = 0;
  retries = 0;
  active = false;
}

unfoldable pub reliable_init : ReliableQueue
reliable_init = record { entries = replicate queue_size zero_entry; count = 0 }

-- The entry of a new message.
abbrev pub filled_entry : List ℕ → ℕ → ℕ → ℕ → Entry → Entry
filled_entry payload payload_len seq now_ms e = record {
  payload = copy_at e.payload 0 (take payload_len payload);
  payload_len = payload_len;
  seq = seq;
  send_time = now_ms;
  retries = 0;
  active = true;
}

abbrev pub is_free : Entry → Bool
is_free e = not e.active

-- What `q` becomes when the loop has changed an entry, and when it has not.
abbrev pub added : ReliableQueue → Option (ℕ × List Entry) → Bool × ReliableQueue
added q none = (false, q)
added q (some (i, es)) = (true, record { entries = es; count = q.count + 1 })

pub reliable_add : List ℕ → ℕ → ℕ → ℕ → ReliableQueue → Bool × ReliableQueue
reliable_add payload payload_len seq now_ms q =
    if ltb max_payload payload_len
    then (false, q)
    else added q (update_first is_free (filled_entry payload payload_len seq now_ms) q.entries)

abbrev pub awaits : ℕ → Entry → Bool
awaits seq e = e.active && e.seq == seq

abbrev pub released : Entry → Entry
released e = record e { active = false }

abbrev pub acknowledged : ReliableQueue → Option (ℕ × List Entry) → Bool × ReliableQueue
acknowledged q none = (false, q)
acknowledged q (some (i, es)) = (true, record { entries = es; count = q.count - 1 })

pub reliable_ack : ℕ → ReliableQueue → Bool × ReliableQueue
reliable_ack seq q = acknowledged q (update_first (awaits seq) released q.entries)

abbrev pub is_due : ℕ → Entry → Bool
is_due now_ms e = e.active && leb retransmit_ms (sub32 now_ms e.send_time)

abbrev pub resent : ℕ → Entry → Entry
resent now_ms e = record e { retries = u8 (e.retries + 1); send_time = now_ms }

abbrev pub retransmitted : ReliableQueue → Option (ℕ × List Entry) → Option ℕ × ReliableQueue
retransmitted q none = (none, q)
retransmitted q (some (i, es)) = (some i, record q { entries = es })

-- The index of the message to send again (`none`: -1).
unfoldable pub check_retransmit : ℕ → ReliableQueue → Option ℕ × ReliableQueue
check_retransmit now_ms q = retransmitted q (update_first (is_due now_ms) (resent now_ms) q.entries)

abbrev pub gave_up : Entry → Bool
gave_up e = e.active && leb max_retries e.retries

abbrev pub any_gave_up : List Entry → Bool
any_gave_up [] = false
any_gave_up (e ∷ es) = if gave_up e then true else any_gave_up es

unfoldable pub check_timeout : ReliableQueue → Bool
check_timeout q = any_gave_up q.entries
