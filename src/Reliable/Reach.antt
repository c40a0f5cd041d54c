-- ===== src/Reliable/Reach.antt =====
-- The queues that the operations can make.
use open_bc.Base.{ℕ, List}
use open_bc.Reliable.{ReliableQueue, reliable_init, reliable_add, reliable_ack, check_retransmit}
use open_bc.Reliable.Inv.{
  IsValid, reliable_init-IsValid, reliable_add-IsValid, reliable_ack-IsValid,
  check_retransmit-IsValid,
}

-- A queue reached from the empty one by calls of the operations, with any arguments.
pub data ReachableQueue : ReliableQueue → Type 0 where
  start : ReachableQueue reliable_init
  add :
      (payload : List ℕ) (payload_len seq now_ms : ℕ) {q : ReliableQueue}
      → ReachableQueue q
      → ReachableQueue (reliable_add payload payload_len seq now_ms q).1
  ack : (seq : ℕ) {q : ReliableQueue} → ReachableQueue q → ReachableQueue (reliable_ack seq q).1
  resend :
      (now_ms : ℕ) {q : ReliableQueue}
      → ReachableQueue q
      → ReachableQueue (check_retransmit now_ms q).1

-- Whatever calls are made, in whatever order: the queue keeps its sixteen slots of 512 bytes, and its count
-- is the number of its active entries.
pub ReachableQueue-IsValid : (q : ReliableQueue) → ReachableQueue q → IsValid q
ReachableQueue-IsValid q start = reliable_init-IsValid
ReachableQueue-IsValid q (add payload payload_len seq now_ms r) =
    reliable_add-IsValid payload payload_len seq now_ms _ (ReachableQueue-IsValid _ r)
ReachableQueue-IsValid q (ack seq r) = reliable_ack-IsValid seq _ (ReachableQueue-IsValid _ r)
ReachableQueue-IsValid q (resend now_ms r) =
    check_retransmit-IsValid now_ms _ (ReachableQueue-IsValid _ r)
