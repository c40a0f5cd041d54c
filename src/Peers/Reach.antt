-- ===== src/Peers/Reach.antt =====
-- The tables that the operations can make.
use open_bc.Base.{ℕ}
use open_bc.Peers.{Addr, PeerMgr, peers_init, peers_add, peers_remove, peers_timeout}
use open_bc.Peers.Inv.{IsValid, peers_init-IsValid, peers_add-IsValid, peers_remove-IsValid}
use open_bc.Peers.Timeout.{peers_timeout-IsValid}

-- A table reached from the initial one by calls of the operations, with any arguments.
pub data ReachableTable : PeerMgr → Type 0 where
  start : ReachableTable peers_init
  add : (a : Addr) {mgr : PeerMgr} → ReachableTable mgr → ReachableTable (peers_add a mgr).1
  remove : (slot : ℕ) {mgr : PeerMgr} → ReachableTable mgr → ReachableTable (peers_remove slot mgr)
  sweep :
      (now_ms timeout_ms : ℕ) {mgr : PeerMgr}
      → ReachableTable mgr
      → ReachableTable (peers_timeout now_ms timeout_ms mgr).1

-- Whatever calls are made, in whatever order: the table keeps its nine slots, and its count is the number of
-- those that are occupied.
pub ReachableTable-IsValid : (mgr : PeerMgr) → ReachableTable mgr → IsValid mgr
ReachableTable-IsValid mgr start = peers_init-IsValid
ReachableTable-IsValid mgr (add a r) = peers_add-IsValid a _ (ReachableTable-IsValid _ r)
ReachableTable-IsValid mgr (remove slot r) =
    peers_remove-IsValid slot _ (ReachableTable-IsValid _ r)
ReachableTable-IsValid mgr (sweep now_ms timeout_ms r) =
    peers_timeout-IsValid now_ms timeout_ms _ (ReachableTable-IsValid _ r)
