-- ===== src/Reliable/Tests.antt =====
-- A reliable queue at work.
use open_bc.Base.{◌≡◌, ◌↔◌, refl, arith, true, false, none, some, [], ◌∷◌}
use open_bc.Base.Scan.{Found}
use mathlib.Core.List.{Perm}
use open_bc.Reliable.{
  ReliableQueue, reliable_init, reliable_add, reliable_ack, check_retransmit, check_timeout, is_due,
  resent,
}
use open_bc.Reliable.Inv.{IsValid}
use open_bc.Reliable.Contents.{waiting, reliable_add-waiting}
use open_bc.Reliable.Retransmit.{check_retransmit-Found, SomeGaveUp, check_timeout_iff}
use open_bc.Reliable.Reach.{start, add, resend, ReachableQueue-IsValid}

-- One message, sent just before the clock wraps.
abbrev one : ReliableQueue
one = (reliable_add (0x37 ∷ 0x01 ∷ []) 2 0x400 0xffff_fff0 reliable_init).1

ReachableQueue-IsValid_example : IsValid (check_retransmit 1984 one).1
ReachableQueue-IsValid_example =
    ReachableQueue-IsValid (check_retransmit 1984 one).1
      (resend 1984 (add (0x37 ∷ 0x01 ∷ []) 2 0x400 0xffff_fff0 start))

reliable_add-waiting_example :
    ((reliable_add (0x37 ∷ 0x01 ∷ []) 2 0x400 5 reliable_init).0 ≡ true)
    × Perm
        (waiting (reliable_add (0x37 ∷ 0x01 ∷ []) 2 0x400 5 reliable_init).1.entries)
        ((0x400, 0x37 ∷ 0x01 ∷ []) ∷ waiting reliable_init.entries)
reliable_add-waiting_example =
    reliable_add-waiting (0x37 ∷ 0x01 ∷ []) 0x400 5 reliable_init
      (ReachableQueue-IsValid reliable_init start) (omega arith)
      (unfold reliable_init in omega arith)

one_acknowledged : (reliable_ack 0x400 one).0 ≡ true
unfolding reliable_ack reliable_add reliable_init
one_acknowledged = refl

other_unknown : (reliable_ack 0x500 one).0 ≡ false
unfolding reliable_ack reliable_add reliable_init
other_unknown = refl

-- 2000 ms later the clock has wrapped.
one_due : (check_retransmit 1984 one).0 ≡ some 0
unfolding check_retransmit reliable_add reliable_init
one_due = refl

check_retransmit-Found_here :
    Found (is_due 1984) (resent 1984) one.entries 0 (check_retransmit 1984 one).1.entries
check_retransmit-Found_here = check_retransmit-Found 1984 0 one one_due

one_not_due : (check_retransmit 1983 one).0 ≡ none
unfolding check_retransmit reliable_add reliable_init
one_not_due = refl

check_timeout_iff_here : (check_timeout one ≡ true) ↔ SomeGaveUp one.entries
check_timeout_iff_here = check_timeout_iff one
