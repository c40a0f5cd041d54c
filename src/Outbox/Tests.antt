-- ===== src/Outbox/Tests.antt =====
-- An outbox at work.
use open_bc.Base.{ℕ, ◌≡◌, refl, arith, true, false, some, List, [], ◌∷◌, replicate}
use open_bc.Outbox.{Outbox, outbox_init, flush}
use open_bc.Outbox.Queue.{Holds, Accepts, add, add-Holds, add_refuses}
use open_bc.Outbox.Flush.{outbox_init-Holds}
use open_bc.Outbox.Delivery.{Receives, flush-Receives}
use open_bc.Transport.Wire.{Sent, reliable, keepalive_data}

abbrev fresh : Outbox
fresh = record { buf = replicate 512 0; pos = 2; msg_count = 0 }

fresh-Holds : Holds fresh []
unfolding outbox_init
fresh-Holds = outbox_init-Holds fresh refl

abbrev score : Sent
score = reliable (0x37 ∷ 0x01 ∷ []) 4

add-Holds_example : ((add score fresh).0 ≡ true) × Holds (add score fresh).1 (score ∷ [])
add-Holds_example = add-Holds score fresh [] fresh-Holds (omega arith, omega arith)

-- 300 bytes do not fit in a length byte.
abbrev too_long : Sent
too_long = keepalive_data (replicate 300 0)

too_long_not_accepted : ¬ Accepts too_long fresh
too_long_not_accepted h = absurd (omega (arith, h.1))

add_refuses_here : add too_long fresh ≡ (false, fresh)
add_refuses_here = add_refuses too_long fresh too_long_not_accepted

flush-Receives_example :
    (datagram : List ℕ) × ((flush (add score fresh).1).0 ≡ some datagram)
    × Receives datagram (score ∷ [])
    × Holds (flush (add score fresh).1).1 []
flush-Receives_example =
    flush-Receives (add score fresh).1 score []
      (add-Holds score fresh [] fresh-Holds (omega arith, omega arith)).1 (omega arith, tt)
      (
        omega arith,
        (
          omega arith,
          (omega arith, (omega arith, (omega arith, (omega arith, (omega arith, tt))))),
        ),
      )
