-- ===== src/Messages/Tests.antt =====
-- Game messages, built and parsed.
use open_bc.Base.{ℕ, ◌≡◌, refl, arith, true, some, [], ◌∷◌, ◌++◌, length, take, drop, replicate}
use open_bc.Messages.Build.{build_chat}
use open_bc.Messages.Build.Wire.{Message, score_change, wire, build_message}
use open_bc.Messages.Build.Writes.{build_message-wire}
use open_bc.Messages.Parse.{parse_chat_message}
use open_bc.Messages.Parse.RoundTrip.{parse_chat_message-build_chat}

-- Player 2 destroys player 1; player 3 has had a share.
abbrev kill : Message
kill = score_change 2 1 1500 1 1 (record { player_id = 3; score = 250 } ∷ [])

-- Without a killer two fields are left out.
no_killer : length (wire (score_change 0 1 1500 1 1 [])) ≡ 14
no_killer = refl

build_message-wire_example :
    build_message kill (replicate 64 0) 64
    ≡ (some (length (wire kill)), wire kill ++ drop (length (wire kill)) (replicate 64 0))
build_message-wire_example = build_message-wire kill (replicate 64 0) (omega arith) (omega arith)

-- "hi"
parse_chat_message-build_chat_example :
    (n : ℕ) × ((build_chat 4 true (104 ∷ 105 ∷ []) (replicate 64 0) 64).0 ≡ some n)
    × (parse_chat_message (take n (build_chat 4 true (104 ∷ 105 ∷ []) (replicate 64 0) 64).1)
        ≡ some (record { sender_slot = 4; message = 104 ∷ 105 ∷ [] }))
parse_chat_message-build_chat_example =
    parse_chat_message-build_chat 4 true (104 ∷ 105 ∷ []) (replicate 64 0) (omega arith)
      (omega arith) (omega arith)
