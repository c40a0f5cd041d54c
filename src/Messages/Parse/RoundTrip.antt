-- ===== src/Messages/Parse/RoundTrip.antt =====
-- The parser of chat messages in game_events.c against the builder of game_builders.c.
use open_bc.Base.{ℕ, ◌≤◌, ◌<◌, ◌^◌, ◌≡◌, refl, sym, ap, subst, ◌∙◌, arith, Bool, true, some}
use open_bc.Base.{
  List, [], ◌∷◌, ◌++◌, length, length-append, take, drop, take_of_append, ltb, ◌==◌, ◌||◌,
  if◌then◌else◌, if_true, u16,
}
use mathlib.Core.List.{append-nil}
use open_bc.Buffer.{remaining}
use open_bc.Buffer.Reads.{Takes, ahead_fits, read_u8-Takes, read_u16-Takes, read_bytes-Takes}
use open_bc.Buffer.Seq.{◌>>=◌, pure, parse_lem, Takes->>=, Takes-pure, Takes-guard}
use open_bc.Messages.Build.{build_chat}
use open_bc.Messages.Build.Wire.{chat, wire}
use open_bc.Messages.Build.Writes.{build_message-wire}
use open_bc.Messages.Parse.{
  parse_chat_message, ChatEvent, read_chat, read_clamped, read_some, clamp,
}

read_some-Takes : (t : List ℕ) → length t < 2 ^ 63 → Takes (read_some (length t)) t t
read_some-Takes [] short = Takes-pure []
read_some-Takes (x ∷ t) short =
    let nonempty : ltb 0 (length (x ∷ t)) ≡ true = ground arith in
    subst (λ r. Takes r (x ∷ t) (x ∷ t)) (sym (if_true (pure []) nonempty))
      (read_bytes-Takes (x ∷ t) short)

-- A text that needs no clamping.
read_clamped-Takes : (t : List ℕ) → length t ≤ 255 → Takes (read_clamped (length t)) t t
read_clamped-Takes t short = record {
  takes = λ b rest v e.
      let left : length t ≤ remaining b =
        unfold remaining in ground (arith, ahead_fits b t rest v e, v.inside) in
      let unclamped : clamp (remaining b) (length t) ≡ length t = ground (arith, left) in
      ap (λ n. read_some n b) unclamped ∙ (read_some-Takes t (omega arith)).takes b rest v e;
}

read_chat-Takes :
    (slot : ℕ) (team : Bool) (text : List ℕ)
    → length text ≤ 255
    → Takes read_chat (wire (chat slot team text)) (record { sender_slot = slot; message = text })
read_chat-Takes slot team text short = Takes->>= _ (read_u8-Takes op) (
    Takes-guard known (
      Takes->>= _ (read_u8-Takes slot) (
        Takes->>= _ (read_bytes-Takes (0 ∷ 0 ∷ 0 ∷ []) (omega arith))
          (Takes->>= _ (read_u16-Takes (u16 (length text)) (omega arith)) message))))
  where
    op : ℕ
    op = if team then 0x2d else 0x2c

    known : (op == 0x2c || op == 0x2d) ≡ true
    known = ground arith

    event : List ℕ → ChatEvent
    event t = record { sender_slot = slot; message = t }

    whole : u16 (length text) ≡ length text
    whole = omega arith

    message : Takes (read_clamped (u16 (length text)) >>= λ t. pure (event t)) text (event text)
    message =
        coe 1 0 (i. Takes (read_clamped (whole i) >>= λ t. pure (event t)) text (event text)) (
          subst (λ l. Takes (read_clamped (length text) >>= λ t. pure (event t)) l (event text))
            (append-nil text)
            (Takes->>= (λ t. pure (event t)) (read_clamped-Takes text short)
              (Takes-pure (event text))))

-- What `bc_build_chat` makes of a text of at most 255 bytes arrives: into an array with room for it, the
-- builder writes a packet from which `bc_parse_chat_message` reads the sender's slot and the whole text.
pub parse_chat_message-build_chat :
    (slot : ℕ) (team : Bool) (text out : List ℕ)
    → length text ≤ 255
    → length out < 2 ^ 63
    → length (wire (chat slot team text)) ≤ length out
    → (n : ℕ) × ((build_chat slot team text out (length out)).0 ≡ some n)
      × (parse_chat_message (take n (build_chat slot team text out (length out)).1)
          ≡ some (record { sender_slot = slot; message = text }))
unfolding parse_chat_message
parse_chat_message-build_chat slot team text out short small room = (
  length (wire (chat slot team text)),
  ap (λ r. r.0) built,
  ap (λ r. parse_chat_message (take (length (wire (chat slot team text))) r.1)) built
      ∙ ap parse_chat_message (
          take_of_append (wire (chat slot team text)) _ _ refl
          ∙ sym (append-nil (wire (chat slot team text))))
      ∙ parse_lem [] reads (omega (arith, length-append (wire (chat slot team text)) [])),
)
  where
    built : build_chat slot team text out (length out) ≡ (
      some (length (wire (chat slot team text))),
      wire (chat slot team text) ++ drop (length (wire (chat slot team text))) out,
    )
    built = build_message-wire (chat slot team text) out small room

    reads :
        Takes read_chat (wire (chat slot team text)) (record { sender_slot = slot; message = text })
    reads = read_chat-Takes slot team text short
