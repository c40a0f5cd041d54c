-- ===== src/Messages/Build/Writes.antt =====
-- What each builder writes, byte by byte.
use open_bc.Base.{
  ℕ, ◌+◌, ◌≤◌, ◌<◌, ◌^◌, ◌≡◌, refl, sym, ap, subst, ◌∙◌, arith, true, false, some, inl, inr,
}
use open_bc.Base.{
  List, [], ◌∷◌, ◌++◌, length, length-append, drop, take_all, copy_at, copy_at-append,
  overwrite_all, ltb, ◌==◌, if◌then◌else◌, if_true, if_false, u8, u16, Bool-cases,
}
use open_bc.Buffer.{write_u8, write_u16, write_i32, write_bytes}
use open_bc.Buffer.Writes.{
  le16, le32, write_u8-Stores, write_u16-Stores, write_u32-Stores, write_bytes-Stores,
}
use open_bc.Buffer.Seq.{
  Write, ◌⨟◌, no_write, build, build_lem, Writes, Writes-⨟, Stores-Writes, no_write-Writes,
}
use open_bc.Messages.Build.{
  Builder, store_whole, ScoreEntry, write_scores, build_object_create_team, build_event_forward,
  build_destroy_obj, build_obj_not_found, build_enter_set, build_chat, build_score_change,
  build_team_message, build_end_game, build_restart_game, build_python_subsystem_event,
  build_python_obj_ptr_event, build_python_exploding_event, build_state_update, build_score,
  build_score_init, build_team_score,
}
use open_bc.Messages.Build.Wire.{
  Message, object_create_team, event_forward, destroy_obj, obj_not_found, enter_set, chat,
  score_change, team_message, end_game, restart_game, python_subsystem_event, python_obj_ptr_event,
  python_exploding_event, state_update, score, score_init, team_score, build_message, wire,
  score_bytes, killer_bytes,
}

pub byte_written : (v : ℕ) → Writes (write_u8 v) (v ∷ [])
byte_written v = Stores-Writes (write_u8-Stores v)

pub long_written : (v : ℕ) → Writes (write_i32 v) (le32 v)
long_written v = Stores-Writes (write_u32-Stores v)

word_written : (v : ℕ) → Writes (write_u16 v) (le16 v)
word_written v = Stores-Writes (write_u16-Stores v)

text_written : (t : List ℕ) → length t < 2 ^ 63 → Writes (write_bytes t (length t)) t
text_written t short = Stores-Writes (write_bytes-Stores t short)

-- A text that is only written where it is not empty.
some_text_written :
    (t : List ℕ)
    → length t < 2 ^ 63
    → Writes (if ltb 0 (length t) then write_bytes t (length t) else no_write) t
some_text_written [] short = no_write-Writes
some_text_written (x ∷ t) short =
    let nonempty : ltb 0 (length (x ∷ t)) ≡ true = ground arith in
    subst (λ w. Writes w (x ∷ t)) (sym (if_true no_write nonempty)) (text_written (x ∷ t) short)

killer_written :
    (killer kills points : ℕ)
    → Writes
        (if killer == 0 then no_write else (write_i32 kills ⨟ write_i32 points))
        (killer_bytes killer kills points)
killer_written killer kills points = elim (Bool-cases (killer == 0)) [
  | inl none_killed ↦
      coe 1 0
        (i.
          Writes (if none_killed i then no_write else (write_i32 kills ⨟ write_i32 points))
            (if none_killed i then [] else le32 kills ++ le32 points))
        no_write-Writes
  | inr killed ↦
      coe 1 0
        (i.
          Writes (if killed i then no_write else (write_i32 kills ⨟ write_i32 points))
            (if killed i then [] else le32 kills ++ le32 points))
        (Writes-⨟ (long_written kills) (long_written points))
]

scores_written : (es : List ScoreEntry) → Writes (write_scores es) (score_bytes es)
scores_written [] = no_write-Writes
scores_written (e ∷ es) =
    Writes-⨟ (long_written e.player_id) (Writes-⨟ (long_written e.score) (scores_written es))

-- A builder whose packet is `bytes`: it writes them where they fit, and else returns -1.
abbrev pub Does : List ℕ → Builder → Type 0
Does bytes b =
    (out : List ℕ)
    → length out < 2 ^ 63
    → length bytes ≤ length out
    → b out (length out) ≡ (some (length bytes), bytes ++ drop (length bytes) out)

built :
    (w : Write) {bytes : List ℕ} → (length bytes < 2 ^ 63 → Writes w bytes) → Does bytes (build w)
built w {bytes} writes out small fits =
    build_lem out (length out) (writes (omega arith)) refl small fits

pub whole :
    (header bytes : List ℕ) → Does (header ++ bytes) (store_whole header bytes (length bytes))
whole header bytes out small fits = if_false _ room ∙ (λ i. (
  some (total i),
  (ap (λ b. copy_at (copy_at out 0 header) (length header) b) (take_all bytes)
        ∙ copy_at-append out 0 header bytes (length header) (omega arith)
        ∙ overwrite_all out (header ++ bytes) fits)
      i,
))
  where
    total : length header + length bytes ≡ length (header ++ bytes)
    total = sym (length-append header bytes)

    room : ltb (length out) (length header + length bytes) ≡ false
    room = ground (arith, total)

-- Each of the seventeen builders, given an array with room for its message, returns the length of the
-- message's wire format and leaves it in front of the array's old bytes.
pub build_message-wire :
    (m : Message) (out : List ℕ)
    → length out < 2 ^ 63
    → length (wire m) ≤ length out
    → build_message m out (length out)
      ≡ (some (length (wire m)), wire m ++ drop (length (wire m)) out)
unfolding build_object_create_team build_event_forward build_destroy_obj build_obj_not_found
    build_enter_set build_chat build_score_change build_team_message build_end_game
    build_restart_game build_python_subsystem_event build_python_obj_ptr_event
    build_python_exploding_event build_state_update build_score build_score_init build_team_score
build_message-wire (object_create_team owner team blob) = whole (0x03 ∷ owner ∷ team ∷ []) blob
build_message-wire (event_forward opcode bytes) = whole (opcode ∷ []) bytes
build_message-wire (destroy_obj id) = built _ (λ s. Writes-⨟ (byte_written 0x14) (long_written id))
build_message-wire (obj_not_found id) =
    built _ (λ s. Writes-⨟ (byte_written 0x1d) (long_written id))
build_message-wire (enter_set id name) = built _ (λ s. Writes-⨟ (byte_written 0x1f) (
    Writes-⨟ (long_written id) (
      Writes-⨟ (long_written (length name)) (
        Writes-⨟ (some_text_written name (omega (arith, length-append name (0x00 ∷ []))))
          (byte_written 0x00)))))
build_message-wire (chat slot team text) = built _ {bytes = wire (chat slot team text)} (λ s.
    Writes-⨟ (byte_written (if team then 0x2d else 0x2c)) (
      Writes-⨟ (byte_written slot) (
        Writes-⨟ (byte_written 0) (
          Writes-⨟ (byte_written 0) (
            Writes-⨟ (byte_written 0)
              (Writes-⨟ (word_written (u16 (length text))) (text_written text (omega arith))))))))
build_message-wire (score_change killer kills points victim deaths extra) = built _ (λ s.
    Writes-⨟ (byte_written 0x36) (
      Writes-⨟ (long_written killer) (
        Writes-⨟ (killer_written killer kills points) (
          Writes-⨟ (long_written victim) (
            Writes-⨟ (long_written deaths)
              (Writes-⨟ (byte_written (u8 (length extra))) (scores_written extra)))))))
build_message-wire (team_message player team) =
    built _ (λ s. Writes-⨟ (byte_written 0x41) (Writes-⨟ (long_written player) (byte_written team)))
build_message-wire (end_game reason) =
    built _ (λ s. Writes-⨟ (byte_written 0x38) (long_written reason))
build_message-wire restart_game = λ out small fits.
    let room : ltb (length out) 1 ≡ false = ground arith in
    if_false _ room ∙ ap (λ l. (some 1, l)) (overwrite_all out (0x39 ∷ []) fits)
build_message-wire (python_subsystem_event kind source dest) = built _ (λ s.
    Writes-⨟ (byte_written 0x06) (
      Writes-⨟ (long_written 0x101)
        (Writes-⨟ (long_written kind) (Writes-⨟ (long_written source) (long_written dest)))))
build_message-wire (python_obj_ptr_event kind source dest obj) = built _ (λ s.
    Writes-⨟ (byte_written 0x06) (
      Writes-⨟ (long_written 0x10c) (
        Writes-⨟ (long_written kind)
          (Writes-⨟ (long_written source) (Writes-⨟ (long_written dest) (long_written obj))))))
build_message-wire (python_exploding_event source dest firing lifetime) = built _ (λ s.
    Writes-⨟ (byte_written 0x06) (
      Writes-⨟ (long_written 0x8129) (
        Writes-⨟ (long_written 0x80_004e) (
          Writes-⨟ (long_written source) (
            Writes-⨟ (long_written dest)
              (Writes-⨟ (long_written firing) (long_written lifetime)))))))
build_message-wire (state_update id time dirty fields) =
    built _ {bytes = wire (state_update id time dirty fields)} (λ s. Writes-⨟ (byte_written 0x1c) (
      Writes-⨟ (long_written id) (
        Writes-⨟ (long_written time)
          (Writes-⨟ (byte_written dirty) (some_text_written fields (omega arith))))))
build_message-wire (score player kills deaths points) = built _ (λ s. Writes-⨟ (byte_written 0x37) (
    Writes-⨟ (long_written player)
      (Writes-⨟ (long_written kills) (Writes-⨟ (long_written deaths) (long_written points)))))
build_message-wire (score_init player kills deaths points team) = built _ (λ s.
    Writes-⨟ (byte_written 0x3f) (
      Writes-⨟ (long_written player) (
        Writes-⨟ (long_written kills)
          (Writes-⨟ (long_written deaths) (Writes-⨟ (long_written points) (byte_written team))))))
build_message-wire (team_score team kills points) = built _ (λ s.
    Writes-⨟ (byte_written 0x40)
      (Writes-⨟ (byte_written team) (Writes-⨟ (long_written kills) (long_written points))))
