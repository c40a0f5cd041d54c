-- ===== src/Handshake/Build/Reader.antt =====
-- A client that reads the server's handshake packets: which field comes next it takes from the fields before.
use open_bc.Base.{
  ℕ, zero, suc, ◌<◌, ◌≡◌, ◌≢◌, ◌⊎◌, inl, inr, refl, ap, ◌∙◌, arith, Bool, true, false, Option, none,
  some, List, [], ◌∷◌, ◌++◌,
}
use open_bc.Base.{length, ◌==◌, if◌then◌else◌, by_branch, low}
use open_bc.Buffer.{Buffer, init, read_u8, read_u16, read_u32, read_bytes, read_bit}
use open_bc.Buffer.Seq.{Read, ◌>>=◌, pure, fail, proceed, parse}
use open_bc.Buffer.Script.{Item, byte, word, long, text, flag, read_item, read_items}
use open_bc.Handshake.Build.{Round, checksum_round, final_round, is_negative}
use open_bc.Handshake.Build.Packets.{
  Packet, checksum_request, checksum_request_final, settings, gameinit, mission_init, ui_collision,
  bootplayer, delete_player_ui, delete_player_anim, items, request, IsBuildable,
}

-- What is read next.
pub data Kind : Type 0 where
  a_byte : Kind
  a_word : Kind
  a_long : Kind
  a_text : ℕ → Kind
  a_flag : Kind

abbrev pub read_kind : Kind → Read Item
read_kind a_byte = read_u8 >>= λ x. pure (byte x)
read_kind a_word = read_u16 >>= λ x. pure (word x)
read_kind a_long = read_u32 >>= λ x. pure (long x)
read_kind (a_text n) = read_bytes n >>= λ xs. pure (text xs)
read_kind a_flag = read_bit >>= λ x. pure (flag x)

-- A text is as long as the word before it says.
abbrev text_next : Item → Option Kind
text_next (word n) = some (a_text n)
text_next _ = none

abbrev request_next : List Item → Option Kind
request_next [] = some a_byte
request_next (a ∷ []) = some a_word
request_next (a ∷ b ∷ []) = text_next b
request_next (a ∷ b ∷ c ∷ []) = some a_word
request_next (a ∷ b ∷ c ∷ d ∷ []) = text_next d
request_next (a ∷ b ∷ c ∷ d ∷ e ∷ []) = some a_flag
request_next (a ∷ b ∷ c ∷ d ∷ e ∷ f ∷ rest) = none

abbrev settings_next : List Item → Option Kind
settings_next [] = some a_long
settings_next (a ∷ []) = some a_flag
settings_next (a ∷ b ∷ []) = some a_flag
settings_next (a ∷ b ∷ c ∷ []) = some a_byte
settings_next (a ∷ b ∷ c ∷ d ∷ []) = some a_word
settings_next (a ∷ b ∷ c ∷ d ∷ e ∷ []) = text_next e
settings_next (a ∷ b ∷ c ∷ d ∷ e ∷ f ∷ []) = some a_flag
settings_next (a ∷ b ∷ c ∷ d ∷ e ∷ f ∷ g ∷ rest) = none

abbrev one_field : Kind → List Item → Option Kind
one_field k [] = some k
one_field k (a ∷ rest) = none

-- A time limit of 255 is none, and has no end.
abbrev is_endless : Item → Bool
is_endless (byte v) = v == 0xff
is_endless _ = false

abbrev behind_limit : Bool → List Item → Option Kind
behind_limit true rest = one_field a_byte rest
behind_limit false [] = some a_long
behind_limit false (a ∷ rest) = one_field a_byte rest

abbrev mission_next : List Item → Option Kind
mission_next [] = some a_byte
mission_next (a ∷ []) = some a_byte
mission_next (a ∷ b ∷ []) = some a_byte
mission_next (a ∷ b ∷ limit ∷ rest) = behind_limit (is_endless limit) rest

abbrev player_ui_next : List Item → Option Kind
player_ui_next [] = some a_long
player_ui_next (a ∷ []) = some a_long
player_ui_next (a ∷ b ∷ []) = some a_long
player_ui_next (a ∷ b ∷ c ∷ []) = some a_long
player_ui_next (a ∷ b ∷ c ∷ d ∷ rest) = one_field a_byte rest

abbrev player_anim_next : List Item → Option Kind
player_anim_next [] = some a_word
player_anim_next (a ∷ []) = text_next a
player_anim_next (a ∷ b ∷ rest) = none

abbrev behind_opcode : ℕ → List Item → Option Kind
behind_opcode opcode fields =
    if opcode == 0x20
    then request_next fields
    else if opcode == 0x00
    then settings_next fields
    else if opcode == 0x35
    then mission_next fields
    else if opcode == 0x16
    then one_field a_flag fields
    else if opcode == 0x04
    then one_field a_byte fields
    else if opcode == 0x17
    then player_ui_next fields
    else if opcode == 0x18
    then player_anim_next fields
    else none

abbrev pub next_field : List Item → Option Kind
next_field [] = some a_byte
next_field (byte opcode ∷ fields) = behind_opcode opcode fields
next_field (word v ∷ fields) = none
next_field (long v ∷ fields) = none
next_field (text v ∷ fields) = none
next_field (flag v ∷ fields) = none

abbrev field_or_end : Option Kind → (Item → Read (List Item)) → Read (List Item)
field_or_end none others = pure []
field_or_end (some k) others = read_kind k >>= others

-- At most `left - 1` fields, behind those that were read.
abbrev pub read_fields : ℕ → List Item → Read (List Item)
read_fields zero before = fail
read_fields (suc left) before =
    field_or_end (next_field before)
      (λ x. read_fields left (before ++ (x ∷ [])) >>= λ xs. pure (x ∷ xs))

-- The client's reader: a packet has nine fields at most.
abbrev pub read_packet : Read (List Item)
read_packet = read_fields 10 []

abbrev kind : Item → Kind
kind (byte v) = a_byte
kind (word v) = a_word
kind (long v) = a_long
kind (text xs) = a_text (length xs)
kind (flag v) = a_flag

read_item-kind : (x : Item) → read_kind (kind x) ≡ read_item x
read_item-kind (byte v) = refl
read_item-kind (word v) = refl
read_item-kind (long v) = refl
read_item-kind (text xs) = refl
read_item-kind (flag v) = refl

-- The reader knows what comes, field by field, and where the packet ends.
abbrev Predicts : List Item → List Item → Type 0
Predicts before [] = next_field before ≡ none
Predicts before (x ∷ xs) = (next_field before ≡ some (kind x)) × Predicts (before ++ (x ∷ [])) xs

first_read :
    (x y : Item) (xs : List Item) (r : Option (List Item) × Buffer)
    → (proceed (λ ys. pure (y ∷ ys)) r).0 ≡ some (x ∷ xs)
    → (y ≡ x) × (r.0 ≡ some xs)
first_read x y xs (none, b) h = absurd (cc h)
first_read x y xs (some ys, b) h = (cc h, ap some (cc h))

read_fields-turn :
    (left : ℕ) (before : List Item) (x : Item) (xs : List Item) (r : Option Item × Buffer)
    → (proceed (λ y. read_items xs >>= λ ys. pure (y ∷ ys)) r).0 ≡ some (x ∷ xs)
    → ((b : Buffer)
        → (read_items xs b).0 ≡ some xs
        → read_fields left (before ++ (x ∷ [])) b ≡ read_items xs b)
    → proceed (λ y. read_fields left (before ++ (y ∷ [])) >>= λ ys. pure (y ∷ ys)) r
      ≡ proceed (λ y. read_items xs >>= λ ys. pure (y ∷ ys)) r
read_fields-turn left before x xs (none, b) h next = refl
read_fields-turn left before x xs (some y, b) h next =
    let (same, later) = first_read x y xs (read_items xs b) h in
    ap (proceed (λ ys. pure (y ∷ ys)))
      (ap (λ z. read_fields left (before ++ (z ∷ [])) b) same ∙ next b later)

read_fields-read_items :
    (left : ℕ) (before xs : List Item) (b : Buffer)
    → Predicts before xs
    → length xs < left
    → (read_items xs b).0 ≡ some xs
    → read_fields left before b ≡ read_items xs b
unfolding read_items
read_fields-read_items zero before xs b known enough h = absurd (omega (arith, enough))
read_fields-read_items (suc left) before [] b known enough h =
    ap
      (λ (o : Option Kind).
        field_or_end o (λ x. read_fields left (before ++ (x ∷ [])) >>= λ xs. pure (x ∷ xs)) b)
      known
read_fields-read_items (suc left) before (x ∷ xs) b known enough h =
    ap
      (λ (o : Option Kind).
        field_or_end o (λ x. read_fields left (before ++ (x ∷ [])) >>= λ xs. pure (x ∷ xs)) b)
      known.0
    ∙ ap
        (λ (r : Read Item).
          (r >>= λ y. read_fields left (before ++ (y ∷ [])) >>= λ ys. pure (y ∷ ys)) b)
        (read_item-kind x)
    ∙ read_fields-turn left before x xs (read_item x b) h (λ b'.
      read_fields-read_items left (before ++ (x ∷ [])) xs b' known.1 (omega (arith, enough)))

request-Predicts : (index : ℕ) (r : Round) → Predicts [] (request index r)
request-Predicts index r = (refl, (refl, (refl, (refl, (refl, (refl, (refl, refl)))))))

-- The time limit is none, or its byte is not the one that says so.
limited-Predicts :
    (players system limit end_time frags : ℕ)
    → low 8 limit ≢ 0xff
    → Predicts
        (byte 0x35 ∷ byte players ∷ byte system ∷ [])
        (byte (low 8 limit) ∷ long end_time ∷ byte frags ∷ [])
limited-Predicts players system limit end_time frags h = (
  refl,
  (
    ap (λ t. behind_limit t []) other,
    (
      ap (λ t. behind_limit t (long end_time ∷ [])) other,
      ap (λ t. behind_limit t (long end_time ∷ byte frags ∷ [])) other,
    ),
  ),
)
  where
    other : (low 8 limit == 0xff) ≡ false
    other = ground (arith, h)

mission-Predicts :
    (system players limit end_time frags : ℕ)
    → (is_negative limit ≡ true) ⊎ (low 8 limit ≢ 0xff)
    → Predicts [] (items (mission_init system players limit end_time frags))
mission-Predicts system players limit end_time frags h = (
  refl,
  (
    refl,
    (
      refl,
      by_branch (Predicts (byte 0x35 ∷ byte (low 8 players) ∷ byte (low 8 system) ∷ []))
          (is_negative limit) (λ _. (refl, (refl, refl))) (λ t. told h t),
    ),
  ),
)
  where
    last_item : ℕ
    last_item = if is_negative frags then 0xff else low 8 frags

    told :
        (is_negative limit ≡ true) ⊎ (low 8 limit ≢ 0xff)
        → is_negative limit ≡ false
        → Predicts
            (byte 0x35 ∷ byte (low 8 players) ∷ byte (low 8 system) ∷ [])
            (byte (low 8 limit) ∷ long end_time ∷ byte last_item ∷ [])
    told (inl t) f = absurd (ground (arith, t, f))
    told (inr other) f =
        limited-Predicts (low 8 players) (low 8 system) limit end_time last_item other

pub items-Predicts : (p : Packet) → IsBuildable p → Predicts [] (items p)
items-Predicts (checksum_request round) h = request-Predicts round (checksum_round round)
items-Predicts checksum_request_final h = request-Predicts 0xff final_round
items-Predicts (settings time collision friendly slot map_name) h =
    (refl, (refl, (refl, (refl, (refl, (refl, (refl, (refl, refl))))))))
items-Predicts gameinit h = (refl, refl)
items-Predicts (mission_init system players limit end_time frags) h =
    mission-Predicts system players limit end_time frags h
items-Predicts (ui_collision on) h = (refl, (refl, refl))
items-Predicts (bootplayer reason) h = (refl, (refl, refl))
items-Predicts (delete_player_ui event src tgt peer) h =
    (refl, (refl, (refl, (refl, (refl, (refl, refl))))))
items-Predicts (delete_player_anim name) h = (refl, (refl, (refl, refl)))

few_items : (p : Packet) → length (items p) < 10
few_items (checksum_request round) = omega arith
few_items checksum_request_final = omega arith
few_items (settings time collision friendly slot map_name) = omega arith
few_items gameinit = omega arith
few_items (mission_init system players limit end_time frags) =
    by_branch
      (λ (l : List Item). length (byte 0x35 ∷ byte (low 8 players) ∷ byte (low 8 system) ∷ l) < 10)
      (is_negative limit) (λ _. omega arith) (λ _. omega arith)
few_items (ui_collision on) = omega arith
few_items (bootplayer reason) = omega arith
few_items (delete_player_ui event src tgt peer) = omega arith
few_items (delete_player_anim name) = omega arith

-- What the reads of the packet's fields find, the client's reader finds without knowing them.
pub parse-read_packet :
    (p : Packet) (bytes : List ℕ)
    → IsBuildable p
    → parse (read_items (items p)) bytes ≡ some (items p)
    → parse read_packet bytes ≡ some (items p)
unfolding parse
parse-read_packet p bytes known h =
    ap (λ (r : Option (List Item) × Buffer). r.0)
      (read_fields-read_items 10 [] (items p) (init bytes (length bytes)) (items-Predicts p known)
        (few_items p) h)
    ∙ h
