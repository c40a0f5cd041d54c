-- ===== src/Handshake/Build/Chains.antt =====
-- The builders' chains of writes as scripts.
use open_bc.Base.{
  ℕ, ◌≤◌, ◌<◌, ◌^◌, ◌≡◌, refl, sym, ap, ◌∙◌, arith, Bool, true, false, some, List, [], ◌∷◌,
}
use open_bc.Base.{length, copy_at, overwrite_all, ◌==◌, if◌then◌else◌, by_branch, u16, low, All}
use open_bc.Buffer.{Buffer, write_u8, write_u16, write_u32, write_bytes, write_bit}
use open_bc.Buffer.Seq.{Write, ◌⨟◌, no_write, build}
use open_bc.Buffer.Script.{Item, byte, long, InRange, write_items}
use open_bc.Buffer.Script.Layout.{layout}
use open_bc.Buffer.Script.RoundTrip.{build-write_items}
use open_bc.Handshake.Build.{Round, checksum_round, write_request}
use open_bc.Handshake.Build.Packets.{request}

pub last_write : (w : Write) → w ≡ (w ⨟ no_write)
last_write w i b = done (w b) i
  where
    done : (r : Bool × Buffer) → r ≡ (if r.0 then (true, r.1) else (false, r.1))
    done (true, b') = refl
    done (false, b') = refl

-- A chain that ends in one more write of an item.
pub request_chain :
    (index : ℕ) (r : Round)
    → length r.directory < 2 ^ 16
    → length r.file_filter < 2 ^ 16
    → write_request index r ≡ write_items (request index r)
unfolding write_items
request_chain index r dir_short filter_short =
    let dir_len : u16 (length r.directory) ≡ length r.directory = omega arith in
    let filter_len : u16 (length r.file_filter) ≡ length r.file_filter = omega arith in
    λ i.
      write_u8 0x20
      ⨟ write_u8 index
      ⨟ write_u16 (dir_len i)
      ⨟ write_bytes r.directory (length r.directory)
      ⨟ write_u16 (filter_len i)
      ⨟ write_bytes r.file_filter (length r.file_filter)
      ⨟ last_write (write_bit r.recursive) i

-- Bytes stored at once are those of a script, where they fit.
pub stored_script :
    (xs : List Item) (out : List ℕ) (size : ℕ)
    → All InRange xs
    → length out ≡ size
    → size < 2 ^ 63
    → length (layout 0 xs) ≤ size
    → (some (length (layout 0 xs)), copy_at out 0 (layout 0 xs)) ≡ build (write_items xs) out size
stored_script xs out size ok e small fits =
    ap (λ (l : List ℕ). (some (length (layout 0 xs)), l))
      (overwrite_all out (layout 0 xs) (omega (arith, e, fits)))
    ∙ sym (build-write_items xs out size ok e small fits)

pub short_texts :
    (round : ℕ)
    → (length (checksum_round round).directory < 2 ^ 16)
      × (length (checksum_round round).file_filter < 2 ^ 16)
unfolding checksum_round
short_texts round =
    by_branch IsShort (round == 0) (λ _. (omega arith, omega arith))
      (λ _.
        by_branch IsShort (round == 1) (λ _. (omega arith, omega arith))
          (λ _.
            by_branch IsShort (round == 2) (λ _. (omega arith, omega arith))
              (λ _. (omega arith, omega arith))))
  where
    IsShort : Round → Type 0
    IsShort r = (length r.directory < 2 ^ 16) × (length r.file_filter < 2 ^ 16)

⨟_assoc : (u v w : Write) → ((u ⨟ v) ⨟ w) ≡ (u ⨟ (v ⨟ w))
⨟_assoc u v w i b = after (u b) i
  where
    after :
        (r : Bool × Buffer)
        → (let (ok, b') = (if r.0 then v r.1 else (false, r.1)) in if ok then w b' else (false, b'))
          ≡ (if r.0 then (v ⨟ w) r.1 else (false, r.1))
    after (true, b') = refl
    after (false, b') = refl

-- The two forms of a mission's time limit and of its frag limit.
pub timed :
    (endless no_frags : Bool) (system players limit end_time frags : ℕ) (out : List ℕ) (size : ℕ)
    → build
        (write_u8 0x35
          ⨟ write_u8 (low 8 players)
          ⨟ write_u8 (low 8 system)
          ⨟ (if endless then write_u8 0xff else (write_u8 (low 8 limit) ⨟ write_u32 end_time))
          ⨟ write_u8 (if no_frags then 0xff else low 8 frags))
        out
        size
      ≡ build
          (write_items (
            byte 0x35
            ∷ byte (low 8 players)
            ∷ byte (low 8 system)
            ∷ (if endless
                then byte 0xff ∷ byte (if no_frags then 0xff else low 8 frags) ∷ []
                else byte (low 8 limit)
                  ∷ long end_time
                  ∷ byte (if no_frags then 0xff else low 8 frags)
                  ∷ [])))
          out
          size
unfolding write_items
timed true no_frags system players limit end_time frags out size = λ i.
    build
      (write_u8 0x35
        ⨟ write_u8 (low 8 players)
        ⨟ write_u8 (low 8 system)
        ⨟ write_u8 0xff
        ⨟ last_write (write_u8 (if no_frags then 0xff else low 8 frags)) i)
      out size
timed false no_frags system players limit end_time frags out size =
    (λ i.
      build
        (write_u8 0x35
          ⨟ write_u8 (low 8 players)
          ⨟ write_u8 (low 8 system)
          ⨟ ⨟_assoc (write_u8 (low 8 limit)) (write_u32 end_time)
              (write_u8 (if no_frags then 0xff else low 8 frags)) i)
        out size)
    ∙ (λ i.
        build
          (write_u8 0x35
            ⨟ write_u8 (low 8 players)
            ⨟ write_u8 (low 8 system)
            ⨟ write_u8 (low 8 limit)
            ⨟ write_u32 end_time
            ⨟ last_write (write_u8 (if no_frags then 0xff else low 8 frags)) i)
          out size)
