-- ===== src/Buffer/Script/Writer.antt =====
-- From a script to the bytes that its writes leave in the buffer.
use open_bc.Base.{ℕ, ◌+◌, ◌-◌, ◌<◌, ◌≡◌, refl, sym, ap, ◌∙◌, ◌⊎◌, inl, inr, arith}
use open_bc.Base.{Bool, true, false, List, [], ◌∷◌, ◌++◌, length, length-append, set, All}
use open_bc.Base.{if◌then◌else◌, set_same, copy_at-nil, take-nil}
use mathlib.Core.List.{append-nil}
use open_bc.Buffer.{Buffer, write_bit}
use open_bc.Buffer.Writes.{IsValid, emit, emit-IsValid, Fits, le16, le32}
use open_bc.Buffer.Writes.{write_u8-Stores, write_u16-Stores, write_u32-Stores, write_bytes-Stores}
use open_bc.Buffer.Seq.{Write, ◌⨟◌, Writes, Stores-Writes}
use open_bc.Buffer.Script.{Item, byte, word, long, text, flag, write_item, write_items, InRange}
use open_bc.Buffer.Script.Pack.{pack}
use open_bc.Buffer.Script.Layout.{flags, room, layout, layout_joined, layout_fresh}
use open_bc.Buffer.Script.Group.{
  Tracks, patch, Wrote, emit-Tracks, started, grown, grown-IsValid, grown-Tracks, started-IsValid,
  started-Tracks, plain,
}
use open_bc.Buffer.Script.Joins.{opened, write_bit_opens, write_bit_joins, group_cases, joined_any}

then_write : (w : Write) {b b' : Buffer} (g : Write) → w b ≡ (true, b') → (w ⨟ g) b ≡ g b'
then_write w g e = ap (λ p. if p.0 then g p.1 else (false, p.1)) e

nothing_left : {b : Buffer} (vs : List Bool) → IsValid b → Tracks b vs → Wrote b vs [] (true, b)
unfolding layout
nothing_left {b} vs h t = record {
  succeeds = refl;
  stored = sym (copy_at-nil _ b.pos ∙ kept vs t);
  ends = omega arith;
}
  where
    kept :
        (ws : List Bool)
        → Tracks b ws
        → patch b.bytes b.bit_bookmark ws (room (length ws) []) ≡ b.bytes
    kept [] u = refl
    kept (a ∷ ws) u =
        ap (λ g. set b.bytes b.bit_bookmark (pack ((a ∷ ws) ++ g))) (take-nil (5 - length (a ∷ ws)))
        ∙ ap (λ g. set b.bytes b.bit_bookmark (pack g)) (append-nil (a ∷ ws))
        ∙ set_same b.bytes b.bit_bookmark _ 0
            (omega (arith, u.behind (omega arith), h.inside, h.storage)) (u.holds (omega arith))

-- One item that is no boolean, and then the rest of the script.
module _ {b : Buffer} {vs : List Bool} (xs : List Item) (h : IsValid b) (t : Tracks b vs) where
  abbrev Rest : Buffer → List Bool → Type 0
  Rest c ws =
      IsValid c
      → Tracks c ws
      → Fits c (length (layout (length ws) xs))
      → Wrote c ws xs (write_items xs c)

  plain_step :
      (x : Item) (out : List ℕ)
      → Writes (write_item x) out
      → layout (length vs) (x ∷ xs) ≡ out ++ layout (length vs) xs
      → flags (x ∷ xs) ≡ flags xs
      → Fits b (length (layout (length vs) (x ∷ xs)))
      → Rest (emit out b) vs
      → Wrote b vs (x ∷ xs) (write_items (x ∷ xs) b)
  unfolding write_items
  plain_step x out w e f fits rest =
      let size : length (layout (length vs) (x ∷ xs))
          ≡ length out + length (layout (length vs) xs) =
        ap length e ∙ length-append out (layout (length vs) xs) in
      let room_for : Fits b (length out) = omega arith in
      rw (then_write (write_item x) (write_items xs) (w.stores b h room_for)) (
        plain out t x e f
          (rest (emit-IsValid out h room_for) (emit-Tracks out t) (omega (arith, size))))

  joined_step :
      (v : Bool)
      → 0 < length vs
      → length vs < 5
      → Fits b (length (layout (length vs) (flag v ∷ xs)))
      → Rest (grown vs v b) (vs ++ (v ∷ []))
      → Wrote b vs (flag v ∷ xs) (write_items (flag v ∷ xs) b)
  unfolding write_items
  joined_step v some_open not_full fits rest =
      rw (then_write (write_bit v) (write_items xs) (write_bit_joins v vs t some_open not_full)) (
        joined_any vs v not_full some_open (
          rest (grown-IsValid vs v h) (grown-Tracks vs v h t some_open not_full) (
            rw (length-append vs (v ∷ []), ← layout_joined (length vs) v xs some_open not_full)
              fits)))

  opened_step :
      (v : Bool)
      → (length vs ≡ 0) ⊎ (length vs ≡ 5)
      → Fits b (length (layout (length vs) (flag v ∷ xs)))
      → Rest (started v b) (v ∷ [])
      → Wrote b vs (flag v ∷ xs) (write_items (flag v ∷ xs) b)
  unfolding write_items
  opened_step v none_open fits rest =
      let size = ap length (layout_fresh (length vs) v xs none_open) in
      let room_for : Fits b 1 = omega (arith, size) in
      rw
        (then_write (write_bit v) (write_items xs)
          (write_bit_opens v h room_for (rw t.count none_open)))
        (opened vs v h room_for t none_open
          (rest (started-IsValid v h room_for) (started-Tracks v h room_for) (omega (arith, size))))

-- A script whose layout fits is written, and its layout is what it leaves, with the open group's byte
-- completed.
pub write_items-Wrote :
    (xs : List Item) {b : Buffer} (vs : List Bool)
    → IsValid b
    → Tracks b vs
    → All InRange xs
    → Fits b (length (layout (length vs) xs))
    → Wrote b vs xs (write_items xs b)
unfolding layout
write_items-Wrote [] vs h t ok fits = unfold write_items in nothing_left vs h t
write_items-Wrote (byte v ∷ xs) vs h t ok fits =
    plain_step xs h t (byte v) (v ∷ []) (Stores-Writes (write_u8-Stores v)) refl refl fits
      (λ h' t' f. write_items-Wrote xs vs h' t' ok.1 f)
write_items-Wrote (word v ∷ xs) vs h t ok fits =
    plain_step xs h t (word v) (le16 v) (Stores-Writes (write_u16-Stores v)) refl refl fits
      (λ h' t' f. write_items-Wrote xs vs h' t' ok.1 f)
write_items-Wrote (long v ∷ xs) vs h t ok fits =
    plain_step xs h t (long v) (le32 v) (Stores-Writes (write_u32-Stores v)) refl refl fits
      (λ h' t' f. write_items-Wrote xs vs h' t' ok.1 f)
write_items-Wrote (text s ∷ xs) vs h t ok fits =
    plain_step xs h t (text s) s (Stores-Writes (write_bytes-Stores s ok.0)) refl refl fits
      (λ h' t' f. write_items-Wrote xs vs h' t' ok.1 f)
write_items-Wrote (flag v ∷ xs) vs h t ok fits = elim (group_cases vs t.few) [
  | inl none_open ↦
      opened_step xs h t v none_open fits (λ h' t' f. write_items-Wrote xs (v ∷ []) h' t' ok.1 f)
  | inr (some_open, not_full) ↦
      joined_step xs h t v some_open not_full fits
        (λ h' t' f. write_items-Wrote xs (vs ++ (v ∷ [])) h' t' ok.1 f)
]
