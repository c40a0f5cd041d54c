-- ===== src/Buffer/Script/Reader.antt =====
-- From a script's layout back to the script.
use open_bc.Base.{ℕ, suc, ◌+◌, ◌-◌, ◌≤◌, ◌<◌, ◌≡◌, refl, sym, ap, subst, ◌∙◌, ◌⊎◌, inl, inr, arith}
use open_bc.Base.{
  Bool, Option, some, List, [], ◌∷◌, ◌++◌, length, length-append, take, length-take, get_or, All,
}
use open_bc.Base.{get_or-drop, low, ◌>>>◌, u8}
use mathlib.Core.List.{append-nil, append_assoc}
use open_bc.Buffer.{Buffer, read_bit, bit_at}
use open_bc.Buffer.Writes.{IsValid, le16, le32}
use open_bc.Buffer.Reads.{Takes, unread, skip, skip-IsValid, ahead_fits}
use open_bc.Buffer.Reads.{read_u8-Takes, read_u16-Takes, read_u32-Takes, read_bytes-Takes}
use open_bc.Buffer.Seq.{◌>>=◌, pure, proceed, Takes->>=, Takes-pure}
use open_bc.Buffer.Script.{Item, byte, word, long, text, flag, read_item, read_items, InRange}
use open_bc.Buffer.Script.Pack.{pack, bit_at-pack, count-pack}
use open_bc.Buffer.Script.Layout.{flags, room, room_flag, layout, layout_joined, layout_fresh}
use open_bc.Buffer.Script.Joins.{group_cases}

-- How many booleans of the open group are still to be read, when `vs` have been.
abbrev pub left : List Bool → List Item → ℕ
left [] xs = 0
left (v ∷ vs) xs = length (room (length (v ∷ vs)) xs)

pub record Follows (c : Buffer) (vs : List Bool) (xs : List Item) : Type 0 where
  pub count : c.bit_count ≡ left vs xs
  pub few : length vs ≤ 5
  pub holds : 0 < length vs → get_or c.bytes c.bit_bookmark 0 ≡ pack (vs ++ room (length vs) xs)

left-open :
    (vs : List Bool) (xs : List Item) → 0 < length vs → left vs xs ≡ length (room (length vs) xs)
left-open [] xs h = absurd (omega arith)
left-open (v ∷ vs) xs h = refl

length-room : (k : ℕ) (xs : List Item) → length (room k xs) ≤ 5 - k
length-room k xs = omega (arith, length-take (5 - k) (flags xs))

left-shut : (vs : List Bool) (xs : List Item) → (length vs ≡ 0) ⊎ (length vs ≡ 5) → left vs xs ≡ 0
left-shut [] xs h = refl
left-shut (v ∷ vs) xs h = omega (arith, length-room (length (v ∷ vs)) xs)

-- The next boolean of the open group.
read_joined :
    (v : Bool) (xs : List Item) (vs : List Bool) {c : Buffer}
    → Follows c vs (flag v ∷ xs)
    → 0 < length vs
    → length vs < 5
    → read_bit c ≡ (some v, record c { bit_count = length (room (length vs + 1) xs) })
unfolding read_bit
read_joined v xs vs {c} f some_open not_full = ground (arith, more, total, index, value, after)
  where
    more : c.bit_count ≡ suc (length (room (length vs + 1) xs))
    more = f.count ∙ left-open vs _ some_open ∙ ap length (room_flag (length vs) v xs not_full)

    holds : get_or c.bytes c.bit_bookmark 0 ≡ pack (vs ++ (v ∷ room (length vs + 1) xs))
    holds = f.holds some_open ∙ ap (λ r. pack (vs ++ r)) (room_flag (length vs) v xs not_full)

    total :
        low 3 (get_or c.bytes c.bit_bookmark 0 >>> 5)
        ≡ length vs + suc (length (room (length vs + 1) xs))
    total = rw holds (
        count-pack (vs ++ (v ∷ room (length vs + 1) xs)) (
          omega
            (arith, length-append vs (v ∷ room (length vs + 1) xs), length-room (length vs + 1) xs))
        ∙ length-append vs (v ∷ room (length vs + 1) xs))

    index : u8 (low 3 (get_or c.bytes c.bit_bookmark 0 >>> 5) + 256 - c.bit_count) ≡ length vs
    index = omega (arith, total, more, length-room (length vs + 1) xs)

    value :
        bit_at
          (get_or c.bytes c.bit_bookmark 0)
          (u8 (low 3 (get_or c.bytes c.bit_bookmark 0 >>> 5) + 256 - c.bit_count))
        ≡ v
    value = rw (index, holds) (bit_at-pack vs v (room (length vs + 1) xs) not_full)

    after : u8 (c.bit_count + 255) ≡ length (room (length vs + 1) xs)
    after = omega (arith, more, length-room (length vs + 1) xs)

-- The first boolean of a group, with the group's byte.
read_fresh :
    (v : Bool) (xs : List Item) (vs : List Bool) {c : Buffer} (rest : List ℕ)
    → IsValid c
    → Follows c vs (flag v ∷ xs)
    → (length vs ≡ 0) ⊎ (length vs ≡ 5)
    → unread c ≡ pack (v ∷ room 1 xs) ∷ rest
    → read_bit c
      ≡ (some v, record c { pos = c.pos + 1; bit_bookmark = c.pos; bit_count = length (room 1 xs) })
unfolding read_bit
read_fresh v xs vs {c} rest h f none_open e = ground (arith, shut, total, value, after, fits)
  where
    shut : c.bit_count ≡ 0
    shut = f.count ∙ left-shut vs _ none_open

    fits : c.pos + 1 ≤ c.capacity
    fits = ahead_fits c (pack (v ∷ room 1 xs) ∷ []) rest h e

    head : get_or c.bytes c.pos 0 ≡ pack (v ∷ room 1 xs)
    head = sym (get_or-drop c.bytes c.pos 0 0 c.pos (omega arith)) ∙ ap (λ l. get_or l 0 0) e

    total : low 3 (get_or c.bytes c.pos 0 >>> 5) ≡ suc (length (room 1 xs))
    total = rw head (count-pack (v ∷ room 1 xs) (omega (arith, length-room 1 xs)))

    value : bit_at (get_or c.bytes c.pos 0) 0 ≡ v
    value = rw head (bit_at-pack [] v (room 1 xs) (omega arith))

    after : u8 (low 3 (get_or c.bytes c.pos 0 >>> 5) + 255) ≡ length (room 1 xs)
    after = omega (arith, total, length-room 1 xs)

-- The rest of the script after an item.
listed :
    (y : Item) {ys : List Item} (p : Option (List Item) × Buffer)
    → p.0 ≡ some ys
    → (proceed (λ zs. pure (y ∷ zs)) p).0 ≡ some (y ∷ ys)
listed y p e = ap (λ o. (proceed (λ zs. pure (y ∷ zs)) (o, p.1)).0) e

read_then :
    (x : Item) {xs : List Item} (c : Buffer) {c' : Buffer}
    → read_item x c ≡ (some x, c')
    → (read_items xs c').0 ≡ some xs
    → (read_items (x ∷ xs) c).0 ≡ some (x ∷ xs)
unfolding read_items
read_then x {xs} c e r =
    ap (λ p. (proceed (λ y. read_items xs >>= λ ys. pure (y ∷ ys)) p).0) e ∙ listed x _ r

-- Items that are no boolean leave the group as it is.
skip-Follows :
    {c : Buffer} {vs : List Bool} {x : Item} {xs : List Item} (n : ℕ)
    → flags (x ∷ xs) ≡ flags xs
    → Follows c vs (x ∷ xs)
    → Follows (skip n c) vs xs
skip-Follows {c} {vs} {x} {xs} n e f = record {
  count = f.count ∙ same vs;
  few = f.few;
  holds = λ h. f.holds h ∙ ap (λ l. pack (vs ++ take (5 - length vs) l)) e;
}
  where
    same : (ws : List Bool) → left ws (x ∷ xs) ≡ left ws xs
    same [] = refl
    same (w ∷ ws) = ap (λ l. length (take (5 - length (w ∷ ws)) l)) e

abbrev Rest : List Item → Buffer → List Bool → List ℕ → Type 0
Rest xs c vs rest =
    IsValid c
    → Follows c vs xs
    → unread c ≡ layout (length vs) xs ++ rest
    → (read_items xs c).0 ≡ some xs

plain_step :
    (x : Item) (xs : List Item) {c : Buffer} {vs : List Bool} (out rest : List ℕ)
    → Takes (read_item x) out x
    → layout (length vs) (x ∷ xs) ≡ out ++ layout (length vs) xs
    → flags (x ∷ xs) ≡ flags xs
    → IsValid c
    → Follows c vs (x ∷ xs)
    → unread c ≡ layout (length vs) (x ∷ xs) ++ rest
    → Rest xs (skip (length out) c) vs rest
    → (read_items (x ∷ xs) c).0 ≡ some (x ∷ xs)
plain_step x xs {c} {vs} out rest k e f h fol u later =
    let ahead : unread c ≡ out ++ (layout (length vs) xs ++ rest) =
      u ∙ ap (λ l. l ++ rest) e ∙ append_assoc out _ rest in
    let after = skip-IsValid c out _ h ahead in
    read_then x c (k.takes c _ h ahead) (later after.0 (skip-Follows (length out) f fol) after.1)

flag_step :
    (v : Bool) (xs : List Item) {c : Buffer} (vs : List Bool) (rest : List ℕ)
    → IsValid c
    → Follows c vs (flag v ∷ xs)
    → unread c ≡ layout (length vs) (flag v ∷ xs) ++ rest
    → ((c' : Buffer) (ws : List Bool) → Rest xs c' ws rest)
    → (read_items (flag v ∷ xs) c).0 ≡ some (flag v ∷ xs)
flag_step v xs {c} vs rest h f u later = elim (group_cases vs f.few) [
  | inl none_open ↦
      let ahead : unread c ≡ (pack (v ∷ room 1 xs) ∷ []) ++ (layout 1 xs ++ rest) =
        u ∙ ap (λ l. l ++ rest) (layout_fresh (length vs) v xs none_open) in
      let after = skip-IsValid c (pack (v ∷ room 1 xs) ∷ []) _ h ahead in
      let opened = record c {
        pos = c.pos + 1;
        bit_bookmark = c.pos;
        bit_count = length (room 1 xs);
      } in
      read_then (flag v) c
        (ap (proceed (λ x. pure (flag x))) (read_fresh v xs vs _ h f none_open ahead))
        (later opened (v ∷ [])
          (record { storage = h.storage; small = h.small; inside = after.0.inside })
          (record {
            count = refl;
            few = omega arith;
            holds = λ g.
                sym (get_or-drop c.bytes c.pos 0 0 c.pos (omega arith))
                ∙ ap (λ l. get_or l 0 0) ahead;
          })
          after.1)
  | inr (some_open, not_full) ↦
      let longer : length (vs ++ (v ∷ [])) ≡ length vs + 1 = length-append vs (v ∷ []) in
      let joined = record c { bit_count = length (room (length vs + 1) xs) } in
      read_then (flag v) c
        (ap (proceed (λ x. pure (flag x))) (read_joined v xs vs f some_open not_full))
        (later joined (vs ++ (v ∷ []))
          (record { storage = h.storage; small = h.small; inside = h.inside })
          (joined_Follows v xs vs f some_open not_full)
          (u
            ∙ ap (λ l. l ++ rest) (layout_joined (length vs) v xs some_open not_full)
            ∙ ap (λ k. layout k xs ++ rest) (sym longer)))
]
  where
    joined_Follows :
        (w : Bool) (ys : List Item) (us : List Bool)
        → Follows c us (flag w ∷ ys)
        → 0 < length us
        → length us < 5
        → Follows (record c { bit_count = length (room (length us + 1) ys) }) (us ++ (w ∷ [])) ys
    joined_Follows w ys us g some_open not_full =
        let longer : length (us ++ (w ∷ [])) ≡ length us + 1 = length-append us (w ∷ []) in
        record {
          count =
              ap (λ k. length (room k ys)) (sym longer)
              ∙ sym (left-open (us ++ (w ∷ [])) ys (omega (arith, longer)));
          few = omega (arith, longer);
          holds = λ p.
              g.holds some_open
              ∙ ap pack (
                  ap (λ l. us ++ l) (room_flag (length us) w ys not_full)
                  ∙ sym (append_assoc us (w ∷ []) _)
                  ∙ ap (λ k. (us ++ (w ∷ [])) ++ room k ys) (sym longer));
        }

-- A script of reads over a script's layout answers the script.
pub read_items_lem :
    (xs : List Item) {c : Buffer} (vs : List Bool) (rest : List ℕ)
    → All InRange xs
    → IsValid c
    → Follows c vs xs
    → unread c ≡ layout (length vs) xs ++ rest
    → (read_items xs c).0 ≡ some xs
unfolding layout read_items
read_items_lem [] vs rest ok h f u = refl
read_items_lem (byte v ∷ xs) vs rest ok h f u =
    plain_step (byte v) xs (v ∷ []) rest (Takes->>= _ (read_u8-Takes v) (Takes-pure (byte v))) refl
      refl h f u (read_items_lem xs vs rest ok.1)
read_items_lem (word v ∷ xs) vs rest ok h f u =
    plain_step (word v) xs (le16 v) rest (Takes->>= _ (read_u16-Takes v ok.0) (Takes-pure (word v)))
      refl refl h f u (read_items_lem xs vs rest ok.1)
read_items_lem (long v ∷ xs) vs rest ok h f u =
    plain_step (long v) xs (le32 v) rest (Takes->>= _ (read_u32-Takes v ok.0) (Takes-pure (long v)))
      refl refl h f u (read_items_lem xs vs rest ok.1)
read_items_lem (text s ∷ xs) vs rest ok h f u =
    plain_step (text s) xs s rest
      (subst (λ ys. Takes (read_item (text s)) ys (text s)) (append-nil s)
        (Takes->>= (λ ys. pure (text ys)) (read_bytes-Takes s ok.0) (Takes-pure (text s))))
      refl refl h f u (read_items_lem xs vs rest ok.1)
read_items_lem (flag v ∷ xs) vs rest ok h f u =
    flag_step v xs vs rest h f u (λ c' ws. read_items_lem xs {c = c'} ws rest ok.1)
