-- ===== src/Buffer/Script/Joins.antt =====
-- A boolean's write: it joins the open group, or opens one.
use open_bc.Base.{ℕ, ◌+◌, ◌≤◌, ◌<◌, ◌≡◌, refl, sym, ap, ◌∙◌, ◌⊎◌, inl, inr, arith}
use open_bc.Base.{Bool, true, List, [], ◌∷◌, ◌++◌, length, length-append, set, copy_at}
use open_bc.Base.{set-eq-copy_at, set-set, set_same, copy_at-append}
use native.Mathlib.Decide.{ℕ_discrete}
use mathlib.Core.List.{append-nil, append_assoc}
use open_bc.Buffer.{Buffer, write_bit}
use open_bc.Buffer.Writes.{IsValid, Fits}
use open_bc.Buffer.Script.{Item, flag}
use open_bc.Buffer.Script.Pack.{pack}
use open_bc.Buffer.Script.Layout.{room, room_flag, layout, layout_joined, layout_fresh}
use open_bc.Buffer.Script.Group.{
  Tracks, patch, Wrote, started, start_group_lem, grown, extend_group_lem,
}

-- A boolean that joins the open group.
joined :
    {b : Buffer} (a : Bool) (vs : List Bool) (v : Bool) {xs : List Item} {r : Bool × Buffer}
    → length (a ∷ vs) < 5
    → Wrote (grown (a ∷ vs) v b) ((a ∷ vs) ++ (v ∷ [])) xs r
    → Wrote b (a ∷ vs) (flag v ∷ xs) r
joined {b} a vs v {xs} {r} not_full w = record {
  succeeds = w.succeeds;
  stored = w.stored ∙ (λ i. copy_at (byte_path i) b.pos (rest i));
  ends = w.ends ∙ ap (λ l. b.pos + length l) rest;
}
  where
    longer : length ((a ∷ vs) ++ (v ∷ [])) ≡ length (a ∷ vs) + 1
    longer = length-append (a ∷ vs) (v ∷ [])

    rest : layout (length ((a ∷ vs) ++ (v ∷ []))) xs ≡ layout (length (a ∷ vs)) (flag v ∷ xs)
    rest =
        ap (λ k. layout k xs) longer
        ∙ sym (layout_joined (length (a ∷ vs)) v xs (omega arith) not_full)

    group :
        ((a ∷ vs) ++ (v ∷ [])) ++ room (length ((a ∷ vs) ++ (v ∷ []))) xs
        ≡ (a ∷ vs) ++ room (length (a ∷ vs)) (flag v ∷ xs)
    group =
        append_assoc (a ∷ vs) (v ∷ []) _
        ∙ ap (λ l. (a ∷ vs) ++ l)
            (ap (λ k. v ∷ room k xs) longer ∙ sym (room_flag (length (a ∷ vs)) v xs not_full))

    byte_path :
        set
          (set b.bytes b.bit_bookmark (pack ((a ∷ vs) ++ (v ∷ []))))
          b.bit_bookmark
          (pack (((a ∷ vs) ++ (v ∷ [])) ++ room (length ((a ∷ vs) ++ (v ∷ []))) xs))
        ≡ set b.bytes b.bit_bookmark (pack ((a ∷ vs) ++ room (length (a ∷ vs)) (flag v ∷ xs)))
    byte_path =
        set-set b.bytes b.bit_bookmark _ _ ∙ ap (λ g. set b.bytes b.bit_bookmark (pack g)) group

-- A full group's byte, or that of no group, is left as it stands.
patch_full :
    {b : Buffer} (vs : List Bool) (v : Bool) (xs : List Item)
    → IsValid b
    → Tracks b vs
    → (length vs ≡ 0) ⊎ (length vs ≡ 5)
    → patch b.bytes b.bit_bookmark vs (room (length vs) (flag v ∷ xs)) ≡ b.bytes
patch_full [] v xs h t none_open = refl
patch_full {b} (a ∷ vs) v xs h t none_open =
    ap (λ g. set b.bytes b.bit_bookmark (pack g)) closed
    ∙ set_same b.bytes b.bit_bookmark _ 0
        (omega (arith, t.behind (omega arith), h.inside, h.storage)) (t.holds (omega arith))
  where
    full : length (a ∷ vs) ≡ 5
    full = omega arith

    closed : (a ∷ vs) ++ room (length (a ∷ vs)) (flag v ∷ xs) ≡ a ∷ vs
    closed = ap (λ k. (a ∷ vs) ++ room k (flag v ∷ xs)) full ∙ append-nil (a ∷ vs)

-- A boolean that opens a group.
pub opened :
    {b : Buffer} (vs : List Bool) (v : Bool) {xs : List Item} {r : Bool × Buffer}
    → IsValid b
    → Fits b 1
    → Tracks b vs
    → (length vs ≡ 0) ⊎ (length vs ≡ 5)
    → Wrote (started v b) (v ∷ []) xs r
    → Wrote b vs (flag v ∷ xs) r
opened {b} vs v {xs} {r} h fits t none_open w = record {
  succeeds = w.succeeds;
  stored =
      w.stored
      ∙ ap (λ bs. copy_at bs (b.pos + 1) (layout 1 xs)) first
      ∙ copy_at-append b.bytes b.pos (whole ∷ []) (layout 1 xs) (b.pos + 1) refl
      ∙ (λ i.
          copy_at (sym (patch_full vs v xs h t none_open) i) b.pos
            (sym (layout_fresh (length vs) v xs none_open) i));
  ends = omega (arith, w.ends, ap length (layout_fresh (length vs) v xs none_open));
}
  where
    whole : ℕ
    whole = pack (v ∷ room 1 xs)

    first :
        set (copy_at b.bytes b.pos (pack (v ∷ []) ∷ [])) b.pos whole
        ≡ copy_at b.bytes b.pos (whole ∷ [])
    first =
        ap (λ bs. set bs b.pos whole) (sym (set-eq-copy_at b.bytes b.pos (pack (v ∷ []))))
        ∙ set-set b.bytes b.pos _ whole
        ∙ set-eq-copy_at b.bytes b.pos whole

pub write_bit_opens :
    (v : Bool) {b : Buffer}
    → IsValid b
    → Fits b 1
    → (b.bit_count ≡ 0) ⊎ (b.bit_count ≡ 5)
    → write_bit v b ≡ (true, started v b)
unfolding write_bit
write_bit_opens v {b} h fits none_open =
    let closed : IsValid (record b { bit_count = 0 }) = record {
      storage = h.storage;
      small = h.small;
      inside = h.inside;
    } in
    ground (arith, start_group_lem v h fits, start_group_lem v closed fits)

pub write_bit_joins :
    (v : Bool) (vs : List Bool) {b : Buffer}
    → Tracks b vs
    → 0 < length vs
    → length vs < 5
    → write_bit v b ≡ (true, grown vs v b)
unfolding write_bit
write_bit_joins v vs t some_open not_full = ground (arith, t.count, extend_group_lem vs v t)

pub group_cases :
    (vs : List Bool)
    → length vs ≤ 5
    → ((length vs ≡ 0) ⊎ (length vs ≡ 5)) ⊎ ((0 < length vs) × (length vs < 5))
group_cases [] h = inl (inl refl)
group_cases (a ∷ vs) h = elim (ℕ_discrete (length (a ∷ vs)) 5) [
  | yes e ↦ inl (inr e)
  | no ne ↦ inr (omega arith, omega arith)
]

pub joined_any :
    {b : Buffer} (vs : List Bool) (v : Bool) {xs : List Item} {r : Bool × Buffer}
    → length vs < 5
    → 0 < length vs
    → Wrote (grown vs v b) (vs ++ (v ∷ [])) xs r
    → Wrote b vs (flag v ∷ xs) r
joined_any [] v not_full some_open w = absurd (omega arith)
joined_any (a ∷ vs) v not_full some_open w = joined a vs v not_full w
