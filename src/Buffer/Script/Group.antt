-- ===== src/Buffer/Script/Group.antt =====
-- The state of a script's writes: the open group of booleans, and what one write does to it.
use open_bc.Base.{ℕ, ◌%◌, ◌+◌, ◌≤◌, ◌<◌, ◌≡◌, ◌^◌, refl, ap, ◌∙◌, arith}
use open_bc.Base.{
  Bool, true, false, List, [], ◌∷◌, ◌++◌, length, length-append, get_or, set, copy_at,
}
use open_bc.Base.{set-eq-copy_at, set-set, set-copy_at, get_or-copy_at, copy_at-append}
use open_bc.Base.{get_or-set_self, length-set, bit_or, ◌<<<◌}
use open_bc.Buffer.{Buffer, start_group, extend_group, bit_of}
use open_bc.Buffer.Writes.{IsValid, emit, emit-IsValid, Fits}
use open_bc.Buffer.Script.{Item}
use open_bc.Buffer.Script.Pack.{pack, extended, extended-pack}
use open_bc.Buffer.Script.Layout.{flags, room, layout}

-- `vs` is the open group ([]: none).
pub record Tracks (b : Buffer) (vs : List Bool) : Type 0 where
  pub count : b.bit_count ≡ length vs
  pub few : length vs ≤ 5
  pub behind : 0 < length vs → b.bit_bookmark < b.pos
  pub holds : 0 < length vs → get_or b.bytes b.bit_bookmark 0 ≡ pack vs

-- The bytes with the open group's byte as it will be.
abbrev pub patch : List ℕ → ℕ → List Bool → List Bool → List ℕ
patch bytes m [] more = bytes
patch bytes m (v ∷ vs) more = set bytes m (pack ((v ∷ vs) ++ more))

patch-copy_at :
    (bytes : List ℕ) (m j : ℕ) (vs more : List Bool) (ys : List ℕ)
    → (0 < length vs → m < j)
    → patch (copy_at bytes j ys) m vs more ≡ copy_at (patch bytes m vs more) j ys
patch-copy_at bytes m j [] more ys h = refl
patch-copy_at bytes m j (v ∷ vs) more ys h =
    set-copy_at bytes m j (pack ((v ∷ vs) ++ more)) ys (h (omega arith))

-- The outcome of a script.
pub record Wrote (b : Buffer) (vs : List Bool) (xs : List Item) (r : Bool × Buffer) : Type 0 where
  pub succeeds : r.0 ≡ true
  pub stored :
      r.1.bytes
      ≡ copy_at
          (patch b.bytes b.bit_bookmark vs (room (length vs) xs))
          b.pos
          (layout (length vs) xs)
  pub ends : r.1.pos ≡ b.pos + length (layout (length vs) xs)

pub emit-Tracks :
    {b : Buffer} {vs : List Bool} (out : List ℕ) → Tracks b vs → Tracks (emit out b) vs
emit-Tracks {b} out t = record {
  count = t.count;
  few = t.few;
  behind = λ h. omega (arith, t.behind h);
  holds = λ h. get_or-copy_at b.bytes b.bit_bookmark b.pos 0 out (t.behind h) ∙ t.holds h;
}

-- An item that is no boolean: its bytes stand in front of what follows.
module _ {b : Buffer} {vs : List Bool} {xs : List Item} {r : Bool × Buffer} (out : List ℕ)
    (t : Tracks b vs) where
  pub plain :
      (x : Item)
      → layout (length vs) (x ∷ xs) ≡ out ++ layout (length vs) xs
      → flags (x ∷ xs) ≡ flags xs
      → Wrote (emit out b) vs xs r
      → Wrote b vs (x ∷ xs) r
  plain x e f w = record {
    succeeds = w.succeeds;
    stored =
        w.stored
        ∙ ap (λ bs. copy_at bs (b.pos + length out) (layout (length vs) xs))
            (patch-copy_at b.bytes b.bit_bookmark b.pos vs (room (length vs) xs) out t.behind)
        ∙ copy_at-append _ b.pos out (layout (length vs) xs) (b.pos + length out) refl
        ∙ rw (e, f) refl;
    ends = omega (arith, w.ends, ap length e, length-append out (layout (length vs) xs));
  }

abbrev pub started : Bool → Buffer → Buffer
started v b = record b {
  bytes = copy_at b.bytes b.pos (pack (v ∷ []) ∷ []);
  pos = b.pos + 1;
  bit_bookmark = b.pos;
  bit_count = 1;
}

first_bit : (v : Bool) → bit_or (1 <<< 5) (bit_of v) ≡ pack (v ∷ [])
first_bit true = refl
first_bit false = refl

pub start_group_lem :
    (v : Bool) {b : Buffer} → IsValid b → Fits b 1 → start_group v b ≡ (true, started v b)
unfolding start_group
start_group_lem v {b} h fits = ground (
  arith,
  set-set b.bytes b.pos 0 (bit_or (1 <<< 5) (bit_of v)),
  set-eq-copy_at b.bytes b.pos (bit_or (1 <<< 5) (bit_of v)),
  first_bit v,
)

abbrev pub grown : List Bool → Bool → Buffer → Buffer
grown vs v b = record b {
  bytes = set b.bytes b.bit_bookmark (pack (vs ++ (v ∷ [])));
  bit_count = length vs + 1;
}

pub extend_group_lem :
    (vs : List Bool) (v : Bool) {b : Buffer}
    → Tracks b vs
    → 0 < length vs
    → length vs < 5
    → extend_group v b ≡ grown vs v b
unfolding extend_group
extend_group_lem vs v {b} t some_open not_full =
    λ i. record b { bytes = set b.bytes b.bit_bookmark (byte_path i); bit_count = counts i }
  where
    byte_path : extended b.bit_count (get_or b.bytes b.bit_bookmark 0) v ≡ pack (vs ++ (v ∷ []))
    byte_path = rw (t.count, t.holds some_open) (extended-pack vs v not_full)

    counts : (b.bit_count + 1) % 2 ^ 8 ≡ length vs + 1
    counts = omega (arith, t.count)

pub grown-IsValid : (vs : List Bool) {b : Buffer} (v : Bool) → IsValid b → IsValid (grown vs v b)
grown-IsValid vs {b} v h = record {
  storage = length-set b.bytes b.bit_bookmark (pack (vs ++ (v ∷ []))) ∙ h.storage;
  small = h.small;
  inside = h.inside;
}

pub grown-Tracks :
    (vs : List Bool) {b : Buffer} (v : Bool)
    → IsValid b
    → Tracks b vs
    → 0 < length vs
    → length vs < 5
    → Tracks (grown vs v b) (vs ++ (v ∷ []))
grown-Tracks vs {b} v h t some_open not_full = record {
  count = omega (arith, length-append vs (v ∷ []));
  few = omega (arith, length-append vs (v ∷ []));
  behind = λ p. t.behind some_open;
  holds = λ p.
      get_or-set_self b.bytes b.bit_bookmark _ 0
        (omega (arith, t.behind some_open, h.inside, h.storage));
}

pub started-IsValid : {b : Buffer} (v : Bool) → IsValid b → Fits b 1 → IsValid (started v b)
started-IsValid {b} v h fits =
    let e = emit-IsValid (pack (v ∷ []) ∷ []) h fits in
    record { storage = e.storage; small = e.small; inside = e.inside }

pub started-Tracks : {b : Buffer} (v : Bool) → IsValid b → Fits b 1 → Tracks (started v b) (v ∷ [])
started-Tracks {b} v h fits = record {
  count = refl;
  few = omega arith;
  behind = λ p. omega arith;
  holds = λ p.
      rw (← set-eq-copy_at b.bytes b.pos (pack (v ∷ [])))
        (get_or-set_self b.bytes b.pos _ 0 (omega (arith, h.storage)));
}
