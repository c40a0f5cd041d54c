-- ===== src/Buffer/Bounds.antt =====
-- The bounds of the primitive writes, in any script.
use open_bc.Base.{
  ℕ, ◌+◌, ◌≤◌, ◌<◌, ◌^◌, ◌≡◌, ◌⊎◌, inl, inr, refl, arith, Bool, true, false, Option, none, some,
}
use open_bc.Base.{List, [], ◌∷◌, length, length-set, All}
use open_bc.Buffer.{Buffer, write_bit, start_group, extend_group, put}
use open_bc.Base.{ltb, leb, ◌==◌, if◌then◌else◌, add_size, sym, ap, ◌∙◌, set, Bool-cases}
use open_bc.Buffer.Writes.{
  IsValid, emit, emit-IsValid, Fits, Stores, le16, le32, write_u8-Stores, write_u16-Stores,
  write_u32-Stores, write_bytes-Stores,
}
use open_bc.Buffer.Seq.{Write}
use open_bc.Buffer.Script.{Item, byte, word, long, text, flag, write_item, write_items, InRange}

-- The position is within the array, and the byte of an open group behind it.
pub record InBounds (b : Buffer) : Type 0 where
  pub valid : IsValid b
  pub behind : (b.bit_count ≡ 0) ⊎ (b.bit_bookmark < b.pos)

-- What an operation on a sound buffer may do to it.
pub record Keeps (b b' : Buffer) : Type 0 where
  pub sound : InBounds b'
  pub size : b'.capacity ≡ b.capacity
  pub forward : b.pos ≤ b'.pos

stays : {b : Buffer} → InBounds b → Keeps b b
stays h = record { sound = h; size = refl; forward = omega arith }

either_way {ℓ} :
    {A : Type ℓ} {b : Buffer} (test : Bool) (p q : A × Buffer)
    → (test ≡ true → Keeps b p.1)
    → (test ≡ false → Keeps b q.1)
    → Keeps b (if test then p else q).1
either_way true p q f g = f refl
either_way false p q f g = g refl

emitted : {b : Buffer} (out : List ℕ) → InBounds b → Fits b (length out) → Keeps b (emit out b)
emitted {b} out h fits = record {
  sound = record { valid = emit-IsValid out h.valid fits; behind = omega (arith, h.behind) };
  size = refl;
  forward = omega arith;
}

stored : {f : Write} {b : Buffer} (out : List ℕ) → Stores f out → InBounds b → Keeps b (f b).1
stored {b} out s h = rw (s b h.valid) (
    either_way (leb (b.pos + length out) b.capacity) _ _ (λ t. emitted out h (ground arith))
      (λ t. stays h))

-- The buffer after a group was started at its position, or the open one changed.
group_set :
    {b b' : Buffer}
    → InBounds b
    → length b'.bytes ≡ b.capacity
    → b'.capacity ≡ b.capacity
    → b'.pos ≤ b.capacity
    → b'.bit_bookmark < b'.pos
    → b.pos ≤ b'.pos
    → Keeps b b'
group_set h e c f behind up = record {
  sound = record {
    valid = record {
      storage = e ∙ sym c;
      small = omega (arith, h.valid.small);
      inside = omega arith;
    };
    behind = inr behind;
  };
  size = c;
  forward = up;
}

starts :
    (v : Bool) {b b' : Buffer}
    → InBounds b
    → b'.bytes ≡ b.bytes
    → b'.capacity ≡ b.capacity
    → b'.pos ≡ b.pos
    → Keeps b b'
    → Keeps b (start_group v b').1
unfolding start_group put
starts v {b} {b'} h e c p k =
    let wrap : add_size b'.pos 1 ≡ b'.pos + 1 = omega (arith, h.valid.small, h.valid.inside) in
    either_way (ltb b'.capacity (add_size b'.pos 1)) _ _ (λ t. k)
      (λ t.
        let fits : b.pos + 1 ≤ b.capacity = ground arith in
        group_set h
          (length-set (set b'.bytes b'.pos 0) b'.pos _
            ∙ length-set b'.bytes b'.pos 0
            ∙ ap length e
            ∙ h.valid.storage)
          c (omega arith) (omega arith) (omega arith))

write_bit-Keeps : (v : Bool) (b : Buffer) → InBounds b → Keeps b (write_bit v b).1
unfolding write_bit extend_group
write_bit-Keeps v b h =
    either_way (b.bit_count == 0) _ _ (λ t. starts v h refl refl refl (stays h))
      (λ t.
        either_way (ltb b.bit_count 5) _ _
          (λ _.
            group_set h (length-set b.bytes b.bit_bookmark _ ∙ h.valid.storage) refl h.valid.inside
              (ground (arith, h.behind)) (omega arith))
          (λ _. starts v h refl refl refl record {
            sound = record {
              valid = record {
                storage = h.valid.storage;
                small = h.valid.small;
                inside = h.valid.inside;
              };
              behind = inl refl;
            };
            size = refl;
            forward = omega arith;
          }))

write_item-Keeps : (x : Item) (b : Buffer) → InRange x → InBounds b → Keeps b (write_item x b).1
write_item-Keeps (byte v) b ok h = stored (v ∷ []) (write_u8-Stores v) h
write_item-Keeps (word v) b ok h = stored (le16 v) (write_u16-Stores v) h
write_item-Keeps (long v) b ok h = stored (le32 v) (write_u32-Stores v) h
write_item-Keeps (text s) b ok h = stored s (write_bytes-Stores s ok) h
write_item-Keeps (flag v) b ok h = write_bit-Keeps v b h

chain : {b c d : Buffer} → Keeps b c → Keeps c d → Keeps b d
chain k l = record {
  sound = l.sound;
  size = l.size ∙ k.size;
  forward = omega (arith, k.forward, l.forward);
}

-- A script of writes into any sound buffer leaves it sound, whether it succeeds or fails for want of space: the
-- position stays within the unchanged capacity and only moves forward, and the open group's byte lies
-- behind it.
pub write_items-InBounds :
    (xs : List Item) (b : Buffer) → All InRange xs → InBounds b → Keeps b (write_items xs b).1
unfolding write_items
write_items-InBounds [] b ok h = stays h
write_items-InBounds (x ∷ xs) b ok h =
    let k = write_item-Keeps x b ok.0 h in
    elim (Bool-cases (write_item x b).0) [
      | inl t ↦ rw t (chain k (write_items-InBounds xs _ ok.1 k.sound))
      | inr f ↦ rw f k
    ]

moved :
    {b : Buffer} (n : ℕ)
    → InBounds b
    → b.pos + n ≤ b.capacity
    → Keeps b (record b { pos = add_size b.pos n })
moved {b} n h fits =
    let wrap : add_size b.pos n ≡ b.pos + n = omega (arith, h.valid.small) in
    record {
      sound = record {
        valid = record { storage = h.valid.storage; small = h.valid.small; inside = omega arith };
        behind = omega (arith, h.behind);
      };
      size = refl;
      forward = omega arith;
    }

taken {ℓ} :
    {A : Type ℓ} {b : Buffer} (n : ℕ) (v : A)
    → n < 2 ^ 63
    → InBounds b
    → Keeps b
        (if◌then◌else◌ {A = Option A × Buffer}
          (ltb b.capacity (add_size b.pos n))
          (none, b)
          (some v, record b { pos = add_size b.pos n })).1
taken {b} n v short h =
    let wrap : add_size b.pos n ≡ b.pos + n = omega (arith, h.valid.small, h.valid.inside) in
    either_way (ltb b.capacity (add_size b.pos n)) _ _ (λ t. stays h)
      (λ t. moved n h (ground arith))
