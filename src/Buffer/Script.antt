-- ===== src/Buffer/Script.antt =====
-- Scripts of writes and the same scripts of reads, booleans among them: the general use of a stream
-- buffer. A boolean goes into the byte of the open group, wherever that stands, so later writes
-- change bytes that lie behind the position.
pub mod Pack
pub mod Layout
pub mod Group
pub mod Joins
pub mod Writer
pub mod Reader
pub mod RoundTrip
use open_bc.Base.{ℕ, Bool, List, [], ◌∷◌, length, IsByte, IsU16, IsU32, All, ◌^◌, ◌<◌}
use open_bc.Buffer.{write_u8, write_u16, write_u32, write_bytes, write_bit}
use open_bc.Buffer.{read_u8, read_u16, read_u32, read_bytes, read_bit}
use open_bc.Buffer.Seq.{Write, no_write, ◌⨟◌, Read, ◌>>=◌, pure}

pub data Item : Type 0 where
  byte : ℕ → Item
  word : ℕ → Item
  long : ℕ → Item
  text : List ℕ → Item
  flag : Bool → Item

abbrev pub write_item : Item → Write
write_item (byte v) = write_u8 v
write_item (word v) = write_u16 v
write_item (long v) = write_u32 v
write_item (text xs) = write_bytes xs (length xs)
write_item (flag v) = write_bit v

unfoldable pub write_items : List Item → Write
write_items [] = no_write
write_items (x ∷ xs) = write_item x ⨟ write_items xs

-- A read of the same kind; of the item that was written only the length of a text is used.
abbrev pub read_item : Item → Read Item
read_item (byte v) = read_u8 >>= λ x. pure (byte x)
read_item (word v) = read_u16 >>= λ x. pure (word x)
read_item (long v) = read_u32 >>= λ x. pure (long x)
read_item (text xs) = read_bytes (length xs) >>= λ ys. pure (text ys)
read_item (flag v) = read_bit >>= λ x. pure (flag x)

unfoldable pub read_items : List Item → Read (List Item)
read_items [] = pure []
read_items (x ∷ xs) = read_item x >>= λ y. read_items xs >>= λ ys. pure (y ∷ ys)

-- The values are those of their C types.
abbrev pub InRange : Item → Type 0
InRange (byte v) = IsByte v
InRange (word v) = IsU16 v
InRange (long v) = IsU32 v
InRange (text xs) = length xs < 2 ^ 63
InRange (flag v) = Unit
