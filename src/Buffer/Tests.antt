-- ===== src/Buffer/Tests.antt =====
-- Runs of the stream buffer, and its theorems at concrete packets.
use open_bc.Base.{
  ℕ, ◌≡◌, ◌≤◌, refl, arith, true, false, some, List, [], ◌∷◌, ◌++◌, length, take, All, drop,
  replicate,
}
use open_bc.Buffer.{Buffer, init}
use open_bc.Buffer.{read_bit}
use open_bc.Buffer.Seq.{build, parse}
use open_bc.Buffer.Script.{Item, InRange, byte, word, text, flag, write_items, read_items}
use open_bc.Buffer.Script.Layout.{layout}
use open_bc.Buffer.Script.RoundTrip.{build-write_items, parse-layout, parse-build}
use open_bc.Buffer.Bounds.{InBounds, Keeps, write_items-InBounds}

-- As `bc_settings_build` does: two booleans, a byte between, and a third boolean in the same group.
abbrev script : List Item
script = byte 0 ∷ flag true ∷ flag false ∷ word 0x1234 ∷ flag true ∷ text (7 ∷ 8 ∷ []) ∷ []

abbrev storage : List ℕ
storage = replicate 8 0

script-InRange : All InRange script
script-InRange = (omega arith, (tt, (tt, (omega arith, (tt, (omega arith, tt))))))

-- The group stays open across the word, and its byte holds three booleans.
group_across_word : layout 0 script ≡ 0 ∷ 0x65 ∷ 0x34 ∷ 0x12 ∷ 7 ∷ 8 ∷ []
unfolding layout
group_across_word = refl

-- Where a byte without a group is read as a group, its count wraps and later reads take no bytes.
empty_group_wraps : (read_bit (init (0 ∷ 1 ∷ []) 2)).1.bit_count ≡ 255
unfolding read_bit init
empty_group_wraps = refl

build-write_items_example :
    build (write_items script) storage 8
    ≡ (some (length (layout 0 script)), layout 0 script ++ drop (length (layout 0 script)) storage)
build-write_items_example =
    build-write_items script storage 8 script-InRange refl (omega arith)
      (unfold layout in omega arith)

parse-layout_example : parse (read_items script) (layout 0 script ++ (9 ∷ [])) ≡ some script
parse-layout_example = parse-layout script (9 ∷ []) script-InRange (unfold layout in omega arith)

parse-build_example :
    (n : ℕ) × ((build (write_items script) storage 8).0 ≡ some n)
    × (n ≤ 8)
    × (parse (read_items script) (take n (build (write_items script) storage 8).1) ≡ some script)
parse-build_example =
    parse-build script storage 8 script-InRange refl (omega arith) (unfold layout in omega arith)

-- No room is left, and a group is open.
abbrev full_buffer : Buffer
full_buffer = record {
  bytes = 1 ∷ 2 ∷ 3 ∷ [];
  capacity = 3;
  pos = 3;
  bit_bookmark = 0;
  bit_count = 1;
}

full_buffer-InBounds : InBounds full_buffer
full_buffer-InBounds = record {
  valid = record { storage = refl; small = omega arith; inside = omega arith };
  behind = omega arith;
}

write_items-InBounds_example : Keeps full_buffer (write_items script full_buffer).1
write_items-InBounds_example =
    write_items-InBounds script full_buffer script-InRange full_buffer-InBounds
