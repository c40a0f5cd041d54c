-- ===== src/Buffer/Script/Layout.antt =====
-- The bytes of a script, read off the script alone.
use open_bc.Base.{ℕ, suc, zero, ◌+◌, ◌-◌, ◌<◌, ◌≡◌, refl, ap, arith}
use open_bc.Base.{Bool, List, [], ◌∷◌, ◌++◌, take}
use open_bc.Base.{if◌then◌else◌, ◌==◌, ◌⊎◌}
use open_bc.Buffer.Writes.{le16, le32}
use open_bc.Buffer.Script.{Item, byte, word, long, text, flag}
use open_bc.Buffer.Script.Pack.{pack}

-- The booleans of a script, in order.
abbrev pub flags : List Item → List Bool
flags [] = []
flags (byte v ∷ xs) = flags xs
flags (word v ∷ xs) = flags xs
flags (long v ∷ xs) = flags xs
flags (text t ∷ xs) = flags xs
flags (flag v ∷ xs) = v ∷ flags xs

-- The booleans that the open group of `k` will still take.
abbrev pub room : ℕ → List Item → List Bool
room k xs = take (5 - k) (flags xs)

-- The bytes of a script that meets a group of `k` booleans (0: none is open). A group's byte stands
-- where its first boolean does, and holds those that follow, up to five.
unfoldable pub layout : ℕ → List Item → List ℕ
layout k [] = []
layout k (byte v ∷ xs) = v ∷ layout k xs
layout k (word v ∷ xs) = le16 v ++ layout k xs
layout k (long v ∷ xs) = le32 v ++ layout k xs
layout k (text t ∷ xs) = t ++ layout k xs
layout zero (flag v ∷ xs) = pack (v ∷ room 1 xs) ∷ layout 1 xs
layout (suc k) (flag v ∷ xs) =
    let fresh = pack (v ∷ room 1 xs) ∷ layout 1 xs in
    let joined = layout (suc k + 1) xs in if suc k == 5 then fresh else joined

pub room_flag :
    (k : ℕ) (v : Bool) (xs : List Item) → k < 5 → room k (flag v ∷ xs) ≡ v ∷ room (k + 1) xs
room_flag k v xs h =
    let e : 5 - k ≡ suc (5 - (k + 1)) = omega arith in ap (λ n. take n (v ∷ flags xs)) e

pub room_full : (xs : List Item) → room 5 xs ≡ []
room_full xs = refl

-- A boolean that joins the open group adds no byte.
pub layout_joined :
    (k : ℕ) (v : Bool) (xs : List Item) → 0 < k → k < 5 → layout k (flag v ∷ xs) ≡ layout (k + 1) xs
unfolding layout
layout_joined zero v xs p h = absurd (omega arith)
layout_joined (suc k) v xs p h = ground arith

-- One that meets no group, or a full one, opens a group.
pub layout_fresh :
    (k : ℕ) (v : Bool) (xs : List Item)
    → (k ≡ 0) ⊎ (k ≡ 5)
    → layout k (flag v ∷ xs) ≡ pack (v ∷ room 1 xs) ∷ layout 1 xs
unfolding layout
layout_fresh zero v xs h = refl
layout_fresh (suc k) v xs h = ground arith
