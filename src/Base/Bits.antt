-- ===== src/Base/Bits.antt =====
-- Laws of `^` and `|` on numbers of any width, from the recursion on binary digits behind them.
use Prim.Native.Nat.{ℕ, zero, suc, ◌+◌, ◌-◌, ◌*◌, ◌/◌, ◌%◌, ◌^◌, ◌≤◌, ◌<◌, max, bit_or, bit_xor}
use Prim.Native.Nat.{digits, differ, bit_or-bitwise, bit_xor-bitwise}
use mathlib.Core.Path.{◌≡◌, refl, sym, ap, ◌∙◌}
use native.Mathlib.Nat.{pow-suc}
use native.Mathlib.Omega.{arith}

-- A round past the last digit of the first number changes nothing.
module _ (z : ℕ → ℕ) (f : ℕ → ℕ → ℕ) where
  spare_round : (n a b : ℕ) → a ≤ n → digits z f (suc n) a b ≡ digits z f n a b
  spare_round zero a b p = let none_left : a ≡ 0 = omega arith in rw none_left refl
  spare_round (suc n) zero b p = refl
  spare_round (suc n) (suc a) b p =
      ap (λ (x : ℕ). x * 2 + f (suc a % 2) (b % 2))
        (spare_round n (suc a / 2) (b / 2) (omega arith))

  -- So any number of rounds from the number itself on gives the same.
  spare_rounds : (k n a b : ℕ) → n ≡ k + a → digits z f n a b ≡ digits z f a a b
  spare_rounds zero n a b e = ap (λ m. digits z f m a b) (omega (arith, e))
  spare_rounds (suc k) n a b e =
      let shorter : n ≡ suc (k + a) = omega arith in
      rw shorter (spare_round (k + a) a b (omega arith) ∙ spare_rounds k (k + a) a b refl)

  halved : (a b : ℕ) → digits z f a (suc a / 2) (b / 2) ≡ digits z f (suc a / 2) (suc a / 2) (b / 2)
  halved a b = spare_rounds (a - suc a / 2) a (suc a / 2) (b / 2) (omega arith)

differ_digits : (x y : ℕ) → x < 2 → y < 2 → differ x y ≡ (x + y) % 2
differ_digits zero y p q = omega arith
differ_digits (suc zero) zero p q = omega arith
differ_digits (suc zero) (suc zero) p q = refl
differ_digits (suc zero) (suc (suc y)) p q = absurd (omega arith)
differ_digits (suc (suc x)) y p q = absurd (omega arith)

differ-eq-mod : (a b : ℕ) → differ (a % 2) (b % 2) ≡ (a + b) % 2
differ-eq-mod a b = omega (arith, differ_digits (a % 2) (b % 2) (omega arith) (omega arith))

-- One digit of `a ^ b`.
pub bit_xor_digit : (a b : ℕ) → bit_xor a b ≡ bit_xor (a / 2) (b / 2) * 2 + (a + b) % 2
bit_xor_digit zero b = simp bit_xor-bitwise (omega arith)
bit_xor_digit (suc a) b = omega (
  arith,
  bit_xor-bitwise (suc a) b,
  bit_xor-bitwise (suc a / 2) (b / 2),
  halved (λ y. y) differ a b,
  differ-eq-mod (suc a) b,
)

-- One digit of `a | b`.
pub bit_or_digit : (a b : ℕ) → bit_or a b ≡ bit_or (a / 2) (b / 2) * 2 + max (a % 2) (b % 2)
bit_or_digit zero b = simp bit_or-bitwise (omega arith)
bit_or_digit (suc a) b =
    omega
      (arith, bit_or-bitwise (suc a) b, bit_or-bitwise (suc a / 2) (b / 2), halved (λ y. y) max a b)

-- Writing the same word twice over a word gives it back.
xor_cancel_fuel : (n a b : ℕ) → a ≤ n → b ≤ n → bit_xor (bit_xor a b) b ≡ a
xor_cancel_fuel zero zero zero p q = refl
xor_cancel_fuel zero zero (suc b) p q = absurd (omega arith)
xor_cancel_fuel zero (suc a) b p q = absurd (omega arith)
xor_cancel_fuel (suc n) a b p q =
    let half : bit_xor a b / 2 ≡ bit_xor (a / 2) (b / 2) = omega (arith, bit_xor_digit a b) in
    let digit : bit_xor a b % 2 ≡ (a + b) % 2 = omega (arith, bit_xor_digit a b) in
    let rest = xor_cancel_fuel n (a / 2) (b / 2) (omega arith) (omega arith) in
    let step : bit_xor (bit_xor a b) b
        ≡ bit_xor (bit_xor (a / 2) (b / 2)) (b / 2) * 2 + (bit_xor a b + b) % 2 =
      rw (← half) (bit_xor_digit (bit_xor a b) b) in
    omega (arith, step, rest, digit)

pub xor_cancel : (a b : ℕ) → bit_xor (bit_xor a b) b ≡ a
xor_cancel a b = xor_cancel_fuel (a + b) a b (omega arith) (omega arith)

xor_swap_fuel :
    (n a b c : ℕ) → a ≤ n → b ≤ n → c ≤ n → bit_xor (bit_xor a b) c ≡ bit_xor (bit_xor a c) b
xor_swap_fuel zero zero zero zero p q r = refl
xor_swap_fuel zero zero zero (suc c) p q r = absurd (omega arith)
xor_swap_fuel zero zero (suc b) c p q r = absurd (omega arith)
xor_swap_fuel zero (suc a) b c p q r = absurd (omega arith)
xor_swap_fuel (suc n) a b c p q r = omega (
  arith,
  two_digits a b c,
  two_digits a c b,
  xor_swap_fuel n (a / 2) (b / 2) (c / 2) (omega arith) (omega arith) (omega arith),
)
  where
    two_digits :
        (x y z : ℕ)
        → bit_xor (bit_xor x y) z ≡ bit_xor (bit_xor (x / 2) (y / 2)) (z / 2) * 2 + (x + y + z) % 2
    two_digits x y z =
        let half : bit_xor x y / 2 ≡ bit_xor (x / 2) (y / 2) = omega (arith, bit_xor_digit x y) in
        let digit : (bit_xor x y + z) % 2 ≡ (x + y + z) % 2 = omega (arith, bit_xor_digit x y) in
        rw (← half, ← digit) (bit_xor_digit (bit_xor x y) z)

pub xor_swap : (a b c : ℕ) → bit_xor (bit_xor a b) c ≡ bit_xor (bit_xor a c) b
xor_swap a b c = xor_swap_fuel (a + b + c) a b c (omega arith) (omega arith) (omega arith)

double_field : (q k : ℕ) → q * 2 ^ suc k ≡ 2 * (q * 2 ^ k)
double_field q k = omega (arith, ap (λ (t : ℕ). q * t) (pow-suc 2 k))

xor_zero_digits : bit_xor 0 0 ≡ 0
xor_zero_digits = refl

-- The fields above and below bit `k` do not meet.
xor_fields :
    (k q t r s : ℕ)
    → r < 2 ^ k
    → s < 2 ^ k
    → bit_xor (q * 2 ^ k + r) (t * 2 ^ k + s) ≡ bit_xor q t * 2 ^ k + bit_xor r s
xor_fields zero q t zero zero p h =
    let eq : q * 2 ^ 0 + 0 ≡ q = omega arith in
    let et : t * 2 ^ 0 + 0 ≡ t = omega arith in rw (eq, et) (omega (arith, xor_zero_digits))
xor_fields zero q t zero (suc s) p h = absurd (omega arith)
xor_fields zero q t (suc r) s p h = absurd (omega arith)
xor_fields (suc k) q t r s p h =
    let eq : (q * 2 ^ suc k + r) / 2 ≡ q * 2 ^ k + r / 2 = omega (arith, double_field q k) in
    let et : (t * 2 ^ suc k + s) / 2 ≡ t * 2 ^ k + s / 2 = omega (arith, double_field t k) in
    let rest =
      xor_fields k q t (r / 2) (s / 2) (omega (arith, pow-suc 2 k)) (omega (arith, pow-suc 2 k)) in
    let step = rw (eq, et) at (bit_xor_digit (q * 2 ^ suc k + r) (t * 2 ^ suc k + s)) in
    omega (
      arith,
      step,
      rest,
      bit_xor_digit r s,
      double_field (bit_xor q t) k,
      double_field q k,
      double_field t k,
    )

xor-lt : (k r s : ℕ) → r < 2 ^ k → s < 2 ^ k → bit_xor r s < 2 ^ k
xor-lt zero zero zero p h = omega (arith, xor_zero_digits)
xor-lt zero zero (suc s) p h = absurd (omega arith)
xor-lt zero (suc r) s p h = absurd (omega arith)
xor-lt (suc k) r s p h = omega (
  arith,
  pow-suc 2 k,
  bit_xor_digit r s,
  xor-lt k (r / 2) (s / 2) (omega (arith, pow-suc 2 k)) (omega (arith, pow-suc 2 k)),
)

pub xor_byte : (r s : ℕ) → r < 256 → s < 256 → bit_xor r s < 256
xor_byte r s p h = xor-lt 8 r s p h

pub xor_word : (r s : ℕ) → r < 2 ^ 32 → s < 2 ^ 32 → bit_xor r s < 2 ^ 32
xor_word r s p h = xor-lt 32 r s p h

-- The low byte of an exclusive or is that of the low bytes.
pub xor-low_byte : (a b : ℕ) → bit_xor a b % 256 ≡ bit_xor (a % 256) (b % 256)
xor-low_byte a b =
    let ea : a / 256 * 256 + a % 256 ≡ a = omega arith in
    let eb : b / 256 * 256 + b % 256 ≡ b = omega arith in
    let parts =
      rw (ea, eb) at
        (xor_fields 8 (a / 256) (b / 256) (a % 256) (b % 256) (omega arith) (omega arith)) in
    omega (arith, parts, xor_byte (a % 256) (b % 256) (omega arith) (omega arith))

zero_or : (q : ℕ) → bit_or 0 q ≡ q
zero_or q = simp bit_or-bitwise

-- `|` of a low field and a high one is their sum.
pub or_fields : (k q r : ℕ) → r < 2 ^ k → bit_or r (q * 2 ^ k) ≡ r + q * 2 ^ k
or_fields zero q zero fits = omega (arith, zero_or (q * 2 ^ 0))
or_fields zero q (suc r) fits = absurd (omega arith)
or_fields (suc k) q r fits =
    let half : q * 2 ^ suc k / 2 ≡ q * 2 ^ k = omega (arith, double_field q k) in
    let rest = or_fields k q (r / 2) (omega (arith, pow-suc 2 k)) in
    let step = rw half at (bit_or_digit r (q * 2 ^ suc k)) in
    omega (arith, step, rest, double_field q k)

zero_xor : (q : ℕ) → bit_xor 0 q ≡ q
zero_xor q = simp bit_xor-bitwise

or_comm_fuel : (n a b : ℕ) → a ≤ n → b ≤ n → bit_or a b ≡ bit_or b a
or_comm_fuel zero zero zero p q = refl
or_comm_fuel zero zero (suc b) p q = absurd (omega arith)
or_comm_fuel zero (suc a) b p q = absurd (omega arith)
or_comm_fuel (suc n) a b p q = omega (
  arith,
  bit_or_digit a b,
  bit_or_digit b a,
  or_comm_fuel n (a / 2) (b / 2) (omega arith) (omega arith),
)

pub or_comm : (a b : ℕ) → bit_or a b ≡ bit_or b a
or_comm a b = or_comm_fuel (a + b) a b (omega arith) (omega arith)

pub xor_comm : (a b : ℕ) → bit_xor a b ≡ bit_xor b a
xor_comm a b =
    ap (λ (x : ℕ). bit_xor x b) (sym (zero_xor a))
    ∙ xor_swap 0 a b
    ∙ ap (λ (x : ℕ). bit_xor x a) (zero_xor b)
