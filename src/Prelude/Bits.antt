-- ===== src/Prelude/Bits.antt =====
-- Digit laws of the bit operations of C on unsigned words, for words of every width.
use Prim.Native.Nat.{ℕ, zero, suc, ◌+◌, ◌-◌, ◌*◌, ◌/◌, ◌%◌, ◌^◌, ◌≤◌, ◌<◌, min, max}
use Prim.Native.Nat.{bit_and, bit_or, bit_xor, digits, bitwise, differ}
use Prim.Native.Nat.{bit_and-bitwise, bit_or-bitwise, bit_xor-bitwise}
use mathlib.Core.Path.{◌≡◌, refl, ap}
use native.Mathlib.Nat.{le_refl, pow-suc, one-le-pow, div-div-eq-div-mul, mul_comm}
use native.Mathlib.Nat.{div-add-mod'}
use native.Mathlib.Omega.{arith}

-- The native operations recurse on binary digits with fuel; what is over does not count.
module _ (z : ℕ → ℕ) (f : ℕ → ℕ → ℕ) where
  digits_spare : (x y n m : ℕ) → x ≤ n → x ≤ m → digits z f n x y ≡ digits z f m x y
  digits_spare zero y zero zero p q = refl
  digits_spare zero y zero (suc m) p q = refl
  digits_spare zero y (suc n) zero p q = refl
  digits_spare zero y (suc n) (suc m) p q = refl
  digits_spare (suc x) y zero m p q = absurd (omega arith)
  digits_spare (suc x) y (suc n) zero p q = absurd (omega arith)
  digits_spare (suc x) y (suc n) (suc m) p q =
      let half : suc x / 2 ≤ x = omega arith in
      rw (digits_spare (suc x / 2) (y / 2) n m (omega (arith, half)) (omega (arith, half)))

  bitwise_low :
      (x y : ℕ)
      → bitwise z f (suc x) y ≡ f (suc x % 2) (y % 2) + 2 * bitwise z f (suc x / 2) (y / 2)
  bitwise_low x y =
      let half = suc x / 2 in
      omega (arith, digits_spare half (y / 2) x half (omega arith) (le_refl half))

pub or_low : (a b : ℕ) → bit_or a b ≡ bit_or (a / 2) (b / 2) * 2 + max (a % 2) (b % 2)
or_low zero b = simp bit_or-bitwise (omega arith)
or_low (suc a) b = simp bit_or-bitwise (omega (arith, bitwise_low (λ y. y) max a b))

pub and_low : (a b : ℕ) → bit_and a b ≡ bit_and (a / 2) (b / 2) * 2 + min (a % 2) (b % 2)
and_low zero b = simp bit_and-bitwise (omega arith)
and_low (suc a) b = simp bit_and-bitwise (omega (arith, bitwise_low (λ y. 0) min a b))

pub xor_low : (a b : ℕ) → bit_xor a b ≡ bit_xor (a / 2) (b / 2) * 2 + differ (a % 2) (b % 2)
xor_low zero b = simp bit_xor-bitwise (omega arith)
xor_low (suc a) b = simp bit_xor-bitwise (omega (arith, bitwise_low (λ y. y) differ a b))

pub differ-le : (a b : ℕ) → a ≤ 1 → b ≤ 1 → differ a b ≤ 1
differ-le zero b p q = q
differ-le (suc a) zero p q = p
differ-le (suc a) (suc b) p q =
    let e : a ≡ 0 = omega arith in let f : b ≡ 0 = omega arith in rw (e, f) (omega arith)

-- Exclusive or by the same number twice gives the first number back.
differ_undo : (a b : ℕ) → a ≤ 1 → b ≤ 1 → differ (differ a b) b ≡ a
differ_undo zero zero p q = refl
differ_undo zero (suc b) p q = let e : b ≡ 0 = omega arith in rw e
differ_undo (suc a) zero p q = refl
differ_undo (suc a) (suc b) p q =
    let e : a ≡ 0 = omega arith in let f : b ≡ 0 = omega arith in rw (e, f)

xor_undo_up_to : (n a b : ℕ) → a ≤ n → b ≤ n → bit_xor (bit_xor a b) b ≡ a
xor_undo_up_to zero a b p q =
    let e : a ≡ 0 = omega arith in let f : b ≡ 0 = omega arith in rw (e, f)
xor_undo_up_to (suc n) a b p q =
    let half : bit_xor a b / 2 ≡ bit_xor (a / 2) (b / 2) =
      omega (arith, xor_low a b, differ-le (a % 2) (b % 2)) in
    let low : bit_xor a b % 2 ≡ differ (a % 2) (b % 2) =
      omega (arith, xor_low a b, differ-le (a % 2) (b % 2)) in
    rw
      (
        xor_low (bit_xor a b) b,
        half,
        low,
        differ_undo (a % 2) (b % 2) (omega arith) (omega arith),
        xor_undo_up_to n (a / 2) (b / 2) (omega arith) (omega arith),
      )
      (omega arith)

pub xor_undo : (a b : ℕ) → bit_xor (bit_xor a b) b ≡ a
xor_undo a b = xor_undo_up_to (a + b) a b (omega arith) (omega arith)

-- The binary digit of weight `2 ^ i`.
abbrev pub bit : ℕ → ℕ → ℕ
bit zero x = x % 2
bit (suc i) x = bit i (x / 2)

pub bit-lt : (i x : ℕ) → bit i x ≤ 1
bit-lt zero x = omega arith
bit-lt (suc i) x = bit-lt i (x / 2)

pub bit-and : (i a b : ℕ) → bit i (bit_and a b) ≡ min (bit i a) (bit i b)
bit-and zero a b = omega (arith, and_low a b)
bit-and (suc i) a b =
    let half : bit_and a b / 2 ≡ bit_and (a / 2) (b / 2) = omega (arith, and_low a b) in
    rw half (bit-and i (a / 2) (b / 2))

pub bit-or : (i a b : ℕ) → bit i (bit_or a b) ≡ max (bit i a) (bit i b)
bit-or zero a b = omega (arith, or_low a b)
bit-or (suc i) a b =
    let half : bit_or a b / 2 ≡ bit_or (a / 2) (b / 2) = omega (arith, or_low a b) in
    rw half (bit-or i (a / 2) (b / 2))

-- Two words of `w` digits with the same digits are equal.
pub bit_ext : (w x y : ℕ) → x < 2 ^ w → y < 2 ^ w → ((i : ℕ) → i < w → bit i x ≡ bit i y) → x ≡ y
bit_ext zero x y p q h = omega arith
bit_ext (suc w) x y p q h = omega (
  arith,
  h 0 (omega arith),
  bit_ext w (x / 2) (y / 2) (omega (arith, pow-suc 2 w)) (omega (arith, pow-suc 2 w))
      (λ i l. h (suc i) (omega arith)),
)

-- A word of `w` digits has no digit from `w` on.
pub bit_above : (w i x : ℕ) → x < 2 ^ w → w ≤ i → bit i x ≡ 0
bit_above zero zero x p q = omega arith
bit_above zero (suc i) x p q = bit_above zero i (x / 2) (omega arith) (omega arith)
bit_above (suc w) zero x p q = absurd (omega arith)
bit_above (suc w) (suc i) x p q = bit_above w i (x / 2) (omega (arith, pow-suc 2 w)) (omega arith)

pub shl-suc : (n x : ℕ) → x * 2 ^ suc n ≡ 2 * (x * 2 ^ n)
shl-suc n x = omega (arith, ap (λ (t : ℕ). x * t) (pow-suc 2 n))

-- `x << n` moves digit `j` to `n + j`, and fills with zeros.
pub bit-shl : (n j x : ℕ) → bit (n + j) (x * 2 ^ n) ≡ bit j x
bit-shl zero j x =
    let e : x * 2 ^ 0 ≡ x = omega arith in let f : 0 + j ≡ j = omega arith in rw (e, f)
bit-shl (suc n) j x =
    let e : suc n + j ≡ suc (n + j) = omega arith in
    let half : x * 2 ^ suc n / 2 ≡ x * 2 ^ n = omega (arith, shl-suc n x) in
    let below : bit (n + j) (x * 2 ^ suc n / 2) ≡ bit j x = rw half (bit-shl n j x) in rw e below

pub bit-shl_below : (n j x : ℕ) → j < n → bit j (x * 2 ^ n) ≡ 0
bit-shl_below zero j x h = absurd (omega arith)
bit-shl_below (suc n) zero x h = omega (arith, shl-suc n x)
bit-shl_below (suc n) (suc j) x h =
    let half : x * 2 ^ suc n / 2 ≡ x * 2 ^ n = omega (arith, shl-suc n x) in
    rw half (bit-shl_below n j x (omega arith))

pub shr-suc : (n x : ℕ) → x / 2 ^ suc n ≡ x / 2 / 2 ^ n
shr-suc n x = rw (div-div-eq-div-mul, pow-suc, mul_comm (2 ^ n) 2)

-- `x >> n` moves digit `n + j` to `j`.
pub bit-shr : (n j x : ℕ) → bit j (x / 2 ^ n) ≡ bit (n + j) x
bit-shr zero j x =
    let e : x / 2 ^ 0 ≡ x = omega arith in let f : 0 + j ≡ j = omega arith in rw (e, f)
bit-shr (suc n) j x =
    let e : suc n + j ≡ suc (n + j) = omega arith in rw (e, shr-suc) (bit-shr n j (x / 2))

-- The digits of `~x` in a word of `w` digits.
pub bit-complement : (w j x : ℕ) → x < 2 ^ w → j < w → bit j (2 ^ w - 1 - x) ≡ 1 - bit j x
bit-complement zero j x p q = absurd (omega arith)
bit-complement (suc w) zero x p q = omega (arith, pow-suc 2 w)
bit-complement (suc w) (suc j) x p q =
    let half : (2 ^ suc w - 1 - x) / 2 ≡ 2 ^ w - 1 - x / 2 = omega (arith, pow-suc 2 w) in
    rw half (bit-complement w j (x / 2) (omega (arith, pow-suc 2 w)) (omega arith))

pub bit-low_ones : (k j : ℕ) → j < k → bit j (2 ^ k - 1) ≡ 1
bit-low_ones zero j h = absurd (omega arith)
bit-low_ones (suc k) zero h = omega (arith, pow-suc 2 k, one-le-pow k 2)
bit-low_ones (suc k) (suc j) h =
    let half : (2 ^ suc k - 1) / 2 ≡ 2 ^ k - 1 = omega (arith, pow-suc 2 k) in
    rw half (bit-low_ones k j (omega arith))

pub mod-pow-suc : (w x : ℕ) → x % 2 ^ suc w ≡ x / 2 % 2 ^ w * 2 + x % 2
mod-pow-suc w x = omega (
  arith,
  div-add-mod' x (2 ^ suc w),
  div-add-mod' (x / 2) (2 ^ w),
  ap (λ (t : ℕ). t * 2 ^ suc w) (shr-suc w x),
  shl-suc w (x / 2 / 2 ^ w),
)

-- A remainder by `2 ^ w` keeps the digits below `w`.
pub bit-mod : (w j x : ℕ) → j < w → bit j (x % 2 ^ w) ≡ bit j x
bit-mod zero j x h = absurd (omega arith)
bit-mod (suc w) zero x h = omega (arith, mod-pow-suc w x)
bit-mod (suc w) (suc j) x h =
    let half : x % 2 ^ suc w / 2 ≡ x / 2 % 2 ^ w = omega (arith, mod-pow-suc w x) in
    rw half (bit-mod w j (x / 2) (omega arith))

pub zero-or : (b : ℕ) → bit_or 0 b ≡ b
zero-or b = bit_or-bitwise 0 b

pub zero-and : (b : ℕ) → bit_and 0 b ≡ 0
zero-and b = bit_and-bitwise 0 b

and_zero_up_to : (n a : ℕ) → a ≤ n → bit_and a 0 ≡ 0
and_zero_up_to n zero h = refl
and_zero_up_to zero (suc a) h = absurd (omega arith)
and_zero_up_to (suc n) (suc a) h =
    omega (arith, and_low (suc a) 0, and_zero_up_to n (suc a / 2) (omega arith))

pub and-zero : (a : ℕ) → bit_and a 0 ≡ 0
and-zero a = and_zero_up_to a a (le_refl a)

-- The operations stay within `w` digits.
pub and-lt : (w a b : ℕ) → a < 2 ^ w → bit_and a b < 2 ^ w
and-lt zero a b p = let e : a ≡ 0 = omega arith in rw e (omega (arith, bit_and-bitwise 0 b))
and-lt (suc w) a b p =
    omega (arith, and_low a b, pow-suc 2 w, and-lt w (a / 2) (b / 2) (omega (arith, pow-suc 2 w)))

pub or-lt : (w a b : ℕ) → a < 2 ^ w → b < 2 ^ w → bit_or a b < 2 ^ w
or-lt zero a b p q = let e : a ≡ 0 = omega arith in rw e (omega (arith, bit_or-bitwise 0 b))
or-lt (suc w) a b p q = omega (
  arith,
  or_low a b,
  pow-suc 2 w,
  or-lt w (a / 2) (b / 2) (omega (arith, pow-suc 2 w)) (omega (arith, pow-suc 2 w)),
)

pub xor-lt : (w a b : ℕ) → a < 2 ^ w → b < 2 ^ w → bit_xor a b < 2 ^ w
xor-lt zero a b p q = let e : a ≡ 0 = omega arith in rw e (omega (arith, bit_xor-bitwise 0 b))
xor-lt (suc w) a b p q = omega (
  arith,
  xor_low a b,
  pow-suc 2 w,
  differ-le (a % 2) (b % 2) (omega arith) (omega arith),
  xor-lt w (a / 2) (b / 2) (omega (arith, pow-suc 2 w)) (omega (arith, pow-suc 2 w)),
)

pub and-lt_right : (w a b : ℕ) → b < 2 ^ w → bit_and a b < 2 ^ w
and-lt_right zero a b p = let e : b ≡ 0 = omega arith in rw (e, and-zero) (omega arith)
and-lt_right (suc w) a b p =
    omega
      (arith, and_low a b, pow-suc 2 w, and-lt_right w (a / 2) (b / 2) (omega (arith, pow-suc 2 w)))
