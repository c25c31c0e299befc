-- ===== src/Prelude/Fields.antt =====
-- Bit fields of a word of `w` digits: `x & (mask << n)` and `x & ~(mask << n) | value << n`, with a
-- mask of `k` ones.

use native.Mathlib.Nat.{mod-lt, one-le-pow, div-le_self, mod-le}
use native.Mathlib.Decide.{dec_lt}
use mathlib.Core.Logic.{◌⊎◌, inl, inr}
use mathlib.Core.Path.{◌≡◌}
use native.Mathlib.Omega.{arith}
use Prim.Native.Nat.{ℕ, ◌+◌, ◌-◌, ◌*◌, ◌/◌, ◌%◌, ◌^◌, ◌≤◌, ◌<◌, bit_and, bit_or}
use kxo.Prelude.Bits.{
  bit, bit-lt, bit-and, bit-or, bit_ext, bit_above, bit-shl, bit-shl_below, bit-shr, bit-complement,
  bit-low_ones, bit-mod, and-lt, or-lt,
}

module _ (w : ℕ) where
  abbrev pub mask_at : ℕ → ℕ → ℕ
  mask_at mask n = (mask * 2 ^ n) % 2 ^ w

  abbrev pub field_get : ℕ → ℕ → ℕ → ℕ
  field_get x mask n = bit_and x (mask_at mask n) / 2 ^ n

  abbrev pub field_set : ℕ → ℕ → ℕ → ℕ → ℕ
  field_set x value mask n = bit_or (bit_and x (2 ^ w - 1 - mask_at mask n)) (mask_at value n)

  pub mask_at-lt : (m n : ℕ) → mask_at m n < 2 ^ w
  mask_at-lt m n = mod-lt (m * 2 ^ n) (one-le-pow w 2 (omega arith))

  pub mask_at_inside : (m n j : ℕ) → n + j < w → bit (n + j) (mask_at m n) ≡ bit j m
  mask_at_inside m n j h = rw (bit-mod w (n + j) (m * 2 ^ n) h) (bit-shl n j m)

  pub mask_at_below : (m n i : ℕ) → i < w → i < n → bit i (mask_at m n) ≡ 0
  mask_at_below m n i h l = rw (bit-mod w i (m * 2 ^ n) h) (bit-shl_below n i m l)

  pub mask_at_above : (k m n i : ℕ) → m < 2 ^ k → n + k ≤ i → i < w → bit i (mask_at m n) ≡ 0
  mask_at_above k m n i fits l h =
      let e : n + (i - n) ≡ i = omega arith in
      let inside : bit (n + (i - n)) (mask_at m n) ≡ bit (i - n) m =
        mask_at_inside m n (i - n) (omega arith) in
      rw e at rw (bit_above k (i - n) m fits (omega arith)) at inside

  mask_low_ones-lt : (k : ℕ) → 2 ^ k - 1 < 2 ^ k
  mask_low_ones-lt k = omega (arith, one-le-pow k 2)

  -- Reading a field of `k` digits at digit `n` is a division and a remainder.
  pub field_get_lem :
      (k n x : ℕ) → x < 2 ^ w → n + k ≤ w → field_get x (2 ^ k - 1) n ≡ x / 2 ^ n % 2 ^ k
  field_get_lem k n x hx h = bit_ext w _ _ get-lt field-lt same
    where
      m : ℕ
      m = 2 ^ k - 1

      get-lt : field_get x m n < 2 ^ w
      get-lt =
          omega (arith, div-le_self (bit_and x (mask_at m n)) (2 ^ n), and-lt w x (mask_at m n) hx)

      field-lt : x / 2 ^ n % 2 ^ k < 2 ^ w
      field-lt = omega (arith, mod-le (x / 2 ^ n) (2 ^ k), div-le_self x (2 ^ n))

      inside : (j : ℕ) → j < k → bit j (field_get x m n) ≡ bit j (x / 2 ^ n % 2 ^ k)
      inside j l =
          rw
            (
              bit-shr n j (bit_and x (mask_at m n)),
              bit-and,
              bit-mod k j (x / 2 ^ n) l,
              bit-shr n j x,
              mask_at_inside m n j (omega arith),
              bit-low_ones k j l,
            )
            (omega (arith, bit-lt (n + j) x))

      outside : (j : ℕ) → k ≤ j → bit j (field_get x m n) ≡ bit j (x / 2 ^ n % 2 ^ k)
      outside j l =
          rw
            (
              bit-shr n j (bit_and x (mask_at m n)),
              bit-and,
              bit_above k j (x / 2 ^ n % 2 ^ k) (mod-lt _ (one-le-pow k 2 (omega arith))) l,
            )
            (elim (dec_lt (n + j) w) [
              | yes d ↦
                  rw (mask_at_above k m n (n + j) (mask_low_ones-lt k) (omega arith) d)
                    (omega arith)
              | no d ↦ rw (bit_above w (n + j) x hx (omega arith)) (omega arith)
            ])

      same : (j : ℕ) → j < w → bit j (field_get x m n) ≡ bit j (x / 2 ^ n % 2 ^ k)
      same j l = elim (dec_lt j k) [ yes d ↦ inside j d | no d ↦ outside j (omega arith) ]

  pub field_set-lt : (x v m n : ℕ) → x < 2 ^ w → field_set x v m n < 2 ^ w
  field_set-lt x v m n hx = or-lt w _ _ (and-lt w x _ hx) (mask_at-lt v n)

  -- The digits of a word after a write: the field has those of the value, the rest is as it was.
  bit-set_inside :
      (k n x v j : ℕ) → n + k ≤ w → j < k → bit (n + j) (field_set x v (2 ^ k - 1) n) ≡ bit j v
  bit-set_inside k n x v j h l =
      rw
        (
          bit-or,
          bit-and,
          bit-complement w (n + j) (mask_at (2 ^ k - 1) n) (mask_at-lt _ n) (omega arith),
          mask_at_inside (2 ^ k - 1) n j (omega arith),
          bit-low_ones k j l,
          mask_at_inside v n j (omega arith),
        )
        (omega arith)

  bit-set_outside :
      (k n x v i : ℕ)
      → v < 2 ^ k
      → i < w
      → (i < n) ⊎ (n + k ≤ i)
      → bit i (field_set x v (2 ^ k - 1) n) ≡ bit i x
  bit-set_outside k n x v i fits h (inl l) =
      rw
        (
          bit-or,
          bit-and,
          bit-complement w i (mask_at (2 ^ k - 1) n) (mask_at-lt _ n) h,
          mask_at_below (2 ^ k - 1) n i h l,
          mask_at_below v n i h l,
        )
        (omega (arith, bit-lt i x))
  bit-set_outside k n x v i fits h (inr l) =
      rw
        (
          bit-or,
          bit-and,
          bit-complement w i (mask_at (2 ^ k - 1) n) (mask_at-lt _ n) h,
          mask_at_above k (2 ^ k - 1) n i (mask_low_ones-lt k) l h,
          mask_at_above k v n i fits l h,
        )
        (omega (arith, bit-lt i x))

  -- What a write puts into a field is read back.
  pub get-set_self :
      (k n x v : ℕ)
      → x < 2 ^ w
      → n + k ≤ w
      → v < 2 ^ k
      → field_get (field_set x v (2 ^ k - 1) n) (2 ^ k - 1) n ≡ v
  get-set_self k n x v hx h fits =
      rw (field_get_lem k n (field_set x v (2 ^ k - 1) n) (field_set-lt x v _ n hx) h) (
        bit_ext k _ _ (mod-lt _ (one-le-pow k 2 (omega arith))) fits λ j l.
          rw
            (
              bit-mod k j (field_set x v (2 ^ k - 1) n / 2 ^ n) l,
              bit-shr n j (field_set x v (2 ^ k - 1) n),
            )
            (bit-set_inside k n x v j h l))

  -- A write leaves every disjoint field alone.
  pub get-set_ne :
      (k n k' n' x v : ℕ)
      → x < 2 ^ w
      → n' + k' ≤ w
      → v < 2 ^ k
      → (n' + k' ≤ n) ⊎ (n + k ≤ n')
      → field_get (field_set x v (2 ^ k - 1) n) (2 ^ k' - 1) n' ≡ field_get x (2 ^ k' - 1) n'
  get-set_ne k n k' n' x v hx h fits apart =
      rw
        (
          field_get_lem k' n' (field_set x v (2 ^ k - 1) n) (field_set-lt x v _ n hx) h,
          field_get_lem k' n' x hx h,
        )
        (bit_ext k' _ _ (mod-lt _ (one-le-pow k' 2 (omega arith)))
          (mod-lt _ (one-le-pow k' 2 (omega arith)))
          λ j l.
            rw
              (
                bit-mod k' j (field_set x v (2 ^ k - 1) n / 2 ^ n') l,
                bit-mod k' j (x / 2 ^ n') l,
                bit-shr n' j (field_set x v (2 ^ k - 1) n),
                bit-shr n' j x,
              )
              (bit-set_outside k n x v (n' + j) fits (omega arith) (omega arith)))
