-- ===== src/Random/Rotate.antt =====
-- src/xoroshiro.c: the digits of a rotated word.
use kxo.Prelude.{ℕ, ◌+◌, ◌-◌, ◌*◌, ◌/◌, ◌^◌, ◌<◌, ◌≤◌, ◌≡◌, arith, ◌∙◌, ap, sym}
use kxo.Prelude.Bits.{
  bit, bit-or, bit-mod, bit-shl, bit-shl_below, bit-shr, bit_above, bit_ext, or-lt,
}
use native.Mathlib.Nat.{div-le_self}
use native.Mathlib.Decide.{dec_lt}
use kxo.Board.{u64}
use kxo.Random.{rotl}

pub rotl-lt : (x k : ℕ) → x < 2 ^ 64 → rotl x k < 2 ^ 64
unfolding rotl
rotl-lt x k h =
    or-lt 64 (u64 (x * 2 ^ k)) (x / 2 ^ (64 - k)) (omega arith)
      (omega (arith, div-le_self x (2 ^ (64 - k))))

-- The digits that come round, and those that move up.
rotl_low : (x k j : ℕ) → k ≤ 64 → j < k → bit j (rotl x k) ≡ bit ((64 - k) + j) x
unfolding rotl
rotl_low x k j hk h = omega (
  arith,
  bit-or j (u64 (x * 2 ^ k)) (x / 2 ^ (64 - k)),
  bit-mod 64 j (x * 2 ^ k) (omega arith),
  bit-shl_below k j x h,
  bit-shr (64 - k) j x,
)

rotl_high : (x k j : ℕ) → x < 2 ^ 64 → k ≤ 64 → j < 64 - k → bit (k + j) (rotl x k) ≡ bit j x
unfolding rotl
rotl_high x k j hx hk h = omega (
  arith,
  bit-or (k + j) (u64 (x * 2 ^ k)) (x / 2 ^ (64 - k)),
  bit-mod 64 (k + j) (x * 2 ^ k) (omega arith),
  bit-shl k j x,
  bit-shr (64 - k) (k + j) x,
  bit_above 64 ((64 - k) + (k + j)) x hx (omega arith),
)

pub rotl_undo : (x k : ℕ) → x < 2 ^ 64 → k ≤ 64 → rotl (rotl x k) (64 - k) ≡ x
rotl_undo x k hx hk =
    bit_ext 64 (rotl (rotl x k) (64 - k)) x (rotl-lt (rotl x k) (64 - k) (rotl-lt x k hx)) hx same
  where
    same : (j : ℕ) → j < 64 → bit j (rotl (rotl x k) (64 - k)) ≡ bit j x
    same j h = elim (dec_lt j (64 - k)) [
      | yes low ↦
          let back : (64 - (64 - k)) + j ≡ k + j = omega arith in
          rotl_low (rotl x k) (64 - k) j (omega arith) low
          ∙ ap (λ i. bit i (rotl x k)) back
          ∙ rotl_high x k j hx hk low
      | no high ↦
          let i = j - (64 - k) in
          let at : (64 - k) + i ≡ j = omega arith in
          sym (ap (λ i. bit i (rotl (rotl x k) (64 - k))) at)
          ∙ rotl_high (rotl x k) (64 - k) i (rotl-lt x k hx) (omega arith) (omega arith)
          ∙ rotl_low x k i hk (omega arith)
          ∙ ap (λ i. bit i x) at
    ]
