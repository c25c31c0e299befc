-- ===== src/Board/Win/Cells.antt =====
-- src/game.c: `detect_empty_cell` against the cells of the board.
use Prim.Native.Nat.{max}
use kxo.Prelude.{ℕ, zero, suc, ◌+◌, ◌*◌, ◌/◌, ◌%◌, ◌^◌, ◌<◌, bit_and, bit_or}
use kxo.Prelude.{◌≡◌, ◌≢◌, ◌⊎◌, inl, inr, arith, true, false, ap, ap₂, sym, ◌∙◌}
use native.Mathlib.Decide.{ℕ_discrete}
use kxo.Prelude.Fields.{field_get_lem}
use kxo.Board.{table_get_cell, get_bits, cell_empty}
use kxo.Board.Win.{detect_empty_cell}
use kxo.Prelude.Bits.{and_low, or_low, and-zero, shr-suc}

-- `0b0101...01` with `k` ones.
abbrev ones_at_even : ℕ → ℕ
ones_at_even zero = 0
ones_at_even (suc k) = ones_at_even k * 4 + 1

abbrev pub two_bits : ℕ → ℕ → ℕ
two_bits zero t = t % 4
two_bits (suc p) t = two_bits p (t / 4)

occupied : ℕ → ℕ → ℕ
occupied m t = bit_or (bit_and t m) (bit_and t (m * 2) / 2)

occupied-step :
    (m t : ℕ) → occupied (m * 4 + 1) t ≡ occupied m (t / 4) * 4 + max (t % 2) (t / 2 % 2)
unfolding occupied
occupied-step m t =
    let lo : bit_and t (m * 4 + 1) ≡ bit_and (t / 4) m * 4 + t % 2 = low_part in
    let hi : bit_and t ((m * 4 + 1) * 2) / 2 ≡ bit_and (t / 4) (m * 2) * 2 + t / 2 % 2 =
      high_part in
    rw (lo, hi) (omega (arith, joined (bit_and (t / 4) m) (bit_and (t / 4) (m * 2)) even))
  where
    halves : t / 2 / 2 ≡ t / 4
    halves = omega arith

    quarter : (m * 4 + 1) / 2 ≡ m * 2
    quarter = omega arith

    quarter' : (m * 4 + 1) / 2 / 2 ≡ m
    quarter' = omega arith

    double_half : (m * 4 + 1) * 2 / 2 ≡ m * 4 + 1
    double_half = omega arith

    a_four : (a : ℕ) → (a * 4 + t % 2) / 2 / 2 ≡ a
    a_four a = omega arith

    b_two : (b : ℕ) → (b * 2 + t / 2 % 2) / 2 / 2 ≡ b / 2
    b_two b = omega arith

    low_part : bit_and t (m * 4 + 1) ≡ bit_and (t / 4) m * 4 + t % 2
    low_part = omega (
      arith,
      and_low t (m * 4 + 1),
      and_low (t / 2) ((m * 4 + 1) / 2),
      ap₂ bit_and halves quarter',
    )

    high_part : bit_and t ((m * 4 + 1) * 2) / 2 ≡ bit_and (t / 4) (m * 2) * 2 + t / 2 % 2
    high_part = omega (
      arith,
      and_low t ((m * 4 + 1) * 2),
      ap (bit_and (t / 2)) double_half,
      and_low (t / 2) (m * 4 + 1),
      ap₂ bit_and halves quarter,
    )

    even : bit_and (t / 4) (m * 2) % 2 ≡ 0
    even = omega (arith, and_low (t / 4) (m * 2))

    joined :
        (a b : ℕ)
        → b % 2 ≡ 0
        → bit_or (a * 4 + t % 2) (b * 2 + t / 2 % 2)
          ≡ bit_or a (b / 2) * 4 + max (t % 2) (t / 2 % 2)
    joined a b e = omega (
      arith,
      or_low (a * 4 + t % 2) (b * 2 + t / 2 % 2),
      or_low ((a * 4 + t % 2) / 2) ((b * 2 + t / 2 % 2) / 2),
      ap₂ bit_or (a_four a) (b_two b),
    )

HasEmpty : ℕ → ℕ → Type 0
HasEmpty k t = (p : ℕ) × (p < k) × (two_bits p t ≡ 0)

IsFull : ℕ → ℕ → Type 0
IsFull k t = (p : ℕ) → p < k → two_bits p t ≢ 0

IsFull-suc : (k t : ℕ) → t % 4 ≢ 0 → IsFull k (t / 4) → IsFull (suc k) t
unfolding IsFull
IsFull-suc k t here later zero l = here
IsFull-suc k t here later (suc p) l = later p (omega arith)

occupied_none : (t : ℕ) → occupied 0 t ≡ 0
unfolding occupied
occupied_none t = rw and-zero

-- Either some of the first `k` cells is empty and the word differs from the mask, or none is and
-- the two are equal.
occupied_cases :
    (k t : ℕ)
    → (HasEmpty k t × (occupied (ones_at_even k) t ≢ ones_at_even k))
      ⊎ (IsFull k t × (occupied (ones_at_even k) t ≡ ones_at_even k))
unfolding HasEmpty IsFull
occupied_cases zero t = inr ((λ p l. absurd (omega arith)), occupied_none t)
occupied_cases (suc k) t = elim (occupied_cases k (t / 4)) [
  | inl (empty, differs) ↦ inl (
    (suc empty.0, omega (arith, empty.1), empty.2),
    λ e. differs (omega (arith, occupied-step (ones_at_even k) t)),
  )
  | inr (full, same) ↦ elim (ℕ_discrete (t % 4) 0) [
    | yes z ↦
        inl ((0, omega arith, z), λ e. absurd (omega (arith, occupied-step (ones_at_even k) t)))
    | no z ↦ inr (IsFull-suc k t z full, omega (arith, occupied-step (ones_at_even k) t))
  ]
]

two_bits-shr : (p t : ℕ) → two_bits p t ≡ t / 2 ^ (p * 2) % 4
two_bits-shr zero t = omega arith
two_bits-shr (suc p) t =
    let e : suc p * 2 ≡ suc (suc (p * 2)) = omega arith in
    let q : t / 4 ≡ t / 2 / 2 = omega arith in
    rw (e, shr-suc, shr-suc, ← q) (two_bits-shr p (t / 4))

get_cell-two_bits : (t p : ℕ) → t < 2 ^ 32 → p < 16 → table_get_cell t p ≡ two_bits p t
unfolding table_get_cell get_bits
get_cell-two_bits t p ht hp = rw (two_bits-shr, field_get_lem 32 2 (p * 2) t ht (omega arith))

-- `detect_empty_cell` is true exactly when some cell of the board is empty.
pub detect_empty_cell_lem :
    (t : ℕ)
    → t < 2 ^ 32
    → ((detect_empty_cell t ≡ true) × ((p : ℕ) × (p < 16) × (table_get_cell t p ≡ cell_empty)))
      ⊎ ((detect_empty_cell t ≡ false) × ((p : ℕ) → p < 16 → table_get_cell t p ≢ cell_empty))
unfolding detect_empty_cell HasEmpty IsFull occupied
detect_empty_cell_lem t ht = elim (occupied_cases 16 t) [
  | inl ((p, l, z), differs) ↦ inl (ground (arith, differs), (p, l, get_cell-two_bits t p ht l ∙ z))
  | inr (full, same) ↦
      inr (ground (arith, same), λ p l e. full p l (sym (get_cell-two_bits t p ht l) ∙ e))
]
