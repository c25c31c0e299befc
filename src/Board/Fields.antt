-- ===== src/Board/Fields.antt =====
-- include/game.h: the fields packed into a board, an attribute word and a record of moves.
use native.Mathlib.Nat.{add-zero}
use native.Mathlib.Decide.{ℕ_discrete}
use kxo.Prelude.{ℕ, ◌+◌, ◌*◌, ◌/◌, ◌%◌, ◌^◌, ◌<◌, bit_or}
use kxo.Prelude.{◌≡◌, inl, inr, arith, ◌==◌, if◌then◌else◌, ◌∙◌, sym, ap}
use kxo.Prelude.Bits.{bit, bit-lt, bit-shr, or_low, zero-or}
use kxo.Prelude.Fields.{field_get_lem, field_set-lt, get-set_self, get-set_ne}
use kxo.Board.{
  set_bits, get_bits, val_set_cell, table_get_cell, xo_attr_id, xo_attr_steps, xo_attr_ai_alg,
  xo_set_attr_steps, xo_set_attr_ai_alg, set_record_cell, get_record_cell, u32, set_bits64,
  get_bits64,
}

pub val_set_cell-lt : (t pos c : ℕ) → t < 2 ^ 32 → val_set_cell t pos c < 2 ^ 32
unfolding val_set_cell set_bits
val_set_cell-lt t pos c h = field_set-lt 32 t c 3 (pos * 2) h

-- After a cell in range is set, reading the board gives that value there and the old one elsewhere.
pub get_cell-set_cell :
    (t pos pos' c : ℕ)
    → t < 2 ^ 32
    → pos < 16
    → pos' < 16
    → c < 4
    → table_get_cell (val_set_cell t pos c) pos'
      ≡ (if pos == pos' then c else table_get_cell t pos')
unfolding val_set_cell table_get_cell set_bits get_bits
get_cell-set_cell t pos pos' c ht hp hp' hc = elim (ℕ_discrete pos pos') [
  | yes e ↦ ground (arith, get-set_self 32 2 (pos * 2) t c)
  | no ne ↦ ground (arith, get-set_ne 32 2 (pos * 2) 2 (pos' * 2) t c)
]

-- A cell is the two digits at its position.
pub get_cell-bits :
    (t pos : ℕ)
    → t < 2 ^ 32
    → pos < 16
    → table_get_cell t pos ≡ bit (pos * 2) t + 2 * bit (pos * 2 + 1) t
unfolding table_get_cell get_bits
get_cell-bits t pos ht hp =
    rw (field_get_lem 32 2 (pos * 2) t ht (omega arith)) (omega (arith, low, high))
  where
    low : t / 2 ^ (pos * 2) % 2 ≡ bit (pos * 2) t
    low = rw add-zero at (bit-shr (pos * 2) 0 t)

    high : t / 2 ^ (pos * 2) / 2 % 2 ≡ bit (pos * 2 + 1) t
    high = bit-shr (pos * 2) 1 t

pub get_cell-lt : (t pos : ℕ) → t < 2 ^ 32 → pos < 16 → table_get_cell t pos < 4
get_cell-lt t pos ht hp =
    omega (arith, get_cell-bits t pos ht hp, bit-lt (pos * 2) t, bit-lt (pos * 2 + 1) t)

id_field : (a : ℕ) → xo_attr_id a ≡ get_bits a 0xf 0
unfolding xo_attr_id get_bits
id_field a = omega arith

-- The step count written by `XO_SET_ATTR_STEPS` is read back, and the game id and the algorithms
-- are as they were.
pub set_attr_steps_lem :
    (attr steps : ℕ)
    → attr < 2 ^ 32
    → steps < 32
    → let attr' = xo_set_attr_steps attr steps in
      (xo_attr_steps attr' ≡ steps)
      × (xo_attr_id attr' ≡ xo_attr_id attr)
      × (xo_attr_ai_alg attr' ≡ xo_attr_ai_alg attr)
      × (attr' < 2 ^ 32)
unfolding xo_set_attr_steps xo_attr_steps xo_attr_id xo_attr_ai_alg set_bits get_bits
set_attr_steps_lem attr steps h hs = (
  get-set_self 32 5 4 attr steps h (omega arith) hs,
  id_field (xo_set_attr_steps attr steps)
      ∙ get-set_ne 32 5 4 4 0 attr steps h (omega arith) hs (inl (omega arith))
      ∙ sym (id_field attr),
  get-set_ne 32 5 4 4 9 attr steps h (omega arith) hs (inr (omega arith)),
  field_set-lt 32 attr steps 0x1f 4 h,
)

-- Two algorithm numbers below 4 pack into four digits.
pack_algs : (a b : ℕ) → a < 4 → b < 4 → bit_or a (u32 (b * 2 ^ 2)) ≡ b * 4 + a
pack_algs a b ha hb =
    let gone : a / 2 / 2 ≡ 0 = omega arith in
    omega (
      arith,
      or_low a (u32 (b * 4)),
      or_low (a / 2) (u32 (b * 4) / 2),
      ap (λ t. bit_or t (u32 (b * 4) / 2 / 2)) gone,
      zero-or (u32 (b * 4) / 2 / 2),
    )

-- The algorithm word written by `XO_SET_ATTR_AI_ALG` is read back as `ai2 * 4 + ai1`, and the game
-- id and the step count are as they were.
pub set_attr_ai_alg_lem :
    (attr a b : ℕ)
    → attr < 2 ^ 32
    → a < 4
    → b < 4
    → let attr' = xo_set_attr_ai_alg attr a b in
      (xo_attr_ai_alg attr' ≡ b * 4 + a)
      × (xo_attr_id attr' ≡ xo_attr_id attr)
      × (xo_attr_steps attr' ≡ xo_attr_steps attr)
      × (attr' < 2 ^ 32)
unfolding xo_set_attr_ai_alg xo_attr_steps xo_attr_id xo_attr_ai_alg set_bits get_bits
set_attr_ai_alg_lem attr a b h ha hb =
    let v : ℕ = bit_or a (u32 (b * 2 ^ 2)) in
    let fits : v < 2 ^ 4 = omega (arith, pack_algs a b ha hb) in
    let attr' = xo_set_attr_ai_alg attr a b in
    (
      get-set_self 32 4 9 attr v h (omega arith) fits ∙ pack_algs a b ha hb,
      id_field attr'
          ∙ get-set_ne 32 4 9 4 0 attr v h (omega arith) fits (inl (omega arith))
          ∙ sym (id_field attr),
      get-set_ne 32 4 9 5 4 attr v h (omega arith) fits (inl (omega arith)),
      field_set-lt 32 attr v 0xf 9 h,
    )

pub set_record_cell-lt : (moves m n : ℕ) → moves < 2 ^ 64 → set_record_cell moves m n < 2 ^ 64
unfolding set_record_cell set_bits64
set_record_cell-lt moves m n h = field_set-lt 64 moves m 0xf (n * 4) h

-- The record of moves is an array of sixteen nibbles: what is written for a step is read back there,
-- and every other step keeps its cell.
pub get_record-set_record :
    (moves cell n n' : ℕ)
    → moves < 2 ^ 64
    → cell < 16
    → n < 16
    → n' < 16
    → get_record_cell (set_record_cell moves cell n) n'
      ≡ (if n == n' then cell else get_record_cell moves n')
unfolding set_record_cell get_record_cell set_bits64 get_bits64
get_record-set_record moves cell n n' hm hc hn hn' = elim (ℕ_discrete n n') [
  | yes e ↦ ground (arith, get-set_self 64 4 (n * 4) moves cell)
  | no ne ↦ ground (arith, get-set_ne 64 4 (n * 4) 4 (n' * 4) moves cell)
]
