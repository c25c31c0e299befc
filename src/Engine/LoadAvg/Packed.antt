-- ===== src/Engine/LoadAvg/Packed.antt =====
-- src/main.c and user/tui.c: the word of a load average, packed and read.
use kxo.Prelude.{ℕ, ◌+◌, ◌*◌, ◌%◌, ◌/◌, ◌^◌, ◌≡◌, arith, bit_and}
use kxo.Prelude.Fields.{field_get_lem}
use kxo.Engine.LoadAvg.{pack_avg}

-- `(avg & 0x780) >> 7` and `avg & 0x7f`, as user/tui.c reads the word.
unfoldable pub avg_int : ℕ → ℕ
avg_int avg = bit_and avg 0x780 / 2 ^ 7

unfoldable pub avg_frac : ℕ → ℕ
avg_frac avg = bit_and avg 0x7f

-- The packed word of an integer and a fraction part is read back as the lower four bits of the
-- integer part and the lower seven bits of the fraction.
pub avg-pack_avg :
    (int frac : ℕ)
    → (avg_int (pack_avg int frac) ≡ int % 16) × (avg_frac (pack_avg int frac) ≡ frac % 128)
unfolding pack_avg avg_int avg_frac
avg-pack_avg int frac =
    let word = (int % 2 ^ 16 * 2 ^ 7 + bit_and (frac % 2 ^ 16) 0x7f) % 2 ^ 16 in
    let low = field_get_lem 16 7 0 (frac % 2 ^ 16) (omega arith) (omega arith) in
    (
      omega (arith, field_get_lem 16 4 7 word (omega arith) (omega arith), low),
      omega (arith, field_get_lem 16 7 0 word (omega arith) (omega arith), low),
    )
