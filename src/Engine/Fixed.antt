-- ===== src/Engine/Fixed.antt =====
-- include/rl.h and include/ai-game.h: the fixed-point numbers of the learning agent, which are
-- 32-bit signed integers with 16 binary digits behind the point.
use kxo.Prelude.{ℕ, ◌-◌, ◌/◌, ◌%◌, ◌^◌, if◌then◌else◌, ltb}
use kxo.Prelude.Int.{ℤ, pos, negsuc, ◌*ℤ◌}

-- The conversion of a wider integer to a 32-bit signed one: by its pattern of 32 bits.
abbrev pattern32 : ℤ → ℕ
pattern32 (pos n) = n % 2 ^ 32
pattern32 (negsuc n) = 2 ^ 32 - 1 - n % 2 ^ 32

abbrev of_pattern32 : ℕ → ℤ
of_pattern32 n = if ltb n (2 ^ 31) then pos n else negsuc (2 ^ 32 - 1 - n)

unfoldable pub to_s32 : ℤ → ℤ
to_s32 z = of_pattern32 (pattern32 z)

-- The arithmetic shift to the right by 16 digits, which rounds down.
unfoldable pub shift_scale : ℤ → ℤ
shift_scale (pos n) = pos (n / 2 ^ 16)
shift_scale (negsuc n) = negsuc (n / 2 ^ 16)

abbrev pub rl_fixed_1 : ℤ
rl_fixed_1 = pos (2 ^ 16)

abbrev pub reward_tradeoff : ℤ
reward_tradeoff = rl_fixed_1

unfoldable pub fixed_mul : ℤ → ℤ → ℤ
unfolding to_s32 shift_scale ◌*ℤ◌
fixed_mul a b = to_s32 (shift_scale (a *ℤ b))

unfoldable pub fixed_mul_s32 : ℤ → ℤ → ℤ
unfolding fixed_mul to_s32 ◌*ℤ◌
fixed_mul_s32 a b = fixed_mul a (to_s32 (b *ℤ rl_fixed_1))
