-- ===== src/Mcts/Uct.antt =====
-- src/mcts.c: the fixed-point arithmetic by which the MCTS agent prefers moves.
pub mod Root
use kxo.Prelude.{
  ℕ, zero, suc, ◌+◌, ◌-◌, ◌*◌, ◌/◌, ◌^◌, Bool, true, false, ◌==◌, if◌then◌else◌, leb, ltb, not,
  ◌||◌, bit_and, bit_or,
}
use kxo.Board.{u32, u64}

-- `1U << FIXED_SCALE_BITS`.
abbrev pub one : ℕ
one = 2 ^ 16

abbrev pub fixed_max : ℕ
fixed_max = 2 ^ 32 - 1

-- `31 - __builtin_clz(x | 1)`: the place of the highest digit that is 1, up to `left`.
unfoldable pub top_bit : ℕ → ℕ → ℕ
top_bit zero x = 0
top_bit (suc left) x =
    let lower = top_bit left x in if leb (2 ^ suc left) x then suc left else lower

-- The loop from the digit `left - 1` down.
unfoldable pub sqrt_loop : ℕ → ℕ → ℕ → ℕ
sqrt_loop zero x s = s
sqrt_loop (suc i) x s =
    let candidate = s + 2 ^ i in
    sqrt_loop i x (if leb (u64 (candidate * candidate) / one) x then u32 candidate else s)

unfoldable pub fixed_sqrt : ℕ → ℕ
unfolding sqrt_loop top_bit
fixed_sqrt x = if (x == 0) || (x == one) then x else sqrt_loop (top_bit 31 x + 1) x 0

-- `z` multiplied by `y` for `i` rounds.
unfoldable pub power_loop : ℕ → ℕ → ℕ → ℕ
power_loop zero y z = z
power_loop (suc i) y z = power_loop i y (u32 (z * y / one))

-- The sum of the series, with `left` terms to come, from the power `i` on.
unfoldable pub series_loop : ℕ → ℕ → ℕ → ℕ → ℕ
unfolding power_loop
series_loop zero i y ans = ans
series_loop (suc left) i y ans =
    let z = power_loop i y one in series_loop left (i + 2) y (u32 (ans + u32 (z * one / (i * one))))

-- The size of `v - 1`, whose sign is kept apart.
unfoldable pub numerator : ℕ → ℕ
numerator v =
    let difference = u32 (v + (2 ^ 32 - one)) in
    if bit_and difference (2 ^ 31) == 0
    then difference
    else 2 ^ 31 - bit_and difference (2 ^ 31 - 1)

unfoldable pub fixed_log : ℕ → ℕ
unfolding numerator series_loop
fixed_log v =
    let neg = not (bit_and (u32 (v + (2 ^ 32 - one))) (2 ^ 31) == 0) in
    let y = u32 (numerator v * one / (v + one)) in
    let ans = u32 (series_loop 10 1 y 0 * 2) in
    if (v == 0) || (v == one) then 0 else (if neg then bit_or ans (2 ^ 31) else ans)

unfoldable pub uct_score : ℕ → ℕ → ℕ → ℕ
unfolding fixed_sqrt fixed_log
uct_score n_total n_visits score =
    let result = u32 (score / n_visits) in
    let log_val = fixed_log (if ltb n_total 65536 then u32 (n_total * one) else fixed_max) in
    let tmp = u32 (u64 (fixed_sqrt (2 ^ 17) * fixed_sqrt (log_val / n_visits)) / one) in
    if n_visits == 0 then fixed_max else u32 (result + tmp)
