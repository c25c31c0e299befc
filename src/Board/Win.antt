-- ===== src/Board/Win.antt =====
-- src/game.c: `detect_empty_cell`, `check_win`, `calculate_win_value`.
pub mod Patterns
pub mod Cells
pub mod Correct
use kxo.Prelude.{ℕ, ◌-◌, ◌*◌, ◌/◌, ◌%◌, ◌^◌, bit_and, bit_or, bit_xor}
use kxo.Prelude.{Bool, true, false, List, [], ◌∷◌, Option, none, some, not}
use kxo.Prelude.{◌==◌, if◌then◌else◌}
use kxo.Board.{cell_empty, cell_o, cell_x, cell_d, u32}
use kxo.Board.Lines.{fill_win_patterns}

unfoldable pub detect_empty_cell : ℕ → Bool
detect_empty_cell board =
    let lo = bit_and board 0x55555555 in
    let hi = bit_and board 0xAAAAAAAA in not (bit_or lo (hi / 2) == 0x55555555)

-- The loop of `check_win`; `none` when no pattern returned.
unfoldable pub check_patterns : List ℕ → ℕ → Option ℕ
check_patterns [] table = none
check_patterns (patt ∷ rest) table =
    let later = check_patterns rest table in
    let patt' = u32 (patt * 2) in
    if bit_and table patt == patt
    then some cell_o
    else (if bit_and table patt' == patt' then some cell_x else later)

-- After the loop: its early return, or the test for a draw.
unfoldable pub after_scan : ℕ → Option ℕ → ℕ
unfolding detect_empty_cell
after_scan table (some winner) = winner
after_scan table none = if detect_empty_cell table then cell_empty else cell_d

unfoldable pub check_win_in : List ℕ → ℕ → ℕ
unfolding check_patterns after_scan
check_win_in win_patterns table =
    if table == 0 then cell_empty else after_scan table (check_patterns win_patterns table)

-- `check_win` over the table that `fill_win_patterns` leaves.
unfoldable pub check_win : ℕ → ℕ
unfolding check_win_in fill_win_patterns
check_win = check_win_in fill_win_patterns.win_patterns

abbrev pub fixed_scale_bits : ℕ
fixed_scale_bits = 16

unfoldable pub calculate_win_value : ℕ → ℕ → ℕ
calculate_win_value win player =
    if win == player
    then 2 ^ fixed_scale_bits
    else (if win == bit_xor (bit_xor player cell_o) cell_x then 0 else 2 ^ (fixed_scale_bits - 1))
