-- ===== src/Board.antt =====
-- include/game.h and src/game.c: the packed board, its attribute word, the record of moves, the
-- patterns of three in a row, and the test for a finished game.
pub mod Fields
pub mod Answers
pub mod Lines
pub mod Win
pub mod Moves
use kxo.Prelude.{ℕ, zero, suc, ◌+◌, ◌-◌, ◌*◌, ◌/◌, ◌%◌, ◌^◌, ◌<◌, bit_and, bit_or, bit_xor}
use kxo.Prelude.{Bool, true, false, List, [], ◌∷◌, ◌++◌, map}
use kxo.Prelude.{◌==◌, ltb, leb, if◌then◌else◌, length, get_or, set, not, ◌||◌}

abbrev pub board_size : ℕ
board_size = 4

abbrev pub goal : ℕ
goal = 3

abbrev pub n_grids : ℕ
n_grids = board_size * board_size

abbrev pub n_games : ℕ
n_games = 9

abbrev pub cell_empty : ℕ
cell_empty = 0

abbrev pub cell_o : ℕ
cell_o = 1

abbrev pub cell_x : ℕ
cell_x = 2

abbrev pub cell_d : ℕ
cell_d = 3

-- `unsigned int` and `unsigned long` have 32 and 64 bits; a left shift drops what leaves the word.
abbrev pub u32 : ℕ → ℕ
u32 x = x % 2 ^ 32

abbrev pub u64 : ℕ → ℕ
u64 x = x % 2 ^ 64

abbrev pub not32 : ℕ → ℕ
not32 x = 2 ^ 32 - 1 - x

abbrev pub not64 : ℕ → ℕ
not64 x = 2 ^ 64 - 1 - x

unfoldable pub set_bits : ℕ → ℕ → ℕ → ℕ → ℕ
set_bits x value mask n = bit_or (bit_and x (not32 (u32 (mask * 2 ^ n)))) (u32 (value * 2 ^ n))

unfoldable pub get_bits : ℕ → ℕ → ℕ → ℕ
get_bits x mask n = bit_and x (u32 (mask * 2 ^ n)) / 2 ^ n

unfoldable pub set_bits64 : ℕ → ℕ → ℕ → ℕ → ℕ
set_bits64 x value mask n = bit_or (bit_and x (not64 (u64 (mask * 2 ^ n)))) (u64 (value * 2 ^ n))

-- The result is narrowed to `unsigned int`.
unfoldable pub get_bits64 : ℕ → ℕ → ℕ → ℕ
get_bits64 x mask n = u32 (bit_and x (u64 (mask * 2 ^ n)) / 2 ^ n)

-- `struct xo_table`.
pub record XoTable : Type 0 where
  pub attr : ℕ
  pub table : ℕ
  pub moves : ℕ

unfoldable pub xo_attr_id : ℕ → ℕ
xo_attr_id attr = bit_and attr 0xf

unfoldable pub xo_attr_steps : ℕ → ℕ
unfolding get_bits
xo_attr_steps attr = get_bits attr 0x1f 4

unfoldable pub xo_attr_ai_alg : ℕ → ℕ
unfolding get_bits
xo_attr_ai_alg attr = get_bits attr 0xf 9

unfoldable pub xo_set_attr_steps : ℕ → ℕ → ℕ
unfolding set_bits
xo_set_attr_steps attr steps = set_bits attr steps 0x1f 0x4

unfoldable pub xo_set_attr_ai_alg : ℕ → ℕ → ℕ → ℕ
unfolding set_bits
xo_set_attr_ai_alg attr ai1 ai2 = set_bits attr (bit_or ai1 (u32 (ai2 * 2 ^ 2))) 0xf 0x9

-- `SET_RECORD_CELL(moves, step, n)`: the cell `step` goes into the nibble `n`.
unfoldable pub set_record_cell : ℕ → ℕ → ℕ → ℕ
unfolding set_bits64
set_record_cell moves step n = set_bits64 moves step 0xf (n * 4)

unfoldable pub get_record_cell : ℕ → ℕ → ℕ
unfolding get_bits64
get_record_cell moves id = get_bits64 moves 0xf (id * 4)

unfoldable pub val_set_cell : ℕ → ℕ → ℕ → ℕ
unfolding set_bits
val_set_cell table pos cell = set_bits table cell 3 (pos * 2)

unfoldable pub table_get_cell : ℕ → ℕ → ℕ
unfolding get_bits
table_get_cell table pos = get_bits table 3 (pos * 2)

-- The cells `i ..` of `for_each_empty_grid`, of which `left` are to come.
unfoldable pub empty_grids_from : ℕ → ℕ → ℕ → List ℕ
unfolding table_get_cell
empty_grids_from zero i table = []
empty_grids_from (suc left) i table =
    let rest = empty_grids_from left (i + 1) table in
    if table_get_cell table i == cell_empty then i ∷ rest else rest

unfoldable pub empty_grids : ℕ → List ℕ
unfolding empty_grids_from
empty_grids table = empty_grids_from n_grids 0 table
