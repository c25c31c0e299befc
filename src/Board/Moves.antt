-- ===== src/Board/Moves.antt =====
-- src/game.c: `available_moves`, the array of the empty cells that ends with -1, and the loop by
-- which its callers count the moves in it. The allocation by `kzalloc` is taken to succeed, as the
-- code takes it to.
pub mod Laws
pub mod Count
use kxo.Prelude.{ℕ, zero, suc, ◌+◌, ◌-◌, List, [], ◌∷◌, ◌==◌, if◌then◌else◌, ltb, set, replicate}
use kxo.Prelude.{Bool, true, false}
use kxo.Prelude.Int.{ℤ, pos, negsuc}
use kxo.Board.{n_grids, cell_empty, table_get_cell}

-- The count `m` and the array.
pub record Filled : Type 0 where
  pub m : ℕ
  pub moves : List ℤ

-- `for_each_empty_grid(i, table) moves[m++] = i;` from `i` on, with `left` cells to come.
unfoldable pub fill_moves : ℕ → ℕ → ℕ → Filled → Filled
fill_moves zero i table f = f
fill_moves (suc left) i table f = fill_moves left (i + 1) table (
    if table_get_cell table i == cell_empty
    then record { m = f.m + 1; moves = set f.moves f.m (pos i) }
    else f)

-- `moves[m] = -1` unless the array is full.
unfoldable pub end_moves : Filled → List ℤ
end_moves f = if ltb f.m n_grids then set f.moves f.m (negsuc 0) else f.moves

unfoldable pub available_moves : ℕ → List ℤ
unfolding fill_moves end_moves
available_moves table =
    end_moves (fill_moves n_grids 0 table (record { m = 0; moves = replicate n_grids (pos 0) }))

-- `while (n_moves < N_GRIDS && moves[n_moves] != -1) ++n_moves;` with `left` cells to come.
unfoldable pub count_moves : ℕ → List ℤ → ℕ
count_moves zero moves = 0
count_moves (suc left) [] = 0
count_moves (suc left) (negsuc _ ∷ rest) = 0
count_moves (suc left) (pos i ∷ rest) = count_moves left rest + 1
