-- ===== src/Mcts/Simulated.antt =====
-- src/mcts.c: a simulated game comes to its end.
use kxo.Prelude.{
  ℕ, zero, suc, ◌+◌, ◌%◌, ◌<◌, ◌≡◌, inl, inr, refl, sym, ap, ◌∙◌, arith, List, [], ◌∷◌, false, some,
  Bool-cases, ◌==◌, get_or, take, length, Elem, Elem-map_inv, length-map, ◌^◌,
}
use mathlib.Core.Path.{subst}
use native.Mathlib.Nat.{mod-lt}
use kxo.Prelude.Int.{ℤ, pos, negsuc, pos_part}
use kxo.Board.{n_grids, cell_empty, val_set_cell, empty_grids}
use kxo.Board.Win.{check_win, calculate_win_value}
use kxo.Board.Win.Correct.{IsBoard}
use kxo.Board.Moves.{available_moves, count_moves}
use kxo.Board.Moves.Laws.{available_moves_lem, length-empty_grids}
use kxo.Board.Moves.Count.{length-empty_grids-set}
use kxo.Engine.Move.Keeps.{set_cell-IsBoard}
use kxo.Random.{StateArray, xoro_next, xoro_jump}
use kxo.Board.Answers.{IsPlayer, IsMove, IsPlayer-lt, IsPlayer-ne, IsPlayer-other}
use kxo.Mcts.{other_player, no_moves, simulate_loop, simulate}

-- A move of a player to an empty cell of a board.
pub set_move-IsBoard :
    (table player : ℕ) (m : ℤ)
    → IsBoard table
    → IsPlayer player
    → IsMove table m
    → IsBoard (val_set_cell table (pos_part m) player)
      × (length (empty_grids (val_set_cell table (pos_part m) player)) + 1
          ≡ length (empty_grids table))
set_move-IsBoard table player m v is (p, e, lt, free) = rw e (
  set_cell-IsBoard table p player v lt (IsPlayer-lt player is),
  length-empty_grids-set table p player v.word lt (omega (arith, IsPlayer-lt player is))
      (IsPlayer-ne player is) free,
)

get_or-take :
    (xs : List ℤ) (n i : ℕ)
    → i < n
    → i < length (take n xs)
    → Elem (get_or xs i (pos 0)) (take n xs)
get_or-take [] zero i lt lt' = absurd (omega (arith, lt))
get_or-take [] (suc n) i lt lt' = absurd (omega (arith, lt'))
get_or-take (x ∷ xs) zero i lt lt' = absurd (omega (arith, lt))
get_or-take (x ∷ xs) (suc n) zero lt lt' = inl refl
get_or-take (x ∷ xs) (suc n) (suc i) lt lt' =
    inr (get_or-take xs n i (omega (arith, lt)) (omega (arith, lt')))

some_moves : (moves : List ℤ) → no_moves moves ≡ false → 0 < count_moves n_grids moves
unfolding no_moves count_moves
some_moves [] e = absurd (ground (arith, e))
some_moves (pos m ∷ moves) e = omega arith
some_moves (negsuc z ∷ moves) e = absurd (ground (arith, e))

-- A move that is drawn is to an empty cell.
drawn-IsMove :
    (table r : ℕ)
    → no_moves (available_moves table) ≡ false
    → IsMove table
        (get_or (available_moves table) (r % count_moves n_grids (available_moves table)) (pos 0))
drawn-IsMove table r e =
    let moves = available_moves table in
    let n = count_moves n_grids moves in
    let reads = (available_moves_lem table).0 in
    let lt : r % n < n = mod-lt r (some_moves moves e) in
    let size : length (take n moves) ≡ n =
      ap length reads.1 ∙ length-map (empty_grids table) pos ∙ sym reads.0 in
    let there = get_or-take moves n (r % n) lt (omega (arith, lt, size)) in
    let (p, found, is) =
      Elem-map_inv pos (get_or moves (r % n) (pos 0)) (empty_grids table)
        (subst (λ ms. Elem (get_or moves (r % n) (pos 0)) ms) reads.1 there) in
    let free = ((available_moves_lem table).2 p).0 found in (p, is, free.0, free.1)

-- The loop of `simulate` ends, with more fuel than there are empty cells.
simulate_loop-ends :
    (fuel table current player : ℕ) (rnd : StateArray)
    → IsBoard table
    → IsPlayer current
    → length (empty_grids table) < fuel
    → (result : ℕ × StateArray) × (simulate_loop fuel table current player rnd ≡ some result)
unfolding simulate_loop
simulate_loop-ends zero table current player rnd v is enough = absurd (omega (arith, enough))
simulate_loop-ends (suc fuel) table current player rnd v is enough =
    elim (Bool-cases (no_moves (available_moves table))) [
      | inl full ↦ ((2 ^ 15, rnd), rw (full, simulate_loop) refl)
      | inr open_cells ↦
          let moves = available_moves table in
          let move = get_or moves ((xoro_next rnd).0 % count_moves n_grids moves) (pos 0) in
          let table' = val_set_cell table (pos_part move) current in
          let (v', fewer) =
            set_move-IsBoard table current move v is
              (drawn-IsMove table (xoro_next rnd).0 open_cells) in
          elim (Bool-cases (check_win table' == cell_empty)) [
            | inr over ↦ (
              (calculate_win_value (check_win table') player, (xoro_next rnd).1),
              rw (open_cells, over, simulate_loop) refl,
            )
            | inl still ↦
                let (result, ends) =
                  simulate_loop-ends fuel table' (other_player current) player (xoro_next rnd).1 v'
                    (IsPlayer-other current is) (omega (arith, fewer, enough)) in
                (result, rw (open_cells, still, simulate_loop) ends)
          ]
    ]

pub simulate-ends :
    (table player : ℕ) (rnd : StateArray)
    → IsBoard table
    → IsPlayer player
    → (result : ℕ × StateArray) × (simulate table player rnd ≡ some result)
unfolding simulate
simulate-ends table player rnd v is =
    simulate_loop-ends (n_grids + 1) table player player (xoro_jump rnd) v is (cells_lt table)
  where
    cells_lt : (t : ℕ) → length (empty_grids t) < n_grids + 1
    cells_lt t = omega (arith, length-empty_grids t)
