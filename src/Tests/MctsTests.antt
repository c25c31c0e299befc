-- ===== src/Tests/MctsTests.antt =====
-- src/mcts.c: runs, and instances of the theorems.
use kxo.Prelude.{ℕ, ◌≤◌, ◌≡◌, inl, refl, arith, Bool, ◌==◌, ltb, not, some}
use kxo.Prelude.Tables.{passes, passes-at}
use kxo.Prelude.Int.{ℤ}
use kxo.Board.{table_get_cell, cell_d, cell_o}
use kxo.Board.Answers.{IsAnswer}
use kxo.Board.Win.Correct.{IsBoard}
use kxo.Random.{xoro_init}
use kxo.Mcts.{Mcts, mcts}
use kxo.Mcts.Answer.{mcts-IsAnswer}
use kxo.Mcts.Uct.{fixed_sqrt}
use kxo.Mcts.Uct.Root.{SquareUnder, fixed_sqrt_lem}

-- O at 0, 1 and 5; X at 4 and 8.
abbrev open_board : ℕ
open_board = 0x20605

open_board-IsBoard : IsBoard open_board
unfolding passes table_get_cell
open_board-IsBoard = record {
  word = omega arith;
  cells = λ p h e.
      ground (arith, passes-at (λ q. not (table_get_cell open_board q == cell_d)) 16 p h refl);
}

abbrev fresh_mcts : Mcts
fresh_mcts = record { xoro_obj = xoro_init; nr_active_nodes = 0; asked = 0 }

-- Memory for fifty nodes, and a stop after a thousand rounds.
abbrev some_memory : ℕ → Bool
some_memory n = ltb n 50

abbrev stop_late : ℕ → Bool
stop_late i = i == 1000

mcts-IsAnswer_example :
    (m : ℤ) × (st' : Mcts) × (mcts some_memory stop_late open_board cell_o fresh_mcts
      ≡ some (m, st'))
    × IsAnswer open_board m
mcts-IsAnswer_example =
    mcts-IsAnswer some_memory stop_late open_board cell_o fresh_mcts open_board-IsBoard (inl refl)

-- The root of 2, of 1/4 and of the smallest number.
root_of_two : fixed_sqrt 0x20000 ≡ 92682
unfolding fixed_sqrt
root_of_two = refl

root_of_quarter : fixed_sqrt 0x4000 ≡ 0x7fff
unfolding fixed_sqrt
root_of_quarter = refl

root_of_least : fixed_sqrt 1 ≡ 1
unfolding fixed_sqrt
root_of_least = refl

fixed_sqrt_lem_example :
    SquareUnder 0x20000 (fixed_sqrt 0x20000)
    × ((t : ℕ) → SquareUnder 0x20000 t → t ≤ fixed_sqrt 0x20000)
fixed_sqrt_lem_example = fixed_sqrt_lem 0x20000 (omega arith) (omega arith)
