-- ===== src/Tests/NegamaxTests.antt =====
-- src/negamax.c: instances of the theorems.
use kxo.Prelude.{ℕ, ◌+◌, ◌≡◌, inr, refl, arith, [], true, not, ◌==◌, ◌*◌, ◌%◌, if◌then◌else◌}
use kxo.Prelude.Tables.{passes, passes-at}
use kxo.Prelude.Int.{pos, negsuc}
use kxo.Board.{table_get_cell, cell_d, cell_x, cell_empty}
use kxo.Board.Win.{check_win}
use kxo.Board.Answers.{IsMove}
use kxo.Board.Win.Correct.{IsBoard}
use kxo.Zobrist.{zobrist_init, zobrist_get}
use kxo.Negamax.{Search, Calls, no_move, negamax, negamax_predict}
use kxo.Negamax.Scores.{IsResult, CacheWithin}
use kxo.Negamax.Answer.{Sorts, IsClear, negamax_predict-IsMove, negamax-IsResult}

-- O at 0, 1 and 5; X at 4 and 8.
abbrev open_board : ℕ
open_board = 0x20605

open_board-IsBoard : IsBoard open_board
unfolding passes table_get_cell
open_board-IsBoard = record {
  word = omega arith;
  cells = λ p h e.
      ground (arith, passes-at (λ q. not (table_get_cell open_board q == cell_d)) 16 p h refl);
}

open_board-open : check_win open_board ≡ cell_empty
unfolding check_win
open_board-open = refl

-- A sort that leaves the array, keys that differ, and memory for every other entry.
abbrev simple_calls : Calls
simple_calls = record {
  sort = λ cmp moves. moves;
  zobrist_table = λ cell x. 2 * cell + (if x then 1 else 0);
  granted = λ s. s.hash_value % 2 == 0;
}

simple_calls-Sorts : Sorts simple_calls
simple_calls-Sorts = record { keeps = λ cmp moves m. (λ e. e, λ e. e) }

abbrev fresh_search : Search
fresh_search = record {
  history_score_sum = [];
  history_count = [];
  hash_value = 5;
  cache = zobrist_init true;
}

fresh-IsClear : IsClear fresh_search.cache
unfolding zobrist_init zobrist_get
fresh-IsClear key = refl

fresh-CacheWithin : CacheWithin fresh_search.cache
fresh-CacheWithin key score move e =
    let clear = fresh-IsClear key in absurd (ground (arith, e, clear))

negamax_predict-IsMove_example :
    let (m, s') = negamax_predict simple_calls no_move open_board cell_x fresh_search in
    IsMove open_board m × IsClear s'.cache × (s'.hash_value ≡ 5)
negamax_predict-IsMove_example =
    negamax_predict-IsMove simple_calls simple_calls-Sorts no_move open_board cell_x fresh_search
      open_board-IsBoard open_board-open (inr refl) fresh-IsClear

negamax-IsResult_example :
    let (r, s') = negamax simple_calls 4 open_board cell_x (negsuc 99) (pos 100) fresh_search in
    IsResult fresh_search r.score s'
negamax-IsResult_example =
    negamax-IsResult simple_calls simple_calls-Sorts 4 open_board cell_x (negsuc 99) (pos 100)
      fresh_search open_board-IsBoard (inr refl) fresh-CacheWithin
