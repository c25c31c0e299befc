-- ===== src/Tests/BoardTests.antt =====
-- src/game.c, include/game.h and include/util.h: runs, and instances of the theorems.
use kxo.Prelude.{
  ℕ, ◌⊎◌, ◌↔◌, ◌≢◌, ◌+◌, ◌*◌, true, false, ◌<◌, ◌^◌, ◌≡◌, refl, arith, [], ◌∷◌, ◌==◌, not,
}
use kxo.Prelude.Tables.{passes, passes-at}
use kxo.Prelude.Int.{pos, negsuc, ◌-ℤ◌}
use kxo.Board.{
  table_get_cell, val_set_cell, xo_set_attr_steps, xo_attr_steps, xo_attr_id, xo_attr_ai_alg,
  xo_set_attr_ai_alg, cell_empty, empty_grids, set_record_cell, get_record_cell, cell_d, cell_o,
  cell_x,
}
use kxo.Board.Fields.{
  get_cell-set_cell, set_attr_steps_lem, set_attr_ai_alg_lem, get_record-set_record,
}
use kxo.Board.Win.{check_win, detect_empty_cell}
use kxo.Board.Win.Cells.{detect_empty_cell_lem}
use kxo.Prelude.{Elem}
use kxo.Board.Moves.Laws.{Reads, Ascends, available_moves_lem}
use kxo.Board.Win.Correct.{IsBoard, Verdict, check_win_lem}
use kxo.Board.Moves.{available_moves}
use kxo.Score.{get_score, eval_line_segment_score}
use kxo.Score.Laws.{
  get_score_negates, get_score-Within, Within, eval_line_segment_score_lem, segment_value, own_cell,
  other_cell,
}

-- O at 0, 1 and 2; X at 4 and 8.
abbrev top_row : ℕ
top_row = 0x20215

top_row-IsBoard : IsBoard top_row
unfolding passes table_get_cell
top_row-IsBoard = record {
  word = omega arith;
  cells = λ p h e.
      ground (arith, passes-at (λ q. not (table_get_cell top_row q == cell_d)) 16 p h refl);
}

check_win-top_row : check_win top_row ≡ 1
unfolding check_win
check_win-top_row = refl

moves_of_top_row :
    available_moves top_row
    ≡ pos 3
      ∷ pos 5
      ∷ pos 6
      ∷ pos 7
      ∷ pos 9
      ∷ pos 10
      ∷ pos 11
      ∷ pos 12
      ∷ pos 13
      ∷ pos 14
      ∷ pos 15
      ∷ negsuc 0
      ∷ pos 0
      ∷ pos 0
      ∷ pos 0
      ∷ pos 0
      ∷ []
unfolding available_moves table_get_cell
moves_of_top_row = refl

score_of_top_row : get_score top_row cell_o ≡ pos 101
unfolding get_score table_get_cell
score_of_top_row = refl

get_cell-set_cell_example : table_get_cell (val_set_cell top_row 3 2) 3 ≡ 2
get_cell-set_cell_example =
    get_cell-set_cell top_row 3 3 2 (omega arith) (omega arith) (omega arith) (omega arith)

set_attr_steps_lem_example :
    let attr' = xo_set_attr_steps 0x1205 7 in
    (xo_attr_steps attr' ≡ 7)
    × (xo_attr_id attr' ≡ xo_attr_id 0x1205)
    × (xo_attr_ai_alg attr' ≡ xo_attr_ai_alg 0x1205)
    × (attr' < 2 ^ 32)
set_attr_steps_lem_example = set_attr_steps_lem 0x1205 7 (omega arith) (omega arith)

get_record-set_record_example : get_record_cell (set_record_cell 0x21 11 5) 5 ≡ 11
get_record-set_record_example =
    get_record-set_record 0x21 11 5 5 (omega arith) (omega arith) (omega arith) (omega arith)

check_win_lem_example : Verdict top_row (check_win top_row)
check_win_lem_example = check_win_lem top_row top_row-IsBoard

get_score_negates_example : get_score top_row cell_x ≡ pos 0 -ℤ get_score top_row cell_o
get_score_negates_example = get_score_negates top_row top_row-IsBoard

set_attr_ai_alg_lem_example :
    let attr' = xo_set_attr_ai_alg 0x45 2 1 in
    (xo_attr_ai_alg attr' ≡ 1 * 4 + 2)
    × (xo_attr_id attr' ≡ xo_attr_id 0x45)
    × (xo_attr_steps attr' ≡ xo_attr_steps 0x45)
    × (attr' < 2 ^ 32)
set_attr_ai_alg_lem_example = set_attr_ai_alg_lem 0x45 2 1 (omega arith) (omega arith) (omega arith)

detect_empty_cell_lem_example :
    ((detect_empty_cell top_row ≡ true)
      × ((p : ℕ) × (p < 16) × (table_get_cell top_row p ≡ cell_empty)))
    ⊎ ((detect_empty_cell top_row ≡ false)
        × ((p : ℕ) → p < 16 → table_get_cell top_row p ≢ cell_empty))
detect_empty_cell_lem_example = detect_empty_cell_lem top_row (omega arith)

available_moves_lem_example :
    Reads (available_moves top_row) (empty_grids top_row)
    × Ascends 0 (empty_grids top_row)
    × ((p : ℕ)
        → Elem p (empty_grids top_row) ↔ ((p < 16) × (table_get_cell top_row p ≡ cell_empty)))
available_moves_lem_example = available_moves_lem top_row

eval_line_segment_score_lem_example :
    eval_line_segment_score top_row cell_x (0 ∷ 1 ∷ 2 ∷ [])
    ≡ segment_value
        (own_cell top_row cell_x 0 + own_cell top_row cell_x 1 + own_cell top_row cell_x 2)
        (other_cell top_row cell_x 0 + other_cell top_row cell_x 1 + other_cell top_row cell_x 2)
eval_line_segment_score_lem_example = eval_line_segment_score_lem top_row cell_x 0 1 2

get_score-Within_example : Within 2400 (get_score top_row cell_o)
get_score-Within_example = get_score-Within top_row cell_o
