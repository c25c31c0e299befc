-- ===== src/Score.antt =====
-- include/util.h: the score of a board for a player, the sum of the scores of its segments. The
-- numbers stay far inside `int`, so they are integers here.
pub mod Laws
use kxo.Prelude.{ℕ, List, [], ◌∷◌, Bool, Option, none, some, ◌==◌, if◌then◌else◌}
use kxo.Prelude.Int.{ℤ, pos, negsuc, ◌+ℤ◌, ◌*ℤ◌, ltb_ℤ}
use kxo.Board.{table_get_cell, cell_empty}
use kxo.Board.Lines.{fill_win_patterns}

-- `if (score) score *= 10; else score = first;`
unfoldable pub grow : ℤ → ℤ → ℤ
unfolding ◌*ℤ◌
grow first (pos n) = if n == 0 then first else pos n *ℤ pos 10
grow first (negsuc n) = negsuc n *ℤ pos 10

-- One round of the loop over `j`; `none` is the `return 0`.
unfoldable pub score_cell : ℕ → ℕ → ℤ → Option ℤ
unfolding grow
score_cell curr player score =
    if curr == player
    then (if ltb_ℤ score (pos 0) then none else some (grow (pos 1) score))
    else (if curr == cell_empty
        then some score
        else (if ltb_ℤ (pos 0) score then none else some (grow (negsuc 0) score)))

-- The loop over the cells of a segment, from `score` on.
unfoldable pub eval_cells : ℕ → ℕ → List ℕ → ℤ → ℤ
unfolding score_cell
eval_cells table player [] score = score
eval_cells table player (cell ∷ rest) score =
    elim (score_cell (table_get_cell table cell) player score) [
      | none ↦ pos 0
      | some score' ↦ eval_cells table player rest score'
    ]

-- The function takes the row of `xo_segment_lines` in place of its number.
unfoldable pub eval_line_segment_score : ℕ → ℕ → List ℕ → ℤ
unfolding eval_cells
eval_line_segment_score table player row = eval_cells table player row (pos 0)

unfoldable pub sum_segments : ℕ → ℕ → List (List ℕ) → ℤ → ℤ
unfolding eval_line_segment_score ◌+ℤ◌
sum_segments table player [] score = score
sum_segments table player (row ∷ rest) score =
    sum_segments table player rest (score +ℤ eval_line_segment_score table player row)

unfoldable pub get_score : ℕ → ℕ → ℤ
unfolding sum_segments fill_win_patterns
get_score table player = sum_segments table player fill_win_patterns.xo_segment_lines (pos 0)
