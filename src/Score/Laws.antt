-- ===== src/Score/Laws.antt =====
-- include/util.h: the score of a segment by its counts, bounds, and the two players' scores.
use kxo.Prelude.{
  ℕ, suc, ◌+◌, ◌-◌, ◌*◌, ◌^◌, ◌<◌, ◌≡◌, refl, arith, List, [], ◌∷◌, true, ◌==◌, if◌then◌else◌,
}
use kxo.Prelude.Int.{ℤ, pos, ◌+ℤ◌, ◌-ℤ◌, ◌*ℤ◌, ◌≤ℤ◌, pos_part, neg_part, int_laws}
use kxo.Board.{table_get_cell, cell_empty, cell_o, cell_x}
use kxo.Prelude.{length, map, ap}
use kxo.Board.Win.Patterns.{
  fill_win_patterns_lem, Segment, row_of, segments, all_good, good_lem, segments_good,
}
use kxo.Board.Win.Correct.{IsBoard}
use kxo.Board.Fields.{get_cell-lt}
use kxo.Score.{grow, score_cell, eval_cells, eval_line_segment_score, sum_segments, get_score}

-- The value of a segment with `own` cells of the player and `other` cells of the opponent.
abbrev pub segment_value : ℕ → ℕ → ℤ
segment_value own other =
    if own == 0
    then (if other == 0 then pos 0 else pos 0 -ℤ pos (10 ^ (other - 1)))
    else (if other == 0 then pos (10 ^ (own - 1)) else pos 0)

abbrev pub own_cell : ℕ → ℕ → ℕ → ℕ
own_cell table player p = if table_get_cell table p == player then 1 else 0

abbrev pub other_cell : ℕ → ℕ → ℕ → ℕ
other_cell table player p =
    if table_get_cell table p == player
    then 0
    else (if table_get_cell table p == cell_empty then 0 else 1)

-- A segment scores a power of ten by its count when one side alone has cells in it, positive for
-- the player and negative for the opponent, and 0 when it is empty or both have.
pub eval_line_segment_score_lem :
    (table player a b c : ℕ)
    → eval_line_segment_score table player (a ∷ b ∷ c ∷ [])
      ≡ segment_value
          (own_cell table player a + own_cell table player b + own_cell table player c)
          (other_cell table player a + other_cell table player b + other_cell table player c)
unfolding eval_line_segment_score eval_cells score_cell grow ◌*ℤ◌ ◌-ℤ◌
eval_line_segment_score_lem table player a b c = ground arith

abbrev pub Within : ℕ → ℤ → Type 0
Within bound z = (pos 0 -ℤ pos bound ≤ℤ z) × (z ≤ℤ pos bound)

row_bound :
    (table player a b c : ℕ) → Within 100 (eval_line_segment_score table player (a ∷ b ∷ c ∷ []))
unfolding eval_line_segment_score eval_cells score_cell grow ◌*ℤ◌ ◌-ℤ◌
row_bound table player a b c = ground arith

sum_segments-Within :
    (table player bound : ℕ) (ss : List Segment) (score : ℤ)
    → Within bound score
    → Within (bound + 100 * length ss) (sum_segments table player (map row_of ss) score)
unfolding sum_segments
sum_segments-Within table player bound [] score h = omega (int_laws)
sum_segments-Within table player bound ((a, b, c) ∷ ss) score h =
    let e : bound + 100 + 100 * length ss ≡ bound + 100 * suc (length ss) = omega arith in
    rw e at (
      sum_segments-Within table player (bound + 100) ss
        (score +ℤ eval_line_segment_score table player (a ∷ b ∷ c ∷ []))
        (omega (int_laws, row_bound table player a b c)))

get_score-segments :
    (table player : ℕ)
    → get_score table player ≡ sum_segments table player (map row_of segments) (pos 0)
unfolding get_score
get_score-segments table player =
    ap (λ rows. sum_segments table player rows (pos 0)) fill_win_patterns_lem.1

-- The score of a board is between -2400 and 2400, for each player.
pub get_score-Within : (table player : ℕ) → Within 2400 (get_score table player)
get_score-Within table player =
    rw get_score-segments
      (sum_segments-Within table player 0 segments (pos 0) (unfold ◌-ℤ◌ in omega arith))

row_negates :
    (table a b c : ℕ)
    → table_get_cell table a < 3
    → table_get_cell table b < 3
    → table_get_cell table c < 3
    → eval_line_segment_score table cell_x (a ∷ b ∷ c ∷ [])
      ≡ pos 0 -ℤ eval_line_segment_score table cell_o (a ∷ b ∷ c ∷ [])
unfolding eval_line_segment_score eval_cells score_cell grow ◌*ℤ◌ ◌-ℤ◌
row_negates table a b c ha hb hc = ground arith

sum_segments_negates :
    (table : ℕ) (ss : List Segment) (x o : ℤ)
    → IsBoard table
    → all_good ss ≡ true
    → x ≡ pos 0 -ℤ o
    → sum_segments table cell_x (map row_of ss) x
      ≡ pos 0 -ℤ sum_segments table cell_o (map row_of ss) o
unfolding sum_segments all_good
sum_segments_negates table [] x o v g e = e
sum_segments_negates table ((a, b, c) ∷ ss) x o v g e =
    let (line, _, _) = good_lem (a, b, c) (ground arith) in
    let row = row_negates table a b c (small a line.0) (small b line.1) (small c line.2) in
    sum_segments_negates table ss _ _ v (ground arith)
      (omega (int_laws, ap pos_part e, ap neg_part e, ap pos_part row, ap neg_part row))
  where
    small : (p : ℕ) → p < 16 → table_get_cell table p < 3
    small p h = omega (arith, get_cell-lt table p v.word h, v.cells p h)

-- On a board with no reserved cell the score for X is the negation of the score for O.
pub get_score_negates :
    (table : ℕ) → IsBoard table → get_score table cell_x ≡ pos 0 -ℤ get_score table cell_o
get_score_negates table v =
    rw (get_score-segments, get_score-segments)
      (sum_segments_negates table segments (pos 0) (pos 0) v segments_good (unfold ◌-ℤ◌ in refl))
