-- ===== src/Board/Lines.antt =====
-- src/game.c: the table of the segments of three cells in a row, `fill_win_patterns`, and what a
-- segment is, stated without the table.
use kxo.Prelude.{ℕ, zero, suc, ◌+◌, ◌-◌, ◌*◌, ◌/◌, ◌%◌, ◌^◌, bit_or}
use kxo.Prelude.{Bool, List, [], ◌∷◌, ◌&&◌, ◌||◌}
use kxo.Prelude.{◌==◌, get_or, set, replicate}
use kxo.Prelude.Int.{ℤ, pos, negsuc, ◌+ℤ◌, ◌*ℤ◌}
use kxo.Board.{board_size, goal, cell_o, u32}

-- `line_t`.
pub record Line : Type 0 where
  pub i_shift : ℤ
  pub j_shift : ℤ
  pub i_lower_bound : ℕ
  pub j_lower_bound : ℕ
  pub i_upper_bound : ℕ
  pub j_upper_bound : ℕ

abbrev pub lines : List Line
lines =
    record {
      i_shift = pos 0;
      j_shift = pos 1;
      i_lower_bound = 0;
      j_lower_bound = 0;
      i_upper_bound = board_size;
      j_upper_bound = board_size - goal + 1;
    }
    ∷ record {
      i_shift = pos 1;
      j_shift = pos 0;
      i_lower_bound = 0;
      j_lower_bound = 0;
      i_upper_bound = board_size - goal + 1;
      j_upper_bound = board_size;
    }
    ∷ record {
      i_shift = pos 1;
      j_shift = pos 1;
      i_lower_bound = 0;
      j_lower_bound = 0;
      i_upper_bound = board_size - goal + 1;
      j_upper_bound = board_size - goal + 1;
    }
    ∷ record {
      i_shift = pos 1;
      j_shift = negsuc 0;
      i_lower_bound = 0;
      j_lower_bound = goal - 1;
      i_upper_bound = board_size - goal + 1;
      j_upper_bound = board_size;
    }
    ∷ []

-- `WIN_PATT_LEN(BOARD_SIZE, GOAL)`.
abbrev pub win_patt_len : ℕ → ℕ → ℕ
win_patt_len n goal = 2 * (n - goal + 1) * (n + (n - goal + 1))

abbrev pub winpat_len : ℕ
winpat_len = win_patt_len board_size goal

abbrev pub get_index : ℤ → ℤ → ℤ
get_index i j = i *ℤ pos board_size +ℤ j

-- The conversion to `u8`.
unfoldable pub to_u8 : ℤ → ℕ
to_u8 (pos n) = n % 2 ^ 8
to_u8 (negsuc n) = (2 ^ 8 - 1) - n % 2 ^ 8

unfoldable pub gen_o_winmask : ℕ → ℕ → ℕ → ℕ
gen_o_winmask a b c =
    bit_or (bit_or (u32 (cell_o * 2 ^ (a * 2))) (u32 (cell_o * 2 ^ (b * 2))))
      (u32 (cell_o * 2 ^ (c * 2)))

-- The two tables and the write index `w`.
pub record Tables : Type 0 where
  pub win_patterns : List ℕ
  pub xo_segment_lines : List (List ℕ)
  pub w : ℕ

abbrev zero_tables : Tables
zero_tables = record {
  win_patterns = replicate winpat_len 0;
  xo_segment_lines = replicate winpat_len (replicate goal 0);
  w = 0;
}

-- The loop over `k`, from `k` on, with `left` rounds to come: it writes one row.
fill_row : ℕ → ℕ → Line → ℤ → ℤ → List ℕ → List ℕ
unfolding to_u8 ◌+ℤ◌ ◌*ℤ◌
fill_row zero k line i j row = row
fill_row (suc left) k line i j row =
    fill_row left (k + 1) line i j
      (set row k (to_u8 (get_index (i +ℤ pos k *ℤ line.i_shift) (j +ℤ pos k *ℤ line.j_shift))))

-- The body of the loop over `j`.
fill_entry : Line → ℕ → ℕ → Tables → Tables
unfolding fill_row gen_o_winmask to_u8 ◌+ℤ◌ ◌*ℤ◌
fill_entry line i j t =
    let old = get_or t.xo_segment_lines t.w [] in
    let row =
      fill_row (goal - 1) 1 line (pos i) (pos j) (set old 0 (to_u8 (get_index (pos i) (pos j)))) in
    record {
      win_patterns =
          set t.win_patterns t.w (gen_o_winmask (get_or row 0 0) (get_or row 1 0) (get_or row 2 0));
      xo_segment_lines = set t.xo_segment_lines t.w row;
      w = t.w + 1;
    }

fill_columns : ℕ → Line → ℕ → ℕ → Tables → Tables
unfolding fill_entry
fill_columns zero line i j t = t
fill_columns (suc left) line i j t = fill_columns left line i (j + 1) (fill_entry line i j t)

fill_rows : ℕ → Line → ℕ → Tables → Tables
unfolding fill_columns
fill_rows zero line i t = t
fill_rows (suc left) line i t =
    fill_rows left line (i + 1)
      (fill_columns (line.j_upper_bound - line.j_lower_bound) line i line.j_lower_bound t)

fill_lines : List Line → Tables → Tables
unfolding fill_rows
fill_lines [] t = t
fill_lines (line ∷ rest) t =
    fill_lines rest (fill_rows (line.i_upper_bound - line.i_lower_bound) line line.i_lower_bound t)

unfoldable pub fill_win_patterns : Tables
unfolding fill_lines
fill_win_patterns = fill_lines lines zero_tables

-- Three cells in a row, stated by rows and columns: each step adds the same `(di, dj)`, one of
-- right, down, down-right and down-left.
abbrev pub step_right : ℕ → ℕ → Bool
step_right a b = (a / 4 == b / 4) && (a % 4 + 1 == b % 4)

abbrev pub step_down : ℕ → ℕ → Bool
step_down a b = (a / 4 + 1 == b / 4) && (a % 4 == b % 4)

abbrev pub step_down_right : ℕ → ℕ → Bool
step_down_right a b = (a / 4 + 1 == b / 4) && (a % 4 + 1 == b % 4)

abbrev pub step_down_left : ℕ → ℕ → Bool
step_down_left a b = (a / 4 + 1 == b / 4) && (a % 4 == b % 4 + 1)

unfoldable pub in_row : ℕ → ℕ → ℕ → Bool
in_row a b c =
    (step_right a b && step_right b c)
    || (step_down a b && step_down b c)
    || (step_down_right a b && step_down_right b c)
    || (step_down_left a b && step_down_left b c)
