-- ===== src/Terminal/Boards.antt =====
-- user/tui.c: `update_table`, the board of a game.
use kxo.Prelude.{
  ℕ, ◌+◌, ◌-◌, ◌*◌, ◌/◌, ◌%◌, ◌^◌, List, [], ◌∷◌, ◌++◌, ◌==◌, if◌then◌else◌, not, ◌&&◌, get_or,
  length, replicate, bit_and, Bool,
}
use kxo.Board.{XoTable, n_grids, xo_attr_id, xo_attr_ai_alg, table_get_cell}
use kxo.Engine.{xo_ai_tot}
use kxo.Terminal.Strokes.{
  Glyph, chars, box, decimal, printed, printed_line, Stroke, each, stroke, put_one,
}

abbrev pub ui_cols : ℕ
ui_cols = 3

abbrev pub board_w : ℕ
board_w = 35

abbrev pub board_h : ℕ
board_h = 13

abbrev pub board_basey : ℕ
board_basey = 10

-- `x_ch` and `o_ch`, with their colours.
abbrev pub coloured : ℕ → ℕ → Glyph
coloured colour c = 0x1b ∷ b'[' ∷ b'3' ∷ colour ∷ b'm' ∷ c ∷ 0x1b ∷ b'[' ∷ b'0' ∷ b'm' ∷ []

abbrev pub o_ch : Glyph
o_ch = coloured b'2' b'O'

abbrev pub x_ch : Glyph
x_ch = coloured b'1' b'X'

abbrev pub cell_tlb : List Glyph
cell_tlb = (b' ' ∷ []) ∷ o_ch ∷ x_ch ∷ []

-- The name of an agent, and `%4s` and `%-4s` of it.
unfoldable pub ai_name : ℕ → List Glyph
ai_name alg = if alg == 0 then chars "MCTS" else (if alg == 1 then chars "NEGA" else chars "RL")

abbrev pub space : Glyph
space = b' ' ∷ []

abbrev pub pad_left : List Glyph → List Glyph
pad_left name = replicate (4 - length name) space ++ name

abbrev pub pad_right : List Glyph → List Glyph
pad_right name = name ++ replicate (4 - length name) space

-- Where the board of a game stands.
abbrev pub board_x : ℕ → ℕ
board_x id = id % ui_cols * board_w + 1

abbrev pub board_y : ℕ → ℕ
board_y id = board_basey + id / ui_cols * (board_h - 1)

abbrev pub tlb_w : ℕ
tlb_w = 17

abbrev pub tlb_h : ℕ
tlb_h = 9

-- `DIVBY(j, 4)`.
abbrev pub divby4 : ℕ → Bool
divby4 j = bit_and j 3 == 0

-- The character of the frame in the row `i` and the column `j`.
unfoldable pub frame_glyph : ℕ → ℕ → Glyph
frame_glyph i j =
    let last_h = i + 1 == tlb_h in
    let last_w = j + 1 == tlb_w in
    if not (bit_and i 1 == 0)
    then (if divby4 j then box 0x94 0x82 else space)
    else (if j == 0
        then (if i == 0 then box 0x94 0x8c else (if last_h then box 0x94 0x94 else box 0x94 0x9c))
        else (if (i == 0) && last_w
            then box 0x94 0x90
            else (if divby4 j
                then (if i == 0
                    then box 0x94 0xac
                    else (if not (i == tlb_h - 1) && not last_w
                        then box 0x94 0xbc
                        else (if last_h && not last_w
                            then box 0x94 0xb4
                            else (if last_h && last_w then box 0x94 0x98 else box 0x94 0xa4))))
                else box 0x94 0x80)))

unfoldable pub frame_row : ℕ → ℕ → ℕ → List Stroke
unfolding frame_glyph
frame_row tlb_x tlb_y i = stroke tlb_x (tlb_y + i) (each tlb_w (λ j. put_one (frame_glyph i j)))

-- Where the cell `i` of a game stands.
abbrev pub pos_x : ℕ → ℕ → ℕ
pos_x id i = board_x id + 9 + 2 + bit_and i 3 * 4

abbrev pub pos_y : ℕ → ℕ → ℕ
pos_y id i = board_y id + 3 + 1 + i / 4 * 2

unfoldable pub cell_stroke : ℕ → ℕ → ℕ → List Stroke
unfolding table_get_cell
cell_stroke id table i =
    stroke (pos_x id i) (pos_y id i)
      (printed (get_or cell_tlb (table_get_cell table i) [] ∷ []) ∷ [])

unfoldable pub update_table : XoTable → List Stroke
update_table tlb =
    let id = xo_attr_id tlb.attr in
    let alg = xo_attr_ai_alg tlb.attr in
    let x = board_x id in
    let y = board_y id in
    stroke (x + 15) (y + 2) (printed_line (chars "Game-" ++ decimal id) ∷ [])
    ++ (each tlb_h (frame_row (x + 9) (y + 3))
        ++ (each n_grids (cell_stroke id tlb.table)
            ++ stroke (x + 12) (y + 12) (
                printed_line (
                  pad_left (ai_name (alg % xo_ai_tot))
                  ++ chars " vs "
                  ++ pad_right (ai_name (alg / 2 ^ 2 % xo_ai_tot)))
                ∷ [])))
