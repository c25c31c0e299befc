-- ===== src/Terminal/Startup.antt =====
-- user/tui.c: what is sent to the terminal when the program begins and ends, with the logo and the
-- lines between the boards.
use kxo.Prelude.{
  ℕ, ◌+◌, ◌-◌, ◌*◌, ◌/◌, ◌%◌, List, [], ◌∷◌, ◌++◌, ◌==◌, if◌then◌else◌, not, ◌&&◌, ◌||◌, ltb,
  Option, none, some,
}
use kxo.Terminal.{Outbuf, Draw, write, print, flush, safe_write, outbuf_flush}
use kxo.Terminal.Strokes.{
  Glyph, chars, bytes_of, box, gotoxy, Stroke, Put, wrote, draws, each, stroke, put_one,
}
use kxo.Terminal.Boards.{ui_cols}

-- A sequence of ESC and a text.
abbrev pub esc : List Glyph → List ℕ
esc text = 0x1b ∷ bytes_of text

abbrev pub hide_cursor : List ℕ
hide_cursor = esc (chars "[?25l")

abbrev pub show_cursor : List ℕ
show_cursor = esc (chars "[?25h")

abbrev pub clear_screen : List ℕ
clear_screen = esc (chars "[2J") ++ esc (chars "[1;1H")

abbrev pub alt_buf_enable : List ℕ
alt_buf_enable = esc (chars "[?1049h")

abbrev pub alt_buf_disable : List ℕ
alt_buf_disable = esc (chars "[?1049l")

unfoldable pub save_xy : Draw
save_xy = write (esc (chars "[s"))

unfoldable pub restore_xy : Draw
restore_xy = write (esc (chars "[u"))

-- `tui_init` between `raw_mode_enable` and the setup of its variables.
unfoldable pub tui_init : List Draw
tui_init =
    write alt_buf_enable
    ∷ write (clear_screen ++ hide_cursor)
    ∷ print (some hide_cursor)
    ∷ flush
    ∷ []

-- `disable_raw` and `tui_quit` go past the buffer; `raw_mode_disable` is left out.
unfoldable pub disable_raw : Outbuf → Outbuf
unfolding safe_write outbuf_flush
disable_raw o = outbuf_flush (safe_write alt_buf_disable o)

unfoldable pub tui_quit : Outbuf → Outbuf
unfolding disable_raw safe_write
tui_quit o = disable_raw (safe_write (esc (chars "[0m")) (safe_write show_cursor o))

unfoldable pub clean_screen : Draw
clean_screen = print (some (esc (chars "[2J") ++ esc (chars "[H")))

-- The lines of a text, the last one without its end.
unfoldable pub lines_of : List ℕ → List (List ℕ)
lines_of [] = [] ∷ []
lines_of (c ∷ cs) = elim (lines_of cs) [
  | [] ↦ (c ∷ []) ∷ []
  | l ∷ ls ↦ if c == b'\n' then [] ∷ l ∷ ls else (c ∷ l) ∷ ls
]

-- The rounds of the loop of `render_logo`, each for one line, and its last `gotoxy`.
unfoldable pub logo_draws : ℕ → List (List ℕ) → List Draw
logo_draws k [] = gotoxy 38 k ∷ []
logo_draws k (l ∷ ls) = gotoxy 38 (k + 1) ∷ write l ∷ logo_draws (k + 1) ls

-- `logo` is the text up to its first 0, `none` for no file.
unfoldable pub render_logo : Option (List ℕ) → List Draw
unfolding lines_of logo_draws
render_logo none = []
render_logo (some logo) = logo_draws 0 (lines_of logo) ++ flush ∷ []

abbrev pub bod_w : ℕ
bod_w = 35

abbrev pub bod_h : ℕ
bod_h = 11

-- Where the lines of a board begin.
abbrev pub temp_x : ℕ → ℕ
temp_x i = i % ui_cols * bod_w

abbrev pub temp_y : ℕ → ℕ
temp_y i = 10 + i / ui_cols * (bod_h + 1)

-- The line above the boards of the first row, and its end.
unfoldable pub top_line : ℕ → ℕ → List Put
top_line n i =
    (if ltb i ui_cols then each bod_w (λ j. put_one (box 0x94 0x80)) else [])
    ++ (if (n == 1) && ltb i ui_cols
        then wrote ((0x08 ∷ []) ∷ box 0x94 0x90 ∷ []) ∷ []
        else (if (i + 1 == ui_cols) || (i + 1 == n) then put_one (box 0x94 0x90) else []))

-- The character in the row `j` of the line on the left, where it is none of the corners of the first column.
unfoldable pub left_glyph : ℕ → ℕ → ℕ → Glyph
left_glyph n i j =
    let first_col = i % ui_cols == 0 in
    let last = j == bod_h + 1 in
    if ltb i ui_cols && (j == 0)
    then box 0x94 0xac
    else (if last && ltb n (i + ui_cols)
        then box 0x94 0xb4
        else (if (j == 0) && not first_col
            then box 0x94 0xbc
            else (if (j == 0) && first_col then box 0x94 0x9c else box 0x94 0x82)))

unfoldable pub right_glyph : ℕ → ℕ → ℕ → Glyph
right_glyph n i j =
    let last_col = (i + 1) % ui_cols == 0 in
    let last = j == bod_h + 1 in
    if (last && (i + 1 == n - n % ui_cols)) || (last && (i + 1 == n))
    then box 0x94 0x98
    else (if (j == 0) && ((i + 1 == ui_cols) || ltb i ui_cols)
        then box 0x94 0x90
        else (if (j == 0) && last_col
            then box 0x94 0xa4
            else (if (j == 0) && (ltb ui_cols i && ltb n (i + ui_cols))
                then box 0x94 0xbc
                else box 0x94 0x82)))

-- The vertical lines, from `continue` on only the first.
unfoldable pub vertical_line : ℕ → ℕ → ℕ → List Stroke
unfolding left_glyph right_glyph
vertical_line n i j =
    let x = temp_x i in
    let y = temp_y i + j + 1 in
    let first_col = i % ui_cols == 0 in
    let last = j == bod_h + 1 in
    let sides =
      stroke x y (put_one (left_glyph n i j))
      ++ (if ((i + 1) % ui_cols == 0) || (i + 1 == n)
          then stroke (x + bod_w) y (put_one (right_glyph n i j))
          else []) in
    if first_col && (last && (i + 1 == n))
    then stroke x y (put_one (box 0x94 0x94)) ++ stroke (x + bod_w) y (put_one (box 0x94 0x98))
    else (if first_col && ((i == 0) && (j == 0))
        then stroke x y (put_one (box 0x94 0x8c))
        else (if first_col && (last && (i / ui_cols == (n - 1) / ui_cols))
            then stroke x y (put_one (box 0x94 0x94))
            else sides))

unfoldable pub temp_board : ℕ → ℕ → List Stroke
unfolding top_line vertical_line
temp_board n i =
    let x = temp_x i in
    let y = temp_y i in
    stroke x (y + 1) (top_line n i)
    ++ (each bod_w (λ j. stroke (x + j) (10 + y + 3) (put_one (box 0x94 0x80)))
        ++ each (bod_h + 2) (vertical_line n i))

-- The lines between `n` boards.
unfoldable pub render_boards_temp : ℕ → List Draw
render_boards_temp n =
    if n == 0 then [] else draws (each n (temp_board n)) ++ print (some (b'\n' ∷ [])) ∷ flush ∷ []
