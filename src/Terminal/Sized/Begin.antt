-- ===== src/Terminal/Sized/Begin.antt =====
-- user/tui.c: what is formatted when the program begins.
use kxo.Prelude.{
  ℕ, ◌+◌, ◌-◌, ◌/◌, ◌%◌, arith, List, [], ◌∷◌, ◌++◌, ◌==◌, ◌&&◌, ◌||◌, if◌then◌else◌, ltb, if_both,
  Option, some, none,
}
use kxo.Terminal.{Draw, write, print, flush}
use kxo.Terminal.Output.{Fits}
use kxo.Terminal.Strokes.{box, wrote, Stroke, stroke, each, put_one, draws}
use kxo.Terminal.Screen.{All, All-append}
use kxo.Terminal.Boards.{ui_cols}
use kxo.Terminal.Startup.{
  top_line, vertical_line, left_glyph, right_glyph, temp_x, temp_y, temp_board, bod_w, bod_h,
  tui_init, clean_screen, logo_draws, lines_of, render_logo, render_boards_temp,
}
use kxo.Terminal.Sized.{
  PutsFit, StrokeFits, Fits-append, gotoxy-Fits, draws-Fits, each-fit, PutsFit-append,
}
use kxo.Terminal.Sized.Parts.{ones-fit}

pub tui_init-Fits : Fits tui_init
unfolding tui_init
tui_init-Fits = (omega arith, tt)

pub clean_screen-Fits : (ds : List Draw) → Fits ds → Fits (clean_screen ∷ ds)
unfolding clean_screen
clean_screen-Fits ds h = (omega arith, h)

logo_draws-Fits : (k : ℕ) (ls : List (List ℕ)) → Fits (logo_draws k ls)
unfolding logo_draws
logo_draws-Fits k [] = gotoxy-Fits 38 k [] tt
logo_draws-Fits k (l ∷ ls) =
    gotoxy-Fits 38 (k + 1) (write l ∷ logo_draws (k + 1) ls) (logo_draws-Fits (k + 1) ls)

pub render_logo-Fits : (logo : Option (List ℕ)) → Fits (render_logo logo)
unfolding render_logo
render_logo-Fits none = tt
render_logo-Fits (some logo) =
    Fits-append (logo_draws 0 (lines_of logo)) (flush ∷ []) (logo_draws-Fits 0 (lines_of logo)) tt

top_line-fits : (n i : ℕ) → PutsFit (top_line n i)
unfolding top_line
top_line-fits n i =
    PutsFit-append (if ltb i ui_cols then each bod_w (λ j. put_one (box 0x94 0x80)) else []) _
      (if_both PutsFit (ltb i ui_cols) _ _ (ones-fit bod_w (λ j. box 0x94 0x80)) tt)
      (if_both PutsFit ((n == 1) && ltb i ui_cols) (wrote ((0x08 ∷ []) ∷ box 0x94 0x90 ∷ []) ∷ [])
        (if (i + 1 == ui_cols) || (i + 1 == n) then put_one (box 0x94 0x90) else []) (tt, tt)
        (if_both PutsFit ((i + 1 == ui_cols) || (i + 1 == n)) (put_one (box 0x94 0x90)) [] (tt, tt)
          tt))

vertical_line-fits : (n i j : ℕ) → All StrokeFits (vertical_line n i j)
unfolding vertical_line
vertical_line-fits n i j =
    let P = All StrokeFits in
    let first_col = i % ui_cols == 0 in
    let last = j == bod_h + 1 in
    let x = temp_x i in
    let y = temp_y i + j + 1 in
    let left = stroke x y (put_one (left_glyph n i j)) in
    let right =
      if ((i + 1) % ui_cols == 0) || (i + 1 == n)
      then stroke (x + bod_w) y (put_one (right_glyph n i j))
      else [] in
    let sides : P (left ++ right) =
      All-append StrokeFits left right ((tt, tt), tt)
        (if_both P (((i + 1) % ui_cols == 0) || (i + 1 == n))
          (stroke (x + bod_w) y (put_one (right_glyph n i j))) [] ((tt, tt), tt) tt) in
    if_both P (first_col && (last && (i + 1 == n))) _ _ ((tt, tt), ((tt, tt), tt))
      (if_both P (first_col && ((i == 0) && (j == 0))) _ _ ((tt, tt), tt)
        (if_both P (first_col && (last && (i / ui_cols == (n - 1) / ui_cols))) _ _ ((tt, tt), tt)
          sides))

temp_board-fits : (n i : ℕ) → All StrokeFits (temp_board n i)
unfolding temp_board
temp_board-fits n i =
    let line : ℕ → List Stroke =
      λ j. stroke (temp_x i + j) (10 + temp_y i + 3) (put_one (box 0x94 0x80)) in
    (
      top_line-fits n i,
      All-append StrokeFits (each bod_w line) (each (bod_h + 2) (vertical_line n i))
          (each-fit bod_w 0 line (λ j. ((tt, tt), tt)))
          (each-fit (bod_h + 2) 0 (vertical_line n i) (vertical_line-fits n i)),
    )

pub render_boards_temp-Fits : (n : ℕ) → Fits (render_boards_temp n)
unfolding render_boards_temp
render_boards_temp-Fits n =
    if_both Fits (n == 0) []
      (draws (each n (temp_board n)) ++ print (some (b'\n' ∷ [])) ∷ flush ∷ []) tt
      (Fits-append (draws (each n (temp_board n))) (print (some (b'\n' ∷ [])) ∷ flush ∷ [])
        (draws-Fits (each n (temp_board n)) (each-fit n 0 (temp_board n) (temp_board-fits n)))
        (omega arith, tt))
