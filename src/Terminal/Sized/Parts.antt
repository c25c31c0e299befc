-- ===== src/Terminal/Sized/Parts.antt =====
-- user/tui.c: what each of the drawing functions formats is short.
use kxo.Prelude.{
  ℕ, zero, suc, ◌+◌, ◌-◌, ◌/◌, ◌%◌, ◌<◌, ◌≤◌, arith, List, [], ◌∷◌, ◌++◌, ◌==◌, if◌then◌else◌,
  if_both, get_or, replicate, bit_and,
}
use kxo.Board.{
  XoTable, get_record_cell, board_size, n_games, n_grids, xo_attr_id, xo_attr_ai_alg, xo_attr_steps,
  table_get_cell,
}
use kxo.Engine.{xo_ai_tot}
use kxo.Terminal.Strokes.{
  Glyph, chars, box, decimal, printed, printed_line, clean_line, Stroke, stroke, each, put_one,
}
use kxo.Terminal.Screen.{All, All-append}
use kxo.Terminal.Boards.{
  cell_tlb, ai_name, pad_left, pad_right, space, board_x, board_y, tlb_w, tlb_h, frame_glyph,
  frame_row, cell_stroke, update_table,
}
use kxo.Terminal.Grid.{last_label}
use kxo.Terminal.Tabs.{
  TabState, tab_ctx_basey, tab_high, tab_maxh, border_w, draw_tab_border, record_move,
  record_labels, xo_record,
}
use kxo.Terminal.Sized.{
  size, size-append, decimal-size, PutsFit, StrokeFits, each-fit, puts_each-fit,
}

pub ones-fit : (n : ℕ) (f : ℕ → Glyph) → PutsFit (each n (λ j. put_one (f j)))
ones-fit n f = puts_each-fit n 0 (λ j. put_one (f j)) (λ j. (tt, tt))

mark-size : (c : ℕ) → size (get_or cell_tlb c [] ∷ []) ≤ 10
mark-size zero = omega arith
mark-size (suc zero) = omega arith
mark-size (suc (suc zero)) = omega arith
mark-size (suc (suc (suc c))) = omega arith

name-size : (alg : ℕ) → (size (pad_left (ai_name alg)) ≤ 4) × (size (pad_right (ai_name alg)) ≤ 4)
unfolding ai_name
name-size alg =
    let P : List Glyph → Type 0 =
      λ name. (size (pad_left name) ≤ 4) × (size (pad_right name) ≤ 4) in
    if_both P (alg == 0) _ _ (omega arith, omega arith)
      (if_both P (alg == 1) _ _ (omega arith, omega arith) (omega arith, omega arith))

label-size : (tlb : XoTable) → size (last_label tlb) < 2048
label-size tlb =
    let alg = xo_attr_ai_alg tlb.attr in
    let a = pad_left (ai_name (alg % xo_ai_tot)) in
    omega (
      arith,
      size-append (a ++ chars " vs ") (pad_right (ai_name (alg / 4 % xo_ai_tot))),
      size-append a (chars " vs "),
      (name-size (alg % xo_ai_tot)).0,
      (name-size (alg / 4 % xo_ai_tot)).1,
    )

cell_stroke-fits : (id table i : ℕ) → All StrokeFits (cell_stroke id table i)
unfolding cell_stroke
cell_stroke-fits id table i = ((omega (arith, mark-size (table_get_cell table i)), tt), tt)

frame_row-fits : (x y i : ℕ) → All StrokeFits (frame_row x y i)
unfolding frame_row
frame_row-fits x y i = (ones-fit tlb_w (frame_glyph i), tt)

pub update_table-fits : (tlb : XoTable) → All StrokeFits (update_table tlb)
unfolding update_table
update_table-fits tlb =
    let id = xo_attr_id tlb.attr in
    let frame = each tlb_h (frame_row (board_x id + 9) (board_y id + 3)) in
    let cells = each n_grids (cell_stroke id tlb.table) in
    let label = stroke (board_x id + 12) (board_y id + 12) (printed_line (last_label tlb) ∷ []) in
    (
      (omega (arith, size-append (chars "Game-") (decimal id), decimal-size id), tt),
      All-append StrokeFits frame (cells ++ label)
          (each-fit tlb_h 0 _ (frame_row-fits (board_x id + 9) (board_y id + 3)))
          (All-append StrokeFits cells label (each-fit n_grids 0 _ (cell_stroke-fits id tlb.table))
            ((label-size tlb, tt), tt)),
    )

pub draw_tab_border-fits : (tab : ℕ) → All StrokeFits (draw_tab_border tab)
unfolding draw_tab_border
draw_tab_border-fits tab =
    let high = tab_high tab in
    let clear : ℕ → List Stroke = λ i. stroke 1 (tab_ctx_basey + i) (clean_line ∷ []) in
    let side : ℕ → List Stroke = λ i.
      stroke 1 (tab_ctx_basey + i) (put_one (box 0x94 0x82))
      ++ stroke (1 + border_w - 2) (tab_ctx_basey + i) (put_one (box 0x94 0x82)) in
    let bottom =
      stroke 2 (tab_ctx_basey + high) (each (border_w - 3) (λ i. put_one (box 0x94 0x80))) in
    let corners =
      stroke 1 (tab_ctx_basey + high) (put_one (box 0x95 0xb0))
      ++ (stroke (1 + border_w - 2) (tab_ctx_basey + high) (put_one (box 0x95 0xaf))
          ++ (each high side ++ bottom)) in
    All-append StrokeFits (each (tab_maxh + 1) clear) corners
      (each-fit (tab_maxh + 1) 0 clear (λ j. ((tt, tt), tt)))
      (
        (tt, tt),
        (
          (tt, tt),
          All-append StrokeFits (each high side) bottom
              (each-fit high 0 side (λ j. ((tt, tt), ((tt, tt), tt))))
              (ones-fit (border_w - 3) (λ i. box 0x94 0x80), tt),
        ),
      )

record_labels-fits : All StrokeFits record_labels
unfolding record_labels
record_labels-fits =
    let label : ℕ → List Stroke =
      λ i. stroke 4 (53 + i) (printed (chars "GAME-" ++ decimal i ++ chars ": ") ∷ []) in
    All-append StrokeFits (each n_games label) (stroke 4 (53 + n_games) [])
      (each-fit n_games 0 label (λ j. (
        (
          omega (
            arith,
            size-append (chars "GAME-" ++ decimal j) (chars ": "),
            size-append (chars "GAME-") (decimal j),
            decimal-size j,
          ),
          tt,
        ),
        tt,
      )))
      (tt, tt)

record_move-fits : (moves steps i : ℕ) → PutsFit (record_move moves steps i)
unfolding record_move
record_move-fits moves steps i =
    let mv = get_record_cell moves i in
    let text : Glyph → List Glyph = λ to.
      space ∷ ((b'A' + bit_and mv 3) ∷ []) ∷ ((b'1' + mv / board_size) ∷ []) ∷ space ∷ to ∷ [] in
    if_both (λ to. PutsFit (printed (text to) ∷ [])) (i + 1 == steps) space
      (0xf0 ∷ 0x9f ∷ 0xa0 ∷ 0xae ∷ []) (omega arith, tt) (omega arith, tt)

pub xo_record-fits :
    (tab : ℕ) (tlb : XoTable) (s : TabState) → All StrokeFits (xo_record tab tlb s).0
unfolding xo_record
xo_record-fits tab tlb s =
    let id = xo_attr_id tlb.attr in
    let steps = xo_attr_steps tlb.attr in
    let border = if tab == s.prev_tab then [] else draw_tab_border tab in
    let moves = each steps (record_move tlb.moves steps) in
    let rest =
      stroke 11 (53 + id) (printed (replicate 77 space) ∷ []) ++ stroke 11 (53 + id) moves in
    All-append StrokeFits border (record_labels ++ rest)
      (if_both (All StrokeFits) (tab == s.prev_tab) [] (draw_tab_border tab) tt
        (draw_tab_border-fits tab))
      (All-append StrokeFits record_labels rest record_labels-fits (
        (omega arith, tt),
        (
          puts_each-fit steps 0 (record_move tlb.moves steps) (record_move-fits tlb.moves steps),
          tt,
        ),
      ))
