-- ===== src/Terminal/Grid.antt =====
-- user/tui.c: what `update_table` draws, and where.
pub mod Cells
use kxo.Terminal.Screen.Effects.{show_stroke-look, show_stroke-rows, show_mark, show-look}
use kxo.Prelude.{
  ℕ, zero, suc, ◌+◌, ◌/◌, ◌%◌, ◌<◌, ◌≤◌, ◌≡◌, ◌≢◌, ◌⊎◌, inl, inr, refl, ap, ◌∙◌, arith, List, [],
  ◌∷◌, ◌++◌, length, length-append, get_or, bit_and, ◌==◌, Bool-cases, ==_iff,
}
use kxo.Prelude.Tables.{passes, passes-at}
use native.Mathlib.Decide.{ℕ_discrete, dec_lt}
use mathlib.Core.Path.{subst}
use kxo.Board.{XoTable, n_grids, xo_attr_id, xo_attr_ai_alg, table_get_cell}
use kxo.Engine.{xo_ai_tot}
use kxo.Terminal.Strokes.{
  Glyph, chars, decimal, decimal_on, printed, printed_line, Stroke, each, each_from, stroke,
  put_one,
}
use kxo.Terminal.Boards.{
  cell_tlb, ai_name, pad_left, pad_right, board_x, board_y, tlb_w, tlb_h, frame_glyph, frame_row,
  pos_x, pos_y, cell_stroke, update_table,
}
use kxo.Terminal.Screen.{
  Terminal, IsTerminal, width, IsLine, InRect, Outside, All, All-append, show, show-append,
}

column-mod : (i : ℕ) → i < 16 → bit_and i 3 ≡ i % 4
unfolding passes
column-mod i h = (==_iff _ _).0 (passes-at (λ j. bit_and j 3 == j % 4) 16 i h refl)

-- The mark of the cell `i`.
abbrev pub mark : ℕ → ℕ → Glyph
mark table i = get_or cell_tlb (table_get_cell table i) []

-- The area of the board of a game.
abbrev pub InArea : ℕ → Stroke → Type 0
InArea id = InRect (board_x id + 9) (board_x id + 27) (board_y id + 2) (board_y id + 13)

pub frame-IsLine : (left i : ℕ) (f : ℕ → Glyph) → IsLine (each_from left i (λ j. put_one (f j)))
frame-IsLine zero i f = tt
frame-IsLine (suc left) i f = frame-IsLine left (i + 1) f

pub frame-width :
    (left i : ℕ) (f : ℕ → Glyph) → width (each_from left i (λ j. put_one (f j))) ≡ left
frame-width zero i f = refl
frame-width (suc left) i f = omega (arith, frame-width left (i + 1) f)

frame_rows-InArea :
    (id left i : ℕ)
    → i + left < 10
    → All (InArea id) (each_from left i (frame_row (board_x id + 9) (board_y id + 3)))
unfolding frame_row
frame_rows-InArea id zero i h = tt
frame_rows-InArea id (suc left) i h = (
  (
    frame-IsLine tlb_w 0 (frame_glyph i),
    omega arith,
    omega (arith, frame-width tlb_w 0 (frame_glyph i)),
    omega arith,
    omega (arith, h),
  ),
  frame_rows-InArea id left (i + 1) (omega (arith, h)),
)

cells-InArea :
    (id table left i : ℕ)
    → i + left < 17
    → All (InArea id) (each_from left i (cell_stroke id table))
unfolding cell_stroke
cells-InArea id table zero i h = tt
cells-InArea id table (suc left) i h =
    let column = column-mod i (omega (arith, h)) in
    (
      (tt, omega arith, omega (arith, column), omega arith, omega (arith, h)),
      cells-InArea id table left (i + 1) (omega (arith, h)),
    )

name-length :
    (alg : ℕ) → (length (pad_left (ai_name alg)) ≡ 4) × (length (pad_right (ai_name alg)) ≡ 4)
unfolding ai_name
name-length alg = elim (Bool-cases (alg == 0)) [
  | inl e ↦ rw e (refl, refl)
  | inr ne ↦ elim (Bool-cases (alg == 1)) [
    | inl e ↦ rw (ne, e) (refl, refl)
    | inr ne' ↦ rw (ne, ne') (refl, refl)
  ]
]

pub decimal-digit : (n : ℕ) → n < 10 → length (decimal n) ≡ 1
unfolding decimal decimal_on
decimal-digit n h = ground (arith, h)

abbrev pub last_label : XoTable → List Glyph
last_label tlb =
    let alg = xo_attr_ai_alg tlb.attr in
    pad_left (ai_name (alg % xo_ai_tot))
    ++ chars " vs "
    ++ pad_right (ai_name (alg / 4 % xo_ai_tot))

last_label-length : (tlb : XoTable) → length (last_label tlb) ≡ 12
last_label-length tlb =
    let alg = xo_attr_ai_alg tlb.attr in
    let a = pad_left (ai_name (alg % xo_ai_tot)) in
    omega (
      arith,
      length-append {0} (a ++ chars " vs ") (pad_right (ai_name (alg / 4 % xo_ai_tot))),
      length-append {0} a (chars " vs "),
      (name-length (alg % xo_ai_tot)).0,
      (name-length (alg / 4 % xo_ai_tot)).1,
    )

-- All of `update_table` stays in the area of its game.
pub update_table-InArea :
    (tlb : XoTable)
    → xo_attr_id tlb.attr < 9
    → All (InArea (xo_attr_id tlb.attr)) (update_table tlb)
unfolding update_table
update_table-InArea tlb h =
    let id = xo_attr_id tlb.attr in
    let area = InArea id in
    let frame = each tlb_h (frame_row (board_x id + 9) (board_y id + 3)) in
    let cells = each n_grids (cell_stroke id tlb.table) in
    (
      (
        refl,
        omega arith,
        omega (arith, decimal-digit id (omega (arith, h))),
        omega arith,
        omega arith,
      ),
      All-append area frame
          (cells ++ stroke (board_x id + 12) (board_y id + 12) (printed_line (last_label tlb) ∷ []))
          (frame_rows-InArea id tlb_h 0 (omega arith))
          (All-append area cells
            (stroke (board_x id + 12) (board_y id + 12) (printed_line (last_label tlb) ∷ []))
            (cells-InArea id tlb.table n_grids 0 (omega arith))
            (
              (refl, omega arith, omega (arith, last_label-length tlb), omega arith, omega arith),
              tt,
            )),
    )
