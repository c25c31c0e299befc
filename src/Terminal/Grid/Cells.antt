-- ===== src/Terminal/Grid/Cells.antt =====
-- user/tui.c: what the cells of a game show.
use kxo.Terminal.Screen.Effects.{show_stroke-look, show_mark, show-look}
use kxo.Prelude.{
  ℕ, zero, suc, ◌+◌, ◌/◌, ◌%◌, ◌<◌, ◌≤◌, ◌≡◌, ◌≢◌, ◌⊎◌, inl, inr, refl, ap, ◌∙◌, arith, List, [],
  ◌∷◌, ◌++◌, length, bit_and,
}
use native.Mathlib.Decide.{ℕ_discrete, dec_lt}
use mathlib.Core.Path.{subst}
use kxo.Board.{XoTable, n_grids, xo_attr_id}
use kxo.Terminal.Strokes.{Glyph, chars, decimal, printed, printed_line, each, each_from, stroke}
use kxo.Terminal.Boards.{
  board_x, board_y, tlb_h, frame_row, pos_x, pos_y, cell_stroke, update_table,
}
use kxo.Terminal.Screen.{Terminal, IsTerminal, Outside, show, show-append}
use kxo.Terminal.Grid.{column-mod, mark, InArea, last_label, last_label-length, update_table-InArea}

three : (a b : ℕ) → (a < b) ⊎ (b < a) ⊎ (a ≡ b)
three a b = elim (dec_lt a b) [
  | yes lt ↦ inl lt
  | no ge ↦ elim (dec_lt b a) [ yes lt ↦ inr (inl lt) | no le ↦ inr (inr (omega (arith, ge, le))) ]
]

-- The cells of a game are outside the areas of the others.
games-apart :
    (a id i : ℕ)
    → a < 9
    → id < 9
    → bit_and i 3 ≡ i % 4
    → i < 16
    → id ≢ a
    → Outside
        (board_x a + 9)
        (board_x a + 27)
        (board_y a + 2)
        (board_y a + 13)
        (pos_x id i)
        (pos_y id i)
games-apart a id i ha hid column hi ne = elim (three (id / 3) (a / 3)) [
  | inl lt ↦ inl (omega (arith, lt, hi))
  | inr (inl lt) ↦ inr (inl (omega (arith, lt)))
  | inr (inr row) ↦ elim (three (id % 3) (a % 3)) [
    | inl lt ↦ inr (inr (inl (omega (arith, lt, column))))
    | inr (inl lt) ↦ inr (inr (inr (omega (arith, lt))))
    | inr (inr same) ↦ absurd (ne (omega (arith, row, same)))
  ]
]

-- Two cells of a game stand at different places.
cells-apart :
    (id i j : ℕ)
    → i < 16
    → j < 16
    → i ≢ j
    → Outside (pos_x id i) (pos_x id i + 1) (pos_y id i) (pos_y id i + 1) (pos_x id j) (pos_y id j)
cells-apart id i j hi hj ne =
    let ci = column-mod i hi in
    let cj = column-mod j hj in
    elim (three (j / 4) (i / 4)) [
      | inl lt ↦ inl (omega (arith, lt))
      | inr (inl lt) ↦ inr (inl (omega (arith, lt)))
      | inr (inr row) ↦ elim (three (j % 4) (i % 4)) [
        | inl lt ↦ inr (inr (inl (omega (arith, lt, ci, cj))))
        | inr (inl lt) ↦ inr (inr (inr (omega (arith, lt, ci, cj))))
        | inr (inr same) ↦ absurd (ne (omega (arith, row, same)))
      ]
    ]

module _ {S : Type 0} (t : Terminal S) (is : IsTerminal t) where
  -- The cells of another game are outside the area.
  pub other-look :
      (tlb : XoTable) (id i : ℕ) (s : S)
      → xo_attr_id tlb.attr < 9
      → id < 9
      → i < 16
      → id ≢ xo_attr_id tlb.attr
      → t.look (show t (update_table tlb) s) (pos_x id i) (pos_y id i)
        ≡ t.look s (pos_x id i) (pos_y id i)
  other-look tlb id i s h h' hi ne =
      let a = xo_attr_id tlb.attr in
      show-look t is (InArea a) (pos_x id i) (pos_y id i)
        (λ st s' ok.
          show_stroke-look t is (board_x a + 9) (board_x a + 27) (board_y a + 2) (board_y a + 13) st
            s' (pos_x id i) (pos_y id i) (omega arith) (omega arith) (omega arith)
            (omega (arith, h)) ok (games-apart a id i h h' (column-mod i hi) hi ne))
        (update_table tlb) s (update_table-InArea tlb h)

  cell-look :
      (id table i : ℕ) (s : S) (cx cy : ℕ)
      → id < 9
      → i < 16
      → Outside (pos_x id i) (pos_x id i + 1) (pos_y id i) (pos_y id i + 1) cx cy
      → t.look (show t (cell_stroke id table i) s) cx cy ≡ t.look s cx cy
  unfolding cell_stroke show
  cell-look id table i s cx cy h hi out =
      let column = column-mod i hi in
      show_stroke-look t is (pos_x id i) (pos_x id i + 1) (pos_y id i) (pos_y id i + 1)
        (record { x = pos_x id i; y = pos_y id i; puts = printed (mark table i ∷ []) ∷ [] }) s cx cy
        (omega arith) (omega (arith, column)) (omega arith) (omega (arith, h, hi))
        (tt, omega arith, omega arith, omega arith, omega arith) out

  cell-mark :
      (id table i : ℕ) (s : S)
      → id < 9
      → i < 16
      → t.look (show t (cell_stroke id table i) s) (pos_x id i) (pos_y id i) ≡ mark table i
  unfolding cell_stroke show
  cell-mark id table i s h hi =
      let column = column-mod i hi in
      show_mark t is (pos_x id i) (pos_y id i) (mark table i) s (omega arith)
        (omega (arith, column)) (omega arith) (omega (arith, h, hi))

  -- The cells before `i` are left alone by the loop from `i` on.
  earlier-look :
      (id table left i j : ℕ) (s : S)
      → id < 9
      → i + left < 17
      → j < i
      → t.look (show t (each_from left i (cell_stroke id table)) s) (pos_x id j) (pos_y id j)
        ≡ t.look s (pos_x id j) (pos_y id j)
  unfolding show
  earlier-look id table zero i j s h hl lt = refl
  earlier-look id table (suc left) i j s h hl lt =
      ap (λ s'. t.look s' (pos_x id j) (pos_y id j))
        (show-append t (cell_stroke id table i) (each_from left (i + 1) (cell_stroke id table)) s)
      ∙ earlier-look id table left (i + 1) j (show t (cell_stroke id table i) s) h
          (omega (arith, hl)) (omega (arith, lt))
      ∙ cell-look id table i s (pos_x id j) (pos_y id j) h (omega (arith, hl)) (
          cells-apart id i j (omega (arith, hl)) (omega (arith, hl, lt))
            (λ e. omega (arith, e, lt)))

  cells-look :
      (id table left i j : ℕ) (s : S)
      → id < 9
      → i + left < 17
      → i ≤ j
      → j < i + left
      → t.look (show t (each_from left i (cell_stroke id table)) s) (pos_x id j) (pos_y id j)
        ≡ mark table j
  cells-look id table zero i j s h hl le lt = absurd (omega (arith, le, lt))
  cells-look id table (suc left) i j s h hl le lt =
      ap (λ s'. t.look s' (pos_x id j) (pos_y id j))
        (show-append t (cell_stroke id table i) (each_from left (i + 1) (cell_stroke id table)) s)
      ∙ elim (ℕ_discrete i j) [
        | yes same ↦
            subst
              (λ k.
                t.look
                  (show t (each_from left (i + 1) (cell_stroke id table))
                    (show t (cell_stroke id table i) s))
                  (pos_x id k) (pos_y id k)
                ≡ mark table k)
              same
              (earlier-look id table left (i + 1) i (show t (cell_stroke id table i) s) h
                  (omega (arith, hl)) (omega arith)
                ∙ cell-mark id table i s h (omega (arith, hl)))
        | no ne ↦
            cells-look id table left (i + 1) j (show t (cell_stroke id table i) s) h
              (omega (arith, hl)) (omega (arith, le, ne)) (omega (arith, lt))
      ]

  last-look :
      (id j : ℕ) (gs : List Glyph) (s : S)
      → id < 9
      → j < 16
      → length gs ≡ 12
      → t.look
          (show t (stroke (board_x id + 12) (board_y id + 12) (printed_line gs ∷ [])) s)
          (pos_x id j)
          (pos_y id j)
        ≡ t.look s (pos_x id j) (pos_y id j)
  unfolding show
  last-look id j gs s h hj l =
      show_stroke-look t is (board_x id + 12) (board_x id + 24) (board_y id + 12) (board_y id + 13)
        (record { x = board_x id + 12; y = board_y id + 12; puts = printed_line gs ∷ [] }) s
        (pos_x id j) (pos_y id j) (omega arith) (omega arith) (omega arith) (omega (arith, h))
        (refl, omega arith, omega (arith, l), omega arith, omega arith) (inl (omega (arith, hj)))

  -- The cells of the game show its marks.
  pub update_table-look :
      (tlb : XoTable) (j : ℕ) (s : S)
      → xo_attr_id tlb.attr < 9
      → j < 16
      → let id = xo_attr_id tlb.attr in
        t.look (show t (update_table tlb) s) (pos_x id j) (pos_y id j) ≡ mark tlb.table j
  unfolding update_table
  update_table-look tlb j s h hj =
      let id = xo_attr_id tlb.attr in
      let at : S → Glyph = λ s'. t.look s' (pos_x id j) (pos_y id j) in
      let title =
        stroke (board_x id + 15) (board_y id + 2)
          (printed_line (chars "Game-" ++ decimal id) ∷ []) in
      let frame = each tlb_h (frame_row (board_x id + 9) (board_y id + 3)) in
      let cells = each n_grids (cell_stroke id tlb.table) in
      let label = stroke (board_x id + 12) (board_y id + 12) (printed_line (last_label tlb) ∷ []) in
      ap at (show-append t title (frame ++ (cells ++ label)) s)
      ∙ ap at (show-append t frame (cells ++ label) (show t title s))
      ∙ ap at (show-append t cells label (show t frame (show t title s)))
      ∙ last-look id j (last_label tlb) (show t cells (show t frame (show t title s))) h hj
          (last_label-length tlb)
      ∙ cells-look id tlb.table n_grids 0 j (show t frame (show t title s)) h (omega arith)
          (omega arith) (omega (arith, hj))
