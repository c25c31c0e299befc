-- ===== src/Terminal/Tabs/Rows.antt =====
-- user/tui.c: the rows that the tabs, the message and the clock are drawn on.
pub mod Contents
pub mod Drawing
use kxo.Prelude.{
  ℕ, zero, suc, ◌+◌, ◌-◌, ◌*◌, ◌/◌, ◌%◌, ◌^◌, ◌<◌, ◌≤◌, ◌≡◌, inl, inr, refl, arith, List, [], ◌∷◌,
  ◌++◌, ◌==◌, ltb, leb, get_or, length, length-append, replicate, bit_and, Bool, true, Option, none,
  some, Bool-cases, if◌then◌else◌, if_both, ◌&&◌,
}
use kxo.Prelude.Bits.{and-lt_right}
use kxo.Board.{XoTable, n_games, xo_attr_id, xo_attr_steps}
use kxo.Engine.{XoAvg}
use kxo.Terminal.Strokes.{
  Glyph, chars, box, decimal, decimal_on, decimal2, Put, printed, printed_line, clean_line, Stroke,
  each, each_from, stroke, put_one,
}
use kxo.Terminal.Boards.{o_ch, x_ch, space}
use kxo.Terminal.Screen.{max_x, width, IsLine, InRows, All, All-append}
use kxo.Terminal.Grid.{frame-IsLine, frame-width, decimal-digit}
use kxo.Terminal.Tabs.{
  TabState, Reading, tab_totlen, tab_ctx_basey, tab_label_basey, tab_title, tab_high, tab_maxh,
  border_w, draw_tab_border, record_move, record_labels, xo_record, xo_tab_record, avg_text, no_avg,
  loadavg_row, render_loadavg, first_loadavg, next_loadavg, xo_loadavg, tablen, label_glyph,
  label_row, draw_tab_label, tui_update_tab, stop_width, stop_high, stop_glyph, stop_row,
  stop_message, print_now,
}

each-All :
    (P : Stroke → Type 0) (left i : ℕ) (f : ℕ → List Stroke)
    → ((j : ℕ) → i ≤ j → j < i + left → All P (f j))
    → All P (each_from left i f)
each-All P zero i f all = tt
each-All P (suc left) i f all =
    All-append P (f i) (each_from left (i + 1) f) (all i (omega arith) (omega arith))
      (each-All P left (i + 1) f (λ j le lt. all j (omega (arith, le)) (omega (arith, lt))))

-- One stroke that ends with its line.
on_row :
    (y0 y1 x y : ℕ) (ps : List Put)
    → 0 < x
    → x + width ps ≤ max_x
    → y0 ≤ y
    → y < y1
    → IsLine ps
    → All (InRows y0 y1) (stroke x y ps)
on_row y0 y1 x y ps hx fits c d line = (inr (hx, fits, c, d, inl line), tt)

-- Characters that are written one by one.
on_row_each :
    (y0 y1 x y n : ℕ) (f : ℕ → Glyph)
    → 0 < x
    → x + n ≤ max_x
    → y0 ≤ y
    → y < y1
    → All (InRows y0 y1) (stroke x y (each n (λ j. put_one (f j))))
on_row_each y0 y1 x y n f hx fits c d =
    on_row y0 y1 x y (each n (λ j. put_one (f j))) hx (omega (arith, fits, frame-width n 0 f)) c d
      (frame-IsLine n 0 f)

decimal_on-length : (fuel n : ℕ) → n < 10 → length (decimal_on fuel n) ≡ 1
unfolding decimal_on
decimal_on-length zero n h = refl
decimal_on-length (suc fuel) n h = let e : ltb n 10 ≡ true = ground (arith, h) in rw e refl

decimal_on-next :
    (fuel n k : ℕ)
    → length (decimal_on fuel (n / 10)) ≤ k
    → 0 < k
    → length (decimal_on (suc fuel) n) ≤ k + 1
unfolding decimal_on
decimal_on-next fuel n k h hk = elim (Bool-cases (ltb n 10)) [
  | inl low ↦ rw low (omega (arith, hk))
  | inr high ↦
      rw high (
        omega
          (arith, h, length-append {0} (decimal_on fuel (n / 10)) (((b'0' + n % 10) ∷ []) ∷ [])))
]

decimal-length2 : (n : ℕ) → n < 100 → length (decimal n) ≤ 2
unfolding decimal
decimal-length2 n h =
    decimal_on-next 18 n 1 (omega (arith, decimal_on-length 18 (n / 10) (omega (arith, h))))
      (omega arith)

decimal-length3 : (n : ℕ) → n < 1000 → length (decimal n) ≤ 3
unfolding decimal
decimal-length3 n h =
    decimal_on-next 18 n 2
      (decimal_on-next 17 (n / 10) 1
        (omega (arith, decimal_on-length 17 (n / 10 / 10) (omega (arith, h)))) (omega arith))
      (omega arith)

decimal2-length2 : (n : ℕ) → n < 100 → length (decimal2 n) ≤ 2
unfolding decimal2
decimal2-length2 n h = elim (Bool-cases (ltb n 10)) [
  | inl low ↦ rw low (omega (arith, decimal-digit n (ground (arith, low))))
  | inr high ↦ rw high (decimal-length2 n h)
]

decimal2-length3 : (n : ℕ) → n < 1000 → length (decimal2 n) ≤ 3
unfolding decimal2
decimal2-length3 n h = elim (Bool-cases (ltb n 10)) [
  | inl low ↦ rw low (omega (arith, decimal-digit n (ground (arith, low))))
  | inr high ↦ rw high (decimal-length3 n h)
]

tab_high-lt : (tab : ℕ) → tab_high tab < 12
tab_high-lt tab = if_both (λ h. h < 12) (tab == 0) 11 10 (omega arith) (omega arith)

draw_tab_border-InRows : (tab : ℕ) → All (InRows 49 64) (draw_tab_border tab)
unfolding draw_tab_border
draw_tab_border-InRows tab =
    let rows = InRows 49 64 in
    let high = tab_high tab in
    let lt = tab_high-lt tab in
    let clear : ℕ → List Stroke = λ i. stroke 1 (tab_ctx_basey + i) (clean_line ∷ []) in
    let side : ℕ → List Stroke = λ i.
      stroke 1 (tab_ctx_basey + i) (put_one (box 0x94 0x82))
      ++ stroke (1 + border_w - 2) (tab_ctx_basey + i) (put_one (box 0x94 0x82)) in
    let cleared = each (tab_maxh + 1) clear in
    let left = stroke 1 (tab_ctx_basey + high) (put_one (box 0x95 0xb0)) in
    let right = stroke (1 + border_w - 2) (tab_ctx_basey + high) (put_one (box 0x95 0xaf)) in
    let sides = each high side in
    let bottom =
      stroke 2 (tab_ctx_basey + high) (each (border_w - 3) (λ i. put_one (box 0x94 0x80))) in
    All-append rows cleared (left ++ (right ++ (sides ++ bottom)))
      (each-All rows (tab_maxh + 1) 0 clear
        (λ j le h. (inr (omega arith, omega arith, omega arith, omega (arith, h), inr refl), tt)))
      (All-append rows left (right ++ (sides ++ bottom))
        (on_row 49 64 1 (tab_ctx_basey + high) (put_one (box 0x95 0xb0)) (omega arith) (omega arith)
          (omega arith) (omega (arith, lt)) tt)
        (All-append rows right (sides ++ bottom)
          (on_row 49 64 105 (tab_ctx_basey + high) (put_one (box 0x95 0xaf)) (omega arith)
            (omega arith) (omega arith) (omega (arith, lt)) tt)
          (All-append rows sides bottom
            (each-All rows high 0 side (λ j le h. (
              inr (omega arith, omega arith, omega arith, omega (arith, h, lt), inl tt),
              (inr (omega arith, omega arith, omega arith, omega (arith, h, lt), inl tt), tt),
            )))
            (on_row_each 49 64 2 (tab_ctx_basey + high) (border_w - 3) (λ i. box 0x94 0x80)
              (omega arith) (omega arith) (omega arith) (omega (arith, lt))))))
