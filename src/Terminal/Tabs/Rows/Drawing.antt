-- ===== src/Terminal/Tabs/Rows/Drawing.antt =====
-- user/tui.c: the rows of the tabs as a whole, of the message and of the clock.
use kxo.Prelude.{
  ℕ, zero, suc, ◌+◌, ◌-◌, ◌<◌, ◌≤◌, inl, inr, refl, arith, List, [], ◌∷◌, ◌++◌, ◌==◌, length,
  length-append, replicate, Bool, if◌then◌else◌, if_both,
}
use kxo.Board.{XoTable, n_games, xo_attr_id, xo_attr_steps}
use kxo.Terminal.Strokes.{
  Glyph, chars, box, decimal2, printed, printed_line, Stroke, each, stroke, put_one,
}
use kxo.Terminal.Boards.{space}
use kxo.Terminal.Screen.{max_x, InRows, All, All-append}
use kxo.Terminal.Tabs.{
  TabState, Reading, tab_totlen, tab_label_basey, tab_title, border_w, xo_record, xo_tab_record,
  xo_loadavg, tablen, label_glyph, label_row, draw_tab_label, tui_update_tab, stop_width, stop_high,
  stop_glyph, stop_row, stop_message, print_now,
}
use kxo.Terminal.Tabs.Rows.{each-All, on_row, on_row_each, decimal2-length2}
use kxo.Terminal.Tabs.Rows.Contents.{Drawn, xo_record-InRows, xo_loadavg-Drawn}

label_row-InRows : (tab i k : ℕ) → i < 2 → k < 3 → All (InRows 49 64) (label_row tab i k)
unfolding label_row
label_row-InRows tab i k hi hk =
    let len = length (tab_title i) + 4 in
    if_both (λ ps. All (InRows 49 64) (stroke (tablen i) (tab_label_basey + k) ps)) (k == 1) _
      (each len (λ j. put_one (label_glyph tab i len k j))) (middle i hi)
      (on_row_each 49 64 (tablen i) (tab_label_basey + k) len (label_glyph tab i len k) (starts i)
        (fits i hi) (omega arith) (omega (arith, hk)))
  where
    starts : (i : ℕ) → 0 < tablen i
    starts zero = omega arith
    starts (suc i) = omega (arith, starts i)

    fits : (i : ℕ) → i < 2 → tablen i + (length (tab_title i) + 4) ≤ max_x
    fits zero h = omega arith
    fits (suc zero) h = omega arith
    fits (suc (suc i)) h = absurd (omega (arith, h))

    middle :
        (i : ℕ)
        → i < 2
        → All (InRows 49 64) (
            stroke (tablen i) (tab_label_basey + k) (
              printed (box 0x94 0x82 ∷ space ∷ [] ++ (tab_title i ++ (space ∷ box 0x94 0x82 ∷ [])))
              ∷ []))
    middle zero h = (inr (omega arith, omega arith, omega arith, omega (arith, hk), inl tt), tt)
    middle (suc zero) h =
        (inr (omega arith, omega arith, omega arith, omega (arith, hk), inl tt), tt)
    middle (suc (suc i)) h = absurd (omega (arith, h))

draw_tab_label-InRows : (tab : ℕ) → All (InRows 49 64) (draw_tab_label tab)
unfolding draw_tab_label
draw_tab_label-InRows tab =
    let rows = InRows 49 64 in
    let both : ℕ → List Stroke = λ i. each 3 (label_row tab i) in
    let n = border_w - tablen tab_totlen in
    let border : ℕ → Glyph = λ i. if i + 1 == n then box 0x95 0xae else box 0x94 0x80 in
    (
      inl refl,
      All-append rows (each tab_totlen both)
          (stroke (tablen tab_totlen) (tab_label_basey + 3 - 1) (each n (λ i. put_one (border i))))
          (each-All rows tab_totlen 0 both (λ i le hi.
            each-All rows 3 0 (label_row tab i)
              (λ k le' hk. label_row-InRows tab i k (omega (arith, hi)) (omega (arith, hk)))))
          (on_row_each 49 64 (tablen tab_totlen) (tab_label_basey + 3 - 1) n border (omega arith)
            (omega arith) (omega arith) (omega arith)),
    )

pub tui_update_tab-InRows :
    (tab : ℕ) (tlb : XoTable) (r : Reading) (s : TabState)
    → xo_attr_id tlb.attr < n_games
    → xo_attr_steps tlb.attr < 17
    → All (InRows 49 64) (tui_update_tab tab tlb r s).0
unfolding tui_update_tab
tui_update_tab-InRows tab tlb r s h hs =
    All-append (InRows 49 64) (draw_tab_label tab)
      (if tab == xo_tab_record then xo_record tab tlb s else xo_loadavg tab r s).0
      (draw_tab_label-InRows tab)
      (if_both Drawn (tab == xo_tab_record) (xo_record tab tlb s) (xo_loadavg tab r s)
        (xo_record-InRows tab tlb s h hs) (xo_loadavg-Drawn tab r s))

stop_row-InRows : (i : ℕ) → i < 3 → All (InRows 8 11) (stop_row i)
unfolding stop_row
stop_row-InRows i h =
    if_both (λ ps. All (InRows 8 11) (stroke 1 (8 + i) ps)) (i == 1) _
      (each stop_width (λ j. put_one (stop_glyph i j)))
      (inr (omega arith, omega arith, omega arith, omega (arith, h), inl tt), tt)
      (on_row_each 8 11 1 (8 + i) stop_width (stop_glyph i) (omega arith) (omega arith)
        (omega arith) (omega (arith, h)))

pub stop_message-InRows : (stop : Bool) → All (InRows 8 11) (stop_message stop)
unfolding stop_message
stop_message-InRows stop =
    let blank : ℕ → List Stroke = λ i. stroke 1 (8 + i) (printed (replicate 13 space) ∷ []) in
    (
      inl refl,
      if_both (All (InRows 8 11)) stop (each stop_high stop_row) (each stop_high blank)
          (each-All (InRows 8 11) stop_high 0 stop_row
            (λ i le h. stop_row-InRows i (omega (arith, h))))
          (each-All (InRows 8 11) stop_high 0 blank (λ i le h.
            on_row 8 11 1 (8 + i) (printed (replicate 13 space) ∷ []) (omega arith) (omega arith)
              (omega arith) (omega (arith, h)) tt)),
    )

pub print_now-InRows :
    (hour min sec : ℕ)
    → hour < 100
    → min < 100
    → sec < 100
    → All (InRows 48 49) (print_now hour min sec)
unfolding print_now
print_now-InRows hour min sec hh hm hs =
    let a = decimal2 hour ++ chars ":" in
    let b = a ++ decimal2 min in
    let c = b ++ chars ":" in
    on_row 48 49 50 48 (printed_line (c ++ decimal2 sec) ∷ []) (omega arith)
      (omega (
        arith,
        length-append {0} c (decimal2 sec),
        length-append {0} b (chars ":"),
        length-append {0} a (decimal2 min),
        length-append {0} (decimal2 hour) (chars ":"),
        decimal2-length2 hour hh,
        decimal2-length2 min hm,
        decimal2-length2 sec hs,
      ))
      (omega arith) (omega arith) refl
