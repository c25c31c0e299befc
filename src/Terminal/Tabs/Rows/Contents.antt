-- ===== src/Terminal/Tabs/Rows/Contents.antt =====
-- user/tui.c: the rows of what stands in the tabs.
use kxo.Prelude.{
  ℕ, zero, suc, ◌+◌, ◌-◌, ◌*◌, ◌/◌, ◌^◌, ◌<◌, ◌≤◌, ◌≡◌, inl, inr, refl, arith, List, [], ◌∷◌, ◌++◌,
  ◌==◌, leb, get_or, length, length-append, replicate, bit_and, true, Option, none, some,
  if◌then◌else◌, if_both, ◌&&◌,
}
use kxo.Prelude.Bits.{and-lt_right}
use kxo.Board.{XoTable, n_games, xo_attr_id, xo_attr_steps}
use kxo.Engine.{XoAvg}
use kxo.Terminal.Strokes.{chars, decimal, decimal2, printed, Stroke, each, each_from, stroke}
use kxo.Terminal.Boards.{o_ch, x_ch, space}
use kxo.Terminal.Screen.{width, IsLine, InRows, All, All-append}
use kxo.Terminal.Grid.{decimal-digit}
use kxo.Terminal.Tabs.{
  TabState, Reading, draw_tab_border, record_move, record_labels, xo_record, avg_text, no_avg,
  loadavg_row, render_loadavg, first_loadavg, next_loadavg, xo_loadavg,
}
use kxo.Terminal.Tabs.Rows.{
  each-All, on_row, decimal-length2, decimal2-length3, draw_tab_border-InRows,
}

record_labels-InRows : All (InRows 49 64) record_labels
unfolding record_labels
record_labels-InRows =
    let rows = InRows 49 64 in
    let label : ℕ → List Stroke =
      λ i. stroke 4 (53 + i) (printed (chars "GAME-" ++ decimal i ++ chars ": ") ∷ []) in
    let labels = each n_games label in
    All-append rows labels (stroke 4 (53 + n_games) [])
      (each-All rows n_games 0 label (λ j le h.
        on_row 49 64 4 (53 + j) (printed (chars "GAME-" ++ decimal j ++ chars ": ") ∷ [])
          (omega arith)
          (omega (
            arith,
            length-append {0} (chars "GAME-" ++ decimal j) (chars ": "),
            length-append {0} (chars "GAME-") (decimal j),
            decimal-digit j (omega (arith, h)),
          ))
          (omega arith) (omega (arith, h)) tt))
      (inl refl, tt)

moves-IsLine : (moves steps left i : ℕ) → IsLine (each_from left i (record_move moves steps))
unfolding record_move
moves-IsLine moves steps zero i = tt
moves-IsLine moves steps (suc left) i = moves-IsLine moves steps left (i + 1)

moves-width :
    (moves steps left i : ℕ) → width (each_from left i (record_move moves steps)) ≡ left * 5
unfolding record_move
moves-width moves steps zero i = refl
moves-width moves steps (suc left) i = omega (arith, moves-width moves steps left (i + 1))

pub xo_record-InRows :
    (tab : ℕ) (tlb : XoTable) (s : TabState)
    → xo_attr_id tlb.attr < n_games
    → xo_attr_steps tlb.attr < 17
    → All (InRows 49 64) (xo_record tab tlb s).0
unfolding xo_record
xo_record-InRows tab tlb s h hs =
    let rows = InRows 49 64 in
    let id = xo_attr_id tlb.attr in
    let steps = xo_attr_steps tlb.attr in
    let border = if tab == s.prev_tab then [] else draw_tab_border tab in
    let cleared = stroke 11 (53 + id) (printed (replicate 77 space) ∷ []) in
    let moves = each steps (record_move tlb.moves steps) in
    All-append rows border (record_labels ++ (cleared ++ stroke 11 (53 + id) moves))
      (if_both (All rows) (tab == s.prev_tab) [] (draw_tab_border tab) tt
        (draw_tab_border-InRows tab))
      (All-append rows record_labels (cleared ++ stroke 11 (53 + id) moves) record_labels-InRows (
        All-append rows cleared (stroke 11 (53 + id) moves)
          (on_row 49 64 11 (53 + id) (printed (replicate 77 space) ∷ []) (omega arith) (omega arith)
            (omega arith) (omega (arith, h)) tt)
          (on_row 49 64 11 (53 + id) moves (omega arith)
            (omega (arith, hs, moves-width tlb.moves steps steps 0)) (omega arith)
            (omega (arith, h)) (moves-IsLine tlb.moves steps steps 0))))

avg_text-length : (avg : ℕ) → length (avg_text avg) ≤ 6
avg_text-length avg = omega (
  arith,
  length-append {0} (decimal (bit_and avg 0x780 / 2 ^ 7) ++ chars ".")
      (decimal2 (bit_and avg 0x7f)),
  length-append {0} (decimal (bit_and avg 0x780 / 2 ^ 7)) (chars "."),
  decimal-length2 (bit_and avg 0x780 / 2 ^ 7)
      (omega (arith, and-lt_right 11 avg 0x780 (omega arith))),
  decimal2-length3 (bit_and avg 0x7f) (omega (arith, and-lt_right 7 avg 0x7f (omega arith))),
)

loadavg_row-InRows : (avgs : List XoAvg) (i : ℕ) → i < 9 → All (InRows 49 64) (loadavg_row avgs i)
unfolding loadavg_row
loadavg_row-InRows avgs i h =
    let avg = get_or avgs i no_avg in
    let a = chars "Game-" in
    let b = a ++ decimal i in
    let c = b ++ chars "               " in
    let d = c ++ avg_text avg.avg_o in
    let e = d ++ chars "                      " in
    on_row 49 64 20 (52 + i + 1) (printed (e ++ avg_text avg.avg_x) ∷ []) (omega arith)
      (omega (
        arith,
        length-append {0} e (avg_text avg.avg_x),
        length-append {0} d (chars "                      "),
        length-append {0} c (avg_text avg.avg_o),
        length-append {0} b (chars "               "),
        length-append {0} a (decimal i),
        decimal-digit i (omega (arith, h)),
        avg_text-length avg.avg_o,
        avg_text-length avg.avg_x,
      ))
      (omega arith) (omega (arith, h)) tt

render_loadavg-InRows :
    (tab : ℕ) (ldavg : Option (List XoAvg)) (s : TabState)
    → All (InRows 49 64) (render_loadavg tab ldavg s).0
unfolding render_loadavg
render_loadavg-InRows tab ldavg s =
    let rows = InRows 49 64 in
    let avgs : List XoAvg = elim ldavg [ none ↦ s.xo_avgs | some new ↦ new ] in
    let title = stroke 17 52 (
      printed (
        chars "Load avg 1min             "
        ++ o_ch ∷ []
        ++ chars "                         "
        ++ x_ch ∷ [])
      ∷ []) in
    All-append rows (draw_tab_border tab) (title ++ each n_games (loadavg_row avgs))
      (draw_tab_border-InRows tab)
      ((
        inr (omega arith, omega arith, omega arith, omega arith, inl tt),
        each-All rows n_games 0 (loadavg_row avgs)
            (λ j le h. loadavg_row-InRows avgs j (omega (arith, h))),
      ))

-- What is drawn stays on the rows of the tabs.
abbrev pub Drawn : List Stroke × TabState → Type 0
Drawn p = All (InRows 49 64) p.0

first_loadavg-Drawn : (tab : ℕ) (r : Reading) (s : TabState) → Drawn (first_loadavg tab r s)
unfolding first_loadavg
first_loadavg-Drawn tab r s =
    if_both Drawn (tab == s.prev_tab) ([], record s { focus = true })
      (
        (render_loadavg tab r.ldavg s).0,
        record (render_loadavg tab r.ldavg s).1 { start = r.began },
      )
      tt (render_loadavg-InRows tab r.ldavg s)

next_loadavg-Drawn : (tab : ℕ) (r : Reading) (s : TabState) → Drawn (next_loadavg tab r s)
unfolding next_loadavg
next_loadavg-Drawn tab r s =
    if_both Drawn (s.focus && leb 1 (r.last - s.start))
      (
        (render_loadavg tab r.ldavg_again s).0,
        record (render_loadavg tab r.ldavg_again s).1 { start = r.last },
      )
      ([], s) (render_loadavg-InRows tab r.ldavg_again s) tt

pub xo_loadavg-Drawn : (tab : ℕ) (r : Reading) (s : TabState) → Drawn (xo_loadavg tab r s)
unfolding xo_loadavg
xo_loadavg-Drawn tab r s =
    let first = first_loadavg tab r s in
    let again = next_loadavg tab r (record first.1 { prev_tab = tab }) in
    All-append (InRows 49 64) first.0 again.0 (first_loadavg-Drawn tab r s)
      (next_loadavg-Drawn tab r (record first.1 { prev_tab = tab }))
