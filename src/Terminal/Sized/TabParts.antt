-- ===== src/Terminal/Sized/TabParts.antt =====
-- user/tui.c: what the tabs, the message and the clock format is short.
use kxo.Prelude.{
  ℕ, ◌+◌, ◌-◌, ◌/◌, ◌^◌, ◌≤◌, arith, List, [], ◌∷◌, ◌++◌, ◌==◌, ◌&&◌, if◌then◌else◌, length, leb,
  if_both, get_or, replicate, bit_and, Bool, true, Option, some, none,
}
use kxo.Board.{XoTable, n_games}
use kxo.Engine.{XoAvg}
use kxo.Terminal.Strokes.{
  Glyph, chars, box, decimal, decimal2, Put, printed, Stroke, stroke, each, put_one,
}
use kxo.Terminal.Screen.{All, All-append}
use kxo.Terminal.Boards.{space, o_ch, x_ch}
use kxo.Terminal.Tabs.{
  TabState, Reading, tab_totlen, tab_label_basey, tab_title, border_w, draw_tab_border, xo_record,
  xo_tab_record, avg_text, no_avg, loadavg_row, render_loadavg, first_loadavg, next_loadavg,
  xo_loadavg, tablen, label_glyph, label_row, draw_tab_label, tui_update_tab, stopping, stop_width,
  stop_high, stop_glyph, stop_row, stop_message, print_now,
}
use kxo.Terminal.Sized.{
  size, size-append, decimal-size, decimal2-size, PutsFit, StrokeFits, each-fit,
}
use kxo.Terminal.Sized.Parts.{ones-fit, draw_tab_border-fits, xo_record-fits}

avg_text-size : (avg : ℕ) → size (avg_text avg) ≤ 42
avg_text-size avg =
    let a = decimal (bit_and avg 0x780 / 2 ^ 7) in
    omega (
      arith,
      size-append (a ++ chars ".") (decimal2 (bit_and avg 0x7f)),
      size-append a (chars "."),
      decimal-size (bit_and avg 0x780 / 2 ^ 7),
      decimal2-size (bit_and avg 0x7f),
    )

loadavg_row-fits : (avgs : List XoAvg) (i : ℕ) → All StrokeFits (loadavg_row avgs i)
unfolding loadavg_row
loadavg_row-fits avgs i =
    let avg = get_or avgs i no_avg in
    let b = chars "Game-" ++ decimal i in
    let c = b ++ chars "               " in
    let d = c ++ avg_text avg.avg_o in
    let e = d ++ chars "                      " in
    (
      (
        omega (
          arith,
          size-append e (avg_text avg.avg_x),
          size-append d (chars "                      "),
          size-append c (avg_text avg.avg_o),
          size-append b (chars "               "),
          size-append (chars "Game-") (decimal i),
          decimal-size i,
          avg_text-size avg.avg_o,
          avg_text-size avg.avg_x,
        ),
        tt,
      ),
      tt,
    )

render_loadavg-fits :
    (tab : ℕ) (ldavg : Option (List XoAvg)) (s : TabState)
    → All StrokeFits (render_loadavg tab ldavg s).0
unfolding render_loadavg
render_loadavg-fits tab ldavg s =
    let avgs : List XoAvg = elim ldavg [ none ↦ s.xo_avgs | some new ↦ new ] in
    let title = stroke 17 52 (
      printed (
        chars "Load avg 1min             "
        ++ o_ch ∷ []
        ++ chars "                         "
        ++ x_ch ∷ [])
      ∷ []) in
    All-append StrokeFits (draw_tab_border tab) (title ++ each n_games (loadavg_row avgs))
      (draw_tab_border-fits tab)
      ((omega arith, tt), each-fit n_games 0 (loadavg_row avgs) (loadavg_row-fits avgs))

xo_loadavg-fits : (tab : ℕ) (r : Reading) (s : TabState) → All StrokeFits (xo_loadavg tab r s).0
unfolding xo_loadavg first_loadavg next_loadavg
xo_loadavg-fits tab r s =
    let P : List Stroke × TabState → Type 0 = λ p. All StrokeFits p.0 in
    let first = first_loadavg tab r s in
    let s1 : TabState = record first.1 { prev_tab = tab } in
    let again = next_loadavg tab r s1 in
    All-append StrokeFits first.0 again.0
      (if_both P (tab == s.prev_tab) ([], record s { focus = true })
        (
          (render_loadavg tab r.ldavg s).0,
          record (render_loadavg tab r.ldavg s).1 { start = r.began },
        )
        tt (render_loadavg-fits tab r.ldavg s))
      (if_both P (s1.focus && leb 1 (r.last - s1.start))
        (
          (render_loadavg tab r.ldavg_again s1).0,
          record (render_loadavg tab r.ldavg_again s1).1 { start = r.last },
        )
        ([], s1) (render_loadavg-fits tab r.ldavg_again s1) tt)

label_row-fits : (tab i k : ℕ) → All StrokeFits (label_row tab i k)
unfolding label_row
label_row-fits tab i k =
    let len = length (tab_title i) + 4 in
    let text : List Glyph → List Put = λ title.
      printed (box 0x94 0x82 ∷ space ∷ [] ++ (title ++ (space ∷ box 0x94 0x82 ∷ []))) ∷ [] in
    (
      if_both PutsFit (k == 1) (text (tab_title i))
          (each len (λ j. put_one (label_glyph tab i len k j)))
          (if_both (λ title. PutsFit (text title)) (i == 0) (chars "Records") (chars "Load avg")
            (omega arith, tt) (omega arith, tt))
          (ones-fit len (label_glyph tab i len k)),
      tt,
    )

draw_tab_label-fits : (tab : ℕ) → All StrokeFits (draw_tab_label tab)
unfolding draw_tab_label
draw_tab_label-fits tab =
    let both : ℕ → List Stroke = λ i. each 3 (label_row tab i) in
    let n = border_w - tablen tab_totlen in
    let border : ℕ → Glyph = λ i. if i + 1 == n then box 0x95 0xae else box 0x94 0x80 in
    (
      tt,
      All-append StrokeFits (each tab_totlen both)
          (stroke (tablen tab_totlen) (tab_label_basey + 3 - 1) (each n (λ i. put_one (border i))))
          (each-fit tab_totlen 0 both (λ i. each-fit 3 0 (label_row tab i) (label_row-fits tab i)))
          (ones-fit n border, tt),
    )

pub tui_update_tab-fits :
    (tab : ℕ) (tlb : XoTable) (r : Reading) (s : TabState)
    → All StrokeFits (tui_update_tab tab tlb r s).0
unfolding tui_update_tab
tui_update_tab-fits tab tlb r s =
    All-append StrokeFits (draw_tab_label tab)
      (if tab == xo_tab_record then xo_record tab tlb s else xo_loadavg tab r s).0
      (draw_tab_label-fits tab)
      (if_both (λ (p : List Stroke × TabState). All StrokeFits p.0) (tab == xo_tab_record)
        (xo_record tab tlb s) (xo_loadavg tab r s) (xo_record-fits tab tlb s)
        (xo_loadavg-fits tab r s))

stop_row-fits : (i : ℕ) → All StrokeFits (stop_row i)
unfolding stop_row
stop_row-fits i = (
  if_both PutsFit (i == 1)
      (printed
          (box 0x94 0x82 ∷ space ∷ space ∷ [] ++ (stopping ++ (space ∷ space ∷ box 0x94 0x82 ∷ [])))
        ∷ [])
      (each stop_width (λ j. put_one (stop_glyph i j))) (omega arith, tt)
      (ones-fit stop_width (stop_glyph i)),
  tt,
)

pub stop_message-fits : (stop : Bool) → All StrokeFits (stop_message stop)
unfolding stop_message
stop_message-fits stop =
    let blank : ℕ → List Stroke = λ i. stroke 1 (8 + i) (printed (replicate 13 space) ∷ []) in
    (
      tt,
      if_both (All StrokeFits) stop (each stop_high stop_row) (each stop_high blank)
          (each-fit stop_high 0 stop_row stop_row-fits)
          (each-fit stop_high 0 blank (λ i. ((omega arith, tt), tt))),
    )

pub print_now-fits : (hour min sec : ℕ) → All StrokeFits (print_now hour min sec)
unfolding print_now
print_now-fits hour min sec =
    let a = decimal2 hour ++ chars ":" in
    let b = a ++ decimal2 min in
    let c = b ++ chars ":" in
    (
      (
        omega (
          arith,
          size-append c (decimal2 sec),
          size-append b (chars ":"),
          size-append a (decimal2 min),
          size-append (decimal2 hour) (chars ":"),
          decimal2-size hour,
          decimal2-size min,
          decimal2-size sec,
        ),
        tt,
      ),
      tt,
    )
