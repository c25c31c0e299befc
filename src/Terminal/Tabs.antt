-- ===== src/Terminal/Tabs.antt =====
-- user/tui.c: the two tabs below the boards, the message of a stopped display and the clock.
pub mod Rows
use kxo.Prelude.{
  ℕ, zero, suc, ◌+◌, ◌-◌, ◌*◌, ◌/◌, ◌%◌, ◌^◌, List, [], ◌∷◌, ◌++◌, ◌==◌, if◌then◌else◌, not, ◌&&◌,
  ◌||◌, leb, get_or, length, replicate, bit_and, Bool, true, false, Option, none, some,
}
use kxo.Board.{XoTable, n_games, board_size, xo_attr_id, xo_attr_steps, get_record_cell}
use kxo.Engine.{XoAvg}
use kxo.Terminal.Strokes.{
  Glyph, chars, box, decimal, decimal2, Put, printed, printed_line, clean_line, Stroke, each,
  stroke, put_one,
}
use kxo.Terminal.Boards.{o_ch, x_ch, space}

-- `enum tui_tab`.
abbrev pub xo_tab_record : ℕ
xo_tab_record = 0

abbrev pub xo_tab_loadavg : ℕ
xo_tab_loadavg = 1

abbrev pub tab_totlen : ℕ
tab_totlen = 2

abbrev pub tab_ctx_basey : ℕ
tab_ctx_basey = 52

abbrev pub tab_label_basey : ℕ
tab_label_basey = 49

-- `tui_tabs`, and the `tab_maxh` that `tui_init` finds.
abbrev pub tab_title : ℕ → List Glyph
tab_title tab = if tab == 0 then chars "Records" else chars "Load avg"

abbrev pub tab_high : ℕ → ℕ
tab_high tab = if tab == 0 then 11 else 10

abbrev pub tab_maxh : ℕ
tab_maxh = 11

-- The variables of the tabs; a `time` is a whole number of seconds.
pub record TabState : Type 0 where
  pub prev_tab : ℕ
  pub focus : Bool
  pub start : ℕ
  pub xo_avgs : List XoAvg

abbrev pub tab_state : TabState
tab_state = record {
  prev_tab = tab_totlen;
  focus = false;
  start = 0;
  xo_avgs = replicate n_games (record { avg_o = 0; avg_x = 0 });
}

-- What a call of `xo_loadavg` takes from outside: the two readings of the clock, and the averages
-- that the device gives, `none` when the call fails.
pub record Reading : Type 0 where
  pub began : ℕ
  pub last : ℕ
  pub ldavg : Option (List XoAvg)
  pub ldavg_again : Option (List XoAvg)

abbrev pub border_w : ℕ
border_w = 106

unfoldable pub draw_tab_border : ℕ → List Stroke
draw_tab_border tab =
    let high = tab_high tab in
    each (tab_maxh + 1) (λ i. stroke 1 (tab_ctx_basey + i) (clean_line ∷ []))
    ++ (stroke 1 (tab_ctx_basey + high) (put_one (box 0x95 0xb0))
        ++ (stroke (1 + border_w - 2) (tab_ctx_basey + high) (put_one (box 0x95 0xaf))
            ++ (each high (λ i.
                  stroke 1 (tab_ctx_basey + i) (put_one (box 0x94 0x82))
                  ++ stroke (1 + border_w - 2) (tab_ctx_basey + i) (put_one (box 0x94 0x82)))
                ++ stroke 2 (tab_ctx_basey + high)
                    (each (border_w - 3) (λ i. put_one (box 0x94 0x80))))))

-- The text of the move `i` of `steps`.
unfoldable pub record_move : ℕ → ℕ → ℕ → List Put
record_move moves steps i =
    let mv = get_record_cell moves i in
    let to = if i + 1 == steps then space else (0xf0 ∷ 0x9f ∷ 0xa0 ∷ 0xae ∷ []) in
    printed
      (space ∷ ((b'A' + bit_and mv 3) ∷ []) ∷ ((b'1' + mv / board_size) ∷ []) ∷ space ∷ to ∷ [])
    ∷ []

-- A text that is printed, and then the `gotoxy` of the next round.
unfoldable pub record_labels : List Stroke
record_labels =
    each n_games (λ i. stroke 4 (53 + i) (printed (chars "GAME-" ++ decimal i ++ chars ": ") ∷ []))
    ++ stroke 4 (53 + n_games) []

unfoldable pub xo_record : ℕ → XoTable → TabState → List Stroke × TabState
unfolding draw_tab_border record_labels record_move
xo_record tab tlb s =
    let id = xo_attr_id tlb.attr in
    let steps = xo_attr_steps tlb.attr in
    let border = if tab == s.prev_tab then [] else draw_tab_border tab in
    (
      border
          ++ (record_labels
              ++ (stroke 11 (53 + id) (printed (replicate 77 space) ∷ [])
                  ++ stroke 11 (53 + id) (each steps (record_move tlb.moves steps)))),
      record s { prev_tab = tab },
    )

abbrev pub avg_text : ℕ → List Glyph
avg_text avg = decimal (bit_and avg 0x780 / 2 ^ 7) ++ chars "." ++ decimal2 (bit_and avg 0x7f)

abbrev pub no_avg : XoAvg
no_avg = record { avg_o = 0; avg_x = 0 }

unfoldable pub loadavg_row : List XoAvg → ℕ → List Stroke
loadavg_row avgs i =
    let avg = get_or avgs i no_avg in
    stroke 20 (52 + i + 1) (
      printed (
        chars "Game-"
        ++ decimal i
        ++ chars "               "
        ++ avg_text avg.avg_o
        ++ chars "                      "
        ++ avg_text avg.avg_x)
      ∷ [])

unfoldable pub render_loadavg : ℕ → Option (List XoAvg) → TabState → List Stroke × TabState
unfolding draw_tab_border loadavg_row
render_loadavg tab ldavg s =
    let avgs : List XoAvg = elim ldavg [ none ↦ s.xo_avgs | some new ↦ new ] in
    (
      draw_tab_border tab
          ++ (stroke 17 52 (
                printed (
                  chars "Load avg 1min             "
                  ++ o_ch ∷ []
                  ++ chars "                         "
                  ++ x_ch ∷ [])
                ∷ [])
              ++ each n_games (loadavg_row avgs)),
      record s { xo_avgs = avgs },
    )

-- `xo_loadavg` for a tab that is new or not, and when a second is over.
unfoldable pub first_loadavg : ℕ → Reading → TabState → List Stroke × TabState
unfolding render_loadavg
first_loadavg tab r s =
    if tab == s.prev_tab
    then ([], record s { focus = true })
    else (let (sts, s') = render_loadavg tab r.ldavg s in (sts, record s' { start = r.began }))

unfoldable pub next_loadavg : ℕ → Reading → TabState → List Stroke × TabState
unfolding render_loadavg
next_loadavg tab r s =
    if s.focus && leb 1 (r.last - s.start)
    then (let (sts, s') = render_loadavg tab r.ldavg_again s in (sts, record s' { start = r.last }))
    else ([], s)

-- `start` and `last` are readings of a clock that does not go back, each with nanoseconds below one
-- second, whose difference the source divides to 0.
unfoldable pub xo_loadavg : ℕ → Reading → TabState → List Stroke × TabState
unfolding first_loadavg next_loadavg
xo_loadavg tab r s =
    let first = first_loadavg tab r s in
    let again = next_loadavg tab r (record first.1 { prev_tab = tab }) in
    (first.0 ++ again.0, record again.1 { focus = false })

-- The first column of a label.
abbrev pub tablen : ℕ → ℕ
tablen zero = 1
tablen (suc i) = tablen i + (length (tab_title i) + 4)

unfoldable pub label_glyph : (tab i len k j : ℕ) → Glyph
label_glyph tab i len k j =
    let last_col = j + 1 == len in
    if k == 0
    then (if j == 0 then box 0x95 0xad else (if last_col then box 0x95 0xae else box 0x94 0x80))
    else (if j == 0
        then (if i == 0
            then (if i == tab then box 0x94 0x82 else box 0x94 0x9c)
            else (if i == tab then box 0x94 0x98 else box 0x94 0xb4))
        else (if last_col
            then (if i == tab then box 0x94 0x94 else box 0x94 0xb4)
            else (if i == tab then space else box 0x94 0x80)))

unfoldable pub label_row : ℕ → ℕ → ℕ → List Stroke
label_row tab i k =
    let len = length (tab_title i) + 4 in
    stroke (tablen i) (tab_label_basey + k) (
      if k == 1
      then (printed (box 0x94 0x82 ∷ space ∷ [] ++ (tab_title i ++ (space ∷ box 0x94 0x82 ∷ [])))
          ∷ [])
      else each len (λ j. put_one (label_glyph tab i len k j)))

unfoldable pub draw_tab_label : ℕ → List Stroke
unfolding label_row
draw_tab_label tab =
    let n = border_w - tablen tab_totlen in
    stroke 0 tab_label_basey []
    ++ (each tab_totlen (λ i. each 3 (label_row tab i))
        ++ stroke (tablen tab_totlen) (tab_label_basey + 3 - 1)
            (each n (λ i. put_one (if i + 1 == n then box 0x95 0xae else box 0x94 0x80))))

-- Its `assert` is the condition `tab < tab_totlen`.
unfoldable pub tui_update_tab : ℕ → XoTable → Reading → TabState → List Stroke × TabState
unfolding draw_tab_label xo_record xo_loadavg
tui_update_tab tab tlb r s =
    let (sts, s') = if tab == xo_tab_record then xo_record tab tlb s else xo_loadavg tab r s in
    (draw_tab_label tab ++ sts, s')

-- `COLOR_GREEN "STOPPING" COLOR_RESET`; a colour goes with the character beside it.
abbrev pub stopping : List Glyph
stopping =
    (0x1b ∷ b'[' ∷ b'3' ∷ b'2' ∷ b'm' ∷ b'S' ∷ []) ∷ chars "TOPPIN"
    ++ (b'G' ∷ 0x1b ∷ b'[' ∷ b'0' ∷ b'm' ∷ []) ∷ []

abbrev pub stop_width : ℕ
stop_width = 13

abbrev pub stop_high : ℕ
stop_high = 3

unfoldable pub stop_glyph : ℕ → ℕ → Glyph
stop_glyph i j =
    let last_row = i + 1 == stop_high in
    let last_col = j + 1 == stop_width in
    if (i == 0) && (j == 0)
    then box 0x94 0x8c
    else (if (i == 0) && last_col
        then box 0x94 0x90
        else (if last_row && (j == 0)
            then box 0x94 0x94
            else (if last_row && last_col
                then box 0x94 0x98
                else (if (not (i == 0) && not last_row) && ((j == 0) || last_col)
                    then box 0x94 0x82
                    else box 0x94 0x80))))

unfoldable pub stop_row : ℕ → List Stroke
stop_row i = stroke 1 (8 + i) (
    if i == 1
    then (printed
          (box 0x94 0x82 ∷ space ∷ space ∷ [] ++ (stopping ++ (space ∷ space ∷ box 0x94 0x82 ∷ [])))
        ∷ [])
    else each stop_width (λ j. put_one (stop_glyph i j)))

unfoldable pub stop_message : Bool → List Stroke
unfolding stop_row
stop_message stop =
    stroke 1 8 []
    ++ (if stop
        then each stop_high stop_row
        else each stop_high (λ i. stroke 1 (8 + i) (printed (replicate 13 space) ∷ [])))

-- The clock, of the hour, the minute and the second.
unfoldable pub print_now : ℕ → ℕ → ℕ → List Stroke
print_now hour min sec =
    stroke 50 48
      (printed_line (decimal2 hour ++ chars ":" ++ decimal2 min ++ chars ":" ++ decimal2 sec) ∷ [])
