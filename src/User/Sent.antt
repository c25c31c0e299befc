-- ===== src/User/Sent.antt =====
-- user/xo-user.c: what reaches the terminal.
use kxo.Terminal.Sized.TabParts.{tui_update_tab-fits, stop_message-fits, print_now-fits}
use kxo.Prelude.{ℕ, ◌≡◌, List, [], ◌∷◌, ◌++◌, not, ◌&&◌, if◌then◌else◌, if_both, Option}
use kxo.Board.{n_games}
use kxo.Terminal.{flush, draw_all, fresh_outbuf, outbuf_flush}
use kxo.Terminal.Output.{Fits, IsOut, texts, draw_all-IsOut}
use kxo.Terminal.Strokes.{Stroke, draws}
use kxo.Terminal.Screen.{All}
use kxo.Terminal.Boards.{update_table}
use kxo.Terminal.Tabs.{tui_update_tab, stop_message, print_now}
use kxo.Terminal.Startup.{
  tui_init, clean_screen, render_logo, render_boards_temp, save_xy, restore_xy,
}
use kxo.Terminal.Sized.{StrokeFits, Fits-append, draws-Fits}
use kxo.Terminal.Sized.Parts.{update_table-fits}
use kxo.Terminal.Sized.Begin.{
  tui_init-Fits, clean_screen-Fits, render_logo-Fits, render_boards_temp-Fits,
}
use kxo.User.{
  User, Round, listen_keyboard_handler, reads, serve, task_print_now, task_tab, main_round,
  io_draws, round_draws, loop_draws, main_draws,
}

Drawn : List Stroke × User → Type 0
Drawn p = All StrokeFits p.0

serve-Drawn : (r : Round) (u : User) → Drawn (serve r u)
unfolding serve Drawn
serve-Drawn r u =
    if_both Drawn r.stdin_ready ([], (listen_keyboard_handler r.attr_opened r.key r.attr u).0) _ tt
      (if_both Drawn (u.read_attr && r.device_ready)
        (update_table r.table, record u { tobj = record u.tobj { tlb = r.table } }) ([], u)
        (update_table-fits r.table) tt)

task_tab-Drawn : (r : Round) (u : User) → Drawn (task_tab r u)
unfolding task_tab Drawn
task_tab-Drawn r u =
    let tab = tui_update_tab u.tobj.tab u.tobj.tlb r.reading u.tabs in
    if_both Drawn u.read_attr (tab.0, record u { tabs = tab.1 }) ([], u)
      (tui_update_tab-fits u.tobj.tab u.tobj.tlb r.reading u.tabs) tt

io_draws-Fits : (r : Round) (u : User) → Fits (io_draws r u)
unfolding io_draws Drawn save_xy restore_xy
io_draws-Fits r u =
    let (sts, u') = serve r u in
    let board = (save_xy ∷ draws sts) ++ flush ∷ restore_xy ∷ [] in
    Fits-append (if reads r u then board else []) (draws (stop_message (not u'.read_attr)))
      (if_both Fits (reads r u) board []
        (Fits-append (draws sts) (flush ∷ restore_xy ∷ []) (draws-Fits sts (serve-Drawn r u)) tt)
        tt)
      (draws-Fits (stop_message (not u'.read_attr)) (stop_message-fits (not u'.read_attr)))

round_draws-Fits : (r : Round) (u : User) → Fits (round_draws r u)
unfolding round_draws task_print_now Drawn
round_draws-Fits r u =
    let clock = print_now r.hour r.min r.sec in
    let tab = (task_tab r (serve r u).1).0 in
    Fits-append (draws clock) (io_draws r u ++ (draws tab ++ flush ∷ []))
      (draws-Fits clock (print_now-fits r.hour r.min r.sec))
      (Fits-append (io_draws r u) (draws tab ++ flush ∷ []) (io_draws-Fits r u)
        (Fits-append (draws tab) (flush ∷ []) (draws-Fits tab (task_tab-Drawn r (serve r u).1)) tt))

loop_draws-Fits : (rs : List Round) (u : User) → Fits (loop_draws rs u)
unfolding loop_draws
loop_draws-Fits [] u = tt
loop_draws-Fits (r ∷ rs) u =
    let rest = loop_draws rs (main_round r u).1 in
    if_both Fits u.end_attr [] (round_draws r u ++ rest) tt (
      Fits-append (round_draws r u) rest (round_draws-Fits r u)
        (loop_draws-Fits rs (main_round r u).1))

main_draws-Fits :
    (logo : Option (List ℕ)) (rs : List Round) (u : User) → Fits (main_draws logo rs u)
unfolding main_draws
main_draws-Fits logo rs u =
    let boards = render_boards_temp n_games in
    let begin = tui_init ++ (clean_screen ∷ render_logo logo) in
    Fits-append begin (boards ++ loop_draws rs u)
      (Fits-append tui_init (clean_screen ∷ render_logo logo) tui_init-Fits
        (clean_screen-Fits (render_logo logo) (render_logo-Fits logo)))
      (Fits-append boards (loop_draws rs u) (render_boards_temp-Fits n_games)
        (loop_draws-Fits rs u))

-- Every text that the program formats is shorter than the buffer: whatever the logo, the keys, the
-- tables, the averages and the clock, from the start to the end of the loop, buffering stays on, no
-- text is lost or overtaken, and a last flush has sent exactly the texts of the calls, in their
-- order.
pub main_draws-sent :
    (logo : Option (List ℕ)) (rs : List Round) (u : User)
    → let ds = main_draws logo rs u in
      IsOut (texts ds) (draw_all ds fresh_outbuf)
      × ((outbuf_flush (draw_all ds fresh_outbuf)).shown ≡ texts ds)
main_draws-sent logo rs u = draw_all-IsOut (main_draws logo rs u) (main_draws-Fits logo rs u)
