-- ===== src/User.antt =====
-- user/xo-user.c: the program that shows the games, and stops and ends them on a key.
pub mod Shown
pub mod Keys
pub mod Sent
pub mod Tasks
pub mod Starting
use kxo.Prelude.{
  ℕ, ◌+◌, List, [], ◌∷◌, ◌++◌, ◌==◌, if◌then◌else◌, not, ◌&&◌, Bool, true, false, Option, none,
  some, bit_xor, modify,
}
use kxo.Board.{XoTable, n_games}
use kxo.Terminal.{Draw, flush}
use kxo.Terminal.Strokes.{Stroke, draws}
use kxo.Terminal.Startup.{
  tui_init, clean_screen, render_logo, render_boards_temp, save_xy, restore_xy,
}
use kxo.Terminal.Boards.{update_table}
use kxo.Terminal.Tabs.{
  xo_tab_record, xo_tab_loadavg, TabState, tab_state, Reading, tui_update_tab, stop_message,
  print_now,
}

abbrev pub ctrl_p : ℕ
ctrl_p = 16

abbrev pub ctrl_q : ℕ
ctrl_q = 17

abbrev pub key_q : ℕ
key_q = 113

abbrev pub key_w : ℕ
key_w = 119

-- `struct task_obj`.
pub record TaskObj : Type 0 where
  pub tlb : XoTable
  pub tab : ℕ

-- The variables of the program, with those of the tabs.
pub record User : Type 0 where
  pub read_attr : Bool
  pub end_attr : Bool
  pub tobj : TaskObj
  pub tabs : TabState

-- `listen_keyboard_handler` where the attribute is open: `input` is the key, if one is read, and
-- `buf` what `read` has of the attribute. The last part is what is written to it. The text that the
-- key of the end prints by `printf` does not go through the drawing and is left out.
unfoldable pub key_pressed : ℕ → List ℕ → User → User × Option (List ℕ)
key_pressed input buf u =
    if input == ctrl_p
    then (
      record u { read_attr = not u.read_attr },
      some (modify buf 0 (λ c. bit_xor (bit_xor c b'0') b'1')),
    )
    else (if input == ctrl_q
        then (record u { read_attr = false; end_attr = true }, some (modify buf 4 (λ c. b'1')))
        else (if input == key_q
            then (record u { tobj = record u.tobj { tab = xo_tab_record } }, none)
            else (if input == key_w
                then (record u { tobj = record u.tobj { tab = xo_tab_loadavg } }, none)
                else (u, none))))

unfoldable pub listen_keyboard_handler :
    (opened : Bool) → Option ℕ → List ℕ → User → User × Option (List ℕ)
unfolding key_pressed
listen_keyboard_handler opened none buf u = (u, none)
listen_keyboard_handler opened (some input) buf u =
    if opened then key_pressed input buf u else (u, none)

-- What a round takes from outside: the clock, what `select` finds ready, the key and the attribute,
-- the table that the device gives, and what the tab of the averages reads.
pub record Round : Type 0 where
  pub hour : ℕ
  pub min : ℕ
  pub sec : ℕ
  pub stdin_ready : Bool
  pub device_ready : Bool
  pub attr_opened : Bool
  pub key : Option ℕ
  pub attr : List ℕ
  pub table : XoTable
  pub reading : Reading

unfoldable pub task_print_now : Round → List Stroke
task_print_now r = print_now r.hour r.min r.sec

-- What is read: a key goes before a table, and no table is read while the display is stopped.
abbrev pub reads : Round → User → Bool
reads r u = not r.stdin_ready && (u.read_attr && r.device_ready)

unfoldable pub serve : Round → User → List Stroke × User
unfolding listen_keyboard_handler
serve r u =
    if r.stdin_ready
    then ([], (listen_keyboard_handler r.attr_opened r.key r.attr u).0)
    else (if u.read_attr && r.device_ready
        then (update_table r.table, record u { tobj = record u.tobj { tlb = r.table } })
        else ([], u))

-- `task_io` where `select` succeeds, up to the message that it sends. The cursor is saved before
-- the board is drawn and restored after it.
unfoldable pub task_io : Round → User → List Stroke × User
unfolding serve
task_io r u = let (sts, u') = serve r u in (sts ++ stop_message (not u'.read_attr), u')

-- `task_tab`, whose message is the object of `task_io`.
unfoldable pub task_tab : Round → User → List Stroke × User
task_tab r u =
    if u.read_attr
    then (let (sts, s) = tui_update_tab u.tobj.tab u.tobj.tlb r.reading u.tabs in
        (sts, record u { tabs = s }))
    else ([], u)

-- One round of the loop of `main`: the three tasks in the order of their start.
unfoldable pub main_round : Round → User → List Stroke × User
unfolding task_print_now task_io task_tab
main_round r u =
    let io = task_io r u in
    let tab = task_tab r io.1 in (task_print_now r ++ (io.0 ++ tab.0), tab.1)

-- `while (!end_attr)`, over the rounds to come.
unfoldable pub main_loop : List Round → User → List Stroke × User
main_loop [] u = ([], u)
main_loop (r ∷ rs) u =
    let (sts, u') = main_round r u in
    let rest = main_loop rs u' in if u.end_attr then ([], u) else (sts ++ rest.0, rest.1)

-- The calls of the buffer in a round: those for the strokes, with the ends of `update_table` and of
-- the round, and the cursor saved before a board and restored after it.
unfoldable pub io_draws : Round → User → List Draw
io_draws r u =
    let (sts, u') = serve r u in
    (if reads r u then (save_xy ∷ draws sts) ++ flush ∷ restore_xy ∷ [] else [])
    ++ draws (stop_message (not u'.read_attr))

unfoldable pub round_draws : Round → User → List Draw
round_draws r u =
    draws (task_print_now r) ++ (io_draws r u ++ (draws (task_tab r (serve r u).1).0 ++ flush ∷ []))

unfoldable pub loop_draws : List Round → User → List Draw
loop_draws [] u = []
loop_draws (r ∷ rs) u =
    let rest = loop_draws rs (main_round r u).1 in
    if u.end_attr then [] else round_draws r u ++ rest

-- All of them, up to the end of the loop.
unfoldable pub main_draws : Option (List ℕ) → List Round → User → List Draw
main_draws logo rs u =
    tui_init ++ (clean_screen ∷ render_logo logo) ++ (render_boards_temp n_games ++ loop_draws rs u)

-- The variables before the loop; the first table is not set.
abbrev pub user_start : XoTable → User
user_start unset = record {
  read_attr = true;
  end_attr = false;
  tobj = record { tlb = unset; tab = xo_tab_record };
  tabs = tab_state;
}
