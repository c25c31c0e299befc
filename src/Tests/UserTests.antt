-- ===== src/Tests/UserTests.antt =====
-- user/xo-user.c and user/tui.c: a terminal, runs, and instances of the theorems.
use kxo.Prelude.{
  ℕ, ◌+◌, ◌≡◌, inl, inr, refl, arith, List, [], ◌∷◌, Bool, true, false, Option, none, some, put,
  put_self, put_other,
}
use native.Mathlib.Decide.{ℕ_discrete}
use kxo.Board.{XoTable, xo_attr_id, xo_attr_steps, table_get_cell}
use kxo.Engine.{Kxo}
use kxo.Terminal.Strokes.{Glyph}
use kxo.Terminal.Boards.{pos_x, pos_y}
use kxo.Terminal.Screen.{Terminal, IsTerminal, show}
use kxo.User.{
  main_draws, User, Round, main_loop, user_start, ctrl_p, ctrl_q, key_w, listen_keyboard_handler,
  main_round, task_io, serve, task_tab,
}
use kxo.Engine.Lifecycle.{init_state}
use kxo.Engine.Device.{kxo_state_show, kxo_state_store}
use kxo.User.Shown.{IsTable, boards_read, last_mark, main_loop-look}
use kxo.Terminal.{draw_all, fresh_outbuf, outbuf_flush}
use kxo.Terminal.Output.{IsOut, texts}
use kxo.User.Starting.{status_check}
use kxo.Terminal.Strokes.{chars, bytes_of}
use kxo.Prelude.{◌++◌}
use kxo.User.Sent.{main_draws-sent}
use kxo.User.Keys.{Scans, Agree, press_all, press_all-Agree}

-- A terminal without bounds: where its cursor is, and what it shows in each row and column.
record Screen : Type 0 where
  column : ℕ
  row : ℕ
  rows : ℕ → ℕ → Glyph

abbrev blank : Glyph
blank = b' ' ∷ []

abbrev screen : Terminal Screen
screen = record {
  move = λ x y s. record s { column = x; row = y };
  put_char = λ g s. record s {
    column = s.column + 1;
    rows = put s.rows s.row (put (s.rows s.row) s.column g);
  };
  feed = λ s. record s { column = 1; row = s.row + 1 };
  erase = λ s. record s { rows = put s.rows s.row (λ x. blank) };
  at_x = λ s. s.column;
  at_y = λ s. s.row;
  look = λ s x y. s.rows y x;
}

screen-IsTerminal : IsTerminal screen
screen-IsTerminal = record {
  move-at = λ x y s a b c d. (refl, refl);
  move-look = λ x y s cx cy. refl;
  put_char-at = λ g s h. (refl, refl);
  put_char-here = λ g s h.
      rw (put_self s.rows s.row (put (s.rows s.row) s.column g))
        (put_self (s.rows s.row) s.column g);
  put_char-look = λ g s cx cy h away. elim (ℕ_discrete cy s.row) [
    | yes same ↦ elim away [
      | inl ne ↦
          rw (same, put_self s.rows s.row (put (s.rows s.row) s.column g))
            (put_other (s.rows s.row) s.column cx g ne)
      | inr ne ↦ absurd (ne same)
    ]
    | no ne ↦ rw (put_other s.rows s.row cy (put (s.rows s.row) s.column g) ne) refl
  ];
  feed-look = λ s cx cy h. refl;
  erase-at = λ s. (refl, refl);
  erase-look = λ s cx cy ne. rw (put_other s.rows s.row cy (λ x. blank) ne) refl;
}

abbrev empty_screen : Screen
empty_screen = record { column = 1; row = 1; rows = λ y x. blank }

-- The game 4 with X in its cell 0, after one step.
abbrev table_four : XoTable
table_four = record { attr = 4 + 16; table = 2; moves = 0 }

four-IsTable : IsTable table_four
unfolding xo_attr_id xo_attr_steps
four-IsTable = (omega arith, omega arith)

-- The table comes, and then a key for the tab of the averages.
abbrev table_round : Round
table_round = record {
  hour = 23;
  min = 59;
  sec = 7;
  stdin_ready = false;
  device_ready = true;
  attr_opened = true;
  key = none;
  attr = [];
  table = table_four;
  reading = record { began = 3; last = 4; ldavg = none; ldavg_again = none };
}

abbrev key_round : Round
key_round = record table_round { stdin_ready = true; key = some key_w }

abbrev two_rounds : List Round
two_rounds = table_round ∷ key_round ∷ []

abbrev started : User
started = user_start table_four

main_loop-look_example :
    (show screen (main_loop two_rounds started).0 empty_screen).rows (pos_y 4 0) (pos_x 4 0)
    ≡ last_mark 4 0 (boards_read two_rounds started) blank
main_loop-look_example =
    main_loop-look screen screen-IsTerminal 4 0 two_rounds started empty_screen (omega arith)
      (omega arith)
      (
        (omega arith, omega arith, omega arith, four-IsTable),
        ((omega arith, omega arith, omega arith, four-IsTable), tt),
      )
      four-IsTable

-- The mark of game 4 after the table has come.
shown_four :
    last_mark 4 0 (boards_read two_rounds started) blank
    ≡ 0x1b ∷ b'[' ∷ b'3' ∷ b'1' ∷ b'm' ∷ b'X' ∷ 0x1b ∷ b'[' ∷ b'0' ∷ b'm' ∷ []
unfolding last_mark boards_read xo_attr_id table_get_cell main_round task_io serve task_tab
    listen_keyboard_handler
shown_four = refl

-- `sscanf` with "%c %c %c".
scan : List ℕ → Option (ℕ × ℕ × ℕ)
scan (d ∷ _ ∷ r ∷ _ ∷ e ∷ rest) = some (d, r, e)
scan _ = none

scan-Scans : Scans scan
unfolding scan
scan-Scans d r e = refl

abbrev module_start : Kxo ℕ
module_start = init_state 0 (λ i. 0)

start-Agree : Agree module_start started
unfolding init_state
start-Agree = record { flag = inr refl; same = λ e. refl; ends = refl }

-- Stop the display, show the averages, go on, and end.
abbrev keys : List (Bool × Option ℕ)
keys =
    (true, some ctrl_p)
    ∷ (true, some key_w)
    ∷ (true, some ctrl_p)
    ∷ (false, some ctrl_p)
    ∷ (true, some ctrl_q)
    ∷ []

after_keys :
    (press_all scan keys (module_start, started)).0.attr_obj
    ≡ record { display = b'1'; resume = b'1'; end = b'1' }
unfolding init_state listen_keyboard_handler kxo_state_show kxo_state_store scan
after_keys = refl

press_all-Agree_example :
    Agree
      (press_all scan keys (module_start, started)).0
      (press_all scan keys (module_start, started)).1
press_all-Agree_example = press_all-Agree scan scan-Scans keys module_start started start-Agree

-- A logo of two lines.
main_draws-sent_example :
    let ds = main_draws (some (7 ∷ 10 ∷ 8 ∷ [])) two_rounds started in
    IsOut (texts ds) (draw_all ds fresh_outbuf)
    × ((outbuf_flush (draw_all ds fresh_outbuf)).shown ≡ texts ds)
main_draws-sent_example = main_draws-sent (some (7 ∷ 10 ∷ 8 ∷ [])) two_rounds started

-- The states of a module that is loaded, and of one that is being loaded.
module_states :
    (status_check (some (bytes_of (chars "live") ++ 10 ∷ [])) ≡ true)
    × (status_check (some (bytes_of (chars "coming") ++ 10 ∷ [])) ≡ false)
unfolding status_check
module_states = (refl, refl)
