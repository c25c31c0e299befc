-- ===== src/Engine/Handlers.antt =====
-- src/main.c: the other handlers of a running game: `drawboard_work_func`, `finish_game_work_func`,
-- `timer_handler` and `game_tasklet_func`. The loops run over the indices of the games.
use kxo.Prelude.{
  ℕ, zero, suc, ◌+◌, ◌-◌, ◌%◌, ◌/◌, ◌^◌, List, [], Bool, true, false, Option, none, some,
}
use kxo.Prelude.{◌==◌, if◌then◌else◌, modify, get_elem?, get_or, not, ◌&&◌, ◌||◌, bit_and, bit_or}
use kxo.Prelude.Int.{ℤ}
use kxo.Board.{cell_empty, cell_o, cell_x, xo_attr_steps, xo_set_attr_ai_alg, n_games, u32, not32}
use kxo.Board.Win.{check_win}
use kxo.Engine.{
  Kxo, AiGame, AiGameState, game_busy, game_ready, game_done, FinishWork, ai_one_work, ai_two_work,
  drawboard_work, finish_work, xo_ai_rl, xo_ai_tot, kxo_shutting_down, queue_work, produce_board,
  clear_episode, set_state, who_one, who_two,
}

-- The attribute word of a new game: its index, and two random algorithms.
unfoldable pub new_attr : ℕ → ℕ → ℕ
unfolding xo_set_attr_ai_alg
new_attr i rnd = xo_set_attr_ai_alg i (rnd % xo_ai_tot) (rnd / 2 ^ 16 % xo_ai_tot)

-- The game that `finish_game_work_func` leaves.
unfoldable pub reset_game : ℕ → ℕ → AiGame
unfolding new_attr
reset_game i rnd = record {
  xo_tlb = record { attr = new_attr i rnd; table = 0; moves = 0 };
  turn = b'O';
  state = game_ready;
}

-- Whether the winner was the learning agent. `alg % XO_AI_TOT` and `(alg >> 2) % XO_AI_TOT` are
-- what the workers for O and X compute.
unfoldable pub learner_won : ℕ → ℕ → Bool
unfolding who_one who_two
learner_won attr win =
    ((win == cell_o) && (who_one attr == xo_ai_rl))
    || ((win == cell_x) && (who_two attr == xo_ai_rl))

-- `update_state_value(episode_moves[i], reward[i], steps, win)` over what the agent keeps.
abbrev pub Learn : Type 0 → Type 0
Learn Rl = List ℕ → List ℤ → ℕ → ℕ → Rl → Rl

module _ {Rl : Type 0} where
  -- The board of a game that is not busy goes to the fifo.
  unfoldable pub draw_state : AiGameState → AiGame → Kxo Rl → Kxo Rl
  unfolding produce_board
  draw_state game_busy g s = s
  draw_state game_ready g s = produce_board g.xo_tlb s
  draw_state game_done g s = produce_board g.xo_tlb s

  -- `drawboard_work_func` on the game `g`.
  unfoldable pub drawboard_work_func : AiGame → Kxo Rl → Kxo Rl
  unfolding draw_state
  drawboard_work_func g s = if s.attr_obj.display == b'0' then s else draw_state g.state g s

  unfoldable pub learn : Learn Rl → ℕ → AiGame → ℕ → Kxo Rl → Kxo Rl
  unfolding learner_won xo_attr_steps
  learn update_state_value i g win s =
      if learner_won g.xo_tlb.attr win
      then (record s {
        rl =
            update_state_value (get_or s.episode_moves i []) (get_or s.reward i [])
              (xo_attr_steps g.xo_tlb.attr) win s.rl;
      })
      else s

  -- `finish_game_work_func` for the work `fw` and its game `g`, with the random number `rnd`.
  unfoldable pub finish_game_work_func : Learn Rl → FinishWork → AiGame → ℕ → Kxo Rl → Kxo Rl
  unfolding produce_board learn reset_game clear_episode
  finish_game_work_func update_state_value fw g rnd s =
      let i = fw.game_idx in
      let s' = if s.attr_obj.display == b'1' then produce_board g.xo_tlb s else s in
      if s.attr_obj.end == b'0'
      then clear_episode i (
          learn update_state_value i g fw.win
            (record s' { games = modify s'.games i (λ _. reset_game i rnd) }))
      else s'

  -- A game that is over is marked, and its finish work is queued.
  unfoldable pub finish_ready : ℕ → ℕ → Kxo Rl → Kxo Rl
  unfolding set_state queue_work
  finish_ready i win s =
      let s' = set_state i game_done s in
      queue_work (finish_work i) (record s' {
        finish_works = modify s'.finish_works i (λ _. record { game_idx = i; win = win });
      })

  -- The body of the loop of `timer_handler` for game `i`; the number is `unfini`.
  unfoldable pub timer_state : AiGameState → ℕ → AiGame → Kxo Rl → ℕ → Kxo Rl × ℕ
  unfolding check_win finish_ready
  timer_state game_busy i g s unfini = (s, bit_or unfini (2 ^ i))
  timer_state game_done i g s unfini = (s, unfini)
  timer_state game_ready i g s unfini =
      let win = check_win g.xo_tlb.table in
      if win == cell_empty then (s, bit_or unfini (2 ^ i)) else (finish_ready i win s, unfini)

  -- An index beyond the array, which does not occur, would change nothing.
  unfoldable pub timer_game : ℕ → Option AiGame → Kxo Rl → ℕ → Kxo Rl × ℕ
  unfolding timer_state
  timer_game i none s unfini = (s, unfini)
  timer_game i (some g) s unfini = timer_state g.state i g s unfini

  -- `for (int i = 0; i < N_GAMES; i++)`, with `left` games to come.
  unfoldable pub timer_games : ℕ → ℕ → Kxo Rl × ℕ → Kxo Rl × ℕ
  unfolding timer_game
  timer_games zero i acc = acc
  timer_games (suc left) i (s, unfini) =
      timer_games left (i + 1) (timer_game i (get_elem? s.games i) s unfini)

  -- After the loop: the tasklet is scheduled for the games in `unfini`, and the timer armed again.
  unfoldable pub timer_end : Kxo Rl × ℕ → Kxo Rl
  unfolding kxo_shutting_down
  timer_end (s, unfini) =
      let fini = bit_and (not32 unfini) (2 ^ n_games - 1) in
      let down = kxo_shutting_down s in
      if not (unfini == 0) && not down
      then (record s { tasklet_data = unfini; tasklet_on = true; timer_on = true })
      else (if not down && not (fini == 0) then (record s { timer_on = true }) else s)

  -- The handler runs when the timer expires, so it is not armed on entry.
  unfoldable pub timer_handler : Kxo Rl → Kxo Rl
  unfolding timer_games timer_end
  timer_handler s = timer_end (timer_games n_games 0 (record s { timer_on = false }, 0))

  -- A ready game becomes busy with the work of its turn.
  unfoldable pub dispatch_state : AiGameState → ℕ → AiGame → Kxo Rl → Kxo Rl
  unfolding set_state queue_work
  dispatch_state game_busy id g s = s
  dispatch_state game_done id g s = s
  dispatch_state game_ready id g s =
      if g.turn == b'O'
      then queue_work (ai_one_work id) (set_state id game_busy s)
      else (if g.turn == b'X' then queue_work (ai_two_work id) (set_state id game_busy s) else s)

  -- The body of the loop of `game_tasklet_func` for the game `id`.
  unfoldable pub dispatch_game : ℕ → Option AiGame → Kxo Rl → Kxo Rl
  unfolding dispatch_state queue_work
  dispatch_game id none s = s
  dispatch_game id (some g) s = queue_work (drawboard_work id) (dispatch_state g.state id g s)

  -- `ffs` and `hweight32` are parameters. An index beyond the games would read outside the array;
  -- here it changes nothing.
  unfoldable pub dispatch_games : (ffs : ℕ → ℕ) → ℕ → ℕ → Kxo Rl → Kxo Rl
  unfolding dispatch_game
  dispatch_games ffs zero unfini s = s
  dispatch_games ffs (suc left) unfini s =
      let id = ffs unfini - 1 in
      dispatch_games ffs left (bit_and unfini (not32 (u32 (2 ^ id))))
        (dispatch_game id (get_elem? s.games id) s)

  -- The tasklet runs once for each time that it is scheduled.
  unfoldable pub game_tasklet_func : (hweight32 ffs : ℕ → ℕ) → Kxo Rl → Kxo Rl
  unfolding dispatch_games
  game_tasklet_func hweight32 ffs s =
      dispatch_games ffs (hweight32 s.tasklet_data) s.tasklet_data (record s { tasklet_on = false })
