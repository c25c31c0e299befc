-- ===== src/Engine/Move.antt =====
-- src/main.c: `play_agent_move`, and the workers `ai_one_work_func` and `ai_two_work_func`. The
-- two workers are the same text but for the player, so one definition takes the side. Each is cut
-- where other code can run: it reads the board before it takes the lock of the game, and writes
-- under the lock.
pub mod Keeps
use kxo.Prelude.{ℕ, ◌+◌, ◌%◌, ◌/◌, ◌^◌, List, [], ◌∷◌, Bool, true, false, Option, none, some}
use kxo.Prelude.{◌==◌, if◌then◌else◌, set, modify, ◌||◌}
use kxo.Prelude.Int.{ℤ, pos, ◌+ℤ◌, ◌-ℤ◌}
use kxo.Board.{
  XoTable, cell_o, cell_x, val_set_cell, set_record_cell, xo_attr_id, xo_attr_steps,
  xo_set_attr_steps,
}
use kxo.Board.Win.{check_win, calculate_win_value}
use kxo.Score.{get_score}
use kxo.Engine.{
  Kxo, AiGame, AiGameState, AiAvg, xo_ai_mcts, xo_ai_negamax, xo_ai_rl, kxo_shutting_down,
  set_state, who_one, who_two,
}
use kxo.Engine.Fixed.{rl_fixed_1, reward_tradeoff, fixed_mul_s32, to_s32}

-- `play_agent_move`; `none` is -1. `down` and `down'` are what the two calls of
-- `kxo_shutting_down` return, and `play` is the agents' table.
unfoldable pub play_agent_move :
    (play : ℕ → ℕ → ℕ → Option ℕ) (down down' : Bool) (who table player : ℕ) → Option ℕ
play_agent_move play down down' who table player =
    if down
    then none
    else (if who == xo_ai_mcts || who == xo_ai_negamax
        then (if down' then none else play who table player)
        else play who table player)

-- The worker for O and the worker for X.
pub data Side : Type 0 where
  one two : Side

abbrev pub player : Side → ℕ
player one = cell_o
player two = cell_x

abbrev pub other_turn : Side → ℕ
other_turn one = b'X'
other_turn two = b'O'

unfoldable pub who : Side → ℕ → ℕ
unfolding who_one who_two
who one attr = who_one attr
who two attr = who_two attr

-- What a worker has read before it takes the lock.
pub record Snapshot : Type 0 where
  pub attr : ℕ
  pub table : ℕ

-- The worker up to the lock: it leaves a game that is shutting down, and reads the board else.
unfoldable pub ai_work_begin : {Rl : Type 0} → ℕ → AiGame → Kxo Rl → Kxo Rl × Option Snapshot
unfolding kxo_shutting_down set_state
ai_work_begin i g s =
    if kxo_shutting_down s
    then (set_state i AiGameState.game_ready s, none)
    else (s, some (record { attr = g.xo_tlb.attr; table = g.xo_tlb.table }))

-- The board, the record of moves, the attribute word, the turn and the state, for the move.
unfoldable pub apply_move : Side → Snapshot → Option ℕ → AiGame → AiGame
unfolding val_set_cell set_record_cell xo_set_attr_steps xo_attr_steps
apply_move side snap none g = record g { state = AiGameState.game_ready }
apply_move side snap (some move) g =
    let steps = xo_attr_steps snap.attr in
    record {
      xo_tlb = record {
        attr = xo_set_attr_steps snap.attr (steps + 1);
        table = val_set_cell snap.table move (player side);
        moves = set_record_cell g.xo_tlb.moves move steps;
      };
      turn = other_turn side;
      state = AiGameState.game_ready;
    }

-- `reward[id][steps]` after the move that leads to `table`.
unfoldable pub reward_of : Side → ℕ → ℤ
unfolding check_win calculate_win_value get_score fixed_mul_s32 to_s32 ◌+ℤ◌ ◌-ℤ◌
reward_of side table = to_s32 (
    fixed_mul_s32 (rl_fixed_1 -ℤ reward_tradeoff) (get_score table (player side))
    +ℤ pos (calculate_win_value (check_win table) (player side)))

-- What the learning agent notes of its move.
unfoldable pub note_move : {Rl : Type 0} → Side → Snapshot → Option ℕ → Kxo Rl → Kxo Rl
unfolding reward_of val_set_cell xo_attr_id xo_attr_steps who
note_move side snap none s = s
note_move side snap (some move) s =
    let id = xo_attr_id snap.attr in
    let steps = xo_attr_steps snap.attr in
    let table = val_set_cell snap.table move (player side) in
    if who side snap.attr == xo_ai_rl
    then (record s {
      episode_moves = modify s.episode_moves id (λ row. set row steps table);
      reward = modify s.reward id (λ row. set row steps (reward_of side table));
    })
    else s

unfoldable pub add_nsecs : {Rl : Type 0} → Side → ℕ → ℕ → Kxo Rl → Kxo Rl
add_nsecs one id nsecs s = record s {
  ai_avgs = modify s.ai_avgs id (λ a. record a { nsecs_o = (a.nsecs_o + nsecs) % 2 ^ 64 });
}
add_nsecs two id nsecs s = record s {
  ai_avgs = modify s.ai_avgs id (λ a. record a { nsecs_x = (a.nsecs_x + nsecs) % 2 ^ 64 });
}

-- The worker from the lock on, for the game at index `i`; `nsecs` is the time that it took.
unfoldable pub ai_work_commit :
    {Rl : Type 0} (play : ℕ → ℕ → ℕ → Option ℕ)
    → Side
    → ℕ
    → Snapshot
    → (down down' : Bool) (nsecs : ℕ) → Kxo Rl
    → Kxo Rl
unfolding play_agent_move apply_move note_move add_nsecs who
ai_work_commit play side i snap down down' nsecs s =
    let move = play_agent_move play down down' (who side snap.attr) snap.table (player side) in
    let s' = note_move side snap move s in
    add_nsecs side (xo_attr_id snap.attr) nsecs
      (record s' { games = modify s'.games i (apply_move side snap move) })
