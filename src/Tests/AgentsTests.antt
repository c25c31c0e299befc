-- ===== src/Tests/AgentsTests.antt =====
-- src/main.c: an instance of the theorem on the table of agents.
use kxo.Prelude.{ℕ, ◌+◌, ◌%◌, [], true, ◌==◌}
use kxo.Board.Win.Correct.{IsBoard}
use kxo.Prelude.{refl, inr, arith, not}
use kxo.Prelude.Tables.{passes, passes-at}
use kxo.Board.{table_get_cell, cell_d, cell_x}
use kxo.Engine.{xo_ai_negamax}
use kxo.Zobrist.{zobrist_init, zobrist_keys}
use kxo.Negamax.{Calls, no_move}
use kxo.Negamax.Answer.{Sorts}
use kxo.Learner.States.{init_rl_agent}
use kxo.System.{IsLegal}
use kxo.Agents.{Agents, Outside, play, init_all}
use kxo.Agents.Legal.{InOrder, play-IsLegal, init_all-InOrder}

-- A sort that leaves the array, keys from a clock, and memory for every other entry and node.
abbrev simple_calls : Calls
simple_calls = record {
  sort = λ cmp moves. moves;
  zobrist_table = zobrist_keys (λ n. 1000 + n);
  granted = λ s. s.hash_value % 2 == 0;
}

abbrev outside : Outside
outside = record {
  calls = simple_calls;
  unset = no_move;
  granted = λ n. n % 2 == 0;
  stopped = λ n. n == 60;
  bucket = λ n. n % 64;
  rnd = λ n. n % 5;
}

-- The variables before the module is loaded.
abbrev unset_agents : Agents
unset_agents = record {
  search = record {
    history_score_sum = [];
    history_count = [];
    hash_value = 9;
    cache = zobrist_init true;
  };
  mcts_obj = record { xoro_obj = record { s0 = 1; s1 = 2 }; nr_active_nodes = 7; asked = 0 };
  store = init_rl_agent;
}

abbrev loaded : Agents
loaded = init_all true unset_agents

simple_calls-Sorts : Sorts simple_calls
simple_calls-Sorts = record { keeps = λ cmp moves m. (λ e. e, λ e. e) }

loaded-InOrder : InOrder outside simple_calls-Sorts loaded
loaded-InOrder = init_all-InOrder outside simple_calls-Sorts true unset_agents

-- O at 0, 1 and 5; X at 4 and 8.
abbrev open_board : ℕ
open_board = 0x20605

open_board-IsBoard : IsBoard open_board
unfolding passes table_get_cell
open_board-IsBoard = record {
  word = omega arith;
  cells = λ p h e.
      ground (arith, passes-at (λ q. not (table_get_cell open_board q == cell_d)) 16 p h refl);
}

play-IsLegal_example :
    IsLegal (λ who table player. (play outside who table player loaded).0)
    × InOrder outside simple_calls-Sorts (play outside xo_ai_negamax open_board cell_x loaded).1
play-IsLegal_example =
    play-IsLegal outside simple_calls-Sorts xo_ai_negamax open_board cell_x loaded
      open_board-IsBoard (inr refl) loaded-InOrder
