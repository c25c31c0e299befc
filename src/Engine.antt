-- ===== src/Engine.antt =====
-- include/ai-game.h and src/main.c: the state of the module. Kernel services (the work queue, the
-- timers, the tasklet, the kfifo) are not code of the module: the state keeps the calls that are
-- made of them, in the order of the calls. `queue_work` of an item that is pending does nothing in
-- the kernel, and lists it twice here; only the drawing of a board can be listed twice.
pub mod Fixed
pub mod Move
pub mod Agents
pub mod Handlers
pub mod Device
pub mod LoadAvg
pub mod Lifecycle
use kxo.Prelude.{
  ℕ, ◌+◌, ◌%◌, ◌/◌, ◌^◌, List, [], ◌∷◌, ◌++◌, Bool, true, false, ◌||◌, not, ◌==◌, modify, bit_or,
}
use kxo.Prelude.{replicate}
use kxo.Prelude.Int.{ℤ, pos}
use kxo.Board.{XoTable, xo_attr_ai_alg, n_games, n_grids}

-- `enum ai_game_state`.
pub data AiGameState : Type 0 where
  game_busy game_ready game_done : AiGameState

-- The enumeration of the algorithms: XO_AI_MCTS, XO_AI_NEGAMAX, XO_AI_RL, XO_AI_TOT.
abbrev pub xo_ai_mcts : ℕ
xo_ai_mcts = 0

abbrev pub xo_ai_negamax : ℕ
xo_ai_negamax = 1

abbrev pub xo_ai_rl : ℕ
xo_ai_rl = 2

abbrev pub xo_ai_tot : ℕ
xo_ai_tot = 3

-- `struct ai_game`, without the lock and the heads of its work items.
pub record AiGame : Type 0 where
  pub xo_tlb : XoTable
  pub turn : ℕ
  pub state : AiGameState

-- `struct ai_avg`.
pub record AiAvg : Type 0 where
  pub nsecs_o : ℕ
  pub nsecs_x : ℕ
  pub load_avg_o : ℕ
  pub load_avg_x : ℕ

-- `struct xo_avg`.
pub record XoAvg : Type 0 where
  pub avg_x : ℕ
  pub avg_o : ℕ

-- `struct kxo_attr`, its characters as codes.
pub record KxoAttr : Type 0 where
  pub display : ℕ
  pub resume : ℕ
  pub end : ℕ

-- `struct finish_work`.
pub record FinishWork : Type 0 where
  pub game_idx : ℕ
  pub win : ℕ

-- A work item that `queue_work` is called with, by the game that it belongs to.
pub data Work : Type 0 where
  ai_one_work ai_two_work drawboard_work finish_work : ℕ → Work

-- `struct circ_buf` without its storage, which nothing reads or writes.
pub record CircBuf : Type 0 where
  pub head : ℕ
  pub tail : ℕ

-- The variables of main.c. `rl` is what the learning agent keeps; `produced` and `queued` are the
-- boards handed to `kfifo_in` and the items handed to `queue_work` that have not run.
pub record Kxo (Rl : Type 0) : Type 0 where
  pub attr_obj : KxoAttr
  pub kxo_stop_work : Bool
  pub games : List AiGame
  pub ai_avgs : List AiAvg
  pub xo_avgs : List XoAvg
  pub episode_moves : List (List ℕ)
  pub reward : List (List ℤ)
  pub finish_works : List FinishWork
  pub rl : Rl
  pub produced : List XoTable
  pub queued : List Work
  pub tasklet_data : ℕ
  pub tasklet_on : Bool
  pub timer_on : Bool
  pub loadavg_timer_on : Bool
  pub open_cnt : ℕ
  pub fast_buf : CircBuf

-- `kxo_shutting_down`.
unfoldable pub kxo_shutting_down : {Rl : Type 0} → Kxo Rl → Bool
kxo_shutting_down s = s.kxo_stop_work || not (s.attr_obj.end == b'0')

unfoldable pub kxo_set_work_stop : {Rl : Type 0} → Bool → Kxo Rl → Kxo Rl
kxo_set_work_stop stop s = record s { kxo_stop_work = stop }

unfoldable pub queue_work : {Rl : Type 0} → Work → Kxo Rl → Kxo Rl
queue_work w s = record s { queued = s.queued ++ w ∷ [] }

unfoldable pub produce_board : {Rl : Type 0} → XoTable → Kxo Rl → Kxo Rl
produce_board tlb s = record s { produced = s.produced ++ tlb ∷ [] }

unfoldable pub clear_episode : {Rl : Type 0} → ℕ → Kxo Rl → Kxo Rl
clear_episode id s = record s {
  episode_moves = modify s.episode_moves id (λ _. replicate n_grids 0);
  reward = modify s.reward id (λ _. replicate n_grids (pos 0));
}

unfoldable pub set_state : {Rl : Type 0} → ℕ → AiGameState → Kxo Rl → Kxo Rl
set_state i state s = record s { games = modify s.games i (λ g. record g { state = state }) }

-- The agent that plays O, and the one that plays X.
unfoldable pub who_one : ℕ → ℕ
unfolding xo_attr_ai_alg
who_one attr = xo_attr_ai_alg attr % xo_ai_tot

unfoldable pub who_two : ℕ → ℕ
unfolding xo_attr_ai_alg
who_two attr = (xo_attr_ai_alg attr / 2 ^ 2) % xo_ai_tot
