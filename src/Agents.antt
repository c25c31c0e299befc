-- ===== src/Agents.antt =====
-- src/main.c: the table `agents`, filled with the models of src/mcts.c, src/negamax.c and src/rl.c.
pub mod Legal
use kxo.Prelude.{ℕ, ◌==◌, if◌then◌else◌, Bool, Option, none, some}
use kxo.Prelude.Int.{ℤ, pos, negsuc}
use kxo.Board.{cell_empty}
use kxo.Engine.{xo_ai_mcts, xo_ai_negamax}
use kxo.Negamax.{Search, Calls, MoveT, negamax_predict, negamax_init}
use kxo.Mcts.{Mcts, mcts, mcts_init}
use kxo.Learner.{play_rl}
use kxo.Learner.States.{States, rl_store, init_rl_agent}

-- The variables of the three agents.
pub record Agents : Type 0 where
  pub search : Search
  pub mcts_obj : Mcts
  pub store : States

-- What the agents take from outside: see Negamax.antt, Mcts.antt and Learner/States.antt.
pub record Outside : Type 0 where
  pub calls : Calls
  pub unset : MoveT
  pub granted : ℕ → Bool
  pub stopped : ℕ → Bool
  pub bucket : ℕ → ℕ
  pub rnd : ℕ → ℕ

-- A move as the engine takes it: `none` is -1, the only negative answer.
unfoldable pub answer : ℤ → Option ℕ
answer (pos m) = some m
answer (negsuc z) = none

-- `mcts` always gives an answer (Mcts/Answer.antt), so `none` stands for no call that is made.
unfoldable pub play_mcts : Outside → ℕ → ℕ → Agents → Option ℕ × Agents
play_mcts o table player a = elim (mcts o.granted o.stopped table player a.mcts_obj) [
  | none ↦ (none, a)
  | some (m, st) ↦ (answer m, record a { mcts_obj = st })
]

unfoldable pub play_negamax : Outside → ℕ → ℕ → Agents → Option ℕ × Agents
play_negamax o table player a =
    let (m, s) = negamax_predict o.calls o.unset table player a.search in
    (answer m, record a { search = s })

unfoldable pub play_learner : Outside → ℕ → ℕ → Agents → Option ℕ × Agents
play_learner o table player a =
    let (m, s) = play_rl (rl_store o.bucket) o.rnd table player a.store in
    (m, record a { store = s })

-- `agents[who].play(table, player)`.
unfoldable pub play : Outside → ℕ → ℕ → ℕ → Agents → Option ℕ × Agents
play o who table player a =
    if who == xo_ai_mcts
    then play_mcts o table player a
    else (if who == xo_ai_negamax
        then play_negamax o table player a
        else play_learner o table player a)

-- The agents after `kxo_init`, whatever their variables held.
unfoldable pub init_all : Bool → Agents → Agents
unfolding negamax_init mcts_init init_rl_agent
init_all has_memory a = record {
  search = negamax_init has_memory a.search;
  mcts_obj = mcts_init a.mcts_obj;
  store = init_rl_agent;
}
