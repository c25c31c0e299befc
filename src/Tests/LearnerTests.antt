-- ===== src/Tests/LearnerTests.antt =====
-- src/rl.c and src/rl-state.c: a run, and instances of the theorems.
use kxo.Prelude.{ℕ, ◌+◌, ◌%◌, ◌≡◌, refl, some, [], ◌∷◌}
use kxo.Prelude.Int.{pos}
use kxo.Board.{cell_x, table_get_cell}
use kxo.Learner.{Store, play_rl, update_state_value}
use kxo.Learner.States.{States, find_rl_state, init_rl_agent, rl_store}
use kxo.Learner.States.Slots.{IsStates}
use kxo.Learner.States.Found.{Found, find_rl_state-Found, init_rl_agent-IsStates}
use kxo.Learner.States.Agent.{rl_agent-IsStates}
use kxo.Learner.Laws.{IsGreatest, play_rl-Greatest}

-- A store that counts the questions and scores a board by its remainder and the count.
abbrev residues : Store ℕ
residues = record {
  find_rl_state = λ table id s. (pos ((table + s) % 7), s + 1);
  set_score = λ table id score s. s;
}

-- O at 0, 1 and 5; X at 4 and 8.
abbrev open_board : ℕ
open_board = 0x20605

abbrev no_rnd : ℕ → ℕ
no_rnd i = 0

answer : (play_rl residues no_rnd open_board cell_x 0).0 ≡ some 14
unfolding play_rl table_get_cell
answer = refl

abbrev residue_bucket : ℕ → ℕ
residue_bucket table = table % 7

-- A store that knows one board, and is asked for another of the same bucket.
abbrev one_known : States
one_known = (find_rl_state residue_bucket 5 init_rl_agent).1

one_known-IsStates : IsStates residue_bucket one_known
one_known-IsStates =
    (find_rl_state-Found residue_bucket 5 init_rl_agent
      (init_rl_agent-IsStates residue_bucket)).valid

play_rl-Greatest_example :
    IsGreatest
      (rl_store residue_bucket)
      no_rnd
      open_board
      cell_x
      one_known
      (play_rl (rl_store residue_bucket) no_rnd open_board cell_x one_known).0
play_rl-Greatest_example =
    play_rl-Greatest (rl_store residue_bucket) no_rnd open_board cell_x one_known

find_rl_state-Found_example :
    let (st, s') = find_rl_state residue_bucket 12 one_known in
    Found residue_bucket 12 one_known st s'
find_rl_state-Found_example = find_rl_state-Found residue_bucket 12 one_known one_known-IsStates

rl_agent-IsStates_example :
    IsStates residue_bucket (play_rl (rl_store residue_bucket) no_rnd open_board cell_x one_known).1
    × IsStates residue_bucket (
        update_state_value
          (rl_store residue_bucket)
          (5 ∷ 0 ∷ 12 ∷ [])
          (pos 3 ∷ [])
          3
          cell_x
          one_known)
rl_agent-IsStates_example =
    rl_agent-IsStates residue_bucket no_rnd open_board cell_x (5 ∷ 0 ∷ 12 ∷ []) (pos 3 ∷ []) 3
      one_known one_known-IsStates
