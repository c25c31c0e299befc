-- ===== src/Learner.antt =====
-- src/rl.c and include/rl.h: the learning agent, over the store of states that src/rl-state.c keeps.
pub mod Laws
pub mod States
use kxo.Prelude.{ℕ, zero, suc, ◌+◌, ◌-◌, ◌%◌, List, [], Bool, Option, none, some, get_or}
use kxo.Prelude.{◌==◌, if◌then◌else◌, not, ◌||◌}
use kxo.Prelude.Int.{ℤ, pos, negsuc, ◌+ℤ◌, ◌-ℤ◌, ltb_ℤ}
use kxo.Board.{n_grids, cell_empty, table_get_cell, val_set_cell}
use kxo.Engine.Fixed.{rl_fixed_1, fixed_mul, to_s32}

-- `find_rl_state(table)[id]`, which may make or move an entry, and the assignment to it.
pub record Store (S : Type 0) : Type 0 where
  pub find_rl_state : ℕ → ℕ → S → ℤ × S
  pub set_score : ℕ → ℕ → ℤ → S → S

-- `RL_FIXED_MIN` as an `int`.
abbrev pub rl_fixed_min : ℤ
rl_fixed_min = negsuc 0x7fffffff

abbrev pub learning_rate : ℤ
learning_rate = pos 0x51e

abbrev pub gamma : ℤ
gamma = pos 0xfd70

-- The variables of the loop of `play_rl`; `none` is -1.
pub record Choice : Type 0 where
  pub max_act : Option ℕ
  pub max_q : ℤ
  pub candidate_count : ℕ

-- One round of the loop, for the cell `i`, its value and a random number.
unfoldable pub consider : ℕ → ℕ → ℤ → Choice → Choice
consider rnd i new_q c =
    if ltb_ℤ c.max_q new_q
    then record { max_act = some i; max_q = new_q; candidate_count = 1 }
    else (if ltb_ℤ new_q c.max_q then c else record {
      max_act = if rnd % (c.candidate_count + 1) == 0 then some i else c.max_act;
      max_q = c.max_q;
      candidate_count = c.candidate_count + 1;
    })

module _ {S : Type 0} (store : Store S) where
  -- The loop from the cell `i` on, with `left` cells to come; `rnd i` is drawn at the cell `i`.
  unfoldable pub play_loop : (ℕ → ℕ) → ℕ → ℕ → ℕ → ℕ → Choice × S → Choice × S
  unfolding consider val_set_cell
  play_loop rnd zero i table player acc = acc
  play_loop rnd (suc left) i table player (c, s) =
      let (new_q, s') = store.find_rl_state (val_set_cell table i player) (player - 1) s in
      play_loop rnd left (i + 1) table player
        (if table_get_cell table i == cell_empty then (consider (rnd i) i new_q c, s') else (c, s))

  unfoldable pub play_rl : (ℕ → ℕ) → ℕ → ℕ → S → Option ℕ × S
  unfolding play_loop
  play_rl rnd table player s =
      let (c, s') =
        play_loop rnd n_grids 0 table player
          (record { max_act = none; max_q = rl_fixed_min; candidate_count = 1 }, s) in
      (c.max_act, s')

  -- `step_update_state_value`: the new score and the store.
  unfoldable pub step_update_state_value : ℕ → ℤ → ℤ → ℕ → S → ℤ × S
  unfolding fixed_mul to_s32 ◌+ℤ◌ ◌-ℤ◌
  step_update_state_value after_state_hash reward next player s =
      let curr = to_s32 (reward -ℤ fixed_mul gamma next) in
      let (score, s') = store.find_rl_state after_state_hash player s in
      let score' =
        to_s32 (fixed_mul (rl_fixed_1 -ℤ learning_rate) score +ℤ fixed_mul learning_rate curr) in
      (score', store.set_score after_state_hash player score' s')

  -- The loop over `j` downwards, with `left` steps to come, of which `left - 1` is the next.
  unfoldable pub update_loop : List ℕ → List ℤ → ℕ → ℕ → ℤ × S → ℤ × S
  unfolding step_update_state_value
  update_loop hashes reward zero player acc = acc
  update_loop hashes reward (suc j) player (next, s) =
      let hash = get_or hashes j 0 in
      update_loop hashes reward j player (
        if hash == 0
        then (next, s)
        else step_update_state_value hash (get_or reward j (pos 0)) next (player - 1) s)

  unfoldable pub update_state_value : List ℕ → List ℤ → ℕ → ℕ → S → S
  unfolding update_loop
  update_state_value hashes reward steps player s =
      (update_loop hashes reward steps player (pos 0, s)).1
