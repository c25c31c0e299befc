-- ===== src/Learner/States/Agent.antt =====
-- src/rl.c over src/rl-state.c: the learning agent and the store that it really has.
use kxo.Prelude.{
  ℕ, zero, suc, ◌+◌, ◌-◌, ◌≡◌, inl, inr, refl, sym, ap, ◌∙◌, List, none, put, put_self, put_other,
  Bool-cases, Option-cases, get_or, ◌==◌,
}
use native.Mathlib.Decide.{ℕ_discrete}
use kxo.Prelude.Int.{ℤ, pos}
use kxo.Board.{n_grids, cell_empty, table_get_cell, val_set_cell}
use kxo.Learner.{
  rl_fixed_min, Choice, play_loop, play_rl, step_update_state_value, update_loop,
  update_state_value,
}
use kxo.Learner.States.{XoState, States, search_bucket, with_score, rl_store, find_score, set_score}
use kxo.Learner.States.Slots.{IsStates}
use kxo.Learner.States.Found.{find_rl_state-Found}

module _ (bucket : ℕ → ℕ) where
  with_score-table : (id : ℕ) (score : ℤ) (st : XoState) → (with_score id score st).table ≡ st.table
  with_score-table id score st = elim (Bool-cases (id == 0)) [
    | inl e ↦ rw e refl
    | inr e ↦ rw e refl
  ]

  -- An assignment to a score.
  scored-IsStates :
      (st : ℕ) (c : XoState) (s : States)
      → c.table ≡ (s.st_buff st).table
      → IsStates bucket s
      → IsStates bucket (record s { st_buff = put s.st_buff st c })
  scored-IsStates st c s e v = record {
    mapped = v.mapped;
    in_range = v.in_range;
    distinct = v.distinct;
    in_bucket = λ k x. (
      λ h. let (used, key) = (v.in_bucket k x).0 h in (used, ap bucket (same x) ∙ key),
      λ h. (v.in_bucket k x).1 (h.0, sym (ap bucket (same x)) ∙ h.1),
    );
    unique = λ x y hx hy f. v.unique x y hx hy (sym (same x) ∙ f ∙ same y);
  }
    where
      same : (x : ℕ) → (put s.st_buff st c x).table ≡ (s.st_buff x).table
      same x = elim (ℕ_discrete x st) [
        | yes f ↦ rw (f, put_self s.st_buff st c) e
        | no ne ↦ ap (λ (d : XoState). d.table) (put_other s.st_buff st x c ne)
      ]

  find-IsStates :
      (table id : ℕ) (s : States)
      → IsStates bucket s
      → IsStates bucket (find_score bucket table id s).1
  unfolding find_score
  find-IsStates table id s v = (find_rl_state-Found bucket table s v).valid

  set_score-IsStates :
      (table id : ℕ) (score : ℤ) (s : States)
      → IsStates bucket s
      → IsStates bucket (set_score bucket table id score s)
  unfolding set_score
  set_score-IsStates table id score s v =
      elim (Option-cases (search_bucket table s.st_buff (s.states (bucket table)))) [
        | inr (st, e) ↦
            rw (set_score, e)
              (scored-IsStates st (with_score id score (s.st_buff st)) s
                (with_score-table id score (s.st_buff st)) v)
        | inl e ↦ rw (set_score, e) v
      ]

  play_loop-IsStates :
      (rnd : ℕ → ℕ) (left i table player : ℕ) (c : Choice) (s : States)
      → IsStates bucket s
      → IsStates bucket (play_loop (rl_store bucket) rnd left i table player (c, s)).1
  unfolding play_loop
  play_loop-IsStates rnd zero i table player c s v = v
  play_loop-IsStates rnd (suc left) i table player c s v =
      elim (Bool-cases (table_get_cell table i == cell_empty)) [
        | inl free ↦
            rw (free, play_loop)
              (play_loop-IsStates rnd left (i + 1) table player _ _
                (find-IsStates (val_set_cell table i player) (player - 1) s v))
        | inr taken ↦ rw (taken, play_loop) (play_loop-IsStates rnd left (i + 1) table player c s v)
      ]

  update_loop-IsStates :
      (hashes : List ℕ) (reward : List ℤ) (left player : ℕ) (next : ℤ) (s : States)
      → IsStates bucket s
      → IsStates bucket (update_loop (rl_store bucket) hashes reward left player (next, s)).1
  unfolding update_loop step_update_state_value
  update_loop-IsStates hashes reward zero player next s v = v
  update_loop-IsStates hashes reward (suc j) player next s v =
      elim (Bool-cases (get_or hashes j 0 == 0)) [
        | inl skipped ↦
            rw (skipped, update_loop) (update_loop-IsStates hashes reward j player next s v)
        | inr learnt ↦
            rw (learnt, update_loop)
              (update_loop-IsStates hashes reward j player _ _ (
                set_score-IsStates (get_or hashes j 0) (player - 1) _ _
                  (find-IsStates (get_or hashes j 0) (player - 1) s v)))
      ]

  -- The learning agent keeps the store of states in order: when it chooses a move, and when it learns
  -- from an episode of any length.
  pub rl_agent-IsStates :
      (rnd : ℕ → ℕ) (table player : ℕ) (hashes : List ℕ) (reward : List ℤ) (steps : ℕ) (s : States)
      → IsStates bucket s
      → IsStates bucket (play_rl (rl_store bucket) rnd table player s).1
        × IsStates bucket (update_state_value (rl_store bucket) hashes reward steps player s)
  unfolding play_rl update_state_value
  rl_agent-IsStates rnd table player hashes reward steps s v = (
    play_loop-IsStates rnd n_grids 0 table player
        (record { max_act = none; max_q = rl_fixed_min; candidate_count = 1 }) s v,
    update_loop-IsStates hashes reward steps player (pos 0) s v,
  )
