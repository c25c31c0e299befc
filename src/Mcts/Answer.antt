-- ===== src/Mcts/Answer.antt =====
-- src/mcts.c: the answer of `mcts`.
use kxo.Prelude.{ℕ, zero, suc, ◌+◌, ◌≡◌, inl, inr, refl, arith, Bool, false, some, Bool-cases}
use kxo.Prelude.Int.{ℤ, negsuc}
use kxo.Board.{n_grids}
use kxo.Board.Win.Correct.{IsBoard}
use kxo.Board.Moves.Laws.{length-empty_grids}
use kxo.Board.Answers.{IsPlayer, IsAnswer}
use kxo.Mcts.{
  node, Nodes, null, Mcts, Visit, visited, stuck, visit, best_move, mcts_loop, mcts, iterations,
}
use kxo.Mcts.Tree.{AreMoves, most_visited-IsMove}
use kxo.Mcts.Visits.{IsVisit, visit-Ends}

best_move-IsAnswer :
    (p v s : ℕ) (children : Nodes) (table : ℕ)
    → AreMoves children p table
    → IsAnswer table (best_move (node (negsuc 0) p v s children))
unfolding best_move
best_move-IsAnswer p v s children table h =
    most_visited-IsMove p table children (negsuc 0) (negsuc 0) h (inl refl)

mcts_loop-IsAnswer :
    (granted stopped : ℕ → Bool) (left i table player v s : ℕ) (children : Nodes) (st : Mcts)
    → IsBoard table
    → IsPlayer player
    → AreMoves children player table
    → (m : ℤ) × (st' : Mcts) × (mcts_loop granted stopped left i table
          (node (negsuc 0) player v s children)
          st
        ≡ some (m, st'))
      × IsAnswer table m
unfolding mcts_loop IsVisit
mcts_loop-IsAnswer granted stopped zero i table player v s children st b is h = (
  best_move (node (negsuc 0) player v s children),
  st,
  refl,
  best_move-IsAnswer player v s children table h,
)
mcts_loop-IsAnswer granted stopped (suc left) i table player v s children st b is h =
    elim (Bool-cases (stopped i)) [
      | inl stop ↦ (
        best_move (node (negsuc 0) player v s children),
        st,
        rw (stop, mcts_loop) refl,
        best_move-IsAnswer player v s children table h,
      )
      | inr on ↦
          let (result, e, ok) =
            visit-Ends granted (n_grids + 1) (negsuc 0) player v s children table st b is h
              (omega (arith, length-empty_grids table)) in
          next on (mcts_loop-IsAnswer granted stopped left (i + 1) table player) result e ok
    ]
  where
    next :
        stopped i ≡ false
        → ((v s : ℕ) (children : Nodes) (st : Mcts)
            → IsBoard table
            → IsPlayer player
            → AreMoves children player table
            → (m : ℤ) × (st' : Mcts) × (mcts_loop granted stopped left
                  (i + 1)
                  table
                  (node (negsuc 0) player v s children)
                  st
                ≡ some (m, st'))
              × IsAnswer table m)
        → (result : Visit)
        → visit granted (n_grids + 1) (node (negsuc 0) player v s children) table st ≡ some result
        → IsVisit (node (negsuc 0) player v s children) table result
        → (m : ℤ) × (st' : Mcts) × (mcts_loop granted stopped
              (suc left)
              i
              table
              (node (negsuc 0) player v s children)
              st
            ≡ some (m, st'))
          × IsAnswer table m
    next on later (stuck st') e ok = (negsuc 0, st', rw (on, e, mcts_loop) refl, inl refl)
    next on later (visited (node m' p' v' s' below) score st') e (same_m, same_p, moves) =
        let (m, st'', returns, answer) = later v' s' below st' b is moves in
        (m, st'', rw (on, e, mcts_loop) (rw (same_m, same_p) returns), answer)

-- On a board without a reserved cell, for either player, `mcts` returns, and answers -1 or an empty
-- cell: whatever the random numbers, the memory for nodes and the moment when the module stops.
-- Every walk down the tree ends within one round more than there are cells, and so does every
-- simulated game.
pub mcts-IsAnswer :
    (granted stopped : ℕ → Bool) (table player : ℕ) (st : Mcts)
    → IsBoard table
    → IsPlayer player
    → (m : ℤ) × (st' : Mcts) × (mcts granted stopped table player st ≡ some (m, st'))
      × IsAnswer table m
unfolding mcts AreMoves
mcts-IsAnswer granted stopped table player st b is = elim (Bool-cases (granted st.asked)) [
  | inl got ↦ rw got (
      mcts_loop-IsAnswer granted stopped iterations 0 table player 0 0 null
        (record st { nr_active_nodes = 1; asked = st.asked + 1 }) b is tt)
  | inr refused ↦ rw refused (negsuc 0, st, refl, inl refl)
]
