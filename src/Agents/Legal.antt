-- ===== src/Agents/Legal.antt =====
-- src/main.c: the agents that the module has answer -1 or an empty cell.
use kxo.Prelude.{
  ℕ, zero, suc, ◌+◌, ◌<◌, ◌≡◌, ◌⊎◌, inl, inr, refl, arith, Bool, true, false, Option, none, some,
  Bool-cases, ◌==◌, ◌%◌, if_both, ==_iff, [],
}
use mathlib.Core.Option.{some-injective}
use kxo.Prelude.Int.{ℤ, pos, negsuc, ltb_ℤ}
use kxo.Board.{n_grids, cell_empty, table_get_cell}
use kxo.Board.Answers.{IsPlayer, IsAnswer}
use kxo.Board.Win.{check_win}
use kxo.Board.Win.Correct.{IsBoard}
use kxo.Zobrist.{zobrist_get, zobrist_clear, zobrist_init}
use kxo.Zobrist.Laws.{zobrist_get-clear}
use kxo.Negamax.{Search, MoveT, negamax, deepen, negamax_predict}
use kxo.Negamax.Answer.{Sorts, IsClear, negamax_predict-IsMove}
use kxo.Mcts.Answer.{mcts-IsAnswer}
use kxo.Learner.{rl_fixed_min, Store, Choice, consider, play_loop, play_rl}
use kxo.Learner.States.Slots.{IsStates}
use kxo.Learner.States.Agent.{rl_agent-IsStates}
use kxo.System.{IsLegal}
use kxo.Learner.States.Found.{init_rl_agent-IsStates}
use kxo.Engine.{xo_ai_mcts, xo_ai_negamax}
use kxo.Agents.{init_all, Agents, Outside, answer, play_mcts, play_negamax, play_learner, play}

-- The learning agent only answers cells that it found empty.
abbrev Free : ℕ → Option ℕ → Type 0
Free table o = (m : ℕ) → o ≡ some m → (m < 16) × (table_get_cell table m ≡ cell_empty)

consider-Free :
    (table rnd i : ℕ) (q : ℤ) (c : Choice)
    → i < 16
    → table_get_cell table i ≡ cell_empty
    → Free table c.max_act
    → Free table (consider rnd i q c).max_act
unfolding consider
consider-Free table rnd i q c lt free f =
    let here : Free table (some i) =
      λ m e. (let same = some-injective _ _ e in (omega (arith, same, lt), rw (← same) free)) in
    elim (Bool-cases (ltb_ℤ c.max_q q)) [
      | inl up ↦ rw up here
      | inr not_up ↦ elim (Bool-cases (ltb_ℤ q c.max_q)) [
        | inl down ↦ rw (not_up, down) f
        | inr level ↦ elim (Bool-cases (rnd % (c.candidate_count + 1) == 0)) [
          | inl drawn ↦ rw (not_up, level, drawn) here
          | inr passed ↦ rw (not_up, level, passed) f
        ]
      ]
    ]

play_loop-Free :
    {S : Type 0} (store : Store S) (rnd : ℕ → ℕ) (left i table player : ℕ) (c : Choice) (s : S)
    → i + left < 17
    → Free table c.max_act
    → Free table (play_loop store rnd left i table player (c, s)).0.max_act
unfolding play_loop
play_loop-Free store rnd zero i table player c s lt f = f
play_loop-Free store rnd (suc left) i table player c s lt f =
    elim (Bool-cases (table_get_cell table i == cell_empty)) [
      | inl free ↦
          rw (free, play_loop)
            (play_loop-Free store rnd left (i + 1) table player _ _ (omega (arith, lt))
              (consider-Free table (rnd i) i _ c (omega (arith, lt)) ((==_iff _ _).0 free) f))
      | inr taken ↦
          rw (taken, play_loop)
            (play_loop-Free store rnd left (i + 1) table player c s (omega (arith, lt)) f)
    ]

play_rl-Free :
    {S : Type 0} (store : Store S) (rnd : ℕ → ℕ) (table player : ℕ) (s : S)
    → Free table (play_rl store rnd table player s).0
unfolding play_rl
play_rl-Free store rnd table player s =
    play_loop-Free store rnd n_grids 0 table player
      (record { max_act = none; max_q = rl_fixed_min; candidate_count = 1 }) s (omega arith)
      (λ m e. absurd (ground (arith, e)))

answer-Free : (table : ℕ) (m : ℤ) → IsAnswer table m → Free table (answer m)
unfolding answer
answer-Free table m (inl e) n f = let f' = rw (e) at f in absurd (ground (arith, f'))
answer-Free table m (inr (p, e, lt, free)) n f =
    let same = some-injective _ _ (rw e at f) in (omega (arith, same, lt), rw (← same) free)

-- On a board where the game is over the negamax agent answers -1.
module _ (o : Outside) where
  leaf_move :
      (depth table player : ℕ) (alpha beta : ℤ) (s : Search)
      → (check_win table == cell_empty) ≡ false
      → ((negamax o.calls depth table player alpha beta s).0.move ≡ negsuc 0)
        × ((negamax o.calls depth table player alpha beta s).1 ≡ s)
  unfolding negamax
  leaf_move zero table player alpha beta s over = (refl, refl)
  leaf_move (suc depth) table player alpha beta s over = rw (over, negamax) (refl, refl)

  deepen_over :
      (left depth table player : ℕ) (result : MoveT) (s : Search)
      → (check_win table == cell_empty) ≡ false
      → IsClear s.cache
      → (result.move ≡ negsuc 0) ⊎ (0 < left)
      → let (r, s') = deepen o.calls left depth table player result s in
        (r.move ≡ negsuc 0) × IsClear s'.cache
  unfolding deepen
  deepen_over zero depth table player result s over c (inl e) = (e, c)
  deepen_over zero depth table player result s over c (inr lt) = absurd (omega (arith, lt))
  deepen_over (suc left) depth table player result s over c h =
      let (r, s') = negamax o.calls depth table player (negsuc 99999) (pos 100000) s in
      deepen_over left (depth + 2) table player r (record s' { cache = zobrist_clear s'.cache })
        over (λ key. zobrist_get-clear key s'.cache)
        (inl (leaf_move depth table player (negsuc 99999) (pos 100000) s over).0)

  module _ (sorts : Sorts o.calls) where
    negamax_predict-Answer :
        (table player : ℕ) (s : Search)
        → IsBoard table
        → IsPlayer player
        → IsClear s.cache
        → let (m, s') = negamax_predict o.calls o.unset table player s in
          IsAnswer table m × IsClear s'.cache
    unfolding negamax_predict
    negamax_predict-Answer table player s v is c =
        elim (Bool-cases (check_win table == cell_empty)) [
          | inl still ↦
              let found =
                negamax_predict-IsMove o.calls sorts o.unset table player s v ((==_iff _ _).0 still)
                  is c in
              (inr found.0, found.1)
          | inr over ↦
              let found = deepen_over 3 2 table player o.unset _ over c (inr (omega arith)) in
              (inl found.0, found.1)
        ]

    -- The cache of the search is empty and the store of states in order.
    pub record InOrder (a : Agents) : Type 0 where
      pub no_cache : IsClear a.search.cache
      pub known : IsStates o.bucket a.store

    Plays : (table : ℕ) → Option ℕ × Agents → Type 0
    Plays table r = Free table r.0 × InOrder r.1

    play_mcts-Plays :
        (table player : ℕ) (a : Agents)
        → IsBoard table
        → IsPlayer player
        → InOrder a
        → Plays table (play_mcts o table player a)
    unfolding play_mcts Plays
    play_mcts-Plays table player a v is h =
        let (m, st, e, ok) = mcts-IsAnswer o.granted o.stopped table player a.mcts_obj v is in
        rw (e, play_mcts)
          (answer-Free table m ok, record { no_cache = h.no_cache; known = h.known })

    play_negamax-Plays :
        (table player : ℕ) (a : Agents)
        → IsBoard table
        → IsPlayer player
        → InOrder a
        → Plays table (play_negamax o table player a)
    unfolding play_negamax Plays
    play_negamax-Plays table player a v is h =
        let (ok, clear) = negamax_predict-Answer table player a.search v is h.no_cache in
        (answer-Free table _ ok, record { no_cache = clear; known = h.known })

    play_learner-Plays :
        (table player : ℕ) (a : Agents) → InOrder a → Plays table (play_learner o table player a)
    unfolding play_learner Plays
    play_learner-Plays table player a h = (
      play_rl-Free _ o.rnd table player a.store,
      record {
        no_cache = h.no_cache;
        known = (rl_agent-IsStates o.bucket o.rnd table player [] [] 0 a.store h.known).0;
      },
    )

    play-Plays :
        (who table player : ℕ) (a : Agents)
        → IsBoard table
        → IsPlayer player
        → InOrder a
        → Plays table (play o who table player a)
    unfolding play
    play-Plays who table player a v is h =
        if_both (Plays table) (who == xo_ai_mcts) _ _ (play_mcts-Plays table player a v is h) (
          if_both (Plays table) (who == xo_ai_negamax) _ _
            (play_negamax-Plays table player a v is h) (play_learner-Plays table player a h))

    -- With the cache of the search empty and the store of states in order, the three agents fill the
    -- interface of the engine: on a board without a reserved cell, whoever is to move, and also when
    -- the game is over, an agent answers -1 or an empty cell; and a move of any agent on such a board
    -- leaves the cache empty and the store in order.
    pub play-IsLegal :
        (who table player : ℕ) (a : Agents)
        → IsBoard table
        → IsPlayer player
        → InOrder a
        → IsLegal (λ who' table' player'. (play o who' table' player' a).0)
          × InOrder (play o who table player a).1
    unfolding Plays
    play-IsLegal who table player a v is h = (
      λ who' table' player' m v' is' e. (play-Plays who' table' player' a v' is' h).0 m e,
      (play-Plays who table player a v is h).1,
    )

    -- They are after `kxo_init`.
    pub init_all-InOrder : (has_memory : Bool) (a : Agents) → InOrder (init_all has_memory a)
    unfolding init_all zobrist_init zobrist_get
    init_all-InOrder has_memory a = record {
      no_cache = λ key. clear has_memory key;
      known = init_rl_agent-IsStates o.bucket;
    }
      where
        clear : (has_memory : Bool) (key : ℕ) → zobrist_get key (zobrist_init has_memory) ≡ none
        clear true key = refl
        clear false key = refl
