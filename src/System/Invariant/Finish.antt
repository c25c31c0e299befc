-- ===== src/System/Invariant/Finish.antt =====
-- src/main.c: `finish_game_work_func`, the first games of `kxo_init`, and the invariant.
use kxo.Prelude.{
  ℕ, zero, suc, ◌+◌, ◌<◌, ◌≡◌, ◌≢◌, ◌%◌, ◌/◌, ◌^◌, refl, arith, List, ◌∷◌, ◌++◌, some, get_elem?,
  modify, sym, ◌∙◌, if_both, ◌==◌, ◌&&◌, Bool-cases, inl, inr,
}
use kxo.Prelude.Tables.{passes, passes-at}
use kxo.Prelude.Bits.{and-lt_right}
use kxo.Board.{xo_attr_id, xo_attr_steps, xo_set_attr_ai_alg, table_get_cell, empty_grids}
use kxo.Board.Fields.{set_attr_ai_alg_lem}
use kxo.Board.Win.Correct.{IsBoard}
use kxo.Engine.{
  Kxo, AiGame, AiGameState, game_busy, game_ready, game_done, Work, FinishWork, finish_work,
  xo_ai_tot, produce_board, clear_episode,
}
use kxo.Engine.Move.{one, two}
use kxo.Engine.Move.Keeps.{IsGame}
use kxo.Engine.Handlers.{Learn, reset_game, learn, finish_game_work_func, learner_won}
use kxo.Engine.Lifecycle.{init_games}
use kxo.System.{Worker}
use kxo.System.Invariant.Counts.{total, total-split, n_item, n_finish, n_run}
use kxo.System.Invariant.Owned.{Phase, Owned, AllOwned, FinishIs, SameFor, SameFor-Owned}
use native.Mathlib.Decide.{ℕ_discrete}
use kxo.System.Invariant.Update.{modify-AllOwned, take-SameFor, Runs-none}
use kxo.System.Invariant.Timers.{Keeps}

id_lt : (attr : ℕ) → xo_attr_id attr < 16
unfolding xo_attr_id
id_lt attr = and-lt_right 4 attr 0xf (omega arith)

small_attr : (i : ℕ) → i < 16 → (xo_attr_id i ≡ i) × (xo_attr_steps i ≡ 0)
unfolding passes xo_attr_id xo_attr_steps
small_attr i h =
    ground (arith, passes-at (λ i. (xo_attr_id i == i) && (xo_attr_steps i == 0)) 16 i h refl)

empty-IsBoard : IsBoard 0
unfolding passes table_get_cell
empty-IsBoard = record {
  word = omega arith;
  cells = λ p h e. ground (arith, passes-at (λ q. table_get_cell 0 q == 0) 16 p h refl);
}

-- A new game satisfies the invariant of a game: an empty board, no step, and O to move.
pub reset_game-IsGame : (i rnd : ℕ) → i < 16 → IsGame i (reset_game i rnd)
unfolding reset_game table_get_cell empty_grids
reset_game-IsGame i rnd h =
    let attr =
      set_attr_ai_alg_lem i (rnd % xo_ai_tot) (rnd / 2 ^ 16 % xo_ai_tot) (omega arith) (omega arith)
        (omega arith) in
    let small = small_attr i h in
    let steps : xo_attr_steps (xo_set_attr_ai_alg i (rnd % xo_ai_tot) (rnd / 2 ^ 16 % xo_ai_tot))
        ≡ 0 =
      attr.2 ∙ small.1 in
    record {
      attr_word = attr.3;
      moves_word = omega arith;
      board = empty-IsBoard;
      id_is = attr.1 ∙ small.0;
      counted = rw steps refl;
      turn_is = rw steps refl;
      replayed = rw steps refl;
    }

-- A game whose finish work is queued is done.
finish-Phase :
    (st : AiGameState) (a b c d : ℕ)
    → Phase st a b c d
    → 0 < d
    → (a + b + c ≡ 0) × (d ≡ 1) × Phase st a b c 0
finish-Phase game_busy a b c d p h = absurd (omega arith)
finish-Phase game_ready a b c d p h = absurd (omega arith)
finish-Phase game_done a b c d p h = (p.0, omega arith, (p.0, omega arith))

module _ (i : ℕ) (g : AiGame) (before after : List Work) (r : List Worker)
    (o : Owned i g (before ++ finish_work i ∷ after) r) where
  split_one :
      total (n_item one i) (before ++ finish_work i ∷ after)
      ≡ total (n_item one i) (before ++ after)
  split_one = omega (arith, total-split (n_item one i) before (finish_work i) after)

  split_two :
      total (n_item two i) (before ++ finish_work i ∷ after)
      ≡ total (n_item two i) (before ++ after)
  split_two = omega (arith, total-split (n_item two i) before (finish_work i) after)

  split_finish :
      total (n_finish i) (before ++ finish_work i ∷ after)
      ≡ 1 + total (n_finish i) (before ++ after)
  split_finish =
      let mine : n_finish i (finish_work i) ≡ 1 = ground arith in
      omega (arith, mine, total-split (n_finish i) before (finish_work i) after)

  done :
      (total (n_item one i) (before ++ after)
          + total (n_item two i) (before ++ after)
          + total (n_run i) r
        ≡ 0)
      × (total (n_finish i) (before ++ after) ≡ 0)
      × Phase g.state
          (total (n_item one i) (before ++ after))
          (total (n_item two i) (before ++ after))
          (total (n_run i) r)
          (total (n_finish i) (before ++ after))
  done =
      let p = finish-Phase g.state _ _ _ _ o.phase (omega (arith, split_finish)) in
      let none_left : total (n_finish i) (before ++ after) ≡ 0 = omega (arith, p.1, split_finish) in
      (
        omega (arith, p.0, split_one, split_two),
        none_left,
        rw none_left (rw (split_one, split_two) at p.2),
      )

  -- The game stays done when the module ends.
  stay-Owned : Owned i g (before ++ after) r
  stay-Owned = record {
    game = o.game;
    phase = done.2;
    turn_one = λ h. absurd (omega (arith, done.0));
    turn_two = λ h. absurd (omega (arith, done.0));
    runs = o.runs;
  }

  reset-Owned : (rnd : ℕ) → Owned i (reset_game i rnd) (before ++ after) r
  unfolding reset_game
  reset-Owned rnd = record {
    game = reset_game-IsGame i rnd (rw (sym o.game.id_is) (id_lt g.xo_tlb.attr));
    phase = (done.0, done.1);
    turn_one = λ h. absurd (omega (arith, done.0));
    turn_two = λ h. absurd (omega (arith, done.0));
    runs = Runs-none i (reset_game i rnd) r (omega (arith, done.0));
  }

-- The whole handler, with its work taken from the queue.
module _ {Rl : Type 0} (update_state_value : Learn Rl) (r : List Worker) (k : Kxo Rl) (i : ℕ)
    (fw : FinishWork) (before after : List Work)
    (queue : k.queued ≡ before ++ finish_work i ∷ after)
    (found : get_elem? k.finish_works i ≡ some fw) (h : Keeps r k) where
  its_game : fw.game_idx ≡ i
  its_game =
      let mine : n_finish i (finish_work i) ≡ 1 = ground arith in
      h.finish_is i fw found
        (rw queue (omega (arith, mine, total-split (n_finish i) before (finish_work i) after)))

  others : (j : ℕ) → j ≢ i → SameFor j (before ++ finish_work i ∷ after) (before ++ after) r r
  others j ne = take-SameFor j before after (finish_work i) r refl refl (ground (arith, ne))

  owned_before : AllOwned k.games (before ++ finish_work i ∷ after) r
  owned_before = rw queue at h.owned

  taken-FinishIs : FinishIs k.finish_works (before ++ after)
  taken-FinishIs j fw' found' pos_h =
      h.finish_is j fw' found'
        (rw queue (omega (arith, total-split (n_finish j) before (finish_work i) after)))

  stay-Keeps : Keeps r (record k { queued = before ++ after })
  stay-Keeps = record {
    owned = λ j g found'. elim (ℕ_discrete j i) [
      | yes e ↦ rw e (stay-Owned i g before after r (rw e at (owned_before j g found')))
      | no ne ↦ SameFor-Owned (others j ne) (owned_before j g found')
    ];
    finish_is = taken-FinishIs;
  }

  reset-Keeps :
      (rnd : ℕ)
      → Keeps r
          (record k { queued = before ++ after; games = modify k.games i (λ _. reset_game i rnd) })
  reset-Keeps rnd = record {
    owned =
        modify-AllOwned k.games i (λ _. reset_game i rnd) _ _ r r owned_before others
          (λ g found' o. reset-Owned i g before after r o rnd);
    finish_is = taken-FinishIs;
  }

learn-Keeps :
    {Rl : Type 0} (update_state_value : Learn Rl) (i : ℕ) (g : AiGame) (win : ℕ) (r : List Worker)
    (k : Kxo Rl)
    → Keeps r k
    → Keeps r (clear_episode i (learn update_state_value i g win k))
unfolding clear_episode learn
learn-Keeps update_state_value i g win r k h = elim (Bool-cases (learner_won g.xo_tlb.attr win)) [
  | inl e ↦ rw e (record { owned = h.owned; finish_is = h.finish_is })
  | inr e ↦ rw e (record { owned = h.owned; finish_is = h.finish_is })
]

module _ {Rl : Type 0} (update_state_value : Learn Rl) (r : List Worker) (k : Kxo Rl) (i : ℕ)
    (fw : FinishWork) (g : AiGame) (before after : List Work)
    (queue : k.queued ≡ before ++ finish_work i ∷ after)
    (found : get_elem? k.finish_works i ≡ some fw) (h : Keeps r k) (rnd : ℕ) where
  drawn-Keeps :
      (k' : Kxo Rl)
      → k'.games ≡ k.games
      → k'.queued ≡ before ++ after
      → k'.finish_works ≡ k.finish_works
      → Keeps r k'
        × Keeps r (
            clear_episode i (
              learn update_state_value i g fw.win
                (record k' { games = modify k'.games i (λ _. reset_game i rnd) })))
  drawn-Keeps k' a b c =
      let stay = stay-Keeps update_state_value r k i fw before after queue found h in
      let reset = reset-Keeps update_state_value r k i fw before after queue found h rnd in
      (
        record { owned = rw (a, b) stay.owned; finish_is = rw (b, c) stay.finish_is },
        learn-Keeps update_state_value i g fw.win r _
            (record { owned = rw (a, b) reset.owned; finish_is = rw (b, c) reset.finish_is }),
      )

  pub finish_game_work_func-Keeps :
      Keeps r
        (finish_game_work_func update_state_value fw g rnd (record k { queued = before ++ after }))
  unfolding finish_game_work_func produce_board
  finish_game_work_func-Keeps =
      let mine = its_game update_state_value r k i fw before after queue found h in
      let taken : Kxo Rl = record k { queued = before ++ after } in
      let both =
        if_both
          (λ (k' : Kxo Rl).
            Keeps r k'
            × Keeps r (
                clear_episode i (
                  learn update_state_value i g fw.win
                    (record k' { games = modify k'.games i (λ _. reset_game i rnd) }))))
          (k.attr_obj.display == b'1') (produce_board g.xo_tlb taken) taken
          (drawn-Keeps (produce_board g.xo_tlb taken) refl refl refl)
          (drawn-Keeps taken refl refl refl) in
      rw mine
        (elim (Bool-cases (k.attr_obj.end == b'0')) [ inl e ↦ rw e both.1 | inr e ↦ rw e both.0 ])

-- The games that `kxo_init` leaves.
pub init_games-found :
    (rnd : ℕ → ℕ) (left i j : ℕ) (g : AiGame)
    → get_elem? (init_games rnd left i) j ≡ some g
    → (j < left) × (g ≡ reset_game (i + j) (rnd (i + j)))
unfolding init_games
init_games-found rnd zero i j g e = cc
init_games-found rnd (suc left) i zero g e = (omega arith, ground (arith, e))
init_games-found rnd (suc left) i (suc j) g e =
    let rest = init_games-found rnd left (i + 1) j g e in
    let at : (i + 1) + j ≡ i + suc j = omega arith in (omega (arith, rest.0), rw at at rest.1)
