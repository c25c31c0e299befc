-- ===== src/System/Invariant/Timers.antt =====
-- src/main.c: the invariant across the timer handler and the tasklet.
use kxo.Prelude.{
  ℕ, zero, suc, ◌+◌, ◌-◌, ◌≡◌, refl, arith, List, [], ◌∷◌, ◌++◌, some, none, Option, get_elem?, ◌∙◌,
  sym, ap, ◌==◌, Bool-cases, ==_iff, inl, inr, get_elem?-modify_ne, modify-found, if_both, true,
  false,
}
use native.Mathlib.Decide.{ℕ_discrete}
use kxo.Engine.{
  Kxo, AiGame, AiGameState, game_busy, game_ready, game_done, Work, FinishWork, ai_one_work,
  ai_two_work, drawboard_work, finish_work, queue_work, set_state,
}
use kxo.Engine.Move.{one, two}
use kxo.Engine.Move.Keeps.{set_state-IsGame}
use mathlib.Core.Option.{some-injective}
use kxo.Board.{cell_empty, n_games}
use kxo.Board.Win.{check_win}
use kxo.Engine.Handlers.{
  finish_ready, timer_state, dispatch_state, timer_game, timer_games, timer_handler, timer_end,
  dispatch_game, dispatch_games, game_tasklet_func,
}
use kxo.System.{Worker}
use kxo.System.Invariant.Counts.{total, total-append, n_item, n_finish, n_run}
use kxo.System.Invariant.Owned.{Owned, AllOwned, FinishIs}
use kxo.System.Invariant.Update.{modify-AllOwned, same-AllOwned, push-SameFor, Runs-none}

-- What the phase of a ready game says.
pub ready_phase :
    {i : ℕ} {g : AiGame} {q : List Work} {r : List Worker}
    → g.state ≡ game_ready
    → Owned i g q r
    → (total (n_item one i) q + total (n_item two i) q + total (n_run i) r ≡ 0)
      × (total (n_finish i) q ≡ 0)
ready_phase e o = rw e at o.phase

pub record Keeps {Rl : Type 0} (r : List Worker) (k : Kxo Rl) : Type 0 where
  pub owned : AllOwned k.games k.queued r
  pub finish_is : FinishIs k.finish_works k.queued

module _ (r : List Worker) (j : ℕ) (g : AiGame) (q : List Work) (ready : g.state ≡ game_ready)
    (o : Owned j g q r) where
  none_queued :
      (total (n_item one j) q + total (n_item two j) q + total (n_run j) r ≡ 0)
      × (total (n_finish j) q ≡ 0)
  none_queued = ready_phase ready o

  -- A ready game gets its finish work, and is done.
  finish-Owned : Owned j (record g { state = game_done }) (q ++ finish_work j ∷ []) r
  finish-Owned = record {
    game = set_state-IsGame j g game_done o.game;
    phase = ground (
      arith,
      none_queued,
      total-append (n_item one j) q (finish_work j ∷ []),
      total-append (n_item two j) q (finish_work j ∷ []),
      total-append (n_finish j) q (finish_work j ∷ []),
    );
    turn_one = λ h.
        absurd (omega (arith, none_queued, total-append (n_item one j) q (finish_work j ∷ [])));
    turn_two = λ h.
        absurd (omega (arith, none_queued, total-append (n_item two j) q (finish_work j ∷ [])));
    runs = Runs-none j (record g { state = game_done }) r (omega (arith, none_queued));
  }

  -- A ready game gets the work of its turn, and is busy.
  busy_one-Owned :
      g.turn ≡ b'O' → Owned j (record g { state = game_busy }) (q ++ ai_one_work j ∷ []) r
  busy_one-Owned t = record {
    game = set_state-IsGame j g game_busy o.game;
    phase = ground (
      arith,
      none_queued,
      total-append (n_item one j) q (ai_one_work j ∷ []),
      total-append (n_item two j) q (ai_one_work j ∷ []),
      total-append (n_finish j) q (ai_one_work j ∷ []),
    );
    turn_one = λ h. t;
    turn_two = λ h.
        absurd (omega (arith, none_queued, total-append (n_item two j) q (ai_one_work j ∷ [])));
    runs = Runs-none j (record g { state = game_busy }) r (omega (arith, none_queued));
  }

  busy_two-Owned :
      g.turn ≡ b'X' → Owned j (record g { state = game_busy }) (q ++ ai_two_work j ∷ []) r
  busy_two-Owned t = record {
    game = set_state-IsGame j g game_busy o.game;
    phase = ground (
      arith,
      none_queued,
      total-append (n_item one j) q (ai_two_work j ∷ []),
      total-append (n_item two j) q (ai_two_work j ∷ []),
      total-append (n_finish j) q (ai_two_work j ∷ []),
    );
    turn_one = λ h.
        absurd (omega (arith, none_queued, total-append (n_item one j) q (ai_two_work j ∷ [])));
    turn_two = λ h. t;
    runs = Runs-none j (record g { state = game_busy }) r (omega (arith, none_queued));
  }

pub same_game : {o : Option AiGame} {g g' : AiGame} → o ≡ some g → o ≡ some g' → g ≡ g'
same_game p q = some-injective _ _ (sym p ∙ q)

-- Items that finish no game leave the finish works alone.
push-FinishIs :
    (fws : List FinishWork) (q : List Work) (w : Work)
    → ((i : ℕ) → n_finish i w ≡ 0)
    → FinishIs fws q
    → FinishIs fws (q ++ w ∷ [])
push-FinishIs fws q w none_of h i fw found pos_h =
    h i fw found (omega (arith, none_of i, total-append (n_finish i) q (w ∷ [])))

module _ {Rl : Type 0} (r : List Worker) (i : ℕ) (g : AiGame) (k : Kxo Rl)
    (found : get_elem? k.games i ≡ some g) (h : Keeps r k) where
  finish_ready-Keeps : (win : ℕ) → g.state ≡ game_ready → Keeps r (finish_ready i win k)
  unfolding finish_ready queue_work set_state
  finish_ready-Keeps win ready = record {
    owned =
        modify-AllOwned k.games i _ k.queued _ r r h.owned
          (λ j ne. push-SameFor j k.queued (finish_work i) r refl refl (ground (arith, ne)))
          (λ g' found' o.
            finish-Owned r i g' k.queued (ap (λ x. x.state) (same_game found' found) ∙ ready) o);
    finish_is = λ j fw found' pos_h. elim (ℕ_discrete j i) [
      | yes e ↦
          let (_, _, is) =
            modify-found k.finish_works i (λ _. record { game_idx = i; win = win }) fw
              (rw e at found') in
          sym (ap (λ x. x.game_idx) is) ∙ sym e
      | no ne ↦
          h.finish_is j fw
            (sym (
                get_elem?-modify_ne k.finish_works i j (λ _. record { game_idx = i; win = win })
                  (λ e. ne (sym e)))
              ∙ found')
            (ground (arith, ne, total-append (n_finish j) k.queued (finish_work i ∷ [])))
    ];
  }

  timer_state-Keeps :
      (st : AiGameState) (unfini : ℕ) → g.state ≡ st → Keeps r (timer_state st i g k unfini).0
  unfolding timer_state
  timer_state-Keeps game_busy unfini e = h
  timer_state-Keeps game_done unfini e = h
  timer_state-Keeps game_ready unfini e =
      elim (Bool-cases (check_win g.xo_tlb.table == cell_empty)) [
        | inl open_game ↦ rw open_game h
        | inr over ↦ rw over (finish_ready-Keeps (check_win g.xo_tlb.table) e)
      ]

  dispatch_state-Keeps : (st : AiGameState) → g.state ≡ st → Keeps r (dispatch_state st i g k)
  unfolding dispatch_state queue_work set_state
  dispatch_state-Keeps game_busy e = h
  dispatch_state-Keeps game_done e = h
  dispatch_state-Keeps game_ready e = elim (Bool-cases (g.turn == b'O')) [
    | inl o_turn ↦ rw o_turn (record {
      owned =
          modify-AllOwned k.games i _ k.queued _ r r h.owned
            (λ j ne. push-SameFor j k.queued (ai_one_work i) r (ground (arith, ne)) refl refl)
            (λ g' found' o.
              let same = same_game found' found in
              busy_one-Owned r i g' k.queued (ap (λ x. x.state) same ∙ e) o
                (ap (λ x. x.turn) same ∙ (==_iff _ _).0 o_turn));
      finish_is = push-FinishIs k.finish_works k.queued (ai_one_work i) (λ j. refl) h.finish_is;
    })
    | inr not_o ↦ elim (Bool-cases (g.turn == b'X')) [
      | inl x_turn ↦
          rw (not_o, x_turn)
            (record {
              owned =
                  modify-AllOwned k.games i _ k.queued _ r r h.owned
                    (λ j ne.
                      push-SameFor j k.queued (ai_two_work i) r refl (ground (arith, ne)) refl)
                    (λ g' found' o.
                      let same = same_game found' found in
                      busy_two-Owned r i g' k.queued (ap (λ x. x.state) same ∙ e) o
                        (ap (λ x. x.turn) same ∙ (==_iff _ _).0 x_turn));
              finish_is =
                  push-FinishIs k.finish_works k.queued (ai_two_work i) (λ j. refl) h.finish_is;
            })
      | inr not_x ↦ rw (not_o, not_x) h
    ]
  ]

-- The bodies of the two loops, for a game that may not be there.
module _ {Rl : Type 0} (r : List Worker) (i : ℕ) (k : Kxo Rl) (h : Keeps r k) where
  timer_game-Keeps :
      (o : Option AiGame) (unfini : ℕ)
      → get_elem? k.games i ≡ o
      → Keeps r (timer_game i o k unfini).0
  unfolding timer_game
  timer_game-Keeps none unfini e = h
  timer_game-Keeps (some g) unfini e = timer_state-Keeps r i g k e h g.state unfini refl

  dispatch_game-Keeps :
      (o : Option AiGame) → get_elem? k.games i ≡ o → Keeps r (dispatch_game i o k)
  unfolding dispatch_game queue_work
  dispatch_game-Keeps none e = h
  dispatch_game-Keeps (some g) e =
      let after = dispatch_state-Keeps r i g k e h g.state refl in
      let k' = dispatch_state g.state i g k in
      record {
        owned =
            same-AllOwned k'.games k'.queued _ r r after.owned
              (λ j. push-SameFor j k'.queued (drawboard_work i) r refl refl refl);
        finish_is =
            push-FinishIs k'.finish_works k'.queued (drawboard_work i) (λ j. refl) after.finish_is;
      }

module _ {Rl : Type 0} (r : List Worker) where
  timer_games-Keeps :
      (left i : ℕ) (k : Kxo Rl) (unfini : ℕ)
      → Keeps r k
      → Keeps r (timer_games left i (k, unfini)).0
  unfolding timer_games
  timer_games-Keeps zero i k unfini h = h
  timer_games-Keeps (suc left) i k unfini h =
      let next = timer_game i (get_elem? k.games i) k unfini in
      timer_games-Keeps left (i + 1) next.0 next.1
        (timer_game-Keeps r i k h (get_elem? k.games i) unfini refl)

  timer_end-Keeps : (k : Kxo Rl) (unfini : ℕ) → Keeps r k → Keeps r (timer_end (k, unfini))
  unfolding timer_end
  timer_end-Keeps k unfini h =
      if_both (Keeps r) _ _ _
        (same (record k { tasklet_data = unfini; tasklet_on = true; timer_on = true }) refl refl
          refl)
        (if_both (Keeps r) _ _ _ (same (record k { timer_on = true }) refl refl refl) h)
    where
      same :
          (k' : Kxo Rl)
          → k'.games ≡ k.games
          → k'.queued ≡ k.queued
          → k'.finish_works ≡ k.finish_works
          → Keeps r k'
      same k' a b c = record { owned = rw (a, b) h.owned; finish_is = rw (b, c) h.finish_is }

  pub timer_handler-Keeps : (k : Kxo Rl) → Keeps r k → Keeps r (timer_handler k)
  unfolding timer_handler
  timer_handler-Keeps k h =
      let looped = timer_games n_games 0 (record k { timer_on = false }, 0) in
      timer_end-Keeps looped.0 looped.1 (
        timer_games-Keeps n_games 0 (record k { timer_on = false }) 0
          (record { owned = h.owned; finish_is = h.finish_is }))

  dispatch_games-Keeps :
      (ffs : ℕ → ℕ) (left unfini : ℕ) (k : Kxo Rl)
      → Keeps r k
      → Keeps r (dispatch_games ffs left unfini k)
  unfolding dispatch_games
  dispatch_games-Keeps ffs zero unfini k h = h
  dispatch_games-Keeps ffs (suc left) unfini k h =
      let id = ffs unfini - 1 in
      dispatch_games-Keeps ffs left _ (dispatch_game id (get_elem? k.games id) k)
        (dispatch_game-Keeps r id k h (get_elem? k.games id) refl)

  pub game_tasklet_func-Keeps :
      (hweight32 ffs : ℕ → ℕ) (k : Kxo Rl) → Keeps r k → Keeps r (game_tasklet_func hweight32 ffs k)
  unfolding game_tasklet_func
  game_tasklet_func-Keeps hweight32 ffs k h =
      dispatch_games-Keeps ffs (hweight32 k.tasklet_data) k.tasklet_data _
        (record { owned = h.owned; finish_is = h.finish_is })
