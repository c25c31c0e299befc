-- ===== src/System/Invariant/Workers.antt =====
-- src/main.c: the invariant across the start of a worker.
use kxo.Prelude.{
  ℕ, ◌+◌, ◌<◌, ◌≡◌, ◌≢◌, refl, arith, List, ◌∷◌, ◌++◌, some, get_elem?, sym, Bool-cases, inl, inr,
}
use native.Mathlib.Decide.{ℕ_discrete}
use kxo.Engine.{
  Kxo, AiGame, AiGameState, game_busy, game_ready, game_done, Work, ai_one_work, ai_two_work,
  set_state, kxo_shutting_down,
}
use kxo.Engine.Move.{Side, one, two, ai_work_begin}
use kxo.Engine.Move.Keeps.{set_state-IsGame, side_turn}
use kxo.System.{Worker, item, enter}
use kxo.System.Invariant.Counts.{total, total-split, n_item, n_finish, n_run}
use kxo.System.Invariant.Owned.{Phase, Owned, AllOwned, FinishIs, SameFor, SameFor-Owned}
use kxo.System.Invariant.Update.{
  modify-AllOwned, take-SameFor, trans-SameFor, Runs-none, join-SameFor,
}
use kxo.System.Invariant.Timers.{Keeps, same_game}

-- An item of a side counts for its own game and side alone.
item_other :
    (side : Side) (i j : ℕ)
    → j ≢ i
    → (n_item one j (item side i) ≡ 0)
      × (n_item two j (item side i) ≡ 0)
      × (n_finish j (item side i) ≡ 0)
item_other one i j ne = (ground (arith, ne), refl, refl)
item_other two i j ne = (refl, ground (arith, ne), refl)

item_own :
    (side : Side) (i : ℕ)
    → (n_item one i (item side i) + n_item two i (item side i) ≡ 1) × (n_finish i (item side i) ≡ 0)
item_own one i = ground arith
item_own two i = ground arith

-- A game with an agent's work is busy.
pub busy_of_work :
    (st : AiGameState) (a b c d : ℕ)
    → Phase st a b c d
    → 0 < a + b + c
    → (st ≡ game_busy) × (a + b + c ≡ 1) × (d ≡ 0)
busy_of_work game_busy a b c d p h = (refl, p.0, p.1)
busy_of_work game_ready a b c d p h = absurd (omega arith)
busy_of_work game_done a b c d p h = absurd (omega arith)

turn_of_item :
    (side : Side) (i : ℕ) (g : AiGame) (before after : List Work) (r : List Worker)
    → Owned i g (before ++ item side i ∷ after) r
    → g.turn ≡ side_turn side
turn_of_item one i g before after r o =
    o.turn_one
      (omega (arith, total-split (n_item one i) before (ai_one_work i) after, item_own one i))
turn_of_item two i g before after r o =
    o.turn_two
      (omega (arith, total-split (n_item two i) before (ai_two_work i) after, item_own two i))

module _ (side : Side) (i : ℕ) (g : AiGame) (before after : List Work) (r : List Worker)
    (o : Owned i g (before ++ item side i ∷ after) r) where
  owner :
      (g.state ≡ game_busy)
      × (total (n_item one i) (before ++ after)
            + total (n_item two i) (before ++ after)
            + total (n_run i) r
          ≡ 0)
      × (total (n_finish i) (before ++ after) ≡ 0)
  owner =
      let busy = busy_of_work g.state _ _ _ _ o.phase (
        omega (
          arith,
          item_own side i,
          total-split (n_item one i) before (item side i) after,
          total-split (n_item two i) before (item side i) after,
        )) in
      (
        busy.0,
        omega (
          arith,
          busy.1,
          item_own side i,
          total-split (n_item one i) before (item side i) after,
          total-split (n_item two i) before (item side i) after,
        ),
        omega (arith, busy.2, item_own side i, total-split (n_finish i) before (item side i) after),
      )

  its_turn : g.turn ≡ side_turn side
  its_turn = turn_of_item side i g before after r o

  -- It leaves at once, and the game is ready.
  bail-Owned : Owned i (record g { state = game_ready }) (before ++ after) r
  bail-Owned = record {
    game = set_state-IsGame i g game_ready o.game;
    phase = (owner.1, owner.2);
    turn_one = λ h. absurd (omega (arith, owner.1));
    turn_two = λ h. absurd (omega (arith, owner.1));
    runs = Runs-none i (record g { state = game_ready }) r (omega (arith, owner.1));
  }

  -- It has read the board, and runs.
  run-Owned : Owned i g (before ++ after) (
      record {
        side = side;
        idx = i;
        snap = record { attr = g.xo_tlb.attr; table = g.xo_tlb.table };
      }
      ∷ r)
  run-Owned = record {
    game = o.game;
    phase = rw owner.0 (ground (arith, owner.1, owner.2));
    turn_one = λ h. absurd (omega (arith, owner.1));
    turn_two = λ h. absurd (omega (arith, owner.1));
    runs = (
      (λ e. record { attr_is = refl; table_is = refl; turn_is = its_turn }),
      Runs-none i g r (omega (arith, owner.1)),
    );
  }

module _ {Rl : Type 0} (side : Side) (i : ℕ) (g : AiGame) (k : Kxo Rl) (before after : List Work)
    (r : List Worker) (queue : k.queued ≡ before ++ item side i ∷ after)
    (found : get_elem? k.games i ≡ some g) (h : Keeps r k) where
  abbrev taken : Kxo Rl
  taken = record k { queued = before ++ after }

  others : (j : ℕ) → j ≢ i → SameFor j (before ++ item side i ∷ after) (before ++ after) r r
  others j ne =
      let z = item_other side i j ne in take-SameFor j before after (item side i) r z.0 z.1 z.2

  taken-FinishIs : FinishIs k.finish_works (before ++ after)
  taken-FinishIs j fw found' pos_h =
      h.finish_is j fw found'
        (rw queue (omega (arith, total-split (n_finish j) before (item side i) after)))

  owned_before : AllOwned k.games (before ++ item side i ∷ after) r
  owned_before = rw queue at h.owned

  pub bail-Keeps : Keeps r (set_state i game_ready taken)
  unfolding set_state
  bail-Keeps = record {
    owned =
        modify-AllOwned k.games i _ _ _ r r owned_before others
          (λ g' found' o. bail-Owned side i g' before after r o);
    finish_is = taken-FinishIs;
  }

  pub run-Keeps :
      Keeps
        (record {
          side = side;
          idx = i;
          snap = record { attr = g.xo_tlb.attr; table = g.xo_tlb.table };
        }
          ∷ r)
        taken
  run-Keeps = record {
    owned = λ j g' found'. elim (ℕ_discrete j i) [
      | yes e ↦
          let same = same_game found (rw e at found') in
          rw (e, ← same) (run-Owned side i g before after r (owned_before i g found))
      | no ne ↦
          SameFor-Owned
            (trans-SameFor (others j ne) (
              join-SameFor j (before ++ after) r
                (record {
                  side = side;
                  idx = i;
                  snap = record { attr = g.xo_tlb.attr; table = g.xo_tlb.table };
                })
                (λ e. ne (sym e))))
            (owned_before j g' found')
    ];
    finish_is = taken-FinishIs;
  }

  pub start-Keeps : let (k', snap) = ai_work_begin i g taken in Keeps (enter side i snap r) k'
  unfolding ai_work_begin
  start-Keeps = elim (Bool-cases (kxo_shutting_down taken)) [
    | inl down ↦ rw down bail-Keeps
    | inr up ↦ rw up run-Keeps
  ]
