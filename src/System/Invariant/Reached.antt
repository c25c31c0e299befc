-- ===== src/System/Invariant/Reached.antt =====
-- src/main.c: the invariant in every state that the module reaches.
use kxo.Prelude.{
  ℕ, ◌+◌, ◌<◌, ◌≤◌, ◌≡◌, ◌↔◌, true, Bool-cases, inl, inr, refl, arith, List, [], ◌∷◌, ◌++◌, some,
  get_elem?,
}
use kxo.Board.{n_games}
use kxo.Engine.{AiGame, AiGameState, game_busy, game_ready, game_done}
use kxo.Engine.Move.{one, two}
use kxo.Engine.Move.Keeps.{IsGame, side_turn}
use kxo.Engine.Handlers.{Learn, reset_game}
use kxo.Engine.Lifecycle.{init_state}
use kxo.System.{
  Worker, System, Step, Reach, tick, tasklet, loadavg, start, commit, draw, finish, store,
  open_file, release_file, released, loaded, later, IsIdle, IsQuiet, AllQuiet,
}
use kxo.System.Invariant.Counts.{total, total-split, n_item, n_finish, n_run}
use kxo.System.Invariant.Owned.{Phase, IsSound}
use kxo.System.Invariant.Update.{Runs-found}
use kxo.System.Invariant.Timers.{Keeps, timer_handler-Keeps, game_tasklet_func-Keeps}
use kxo.System.Invariant.Workers.{start-Keeps, busy_of_work}
use kxo.System.Invariant.Commit.{ai_work_commit-Keeps}
use kxo.System.Invariant.Device.{
  drawboard_work_func-Keeps, draw-Keeps, kxo_open-Keeps, kxo_release_begin-Keeps,
  kxo_release_end-Keeps, kxo_state_store-Keeps, loadavg_handler-Keeps,
}
use kxo.System.Invariant.Finish.{finish_game_work_func-Keeps, init_games-found, reset_game-IsGame}

Phase-owner :
    (st : AiGameState) (a b c d : ℕ)
    → Phase st a b c d
    → (a + b + c + d ≤ 1) × ((st ≡ game_busy) ↔ (a + b + c ≡ 1)) × (0 < d → st ≡ game_done)
Phase-owner game_busy a b c d p = (omega arith, (λ e. p.0, λ e. refl), λ h. absurd (omega arith))
Phase-owner game_ready a b c d p = (
  omega arith,
  (λ e. absurd (ground (arith, e)), λ e. absurd (omega arith)),
  λ h. absurd (omega arith),
)
Phase-owner game_done a b c d p =
    (omega arith, (λ e. absurd (ground (arith, e)), λ e. absurd (omega arith)), λ h. refl)

module _ {Rl : Type 0} where
  keeps : (s : System Rl) → IsSound s → Keeps s.running s.kxo
  keeps s h = record { owned = h.owned; finish_is = h.finish_is }

  sound : (s : System Rl) → Keeps s.running s.kxo → IsSound s
  sound s h = record { owned = h.owned; finish_is = h.finish_is }

  init_state-Keeps : (rl : Rl) (rnd : ℕ → ℕ) → Keeps [] (init_state rl rnd)
  unfolding init_state reset_game
  init_state-Keeps rl rnd = record {
    owned = λ i g found.
        let (h, is) = init_games-found rnd n_games 0 i g found in
        let z : 0 + i ≡ i = omega arith in
        rw (is, z)
          (record {
            game = reset_game-IsGame i (rnd i) (omega (arith, h));
            phase = (refl, refl);
            turn_one = λ e. refl;
            turn_two = λ e. absurd (omega (arith, e));
            runs = tt;
          });
    finish_is = λ i fw found pos_h. absurd (omega (arith, pos_h));
  }

module _ {Rl : Type 0} (update_state_value : Learn Rl) where
  Step-IsSound :
      (s t : System Rl) (step : Step update_state_value s t)
      → IsQuiet update_state_value s t step
      → IsSound s
      → IsSound t
  Step-IsSound s t (tick on) quiet h = sound _ (timer_handler-Keeps s.running s.kxo (keeps s h))
  Step-IsSound s t (tasklet hweight32 ffs on) quiet h =
      sound _ (game_tasklet_func-Keeps s.running hweight32 ffs s.kxo (keeps s h))
  Step-IsSound s t (loadavg m now on) quiet h =
      sound _ (loadavg_handler-Keeps s.running s.kxo (keeps s h) m s.tv_end now)
  Step-IsSound s t (start side i {g} before after queue found) quiet h =
      sound _ (start-Keeps side i g s.kxo before after s.running queue found (keeps s h))
  Step-IsSound s t (commit w before after play down down' nsecs e legal) quiet h =
      sound _ (
        ai_work_commit-Keeps play legal w before after down down' nsecs s.kxo (rw e at (keeps s h)))
  Step-IsSound s t (draw i {g} before after queue found) quiet h = sound _ (
      drawboard_work_func-Keeps s.running _
        (draw-Keeps s.running s.kxo i before after queue (keeps s h)) g)
  Step-IsSound s t (finish i {fw} {g} before after rnd queue found game small) quiet h = sound _ (
      finish_game_work_func-Keeps update_state_value s.running s.kxo i fw g before after queue found
        (keeps s h) rnd)
  Step-IsSound s t (store sscanf buf count) quiet h =
      sound _ (kxo_state_store-Keeps s.running s.kxo (keeps s h) sscanf buf count)
  Step-IsSound s t open_file quiet h = sound _ (kxo_open-Keeps s.running s.kxo (keeps s h))
  Step-IsSound s t (release_file some_open) quiet h =
      sound _ (kxo_release_begin-Keeps s.running s.kxo (keeps s h))
  Step-IsSound s t (released c before after e idle) quiet h =
      sound _ (kxo_release_end-Keeps c.last s.running s.kxo both (keeps s h))
    where
      both : c.last ≡ true → IsIdle s
      both last = elim (Bool-cases c.reopened) [
        | inl yes_e ↦ quiet last yes_e
        | inr no_e ↦ idle last no_e
      ]

  Reach-IsSound :
      (rl : Rl) (rnd : ℕ → ℕ) (s : System Rl) (reached : Reach update_state_value rl rnd s)
      → AllQuiet update_state_value rl rnd s reached
      → IsSound s
  Reach-IsSound rl rnd s loaded quiet = sound _ (init_state-Keeps rl rnd)
  Reach-IsSound rl rnd s (later {s = u} {t = v} reached step) (before, quiet) =
      Step-IsSound u v step quiet (Reach-IsSound rl rnd u reached before)

module _ {Rl : Type 0} (update_state_value : Learn Rl) (rl : Rl) (rnd : ℕ → ℕ) (s : System Rl)
    (reached : Reach update_state_value rl rnd s)
    (quiet : AllQuiet update_state_value rl rnd s reached) where
  -- In every state that the module reaches, whatever ran in whatever order, if no work was left
  -- whenever a last `kxo_release` returned that a `kxo_open` had overtaken, the game at each index
  -- has its index as its id, a step count that is the number of cells taken, the turn of that step
  -- count, a board of legal cells, and a record of moves that replays to the board.
  pub Reach-IsGame : (i : ℕ) (g : AiGame) → get_elem? s.kxo.games i ≡ some g → IsGame i g
  Reach-IsGame i g found =
      ((Reach-IsSound update_state_value rl rnd s reached quiet).owned i g found).game

  -- In every state that the module reaches, if no work was left whenever a last `kxo_release`
  -- returned that a `kxo_open` had overtaken, a worker that has read its game and not yet written it
  -- finds, under the lock, the board and the attribute word that it read, in a busy game whose turn
  -- is its own; so its write loses no other's.
  pub Reach-Matches :
      (before : List Worker) (w : Worker) (after : List Worker) (g : AiGame)
      → s.running ≡ before ++ w ∷ after
      → get_elem? s.kxo.games w.idx ≡ some g
      → (w.snap.attr ≡ g.xo_tlb.attr)
        × (w.snap.table ≡ g.xo_tlb.table)
        × (g.turn ≡ side_turn w.side)
        × (g.state ≡ game_busy)
  Reach-Matches before w after g e found =
      let o = (Reach-IsSound update_state_value rl rnd s reached quiet).owned w.idx g found in
      let read = Runs-found w.idx g before w after (rw e at o.runs) refl in
      let mine : n_run w.idx w ≡ 1 = ground arith in
      let busy =
        busy_of_work g.state _ _ _ _ o.phase
          (rw e (omega (arith, mine, total-split (n_run w.idx) before w after))) in
      (read.attr_is, read.table_is, read.turn_is, busy.0)

  -- In every state that the module reaches, if no work was left whenever a last `kxo_release`
  -- returned that a `kxo_open` had overtaken, a game has at most one of an agent's queued work, an
  -- agent's running worker and queued finish work; it has an agent's exactly when it is busy, and
  -- finish work only when it is done.
  pub Reach-owner :
      (i : ℕ) (g : AiGame)
      → get_elem? s.kxo.games i ≡ some g
      → let agents =
          total (n_item one i) s.kxo.queued
          + total (n_item two i) s.kxo.queued
          + total (n_run i) s.running in
        (agents + total (n_finish i) s.kxo.queued ≤ 1)
        × ((g.state ≡ game_busy) ↔ (agents ≡ 1))
        × (0 < total (n_finish i) s.kxo.queued → g.state ≡ game_done)
  Reach-owner i g found =
      Phase-owner g.state _ _ _ _
        ((Reach-IsSound update_state_value rl rnd s reached quiet).owned i g found).phase
