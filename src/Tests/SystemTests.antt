-- ===== src/Tests/SystemTests.antt =====
-- src/main.c: a run of the module up to a worker of the first game, and instances of the theorems.
use mathlib.Core.Path.{subst}
use kxo.Prelude.{ℕ, ◌++◌, ◌+◌, ◌<◌, ◌≤◌, ◌≡◌, ◌↔◌, refl, arith, [], ◌∷◌, true, some, get_elem?}
use kxo.Engine.{AiGame, game_busy, game_done, game_ready, drawboard_work, finish_work}
use kxo.Engine.Move.{one, two, ai_work_begin}
use kxo.Engine.Move.Keeps.{IsGame, side_turn}
use kxo.Engine.Handlers.{Learn, reset_game, timer_handler, game_tasklet_func}
use kxo.Engine.Device.{kxo_open, kxo_release_end}
use kxo.Engine.Lifecycle.{init_state}
use kxo.System.{
  Worker, Step, released, System, item, enter, start_state, Reach, tick, tasklet, start, open_file,
  loaded, later, AllQuiet,
}
use kxo.System.Invariant.Counts.{total, n_item, n_finish, n_run}
use kxo.System.Invariant.Reached.{Reach-IsGame, Reach-Matches, Reach-owner}

-- An agent that counts its lessons.
abbrev count_lessons : Learn ℕ
count_lessons moves reward steps win rl = rl + 1

abbrev no_rnd : ℕ → ℕ
no_rnd i = 0

abbrev after_load : System ℕ
after_load = start_state count_lessons 0 no_rnd

abbrev opened : System ℕ
opened = record after_load { kxo = kxo_open after_load.kxo }

abbrev ticked : System ℕ
ticked = record opened { kxo = timer_handler opened.kxo }

abbrev first : ℕ → ℕ
first word = 1

abbrev dispatched : System ℕ
dispatched = record ticked { kxo = game_tasklet_func first first ticked.kxo }

abbrev busy : AiGame
busy = record (reset_game 0 0) { state = game_busy }

abbrev worker : Worker
worker = record {
  side = one;
  idx = 0;
  snap = record { attr = busy.xo_tlb.attr; table = busy.xo_tlb.table };
}

abbrev working : System ℕ
working = record dispatched {
  kxo = record dispatched.kxo { queued = drawboard_work 0 ∷ [] };
  running = worker ∷ [];
}

timer_on_opened : opened.kxo.timer_on ≡ true
unfolding kxo_open init_state
timer_on_opened = refl

tasklet_on_ticked : ticked.kxo.tasklet_on ≡ true
unfolding kxo_open init_state timer_handler reset_game
tasklet_on_ticked = refl

abbrev ready : AiGame
ready = reset_game 0 0

queue_dispatched : dispatched.kxo.queued ≡ [] ++ item one 0 ∷ drawboard_work 0 ∷ []
unfolding kxo_open init_state timer_handler reset_game game_tasklet_func
queue_dispatched = refl

found_dispatched : get_elem? dispatched.kxo.games 0 ≡ some busy
unfolding kxo_open init_state timer_handler reset_game game_tasklet_func
found_dispatched = refl

working_is :
    (let (k, snap) =
        ai_work_begin 0 busy (record dispatched.kxo { queued = drawboard_work 0 ∷ [] }) in
      record dispatched { kxo = k; running = enter one 0 snap dispatched.running })
    ≡ working
unfolding kxo_open init_state timer_handler reset_game game_tasklet_func ai_work_begin
working_is = refl

Reach-dispatched : Reach count_lessons 0 no_rnd dispatched
Reach-dispatched =
    later (later (later loaded open_file) (tick timer_on_opened))
      (tasklet first first tasklet_on_ticked)

-- No file is closed on the way.
Quiet : System ℕ → Type 0
Quiet s = (reached : Reach count_lessons 0 no_rnd s) × AllQuiet count_lessons 0 no_rnd s reached

Quiet-working : Quiet working
unfolding Quiet Reach-dispatched
Quiet-working = subst Quiet working_is (
  later Reach-dispatched (start one 0 [] (drawboard_work 0 ∷ []) queue_dispatched found_dispatched),
  ((((tt, tt), tt), tt), tt),
)

Reach-working : Reach count_lessons 0 no_rnd working
unfolding Quiet
Reach-working = Quiet-working.0

AllQuiet-working : AllQuiet count_lessons 0 no_rnd working Reach-working
unfolding Quiet Reach-working
AllQuiet-working = Quiet-working.1

Reach-IsGame_example : IsGame 0 busy
Reach-IsGame_example =
    Reach-IsGame count_lessons 0 no_rnd working Reach-working AllQuiet-working 0 busy
      found_dispatched

Reach-Matches_example :
    (worker.snap.attr ≡ busy.xo_tlb.attr)
    × (worker.snap.table ≡ busy.xo_tlb.table)
    × (busy.turn ≡ side_turn one)
    × (busy.state ≡ game_busy)
Reach-Matches_example =
    Reach-Matches count_lessons 0 no_rnd working Reach-working AllQuiet-working [] worker [] busy
      refl found_dispatched

Reach-owner_example :
    let agents =
      total (n_item one 0) working.kxo.queued
      + total (n_item two 0) working.kxo.queued
      + total (n_run 0) working.running in
    (agents + total (n_finish 0) working.kxo.queued ≤ 1)
    × ((busy.state ≡ game_busy) ↔ (agents ≡ 1))
    × (0 < total (n_finish 0) working.kxo.queued → busy.state ≡ game_done)
Reach-owner_example =
    Reach-owner count_lessons 0 no_rnd working Reach-working AllQuiet-working 0 busy
      found_dispatched

-- A won game whose finish work has been queued while `kxo_release` waited and a file was opened: the
-- end of `kxo_release` makes it ready, and the work is still there.
abbrev overtaken : System ℕ
overtaken = record opened {
  kxo = record opened.kxo {
    games = record (reset_game 0 0) { state = game_done } ∷ [];
    queued = finish_work 0 ∷ [];
  };
  closing = record { last = true; reopened = true } ∷ [];
}

abbrev returned : System ℕ
returned = record overtaken { kxo = kxo_release_end true overtaken.kxo; closing = [] }

overtaken-Step : Step count_lessons overtaken returned
overtaken-Step =
    released (record { last = true; reopened = true }) [] [] refl
      (λ last kept. absurd (ground (arith, kept)))

returned_is :
    (returned.kxo.games ≡ record (reset_game 0 0) { state = game_ready } ∷ [])
    × (returned.kxo.queued ≡ finish_work 0 ∷ [])
unfolding kxo_release_end kxo_open init_state reset_game
returned_is = (refl, refl)
