-- ===== src/System.antt =====
-- src/main.c: the module in motion. A step is a handler that the kernel may run: a timer, the
-- tasklet, a work item, or a call from user space. The workers of the agents take two steps, since
-- they read the board before they take the lock of the game; everything may run between the two.
pub mod Invariant
use kxo.Prelude.{
  ℕ, ◌+◌, ◌^◌, ◌<◌, ◌≡◌, List, [], ◌∷◌, ◌++◌, Bool, true, false, Option, none, some, get_elem?, map,
}
use kxo.Board.Answers.{IsPlayer}
use kxo.Board.Win.Correct.{IsBoard}
use kxo.Board.{table_get_cell, cell_empty}
use kxo.Engine.{
  Kxo, AiGame, FinishWork, Work, ai_one_work, ai_two_work, drawboard_work, finish_work,
}
use kxo.Engine.Move.{Side, one, two, player, who, Snapshot, ai_work_begin, ai_work_commit}
use kxo.Engine.Handlers.{
  Learn, drawboard_work_func, finish_game_work_func, timer_handler, game_tasklet_func,
}
use kxo.Engine.Device.{kxo_state_store, kxo_open, kxo_release_begin, kxo_release_end}
use kxo.Engine.LoadAvg.{LoadMath, loadavg_handler}
use kxo.Engine.Lifecycle.{init_state}

-- A worker that has read the board of its game and not yet written it.
pub record Worker : Type 0 where
  pub side : Side
  pub idx : ℕ
  pub snap : Snapshot

-- A call of `kxo_release` that has not returned: whether it was for the last file, and whether a file
-- has been opened since.
pub record Closing : Type 0 where
  pub last : Bool
  pub reopened : Bool

abbrev pub reopen : Closing → Closing
reopen c = record c { reopened = true }

-- `closing` are the calls of `kxo_release` that wait for the work queue. `tv_end` is the static variable of `loadavg_handler`.
pub record System (Rl : Type 0) : Type 0 where
  pub kxo : Kxo Rl
  pub running : List Worker
  pub closing : List Closing
  pub tv_end : ℕ

-- The work item of a side.
abbrev pub item : Side → ℕ → Work
item one i = ai_one_work i
item two i = ai_two_work i

-- The agents answer -1 or an empty cell, on a board without a reserved cell and for a player.
abbrev pub IsLegal : (ℕ → ℕ → ℕ → Option ℕ) → Type 0
IsLegal play =
    (who table player m : ℕ)
    → IsBoard table
    → IsPlayer player
    → play who table player ≡ some m
    → (m < 16) × (table_get_cell table m ≡ cell_empty)

-- A worker that leaves at once does not run on.
abbrev pub enter : Side → ℕ → Option Snapshot → List Worker → List Worker
enter side i none running = running
enter side i (some snap) running = record { side = side; idx = i; snap = snap } ∷ running

-- No work is queued and none runs.
abbrev pub IsIdle : {Rl : Type 0} → System Rl → Type 0
IsIdle s = (s.kxo.queued ≡ []) × (s.running ≡ [])

module _ {Rl : Type 0} (update_state_value : Learn Rl) where
  pub data Step (s : System Rl) : System Rl → Type 0 where
    tick : s.kxo.timer_on ≡ true → Step s (record s { kxo = timer_handler s.kxo })
    tasklet :
        (hweight32 ffs : ℕ → ℕ)
        → s.kxo.tasklet_on ≡ true
        → Step s (record s { kxo = game_tasklet_func hweight32 ffs s.kxo })
    loadavg :
        (m : LoadMath) (now : ℕ)
        → s.kxo.loadavg_timer_on ≡ true
        → Step s (record s {
          kxo = (loadavg_handler m s.tv_end now s.kxo).0;
          tv_end = (loadavg_handler m s.tv_end now s.kxo).1;
        })
    start :
        (side : Side) (i : ℕ) {g : AiGame} (before after : List Work)
        → s.kxo.queued ≡ before ++ item side i ∷ after
        → get_elem? s.kxo.games i ≡ some g
        → Step s (
            let left = record s.kxo { queued = before ++ after } in
            let (k, snap) = ai_work_begin i g left in
            record s { kxo = k; running = enter side i snap s.running })
    commit :
        (w : Worker) (before after : List Worker) (play : ℕ → ℕ → ℕ → Option ℕ) (down down' : Bool)
        (nsecs : ℕ)
        → s.running ≡ before ++ w ∷ after
        → IsLegal play
        → Step s (record s {
          kxo = ai_work_commit play w.side w.idx w.snap down down' nsecs s.kxo;
          running = before ++ after;
        })
    draw :
        (i : ℕ) {g : AiGame} (before after : List Work)
        → s.kxo.queued ≡ before ++ drawboard_work i ∷ after
        → get_elem? s.kxo.games i ≡ some g
        → Step s
            (record s { kxo = drawboard_work_func g (record s.kxo { queued = before ++ after }) })
    finish :
        (i : ℕ) {fw : FinishWork} {g : AiGame} (before after : List Work) (rnd : ℕ)
        → s.kxo.queued ≡ before ++ finish_work i ∷ after
        → get_elem? s.kxo.finish_works i ≡ some fw
        → get_elem? s.kxo.games fw.game_idx ≡ some g
        → rnd < 2 ^ 32
        → Step s (record s {
          kxo =
              finish_game_work_func update_state_value fw g rnd
                (record s.kxo { queued = before ++ after });
        })
    store :
        (sscanf : List ℕ → Option (ℕ × ℕ × ℕ)) (buf : List ℕ) (count : ℕ)
        → Step s (record s { kxo = (kxo_state_store sscanf buf count s.kxo).0 })
    open_file : Step s (record s { kxo = kxo_open s.kxo; closing = map reopen s.closing })
    release_file :
        0 < s.kxo.open_cnt
        → Step s (record s {
          kxo = (kxo_release_begin s.kxo).0;
          closing = record { last = (kxo_release_begin s.kxo).1; reopened = false } ∷ s.closing;
        })
    -- `flush_workqueue` waits for the works that there are when it is called. The timers and the
    -- tasklet, which make new ones, are off from then on, unless a file is opened.
    released :
        (c : Closing) (before after : List Closing)
        → s.closing ≡ before ++ c ∷ after
        → (c.last ≡ true → c.reopened ≡ false → IsIdle s)
        → Step s (record s { kxo = kxo_release_end c.last s.kxo; closing = before ++ after })

  -- From the state that `kxo_init` leaves.
  abbrev pub start_state : Rl → (ℕ → ℕ) → System Rl
  start_state rl rnd = record { kxo = init_state rl rnd; running = []; closing = []; tv_end = 0 }

  pub data Reach (rl : Rl) (rnd : ℕ → ℕ) : System Rl → Type 0 where
    loaded : Reach rl rnd (start_state rl rnd)
    later : {s t : System Rl} → Reach rl rnd s → Step s t → Reach rl rnd t

  -- A step after which the loop of `kxo_release` over the games meets no work: a call for the last
  -- file that a `kxo_open` has overtaken returns when there is none.
  abbrev pub IsQuiet : (s t : System Rl) → Step s t → Type 0
  IsQuiet s t (released c before after e idle) = c.last ≡ true → c.reopened ≡ true → IsIdle s
  IsQuiet s t _ = Unit {0}

  abbrev pub AllQuiet : (rl : Rl) (rnd : ℕ → ℕ) (s : System Rl) → Reach rl rnd s → Type 0
  AllQuiet rl rnd s loaded = Unit {0}
  AllQuiet rl rnd s (later {s = u} {t = v} reached step) =
      AllQuiet rl rnd u reached × IsQuiet u v step
