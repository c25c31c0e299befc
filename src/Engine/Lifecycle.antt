-- ===== src/Engine/Lifecycle.antt =====
-- src/main.c: `kxo_init` with its error labels, and `kxo_exit`. What the kernel grants is an input;
-- the state keeps which resources of the kernel are held.
pub mod Balance
use kxo.Prelude.{
  ℕ, zero, suc, ◌+◌, List, [], ◌∷◌, ◌++◌, Bool, true, false, ◌==◌, if◌then◌else◌, replicate,
}
use kxo.Prelude.Int.{ℤ, pos}
use kxo.Board.{n_games, n_grids}
use kxo.Engine.{Kxo, AiGame, AiAvg, XoAvg, FinishWork}
use kxo.Engine.Handlers.{reset_game}

pub data Resource : Type 0 where
  fifo_buffer chrdev_region cdev class device device_file fast_buffer workqueue : Resource
  zobrist_table rl_buffer : Resource

abbrev pub tag : Resource → ℕ
tag fifo_buffer = 0
tag chrdev_region = 1
tag cdev = 2
tag class = 3
tag device = 4
tag device_file = 5
tag fast_buffer = 6
tag workqueue = 7
tag zobrist_table = 8
tag rl_buffer = 9

abbrev pub Held : Type 0
Held = List Resource

-- Giving a resource back.
unfoldable pub release : Resource → Held → Held
release r [] = []
release r (x ∷ rest) = let later = release r rest in if tag r == tag x then later else x ∷ later

-- The labels of `kxo_init`, each with what it falls through to. `device_destroy` removes the
-- files of the device too.
unfoldable pub error_alloc : Held → Held
unfolding release
error_alloc h = release fifo_buffer h

unfoldable pub error_region : Held → Held
unfolding error_alloc
error_region h = error_alloc (release chrdev_region h)

unfoldable pub error_cdev : Held → Held
unfolding error_region
error_cdev h = error_region (release cdev h)

unfoldable pub error_device : Held → Held
unfolding error_cdev
error_device h = error_cdev (release class h)

unfoldable pub error_vmalloc : Held → Held
unfolding error_device
error_vmalloc h = error_device (release device (release device_file h))

unfoldable pub error_workqueue : Held → Held
unfolding error_vmalloc
error_workqueue h = error_vmalloc (release fast_buffer h)

-- What each call of `kxo_init` returns: an error number, 0 for success, or whether memory was given.
pub record Grants : Type 0 where
  pub kfifo_alloc : Bool
  pub alloc_chrdev_region : ℕ
  pub cdev_add : ℕ
  pub class_create : ℕ
  pub device_create_file : ℕ
  pub vmalloc : Bool
  pub alloc_workqueue : Bool
  pub kmalloc_table : Bool

abbrev pub enomem_code : ℕ
enomem_code = 12

-- The rest of `kxo_init` after each call, with what is held. The result is the error number that
-- is returned, 0 for success, and what is held then. `device_create` and the memory of the learning
-- agent are taken to succeed, as the code takes them to. `zobrist_init` goes without its table when
-- there is no memory for it.
unfoldable pub init_agents : Grants → Held → ℕ × Held
init_agents g h = (0, rl_buffer ∷ (if g.kmalloc_table then zobrist_table ∷ h else h))

unfoldable pub init_workqueue : Grants → Held → ℕ × Held
unfolding error_workqueue init_agents
init_workqueue g h =
    if g.alloc_workqueue then init_agents g (workqueue ∷ h) else (enomem_code, error_workqueue h)

unfoldable pub init_buffer : Grants → Held → ℕ × Held
unfolding error_vmalloc init_workqueue
init_buffer g h =
    if g.vmalloc then init_workqueue g (fast_buffer ∷ h) else (enomem_code, error_vmalloc h)

unfoldable pub init_device : Grants → Held → ℕ × Held
unfolding error_device init_buffer
init_device g h =
    let h' = device ∷ h in
    if g.device_create_file == 0
    then init_buffer g (device_file ∷ h')
    else (g.device_create_file, error_device h')

unfoldable pub init_class : Grants → Held → ℕ × Held
unfolding error_cdev init_device
init_class g h =
    if g.class_create == 0 then init_device g (class ∷ h) else (g.class_create, error_cdev h)

unfoldable pub init_cdev : Grants → Held → ℕ × Held
unfolding error_region init_class
init_cdev g h = if g.cdev_add == 0 then init_class g (cdev ∷ h) else (g.cdev_add, error_region h)

unfoldable pub init_region : Grants → Held → ℕ × Held
unfolding error_alloc init_cdev
init_region g h =
    if g.alloc_chrdev_region == 0
    then init_cdev g (chrdev_region ∷ h)
    else (g.alloc_chrdev_region, error_alloc h)

unfoldable pub kxo_init : Grants → ℕ × Held
unfolding init_region
kxo_init g = if g.kfifo_alloc then init_region g (fifo_buffer ∷ []) else (enomem_code, [])

-- `kxo_exit`, from `destroy_workqueue` on.
unfoldable pub kxo_exit : Held → Held
unfolding release
kxo_exit h = release fifo_buffer (
    release zobrist_table (
      release rl_buffer (
        release chrdev_region (
          release cdev (
            release class (
              release device (release device_file (release fast_buffer (release workqueue h)))))))))

-- The loop over the games, with `left` to come; `rnd` gives the random numbers. The record of
-- moves is not written: it is static, and so 0.
unfoldable pub init_games : (ℕ → ℕ) → ℕ → ℕ → List AiGame
unfolding reset_game
init_games rnd zero i = []
init_games rnd (suc left) i = reset_game i (rnd i) ∷ init_games rnd left (i + 1)

abbrev pub zero_avg : AiAvg
zero_avg = record { nsecs_o = 0; nsecs_x = 0; load_avg_o = 0; load_avg_x = 0 }

-- The variables after `kxo_init` has succeeded.
unfoldable pub init_state : {Rl : Type 0} → Rl → (ℕ → ℕ) → Kxo Rl
unfolding init_games
init_state rl rnd = record {
  attr_obj = record { display = b'1'; resume = b'1'; end = b'0' };
  kxo_stop_work = false;
  games = init_games rnd n_games 0;
  ai_avgs = replicate n_games zero_avg;
  xo_avgs = replicate n_games (record { avg_x = 0; avg_o = 0 });
  episode_moves = replicate n_games (replicate n_grids 0);
  reward = replicate n_games (replicate n_grids (pos 0));
  finish_works = replicate n_games (record { game_idx = 0; win = 0 });
  rl = rl;
  produced = [];
  queued = [];
  tasklet_data = 0;
  tasklet_on = false;
  timer_on = false;
  loadavg_timer_on = false;
  open_cnt = 0;
  fast_buf = record { head = 0; tail = 0 };
}
