-- ===== src/Engine/Device.antt =====
-- src/main.c: the sysfs attribute and the file operations of the character device.
pub mod Reads
use kxo.Prelude.{ℕ, ◌+◌, ◌-◌, List, [], ◌∷◌, ◌++◌, Bool, true, false, Option, none, some}
use kxo.Prelude.{◌==◌, if◌then◌else◌, map}
use kxo.Engine.{Kxo, KxoAttr, AiGame, AiGameState, game_busy, game_ready, game_done, XoAvg, CircBuf}

-- The error numbers that the handlers return, each as a negative number in the source.
pub data Errno : Type 0 where
  einval efault eagain erestartsys enomem : Errno

pub data Result {ℓ} (A : Type ℓ) : Type ℓ where
  ok : A → Result A
  err : Errno → Result A

-- `kxo_state_show`: `snprintf(buf, 7, "%c %c %c\n", ...)`.
unfoldable pub kxo_state_show : KxoAttr → List ℕ
kxo_state_show a = a.display ∷ b' ' ∷ a.resume ∷ b' ' ∷ a.end ∷ 10 ∷ []

-- A game that is done is ready again when the device is opened next.
unfoldable pub wake_state : AiGameState → AiGameState
wake_state game_done = game_ready
wake_state game_ready = game_ready
wake_state game_busy = game_busy

unfoldable pub wake_game : AiGame → AiGame
unfolding wake_state
wake_game g = record g { state = wake_state g.state }

module _ {Rl : Type 0} where
  -- `kxo_state_store`: `sscanf` is a parameter, the three characters or nothing.
  unfoldable pub kxo_state_store :
      (sscanf : List ℕ → Option (ℕ × ℕ × ℕ)) → List ℕ → ℕ → Kxo Rl → Kxo Rl × Result ℕ
  kxo_state_store sscanf buf count s = elim (sscanf buf) [
    | none ↦ (s, err einval)
    | some (d, r, e) ↦
        (record s { attr_obj = record { display = d; resume = r; end = e } }, ok count)
  ]

  -- `kxo_open`: the first file arms both timers.
  unfoldable pub kxo_open : Kxo Rl → Kxo Rl
  kxo_open s =
      let s' = record s { open_cnt = s.open_cnt + 1 } in
      if s'.open_cnt == 1 then (record s' { timer_on = true; loadavg_timer_on = true }) else s'

  -- `kxo_release` up to `flush_workqueue`: the last file stops the timers and the tasklet. The
  -- Boolean says whether it was the last. It is called for an open file, so the count is not 0.
  unfoldable pub kxo_release_begin : Kxo Rl → Kxo Rl × Bool
  kxo_release_begin s =
      let s' = record s { open_cnt = s.open_cnt - 1 } in
      if s'.open_cnt == 0
      then (
        record s' {
          kxo_stop_work = true;
          timer_on = false;
          loadavg_timer_on = false;
          tasklet_on = false;
        },
        true,
      )
      else (s', false)

  unfoldable pub fast_buf_clear : Kxo Rl → Kxo Rl
  fast_buf_clear s = record s { fast_buf = record { head = 0; tail = 0 } }

  -- `kxo_release` after `flush_workqueue` has returned.
  unfoldable pub kxo_release_end : Bool → Kxo Rl → Kxo Rl
  unfolding fast_buf_clear wake_game
  kxo_release_end last s =
      let s' =
        if last
        then (record (fast_buf_clear s) { games = map wake_game s.games; kxo_stop_work = false })
        else s in
      record s' { attr_obj = record s'.attr_obj { end = b'0'; display = b'1' } }

-- `kxo_poll`: whether data are announced.
unfoldable pub kxo_poll : (kfifo_len : ℕ) → Bool
kxo_poll kfifo_len = if kfifo_len == 0 then false else true

-- One round of the loop of `kxo_read`: whether `kfifo_to_user` faults, the bytes that it copied,
-- and whether a signal ends the wait.
pub record Attempt : Type 0 where
  pub fault : Bool
  pub read : ℕ
  pub signal : Bool

-- The loop over the rounds; `none` when the reader still waits after them.
unfoldable pub read_loop : Bool → List Attempt → Option (Result ℕ)
read_loop nonblock [] = none
read_loop nonblock (a ∷ rest) =
    let later = read_loop nonblock rest in
    if a.fault
    then some (err efault)
    else (if a.read == 0
        then (if nonblock
            then some (err eagain)
            else (if a.signal then some (err erestartsys) else later))
        else some (ok a.read))

unfoldable pub kxo_read : (access_ok lock_signal nonblock : Bool) → List Attempt → Option (Result ℕ)
unfolding read_loop
kxo_read access_ok lock_signal nonblock rounds =
    if access_ok
    then (if lock_signal then some (err erestartsys) else read_loop nonblock rounds)
    else some (err efault)

-- `kxo_ioctl`: the averages that are copied out, if `copy_to_user` succeeds.
unfoldable pub kxo_ioctl :
    {Rl : Type 0} (xo_io_ldavg : ℕ) (copied : Bool) (cmd arg : ℕ) → Kxo Rl → Result (List XoAvg)
kxo_ioctl xo_io_ldavg copied cmd arg s =
    if arg == 0
    then err efault
    else (if cmd == xo_io_ldavg then (if copied then ok s.xo_avgs else err efault) else err einval)
