-- ===== src/Engine/LoadAvg.antt =====
-- src/main.c: `loadavg_handler`, and the packing of a load average into 16 bits that user/tui.c
-- unpacks. The kernel's load-average arithmetic is a parameter.
pub mod Packed
use kxo.Prelude.{
  ℕ, ◌+◌, ◌-◌, ◌*◌, ◌%◌, ◌/◌, ◌^◌, ◌<◌, ◌≡◌, List, [], ◌∷◌, Bool, true, false, Option, none, some,
}
use kxo.Prelude.{◌==◌, if◌then◌else◌, map, bit_and, arith}
use kxo.Prelude.Bits.{bit}
use kxo.Engine.{Kxo, AiAvg, XoAvg}

-- `FIXED_1`, `calc_load(load, EXP_1, active)`, `LOAD_INT` and `LOAD_FRAC` of linux/sched/loadavg.h.
pub record LoadMath : Type 0 where
  pub fixed_1 : ℕ
  pub calc_load : ℕ → ℕ → ℕ
  pub load_int : ℕ → ℕ
  pub load_frac : ℕ → ℕ

-- `(int << 7) + (frac & 0x7f)` in an `unsigned short`, from two `u16`.
unfoldable pub pack_avg : ℕ → ℕ → ℕ
pack_avg int frac = (int % 2 ^ 16 * 2 ^ 7 + bit_and (frac % 2 ^ 16) 0x7f) % 2 ^ 16

module _ (m : LoadMath) where
  -- The new average of one side, which is left alone without a measured time.
  unfoldable pub next_load : ℕ → ℕ → ℕ → ℕ
  next_load delta nsecs load =
      if nsecs == 0 then load else m.calc_load load (nsecs * m.fixed_1 % 2 ^ 64 / delta)

  unfoldable pub loadavg_game : ℕ → AiAvg → AiAvg
  unfolding next_load
  loadavg_game delta avg = record {
    nsecs_o = 0;
    nsecs_x = 0;
    load_avg_o = next_load delta avg.nsecs_o avg.load_avg_o;
    load_avg_x = next_load delta avg.nsecs_x avg.load_avg_x;
  }

  unfoldable pub xo_avg_of : AiAvg → XoAvg
  unfolding pack_avg
  xo_avg_of avg = record {
    avg_x = pack_avg (m.load_int avg.load_avg_x) (m.load_frac avg.load_avg_x);
    avg_o = pack_avg (m.load_int avg.load_avg_o) (m.load_frac avg.load_avg_o);
  }

  -- The handler; `tv_end` is its static variable, 0 before the first run, and `now` the time. It
  -- arms its timer again on both paths.
  unfoldable pub loadavg_handler : {Rl : Type 0} → (tv_end now : ℕ) → Kxo Rl → Kxo Rl × ℕ
  unfolding loadavg_game xo_avg_of
  loadavg_handler tv_end now s =
      if tv_end == 0 then (record s { loadavg_timer_on = true }, now) else (
        let avgs = map (loadavg_game (now - tv_end)) s.ai_avgs in
            record s { ai_avgs = avgs; xo_avgs = map xo_avg_of avgs; loadavg_timer_on = true },
        now,
      )
