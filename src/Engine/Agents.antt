-- ===== src/Engine/Agents.antt =====
-- src/main.c: which agents play the games that `finish_game_work_func` and `kxo_init` set up.
use kxo.Prelude.{ℕ, ◌+◌, ◌%◌, ◌/◌, ◌^◌, ◌<◌, ◌≡◌, arith, ap}
use kxo.Board.{xo_set_attr_ai_alg}
use kxo.Board.Fields.{set_attr_ai_alg_lem}
use kxo.Engine.{xo_ai_tot, who_one, who_two}

-- Of an attribute word with the algorithms `a` for O and `b` for X, the worker for X reads `b`, and
-- the worker for O reads `(a + b) % 3`: it takes the remainder of the whole algorithm word, without
-- masking the two bits of its own algorithm.
pub who-set_attr_ai_alg :
    (attr a b : ℕ)
    → attr < 2 ^ 32
    → a < xo_ai_tot
    → b < xo_ai_tot
    → let attr' = xo_set_attr_ai_alg attr a b in
      (who_one attr' ≡ (a + b) % xo_ai_tot) × (who_two attr' ≡ b)
unfolding who_one who_two
who-set_attr_ai_alg attr a b h ha hb =
    let read = set_attr_ai_alg_lem attr a b h (omega (arith, ha)) (omega (arith, hb)) in
    (
      omega (arith, ap (λ v. v % 3) read.0, ha, hb),
      omega (arith, ap (λ v. v / 2 ^ 2 % 3) read.0, ha, hb),
    )
