-- ===== src/Board/Answers.antt =====
-- include/game.h and src/main.c: the players, and what an agent may answer.
use kxo.Prelude.{ℕ, ◌<◌, ◌≡◌, ◌≢◌, ◌⊎◌, inl, inr, refl, arith, bit_xor}
use kxo.Prelude.Int.{ℤ, pos, negsuc}
use kxo.Board.{n_grids, cell_empty, cell_o, cell_x, table_get_cell}

abbrev pub IsPlayer : ℕ → Type 0
IsPlayer p = (p ≡ cell_o) ⊎ (p ≡ cell_x)

-- A move to an empty cell of a board.
abbrev pub IsMove : ℕ → ℤ → Type 0
IsMove table m = (p : ℕ) × (m ≡ pos p) × (p < n_grids) × (table_get_cell table p ≡ cell_empty)

-- What an agent may answer.
abbrev pub IsAnswer : ℕ → ℤ → Type 0
IsAnswer table m = (m ≡ negsuc 0) ⊎ IsMove table m

pub IsPlayer-lt : (p : ℕ) → IsPlayer p → p < 3
IsPlayer-lt p (inl e) = omega (arith, e)
IsPlayer-lt p (inr e) = omega (arith, e)

pub IsPlayer-ne : (p : ℕ) → IsPlayer p → p ≢ cell_empty
IsPlayer-ne p (inl e) f = omega (arith, e, f)
IsPlayer-ne p (inr e) f = omega (arith, e, f)

pub IsPlayer-other : (p : ℕ) → IsPlayer p → IsPlayer (bit_xor (bit_xor p cell_o) cell_x)
IsPlayer-other p (inl e) = rw e (inr refl)
IsPlayer-other p (inr e) = rw e (inl refl)
