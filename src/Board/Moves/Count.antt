-- ===== src/Board/Moves/Count.antt =====
-- src/game.c: the number of empty cells across a move.
use kxo.Prelude.{ℕ, zero, suc, ◌+◌, ◌^◌, ◌<◌, ◌≤◌, ◌≡◌, ◌≢◌, ◌⊎◌, refl, arith, length}
use native.Mathlib.Decide.{ℕ_discrete}
use kxo.Board.{table_get_cell, val_set_cell, empty_grids, empty_grids_from}
use kxo.Board.Fields.{get_cell-set_cell}

module _ (t m c : ℕ) (ht : t < 2 ^ 32) (hm : m < 16) (hc : c < 4) (filled : c ≢ 0)
    (free : table_get_cell t m ≡ 0) where
  abbrev after : ℕ
  after = val_set_cell t m c

  elsewhere :
      (left i : ℕ)
      → i + left ≤ 16
      → (m < i) ⊎ (i + left ≤ m)
      → length (empty_grids_from left i after) ≡ length (empty_grids_from left i t)
  unfolding empty_grids_from
  elsewhere zero i h away = refl
  elsewhere (suc left) i h away =
      ground (arith, get_cell-set_cell t m i c ht hm, elsewhere left (i + 1))

  within :
      (left i : ℕ)
      → i + left ≤ 16
      → i ≤ m
      → m < i + left
      → length (empty_grids_from left i after) + 1 ≡ length (empty_grids_from left i t)
  unfolding empty_grids_from
  within zero i h lo hi = absurd (omega arith)
  within (suc left) i h lo hi = elim (ℕ_discrete m i) [
    | yes e ↦ ground (arith, get_cell-set_cell t m i c ht hm, elsewhere left (i + 1), e)
    | no ne ↦ ground (arith, get_cell-set_cell t m i c ht hm, within left (i + 1))
  ]

  pub length-empty_grids-set : length (empty_grids after) + 1 ≡ length (empty_grids t)
  unfolding empty_grids
  length-empty_grids-set = within 16 0 (omega arith) (omega arith) (omega arith)
