-- ===== src/Board/Win/Correct.antt =====
-- src/game.c: `check_win` against the lines of the board.
use kxo.Prelude.{ℕ, ◌+◌, ◌*◌, ◌^◌, ◌<◌, ◌≡◌, refl, ◌≢◌, ◌⊎◌, ◌↔◌, inl, inr, arith}
use kxo.Prelude.{true, false, Option, none, some, List, [], ◌∷◌, map, bit_and}
use kxo.Prelude.{◌==◌, ==_iff, Bool-cases}
use native.Mathlib.Nat.{add-zero}
use kxo.Prelude.Bits.{bit, bit-lt}
use kxo.Board.{table_get_cell, cell_empty, cell_o, cell_x, cell_d}
use kxo.Board.Lines.{fill_win_patterns}
use kxo.Board.Fields.{get_cell-bits}
use kxo.Board.Win.{check_patterns, check_win, check_win_in, after_scan}
use kxo.Board.Win.Cells.{detect_empty_cell_lem}
use kxo.Board.Win.Patterns.{
  Segment, IsLine, o_mask, x_mask, mask_of, segments, fill_win_patterns_lem, good, all_good,
  good_lem, segments_good, has_segment, segments_complete, Contains-triple,
}

-- A 32-bit board with no cell at the reserved value 3.
pub record IsBoard (t : ℕ) : Type 0 where
  pub word : t < 2 ^ 32
  pub cells : (p : ℕ) → p < 16 → table_get_cell t p ≢ cell_d

-- The three cells of a segment hold `player`.
abbrev pub Holds : ℕ → ℕ → Segment → Type 0
Holds t player s =
    (table_get_cell t s.0 ≡ player)
    × (table_get_cell t s.1 ≡ player)
    × (table_get_cell t s.2 ≡ player)

-- `player` has three cells in a row.
abbrev pub Wins : ℕ → ℕ → Type 0
Wins t player = (s : Segment) × IsLine s × Holds t player s

abbrev pub HasEmpty : ℕ → Type 0
HasEmpty t = (p : ℕ) × (p < 16) × (table_get_cell t p ≡ cell_empty)

module _ {t : ℕ} (v : IsBoard t) where
  open v use {word, cells}

  o_cell : (p : ℕ) → p < 16 → (bit (p * 2 + 0) t ≡ 1) ↔ (table_get_cell t p ≡ cell_o)
  o_cell p h =
      rw add-zero
        (omega (arith, get_cell-bits t p word h, cells p h, bit-lt (p * 2) t, bit-lt (p * 2 + 1) t))

  x_cell : (p : ℕ) → p < 16 → (bit (p * 2 + 1) t ≡ 1) ↔ (table_get_cell t p ≡ cell_x)
  x_cell p h =
      omega (arith, get_cell-bits t p word h, cells p h, bit-lt (p * 2) t, bit-lt (p * 2 + 1) t)

  mask_iff :
      (d player : ℕ)
      → d < 2
      → ((p : ℕ) → p < 16 → (bit (p * 2 + d) t ≡ 1) ↔ (table_get_cell t p ≡ player))
      → (s : Segment) → IsLine s
      → (bit_and t (mask_of d s) ≡ mask_of d s) ↔ Holds t player s
  mask_iff d player hd cell (a, b, c) (ha, hb, hc, _) =
      let iff =
        Contains-triple t (a * 2 + d) (b * 2 + d) (c * 2 + d) word (omega arith) (omega arith)
          (omega arith) in
      (
        λ h. let r = iff.0 h in ((cell a ha).0 r.0, (cell b hb).0 r.1, (cell c hc).0 r.2),
        λ h. iff.1 ((cell a ha).1 h.0, (cell b hb).1 h.1, (cell c hc).1 h.2),
      )

  o_mask_iff : (s : Segment) → good s ≡ true → (bit_and t (o_mask s) ≡ o_mask s) ↔ Holds t cell_o s
  o_mask_iff s g = let (l, e, _) = good_lem s g in rw e (mask_iff 0 cell_o (omega arith) o_cell s l)

  x_mask_iff : (s : Segment) → good s ≡ true → (bit_and t (x_mask s) ≡ x_mask s) ↔ Holds t cell_x s
  x_mask_iff s g = let (l, _, e) = good_lem s g in rw e (mask_iff 1 cell_x (omega arith) x_cell s l)

  NoneOf : List Segment → Type 0
  NoneOf ss =
      (a b c : ℕ)
      → has_segment ss a b c ≡ true
      → (¬ Holds t cell_o (a, b, c)) × (¬ Holds t cell_x (a, b, c))

  NoneOf-cons :
      (s : Segment) (ss : List Segment)
      → ¬ Holds t cell_o s
      → ¬ Holds t cell_x s
      → NoneOf ss
      → NoneOf (s ∷ ss)
  unfolding NoneOf has_segment
  NoneOf-cons (x, y, z) ss no_o no_x rest a b c h =
      (λ p. ground (arith, rest a b c, no_o, p), λ p. ground (arith, rest a b c, no_x, p))

  Found : List Segment → Option ℕ → Type 0
  Found ss r =
      ((r ≡ some cell_o) × Wins t cell_o)
      ⊎ ((r ≡ some cell_x) × Wins t cell_x)
      ⊎ ((r ≡ none) × NoneOf ss)

  check_patterns_lem :
      (ss : List Segment) → all_good ss ≡ true → Found ss (check_patterns (map o_mask ss) t)
  unfolding Found check_patterns all_good NoneOf
  check_patterns_lem [] g = inr (inr (refl, λ a b c h. unfold has_segment in cc))
  check_patterns_lem (s ∷ ss) g = elim (Bool-cases (bit_and t (o_mask s) == o_mask s)) [
    | inl o ↦ inl (rw o, (s, (good_lem s good_s).0, (o_mask_iff s good_s).0 ((==_iff _ _).0 o)))
    | inr no_o ↦ elim (Bool-cases (bit_and t (x_mask s) == x_mask s)) [
      | inl x ↦ inr (
          inl
            (rw (no_o, x), (s, (good_lem s good_s).0, (x_mask_iff s good_s).0 ((==_iff _ _).0 x))))
      | inr no_x ↦ rw (no_o, no_x) (later no_o no_x (check_patterns_lem ss (ground arith)))
    ]
  ]
    where
      good_s : good s ≡ true
      good_s = ground arith

      later :
          {r : Option ℕ}
          → (bit_and t (o_mask s) == o_mask s) ≡ false
          → (bit_and t (x_mask s) == x_mask s) ≡ false
          → Found ss r
          → Found (s ∷ ss) r
      later no_o no_x (inl w) = inl w
      later no_o no_x (inr (inl w)) = inr (inl w)
      later no_o no_x (inr (inr (e, none_later))) = inr (
          inr (
            e,
            NoneOf-cons s ss (λ h. ground (arith, (o_mask_iff s good_s).1 h))
                (λ h. ground (arith, (x_mask_iff s good_s).1 h)) none_later,
          ))

zero_board : check_win 0 ≡ after_scan 0 (check_patterns fill_win_patterns.win_patterns 0)
unfolding check_win check_win_in
zero_board = refl

-- The early return on the empty board agrees with the rest of the function.
early_return :
    (t : ℕ) → check_win t ≡ after_scan t (check_patterns fill_win_patterns.win_patterns t)
early_return t = elim (Bool-cases (t == 0)) [
  | inl z ↦ rw ((==_iff t 0).0 z) zero_board
  | inr nz ↦ beyond nz
]
  where
    beyond :
        (t == 0) ≡ false
        → check_win t ≡ after_scan t (check_patterns fill_win_patterns.win_patterns t)
    beyond nz = unfold check_win_in check_win in rw nz

-- What `check_win` may answer, each with what it means on the board.
abbrev pub Verdict : ℕ → ℕ → Type 0
Verdict t r =
    ((r ≡ cell_o) × Wins t cell_o)
    ⊎ ((r ≡ cell_x) × Wins t cell_x)
    ⊎ ((r ≡ cell_empty) × (¬ Wins t cell_o) × (¬ Wins t cell_x) × HasEmpty t)
    ⊎ ((r ≡ cell_d) × (¬ Wins t cell_o) × (¬ Wins t cell_x) × (¬ HasEmpty t))

no_win :
    (t player : ℕ)
    → ((a b c : ℕ) → has_segment segments a b c ≡ true → ¬ Holds t player (a, b, c))
    → ¬ Wins t player
no_win t player none_of ((a, b, c), (ha, hb, hc, row), h) =
    none_of a b c (segments_complete a b c ha hb hc row) h

-- On a board with no reserved cell `check_win` names a player who has three in a row; if there is
-- none it answers that the game goes on exactly when a cell is empty, and a draw otherwise.
pub check_win_lem : (t : ℕ) → IsBoard t → Verdict t (check_win t)
unfolding Found NoneOf after_scan
check_win_lem t v =
    rw (early_return t, fill_win_patterns_lem.0)
      (finish (check_patterns_lem v segments segments_good))
  where
    finish : {r : Option ℕ} → Found v segments r → Verdict t (after_scan t r)
    finish (inl (e, w)) = rw e (inl (refl, w))
    finish (inr (inl (e, w))) = rw e (inr (inl (refl, w)))
    finish (inr (inr (e, none_of))) =
        let no_o : ¬ Wins t cell_o = no_win t _ (λ a b c h. (none_of a b c h).0) in
        let no_x : ¬ Wins t cell_x = no_win t _ (λ a b c h. (none_of a b c h).1) in
        rw e (elim (detect_empty_cell_lem t v.word) [
          | inl (d, empty) ↦ rw d (inr (inr (inl (refl, no_o, no_x, empty))))
          | inr (d, full) ↦ rw d (inr (inr (inr (refl, no_o, no_x, λ h. full h.0 h.1 h.2))))
        ])
