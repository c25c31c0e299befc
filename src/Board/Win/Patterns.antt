-- ===== src/Board/Win/Patterns.antt =====
-- src/game.c: the entries of `win_patterns` and the lines of the board.
use native.Mathlib.Nat.{add-zero}
use native.Mathlib.Decide.{ℕ_discrete, dec_lt}
use kxo.Prelude.{ℕ, ◌+◌, ◌*◌, ◌^◌, ◌<◌, ◌≤◌, bit_and, bit_or}
use kxo.Prelude.{◌≡◌, refl, ◌≢◌, ◌↔◌, arith, ◌==◌, Bool, true, false, ◌&&◌, ◌||◌}
use kxo.Prelude.{ap, List, [], ◌∷◌, map, ltb, not}
use kxo.Prelude.Tables.{passes, passes-at}
use kxo.Prelude.Bits.{bit, bit-lt, bit-and, bit-or, bit_ext, and-lt, or-lt}
use kxo.Prelude.Fields.{mask_at, mask_at-lt, mask_at_inside, mask_at_below, mask_at_above}
use kxo.Board.{u32}
use kxo.Board.Lines.{in_row, gen_o_winmask, fill_win_patterns}

-- The word whose only digit is at `n`.
abbrev pub single : ℕ → ℕ
single n = mask_at 32 1 n

bit-single : (n : ℕ) → n < 32 → bit n (single n) ≡ 1
bit-single n h = rw add-zero at (mask_at_inside 32 1 n 0 (omega arith))

bit-single_ne : (n i : ℕ) → i < 32 → i ≢ n → bit i (single n) ≡ 0
bit-single_ne n i h ne = elim (dec_lt i n) [
  | yes l ↦ mask_at_below 32 1 n i h l
  | no l ↦ mask_at_above 32 1 1 n i (omega arith) (omega arith) h
]

abbrev pub Contains : ℕ → ℕ → Type 0
Contains t p = bit_and t p ≡ p

Contains-bits : (t p : ℕ) → Contains t p → (i : ℕ) → bit i p ≤ bit i t
Contains-bits t p h i = omega (arith, bit-and i t p, ap (bit i) h)

bits-Contains :
    (t p : ℕ) → t < 2 ^ 32 → p < 2 ^ 32 → ((i : ℕ) → i < 32 → bit i p ≤ bit i t) → Contains t p
bits-Contains t p ht hp h =
    bit_ext 32 (bit_and t p) p (and-lt 32 t p ht) hp λ i l. omega (arith, bit-and i t p, h i l)

Contains-single : (t n : ℕ) → t < 2 ^ 32 → n < 32 → Contains t (single n) ↔ (bit n t ≡ 1)
Contains-single t n ht hn = (
  λ h. omega (arith, Contains-bits t (single n) h n, bit-single n hn, bit-lt n t),
  λ h. bits-Contains t (single n) ht (mask_at-lt 32 1 n) λ i l. elim (ℕ_discrete i n) [
    | yes e ↦ rw e (omega (arith, bit-lt n (single n)))
    | no ne ↦ omega (arith, bit-single_ne n i l ne)
  ],
)

Contains-or :
    (t p q : ℕ)
    → t < 2 ^ 32
    → p < 2 ^ 32
    → q < 2 ^ 32
    → Contains t (bit_or p q) ↔ (Contains t p × Contains t q)
Contains-or t p q ht hp hq = (
  λ h. (
    bits-Contains t p ht hp λ i l. omega (arith, Contains-bits t (bit_or p q) h i, bit-or i p q),
    bits-Contains t q ht hq λ i l. omega (arith, Contains-bits t (bit_or p q) h i, bit-or i p q),
  ),
  λ h.
      bits-Contains t (bit_or p q) ht (or-lt 32 p q hp hq)
        λ i l. omega (arith, Contains-bits t p h.0 i, Contains-bits t q h.1 i, bit-or i p q),
)

abbrev pub triple : ℕ → ℕ → ℕ → ℕ
triple a b c = bit_or (bit_or (single a) (single b)) (single c)

pub Contains-triple :
    (t a b c : ℕ)
    → t < 2 ^ 32
    → a < 32
    → b < 32
    → c < 32
    → Contains t (triple a b c) ↔ ((bit a t ≡ 1) × (bit b t ≡ 1) × (bit c t ≡ 1))
Contains-triple t a b c ht ha hb hc =
    let ab = or-lt 32 (single a) (single b) (mask_at-lt 32 1 a) (mask_at-lt 32 1 b) in
    let split = Contains-or t (bit_or (single a) (single b)) (single c) ht ab (mask_at-lt 32 1 c) in
    let split_ab = Contains-or t (single a) (single b) ht (mask_at-lt 32 1 a) (mask_at-lt 32 1 b) in
    (
      λ h. (
        (Contains-single t a ht ha).0 (split_ab.0 (split.0 h).0).0,
        (Contains-single t b ht hb).0 (split_ab.0 (split.0 h).0).1,
        (Contains-single t c ht hc).0 (split.0 h).1,
      ),
      λ h. split.1 (
        split_ab.1 ((Contains-single t a ht ha).1 h.0, (Contains-single t b ht hb).1 h.1),
        (Contains-single t c ht hc).1 h.2,
      ),
    )

-- A segment: three cells.
abbrev pub Segment : Type 0
Segment = ℕ × ℕ × ℕ

abbrev pub mask_of : ℕ → Segment → ℕ
mask_of d (a, b, c) = triple (a * 2 + d) (b * 2 + d) (c * 2 + d)

abbrev pub o_mask : Segment → ℕ
o_mask s = gen_o_winmask s.0 s.1 s.2

abbrev pub x_mask : Segment → ℕ
x_mask s = u32 (o_mask s * 2)

-- The rows of `xo_segment_lines`, as triples.
abbrev pub segments : List Segment
segments =
    (0, 1, 2)
    ∷ (1, 2, 3)
    ∷ (4, 5, 6)
    ∷ (5, 6, 7)
    ∷ (8, 9, 10)
    ∷ (9, 10, 11)
    ∷ (12, 13, 14)
    ∷ (13, 14, 15)
    ∷ (0, 4, 8)
    ∷ (1, 5, 9)
    ∷ (2, 6, 10)
    ∷ (3, 7, 11)
    ∷ (4, 8, 12)
    ∷ (5, 9, 13)
    ∷ (6, 10, 14)
    ∷ (7, 11, 15)
    ∷ (0, 5, 10)
    ∷ (1, 6, 11)
    ∷ (4, 9, 14)
    ∷ (5, 10, 15)
    ∷ (2, 5, 8)
    ∷ (3, 6, 9)
    ∷ (6, 9, 12)
    ∷ (7, 10, 13)
    ∷ []

abbrev pub row_of : Segment → List ℕ
row_of s = s.0 ∷ s.1 ∷ s.2 ∷ []

-- `fill_win_patterns` writes these rows and their masks.
pub fill_win_patterns_lem :
    (fill_win_patterns.win_patterns ≡ map o_mask segments)
    × (fill_win_patterns.xo_segment_lines ≡ map row_of segments)
unfolding fill_win_patterns gen_o_winmask
fill_win_patterns_lem = (refl, refl)

-- What is read of a segment: its cells lie on the board and in a row, and the second mask is the
-- first moved by one digit.
abbrev pub IsLine : Segment → Type 0
IsLine s = (s.0 < 16) × (s.1 < 16) × (s.2 < 16) × (in_row s.0 s.1 s.2 ≡ true)

unfoldable pub good : Segment → Bool
good s =
    ltb s.0 16
    && ltb s.1 16
    && ltb s.2 16
    && in_row s.0 s.1 s.2
    && (o_mask s == mask_of 0 s)
    && (x_mask s == mask_of 1 s)

unfoldable pub all_good : List Segment → Bool
unfolding good
all_good [] = true
all_good (s ∷ rest) = good s && all_good rest

pub segments_good : all_good segments ≡ true
unfolding all_good gen_o_winmask in_row
segments_good = refl

pub good_lem :
    (s : Segment) → good s ≡ true → IsLine s × (o_mask s ≡ mask_of 0 s) × (x_mask s ≡ mask_of 1 s)
unfolding good
good_lem s h = ground arith

unfoldable pub has_segment : List Segment → ℕ → ℕ → ℕ → Bool
has_segment [] a b c = false
has_segment (s ∷ rest) a b c = ((s.0 == a) && (s.1 == b) && (s.2 == c)) || has_segment rest a b c

line_listed : ℕ → ℕ → ℕ → Bool
unfolding in_row has_segment
line_listed a b c = not (in_row a b c) || has_segment segments a b c

lines_listed : passes (λ a. passes (λ b. passes (λ c. line_listed a b c) 16) 16) 16 ≡ true
unfolding line_listed in_row has_segment passes
lines_listed = refl

pub segments_complete :
    (a b c : ℕ) → a < 16 → b < 16 → c < 16 → in_row a b c ≡ true → has_segment segments a b c ≡ true
unfolding line_listed
segments_complete a b c ha hb hc h =
    let at_a =
      passes-at (λ a. passes (λ b. passes (λ c. line_listed a b c) 16) 16) 16 a ha lines_listed in
    let at_b = passes-at (λ b. passes (λ c. line_listed a b c) 16) 16 b hb at_a in
    let at_c : line_listed a b c ≡ true = passes-at (λ c. line_listed a b c) 16 c hc at_b in
    ground arith
