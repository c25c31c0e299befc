-- ===== src/Mcts/Uct/Root.antt =====
-- src/mcts.c: `fixed_sqrt` digit by digit.
use kxo.Prelude.{
  ℕ, zero, suc, ◌+◌, ◌*◌, ◌/◌, ◌%◌, ◌^◌, ◌<◌, ◌≤◌, ◌≡◌, sym, ◌∙◌, arith, inl, inr, Bool-cases, leb,
  ◌==◌, ◌||◌,
}
use mathlib.Core.Path.{subst}
use native.Mathlib.Nat.{mul-le-mul, pow-suc, pow-le-pow_right, mod-eq_of_lt}
use native.Mathlib.Decide.{dec_lt}
use kxo.Mcts.Uct.{one, top_bit, sqrt_loop, fixed_sqrt}

-- The square of `t`, a fixed-point number, is not above `x`.
abbrev pub SquareUnder : ℕ → ℕ → Type 0
SquareUnder x t = t * t / one ≤ x

div_mono : (a b : ℕ) → a ≤ b → a / 65536 ≤ b / 65536
div_mono a b h = omega arith

down : (x s t : ℕ) → s ≤ t → SquareUnder x t → SquareUnder x s
down x s t le h = let sq = div_mono (s * s) (t * t) (mul-le-mul le le) in omega arith

-- A square of at least one, which is above `x`.
above : (x t : ℕ) → one ≤ x → x < t → ¬ SquareUnder x t
above x t big lt h =
    let sq =
      mul-le-mul {n₁ = suc x} {m₁ = 65536} {n₂ = t} {m₂ = t} (omega (arith, lt))
        (omega (arith, big, lt)) in
    absurd (omega (arith, sq, h))

unwrapped : (c : ℕ) → c < 2 ^ 32 → (c * c) % 2 ^ 64 ≡ c * c
unwrapped c lt =
    let sq =
      mul-le-mul {n₁ = c} {m₁ = c} {n₂ = 4294967295} {m₂ = 4294967295} (omega (arith, lt))
        (omega (arith, lt)) in
    mod-eq_of_lt (omega (arith, sq))

pow-pos : (i : ℕ) → 0 < 2 ^ i
pow-pos i = pow-le-pow_right {n = 2} (omega arith) {i = 0} {j = i} (omega arith)

-- What the digits that are found so far tell, with `i` digits to come.
sqrt_loop_lem :
    (i x s : ℕ)
    → s + 2 ^ i ≤ 2 ^ 32
    → SquareUnder x s
    → ((t : ℕ) → SquareUnder x t → t < s + 2 ^ i)
    → SquareUnder x (sqrt_loop i x s) × ((t : ℕ) → SquareUnder x t → t ≤ sqrt_loop i x s)
unfolding sqrt_loop
sqrt_loop_lem zero x s fits under upper = (under, λ t h. (let lt = upper t h in omega (arith, lt)))
sqrt_loop_lem (suc i) x s fits under upper =
    let twice : 2 ^ suc i ≡ 2 ^ i + 2 ^ i = pow-suc 2 i ∙ omega arith in
    let some : 0 < 2 ^ i = pow-pos i in
    let c = s + 2 ^ i in
    let lt : c < 2 ^ 32 = omega (arith, fits, twice, some) in
    let plain : (c * c) % 2 ^ 64 ≡ c * c = unwrapped c lt in
    let kept : c % 2 ^ 32 ≡ c = mod-eq_of_lt lt in
    elim (Bool-cases (leb (c * c / one) x)) [
      | inl fits_in ↦
          rw (plain, kept, fits_in, sqrt_loop)
            (sqrt_loop_lem i x c (omega (arith, fits, twice)) (ground (arith, fits_in))
              (λ t h. (let lt' = upper t h in omega (arith, lt', twice))))
      | inr too_big ↦
          rw (plain, kept, too_big, sqrt_loop)
            (sqrt_loop_lem i x s (omega (arith, lt)) under (λ t h. elim (dec_lt t c) [
              | yes below ↦ below
              | no high ↦
                  (let under' = down x c t (omega (arith, high)) h in
                    absurd (ground (arith, too_big, under')))
            ]))
    ]

top_bit-lt :
    (left x : ℕ) → x < 2 ^ suc left → (x < 2 ^ suc (top_bit left x)) × (top_bit left x ≤ left)
unfolding top_bit
top_bit-lt zero x lt = (lt, omega arith)
top_bit-lt (suc left) x lt = elim (Bool-cases (leb (2 ^ suc left) x)) [
  | inl here ↦ rw (here, top_bit) (lt, omega arith)
  | inr lower ↦
      let below = top_bit-lt left x (ground (arith, lower)) in
      rw (lower, top_bit) (below.0, omega (arith, below.1))
]

own : SquareUnder one one
own = omega arith

-- `fixed_sqrt` of a fixed-point number of at least 1 is the greatest fixed-point number whose square,
-- rounded down, is not above it.
pub fixed_sqrt_lem :
    (x : ℕ)
    → one ≤ x
    → x < 2 ^ 32
    → SquareUnder x (fixed_sqrt x) × ((t : ℕ) → SquareUnder x t → t ≤ fixed_sqrt x)
unfolding fixed_sqrt
fixed_sqrt_lem x big lt =
    let k = top_bit 31 x in
    let (low, small) = top_bit-lt 31 x lt in
    let next : k + 1 ≡ suc k = omega arith in
    let size : 2 ^ suc k ≤ 2 ^ 32 =
      pow-le-pow_right {n = 2} (omega arith) {i = suc k} {j = 32} (omega (arith, small)) in
    let not_above : (t : ℕ) → SquareUnder x t → t ≤ x = λ t h. elim (dec_lt x t) [
      | yes high ↦ absurd (above x t big high h)
      | no kept ↦ omega (arith, kept)
    ] in
    elim (Bool-cases ((x == 0) || (x == one))) [
      | inl ends ↦
          let is : x ≡ one = ground (arith, ends, big) in
          rw (ends, fixed_sqrt) (subst (λ y. SquareUnder y y) (sym is) own, not_above)
      | inr inner ↦
          rw (inner, fixed_sqrt, next)
            (sqrt_loop_lem (suc k) x 0 (omega (arith, size)) (omega arith)
              (λ t h. (let le = not_above t h in omega (arith, le, low))))
    ]
