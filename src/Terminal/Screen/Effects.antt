-- ===== src/Terminal/Screen/Effects.antt =====
-- user/tui.c: which places of the screen the strokes leave alone.
use kxo.Prelude.{
  ℕ, suc, ◌+◌, ◌<◌, ◌≤◌, ◌≡◌, ◌≢◌, ◌⊎◌, inl, inr, refl, ◌∙◌, arith, List, [], ◌∷◌, length,
}
use mathlib.Core.Path.{subst}
use kxo.Terminal.Strokes.{Glyph, Put, wrote, printed, printed_line, clean_line, Stroke}
use kxo.Terminal.Screen.{
  max_x, max_y, Terminal, IsTerminal, width, IsLine, Misses, InRect, Outside, InRows, All,
  show_chars, show_puts, show_stroke, show,
}

module _ {S : Type 0} (t : Terminal S) (is : IsTerminal t) where
  show_chars-at :
      (gs : List Glyph) (s : S)
      → t.at_x s + length gs ≤ max_x
      → (t.at_x (show_chars t gs s) ≡ t.at_x s + length gs)
        × (t.at_y (show_chars t gs s) ≡ t.at_y s)
  show_chars-at [] s fits = (omega arith, refl)
  show_chars-at (g ∷ gs) s fits =
      let (x, y) = is.put_char-at g s (omega (arith, fits)) in
      let (x', y') = show_chars-at gs (t.put_char g s) (omega (arith, x, fits)) in
      (omega (arith, x', x), y' ∙ y)

  show_chars-look :
      (gs : List Glyph) (s : S) (cx cy : ℕ)
      → t.at_x s + length gs ≤ max_x
      → Misses (t.at_x s) (t.at_y s) (length gs) cx cy
      → t.look (show_chars t gs s) cx cy ≡ t.look s cx cy
  show_chars-look [] s cx cy fits miss = refl
  show_chars-look (g ∷ gs) s cx cy fits miss =
      let (x, y) = is.put_char-at g s (omega (arith, fits)) in
      show_chars-look gs (t.put_char g s) cx cy (omega (arith, x, fits)) (later x y miss)
      ∙ is.put_char-look g s cx cy (omega (arith, fits)) (here miss)
    where
      here :
          Misses (t.at_x s) (t.at_y s) (suc (length gs)) cx cy → (cx ≢ t.at_x s) ⊎ (cy ≢ t.at_y s)
      here (inl ne) = inr ne
      here (inr (inl lt)) = inl (λ e. omega (arith, e, lt))
      here (inr (inr le)) = inl (λ e. omega (arith, e, le))

      later :
          t.at_x (t.put_char g s) ≡ t.at_x s + 1
          → t.at_y (t.put_char g s) ≡ t.at_y s
          → Misses (t.at_x s) (t.at_y s) (suc (length gs)) cx cy
          → Misses (t.at_x (t.put_char g s)) (t.at_y (t.put_char g s)) (length gs) cx cy
      later x y (inl ne) = inl (λ e. ne (e ∙ y))
      later x y (inr (inl lt)) = inr (inl (omega (arith, x, lt)))
      later x y (inr (inr le)) = inr (inr (omega (arith, x, le)))

  left_part : (x y n k cx cy : ℕ) → Misses x y (n + k) cx cy → Misses x y n cx cy
  left_part x y n k cx cy (inl ne) = inl ne
  left_part x y n k cx cy (inr (inl lt)) = inr (inl lt)
  left_part x y n k cx cy (inr (inr le)) = inr (inr (omega (arith, le)))

  right_part :
      (x y n k x' y' cx cy : ℕ)
      → x' ≡ x + n
      → y' ≡ y
      → Misses x y (n + k) cx cy
      → Misses x' y' k cx cy
  right_part x y n k x' y' cx cy e f (inl ne) = inl (λ g. ne (g ∙ f))
  right_part x y n k x' y' cx cy e f (inr (inl lt)) = inr (inl (omega (arith, e, lt)))
  right_part x y n k x' y' cx cy e f (inr (inr le)) = inr (inr (omega (arith, e, le)))

  -- Characters, and then what `later` says of the rest.
  chars_then :
      (gs : List Glyph) (ps : List Put) (s : S) (cx cy : ℕ)
      → t.at_x s + (length gs + width ps) ≤ max_x
      → t.at_y s < max_y
      → Misses (t.at_x s) (t.at_y s) (length gs + width ps) cx cy
      → (let s' = show_chars t gs s in
          t.at_x s' + width ps ≤ max_x
          → t.at_y s' < max_y
          → Misses (t.at_x s') (t.at_y s') (width ps) cx cy
          → t.look (show_puts t ps s') cx cy ≡ t.look s' cx cy)
      → t.look (show_puts t ps (show_chars t gs s)) cx cy ≡ t.look s cx cy
  chars_then gs ps s cx cy fits row miss later =
      let (x, y) = show_chars-at gs s (omega (arith, fits)) in
      later (omega (arith, x, fits)) (omega (arith, y, row)) (
        right_part (t.at_x s) (t.at_y s) (length gs) (width ps) (t.at_x (show_chars t gs s))
          (t.at_y (show_chars t gs s)) cx cy x y miss)
      ∙ show_chars-look gs s cx cy (omega (arith, fits))
          (left_part (t.at_x s) (t.at_y s) (length gs) (width ps) cx cy miss)

  show_puts-look :
      (ps : List Put) (s : S) (cx cy : ℕ)
      → IsLine ps
      → t.at_x s + width ps ≤ max_x
      → t.at_y s < max_y
      → Misses (t.at_x s) (t.at_y s) (width ps) cx cy
      → t.look (show_puts t ps s) cx cy ≡ t.look s cx cy
  show_puts-look [] s cx cy line fits row miss = refl
  show_puts-look (wrote gs ∷ ps) s cx cy line fits row miss =
      chars_then gs ps s cx cy fits row miss (show_puts-look ps (show_chars t gs s) cx cy line)
  show_puts-look (printed gs ∷ ps) s cx cy line fits row miss =
      chars_then gs ps s cx cy fits row miss (show_puts-look ps (show_chars t gs s) cx cy line)
  show_puts-look (printed_line gs ∷ []) s cx cy line fits row miss =
      let (x, y) = show_chars-at gs s (omega (arith, fits)) in
      is.feed-look (show_chars t gs s) cx cy (omega (arith, y, row))
      ∙ show_chars-look gs s cx cy (omega (arith, fits))
          (left_part (t.at_x s) (t.at_y s) (length gs) 0 cx cy miss)
  show_puts-look (printed_line gs ∷ p ∷ ps) s cx cy line fits row miss =
      absurd (ground (arith, line))
  show_puts-look (clean_line ∷ ps) s cx cy line fits row miss = absurd line

  off_rect :
      (x0 x1 y0 y1 x y n cx cy : ℕ)
      → x0 ≤ x
      → x + n ≤ x1
      → y0 ≤ y
      → y < y1
      → Outside x0 x1 y0 y1 cx cy
      → Misses x y n cx cy
  off_rect x0 x1 y0 y1 x y n cx cy a b c d (inl h) = inl (λ e. omega (arith, e, h, c))
  off_rect x0 x1 y0 y1 x y n cx cy a b c d (inr (inl h)) = inl (λ e. omega (arith, e, h, d))
  off_rect x0 x1 y0 y1 x y n cx cy a b c d (inr (inr (inl h))) = inr (inl (omega (arith, h, a)))
  off_rect x0 x1 y0 y1 x y n cx cy a b c d (inr (inr (inr h))) = inr (inr (omega (arith, h, b)))

  -- It leaves the places outside alone.
  pub show_stroke-look :
      (x0 x1 y0 y1 : ℕ) (st : Stroke) (s : S) (cx cy : ℕ)
      → 0 < x0
      → x1 ≤ max_x
      → 0 < y0
      → y1 ≤ max_y
      → InRect x0 x1 y0 y1 st
      → Outside x0 x1 y0 y1 cx cy
      → t.look (show_stroke t st s) cx cy ≡ t.look s cx cy
  unfolding show_stroke
  show_stroke-look x0 x1 y0 y1 st s cx cy hx0 hx1 hy0 hy1 (line, a, b, c, d) out =
      let (x, y) =
        is.move-at st.x st.y s (omega (arith, hx0, a)) (omega (arith, b, hx1))
          (omega (arith, hy0, c)) (omega (arith, d, hy1)) in
      let s' = t.move st.x st.y s in
      show_puts-look st.puts s' cx cy line (omega (arith, x, b, hx1)) (omega (arith, y, d, hy1))
        (rw (x, y) (off_rect x0 x1 y0 y1 st.x st.y (width st.puts) cx cy a b c d out))
      ∙ is.move-look st.x st.y s cx cy

  -- It leaves the other rows alone.
  pub show_stroke-rows :
      (y0 y1 : ℕ) (st : Stroke) (s : S) (cx cy : ℕ)
      → 0 < y0
      → y1 ≤ max_y
      → InRows y0 y1 st
      → (cy < y0) ⊎ (y1 ≤ cy)
      → t.look (show_stroke t st s) cx cy ≡ t.look s cx cy
  unfolding show_stroke
  show_stroke-rows y0 y1 st s cx cy hy0 hy1 (inl none) out =
      rw none (is.move-look st.x st.y s cx cy)
  show_stroke-rows y0 y1 st s cx cy hy0 hy1 (inr (hx, fits, c, d, kind)) out =
      let s' = t.move st.x st.y s in
      let (x, y) =
        is.move-at st.x st.y s hx (omega (arith, fits)) (omega (arith, hy0, c))
          (omega (arith, d, hy1)) in
      let other : cy ≢ st.y = off c d out in
      elim kind [
        | inl line ↦
            show_puts-look st.puts s' cx cy line (omega (arith, x, fits)) (omega (arith, y, d, hy1))
              (inl (λ e. other (e ∙ y)))
            ∙ is.move-look st.x st.y s cx cy
        | inr clear ↦
            rw clear (is.erase-look s' cx cy (λ e. other (e ∙ y)) ∙ is.move-look st.x st.y s cx cy)
      ]
    where
      off : y0 ≤ st.y → st.y < y1 → (cy < y0) ⊎ (y1 ≤ cy) → cy ≢ st.y
      off c d (inl h) e = omega (arith, e, h, c)
      off c d (inr h) e = omega (arith, e, h, d)

  -- One character at one place.
  pub show_mark :
      (x y : ℕ) (g : Glyph) (s : S)
      → 0 < x
      → x < max_x
      → 0 < y
      → y < max_y
      → t.look (show_stroke t (record { x = x; y = y; puts = printed (g ∷ []) ∷ [] }) s) x y ≡ g
  unfolding show_stroke
  show_mark x y g s hx hx' hy hy' =
      let (ex, ey) = is.move-at x y s hx (omega (arith, hx')) hy hy' in
      subst (λ cx. t.look (t.put_char g (t.move x y s)) cx y ≡ g) ex
        (subst (λ cy. t.look (t.put_char g (t.move x y s)) (t.at_x (t.move x y s)) cy ≡ g) ey
          (is.put_char-here g (t.move x y s) (omega (arith, ex, hx'))))

  -- Strokes that leave a place alone, one by one, do so together.
  pub show-look :
      (P : Stroke → Type 0) (cx cy : ℕ)
      → ((st : Stroke) (s : S) → P st → t.look (show_stroke t st s) cx cy ≡ t.look s cx cy)
      → (sts : List Stroke) (s : S) → All P sts
      → t.look (show t sts s) cx cy ≡ t.look s cx cy
  unfolding show
  show-look P cx cy one [] s all = refl
  show-look P cx cy one (st ∷ sts) s all =
      show-look P cx cy one sts (show_stroke t st s) all.1 ∙ one st s all.0
