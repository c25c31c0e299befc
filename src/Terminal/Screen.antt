-- ===== src/Terminal/Screen.antt =====
-- What user/tui.c relies on of a terminal, and what strokes leave on its screen.
pub mod Effects
use kxo.Prelude.{
  ℕ, suc, ◌+◌, ◌<◌, ◌≤◌, ◌≡◌, ◌≢◌, ◌⊎◌, inl, inr, refl, ◌∙◌, arith, List, [], ◌∷◌, ◌++◌, length,
}
use mathlib.Core.Path.{subst}
use kxo.Terminal.Strokes.{Glyph, Put, wrote, printed, printed_line, clean_line, Stroke}

-- The columns and rows that the program draws on; both count from 1.
abbrev pub max_x : ℕ
max_x = 110

abbrev pub max_y : ℕ
max_y = 64

-- A terminal: it moves its cursor, puts a character there, ends a line and clears one.
pub record Terminal (S : Type 0) : Type 0 where
  pub move : ℕ → ℕ → S → S
  pub put_char : Glyph → S → S
  pub feed : S → S
  pub erase : S → S
  pub at_x : S → ℕ
  pub at_y : S → ℕ
  pub look : S → ℕ → ℕ → Glyph

-- On a terminal with room for all that is drawn: the cursor goes where it is sent, a character
-- appears where the cursor is, which goes on by one, and nothing else changes; the end of a line
-- changes nothing on the screen, and clearing a line nothing on the others.
pub record IsTerminal {S : Type 0} (t : Terminal S) : Type 0 where
  pub move-at :
      (x y : ℕ) (s : S)
      → 0 < x
      → x ≤ max_x
      → 0 < y
      → y < max_y
      → (t.at_x (t.move x y s) ≡ x) × (t.at_y (t.move x y s) ≡ y)
  pub move-look : (x y : ℕ) (s : S) (cx cy : ℕ) → t.look (t.move x y s) cx cy ≡ t.look s cx cy
  pub put_char-at :
      (g : Glyph) (s : S)
      → t.at_x s < max_x
      → (t.at_x (t.put_char g s) ≡ t.at_x s + 1) × (t.at_y (t.put_char g s) ≡ t.at_y s)
  pub put_char-here :
      (g : Glyph) (s : S) → t.at_x s < max_x → t.look (t.put_char g s) (t.at_x s) (t.at_y s) ≡ g
  pub put_char-look :
      (g : Glyph) (s : S) (cx cy : ℕ)
      → t.at_x s < max_x
      → (cx ≢ t.at_x s) ⊎ (cy ≢ t.at_y s)
      → t.look (t.put_char g s) cx cy ≡ t.look s cx cy
  pub feed-look : (s : S) (cx cy : ℕ) → t.at_y s < max_y → t.look (t.feed s) cx cy ≡ t.look s cx cy
  pub erase-at : (s : S) → (t.at_x (t.erase s) ≡ t.at_x s) × (t.at_y (t.erase s) ≡ t.at_y s)
  pub erase-look : (s : S) (cx cy : ℕ) → cy ≢ t.at_y s → t.look (t.erase s) cx cy ≡ t.look s cx cy

-- The columns that a call takes, and those that a stroke takes.
abbrev pub put_width : Put → ℕ
put_width (wrote gs) = length gs
put_width (printed gs) = length gs
put_width (printed_line gs) = length gs
put_width clean_line = 0

abbrev pub width : List Put → ℕ
width [] = 0
width (p ∷ ps) = put_width p + width ps

-- The end of a line stands last in its stroke, and a stroke that clears a line is apart.
abbrev pub IsLine : List Put → Type 0
IsLine [] = Unit {0}
IsLine (wrote gs ∷ ps) = IsLine ps
IsLine (printed gs ∷ ps) = IsLine ps
IsLine (printed_line gs ∷ ps) = ps ≡ []
IsLine (clean_line ∷ ps) = ⊥

-- A place outside the columns that are written, or on another row.
abbrev pub Misses : ℕ → ℕ → ℕ → ℕ → ℕ → Type 0
Misses x y n cx cy = (cy ≢ y) ⊎ (cx < x) ⊎ (x + n ≤ cx)

-- A stroke within the columns from `x0` to below `x1` and the rows from `y0` to below `y1`.
abbrev pub InRect : ℕ → ℕ → ℕ → ℕ → Stroke → Type 0
InRect x0 x1 y0 y1 st =
    IsLine st.puts × (x0 ≤ st.x) × (st.x + width st.puts ≤ x1) × (y0 ≤ st.y) × (st.y < y1)

abbrev pub Outside : ℕ → ℕ → ℕ → ℕ → ℕ → ℕ → Type 0
Outside x0 x1 y0 y1 cx cy = (cy < y0) ⊎ (y1 ≤ cy) ⊎ (cx < x0) ⊎ (x1 ≤ cx)

-- A stroke on the rows from `y0` to below `y1`, which may clear its row, or only move the cursor.
abbrev pub InRows : ℕ → ℕ → Stroke → Type 0
InRows y0 y1 st =
    (st.puts ≡ [])
    ⊎ ((0 < st.x)
        × (st.x + width st.puts ≤ max_x)
        × (y0 ≤ st.y)
        × (st.y < y1)
        × (IsLine st.puts ⊎ (st.puts ≡ clean_line ∷ [])))

abbrev pub All : (Stroke → Type 0) → List Stroke → Type 0
All P [] = Unit {0}
All P (st ∷ sts) = P st × All P sts

module _ {S : Type 0} (t : Terminal S) where
  abbrev pub show_chars : List Glyph → S → S
  show_chars [] s = s
  show_chars (g ∷ gs) s = show_chars gs (t.put_char g s)

  abbrev pub show_put : Put → S → S
  show_put (wrote gs) s = show_chars gs s
  show_put (printed gs) s = show_chars gs s
  show_put (printed_line gs) s = t.feed (show_chars gs s)
  show_put clean_line s = t.erase s

  abbrev pub show_puts : List Put → S → S
  show_puts [] s = s
  show_puts (p ∷ ps) s = show_puts ps (show_put p s)

  unfoldable pub show_stroke : Stroke → S → S
  show_stroke st s = show_puts st.puts (t.move st.x st.y s)

  unfoldable pub show : List Stroke → S → S
  unfolding show_stroke
  show [] s = s
  show (st ∷ sts) s = show sts (show_stroke st s)

  pub show-append : (a b : List Stroke) (s : S) → show (a ++ b) s ≡ show b (show a s)
  unfolding show
  show-append [] b s = refl
  show-append (st ∷ a) b s = show-append a b (show_stroke st s)

pub All-append : (P : Stroke → Type 0) (a b : List Stroke) → All P a → All P b → All P (a ++ b)
All-append P [] b ha hb = hb
All-append P (st ∷ a) b ha hb = (ha.0, All-append P a b ha.1 hb)
