-- ===== src/Terminal/Strokes.antt =====
-- user/tui.c: what the drawing functions ask of the buffer, as strokes: a `gotoxy` and what is put
-- from there on. A character on the screen is the bytes that are sent for it.
use kxo.Prelude.{ℕ, zero, suc, ◌+◌, ◌/◌, ◌%◌, List, [], ◌∷◌, ◌++◌, some, map, ltb, if◌then◌else◌}
use Prim.Native.Char.{code}
use Prim.Native.String.{String}
use kxo.Terminal.{Draw, write, print}

abbrev pub Glyph : Type 0
Glyph = List ℕ

-- The characters of a text of ASCII.
abbrev pub chars : String → List Glyph
chars String.[] = []
chars (String.◌∷◌ c s) = (code c ∷ []) ∷ chars s

abbrev pub bytes_of : List Glyph → List ℕ
bytes_of [] = []
bytes_of (g ∷ gs) = g ++ bytes_of gs

-- A character of the boxes, by the last two of its three bytes.
abbrev pub box : ℕ → ℕ → Glyph
box b c = 0xe2 ∷ b ∷ c ∷ []

-- What `%d` makes of a number that has at most `fuel + 1` digits.
unfoldable pub decimal_on : ℕ → ℕ → List Glyph
decimal_on zero n = ((b'0' + n % 10) ∷ []) ∷ []
decimal_on (suc fuel) n =
    let front = decimal_on fuel (n / 10) in
    let last = (b'0' + n % 10) ∷ [] in if ltb n 10 then last ∷ [] else front ++ last ∷ []

unfoldable pub decimal : ℕ → List Glyph
unfolding decimal_on
decimal n = decimal_on 19 n

-- What `%02d` makes of it.
unfoldable pub decimal2 : ℕ → List Glyph
decimal2 n = if ltb n 10 then chars "0" ++ decimal n else decimal n

-- A call of `outbuf_write` or of `outbuf_printf`, for the latter perhaps with the end of a line, or
-- for `CLEAR_LINE`.
pub data Put : Type 0 where
  wrote : List Glyph → Put
  printed : List Glyph → Put
  printed_line : List Glyph → Put
  clean_line : Put

pub record Stroke : Type 0 where
  pub x : ℕ
  pub y : ℕ
  pub puts : List Put

abbrev pub put_draw : Put → Draw
put_draw (wrote gs) = write (bytes_of gs)
put_draw (printed gs) = print (some (bytes_of gs))
put_draw (printed_line gs) = print (some (bytes_of gs ++ b'\n' ∷ []))
put_draw clean_line = print (some (0x1b ∷ bytes_of (chars "[2K")))

unfoldable pub gotoxy : ℕ → ℕ → Draw
unfolding decimal
gotoxy x y =
    print (some (0x1b ∷ bytes_of (chars "[" ++ decimal y ++ chars ";" ++ decimal x ++ chars "H")))

unfoldable pub stroke_draws : Stroke → List Draw
unfolding gotoxy
stroke_draws st = gotoxy st.x st.y ∷ map put_draw st.puts

unfoldable pub draws : List Stroke → List Draw
unfolding stroke_draws
draws [] = []
draws (st ∷ sts) = stroke_draws st ++ draws sts

-- `for (int i = 0; i < n; i++)`, from `i` on with `left` rounds to come.
abbrev pub each_from : {A : Type 0} → ℕ → ℕ → (ℕ → List A) → List A
each_from zero i f = []
each_from (suc left) i f = f i ++ each_from left (i + 1) f

abbrev pub each : {A : Type 0} → ℕ → (ℕ → List A) → List A
each n f = each_from n 0 f

abbrev pub stroke : ℕ → ℕ → List Put → List Stroke
stroke x y puts = record { x = x; y = y; puts = puts } ∷ []

abbrev pub put_one : Glyph → List Put
put_one g = wrote (g ∷ []) ∷ []
