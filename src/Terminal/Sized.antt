-- ===== src/Terminal/Sized.antt =====
-- user/tui.c: the length of what is formatted.
pub mod Parts
pub mod TabParts
pub mod Begin
use kxo.Prelude.{
  ℕ, zero, suc, ◌+◌, ◌*◌, ◌/◌, ◌%◌, ◌<◌, ◌≤◌, ◌≡◌, inl, inr, refl, ap, ◌∙◌, arith, List, [], ◌∷◌,
  ◌++◌, length, length-append, map, ltb, Bool-cases, if_both, some, none,
}
use kxo.Terminal.{Draw, write, print, flush, outbuf_size}
use kxo.Terminal.Output.{Fits}
use kxo.Terminal.Strokes.{
  Glyph, chars, bytes_of, decimal, decimal_on, decimal2, Put, wrote, printed, printed_line,
  clean_line, Stroke, put_draw, gotoxy, stroke_draws, draws, each_from, each, put_one,
}
use kxo.Terminal.Screen.{All, All-append}

-- The number of bytes.
abbrev pub size : List Glyph → ℕ
size gs = length (bytes_of gs)

pub size-append : (a b : List Glyph) → size (a ++ b) ≡ size a + size b
size-append [] b = omega arith
size-append (g ∷ a) b = omega (
  arith,
  length-append {0} g (bytes_of (a ++ b)),
  length-append {0} g (bytes_of a),
  size-append a b,
)

decimal_on-size : (fuel n : ℕ) → size (decimal_on fuel n) ≤ fuel + 1
unfolding decimal_on
decimal_on-size zero n = omega arith
decimal_on-size (suc fuel) n =
    let last = (b'0' + n % 10) ∷ [] in
    if_both (λ gs. size gs ≤ suc fuel + 1) (ltb n 10) (last ∷ [])
      (decimal_on fuel (n / 10) ++ last ∷ []) (omega arith)
      (omega
        (arith, size-append (decimal_on fuel (n / 10)) (last ∷ []), decimal_on-size fuel (n / 10)))

pub decimal-size : (n : ℕ) → size (decimal n) ≤ 20
unfolding decimal
decimal-size n = decimal_on-size 19 n

pub decimal2-size : (n : ℕ) → size (decimal2 n) ≤ 21
unfolding decimal2
decimal2-size n =
    if_both (λ gs. size gs ≤ 21) (ltb n 10) (chars "0" ++ decimal n) (decimal n)
      (omega (arith, size-append (chars "0") (decimal n), decimal-size n))
      (omega (arith, decimal-size n))

-- What is formatted is short; half of the buffer is enough.
abbrev pub PutFits : Put → Type 0
PutFits (wrote gs) = Unit {0}
PutFits (printed gs) = size gs < 2048
PutFits (printed_line gs) = size gs < 2048
PutFits clean_line = Unit {0}

abbrev pub PutsFit : List Put → Type 0
PutsFit [] = Unit {0}
PutsFit (p ∷ ps) = PutFits p × PutsFit ps

abbrev pub StrokeFits : Stroke → Type 0
StrokeFits st = PutsFit st.puts

pub Fits-append : (a b : List Draw) → Fits a → Fits b → Fits (a ++ b)
Fits-append [] b ha hb = hb
Fits-append (write bytes ∷ a) b ha hb = Fits-append a b ha hb
Fits-append (print (some text) ∷ a) b ha hb = (ha.0, Fits-append a b ha.1 hb)
Fits-append (print none ∷ a) b ha hb = absurd ha
Fits-append (flush ∷ a) b ha hb = Fits-append a b ha hb

-- The sequence that moves the cursor fits wherever it goes.
pub gotoxy-Fits : (x y : ℕ) (ds : List Draw) → Fits ds → Fits (gotoxy x y ∷ ds)
unfolding gotoxy
gotoxy-Fits x y ds h =
    let a = chars "[" ++ decimal y in
    let b = a ++ chars ";" in
    let c = b ++ decimal x in
    (
      omega (
        arith,
        size-append c (chars "H"),
        size-append b (decimal x),
        size-append a (chars ";"),
        size-append (chars "[") (decimal y),
        decimal-size x,
        decimal-size y,
      ),
      h,
    )

puts-Fits : (ps : List Put) → PutsFit ps → Fits (map put_draw ps)
puts-Fits [] h = tt
puts-Fits (wrote gs ∷ ps) h = puts-Fits ps h.1
puts-Fits (printed gs ∷ ps) h = (omega (arith, h.0), puts-Fits ps h.1)
puts-Fits (printed_line gs ∷ ps) h =
    (omega (arith, h.0, length-append {0} (bytes_of gs) (b'\n' ∷ [])), puts-Fits ps h.1)
puts-Fits (clean_line ∷ ps) h = (omega arith, puts-Fits ps h.1)

pub draws-Fits : (sts : List Stroke) → All StrokeFits sts → Fits (draws sts)
unfolding draws stroke_draws
draws-Fits [] h = tt
draws-Fits (st ∷ sts) h =
    Fits-append (stroke_draws st) (draws sts)
      (gotoxy-Fits st.x st.y (map put_draw st.puts) (puts-Fits st.puts h.0)) (draws-Fits sts h.1)

-- Loops, over strokes and over characters that are written one by one.
pub each-fit :
    (left i : ℕ) (f : ℕ → List Stroke)
    → ((j : ℕ) → All StrokeFits (f j))
    → All StrokeFits (each_from left i f)
each-fit zero i f all = tt
each-fit (suc left) i f all =
    All-append StrokeFits (f i) (each_from left (i + 1) f) (all i) (each-fit left (i + 1) f all)

pub PutsFit-append : (a b : List Put) → PutsFit a → PutsFit b → PutsFit (a ++ b)
PutsFit-append [] b ha hb = hb
PutsFit-append (p ∷ a) b ha hb = (ha.0, PutsFit-append a b ha.1 hb)

pub puts_each-fit :
    (left i : ℕ) (f : ℕ → List Put) → ((j : ℕ) → PutsFit (f j)) → PutsFit (each_from left i f)
puts_each-fit zero i f all = tt
puts_each-fit (suc left) i f all =
    PutsFit-append (f i) (each_from left (i + 1) f) (all i) (puts_each-fit left (i + 1) f all)
