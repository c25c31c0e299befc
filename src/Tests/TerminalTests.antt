-- ===== src/Tests/TerminalTests.antt =====
-- user/tui.c: a run of the buffer, and an instance of the theorem.
use kxo.Prelude.{◌≡◌, refl, arith, List, [], ◌∷◌, some, false, replicate}
use kxo.Terminal.{Draw, write, print, flush, draw_all, fresh_outbuf, outbuf_flush}
use kxo.Terminal.Output.{IsOut, texts, draw_all-IsOut}

-- A text of three bytes, one of a thousand twice, and two more bytes.
abbrev calls : List Draw
calls =
    print (some (7 ∷ 8 ∷ 9 ∷ []))
    ∷ write (replicate 1000 1)
    ∷ write (replicate 1000 2)
    ∷ flush
    ∷ print (some (5 ∷ 6 ∷ []))
    ∷ []

short_calls :
    draw_all (print (some (7 ∷ [])) ∷ write (8 ∷ []) ∷ []) fresh_outbuf
    ≡ record { buf = 7 ∷ 8 ∷ []; disabled = false; shown = [] }
unfolding draw_all fresh_outbuf
short_calls = refl

draw_all-IsOut_example :
    IsOut (texts calls) (draw_all calls fresh_outbuf)
    × ((outbuf_flush (draw_all calls fresh_outbuf)).shown ≡ texts calls)
draw_all-IsOut_example = draw_all-IsOut calls (omega arith, (omega arith, tt))
