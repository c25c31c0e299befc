-- ===== src/Terminal.antt =====
-- user/tui.c: the buffer between the drawing and the terminal. What has gone to `write` is kept as
-- `shown`, and `write` is taken to accept all it is given; the source ignores its result.
pub mod Output
pub mod Strokes
pub mod Boards
pub mod Tabs
pub mod Grid
pub mod Screen
pub mod Startup
pub mod Sized
use kxo.Prelude.{
  ℕ, ◌+◌, ◌-◌, List, [], ◌∷◌, ◌++◌, Bool, true, false, Option, none, some, length, if◌then◌else◌,
  ltb, leb,
}

abbrev pub outbuf_size : ℕ
outbuf_size = 4096

abbrev pub flush_threshold : ℕ
flush_threshold = 2048

-- `outbuf`, where `buf` is its first `len` bytes.
pub record Outbuf : Type 0 where
  pub buf : List ℕ
  pub disabled : Bool
  pub shown : List ℕ

unfoldable pub safe_write : List ℕ → Outbuf → Outbuf
safe_write bytes o = record o { shown = o.shown ++ bytes }

-- `safe_write` of the buffer, and `len = 0`.
unfoldable pub empty_out : Outbuf → Outbuf
unfolding safe_write
empty_out o = record (safe_write o.buf o) { buf = [] }

-- Where that is under `if (outbuf.len > 0)`.
unfoldable pub empty_some : Outbuf → Outbuf
unfolding empty_out
empty_some o = if ltb 0 (length o.buf) then empty_out o else o

-- The end of `outbuf_write` and of `outbuf_printf`: bytes that fit join the buffer.
unfoldable pub add_bytes : List ℕ → Outbuf → Outbuf
unfolding empty_out
add_bytes bytes o =
    let o' = record o { buf = o.buf ++ bytes } in
    if leb flush_threshold (length o'.buf) then empty_out o' else o'

-- `outbuf_write` with buffering on.
unfoldable pub buffered_write : List ℕ → Outbuf → Outbuf
unfolding safe_write empty_out empty_some add_bytes
buffered_write bytes o =
    if leb outbuf_size (length bytes)
    then safe_write bytes (empty_some o)
    else (if ltb outbuf_size (length o.buf + length bytes)
        then add_bytes bytes (empty_out o)
        else add_bytes bytes o)

unfoldable pub outbuf_write : List ℕ → Outbuf → Outbuf
unfolding safe_write buffered_write
outbuf_write bytes o = if o.disabled then safe_write bytes o else buffered_write bytes o

abbrev pub disable : Outbuf → Outbuf
disable o = record o { disabled = true }

-- `outbuf_printf` of a text, where `text` is what `vsnprintf` makes of the format, `none` when it
-- fails. It tells the length of the text, and stores it when that and a 0 fit.
unfoldable pub outbuf_printf : Option (List ℕ) → Outbuf → Outbuf
unfolding empty_some add_bytes
outbuf_printf none o = disable o
outbuf_printf (some text) o =
    let remaining = outbuf_size - length o.buf in
    if leb remaining (length text)
    then (let o' = empty_some o in
        if leb outbuf_size (length text) then disable o' else add_bytes text o')
    else add_bytes text o

unfoldable pub outbuf_flush : Outbuf → Outbuf
unfolding empty_some
outbuf_flush o = empty_some o

-- What the drawing functions do with the buffer.
pub data Draw : Type 0 where
  write : List ℕ → Draw
  print : Option (List ℕ) → Draw
  flush : Draw

unfoldable pub draw : Draw → Outbuf → Outbuf
unfolding outbuf_write outbuf_printf outbuf_flush
draw (write bytes) o = outbuf_write bytes o
draw (print text) o = outbuf_printf text o
draw flush o = outbuf_flush o

unfoldable pub draw_all : List Draw → Outbuf → Outbuf
unfolding draw
draw_all [] o = o
draw_all (d ∷ ds) o = draw_all ds (draw d o)

unfoldable pub fresh_outbuf : Outbuf
fresh_outbuf = record { buf = []; disabled = false; shown = [] }
