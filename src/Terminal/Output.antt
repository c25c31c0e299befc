-- ===== src/Terminal/Output.antt =====
-- user/tui.c: what reaches the terminal through the buffer.
use kxo.Prelude.{
  ℕ, ◌+◌, ◌-◌, ◌<◌, ◌≡◌, inl, inr, refl, sym, ap, ◌∙◌, arith, List, [], ◌∷◌, ◌++◌, false, none,
  some, length, Bool-cases, ltb, leb, if◌then◌else◌,
}
use mathlib.Core.Path.{subst}
use mathlib.Core.List.{append_assoc, append-nil}
use kxo.Terminal.{
  Outbuf, Draw, write, print, flush, outbuf_size, flush_threshold, safe_write, empty_out,
  empty_some, add_bytes, buffered_write, outbuf_write, outbuf_printf, outbuf_flush, draw, draw_all,
  fresh_outbuf,
}

-- The buffer holds less than the threshold, buffering is on, and with what has been shown it makes
-- up the text `all`.
pub record IsOut (all : List ℕ) (o : Outbuf) : Type 0 where
  pub below : length o.buf < flush_threshold
  pub buffered : o.disabled ≡ false
  pub stream : o.shown ++ o.buf ≡ all

empty_out-IsOut :
    (all : List ℕ) (o : Outbuf)
    → o.disabled ≡ false
    → o.shown ++ o.buf ≡ all
    → IsOut all (empty_out o)
unfolding empty_out safe_write
empty_out-IsOut all o on stream = record {
  below = omega arith;
  buffered = on;
  stream = append-nil (o.shown ++ o.buf) ∙ stream;
}

empty_some-IsOut :
    (all : List ℕ) (o : Outbuf)
    → IsOut all o
    → IsOut all (empty_some o) × (length (empty_some o).buf ≡ 0)
unfolding empty_some
empty_some-IsOut all o v = elim (Bool-cases (ltb 0 (length o.buf))) [
  | inl held ↦ rw held (empty_out-IsOut all o v.buffered v.stream, emptied o)
  | inr none_held ↦ rw none_held (v, ground (arith, none_held))
]
  where
    emptied : (o : Outbuf) → length (empty_out o).buf ≡ 0
    emptied o = refl

add_bytes-IsOut :
    (all bytes : List ℕ) (o : Outbuf) → IsOut all o → IsOut (all ++ bytes) (add_bytes bytes o)
unfolding add_bytes
add_bytes-IsOut all bytes o v =
    let stream : o.shown ++ (o.buf ++ bytes) ≡ all ++ bytes =
      sym (append_assoc o.shown o.buf bytes) ∙ ap (λ t. t ++ bytes) v.stream in
    elim (Bool-cases (leb flush_threshold (length (o.buf ++ bytes)))) [
      | inl full ↦
          rw full
            (empty_out-IsOut (all ++ bytes) (record o { buf = o.buf ++ bytes }) v.buffered stream)
      | inr room ↦
          rw room (record { below = ground (arith, room); buffered = v.buffered; stream = stream })
    ]

no_bytes : (buf : List ℕ) → length buf ≡ 0 → buf ≡ []
no_bytes [] e = refl
no_bytes (x ∷ buf) e = absurd (omega (arith, e))

-- Bytes that go past an empty buffer.
safe_write-IsOut :
    (all bytes : List ℕ) (o : Outbuf)
    → IsOut all o
    → length o.buf ≡ 0
    → IsOut (all ++ bytes) (safe_write bytes o)
unfolding safe_write
safe_write-IsOut all bytes o v e =
    let empty = no_bytes o.buf e in
    let shown : o.shown ≡ all =
      sym (append-nil o.shown) ∙ ap (λ t. o.shown ++ t) (sym empty) ∙ v.stream in
    record {
      below = v.below;
      buffered = v.buffered;
      stream =
          ap (λ t. (o.shown ++ bytes) ++ t) empty
          ∙ append-nil (o.shown ++ bytes)
          ∙ ap (λ t. t ++ bytes) shown;
    }

buffered_write-IsOut :
    (all bytes : List ℕ) (o : Outbuf) → IsOut all o → IsOut (all ++ bytes) (buffered_write bytes o)
unfolding buffered_write
buffered_write-IsOut all bytes o v = elim (Bool-cases (leb outbuf_size (length bytes))) [
  | inl large ↦
      let (v', e) = empty_some-IsOut all o v in
      rw large (safe_write-IsOut all bytes (empty_some o) v' e)
  | inr small ↦ elim (Bool-cases (ltb outbuf_size (length o.buf + length bytes))) [
    | inl over ↦
        rw (small, over)
          (add_bytes-IsOut all bytes (empty_out o) (empty_out-IsOut all o v.buffered v.stream))
    | inr fits ↦ rw (small, fits) (add_bytes-IsOut all bytes o v)
  ]
]

write-IsOut :
    (all bytes : List ℕ) (o : Outbuf) → IsOut all o → IsOut (all ++ bytes) (outbuf_write bytes o)
unfolding outbuf_write
write-IsOut all bytes o v =
    subst (λ off. IsOut (all ++ bytes) (if off then safe_write bytes o else buffered_write bytes o))
      (sym v.buffered) (buffered_write-IsOut all bytes o v)

print-IsOut :
    (all text : List ℕ) (o : Outbuf)
    → length text < outbuf_size
    → IsOut all o
    → IsOut (all ++ text) (outbuf_printf (some text) o)
unfolding outbuf_printf
print-IsOut all text o short v =
    let fits : leb outbuf_size (length text) ≡ false = ground (arith, short) in
    elim (Bool-cases (leb (outbuf_size - length o.buf) (length text))) [
      | inl over ↦
          rw (over, fits) (add_bytes-IsOut all text (empty_some o) (empty_some-IsOut all o v).0)
      | inr room ↦ rw room (add_bytes-IsOut all text o v)
    ]

flush-IsOut :
    (all : List ℕ) (o : Outbuf)
    → IsOut all o
    → IsOut all (outbuf_flush o) × ((outbuf_flush o).shown ≡ all)
unfolding outbuf_flush
flush-IsOut all o v =
    let (v', e) = empty_some-IsOut all o v in
    (
      v',
      sym (append-nil (empty_some o).shown)
          ∙ ap (λ t. (empty_some o).shown ++ t) (sym (no_bytes (empty_some o).buf e))
          ∙ v'.stream,
    )

-- The texts of the calls, one after the other.
abbrev pub texts : List Draw → List ℕ
texts [] = []
texts (write bytes ∷ ds) = bytes ++ texts ds
texts (print (some text) ∷ ds) = text ++ texts ds
texts (print none ∷ ds) = texts ds
texts (flush ∷ ds) = texts ds

-- Each text that is formatted is made, and fits in the buffer.
abbrev pub Fits : List Draw → Type 0
Fits [] = Unit {0}
Fits (write bytes ∷ ds) = Fits ds
Fits (print (some text) ∷ ds) = (length text < outbuf_size) × Fits ds
Fits (print none ∷ ds) = ⊥
Fits (flush ∷ ds) = Fits ds

draw_on-IsOut :
    (ds : List Draw) (all : List ℕ) (o : Outbuf)
    → Fits ds
    → IsOut all o
    → IsOut (all ++ texts ds) (draw_all ds o)
unfolding draw_all draw
draw_on-IsOut [] all o fits v = rw (append-nil) v
draw_on-IsOut (write bytes ∷ ds) all o fits v =
    rw (← append_assoc all bytes (texts ds))
      (draw_on-IsOut ds (all ++ bytes) (outbuf_write bytes o) fits (write-IsOut all bytes o v))
draw_on-IsOut (print (some text) ∷ ds) all o fits v = rw (← append_assoc all text (texts ds)) (
    draw_on-IsOut ds (all ++ text) (outbuf_printf (some text) o) fits.1
      (print-IsOut all text o fits.0 v))
draw_on-IsOut (print none ∷ ds) all o fits v = absurd fits
draw_on-IsOut (flush ∷ ds) all o fits v =
    draw_on-IsOut ds all (outbuf_flush o) fits (flush-IsOut all o v).0

-- After any calls of `outbuf_write`, `outbuf_printf` and `outbuf_flush` on a fresh buffer, where each
-- format succeeds with a text shorter than the buffer, the buffer is below its threshold, what
-- has been written with what is buffered is the texts of the calls in their order, and a further
-- `outbuf_flush` writes all of it.
pub draw_all-IsOut :
    (ds : List Draw)
    → Fits ds
    → IsOut (texts ds) (draw_all ds fresh_outbuf)
      × ((outbuf_flush (draw_all ds fresh_outbuf)).shown ≡ texts ds)
unfolding fresh_outbuf
draw_all-IsOut ds fits =
    let v =
      draw_on-IsOut ds [] fresh_outbuf fits
        (record { below = omega arith; buffered = refl; stream = refl }) in
    (v, (flush-IsOut (texts ds) (draw_all ds fresh_outbuf) v).1)
