-- ===== src/Coro/Channel.antt =====
-- user/coro.c: a channel as the list of the messages in it, first the next to receive.
use kxo.Prelude.{
  ℕ, zero, suc, ◌+◌, ◌-◌, ◌%◌, ◌<◌, ◌≤◌, ◌≡◌, ◌≢◌, refl, sym, ap, ◌∙◌, arith, List, [], ◌∷◌, ◌++◌,
  some, length, length-append, set, get_elem?, get_or, get_elem?-set_self, get_elem?-set_ne,
  length-set, length-replicate,
}
use native.Mathlib.Nat.{mod-eq_of_lt, mod-eq-sub-mod, mod-add-mod, mod-lt}
use mathlib.Core.Option.{some-injective}
use native.Mathlib.Decide.{dec_lt}
use kxo.Coro.{CoChan, World, chan_send, chan_recv, co_chan_make}

-- The messages in the buffer from the index `h` on, going round at `cap`.
abbrev pub InBuf : List ℕ → ℕ → ℕ → List ℕ → Type 0
InBuf buf cap h [] = Unit {0}
InBuf buf cap h (x ∷ xs) = (get_elem? buf h ≡ some x) × InBuf buf cap ((h + 1) % cap) xs

-- The channel holds the messages `xs`.
pub record IsChan (ch : CoChan) (xs : List ℕ) : Type 0 where
  pub counted : ch.count ≡ length xs
  pub fits : length xs ≤ ch.cap
  pub some_cap : 0 < ch.cap
  pub size : length ch.buf ≡ ch.cap
  pub head_lt : ch.head < ch.cap
  pub tail_is : ch.tail ≡ (ch.head + length xs) % ch.cap
  pub held : InBuf ch.buf ch.cap ch.head xs

-- An index that has gone round the ring once.
gone_round : (n cap : ℕ) → cap ≤ n → n < cap + cap → n % cap ≡ n - cap
gone_round n cap le lt = mod-eq-sub-mod {n = n} {m = cap} le ∙ mod-eq_of_lt (omega arith)

-- The place behind the messages is not the first one's.
behind_ne : (h t cap : ℕ) → h < t → t < h + cap → h < cap → t % cap ≢ h
behind_ne h t cap after before inside e = elim (dec_lt t cap) [
  | yes low ↦ let same = mod-eq_of_lt low in absurd (omega arith)
  | no high ↦ let round = gone_round t cap (omega arith) (omega arith) in absurd (omega arith)
]

-- A message that is written behind the others joins them.
InBuf-set :
    (buf : List ℕ) (cap h t x : ℕ) (xs : List ℕ)
    → length buf ≡ cap
    → h < cap
    → length xs < cap
    → t ≡ (h + length xs) % cap
    → InBuf buf cap h xs
    → InBuf (set buf t x) cap h (xs ++ x ∷ [])
InBuf-set buf cap h t x [] size hh fits e held =
    let here : t ≡ h = e ∙ ap (λ n. n % cap) (omega arith) ∙ mod-eq_of_lt hh in
    (rw here (get_elem?-set_self buf h x (omega arith)), tt)
InBuf-set buf cap h t x (y ∷ ys) size hh fits e held = (
  get_elem?-set_ne buf x (λ (f : t ≡ h).
        behind_ne h (h + suc (length ys)) cap (omega arith) (omega arith) hh (sym e ∙ f))
      ∙ held.0,
  InBuf-set buf cap ((h + 1) % cap) t x ys size (mod-lt (h + 1) (omega arith)) (omega arith)
      (e ∙ later) held.1,
)
  where
    later : (h + suc (length ys)) % cap ≡ ((h + 1) % cap + length ys) % cap
    later = sym (mod-add-mod (h + 1) cap (length ys) ∙ ap (λ n. n % cap) (omega arith))

-- What `co_chan_send` and `co_chan_recv` do to a channel, whoever waits at it: a send into a channel
-- with room puts its message behind the others, and the channel still holds no more than its
-- capacity.
pub chan_send-IsChan :
    (x : ℕ) (xs : List ℕ) (w : World)
    → IsChan w.chan xs
    → w.chan.count < w.chan.cap
    → IsChan (chan_send x w).chan (xs ++ x ∷ [])
unfolding chan_send
chan_send-IsChan x xs w v room =
    let ch = w.chan in
    let grown = length-append xs (x ∷ []) in
    record {
      counted = omega (arith, v.counted, grown);
      fits = omega (arith, v.counted, grown, room);
      some_cap = v.some_cap;
      size = length-set ch.buf ch.tail x ∙ v.size;
      head_lt = v.head_lt;
      tail_is =
          ap (λ t. (t + 1) % ch.cap) v.tail_is
          ∙ mod-add-mod (ch.head + length xs) ch.cap 1
          ∙ ap (λ n. n % ch.cap) (omega (arith, grown));
      held =
          InBuf-set ch.buf ch.cap ch.head ch.tail x xs v.size v.head_lt
            (omega (arith, v.counted, room)) v.tail_is v.held;
    }

-- A receive from a channel that holds a message hands out the first and leaves the others.
pub chan_recv-IsChan :
    (x : ℕ) (xs : List ℕ) (w : World)
    → IsChan w.chan (x ∷ xs)
    → IsChan (chan_recv w).chan xs × ((chan_recv w).received ≡ w.received ++ x ∷ [])
unfolding chan_recv
chan_recv-IsChan x xs w v =
    let ch = w.chan in
    (
      record {
        counted = omega (arith, v.counted);
        fits = omega (arith, v.fits);
        some_cap = v.some_cap;
        size = v.size;
        head_lt = mod-lt (ch.head + 1) v.some_cap;
        tail_is =
            v.tail_is
            ∙ sym
                (mod-add-mod (ch.head + 1) ch.cap (length xs) ∙ ap (λ n. n % ch.cap) (omega arith));
        held = v.held.1;
      },
      ap (λ y. w.received ++ y ∷ []) (get_or-get_elem? ch.buf ch.head x v.held.0),
    )
  where
    get_or-get_elem? : (xs : List ℕ) (i x : ℕ) → get_elem? xs i ≡ some x → get_or xs i 0 ≡ x
    get_or-get_elem? [] i x e = absurd (ground (arith, e))
    get_or-get_elem? (y ∷ ys) zero x e = some-injective _ _ e
    get_or-get_elem? (y ∷ ys) (suc i) x e = get_or-get_elem? ys i x e

pub co_chan_make-IsChan : (cap : ℕ) → 0 < cap → IsChan (co_chan_make cap) []
unfolding co_chan_make
co_chan_make-IsChan cap h = record {
  counted = refl;
  fits = omega arith;
  some_cap = h;
  size = length-replicate cap 0;
  head_lt = h;
  tail_is = sym (mod-eq_of_lt h);
  held = tt;
}
