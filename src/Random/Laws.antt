-- ===== src/Random/Laws.antt =====
-- src/xoroshiro.c: the states of the generator.
use kxo.Prelude.{ℕ, zero, suc, ◌<◌, ◌≡◌, ◌≢◌, ◌^◌, ◌*◌, refl, arith, bit_xor, ap, sym, ◌∙◌}
use kxo.Prelude.Bits.{xor_undo, xor-lt}
use kxo.Board.{u64}
use kxo.Random.{StateArray, rotl, next_state, xoro_next}
use kxo.Random.Rotate.{rotl-lt, rotl_undo}

pub record IsState (obj : StateArray) : Type 0 where
  pub word0 : obj.s0 < 2 ^ 64
  pub word1 : obj.s1 < 2 ^ 64

-- The state before, from the state after.
unfoldable prev_state : StateArray → StateArray
unfolding rotl
prev_state obj =
    let s1 = rotl obj.s1 27 in
    let s0 = rotl (bit_xor (bit_xor obj.s0 (u64 (s1 * 2 ^ 16))) s1) 40 in
    record { s0 = s0; s1 = bit_xor s1 s0 }

prev-next : (obj : StateArray) → IsState obj → prev_state (next_state obj) ≡ obj
unfolding prev_state next_state
prev-next obj v =
    let s1 = bit_xor obj.s1 obj.s0 in
    let e1 : rotl (rotl s1 37) 27 ≡ s1 =
      rotl_undo s1 37 (xor-lt 64 obj.s1 obj.s0 v.word1 v.word0) (omega arith) in
    let e2 = xor_undo (bit_xor (rotl obj.s0 24) s1) (u64 (s1 * 2 ^ 16)) in
    let e3 = xor_undo (rotl obj.s0 24) s1 in
    let e4 : rotl (rotl obj.s0 24) 40 ≡ obj.s0 = rotl_undo obj.s0 24 v.word0 (omega arith) in
    rw (e1, e2, e3, e4, xor_undo obj.s1 obj.s0) refl

pub next-IsState : (obj : StateArray) → IsState obj → IsState (xoro_next obj).1
unfolding xoro_next next_state
next-IsState obj v =
    let s1 = bit_xor obj.s1 obj.s0 in
    let h : s1 < 2 ^ 64 = xor-lt 64 obj.s1 obj.s0 v.word1 v.word0 in
    record {
      word0 =
          xor-lt 64 (bit_xor (rotl obj.s0 24) s1) (u64 (s1 * 2 ^ 16))
            (xor-lt 64 (rotl obj.s0 24) s1 (rotl-lt obj.s0 24 v.word0) h) (omega arith);
      word1 = rotl-lt s1 37 h;
    }

-- Two states of two words in range that `xoro_next` takes to the same state are the same.
pub xoro_next-injective :
    (x y : StateArray) → IsState x → IsState y → (xoro_next x).1 ≡ (xoro_next y).1 → x ≡ y
unfolding xoro_next
xoro_next-injective x y v w e = sym (prev-next x v) ∙ ap prev_state e ∙ prev-next y w

-- The state after a number of calls.
abbrev pub after_calls : ℕ → StateArray → StateArray
after_calls zero obj = obj
after_calls (suc n) obj = (xoro_next (after_calls n obj)).1

abbrev pub stuck : StateArray
stuck = record { s0 = 0; s1 = 0 }

after_calls-IsState : (n : ℕ) (obj : StateArray) → IsState obj → IsState (after_calls n obj)
after_calls-IsState zero obj v = v
after_calls-IsState (suc n) obj v = next-IsState (after_calls n obj) (after_calls-IsState n obj v)

stuck-IsState : IsState stuck
stuck-IsState = record { word0 = omega arith; word1 = omega arith }

next-stuck : (xoro_next stuck).1 ≡ stuck
unfolding xoro_next
next-stuck = refl

-- After any number of calls of `xoro_next` from a state in range that is not all zero, the state is
-- in range and not all zero.
pub after_calls-ne :
    (n : ℕ) (obj : StateArray)
    → IsState obj
    → obj ≢ stuck
    → IsState (after_calls n obj) × (after_calls n obj ≢ stuck)
after_calls-ne zero obj v ne = (v, ne)
after_calls-ne (suc n) obj v ne =
    let before = after_calls-ne n obj v ne in
    (
      next-IsState (after_calls n obj) before.0,
      λ e. before.1 (
          xoro_next-injective (after_calls n obj) stuck before.0 stuck-IsState
            (e ∙ sym next-stuck)),
    )
