-- ===== src/Random.antt =====
-- src/xoroshiro.c: the random numbers of the MCTS agent.
pub mod Rotate
pub mod Laws
use kxo.Prelude.{ℕ, zero, suc, ◌+◌, ◌-◌, ◌*◌, ◌%◌, ◌/◌, ◌^◌, List, [], ◌∷◌}
use kxo.Prelude.{◌==◌, if◌then◌else◌, bit_xor, bit_or, bit_and}
use kxo.Board.{u64}

-- `struct state_array`.
pub record StateArray : Type 0 where
  pub s0 : ℕ
  pub s1 : ℕ

unfoldable pub rotl : ℕ → ℕ → ℕ
rotl x k = bit_or (u64 (x * 2 ^ k)) (x / 2 ^ (64 - k))

-- The state that `xoro_next` leaves.
unfoldable pub next_state : StateArray → StateArray
unfolding rotl
next_state obj =
    let s1 = bit_xor obj.s1 obj.s0 in
    record { s0 = bit_xor (bit_xor (rotl obj.s0 24) s1) (u64 (s1 * 2 ^ 16)); s1 = rotl s1 37 }

-- `xoro_next`: the number and the state that it leaves.
unfoldable pub xoro_next : StateArray → ℕ × StateArray
unfolding rotl next_state
xoro_next obj = (u64 (rotl (u64 (obj.s0 + obj.s1)) 24 + obj.s0), next_state obj)

abbrev pub jump_words : List ℕ
jump_words = 0xdf900294d8f554a5 ∷ 0x170865df4b3201fc ∷ []

-- The loop over `b` with `left` rounds to come: the sums `s0` and `s1`, and the state.
unfoldable pub jump_bits : ℕ → ℕ → ℕ → StateArray × StateArray → StateArray × StateArray
unfolding xoro_next
jump_bits zero b word acc = acc
jump_bits (suc left) b word (sum, obj) =
    let sum' =
      if bit_and word (u64 (1 * 2 ^ b)) == 0
      then sum
      else record { s0 = bit_xor sum.s0 obj.s0; s1 = bit_xor sum.s1 obj.s1 } in
    jump_bits left (b + 1) word (sum', (xoro_next obj).1)

-- The loop over the words of JUMP.
unfoldable pub jump_loop : List ℕ → StateArray × StateArray → StateArray × StateArray
unfolding jump_bits
jump_loop [] acc = acc
jump_loop (word ∷ rest) acc = jump_loop rest (jump_bits 64 0 word acc)

unfoldable pub xoro_jump : StateArray → StateArray
unfolding jump_loop
xoro_jump obj = (jump_loop jump_words (record { s0 = 0; s1 = 0 }, obj)).0

unfoldable pub xoro_init : StateArray
xoro_init = record { s0 = 314159265; s1 = 1618033989 }
