-- ===== src/Engine/Move/Keeps.antt =====
-- src/main.c: the invariant of one game, and the move of a worker.
use kxo.Prelude.{
  ℕ, zero, suc, ◌+◌, ◌%◌, ◌^◌, ◌<◌, ◌≤◌, ◌≡◌, ◌≢◌, refl, sym, ◌∙◌, arith, length, ◌==◌,
  if◌then◌else◌, some,
}
use native.Mathlib.Nat.{le_refl}
use native.Mathlib.Numerals.{add-one}
use kxo.Board.{
  cell_o, cell_x, cell_empty, val_set_cell, set_record_cell, get_record_cell, xo_attr_id,
  xo_attr_steps, xo_attr_ai_alg, xo_set_attr_steps, table_get_cell, empty_grids,
}
use kxo.Board.Fields.{
  get_cell-set_cell, val_set_cell-lt, set_attr_steps_lem, set_record_cell-lt, get_record-set_record,
}
use kxo.Board.Win.Correct.{IsBoard}
use kxo.Board.Moves.Count.{length-empty_grids-set}
use kxo.Engine.{AiGame, AiGameState}
use kxo.Engine.Move.{Side, one, two, player, other_turn, apply_move}

-- Who makes the move number `n`, counted from 0.
abbrev pub mover : ℕ → ℕ
mover n = if n % 2 == 0 then cell_o else cell_x

abbrev pub turn_at : ℕ → ℕ
turn_at n = if n % 2 == 0 then b'O' else b'X'

-- The board after the first `n` moves of a record, made by O and X in turn.
abbrev pub replay : ℕ → ℕ → ℕ
replay zero moves = 0
replay (suc n) moves = val_set_cell (replay n moves) (get_record_cell moves n) (mover n)

-- The game at index `i`: its words are in range, its id is its index, the step count is the number
-- of cells taken, the turn is that of the step count, and the record of moves replays to the board.
pub record IsGame (i : ℕ) (g : AiGame) : Type 0 where
  pub attr_word : g.xo_tlb.attr < 2 ^ 32
  pub moves_word : g.xo_tlb.moves < 2 ^ 64
  pub board : IsBoard g.xo_tlb.table
  pub id_is : xo_attr_id g.xo_tlb.attr ≡ i
  pub counted : length (empty_grids g.xo_tlb.table) + xo_attr_steps g.xo_tlb.attr ≡ 16
  pub turn_is : g.turn ≡ turn_at (xo_attr_steps g.xo_tlb.attr)
  pub replayed : g.xo_tlb.table ≡ replay (xo_attr_steps g.xo_tlb.attr) g.xo_tlb.moves

-- Later entries of the record do not change what the earlier ones replay to.
replay-set_record :
    (n k moves cell : ℕ)
    → moves < 2 ^ 64
    → cell < 16
    → k ≤ n
    → n < 16
    → replay k (set_record_cell moves cell n) ≡ replay k moves
replay-set_record n zero moves cell hm hc h hn = refl
replay-set_record n (suc k) moves cell hm hc h hn =
    let before = replay-set_record n k moves cell hm hc (omega arith) hn in
    let entry : get_record_cell (set_record_cell moves cell n) k ≡ get_record_cell moves k =
      ground (arith, get_record-set_record moves cell n k hm hc hn) in
    rw (before, entry)

abbrev pub side_turn : Side → ℕ
side_turn one = b'O'
side_turn two = b'X'

pub set_cell-IsBoard : (t m c : ℕ) → IsBoard t → m < 16 → c < 3 → IsBoard (val_set_cell t m c)
set_cell-IsBoard t m c v hm hc = record {
  word = val_set_cell-lt t m c v.word;
  cells = λ p hp. ground (arith, get_cell-set_cell t m p c v.word hm hp, v.cells p hp);
}

side_mover : (side : Side) (n : ℕ) → side_turn side ≡ turn_at n → player side ≡ mover n
side_mover one n e = ground arith
side_mover two n e = ground arith

side_next : (side : Side) (n : ℕ) → side_turn side ≡ turn_at n → other_turn side ≡ turn_at (n + 1)
side_next one n e = ground arith
side_next two n e = ground arith

player_lt : (side : Side) → player side < 3
player_lt one = omega arith
player_lt two = omega arith

player-ne : (side : Side) → player side ≢ 0
player-ne one = omega arith
player-ne two = omega arith

module _ (side : Side) (i : ℕ) (g : AiGame) (v : IsGame i g) (turn : g.turn ≡ side_turn side)
    (m : ℕ) (hm : m < 16) (free : table_get_cell g.xo_tlb.table m ≡ cell_empty) where
  abbrev steps : ℕ
  steps = xo_attr_steps g.xo_tlb.attr

  abbrev moved : AiGame
  moved = apply_move side (record { attr = g.xo_tlb.attr; table = g.xo_tlb.table }) (some m) g

  cells :
      length (empty_grids (val_set_cell g.xo_tlb.table m (player side))) + 1
      ≡ length (empty_grids g.xo_tlb.table)
  cells =
      length-empty_grids-set g.xo_tlb.table m (player side) v.board.word hm
        (omega (arith, player_lt side)) (player-ne side) free

  steps-lt : steps < 16
  steps-lt = omega (arith, cells, v.counted)

  attr_after :
      let attr' = xo_set_attr_steps g.xo_tlb.attr (steps + 1) in
      (xo_attr_steps attr' ≡ steps + 1)
      × (xo_attr_id attr' ≡ xo_attr_id g.xo_tlb.attr)
      × (xo_attr_ai_alg attr' ≡ xo_attr_ai_alg g.xo_tlb.attr)
      × (attr' < 2 ^ 32)
  attr_after = set_attr_steps_lem g.xo_tlb.attr (steps + 1) v.attr_word (omega (arith, steps-lt))

  replay_after :
      val_set_cell g.xo_tlb.table m (player side)
      ≡ replay (steps + 1) (set_record_cell g.xo_tlb.moves m steps)
  replay_after =
      let e = sym turn ∙ v.turn_is in
      let earlier =
        replay-set_record steps steps g.xo_tlb.moves m v.moves_word hm (le_refl steps) steps-lt in
      let entry : get_record_cell (set_record_cell g.xo_tlb.moves m steps) steps ≡ m = ground (
        arith,
        get_record-set_record g.xo_tlb.moves m steps steps v.moves_word hm steps-lt steps-lt,
      ) in
      rw (add-one, earlier, entry, ← v.replayed, side_mover side steps e)

  -- A move of the side whose turn it is, to a free cell of the board that it read, keeps the
  -- invariant of the game: one more step, one more cell taken, the other's turn, and a record of
  -- moves that replays to the new board.
  pub apply_move-IsGame : IsGame i moved
  unfolding apply_move
  apply_move-IsGame = record {
    attr_word = attr_after.3;
    moves_word = set_record_cell-lt g.xo_tlb.moves m steps v.moves_word;
    board = set_cell-IsBoard g.xo_tlb.table m (player side) v.board hm (player_lt side);
    id_is = attr_after.1 ∙ v.id_is;
    counted = omega (arith, cells, attr_after.0, v.counted);
    turn_is = rw attr_after.0 (side_next side steps (sym turn ∙ v.turn_is));
    replayed = rw attr_after.0 replay_after;
  }

-- The state of a game is no part of its invariant.
pub set_state-IsGame :
    (i : ℕ) (g : AiGame) (st : AiGameState) → IsGame i g → IsGame i (record g { state = st })
set_state-IsGame i g st v = record {
  attr_word = v.attr_word;
  moves_word = v.moves_word;
  board = v.board;
  id_is = v.id_is;
  counted = v.counted;
  turn_is = v.turn_is;
  replayed = v.replayed;
}
