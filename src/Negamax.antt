-- ===== src/Negamax.antt =====
-- src/negamax.c: the search of the negamax agent. `sort` of the kernel, the keys of the positions and
-- the memory for entries of the cache are parameters. Scores and sums stay far inside `int`, so
-- they are integers here.
pub mod Scores
pub mod Answer
use kxo.Prelude.{
  ℕ, zero, suc, ◌+◌, ◌-◌, ◌*◌, ◌/◌, List, [], ◌∷◌, Bool, true, false, Option, none, some,
}
use kxo.Prelude.{◌==◌, if◌then◌else◌, not, ◌&&◌, get_or, modify, take, replicate, bit_xor}
use kxo.Prelude.Int.{ℤ, pos, negsuc, pos_part, ◌+ℤ◌, ◌-ℤ◌, ltb_ℤ}
use kxo.Board.{n_grids, cell_empty, cell_o, cell_x, val_set_cell}
use kxo.Board.Win.{check_win}
use kxo.Board.Moves.{available_moves, count_moves}
use kxo.Score.{get_score}
use kxo.Zobrist.{HashTable, zobrist_get, zobrist_put, zobrist_clear, zobrist_init}

abbrev pub max_search_depth : ℕ
max_search_depth = 6

-- `move_t`.
pub record MoveT : Type 0 where
  pub score : ℤ
  pub move : ℤ

-- The variables of negamax.c, and the cache.
pub record Search : Type 0 where
  pub history_score_sum : List ℤ
  pub history_count : List ℕ
  pub hash_value : ℕ
  pub cache : HashTable

-- What negamax.c calls: `sort` with its comparison on an array of moves, `zobrist_table`, and
-- whether `kmalloc` gives memory for the next entry.
pub record Calls : Type 0 where
  pub sort : (ℤ → ℤ → ℤ) → List ℤ → List ℤ
  pub zobrist_table : ℕ → Bool → ℕ
  pub granted : Search → Bool

abbrev pub minus : ℤ → ℤ
minus a = pos 0 -ℤ a

-- Division of an `int` by a positive one, which rounds towards 0.
unfoldable pub div_int : ℤ → ℕ → ℤ
unfolding ◌-ℤ◌
div_int (pos n) d = pos (n / d)
div_int (negsuc n) d = pos 0 -ℤ pos (suc n / d)

-- The average score of a move, 0 for a move without history.
unfoldable pub history : Search → ℤ → ℤ
unfolding div_int
history s move =
    let count = get_or s.history_count (pos_part move) 0 in
    if count == 0 then pos 0 else div_int (get_or s.history_score_sum (pos_part move) (pos 0)) count

unfoldable pub cmp_moves : Search → ℤ → ℤ → ℤ
unfolding history ◌-ℤ◌
cmp_moves s a b = history s b -ℤ history s a

abbrev pub opponent : ℕ → ℕ
opponent player = bit_xor (bit_xor player cell_o) cell_x

-- A search of the next depth: of a board, for a player, between two bounds.
abbrev pub Go : Type 0
Go = ℕ → ℕ → ℤ → ℤ → Search → MoveT × Search

-- The full search of the first move, and for the others the search with a window of one, repeated
-- when it falls between the bounds. The score is that of the player who moved.
unfoldable pub search_child : Go → Bool → ℕ → ℕ → ℤ → ℤ → Search → ℤ × Search
unfolding ◌-ℤ◌
search_child go first table player alpha beta s =
    let (full, s_full) = go table player (minus beta) (minus alpha) s in
    let (narrow, s_narrow) = go table player (minus alpha -ℤ pos 1) (minus alpha) s in
    let score = minus narrow.score in
    let (wide, s_wide) = go table player (minus beta) (minus score) s_narrow in
    if first
    then (minus full.score, s_full)
    else (if ltb_ℤ alpha score && ltb_ℤ score beta
        then (minus wide.score, s_wide)
        else (score, s_narrow))

-- `hash_value ^= zobrist_table[cell][player == CELL_X]`.
unfoldable pub toggle : Calls → ℕ → ℕ → Search → Search
toggle calls cell player s = record s {
  hash_value = bit_xor s.hash_value (calls.zobrist_table cell (player == cell_x));
}

unfoldable pub note_score : ℕ → ℤ → Search → Search
unfolding ◌+ℤ◌
note_score cell score s = record s {
  history_count = modify s.history_count cell (λ n. n + 1);
  history_score_sum = modify s.history_score_sum cell (λ sum. sum +ℤ score);
}

-- One round of the loop over the moves, up to the history and the second change of the hash value.
unfoldable pub try_move : Calls → Go → Bool → ℤ → ℕ → ℕ → ℤ → ℤ → Search → ℤ × Search
unfolding search_child toggle note_score val_set_cell
try_move calls go first move table player alpha beta s =
    let cell = pos_part move in
    let (score, s') =
      search_child go first (val_set_cell table cell player) (opponent player) alpha beta
        (toggle calls cell player s) in
    (score, toggle calls cell player (note_score cell score s'))

-- The loop. The board of the next round is the one with the cell set and emptied again.
unfoldable pub try_moves :
    Calls → Go → Bool → List ℤ → ℕ → ℕ → ℤ → ℤ → MoveT → Search → MoveT × Search
unfolding try_move val_set_cell
try_moves calls go first [] table player alpha beta best s = (best, s)
try_moves calls go first (move ∷ rest) table player alpha beta best s =
    let (score, s') = try_move calls go first move table player alpha beta s in
    let best' = if ltb_ℤ best.score score then record { score = score; move = move } else best in
    let table' =
      val_set_cell (val_set_cell table (pos_part move) player) (pos_part move) cell_empty in
    let alpha' = if ltb_ℤ alpha score then score else alpha in
    let later = try_moves calls go false rest table' player alpha' beta best' s' in
    if ltb_ℤ alpha' beta then later else (best', s')

-- The moves in the order of the history.
unfoldable pub ordered_moves : Calls → ℕ → Search → List ℤ
ordered_moves calls table s =
    let moves = available_moves table in
    calls.sort (cmp_moves s) (take (count_moves n_grids moves) moves)

abbrev pub no_move : MoveT
no_move = record { score = negsuc 9999; move = negsuc 0 }

-- The search after a miss of the cache.
unfoldable pub search_board : Calls → Go → ℕ → ℕ → ℤ → ℤ → Search → MoveT × Search
unfolding try_moves ordered_moves zobrist_put
search_board calls go table player alpha beta s =
    let (best, s') =
      try_moves calls go true (ordered_moves calls table s) table player alpha beta no_move s in
    (
      best,
      record s' {
        cache = zobrist_put (calls.granted s') s'.hash_value best.score best.move s'.cache;
      },
    )

unfoldable pub leaf : ℕ → ℕ → MoveT
unfolding get_score
leaf table player = record { score = get_score table player; move = negsuc 0 }

unfoldable pub negamax : Calls → ℕ → Go
unfolding leaf search_board zobrist_get check_win
negamax calls zero table player alpha beta s = (leaf table player, s)
negamax calls (suc depth) table player alpha beta s = elim (check_win table == cell_empty) [
  | false ↦ (leaf table player, s)
  | true ↦ elim (zobrist_get s.hash_value s.cache) [
    | some (score, move) ↦ (record { score = score; move = move }, s)
    | none ↦ search_board calls (negamax calls depth) table player alpha beta s
  ]
]

-- The loop over the depths, from `depth` on, with `left` rounds to come.
unfoldable pub deepen : Calls → ℕ → ℕ → ℕ → ℕ → MoveT → Search → MoveT × Search
unfolding negamax zobrist_clear
deepen calls zero depth table player result s = (result, s)
deepen calls (suc left) depth table player result s =
    let (result', s') = negamax calls depth table player (negsuc 99999) (pos 100000) s in
    deepen calls left (depth + 2) table player result'
      (record s' { cache = zobrist_clear s'.cache })

-- `negamax_predict`: `result` is not set before the loop, whose rounds are the depths 2, 4 and 6.
unfoldable pub negamax_predict : Calls → MoveT → ℕ → ℕ → Search → ℤ × Search
unfolding deepen
negamax_predict calls unset table player s =
    let (result, s') = deepen calls (max_search_depth / 2) 2 table player unset (record s {
      history_score_sum = replicate n_grids (pos 0);
      history_count = replicate n_grids 0;
    }) in
    (result.move, s')

-- `negamax_init`: `has_memory` is whether `zobrist_init` gets memory for its table.
unfoldable pub negamax_init : Bool → Search → Search
unfolding zobrist_init
negamax_init has_memory s = record s { hash_value = 0; cache = zobrist_init has_memory }
