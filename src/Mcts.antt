-- ===== src/Mcts.antt =====
-- src/mcts.c: the tree search of the MCTS agent. A node holds its children, so the walk back over
-- `parent` is the return from a visit. Whether `kzalloc` gives memory for a node, and whether the
-- module stops, are parameters.
pub mod Uct
pub mod Tree
pub mod Simulated
pub mod Visits
pub mod Answer
use kxo.Prelude.{
  ℕ, zero, suc, ◌+◌, ◌-◌, ◌*◌, ◌%◌, ◌^◌, List, [], ◌∷◌, Bool, true, false, Option, none, some,
}
use kxo.Prelude.{◌==◌, if◌then◌else◌, ltb, get_or, take, bit_xor}
use kxo.Prelude.Int.{ℤ, pos, negsuc, pos_part, ltb_ℤ}
use kxo.Board.{n_grids, cell_empty, cell_o, cell_x, val_set_cell, u32, u64}
use kxo.Board.Win.{check_win, calculate_win_value}
use kxo.Board.Moves.{available_moves, count_moves}
use kxo.Random.{StateArray, xoro_next, xoro_jump, xoro_init}
use kxo.Mcts.Uct.{one, uct_score}

unfoldable pub iterations : ℕ
iterations = 100000

-- `struct node`, with the children that are not NULL; they fill `children` from its start.
mutual
  pub data Node : Type 0 where
    node : (move : ℤ) → (player n_visits score : ℕ) → Nodes → Node

  pub data Nodes : Type 0 where
    null : Nodes
    child : Node → Nodes → Nodes

-- `mcts_obj`, and the number of nodes that were asked for.
pub record Mcts : Type 0 where
  pub xoro_obj : StateArray
  pub nr_active_nodes : ℕ
  pub asked : ℕ

abbrev pub other_player : ℕ → ℕ
other_player player = bit_xor (bit_xor player cell_o) cell_x

-- `moves[0] == -1`; no other move is negative.
unfoldable pub no_moves : List ℤ → Bool
no_moves [] = true
no_moves (negsuc _ ∷ moves) = true
no_moves (pos _ ∷ moves) = false

-- The loop of `simulate`, with fuel; `none` when it runs out.
unfoldable pub simulate_loop : ℕ → ℕ → ℕ → ℕ → StateArray → Option (ℕ × StateArray)
simulate_loop zero table current player rnd = none
simulate_loop (suc fuel) table current player rnd =
    let moves = available_moves table in
    let (r, rnd') = xoro_next rnd in
    let move = get_or moves (r % count_moves n_grids moves) (pos 0) in
    let table' = val_set_cell table (pos_part move) current in
    let win = check_win table' in
    elim (no_moves moves) [
      | true ↦ some (2 ^ 15, rnd)
      | false ↦ elim (win == cell_empty) [
        | false ↦ some (calculate_win_value win player, rnd')
        | true ↦ simulate_loop fuel table' (other_player current) player rnd'
      ]
    ]

unfoldable pub simulate : ℕ → ℕ → StateArray → Option (ℕ × StateArray)
simulate table player rnd = simulate_loop (n_grids + 1) table player player (xoro_jump rnd)

-- The loop of `expand` over its moves: the children of a node of `player`, and how many.
unfoldable pub expand_loop : (ℕ → Bool) → List ℤ → ℕ → ℕ → Nodes × ℕ
expand_loop granted [] player asked = (null, 0)
expand_loop granted (m ∷ ms) player asked =
    let (later, n) = expand_loop granted ms player (asked + 1) in
    if granted asked
    then (child (node m (other_player player) 0 0 null) later, n + 1)
    else (null, 0)

-- The score of a child, from its place `i` on: the place and score of the best.
unfoldable pub select_loop : Nodes → ℕ → ℕ → Option ℕ → ℕ → Option ℕ
select_loop null i n_total best best_score = best
select_loop (child (node m p v s cs) rest) i n_total best best_score =
    let score = uct_score n_total v s in
    let (best', best_score') =
      if ltb best_score score then (some i, score) else (best, best_score) in
    select_loop rest (i + 1) n_total best' best_score'

unfoldable pub select_move : Nodes → ℕ → Option ℕ
unfolding select_loop
select_move children n_total = select_loop children 0 n_total none 0

abbrev pub child_at : Nodes → ℕ → Option Node
child_at null i = none
child_at (child c rest) zero = some c
child_at (child c rest) (suc i) = child_at rest i

abbrev pub set_child : Nodes → ℕ → Node → Nodes
set_child null i c = null
set_child (child c' rest) zero c = child c rest
set_child (child c' rest) (suc i) c = child c' (set_child rest i c)

-- What a visit of a node leaves: the node and the score of its parent, or no child to select.
pub data Visit : Type 0 where
  visited : Node → ℕ → Mcts → Visit
  stuck : Mcts → Visit

-- One round of `backpropagate`: the node, and the score of its parent.
unfoldable pub note_score : ℤ → ℕ → ℕ → ℕ → Nodes → ℕ → Mcts → Visit
note_score m p v s children score st =
    visited (node m p (v + 1) (u64 (s + score)) children) (u32 (one + 2 ^ 32 - score)) st

-- `expand`, when the node has no children yet: the children and `mcts_obj`. Each node that is asked
-- for has a number of its own.
unfoldable pub grow : (ℕ → Bool) → ℕ → ℕ → Nodes → Mcts → Nodes × Mcts
unfolding expand_loop
grow granted table player null st =
    let moves = available_moves table in
    let n_moves = count_moves n_grids moves in
    let (children, n) = expand_loop granted (take n_moves moves) player st.asked in
    (children, record st { nr_active_nodes = st.nr_active_nodes + n; asked = st.asked + n_moves })
grow granted table player (child c rest) st = (child c rest, st)

-- Back from the child `i` to its parent.
unfoldable pub return_to : ℤ → ℕ → ℕ → ℕ → Nodes → ℕ → Option Visit → Option Visit
unfolding note_score
return_to m p v s children i none = none
return_to m p v s children i (some (stuck st)) = some (stuck st)
return_to m p v s children i (some (visited c score st)) =
    some (note_score m p v s (set_child children i c) score st)

-- A node where the search ends for this time: the game is over there, or it was not visited yet.
unfoldable pub score_won : Node → ℕ → Mcts → Visit
unfolding note_score calculate_win_value
score_won (node m p v s children) win st =
    note_score m p v s children (calculate_win_value win (other_player p)) st

unfoldable pub score_new : Node → Option (ℕ × StateArray) → Mcts → Option Visit
unfolding note_score
score_new n none st = none
score_new (node m p v s children) (some (score, rnd)) st =
    some (note_score m p v s children score (record st { xoro_obj = rnd }))

-- One walk down from a node whose board is `table`, and back, with fuel for the walk down.
unfoldable pub visit : (ℕ → Bool) → ℕ → Node → ℕ → Mcts → Option Visit
unfolding grow return_to score_won score_new
visit granted zero n table st = none
visit granted (suc fuel) (node m p v s children) table st =
    let win = check_win table in
    elim (win == cell_empty) [
      | false ↦ some (score_won (node m p v s children) win st)
      | true ↦ elim (v == 0) [
        | true ↦ score_new (node m p v s children) (simulate table p st.xoro_obj) st
        | false ↦
            let (children', st') = grow granted table p children st in
            elim (select_move children' v) [
              | none ↦ some (stuck st')
              | some i ↦ elim (child_at children' i) [
                | none ↦ none
                | some (node m' p' v' s' below) ↦ return_to m p v s children' i (
                    visit granted fuel (node m' p' v' s' below)
                      (val_set_cell table (pos_part m') (other_player p')) st')
              ]
            ]
      ]
    ]

-- The child with the most visits, the first of them.
unfoldable pub most_visited : Nodes → ℤ → ℤ → ℤ
most_visited null best_move most_visits = best_move
most_visited (child (node m p v s below) rest) best_move most_visits =
    if ltb_ℤ most_visits (pos v)
    then most_visited rest m (pos v)
    else most_visited rest best_move most_visits

unfoldable pub best_move : Node → ℤ
unfolding most_visited
best_move (node m p v s children) = most_visited children m (negsuc 0)

-- The loop of `mcts` from the round `i` on, with `left` rounds to come: the move, -1 when it gets
-- stuck.
unfoldable pub mcts_loop : (ℕ → Bool) → (ℕ → Bool) → ℕ → ℕ → ℕ → Node → Mcts → Option (ℤ × Mcts)
unfolding visit best_move
mcts_loop granted stopped zero i table root st = some (best_move root, st)
mcts_loop granted stopped (suc left) i table root st = elim (stopped i) [
  | true ↦ some (best_move root, st)
  | false ↦ elim (visit granted (n_grids + 1) root table st) [
    | none ↦ none
    | some (stuck st') ↦ some (negsuc 0, st')
    | some (visited root' score st') ↦ mcts_loop granted stopped left (i + 1) table root' st'
  ]
]

unfoldable pub mcts : (ℕ → Bool) → (ℕ → Bool) → ℕ → ℕ → Mcts → Option (ℤ × Mcts)
unfolding mcts_loop
mcts granted stopped table player st =
    if granted st.asked
    then mcts_loop granted stopped iterations 0 table (node (negsuc 0) player 0 0 null)
        (record st { nr_active_nodes = 1; asked = st.asked + 1 })
    else some (negsuc 0, st)

unfoldable pub mcts_init : Mcts → Mcts
unfolding xoro_init
mcts_init st = record st { xoro_obj = xoro_init; nr_active_nodes = 0 }
