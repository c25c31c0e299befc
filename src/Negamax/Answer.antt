-- ===== src/Negamax/Answer.antt =====
-- src/negamax.c: the moves that are searched, and the answer of `negamax_predict`.
use kxo.Prelude.{
  ℕ, zero, suc, ◌+◌, ◌<◌, ◌≡◌, ◌↔◌, ◌⊎◌, inl, inr, refl, ◌∙◌, arith, List, [], ◌∷◌, true, none,
  ◌==◌, ==_iff, Bool-cases, Option-cases, Elem, Elem-map, Elem-map_inv, map, take, replicate,
}
use kxo.Prelude.Int.{ℤ, pos, negsuc, pos_part}
use mathlib.Core.Path.{subst}
use kxo.Board.{n_grids, cell_empty, empty_grids}
use kxo.Board.Win.{check_win}
use kxo.Board.Answers.{IsPlayer, IsMove}
use kxo.Board.Win.Correct.{IsBoard, HasEmpty, check_win_lem}
use kxo.Board.Moves.{available_moves, count_moves}
use kxo.Board.Moves.Laws.{available_moves_lem}
use kxo.Zobrist.{HashTable, zobrist_get, zobrist_clear}
use kxo.Zobrist.Laws.{zobrist_get-clear}
use kxo.Negamax.{
  MoveT, Search, Calls, Go, no_move, cmp_moves, ordered_moves, search_board, negamax, deepen,
  negamax_predict,
}
use kxo.Negamax.Scores.{
  CacheWithin, IsResult, IsGo, Each, leaf-Within, put-CacheWithin, try_moves-IsResult,
}

-- What the source relies on of `sort`: the array holds the same moves after it.
pub record Sorts (calls : Calls) : Type 0 where
  pub keeps :
      (cmp : ℤ → ℤ → ℤ) (moves : List ℤ) (m : ℤ) → Elem m (calls.sort cmp moves) ↔ Elem m moves

abbrev pub IsClear : HashTable → Type 0
IsClear cache = (key : ℕ) → zobrist_get key cache ≡ none

all_of_moves :
    (P : ℤ → Type 0) (moves : List ℤ)
    → ((m : ℤ) → Elem m moves → (pos_part m < 16) × P m)
    → Each P moves
all_of_moves P [] h = tt
all_of_moves P (m ∷ ms) h =
    let here = h m (inl refl) in (here.0, here.1, all_of_moves P ms (λ x e. h x (inr e)))

open_HasEmpty : (t : ℕ) → IsBoard t → check_win t ≡ cell_empty → HasEmpty t
open_HasEmpty t v e = elim (check_win_lem t v) [
  | inl h ↦ absurd (omega (arith, e, h.0))
  | inr (inl h) ↦ absurd (omega (arith, e, h.0))
  | inr (inr (inl h)) ↦ h.3
  | inr (inr (inr h)) ↦ absurd (omega (arith, e, h.0))
]

module _ (calls : Calls) (sorts : Sorts calls) where
  module _ (table : ℕ) (s : Search) where
    ordered : (m : ℤ) → Elem m (ordered_moves calls table s) ↔ Elem m (map pos (empty_grids table))
    unfolding ordered_moves
    ordered m =
        let moves = take (count_moves n_grids (available_moves table)) (available_moves table) in
        subst (λ ms. Elem m (calls.sort (cmp_moves s) moves) ↔ Elem m ms)
          (available_moves_lem table).0.1 (sorts.keeps (cmp_moves s) moves m)

    ordered-Each : Each (IsMove table) (ordered_moves calls table s)
    ordered-Each = all_of_moves (IsMove table) (ordered_moves calls table s) (λ m e.
        let (p, there, is) = Elem-map_inv pos m (empty_grids table) ((ordered m).0 e) in
        let free = ((available_moves_lem table).2 p).0 there in
        (rw is free.0, (p, is, free.0, free.1)))

    ordered-Elem : HasEmpty table → (m : ℤ) × Elem m (ordered_moves calls table s)
    ordered-Elem (p, h, free) = (
      pos p,
      (ordered (pos p)).1
          (Elem-map pos p (empty_grids table) (((available_moves_lem table).2 p).1 (h, free))),
    )

  -- The search of an open board after a miss of the cache, over any search of the next depth.
  search_board-IsResult :
      (go : Go)
      → IsGo go
      → (table player : ℕ) (alpha beta : ℤ) (s : Search) → IsBoard table
      → IsPlayer player
      → CacheWithin s.cache
      → HasEmpty table
      → let (r, s') = search_board calls go table player alpha beta s in
        IsResult s r.score s' × IsMove table r.move
  unfolding search_board
  search_board-IsResult go go_ok table player alpha beta s v p c empty =
      let moves = ordered_moves calls table s in
      let loop =
        try_moves-IsResult go go_ok calls (IsMove table) moves true table player alpha beta no_move
          s v p c (ordered-Each table s) (inr (refl, ordered-Elem table s empty)) in
      (
        record {
          bounded = loop.0.bounded;
          hash_kept = loop.0.hash_kept;
          cached = put-CacheWithin _ _ _ _ _ loop.0.bounded loop.0.cached;
        },
        loop.1,
      )

  negamax-IsGo : (depth : ℕ) → IsGo (negamax calls depth)
  unfolding negamax
  negamax-IsGo zero table player alpha beta s v p c = record {
    bounded = leaf-Within table player;
    hash_kept = refl;
    cached = c;
  }
  negamax-IsGo (suc depth) table player alpha beta s v p c =
      elim (Bool-cases (check_win table == cell_empty)) [
        | inr over ↦
            rw (over, negamax)
              (record { bounded = leaf-Within table player; hash_kept = refl; cached = c })
        | inl still ↦ elim (Option-cases (zobrist_get s.hash_value s.cache)) [
          | inr ((score, move), hit) ↦
              rw (still, hit, negamax)
                (record { bounded = c s.hash_value score move hit; hash_kept = refl; cached = c })
          | inl miss ↦
              rw (still, miss, negamax)
                ((search_board-IsResult (negamax calls depth) (negamax-IsGo depth) table player
                  alpha beta s v p c (open_HasEmpty table v ((==_iff _ _).0 still))).0)
        ]
      ]

  -- The search of an open board over an empty cache, to a depth that is not 0.
  root :
      (depth table player : ℕ) (alpha beta : ℤ) (s : Search)
      → 0 < depth
      → IsBoard table
      → check_win table ≡ cell_empty
      → IsPlayer player
      → IsClear s.cache
      → let (r, s') = negamax calls depth table player alpha beta s in
        IsResult s r.score s' × IsMove table r.move
  unfolding negamax
  root zero table player alpha beta s h v still p c = absurd (omega arith)
  root (suc depth) table player alpha beta s h v still p c =
      rw ((==_iff _ _).1 still, c s.hash_value, negamax)
        (search_board-IsResult (negamax calls depth) (negamax-IsGo depth) table player alpha beta s
          v p (λ key score move e. absurd (ground (arith, c key, e))) (open_HasEmpty table v still))

  deepen-IsMove :
      (left depth table player : ℕ) (result : MoveT) (s : Search)
      → 0 < depth
      → IsBoard table
      → check_win table ≡ cell_empty
      → IsPlayer player
      → IsClear s.cache
      → IsMove table result.move ⊎ (0 < left)
      → let (r, s') = deepen calls left depth table player result s in
        IsMove table r.move × IsClear s'.cache × (s'.hash_value ≡ s.hash_value)
  unfolding deepen
  deepen-IsMove zero depth table player result s h v still p c (inl found) = (found, c, refl)
  deepen-IsMove zero depth table player result s h v still p c (inr none_left) =
      absurd (omega arith)
  deepen-IsMove (suc left) depth table player result s h v still p c found =
      let here = root depth table player (negsuc 99999) (pos 100000) s h v still p c in
      let (r, s') = negamax calls depth table player (negsuc 99999) (pos 100000) s in
      let rest =
        deepen-IsMove left (depth + 2) table player r (record s' { cache = zobrist_clear s'.cache })
          (omega arith) v still p (λ key. zobrist_get-clear key s'.cache) (inl here.1) in
      (rest.0, rest.1, rest.2 ∙ here.0.hash_kept)

  -- On an open board, with the cache empty, `negamax_predict` answers an empty cell, never -1, for
  -- either player, whatever the order of the moves, the keys of the positions and the memory for
  -- the cache; it leaves the cache empty and the hash value as it was.
  pub negamax_predict-IsMove :
      (unset : MoveT) (table player : ℕ) (s : Search)
      → IsBoard table
      → check_win table ≡ cell_empty
      → IsPlayer player
      → IsClear s.cache
      → let (m, s') = negamax_predict calls unset table player s in
        IsMove table m × IsClear s'.cache × (s'.hash_value ≡ s.hash_value)
  unfolding negamax_predict
  negamax_predict-IsMove unset table player s v still p c =
      deepen-IsMove 3 2 table player unset
        (record s {
          history_score_sum = replicate n_grids (pos 0);
          history_count = replicate n_grids 0;
        })
        (omega arith) v still p c (inr (omega arith))

  -- On a board without a reserved cell, with scores of boards in the cache, a search of any depth and
  -- between any bounds ends with a score between -2400 and 2400, keeps the hash value, and leaves
  -- only such scores in the cache.
  pub negamax-IsResult :
      (depth table player : ℕ) (alpha beta : ℤ) (s : Search)
      → IsBoard table
      → IsPlayer player
      → CacheWithin s.cache
      → let (r, s') = negamax calls depth table player alpha beta s in IsResult s r.score s'
  negamax-IsResult depth table player alpha beta s = negamax-IsGo depth table player alpha beta s
