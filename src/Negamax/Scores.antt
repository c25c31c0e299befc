-- ===== src/Negamax/Scores.antt =====
-- src/negamax.c: what a search leaves, and the steps of its loop.
use kxo.Prelude.{
  ℕ, ◌<◌, ◌≡◌, ◌⊎◌, inl, inr, refl, sym, ap, ◌∙◌, arith, List, [], ◌∷◌, Bool, true, false, some,
  ◌==◌, ◌&&◌, if◌then◌else◌, Bool-cases, if_both, bit_xor, Elem,
}
use kxo.Prelude.Int.{ℤ, pos, negsuc, pos_part, ◌-ℤ◌, ltb_ℤ, int_laws}
use kxo.Prelude.Bits.{xor_undo}
use mathlib.Core.Option.{some-injective}
use kxo.Board.{cell_empty, cell_x, val_set_cell}
use kxo.Board.Answers.{IsPlayer, IsPlayer-other, IsPlayer-lt}
use kxo.Board.Win.Correct.{IsBoard}
use kxo.Engine.Move.Keeps.{set_cell-IsBoard}
use kxo.Score.Laws.{Within, get_score-Within}
use kxo.Zobrist.{HashTable, zobrist_get, zobrist_put}
use kxo.Zobrist.Laws.{zobrist_get-put, written}
use kxo.Negamax.{
  MoveT, Search, Calls, Go, minus, opponent, search_child, toggle, note_score, try_move, try_moves,
  no_move, leaf,
}

-- Every score that the cache holds is the score of some board.
abbrev pub CacheWithin : HashTable → Type 0
CacheWithin cache =
    (key : ℕ) (score move : ℤ) → zobrist_get key cache ≡ some (score, move) → Within 2400 score

-- What a search from the state `s` leaves.
pub record IsResult (s : Search) (score : ℤ) (s' : Search) : Type 0 where
  pub bounded : Within 2400 score
  pub hash_kept : s'.hash_value ≡ s.hash_value
  pub cached : CacheWithin s'.cache

abbrev pub IsGo : Go → Type 0
IsGo go =
    (table player : ℕ) (alpha beta : ℤ) (s : Search)
    → IsBoard table
    → IsPlayer player
    → CacheWithin s.cache
    → IsResult s (go table player alpha beta s).0.score (go table player alpha beta s).1

minus-Within : (z : ℤ) → Within 2400 z → Within 2400 (minus z)
minus-Within z h = omega int_laws

pub leaf-Within : (table player : ℕ) → Within 2400 (leaf table player).score
unfolding leaf
leaf-Within table player = get_score-Within table player

pub put-CacheWithin :
    (granted : Bool) (key : ℕ) (score move : ℤ) (cache : HashTable)
    → Within 2400 score
    → CacheWithin cache
    → CacheWithin (zobrist_put granted key score move cache)
put-CacheWithin granted key score move cache w h key' score' move' e =
    let e' = sym (zobrist_get-put granted key key' score move cache) ∙ e in
    elim (Bool-cases (written cache granted)) [
      | inr lost ↦ h key' score' move' (rw lost at e')
      | inl kept ↦ elim (Bool-cases (key == key')) [
        | inl same ↦
            let pair = some-injective _ _ (rw (kept, same) at e') in
            rw (← ap (λ (r : ℤ × ℤ). r.0) pair) w
        | inr ne ↦ h key' score' move' (rw (kept, ne) at e')
      ]
    ]

-- The score of a search is turned round for the other player.
turned : (s : Search) (score : ℤ) (s' : Search) → IsResult s score s' → IsResult s (minus score) s'
turned s score s' r = record {
  bounded = minus-Within score r.bounded;
  hash_kept = r.hash_kept;
  cached = r.cached;
}

pub then_IsResult :
    (s s' s'' : Search) (score score' : ℤ)
    → IsResult s score s'
    → IsResult s' score' s''
    → IsResult s score' s''
then_IsResult s s' s'' score score' r r' = record {
  bounded = r'.bounded;
  hash_kept = r'.hash_kept ∙ r.hash_kept;
  cached = r'.cached;
}

module _ (go : Go) (go_ok : IsGo go) where
  pub search_child-IsResult :
      (first : Bool) (table player : ℕ) (alpha beta : ℤ) (s : Search)
      → IsBoard table
      → IsPlayer player
      → CacheWithin s.cache
      → let (score, s') = search_child go first table player alpha beta s in IsResult s score s'
  unfolding search_child
  search_child-IsResult true table player alpha beta s v p c =
      turned s _ _ (go_ok table player (minus beta) (minus alpha) s v p c)
  search_child-IsResult false table player alpha beta s v p c =
      let narrow = go_ok table player (minus alpha -ℤ pos 1) (minus alpha) s v p c in
      let (r, s_narrow) = go table player (minus alpha -ℤ pos 1) (minus alpha) s in
      let wide =
        go_ok table player (minus beta) (minus (minus r.score)) s_narrow v p narrow.cached in
      elim (Bool-cases (ltb_ℤ alpha (minus r.score) && ltb_ℤ (minus r.score) beta)) [
        | inl again ↦ rw again (turned s _ _ (then_IsResult s s_narrow _ _ _ narrow wide))
        | inr once ↦ rw once (turned s _ _ narrow)
      ]

  module _ (calls : Calls) where
    pub try_move-IsResult :
        (first : Bool) (move : ℤ) (table player : ℕ) (alpha beta : ℤ) (s : Search)
        → IsBoard table
        → IsPlayer player
        → pos_part move < 16
        → CacheWithin s.cache
        → let (score, s') = try_move calls go first move table player alpha beta s in
          IsResult s score s'
    unfolding try_move toggle note_score
    try_move-IsResult first move table player alpha beta s v p m c =
        let r =
          search_child-IsResult first (val_set_cell table (pos_part move) player) (opponent player)
            alpha beta (toggle calls (pos_part move) player s)
            (set_cell-IsBoard table (pos_part move) player v m (IsPlayer-lt player p))
            (IsPlayer-other player p) c in
        record {
          bounded = r.bounded;
          hash_kept =
              ap (λ h. bit_xor h (calls.zobrist_table (pos_part move) (player == cell_x)))
                r.hash_kept
              ∙ xor_undo s.hash_value _;
          cached = r.cached;
        }

-- What holds of every move of a list, each of which names a cell.
abbrev pub Each : (ℤ → Type 0) → List ℤ → Type 0
Each P [] = Unit {0}
Each P (m ∷ ms) = (pos_part m < 16) × P m × Each P ms

above : (z : ℤ) → Within 2400 z → ltb_ℤ (negsuc 9999) z ≡ true
unfolding ◌-ℤ◌
above z h = ground arith

module _ (go : Go) (go_ok : IsGo go) (calls : Calls) (P : ℤ → Type 0) where
  -- The best move so far is one of those tried, or none was tried and there is one to try.
  abbrev Ready : MoveT → List ℤ → Type 0
  Ready best moves =
      (Within 2400 best.score × P best.move) ⊎ ((best ≡ no_move) × ((m : ℤ) × Elem m moves))

  pub try_moves-IsResult :
      (moves : List ℤ) (first : Bool) (table player : ℕ) (alpha beta : ℤ) (best : MoveT)
      (s : Search)
      → IsBoard table
      → IsPlayer player
      → CacheWithin s.cache
      → Each P moves
      → Ready best moves
      → let (r, s') = try_moves calls go first moves table player alpha beta best s in
        IsResult s r.score s' × P r.move
  unfolding try_moves
  try_moves-IsResult [] first table player alpha beta best s v p c each (inl (w, q)) =
      (record { bounded = w; hash_kept = refl; cached = c }, q)
  try_moves-IsResult [] first table player alpha beta best s v p c each (inr (e, (m, h))) =
      elim h [ ]
  try_moves-IsResult (m ∷ rest) first table player alpha beta best s v p c each ready =
      let r = try_move-IsResult go go_ok calls first m table player alpha beta s v p each.0 c in
      let score = (try_move calls go first m table player alpha beta s).0 in
      let s' = (try_move calls go first m table player alpha beta s).1 in
      let new : MoveT = record { score = score; move = m } in
      let best' = if ltb_ℤ best.score score then new else best in
      let alpha' = if ltb_ℤ alpha score then score else alpha in
      let table' = val_set_cell (val_set_cell table (pos_part m) player) (pos_part m) cell_empty in
      let better : Within 2400 best'.score × P best'.move = elim ready [
        | inl old ↦
            if_both (λ (b : MoveT). Within 2400 b.score × P b.move) (ltb_ℤ best.score score) new
              best (r.bounded, each.1) old
        | inr (e, _) ↦ rw (e, above score r.bounded) (r.bounded, each.1)
      ] in
      let v' =
        set_cell-IsBoard (val_set_cell table (pos_part m) player) (pos_part m) cell_empty
          (set_cell-IsBoard table (pos_part m) player v each.0 (IsPlayer-lt player p)) each.0
          (omega arith) in
      let later =
        try_moves-IsResult rest false table' player alpha' beta best' s' v' p r.cached each.2
          (inl better) in
      elim (Bool-cases (ltb_ℤ alpha' beta)) [
        | inl more ↦ rw more (then_IsResult s s' _ _ _ r later.0, later.1)
        | inr cut ↦ rw cut (
          then_IsResult s s' s' score _ r
              (record { bounded = better.0; hash_kept = refl; cached = r.cached }),
          better.1,
        )
      ]
