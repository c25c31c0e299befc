-- ===== src/Mcts/Visits.antt =====
-- src/mcts.c: every walk down the tree ends, and keeps it a tree of moves.
use kxo.Prelude.{
  ℕ, zero, suc, ◌<◌, ◌≡◌, inl, inr, refl, sym, ap, ◌∙◌, arith, Bool, true, false, Option, none,
  some, Bool-cases, Option-cases, ◌==◌, length, take, Elem, Elem-map_inv,
}
use mathlib.Core.Path.{subst}
use mathlib.Core.Option.{some-injective}
use kxo.Prelude.Int.{ℤ, pos, pos_part}
use kxo.Board.{n_grids, cell_empty, val_set_cell, empty_grids}
use kxo.Board.Win.{check_win}
use kxo.Board.Win.Correct.{IsBoard}
use kxo.Board.Moves.{available_moves, count_moves}
use kxo.Board.Moves.Laws.{available_moves_lem}
use kxo.Board.Answers.{IsPlayer, IsPlayer-other}
use kxo.Random.{StateArray}
use kxo.Mcts.{
  Node, node, Nodes, null, child, Mcts, Visit, visited, stuck, other_player, grow, select_move,
  child_at, set_child, return_to, score_won, score_new, note_score, simulate, visit,
}
use kxo.Mcts.Simulated.{set_move-IsBoard, simulate-ends}
use kxo.Mcts.Tree.{
  IsChild, AreMoves, child_at-IsChild, set_child-AreMoves, expand_loop-AreMoves, select_move-child,
}

-- What a visit leaves of a node whose board is `table`: its move and player, and a tree of moves.
unfoldable pub IsVisit : Node → ℕ → Visit → Type 0
IsVisit n table (stuck st) = Unit {0}
IsVisit (node m p v s below) table (visited (node m' p' v' s' below') score st) =
    (m' ≡ m) × (p' ≡ p) × AreMoves below' p table

abbrev pub Ends : Node → ℕ → Option Visit → Type 0
Ends n table r = (result : Visit) × (r ≡ some result) × IsVisit n table result

grow-AreMoves :
    (granted : ℕ → Bool) (table player : ℕ) (children : Nodes) (st : Mcts)
    → AreMoves children player table
    → AreMoves (grow granted table player children st).0 player table
unfolding grow
grow-AreMoves granted table player null st h =
    expand_loop-AreMoves player table granted
      (take (count_moves n_grids (available_moves table)) (available_moves table)) st.asked
      (λ m e.
        let (p, found, is) =
          Elem-map_inv pos m (empty_grids table)
            (subst (λ ms. Elem m ms) (available_moves_lem table).0.1 e) in
        let free = ((available_moves_lem table).2 p).0 found in (p, is, free.0, free.1))
grow-AreMoves granted table player (child c rest) st h = h

other_other : (p : ℕ) → IsPlayer p → other_player (other_player p) ≡ p
other_other p (inl e) = rw e refl
other_other p (inr e) = rw e refl

-- Back from a child whose visit has ended.
return_to-Ends :
    (m : ℤ) (p v s : ℕ) (before children : Nodes) (i table : ℕ) (m' : ℤ) (p' v' s' : ℕ)
    (below : Nodes) (r : Option Visit)
    → AreMoves children p table
    → IsChild (node m' p' v' s' below) p table
    → Ends (node m' p' v' s' below) (val_set_cell table (pos_part m') p) r
    → Ends (node m p v s before) table (return_to m p v s children i r)
unfolding return_to note_score IsVisit IsChild
return_to-Ends m p v s before children i table m' p' v' s' below none h is (result, e, ok) =
    absurd (ground (arith, e))
return_to-Ends m p v s before children i table m' p' v' s' below (some (stuck st)) h is ends =
    (stuck st, refl, tt)
return_to-Ends m p v s before children i table m' p' v' s' below
      (some (visited (node m1 p1 v1 s1 below1) score st)) h is (result, e, ok) =
    let (same_m, same_p, moves) =
      subst (λ r. IsVisit (node m' p' v' s' below) (val_set_cell table (pos_part m') p) r)
        (sym (some-injective _ _ e)) ok in
    (
      note_score m p v s (set_child children i (node m1 p1 v1 s1 below1)) score st,
      refl,
      (
        refl,
        refl,
        set_child-AreMoves p table children i (node m1 p1 v1 s1 below1) h
            (rw (same_m, same_p) (is.0, is.1, moves)),
      ),
    )

score_new-Ends :
    (m : ℤ) (p v s : ℕ) (children : Nodes) (table : ℕ) (st : Mcts) (r : Option (ℕ × StateArray))
    → AreMoves children p table
    → (result : ℕ × StateArray) × (r ≡ some result)
    → Ends (node m p v s children) table (score_new (node m p v s children) r st)
unfolding score_new note_score IsVisit
score_new-Ends m p v s children table st none h (result, e) = absurd (ground (arith, e))
score_new-Ends m p v s children table st (some (score, rnd)) h e =
    (note_score m p v s children score (record st { xoro_obj = rnd }), refl, (refl, refl, h))

score_won-Ends :
    (m : ℤ) (p v s : ℕ) (children : Nodes) (table win : ℕ) (st : Mcts)
    → AreMoves children p table
    → Ends (node m p v s children) table (some (score_won (node m p v s children) win st))
unfolding score_won note_score IsVisit
score_won-Ends m p v s children table win st h =
    (score_won (node m p v s children) win st, refl, (refl, refl, h))

-- The visits that have the fuel `fuel` end.
abbrev pub VisitsEnd : (ℕ → Bool) → ℕ → Type 0
VisitsEnd granted fuel =
    (m : ℤ) (p v s : ℕ) (children : Nodes) (table : ℕ) (st : Mcts)
    → IsBoard table
    → IsPlayer p
    → AreMoves children p table
    → length (empty_grids table) < fuel
    → Ends (node m p v s children) table (visit granted fuel (node m p v s children) table st)

module _ (granted : ℕ → Bool) (fuel : ℕ) (later : VisitsEnd granted fuel) (m : ℤ) (p v s : ℕ)
    (children : Nodes) (table : ℕ) (st : Mcts) (b : IsBoard table) (is : IsPlayer p)
    (h : AreMoves children p table) (enough : length (empty_grids table) < suc fuel) where
  abbrev grown : Nodes × Mcts
  grown = grow granted table p children st

  child-Ends :
      (m' : ℤ) (p' v' s' : ℕ) (below : Nodes) (i : ℕ)
      → child_at grown.0 i ≡ some (node m' p' v' s' below)
      → Ends (node m p v s children) table (
          return_to m p v s grown.0 i (
            visit granted fuel
              (node m' p' v' s' below)
              (val_set_cell table (pos_part m') (other_player p'))
              grown.1))
  unfolding IsChild
  child-Ends m' p' v' s' below i found =
      let moves = grow-AreMoves granted table p children st h in
      let here : IsChild (node m' p' v' s' below) p table =
        child_at-IsChild p table grown.0 i (node m' p' v' s' below) moves found in
      let back : other_player p' ≡ p = ap other_player here.1 ∙ other_other p is in
      let (b', fewer) = set_move-IsBoard table p m' b is here.0 in
      let is' : IsPlayer p' = subst (λ q. IsPlayer q) (sym here.1) (IsPlayer-other p is) in
      subst
        (λ q. Ends (node m p v s children) table (
          return_to m p v s grown.0 i (
            visit granted fuel (node m' p' v' s' below) (val_set_cell table (pos_part m') q)
              grown.1)))
        (sym back)
        (return_to-Ends m p v s children grown.0 i table m' p' v' s' below
          (visit granted fuel (node m' p' v' s' below) (val_set_cell table (pos_part m') p) grown.1)
          moves here
          (later m' p' v' s' below (val_set_cell table (pos_part m') p) grown.1 b' is' here.2
            (omega (arith, fewer, enough))))

  visit_on-Ends :
      Ends (node m p v s children) table (visit granted (suc fuel) (node m p v s children) table st)
  unfolding visit IsVisit
  visit_on-Ends = elim (Bool-cases (check_win table == cell_empty)) [
    | inr over ↦ rw (over, visit) (score_won-Ends m p v s children table (check_win table) st h)
    | inl still ↦ elim (Bool-cases (v == 0)) [
      | inl new ↦
          rw (still, new, visit)
            (score_new-Ends m p v s children table st (simulate table p st.xoro_obj) h
              (simulate-ends table p st.xoro_obj b is))
      | inr old ↦ elim (Option-cases (select_move grown.0 v)) [
        | inl nothing ↦ rw (still, old, nothing, visit) (stuck grown.1, refl, tt)
        | inr (i, chosen) ↦
            let (c, found) = select_move-child grown.0 v i chosen in
            at_child still old i chosen c found
      ]
    ]
  ]
    where
      at_child :
          (check_win table == cell_empty) ≡ true
          → (v == 0) ≡ false
          → (i : ℕ) → select_move grown.0 v ≡ some i
          → (c : Node) → child_at grown.0 i ≡ some c
          → Ends
              (node m p v s children)
              table
              (visit granted (suc fuel) (node m p v s children) table st)
      at_child still old i chosen (node m' p' v' s' below) found =
          rw (still, old, chosen, found, visit) (child-Ends m' p' v' s' below i found)

pub visit-Ends : (granted : ℕ → Bool) (fuel : ℕ) → VisitsEnd granted fuel
visit-Ends granted zero m p v s children table st b is h enough = absurd (omega (arith, enough))
visit-Ends granted (suc fuel) m p v s children table st b is h enough =
    visit_on-Ends granted fuel (visit-Ends granted fuel) m p v s children table st b is h enough
