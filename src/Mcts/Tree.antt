-- ===== src/Mcts/Tree.antt =====
-- src/mcts.c: the tree that the search grows, and how it is changed.
use kxo.Prelude.{
  ℕ, zero, suc, ◌+◌, ◌≡◌, ◌⊎◌, inl, inr, refl, sym, ◌∙◌, arith, List, [], ◌∷◌, Bool, Option, none,
  some, Bool-cases, ltb, Elem,
}
use mathlib.Core.Path.{subst}
use mathlib.Core.Option.{some-injective}
use kxo.Prelude.Int.{ℤ, pos, negsuc, pos_part, ltb_ℤ}
use kxo.Board.{val_set_cell}
use kxo.Board.Answers.{IsMove}
use kxo.Mcts.{
  Node, node, Nodes, null, child, other_player, expand_loop, select_loop, select_move, child_at,
  set_child, most_visited,
}
use kxo.Mcts.Uct.{uct_score}

-- A node below a node of `player`, whose board is `table`: it is a move to an empty cell of that
-- board, and the nodes below it are such in their turn.
unfoldable mutual
  pub IsChild : Node → ℕ → ℕ → Type 0
  IsChild (node m p v s below) player table =
      IsMove table m
      × (p ≡ other_player player)
      × AreMoves below p (val_set_cell table (pos_part m) player)

  pub AreMoves : Nodes → ℕ → ℕ → Type 0
  AreMoves null player table = Unit {0}
  AreMoves (child c rest) player table = IsChild c player table × AreMoves rest player table

module _ (player table : ℕ) where
  pub child_at-IsChild :
      (children : Nodes) (i : ℕ) (c : Node)
      → AreMoves children player table
      → child_at children i ≡ some c
      → IsChild c player table
  unfolding IsChild
  child_at-IsChild null i c h e = absurd (ground (arith, e))
  child_at-IsChild (child c' rest) zero c h e =
      subst (λ n. IsChild n player table) (some-injective _ _ e) h.0
  child_at-IsChild (child c' rest) (suc i) c h e = child_at-IsChild rest i c h.1 e

  pub set_child-AreMoves :
      (children : Nodes) (i : ℕ) (c : Node)
      → AreMoves children player table
      → IsChild c player table
      → AreMoves (set_child children i c) player table
  unfolding IsChild
  set_child-AreMoves null i c h new = tt
  set_child-AreMoves (child c' rest) zero c h new = (new, h.1)
  set_child-AreMoves (child c' rest) (suc i) c h new = (h.0, set_child-AreMoves rest i c h.1 new)

  -- New nodes for moves to empty cells.
  pub expand_loop-AreMoves :
      (granted : ℕ → Bool) (ms : List ℤ) (asked : ℕ)
      → ((m : ℤ) → Elem m ms → IsMove table m)
      → AreMoves (expand_loop granted ms player asked).0 player table
  unfolding expand_loop IsChild
  expand_loop-AreMoves granted [] asked all = tt
  expand_loop-AreMoves granted (m ∷ ms) asked all = elim (Bool-cases (granted asked)) [
    | inl got ↦ rw got (
      (all m (inl refl), refl, tt),
      expand_loop-AreMoves granted ms (asked + 1) (λ x h. all x (inr h)),
    )
    | inr refused ↦ rw refused tt
  ]

  pub most_visited-IsMove :
      (children : Nodes) (best most : ℤ)
      → AreMoves children player table
      → (best ≡ negsuc 0) ⊎ IsMove table best
      → (most_visited children best most ≡ negsuc 0)
        ⊎ IsMove table (most_visited children best most)
  unfolding most_visited IsChild
  most_visited-IsMove null best most h b = b
  most_visited-IsMove (child (node m p v s below) rest) best most h b =
      elim (Bool-cases (ltb_ℤ most (pos v))) [
        | inl more ↦ rw (more, most_visited) (most_visited-IsMove rest m (pos v) h.1 (inr h.0.0))
        | inr less ↦ rw (less, most_visited) (most_visited-IsMove rest best most h.1 b)
      ]

-- The place that is selected is the place of a child.
select_loop-child :
    (children : Nodes) (i n_total : ℕ) (best : Option ℕ) (best_score j : ℕ)
    → select_loop children i n_total best best_score ≡ some j
    → (best ≡ some j) ⊎ ((k : ℕ) × (c : Node) × (j ≡ i + k) × (child_at children k ≡ some c))
unfolding select_loop
select_loop-child null i n_total best best_score j e = inl e
select_loop-child (child (node m p v s below) rest) i n_total best best_score j e =
    elim (Bool-cases (ltb best_score (uct_score n_total v s))) [
      | inl better ↦
          elim (select_loop-child rest (i + 1) n_total (some i) (uct_score n_total v s) j
            (rw (better, select_loop) at e)) [
              | inl here ↦
                  inr (0, node m p v s below, sym (some-injective _ _ here) ∙ omega arith, refl)
              | inr (k, c, at_k, found) ↦ inr (suc k, c, at_k ∙ omega arith, found)
            ]
      | inr worse ↦
          elim (select_loop-child rest (i + 1) n_total best best_score j
            (rw (worse, select_loop) at e)) [
              | inl before ↦ inl before
              | inr (k, c, at_k, found) ↦ inr (suc k, c, at_k ∙ omega arith, found)
            ]
    ]

pub select_move-child :
    (children : Nodes) (n_total j : ℕ)
    → select_move children n_total ≡ some j
    → (c : Node) × (child_at children j ≡ some c)
unfolding select_move
select_move-child children n_total j e = elim (select_loop-child children 0 n_total none 0 j e) [
  | inl nothing ↦ absurd (ground (arith, nothing))
  | inr (k, c, at_k, found) ↦ let at_k' : j ≡ k = at_k ∙ omega arith in (c, rw at_k' found)
]
