-- ===== src/Learner/Laws.antt =====
-- src/rl.c: what `play_rl` answers.
use kxo.Prelude.{
  ℕ, zero, suc, ◌+◌, ◌-◌, ◌<◌, ◌≡◌, refl, arith, Option, none, some, ◌==◌, if◌then◌else◌,
  Bool-cases, inl, inr, ==_iff, Bool, true, ◌%◌,
}
use kxo.Prelude.Int.{ℤ, ◌≤ℤ◌, ltb_ℤ, eq_of_parts}
use native.Mathlib.Decide.{ℕ_discrete}
use mathlib.Core.Option.{some-injective}
use kxo.Board.{n_grids, cell_empty, table_get_cell, val_set_cell}
use kxo.Learner.{Store, Choice, consider, play_loop, play_rl, rl_fixed_min}

-- What the loop has found among the cells below `i`, by their values `q`.
pub record Best (q : ℕ → ℤ) (free : ℕ → Bool) (i : ℕ) (c : Choice) : Type 0 where
  pub chosen : (m : ℕ) → c.max_act ≡ some m → (m < i) × (free m ≡ true) × (q m ≡ c.max_q)
  pub greatest : (p : ℕ) → p < i → free p ≡ true → q p ≤ℤ c.max_q
  pub unchosen : c.max_act ≡ none → c.max_q ≡ rl_fixed_min

module _ (q : ℕ → ℤ) (free : ℕ → Bool) (i : ℕ) (c : Choice) (b : Best q free i c) where
  -- The cells below `i` and the cell `i` itself are the cells below `i + 1`.
  bounded :
      (z : ℤ)
      → c.max_q ≤ℤ z
      → (free i ≡ true → q i ≤ℤ z)
      → (p : ℕ) → p < i + 1
      → free p ≡ true
      → q p ≤ℤ z
  bounded z up here p h f = elim (ℕ_discrete p i) [
    | yes e ↦ rw e (here (rw e at f))
    | no ne ↦ omega (arith, up, b.greatest p (omega arith) f)
  ]

  takes :
      free i ≡ true
      → c.max_q ≤ℤ q i
      → (n : ℕ)
      → Best q free (i + 1) (record { max_act = some i; max_q = q i; candidate_count = n })
  takes f up n = record {
    chosen = λ m e.
        let same = some-injective _ _ e in (omega (arith, same), rw (← same) f, rw (← same) refl);
    greatest = bounded (q i) up (λ _. omega arith);
    unchosen = λ e. absurd (ground (arith, e));
  }

  keeps :
      (free i ≡ true → q i ≤ℤ c.max_q)
      → (n : ℕ)
      → Best q free (i + 1) (record { max_act = c.max_act; max_q = c.max_q; candidate_count = n })
  keeps here n = record {
    chosen = λ m e. let found = b.chosen m e in (omega (arith, found.0), found.1, found.2);
    greatest = bounded c.max_q (omega arith) here;
    unchosen = b.unchosen;
  }

  consider-Best : (rnd : ℕ) → free i ≡ true → Best q free (i + 1) (consider rnd i (q i) c)
  unfolding consider
  consider-Best rnd f = elim (Bool-cases (ltb_ℤ c.max_q (q i))) [
    | inl up ↦ rw up (takes f (ground (arith, up)) 1)
    | inr not_up ↦ elim (Bool-cases (ltb_ℤ (q i) c.max_q)) [
      | inl down ↦ rw (not_up, down) (keeps (λ _. ground (arith, not_up)) c.candidate_count)
      | inr level ↦
          let same : q i ≡ c.max_q = eq_of_parts (q i) c.max_q (ground (arith, not_up, level)) in
          rw (not_up, level)
            (elim (Bool-cases (rnd % (c.candidate_count + 1) == 0)) [
              | inl drawn ↦
                  rw drawn
                    (rw same at (takes f (ground (arith, not_up, level)) (c.candidate_count + 1)))
              | inr passed ↦ rw passed (keeps (λ _. ground (arith, not_up)) (c.candidate_count + 1))
            ])
    ]
  ]

abbrev pub is_free : ℕ → ℕ → Bool
is_free table p = table_get_cell table p == cell_empty

module _ {S : Type 0} (store : Store S) (rnd : ℕ → ℕ) (table player : ℕ) (s0 : S) where
  -- What the store answers when it is asked for the board after the move `p`, and what it becomes.
  abbrev pub asked : ℕ → S → ℤ × S
  asked p s = store.find_rl_state (val_set_cell table p player) (player - 1) s

  -- The store when the loop comes to the cell `i`: the empty cells below it have been asked for.
  unfoldable pub before : ℕ → S
  before zero = s0
  before (suc i) = let s = before i in let s' = (asked i s).1 in if is_free table i then s' else s

  -- The value of a move: the score that the store gives when the loop asks for it.
  abbrev pub value : ℕ → ℤ
  value p = (asked p (before p)).0

  -- One round of the loop.
  abbrev round : ℕ → Choice × S → Choice × S
  round i (c, s) =
      let (new_q, s') = store.find_rl_state (val_set_cell table i player) (player - 1) s in
      if table_get_cell table i == cell_empty then (consider (rnd i) i new_q c, s') else (c, s)

  -- The choice and the store at the cell `i`.
  abbrev Runs : ℕ → Choice × S → Type 0
  Runs i acc = Best value (is_free table) i acc.0 × (acc.1 ≡ before i)

  round-Runs :
      (i : ℕ) (c : Choice) → Best value (is_free table) i c → Runs (i + 1) (round i (c, before i))
  unfolding before
  round-Runs i c b =
      let next : i + 1 ≡ suc i = omega arith in
      elim (Bool-cases (table_get_cell table i == cell_empty)) [
        | inl f ↦
            rw f (consider-Best value (is_free table) i c b (rnd i) f, rw (next, before, f) refl)
        | inr taken ↦ rw taken (
          keeps value (is_free table) i c b (λ f. absurd (ground (arith, f, taken)))
              c.candidate_count,
          rw (next, before, taken) refl,
        )
      ]

  play_loop-Runs :
      (left i : ℕ) (acc : Choice × S)
      → Runs i acc
      → Runs (i + left) (play_loop store rnd left i table player acc)
  unfolding play_loop
  play_loop-Runs zero i acc v = let e : i + 0 ≡ i = omega arith in rw e v
  play_loop-Runs (suc left) i (c, s) (b, same) =
      let e : i + suc left ≡ (i + 1) + left = omega arith in
      rw e (play_loop-Runs left (i + 1) (round i (c, s)) (rw same (round-Runs i c b)))

  -- An answer is right: the move `m` is an empty cell whose value is the greatest, and without a move
  -- no empty cell has a value above `RL_FIXED_MIN`.
  unfoldable pub IsGreatest : Option ℕ → Type 0
  IsGreatest none =
      (p : ℕ) → p < n_grids → table_get_cell table p ≡ cell_empty → value p ≤ℤ rl_fixed_min
  IsGreatest (some m) =
      (m < n_grids)
      × (table_get_cell table m ≡ cell_empty)
      × ((p : ℕ) → p < n_grids → table_get_cell table p ≡ cell_empty → value p ≤ℤ value m)

  Best-IsGreatest :
      (answer : Option ℕ) (max_q : ℤ) (n : ℕ)
      → Best value
          (is_free table)
          n_grids
          (record { max_act = answer; max_q = max_q; candidate_count = n })
      → IsGreatest answer
  unfolding IsGreatest
  Best-IsGreatest none max_q n best =
      λ p h f. rw (best.unchosen refl) at (best.greatest p h ((==_iff _ _).1 f))
  Best-IsGreatest (some m) max_q n best =
      let (below, found, same) = best.chosen m refl in
      (below, (==_iff _ _).0 found, λ p h f. rw same (best.greatest p h ((==_iff _ _).1 f)))

  -- What `play_rl` answers: an empty cell of the board to which the store gives a value that no other
  -- empty cell exceeds, or nothing, when no empty cell has a value above the least `int`. The value of
  -- a cell is the score that the store gives when the loop asks for the board after the move there,
  -- having asked for those of the empty cells below it.
  pub play_rl-Greatest : IsGreatest (play_rl store rnd table player s0).0
  unfolding play_rl before
  play_rl-Greatest =
      let start : Choice = record { max_act = none; max_q = rl_fixed_min; candidate_count = 1 } in
      let first : Best value (is_free table) 0 start = record {
        chosen = λ m e. absurd (ground (arith, e));
        greatest = λ p h. absurd (omega (arith, h));
        unchosen = λ e. refl;
      } in
      let last : Choice × S = play_loop store rnd n_grids 0 table player (start, s0) in
      Best-IsGreatest last.0.max_act last.0.max_q last.0.candidate_count
        (play_loop-Runs n_grids 0 (start, s0) (first, refl)).0
