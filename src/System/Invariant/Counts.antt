-- ===== src/System/Invariant/Counts.antt =====
-- How many work items and workers a game has.
use kxo.Prelude.{ℕ, ◌+◌, ◌≡◌, arith, List, [], ◌∷◌, ◌++◌, ◌==◌, if◌then◌else◌}
use kxo.Engine.{Work, ai_one_work, ai_two_work, drawboard_work, finish_work}
use kxo.Engine.Move.{Side, one, two}
use kxo.System.{Worker}

module _ {ℓ} {A : Type ℓ} where
  abbrev pub total : (A → ℕ) → List A → ℕ
  total f [] = 0
  total f (x ∷ xs) = f x + total f xs

  pub total-append : (f : A → ℕ) (xs ys : List A) → total f (xs ++ ys) ≡ total f xs + total f ys
  total-append f [] ys = omega arith
  total-append f (x ∷ xs) ys = omega (arith, total-append f xs ys)

  -- Taking one entry out takes its count out.
  pub total-split :
      (f : A → ℕ) (xs : List A) (x : A) (ys : List A)
      → total f (xs ++ x ∷ ys) ≡ f x + total f (xs ++ ys)
  total-split f xs x ys = omega (arith, total-append f xs (x ∷ ys), total-append f xs ys)

abbrev pub one_at : ℕ → ℕ → ℕ
one_at i j = if i == j then 1 else 0

abbrev pub n_item : Side → ℕ → Work → ℕ
n_item one i (ai_one_work j) = one_at i j
n_item one i (ai_two_work j) = 0
n_item one i (drawboard_work j) = 0
n_item one i (finish_work j) = 0
n_item two i (ai_one_work j) = 0
n_item two i (ai_two_work j) = one_at i j
n_item two i (drawboard_work j) = 0
n_item two i (finish_work j) = 0

abbrev pub n_finish : ℕ → Work → ℕ
n_finish i (ai_one_work j) = 0
n_finish i (ai_two_work j) = 0
n_finish i (drawboard_work j) = 0
n_finish i (finish_work j) = one_at i j

abbrev pub n_run : ℕ → Worker → ℕ
n_run i w = one_at i w.idx
