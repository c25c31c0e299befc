-- ===== src/System/Invariant/Update.antt =====
-- The invariant of every game across one change of a game, the queue or the workers.
use kxo.Prelude.{
  ℕ, ◌≡◌, ◌≢◌, refl, arith, List, [], ◌∷◌, ◌++◌, some, get_elem?, modify, ◌∙◌, sym,
  get_elem?-modify_ne, modify-found,
}
use native.Mathlib.Decide.{ℕ_discrete}
use kxo.Engine.{AiGame, Work}
use kxo.Engine.Move.{one, two}
use kxo.System.{Worker}
use kxo.System.Invariant.Counts.{total, total-append, total-split, n_item, n_finish, n_run}
use kxo.System.Invariant.Owned.{Matches, Runs, Owned, AllOwned, SameFor, SameFor-Owned}

-- A change of game `j` alone.
pub modify-AllOwned :
    (games : List AiGame) (j : ℕ) (f : AiGame → AiGame) (q q' : List Work) (r r' : List Worker)
    → AllOwned games q r
    → ((i : ℕ) → i ≢ j → SameFor i q q' r r')
    → ((g : AiGame) → get_elem? games j ≡ some g → Owned j g q r → Owned j (f g) q' r')
    → AllOwned (modify games j f) q' r'
modify-AllOwned games j f q q' r r' all others here i g' e = elim (ℕ_discrete i j) [
  | yes same ↦ at_j (rw same at e) same
  | no ne ↦
      SameFor-Owned (others i ne)
        (all i g' (sym (get_elem?-modify_ne games j i f (λ h. ne (sym h))) ∙ e))
]
  where
    at_j : get_elem? (modify games j f) j ≡ some g' → i ≡ j → Owned i g' q' r'
    at_j e' same =
        let (g, found, is) = modify-found games j f g' e' in
        rw (same, ← is) (here g found (all j g found))

-- A change of the queue or the workers alone.
pub same-AllOwned :
    (games : List AiGame) (q q' : List Work) (r r' : List Worker)
    → AllOwned games q r
    → ((i : ℕ) → SameFor i q q' r r')
    → AllOwned games q' r'
same-AllOwned games q q' r r' all same i g e = SameFor-Owned (same i) (all i g e)

-- An item that belongs to no agent of game `i`, nor finishes it, joins or leaves the queue.
pub push-SameFor :
    (i : ℕ) (q : List Work) (w : Work) (r : List Worker)
    → n_item one i w ≡ 0
    → n_item two i w ≡ 0
    → n_finish i w ≡ 0
    → SameFor i q (q ++ w ∷ []) r r
push-SameFor i q w r a b c = record {
  ones = omega (arith, total-append (n_item one i) q (w ∷ []));
  twos = omega (arith, total-append (n_item two i) q (w ∷ []));
  finishes = omega (arith, total-append (n_finish i) q (w ∷ []));
  workers = refl;
  runs = λ g h. h;
}

pub take-SameFor :
    (i : ℕ) (before after : List Work) (w : Work) (r : List Worker)
    → n_item one i w ≡ 0
    → n_item two i w ≡ 0
    → n_finish i w ≡ 0
    → SameFor i (before ++ w ∷ after) (before ++ after) r r
take-SameFor i before after w r a b c = record {
  ones = omega (arith, total-split (n_item one i) before w after);
  twos = omega (arith, total-split (n_item two i) before w after);
  finishes = omega (arith, total-split (n_finish i) before w after);
  workers = refl;
  runs = λ g h. h;
}

pub trans-SameFor :
    {i : ℕ} {q q' q'' : List Work} {r r' r'' : List Worker}
    → SameFor i q q' r r'
    → SameFor i q' q'' r' r''
    → SameFor i q q'' r r''
trans-SameFor e f = record {
  ones = f.ones ∙ e.ones;
  twos = f.twos ∙ e.twos;
  finishes = f.finishes ∙ e.finishes;
  workers = f.workers ∙ e.workers;
  runs = λ g h. f.runs g (e.runs g h);
}

pub Runs-remove :
    (i : ℕ) (g : AiGame) (before : List Worker) (w : Worker) (after : List Worker)
    → Runs i g (before ++ w ∷ after)
    → Runs i g (before ++ after)
Runs-remove i g [] w after h = h.1
Runs-remove i g (x ∷ before) w after h = (h.0, Runs-remove i g before w after h.1)

pub Runs-found :
    (i : ℕ) (g : AiGame) (before : List Worker) (w : Worker) (after : List Worker)
    → Runs i g (before ++ w ∷ after)
    → w.idx ≡ i
    → Matches g w
Runs-found i g [] w after h = h.0
Runs-found i g (x ∷ before) w after h = Runs-found i g before w after h.1

-- A game with no worker asks nothing of the workers.
pub Runs-none : (i : ℕ) (g : AiGame) (r : List Worker) → total (n_run i) r ≡ 0 → Runs i g r
Runs-none i g [] h = tt
Runs-none i g (w ∷ ws) h = (λ e. absurd (ground (arith, h, e)), Runs-none i g ws (omega arith))

-- A worker of another game leaves.
pub leave-SameFor :
    (i : ℕ) (q : List Work) (before : List Worker) (w : Worker) (after : List Worker)
    → w.idx ≢ i
    → SameFor i q q (before ++ w ∷ after) (before ++ after)
leave-SameFor i q before w after ne = record {
  ones = refl;
  twos = refl;
  finishes = refl;
  workers = ground (arith, total-split (n_run i) before w after);
  runs = λ g. Runs-remove i g before w after;
}

-- A worker of another game joins.
pub join-SameFor :
    (i : ℕ) (q : List Work) (r : List Worker) (w : Worker) → w.idx ≢ i → SameFor i q q r (w ∷ r)
join-SameFor i q r w ne = record {
  ones = refl;
  twos = refl;
  finishes = refl;
  workers = ground (arith, ne);
  runs = λ g h. (λ e. absurd (ne e), h);
}
