-- ===== src/System/Invariant/Owned.antt =====
-- The invariant of a game among the work items and the workers.
use kxo.Prelude.{ℕ, ◌+◌, ◌<◌, ◌≤◌, ◌≡◌, List, [], ◌∷◌, some, get_elem?}
use kxo.Engine.{AiGame, AiGameState, game_busy, game_ready, game_done, Work, FinishWork}
use kxo.Engine.Move.{one, two}
use kxo.Engine.Move.Keeps.{IsGame, side_turn}
use kxo.System.{Worker, System}
use kxo.System.Invariant.Counts.{total, n_item, n_finish, n_run}

abbrev pub Phase : AiGameState → ℕ → ℕ → ℕ → ℕ → Type 0
Phase game_busy a b c d = (a + b + c ≡ 1) × (d ≡ 0)
Phase game_ready a b c d = (a + b + c ≡ 0) × (d ≡ 0)
Phase game_done a b c d = (a + b + c ≡ 0) × (d ≤ 1)

-- What a worker has read is what its game still holds, and it is the worker's turn.
pub record Matches (g : AiGame) (w : Worker) : Type 0 where
  pub attr_is : w.snap.attr ≡ g.xo_tlb.attr
  pub table_is : w.snap.table ≡ g.xo_tlb.table
  pub turn_is : g.turn ≡ side_turn w.side

abbrev pub Runs : ℕ → AiGame → List Worker → Type 0
Runs i g [] = Unit {0}
Runs i g (w ∷ ws) = (w.idx ≡ i → Matches g w) × Runs i g ws

pub record Owned (i : ℕ) (g : AiGame) (q : List Work) (r : List Worker) : Type 0 where
  pub game : IsGame i g
  pub phase :
      Phase g.state
        (total (n_item one i) q)
        (total (n_item two i) q)
        (total (n_run i) r)
        (total (n_finish i) q)
  pub turn_one : 0 < total (n_item one i) q → g.turn ≡ side_turn one
  pub turn_two : 0 < total (n_item two i) q → g.turn ≡ side_turn two
  pub runs : Runs i g r

abbrev pub AllOwned : List AiGame → List Work → List Worker → Type 0
AllOwned games q r = (i : ℕ) (g : AiGame) → get_elem? games i ≡ some g → Owned i g q r

-- A queued finish work names its own game.
abbrev pub FinishIs : List FinishWork → List Work → Type 0
FinishIs fws q =
    (i : ℕ) (fw : FinishWork)
    → get_elem? fws i ≡ some fw
    → 0 < total (n_finish i) q
    → fw.game_idx ≡ i

pub record IsSound {Rl : Type 0} (s : System Rl) : Type 0 where
  pub owned : AllOwned s.kxo.games s.kxo.queued s.running
  pub finish_is : FinishIs s.kxo.finish_works s.kxo.queued

-- The work items and the workers of game `i` are the same before and after.
pub record SameFor (i : ℕ) (q q' : List Work) (r r' : List Worker) : Type 0 where
  pub ones : total (n_item one i) q' ≡ total (n_item one i) q
  pub twos : total (n_item two i) q' ≡ total (n_item two i) q
  pub finishes : total (n_finish i) q' ≡ total (n_finish i) q
  pub workers : total (n_run i) r' ≡ total (n_run i) r
  pub runs : (g : AiGame) → Runs i g r → Runs i g r'

pub SameFor-Owned :
    {i : ℕ} {g : AiGame} {q q' : List Work} {r r' : List Worker}
    → SameFor i q q' r r'
    → Owned i g q r
    → Owned i g q' r'
SameFor-Owned {g} e o = record {
  game = o.game;
  phase = rw (e.ones, e.twos, e.finishes, e.workers) o.phase;
  turn_one = rw e.ones o.turn_one;
  turn_two = rw e.twos o.turn_two;
  runs = e.runs g o.runs;
}
