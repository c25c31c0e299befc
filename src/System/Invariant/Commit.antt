-- ===== src/System/Invariant/Commit.antt =====
-- src/main.c: the invariant across the write of a worker.
use kxo.Prelude.{
  ℕ, ◌+◌, ◌<◌, ◌≡◌, refl, arith, List, ◌∷◌, ◌++◌, some, none, Option, sym, if_both, inl, inr, Bool,
  true, false, ◌==◌, ◌||◌,
}
use kxo.Board.{table_get_cell, cell_empty}
use kxo.Engine.{Kxo, AiGame, game_ready, Work, xo_ai_mcts, xo_ai_negamax}
use kxo.Engine.Move.{
  Side, one, two, Snapshot, ai_work_commit, apply_move, note_move, add_nsecs, play_agent_move,
  player, who,
}
use kxo.Engine.Move.Keeps.{IsGame, set_state-IsGame, apply_move-IsGame, side_turn}
use kxo.Board.Answers.{IsPlayer}
use kxo.Board.Win.Correct.{IsBoard}
use kxo.System.{Worker, IsLegal}
use kxo.System.Invariant.Counts.{total, total-split, n_item, n_finish, n_run}
use kxo.System.Invariant.Owned.{Owned}
use kxo.System.Invariant.Update.{modify-AllOwned, leave-SameFor, Runs-none, Runs-found}
use kxo.System.Invariant.Workers.{busy_of_work}
use kxo.System.Invariant.Timers.{Keeps}

-- The answer is -1 or what the agent says.
play_agent_move-answer :
    (P : Option ℕ → Type 0) (play : ℕ → ℕ → ℕ → Option ℕ) (down down' : Bool) (who table player : ℕ)
    → P none
    → P (play who table player)
    → P (play_agent_move play down down' who table player)
unfolding play_agent_move
play_agent_move-answer P play true down' who table player n a = n
play_agent_move-answer P play false true who table player n a =
    if_both P (who == xo_ai_mcts || who == xo_ai_negamax) none (play who table player) n a
play_agent_move-answer P play false false who table player n a =
    if_both P (who == xo_ai_mcts || who == xo_ai_negamax) (play who table player)
      (play who table player) a a

-- An agent's answer is a free cell of the board, whether or not the module is shutting down.
pub play_agent_move-legal :
    (play : ℕ → ℕ → ℕ → Option ℕ)
    → IsLegal play
    → (down down' : Bool) (who table player m : ℕ) → IsBoard table
    → IsPlayer player
    → play_agent_move play down down' who table player ≡ some m
    → (m < 16) × (table_get_cell table m ≡ cell_empty)
play_agent_move-legal play legal down down' who table player m board is =
    play_agent_move-answer (λ o. o ≡ some m → (m < 16) × (table_get_cell table m ≡ cell_empty)) play
      down down' who table player (λ e. absurd (ground (arith, e)))
      (legal who table player m board is)

player-IsPlayer : (side : Side) → IsPlayer (player side)
player-IsPlayer one = inl refl
player-IsPlayer two = inr refl

snap_is :
    (s : Snapshot) (a t : ℕ)
    → s.attr ≡ a
    → s.table ≡ t
    → Path Snapshot (record { attr = a; table = t }) s
snap_is s a t e f = rw (← e, ← f) refl

module _ (side : Side) (i : ℕ) (snap : Snapshot) (g : AiGame) where
  move-IsGame :
      (mv : Option ℕ)
      → IsGame i g
      → g.turn ≡ side_turn side
      → snap.attr ≡ g.xo_tlb.attr
      → snap.table ≡ g.xo_tlb.table
      → ((m : ℕ) → mv ≡ some m → (m < 16) × (table_get_cell g.xo_tlb.table m ≡ cell_empty))
      → IsGame i (apply_move side snap mv g)
  unfolding apply_move
  move-IsGame none v turn a t legal = set_state-IsGame i g game_ready v
  move-IsGame (some m) v turn a t legal =
      rw (← snap_is snap _ _ a t)
        (apply_move-IsGame side i g v turn m (legal m refl).0 (legal m refl).1)

  apply_move-state : (mv : Option ℕ) → (apply_move side snap mv g).state ≡ game_ready
  unfolding apply_move
  apply_move-state none = refl
  apply_move-state (some m) = refl

module _ {Rl : Type 0} where
  note_move-rest :
      (side : Side) (snap : Snapshot) (mv : Option ℕ) (k : Kxo Rl)
      → ((note_move side snap mv k).games ≡ k.games)
        × ((note_move side snap mv k).queued ≡ k.queued)
        × ((note_move side snap mv k).finish_works ≡ k.finish_works)
  unfolding note_move
  note_move-rest side snap none k = (refl, refl, refl)
  note_move-rest side snap (some m) k =
      if_both
        (λ (k' : Kxo Rl).
          (k'.games ≡ k.games) × (k'.queued ≡ k.queued) × (k'.finish_works ≡ k.finish_works))
        _ _ _ (refl, refl, refl) (refl, refl, refl)

  add_nsecs-Keeps :
      (side : Side) (id nsecs : ℕ) (k : Kxo Rl) (r : List Worker)
      → Keeps r k
      → Keeps r (add_nsecs side id nsecs k)
  unfolding add_nsecs
  add_nsecs-Keeps one id nsecs k r h = record { owned = h.owned; finish_is = h.finish_is }
  add_nsecs-Keeps two id nsecs k r h = record { owned = h.owned; finish_is = h.finish_is }

module _ (w : Worker) (before after : List Worker) (q : List Work) (g : AiGame)
    (o : Owned w.idx g q (before ++ w ∷ after)) where
  worker_at :
      (total (n_item one w.idx) q
          + total (n_item two w.idx) q
          + total (n_run w.idx) (before ++ after)
        ≡ 0)
      × (total (n_finish w.idx) q ≡ 0)
  worker_at =
      let mine : n_run w.idx w ≡ 1 = ground arith in
      let busy =
        busy_of_work g.state _ _ _ _ o.phase
          (omega (arith, mine, total-split (n_run w.idx) before w after)) in
      (omega (arith, busy.1, mine, total-split (n_run w.idx) before w after), busy.2)

  pub commit-Owned :
      (mv : Option ℕ)
      → ((m : ℕ)
          → IsBoard w.snap.table
          → mv ≡ some m
          → (m < 16) × (table_get_cell w.snap.table m ≡ cell_empty))
      → Owned w.idx (apply_move w.side w.snap mv g) q (before ++ after)
  commit-Owned mv legal =
      let read = Runs-found w.idx g before w after o.runs refl in
      record {
        game =
            move-IsGame w.side w.idx w.snap g mv o.game read.turn_is read.attr_is read.table_is
              (λ m e. rw read.table_is at (legal m (rw read.table_is o.game.board) e));
        phase = rw (apply_move-state w.side w.idx w.snap g mv) worker_at;
        turn_one = λ h. absurd (omega (arith, worker_at));
        turn_two = λ h. absurd (omega (arith, worker_at));
        runs = Runs-none w.idx _ (before ++ after) (omega (arith, worker_at));
      }

pub ai_work_commit-Keeps :
    {Rl : Type 0} (play : ℕ → ℕ → ℕ → Option ℕ)
    → IsLegal play
    → (w : Worker) (before after : List Worker) (down down' : Bool) (nsecs : ℕ) (k : Kxo Rl)
    → Keeps (before ++ w ∷ after) k
    → Keeps (before ++ after) (ai_work_commit play w.side w.idx w.snap down down' nsecs k)
unfolding ai_work_commit
ai_work_commit-Keeps play legal w before after down down' nsecs k h =
    let mv =
      play_agent_move play down down' (who w.side w.snap.attr) w.snap.table (player w.side) in
    let rest = note_move-rest w.side w.snap mv k in
    add_nsecs-Keeps w.side _ nsecs _ (before ++ after) (record {
      owned =
          rw (rest.0, rest.1)
            (modify-AllOwned k.games w.idx (apply_move w.side w.snap mv) k.queued k.queued
              (before ++ w ∷ after) (before ++ after) h.owned
              (λ j ne. leave-SameFor j k.queued before w after (λ e. ne (sym e)))
              (λ g found o. commit-Owned w before after k.queued g o mv (λ m board e.
                play_agent_move-legal play legal down down' (who w.side w.snap.attr) w.snap.table
                  (player w.side) m board (player-IsPlayer w.side) e)));
      finish_is = rw (rest.1, rest.2) h.finish_is;
    })
