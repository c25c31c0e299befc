-- ===== src/Coro/Ends.antt =====
-- user/coro.c: the loop of `co_run`, and what holds when it returns.
use kxo.Prelude.{
  ℕ, zero, suc, ◌+◌, ◌<◌, ◌≡◌, ◌⊎◌, inl, inr, refl, sym, ap, ◌∙◌, arith, List, [], ◌∷◌, ◌++◌,
  Option, some, none, length, true, false, ◌≢◌, ◌==◌, if◌then◌else◌,
}
use native.Mathlib.Decide.{ℕ_discrete}
use kxo.Coro.Runs.{sends}
use mathlib.Core.List.{append_assoc, append-nil}
use kxo.Coro.{co_max, co_free, co_blocked, Sched, World, dequeue, turn, co_run}
use kxo.Coro.Queue.{dequeue-IsQueue, dequeue-empty}
use kxo.Coro.Turns.{IsWorld}
use kxo.Coro.Channel.{IsChan}
use kxo.Coro.Rounds.{acts_left, turn-Turned}

-- What the runs of the loop have sent, each with its coroutine; and what the coroutine `x` has.
abbrev pub all_sent : List (ℕ × List ℕ) → List ℕ
all_sent [] = []
all_sent ((i, sent) ∷ turns) = sent ++ all_sent turns

abbrev pub sent_by : ℕ → List (ℕ × List ℕ) → List ℕ
sent_by x [] = []
sent_by x ((i, sent) ∷ turns) = if x == i then sent ++ sent_by x turns else sent_by x turns

-- What holds of the world `w'` in which `co_run` from `w` ends: the channel, which held `xs`, holds
-- `held`; of what a coroutine had to send it has sent the first part, in `turns`, and has the rest
-- before it.
pub record Ended (xs : List ℕ) (w w' : World) : Type 0 where
  pub held : List ℕ
  pub turns : List (ℕ × List ℕ)
  pub idle : w'.sched.current ≡ none
  pub parked :
      (x : ℕ) → ((w'.sched.pool x).state ≡ co_free) ⊎ ((w'.sched.pool x).state ≡ co_blocked)
  pub holds : IsChan w'.chan held
  pub in_order :
      (x : ℕ) → sends (w.sched.pool x).todo ≡ sent_by x turns ++ sends (w'.sched.pool x).todo
  pub stream : w'.received ++ held ≡ (w.received ++ xs) ++ all_sent turns

pub co_run-idle :
    (fuel : ℕ) (w : World)
    → dequeue w.sched ≡ (none, w.sched)
    → co_run (suc fuel) w ≡ some (record w { sched = record w.sched { current = none } })
unfolding co_run
co_run-idle fuel w e =
    rw (co_run, ap (λ (r : Option ℕ × Sched). r.0) e)
      (ap (λ (r : Option ℕ × Sched). some (record w { sched = record r.1 { current = none } })) e)

pub co_run-turn :
    (fuel i : ℕ) (w : World)
    → (dequeue w.sched).0 ≡ some i
    → co_run (suc fuel) w ≡ co_run fuel (turn i (record w { sched = (dequeue w.sched).1 }))
unfolding co_run
co_run-turn fuel i w e = rw (co_run, e) refl

-- One more turn in front.
next_turn :
    (x i : ℕ) (sent : List ℕ) (turns : List (ℕ × List ℕ)) (w w1 w' : World)
    → sends (w.sched.pool i).todo ≡ sent ++ sends (w1.sched.pool i).todo
    → ((y : ℕ) → y ≢ i → (w1.sched.pool y).todo ≡ (w.sched.pool y).todo)
    → sends (w1.sched.pool x).todo ≡ sent_by x turns ++ sends (w'.sched.pool x).todo
    → sends (w.sched.pool x).todo ≡ sent_by x ((i, sent) ∷ turns) ++ sends (w'.sched.pool x).todo
next_turn x i sent turns w w1 w' first others later = elim (ℕ_discrete x i) [
  | yes same ↦
      let e : (x == i) ≡ true = ground (arith, same) in
      rw e (
        ap (λ y. sends (w.sched.pool y).todo) same
        ∙ first
        ∙ ap (λ y. sent ++ sends (w1.sched.pool y).todo) (sym same)
        ∙ ap (λ ys. sent ++ ys) later
        ∙ sym (append_assoc sent (sent_by x turns) (sends (w'.sched.pool x).todo)))
  | no ne ↦
      let e : (x == i) ≡ false = ground (arith, ne) in rw e (ap sends (sym (others x ne)) ∙ later)
]

-- `co_run` returns once it is given more rounds than there are acts before the coroutines and
-- coroutines in the run queue, when the run queue holds the coroutines that are ready, none runs, the
-- waiters of the channel are blocked, and the channel is in order. Then no coroutine is current, each
-- is free or blocked, the channel is in order, and no message is lost, doubled or reordered: of the
-- messages that a coroutine had to send, in their order, it has sent a first part and has the rest
-- before it; the turns of the coroutines, one after the other, put these parts together; and what
-- has been received, with what the channel holds behind it, is what it was before with all of that
-- behind it.
pub co_run-Ended :
    (fuel : ℕ) (q xs : List ℕ) (w : World)
    → IsWorld none q xs w
    → acts_left co_max w.sched.pool + length q < fuel
    → (w' : World) × (co_run fuel w ≡ some w') × Ended xs w w'
co_run-Ended zero q xs w v enough = absurd (omega (arith, enough))
co_run-Ended (suc fuel) [] xs w v enough = (
  record w { sched = record w.sched { current = none } },
  co_run-idle fuel w (dequeue-empty w.sched v.is_ready.queue),
  record {
    held = xs;
    turns = [];
    in_order = λ x. refl;
    idle = refl;
    parked = λ x. elim (v.at_rest x (λ e. absurd (ground (arith, e)))) [
      | inl free ↦ inl free
      | inr (inl ready) ↦ absurd (v.is_ready.queued x ready)
      | inr (inr blocked) ↦ inr blocked
    ];
    holds = v.holds;
    stream = sym (append-nil (w.received ++ xs));
  },
)
co_run-Ended (suc fuel) (i ∷ q) xs w v enough =
    let t = turn-Turned i q xs w v in
    let w1 : World = turn i (record w { sched = (dequeue w.sched).1 }) in
    let (w', returns, ended) =
      co_run-Ended fuel t.queue t.held w1 t.world (omega (arith, t.work, enough)) in
    (
      w',
      co_run-turn fuel i w (dequeue-IsQueue w.sched i q v.is_ready.queue).0 ∙ returns,
      record {
        held = ended.held;
        turns = (i, t.sent) ∷ ended.turns;
        in_order =
            λ x. next_turn x i t.sent ended.turns w w1 w' t.in_order t.others (ended.in_order x);
        idle = ended.idle;
        parked = ended.parked;
        holds = ended.holds;
        stream =
            ended.stream
            ∙ ap (λ ys. ys ++ all_sent ended.turns) t.stream
            ∙ append_assoc (w.received ++ xs) t.sent (all_sent ended.turns);
      },
    )
