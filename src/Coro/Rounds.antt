-- ===== src/Coro/Rounds.antt =====
-- user/coro.c: a round of the loop of `co_run`, and the work that it leaves.
use kxo.Prelude.{
  ℕ, zero, suc, ◌+◌, ◌<◌, ◌≤◌, ◌≡◌, ◌≢◌, ◌⊎◌, inl, inr, refl, sym, ap, ◌∙◌, arith, List, ◌∷◌, ◌++◌,
  some, none, length,
}
use mathlib.Core.Path.{subst}
use mathlib.Core.Option.{some-injective}
use native.Mathlib.Decide.{ℕ_discrete}
use kxo.Coro.{
  co_max, CoState, co_free, co_ready, co_running, co_blocked, co_done, Coroutine, Pool, Sched,
  World, set_co_state, dequeue, run_co, settle, turn,
}
use kxo.Prelude.{put, put_self, put_other}
use kxo.Coro.Ready.{put_field, put-IsReady, dequeue-SameWork, dequeue-IsReady}
use kxo.Coro.Turns.{AtRest, Waits, IsWorld, not_queued}
use kxo.Coro.Runs.{sends, IsRunning, Ran}
use kxo.Coro.Steps.{run_co-Ran}

-- The acts that the first `n` slots have before them.
abbrev pub acts_left : ℕ → Pool → ℕ
acts_left zero p = 0
acts_left (suc n) p = length (p n).todo + acts_left n p

acts_left-same :
    (n : ℕ) (p p' : Pool)
    → ((x : ℕ) → x < n → (p' x).todo ≡ (p x).todo)
    → acts_left n p' ≡ acts_left n p
acts_left-same zero p p' same = refl
acts_left-same (suc n) p p' same =
    rw (same n (omega arith), acts_left-same n p p' (λ x lt. same x (omega arith)))

-- When one slot has changed.
acts_left-changed :
    (n i : ℕ) (p p' : Pool)
    → i < n
    → ((x : ℕ) → x ≢ i → (p' x).todo ≡ (p x).todo)
    → acts_left n p' + length (p i).todo ≡ acts_left n p + length (p' i).todo
acts_left-changed zero i p p' lt same = absurd (omega (arith, lt))
acts_left-changed (suc n) i p p' lt same = elim (ℕ_discrete i n) [
  | yes e ↦ rw (e, acts_left-same n p p' (λ x l. same x (omega (arith, e)))) (omega arith)
  | no ne ↦
      rw (same n (λ e. ne (sym e)))
        (omega (arith, acts_left-changed n i p p' (omega (arith, ne)) same))
]

-- What one round of the loop leaves, when it was the turn of the coroutine `i` and `n` acts and
-- coroutines were to come.
pub record Turned (i n : ℕ) (q xs : List ℕ) (w w' : World) : Type 0 where
  pub queue : List ℕ
  pub held : List ℕ
  pub sent : List ℕ
  pub world : IsWorld none queue held w'
  pub stream : w'.received ++ held ≡ (w.received ++ xs) ++ sent
  pub in_order : sends (w.sched.pool i).todo ≡ sent ++ sends (w'.sched.pool i).todo
  pub others : (x : ℕ) → x ≢ i → (w'.sched.pool x).todo ≡ (w.sched.pool x).todo
  pub work : acts_left co_max w'.sched.pool + length queue ≤ n

module _ (i : ℕ) (lt : i < co_max) (n : ℕ) (q xs q1 xs1 sent : List ℕ) (w w1 : World) where
  module _ (v : IsWorld (some i) q1 xs1 w1)
      (stream : w1.received ++ xs1 ≡ (w.received ++ xs) ++ sent)
      (in_order : sends (w.sched.pool i).todo ≡ sent ++ sends (w1.sched.pool i).todo)
      (others : (x : ℕ) → x ≢ i → (w1.sched.pool x).todo ≡ (w.sched.pool x).todo)
      (work : acts_left co_max w1.sched.pool + length q1 ≤ n) where
    -- A coroutine that waits, or is ready again.
    rested : AtRest (w1.sched.pool i).state → Turned i n q xs w w1
    rested rest = record {
      queue = q1;
      held = xs1;
      sent = sent;
      world = record {
        is_ready = v.is_ready;
        at_rest = λ x _. elim (ℕ_discrete x i) [
          | yes e ↦ rw e rest
          | no ne ↦ v.at_rest x (λ f. ne (sym (some-injective _ _ f)))
        ];
        waiters = v.waiters;
        holds = v.holds;
      };
      stream = stream;
      in_order = in_order;
      others = others;
      work = work;
    }

    -- A coroutine that is done.
    freed :
        (w1.sched.pool i).state ≡ co_done
        → Turned i n q xs w (record w1 { sched = set_co_state i co_free w1.sched })
    freed e =
        let c : Coroutine = record (w1.sched.pool i) { state = co_free } in
        let busy : (w1.sched.pool i).state ≢ co_ready = λ f. absurd (ground (arith, e, f)) in
        record {
          queue = q1;
          held = xs1;
          sent = sent;
          world = record {
            is_ready =
                put-IsReady w1.sched q1 i c v.is_ready (not_queued w1.sched q1 i v.is_ready busy)
                  (λ f. absurd (ground (arith, f)));
            at_rest = λ x _.
                put_field (λ (d : Coroutine). d.state) w1.sched.pool i c (λ x st. AtRest st)
                  (inl refl) (λ x ne. v.at_rest x (λ f. ne (sym (some-injective _ _ f)))) x;
            waiters = record {
              at_recv = λ j f. kept_waiting e j (v.waiters.at_recv j f);
              at_send = λ j f. kept_waiting e j (v.waiters.at_send j f);
              differ = v.waiters.differ;
            };
            holds = v.holds;
          };
          stream = stream;
          in_order = in_order ∙ ap (λ acts. sent ++ sends acts) (sym (same_todo i));
          others = λ x ne. same_todo x ∙ others x ne;
          work =
              subst (λ k. k + length q1 ≤ n)
                (sym (
                  acts_left-same co_max w1.sched.pool (put w1.sched.pool i c) (λ x _. same_todo x)))
                work;
        }
      where
        same_todo :
            (x : ℕ) → ((set_co_state i co_free w1.sched).pool x).todo ≡ (w1.sched.pool x).todo
        same_todo x =
            put_field (λ (d : Coroutine). d.todo) w1.sched.pool i
              (record (w1.sched.pool i) { state = co_free }) (λ x t. t ≡ (w1.sched.pool x).todo)
              refl (λ x ne. refl) x

        kept_waiting :
            (w1.sched.pool i).state ≡ co_done
            → (j : ℕ) → Waits w1.sched j
            → Waits (set_co_state i co_free w1.sched) j
        kept_waiting e j h = (
          rw
              (put_other w1.sched.pool i j (record (w1.sched.pool i) { state = co_free })
                (other e j h.0))
              h.0,
          h.1,
        )
          where
            other :
                (w1.sched.pool i).state ≡ co_done
                → (j : ℕ) → (w1.sched.pool j).state ≡ co_blocked
                → j ≢ i
            other e j b f =
                let b' = subst (λ k. (w1.sched.pool k).state ≡ co_blocked) f b in
                absurd (ground (arith, e, b'))

    settle-Turned :
        (st : CoState)
        → (w1.sched.pool i).state ≡ st
        → (st ≡ co_done) ⊎ AtRest st
        → Turned i n q xs w (record w1 { sched = settle st i w1.sched })
    unfolding settle
    settle-Turned co_free e rest = rested (rw e (inl refl))
    settle-Turned co_ready e rest = rested (rw e (inr (inl refl)))
    settle-Turned co_running e rest = absurd (ground (arith, rest))
    settle-Turned co_blocked e rest = rested (rw e (inr (inr refl)))
    settle-Turned co_done e rest = freed e

-- The coroutine `i`, first in the run queue, starts to run.
module _ (i : ℕ) (q xs : List ℕ) (w : World) (v : IsWorld none (i ∷ q) xs w) where
  abbrev pub chosen : Sched
  chosen = record (set_co_state i co_running (dequeue w.sched).1) { current = some i }

  chosen-other : (x : ℕ) → x ≢ i → (chosen.pool x).state ≡ (w.sched.pool x).state
  chosen-other x ne =
      rw
        (put_other (dequeue w.sched).1.pool i x
          (record ((dequeue w.sched).1.pool i) { state = co_running }) ne)
        (dequeue-SameWork w.sched x).0

  chosen-todo : (x : ℕ) → (chosen.pool x).todo ≡ (w.sched.pool x).todo
  chosen-todo x =
      put_field (λ (d : Coroutine). d.todo) (dequeue w.sched).1.pool i
        (record ((dequeue w.sched).1.pool i) { state = co_running })
        (λ x t. t ≡ (w.sched.pool x).todo) (dequeue-SameWork w.sched i).1
        (λ x ne. (dequeue-SameWork w.sched x).1) x

  chosen-Waits : (j : ℕ) → Waits w.sched j → Waits chosen j
  chosen-Waits j h = (chosen-other j (λ f. ready_too f) ∙ h.0, h.1)
    where
      ready_too : j ≢ i
      ready_too f =
          let ready = v.is_ready.ready i (inl refl) in
          let blocked = subst (λ k. (w.sched.pool k).state ≡ co_blocked) f h.0 in
          absurd (ground (arith, ready, blocked))

  turn-IsRunning : (lt : i < co_max) → IsRunning i lt q xs (record w { sched = chosen })
  turn-IsRunning lt = record {
    world = record {
      is_ready = dequeue-IsReady w.sched q i v.is_ready;
      at_rest = λ x ne.
          rw (chosen-other x (λ f. ne (ap some (sym f))))
            (v.at_rest x (λ f. absurd (ground (arith, f))));
      waiters = record {
        at_recv = λ j f. chosen-Waits j (v.waiters.at_recv j f);
        at_send = λ j f. chosen-Waits j (v.waiters.at_send j f);
        differ = v.waiters.differ;
      };
      holds = v.holds;
    };
    runs =
        ap (λ (c : Coroutine). c.state)
          (put_self (dequeue w.sched).1.pool i
            (record ((dequeue w.sched).1.pool i) { state = co_running }));
  }

  pub turn-Turned :
      Turned i
        (acts_left co_max w.sched.pool + length q)
        q
        xs
        w
        (turn i (record w { sched = (dequeue w.sched).1 }))
  unfolding turn
  turn-Turned =
      let lt = v.is_ready.in_pool i (inl refl) in
      let w1 : World = run_co i (chosen.pool i).todo (record w { sched = chosen }) in
      let r : Ran i lt (chosen.pool i).todo q xs (record w { sched = chosen }) w1 =
        run_co-Ran i lt (chosen.pool i).todo q xs (record w { sched = chosen })
          (turn-IsRunning lt) in
      let before : acts_left co_max chosen.pool ≡ acts_left co_max w.sched.pool =
        acts_left-same co_max w.sched.pool chosen.pool (λ x _. chosen-todo x) in
      let after = acts_left-changed co_max i chosen.pool w1.sched.pool lt r.others in
      settle-Turned i lt (acts_left co_max w.sched.pool + length q) q xs r.queue r.held r.sent w w1
        r.world r.stream (ap sends (sym (chosen-todo i)) ∙ r.in_order)
        (λ x ne. r.others x ne ∙ chosen-todo x) (omega (arith, before, after, r.work))
        (w1.sched.pool i).state refl r.state_left
