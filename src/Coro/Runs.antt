-- ===== src/Coro/Runs.antt =====
-- user/coro.c: a coroutine from the switch to it up to its switch back to the scheduler.
use kxo.Prelude.{
  ℕ, ◌+◌, ◌<◌, ◌≤◌, ◌≡◌, ◌≢◌, ◌⊎◌, refl, sym, ap, ◌∙◌, arith, List, [], ◌∷◌, ◌++◌, Option, some,
  length,
}
use mathlib.Core.Path.{subst}
use mathlib.Core.List.{append-nil}
use kxo.Coro.{
  co_max, CoState, co_ready, co_running, co_done, Act, pause, send, recv, Coroutine, Sched, World,
  set_co_state, set_todo, enqueue, co_yield,
}
use kxo.Prelude.{put_self, put_other}
use kxo.Coro.Channel.{IsChan}
use kxo.Coro.Ready.{IsReady, put-IsReady, enqueue-SameWork, enqueue-IsReady}
use kxo.Coro.Turns.{AtRest, Waits, Waiters, IsWorld, not_queued}

-- What the coroutine `i` leaves of the scheduler: its state is `st`, it goes on with `todo`, and the
-- run queue is `q'`.
pub record Left (i : ℕ) (s : Sched) (st : CoState) (todo : List Act) (q' : List ℕ) (s' : Sched)
    : Type 0 where
  pub is_ready : IsReady s' q'
  pub kept :
      (x : ℕ)
      → x ≢ i
      → ((s'.pool x).state ≡ (s.pool x).state) × ((s'.pool x).todo ≡ (s.pool x).todo)
  pub state_is : (s'.pool i).state ≡ st
  pub todo_is : (s'.pool i).todo ≡ todo

-- The messages that a routine will send, in their order.
abbrev pub sends : List Act → List ℕ
sends [] = []
sends (pause ∷ acts) = sends acts
sends (send x ∷ acts) = x ∷ sends acts
sends (recv ∷ acts) = sends acts

module _ (i : ℕ) (lt : i < co_max) where
  -- The coroutine `i` runs.
  pub record IsRunning (q xs : List ℕ) (w : World) : Type 0 where
    pub world : IsWorld (some i) q xs w
    pub runs : (w.sched.pool i).state ≡ co_running

  -- What a run of the coroutine `i` leaves when it had the acts `acts` before it. The messages it
  -- sent are `sent`.
  pub record Ran (acts : List Act) (q xs : List ℕ) (w w' : World) : Type 0 where
    pub queue : List ℕ
    pub held : List ℕ
    pub sent : List ℕ
    pub world : IsWorld (some i) queue held w'
    pub state_left : ((w'.sched.pool i).state ≡ co_done) ⊎ AtRest (w'.sched.pool i).state
    pub stream : w'.received ++ held ≡ (w.received ++ xs) ++ sent
    pub in_order : sends acts ≡ sent ++ sends (w'.sched.pool i).todo
    pub others : (x : ℕ) → x ≢ i → (w'.sched.pool x).todo ≡ (w.sched.pool x).todo
    pub work : length (w'.sched.pool i).todo + length queue ≤ length acts + length q

  pub halt-Left :
      (st : CoState) (todo : List Act) (s : Sched) (q : List ℕ)
      → st ≢ co_ready
      → IsReady s q
      → (s.pool i).state ≡ co_running
      → Left i s st todo q (set_co_state i st (set_todo i todo s))
  halt-Left st todo s q ne v runs =
      let c1 : Coroutine = record (s.pool i) { todo = todo } in
      let s1 : Sched = set_todo i todo s in
      let c2 : Coroutine = record (s1.pool i) { state = st } in
      let busy : (s.pool i).state ≢ co_ready = λ e. absurd (ground (arith, e, runs)) in
      let out = not_queued s q i v busy in
      record {
        is_ready = put-IsReady s1 q i c2 (put-IsReady s q i c1 v out busy) out ne;
        kept = λ x other.
            rw (put_other s1.pool i x c2 other, put_other s.pool i x c1 other) (refl, refl);
        state_is = ap (λ (c : Coroutine). c.state) (put_self s1.pool i c2);
        todo_is =
            ap (λ (c : Coroutine). c.todo) (put_self s1.pool i c2)
            ∙ ap (λ (c : Coroutine). c.todo) (put_self s.pool i c1);
      }

  pub yield-Left :
      (todo : List Act) (s : Sched) (q : List ℕ)
      → IsReady s q
      → (s.pool i).state ≡ co_running
      → Left i s co_ready todo (q ++ i ∷ []) (co_yield i todo s)
  unfolding co_yield
  yield-Left todo s q v runs =
      let c1 : Coroutine = record (s.pool i) { todo = todo } in
      let s1 : Sched = set_todo i todo s in
      let c2 : Coroutine = record (s1.pool i) { state = co_ready } in
      let s2 : Sched = set_co_state i co_ready s1 in
      let busy : (s.pool i).state ≢ co_ready = λ e. absurd (ground (arith, e, runs)) in
      let out = not_queued s q i v busy in
      subst
        (λ st.
          Left i s co_ready todo (q ++ i ∷ []) (enqueue i (elim st [ co_running ↦ s2 | _ ↦ s1 ])))
        (sym runs)
        (record {
          is_ready = enqueue-IsReady s1 q i c2 (put-IsReady s q i c1 v out busy) out refl lt;
          kept = λ x other.
              let same = enqueue-SameWork i s2 x in
              rw (same.0, same.1, put_other s1.pool i x c2 other, put_other s.pool i x c1 other)
                (refl, refl);
          state_is =
              (enqueue-SameWork i s2 i).0 ∙ ap (λ (c : Coroutine). c.state) (put_self s1.pool i c2);
          todo_is =
              (enqueue-SameWork i s2 i).1
              ∙ ap (λ (c : Coroutine). c.todo) (put_self s1.pool i c2)
              ∙ ap (λ (c : Coroutine). c.todo) (put_self s.pool i c1);
        })

  pub waiting_ne :
      (waiter : Option ℕ) (s : Sched) (x : ℕ)
      → (s.pool i).state ≡ co_running
      → ((j : ℕ) → waiter ≡ some j → Waits s j)
      → waiter ≡ some x
      → x ≢ i
  waiting_ne waiter s x runs waits e f =
      let waits_too = (waits i (e ∙ ap some f)).0 in absurd (ground (arith, runs, waits_too))

  -- A coroutine that switches back to the scheduler.
  pub halted-Ran :
      (acts : List Act) (q xs : List ℕ) (w w' : World) (st : CoState) (todo : List Act)
      (q' : List ℕ)
      → IsRunning q xs w
      → Left i w.sched st todo q' w'.sched
      → (st ≡ co_done) ⊎ AtRest st
      → length todo + length q' ≤ length acts + length q
      → sends acts ≡ sends todo
      → w'.received ≡ w.received
      → Waiters w'.sched w'.chan.recv_waiter w'.chan.send_waiter
      → IsChan w'.chan xs
      → Ran acts q xs w w'
  halted-Ran acts q xs w w' st todo q' v left rest work unsent same waiters holds = record {
    queue = q';
    held = xs;
    sent = [];
    world = record {
      is_ready = left.is_ready;
      at_rest = λ x ne. rw (left.kept x (λ e. ne (ap some (sym e)))).0 (v.world.at_rest x ne);
      waiters = waiters;
      holds = holds;
    };
    state_left = rw left.state_is rest;
    stream = rw (same, append-nil);
    in_order = rw left.todo_is unsent;
    others = λ x ne. (left.kept x ne).1;
    work = rw left.todo_is work;
  }

  -- The coroutines that wait still do when `i` leaves.
  pub halted-Waits :
      (waiter : Option ℕ) (s s' : Sched) (st : CoState) (todo : List Act) (q' : List ℕ)
      → (s.pool i).state ≡ co_running
      → Left i s st todo q' s'
      → ((j : ℕ) → waiter ≡ some j → Waits s j)
      → (j : ℕ) → waiter ≡ some j
      → Waits s' j
  halted-Waits waiter s s' st todo q' runs left waits j e =
      let (blocked, j_lt) = waits j e in
      ((left.kept j (waiting_ne waiter s j runs waits e)).0 ∙ blocked, j_lt)

  pub halted-Waiters :
      (recv_waiter send_waiter : Option ℕ) (s s' : Sched) (st : CoState) (todo : List Act)
      (q' : List ℕ)
      → (s.pool i).state ≡ co_running
      → Left i s st todo q' s'
      → Waiters s recv_waiter send_waiter
      → Waiters s' recv_waiter send_waiter
  halted-Waiters recv_waiter send_waiter s s' st todo q' runs left v = record {
    at_recv = halted-Waits recv_waiter s s' st todo q' runs left v.at_recv;
    at_send = halted-Waits send_waiter s s' st todo q' runs left v.at_send;
    differ = v.differ;
  }
