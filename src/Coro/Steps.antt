-- ===== src/Coro/Steps.antt =====
-- user/coro.c: what a coroutine does while it runs, one act after the other.
use kxo.Prelude.{
  ℕ, suc, ◌<◌, ◌≤◌, ◌≡◌, ◌≢◌, inl, inr, refl, sym, ap, ◌∙◌, arith, List, [], ◌∷◌, ◌++◌, Option,
  some, none, length, length-append, Bool-cases, leb, ◌==◌, true, false,
}
use mathlib.Core.List.{append_assoc, append-nil}
use kxo.Coro.{
  co_max, co_ready, co_done, Act, pause, send, recv, Sched, World, wake, chan_send, chan_recv,
  run_co,
}
use kxo.Coro.Channel.{IsChan, chan_send-IsChan, chan_recv-IsChan}
use kxo.Coro.Turns.{Waits, Waiters, Woken, wake-Woken}
use kxo.Coro.Runs.{
  sends, IsRunning, Ran, halt-Left, yield-Left, waiting_ne, halted-Ran, halted-Waiters,
}
use kxo.Coro.Blocks.{block-Ran, block_send-Waiters, block_recv-Waiters}

module _ (i : ℕ) (lt : i < co_max) where
  -- A coroutine that has woken another goes on.
  awake-IsRunning :
      (waiter : Option ℕ) (q xs q' xs' : List ℕ) (w w' : World)
      → IsRunning i lt q xs w
      → ((j : ℕ) → waiter ≡ some j → Waits w.sched j)
      → Woken waiter w.sched (length q) q' w'.sched
      → Waiters w'.sched w'.chan.recv_waiter w'.chan.send_waiter
      → IsChan w'.chan xs'
      → IsRunning i lt q' xs' w'
  awake-IsRunning waiter q xs q' xs' w w' v waits woken waiters holds = record {
    world = record {
      is_ready = woken.is_ready;
      at_rest = λ x ne. elim (woken.changed x) [
        | inl e ↦ rw e (v.world.at_rest x ne)
        | inr e ↦ inr (inl e)
      ];
      waiters = waiters;
      holds = holds;
    };
    runs = woken.kept i (λ e. waiting_ne i lt waiter w.sched i v.runs waits e refl) ∙ v.runs;
  }

  -- One step of a run, and then the rest of it.
  after-Ran :
      (act : Act) (acts : List Act) (q xs : List ℕ) (w : World) (q1 xs1 sent : List ℕ)
      (w1 w' : World)
      → (w1.received ++ xs1 ≡ (w.received ++ xs) ++ sent)
      → ((x : ℕ) → (w1.sched.pool x).todo ≡ (w.sched.pool x).todo)
      → length q1 ≤ suc (length q)
      → sends (act ∷ acts) ≡ sent ++ sends acts
      → Ran i lt acts q1 xs1 w1 w'
      → Ran i lt (act ∷ acts) q xs w w'
  after-Ran act acts q xs w q1 xs1 sent w1 w' stream same more first r = record {
    queue = r.queue;
    held = r.held;
    sent = sent ++ r.sent;
    world = r.world;
    state_left = r.state_left;
    stream =
        r.stream ∙ ap (λ ys. ys ++ r.sent) stream ∙ append_assoc (w.received ++ xs) sent r.sent;
    in_order =
        first
        ∙ ap (λ ys. sent ++ ys) r.in_order
        ∙ sym (append_assoc sent r.sent (sends (w'.sched.pool i).todo));
    others = λ x ne. r.others x ne ∙ same x;
    work = omega (arith, r.work, more);
  }

  -- A waiter that is left when the other has been woken.
  left_waiting :
      (waiter other : Option ℕ) (s s' : Sched) (n : ℕ) (q' : List ℕ)
      → Woken waiter s n q' s'
      → ((j : ℕ) → waiter ≡ some j → other ≢ some j)
      → ((j : ℕ) → other ≡ some j → Waits s j)
      → (j : ℕ) → other ≡ some j
      → Waits s' j
  left_waiting waiter other s s' n q' woken apart waits j e =
      let (blocked, j_lt) = waits j e in (woken.kept j (λ f. apart j f e) ∙ blocked, j_lt)

  no_waiter : {A : Type 0} (j : ℕ) → Path (Option ℕ) none (some j) → A
  no_waiter j e = absurd (ground (arith, e))

  send-IsRunning :
      (x : ℕ) (q xs : List ℕ) (w : World)
      → IsRunning i lt q xs w
      → w.chan.count < w.chan.cap
      → (q' : List ℕ) × IsRunning i lt q' (xs ++ x ∷ []) (chan_send x w)
        × ((y : ℕ) → ((chan_send x w).sched.pool y).todo ≡ (w.sched.pool y).todo)
        × (length q' ≤ suc (length q))
  unfolding chan_send
  send-IsRunning x q xs w v room =
      let waits = v.world.waiters in
      let (q', woken) = wake-Woken w.chan.recv_waiter w.sched q v.world.is_ready waits.at_recv in
      (
        q',
        awake-IsRunning w.chan.recv_waiter q xs q' (xs ++ x ∷ []) w (chan_send x w) v waits.at_recv
            woken
            (record {
              at_recv = λ j e. no_waiter j e;
              at_send =
                  left_waiting w.chan.recv_waiter w.chan.send_waiter w.sched
                    (wake w.chan.recv_waiter w.sched) (length q) q' woken waits.differ
                    waits.at_send;
              differ = λ j e. no_waiter j e;
            })
            (chan_send-IsChan x xs w v.world.holds room),
        woken.same_todo,
        woken.at_most,
      )

  recv-IsRunning :
      (x : ℕ) (q xs : List ℕ) (w : World)
      → IsRunning i lt q (x ∷ xs) w
      → (q' : List ℕ) × IsRunning i lt q' xs (chan_recv w)
        × ((y : ℕ) → ((chan_recv w).sched.pool y).todo ≡ (w.sched.pool y).todo)
        × (length q' ≤ suc (length q))
  unfolding chan_recv
  recv-IsRunning x q xs w v =
      let waits = v.world.waiters in
      let (q', woken) = wake-Woken w.chan.send_waiter w.sched q v.world.is_ready waits.at_send in
      (
        q',
        awake-IsRunning w.chan.send_waiter q (x ∷ xs) q' xs w (chan_recv w) v waits.at_send woken
            (record {
              at_recv =
                  left_waiting w.chan.send_waiter w.chan.recv_waiter w.sched
                    (wake w.chan.send_waiter w.sched) (length q) q' woken
                    (λ j e f. waits.differ j f e) waits.at_recv;
              at_send = λ j e. no_waiter j e;
              differ = λ j e f. no_waiter j f;
            })
            (chan_recv-IsChan x xs w v.world.holds).0,
        woken.same_todo,
        woken.at_most,
      )

  pub run_co-Ran :
      (acts : List Act) (q xs : List ℕ) (w : World)
      → IsRunning i lt q xs w
      → Ran i lt acts q xs w (run_co i acts w)
  unfolding run_co
  run_co-Ran [] q xs w v =
      let left =
        halt-Left i lt co_done [] w.sched q (λ e. absurd (ground (arith, e))) v.world.is_ready
          v.runs in
      halted-Ran i lt [] q xs w (run_co i [] w) co_done [] q v left (inl refl) (omega arith) refl
        refl
        (halted-Waiters i lt w.chan.recv_waiter w.chan.send_waiter w.sched (run_co i [] w).sched
          co_done [] q v.runs left v.world.waiters)
        v.world.holds
  run_co-Ran (pause ∷ rest) q xs w v =
      let left = yield-Left i lt rest w.sched q v.world.is_ready v.runs in
      halted-Ran i lt (pause ∷ rest) q xs w (run_co i (pause ∷ rest) w) co_ready rest (q ++ i ∷ [])
        v left (inr (inr (inl refl))) (omega (arith, length-append q (i ∷ []))) refl refl
        (halted-Waiters i lt w.chan.recv_waiter w.chan.send_waiter w.sched
          (run_co i (pause ∷ rest) w).sched co_ready rest (q ++ i ∷ []) v.runs left v.world.waiters)
        v.world.holds
  run_co-Ran (send x ∷ rest) q xs w v = elim (Bool-cases (leb w.chan.cap w.chan.count)) [
    | inl full ↦
        let acts = send x ∷ rest in
        rw full (
          block-Ran i lt acts q xs w w.chan.recv_waiter (some i) v
            (block_send-Waiters i lt acts q xs w v))
    | inr room ↦
        let (q1, v1, same, more) = send-IsRunning x q xs w v (ground (arith, room)) in
        rw room (
          after-Ran (send x) rest q xs w q1 (xs ++ x ∷ []) (x ∷ []) (chan_send x w)
            (run_co i rest (chan_send x w)) (sent_stream x xs w) same more refl
            (run_co-Ran rest q1 (xs ++ x ∷ []) (chan_send x w) v1))
  ]
    where
      sent_stream :
          (x : ℕ) (xs : List ℕ) (w : World)
          → (chan_send x w).received ++ (xs ++ x ∷ []) ≡ (w.received ++ xs) ++ x ∷ []
      sent_stream x xs w = sym (append_assoc w.received xs (x ∷ []))
  run_co-Ran (recv ∷ rest) q [] w v =
      let acts = recv ∷ rest in
      let empty : (w.chan.count == 0) ≡ true = ground (arith, v.world.holds.counted) in
      rw empty (
        block-Ran i lt acts q [] w (some i) w.chan.send_waiter v
          (block_recv-Waiters i lt acts q [] w v))
  run_co-Ran (recv ∷ rest) q (x ∷ xs) w v =
      let some_left : (w.chan.count == 0) ≡ false = ground (arith, v.world.holds.counted) in
      let (q1, v1, same, more) = recv-IsRunning x q xs w v in
      rw some_left (
        after-Ran recv rest q (x ∷ xs) w q1 xs [] (chan_recv w) (run_co i rest (chan_recv w))
          (received_stream x xs w (chan_recv-IsChan x xs w v.world.holds).1) same more refl
          (run_co-Ran rest q1 xs (chan_recv w) v1))
    where
      received_stream :
          (x : ℕ) (xs : List ℕ) (w : World)
          → (chan_recv w).received ≡ w.received ++ x ∷ []
          → (chan_recv w).received ++ xs ≡ (w.received ++ x ∷ xs) ++ []
      received_stream x xs w e = rw (e, append_assoc, append-nil) refl
