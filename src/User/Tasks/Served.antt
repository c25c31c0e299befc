-- ===== src/User/Tasks/Served.antt =====
-- user/xo-user.c: what a round of the three tasks leaves.
use kxo.Prelude.{
  ℕ, ◌+◌, ◌≡◌, refl, sym, ap, ◌∙◌, arith, List, [], ◌∷◌, ◌++◌, false, Option, none, some, leb, ◌==◌,
}
use kxo.Coro.{
  co_max, co_free, map_failed, Coroutine, CoChan, Pool, send, recv, Sched, World, enqueue,
  free_slot, chan_send, chan_recv, turn, co_run, run_co, settle, dequeue,
}
use mathlib.Core.Path.{subst}
use mathlib.Core.List.{append_assoc, append-nil}
use native.Mathlib.Decide.{ℕ_discrete}
use kxo.Coro.Ends.{co_run-turn, co_run-idle}
use kxo.Coro.Channel.{IsChan, chan_send-IsChan, chan_recv-IsChan}
use kxo.User.Tasks.{
  then_start, start_tasks, run_tasks, tasks_round, tasks_loop, Calm, got, co_start-got, begun,
  settled, turn-send, turn-recv,
}

module _ (p : Pool) (c : Option ℕ) (free : (x : ℕ) → (p x).state ≡ co_free)
    (stacks : (x : ℕ) → ¬ ((p x).stack ≡ map_failed)) where
  abbrev calm_sched : Sched
  calm_sched = record { pool = p; current = c; head = none; tail = none }

  slot_0 : free_slot co_max 0 p ≡ some 0
  unfolding free_slot
  slot_0 = rw (free 0) refl

  abbrev with_0 : Sched
  with_0 = enqueue 0 (got 0 [] calm_sched)

  slot_1 : free_slot co_max 0 with_0.pool ≡ some 1
  unfolding free_slot enqueue
  slot_1 = rw (free 1) refl

  module _ (m : ℕ) where
    abbrev with_1 : Sched
    with_1 = enqueue 1 (got 1 (send m ∷ []) with_0)

    slot_2 : free_slot co_max 0 with_1.pool ≡ some 2
    unfolding free_slot enqueue
    slot_2 = rw (free 2) refl

    abbrev with_2 : Sched
    with_2 = enqueue 2 (got 2 (recv ∷ []) with_1)

    second_stack : ¬ ((with_0.pool 1).stack ≡ map_failed)
    unfolding enqueue
    second_stack = stacks 1

    third_stack : ¬ ((with_1.pool 2).stack ≡ map_failed)
    unfolding enqueue
    third_stack = stacks 2

    all_started : start_tasks m calm_sched ≡ some with_2
    all_started =
        ap (λ o. then_start (recv ∷ []) (then_start (send m ∷ []) o))
          (co_start-got 0 [] calm_sched slot_0 (stacks 0))
        ∙ ap (then_start (recv ∷ [])) (co_start-got 1 (send m ∷ []) with_0 slot_1 second_stack)
        ∙ co_start-got 2 (recv ∷ []) with_1 slot_2 third_stack

    module _ (buf : List ℕ) (cap h t n : ℕ) (received : List ℕ) where
      abbrev calm_chan : CoChan
      calm_chan = record {
        buf = buf;
        cap = cap;
        head = h;
        tail = t;
        count = n;
        recv_waiter = none;
        send_waiter = none;
      }

      abbrev calm_world : World
      calm_world = record { sched = calm_sched; chan = calm_chan; received = received }

      abbrev started_world : World
      started_world = record { sched = with_2; chan = calm_chan; received = received }

      abbrev printed_now : World
      printed_now = turn 0 (record started_world { sched = (dequeue started_world.sched).1 })

      abbrev before_io : World
      before_io = record printed_now { sched = (dequeue printed_now.sched).1 }

      abbrev after_io : World
      after_io = settled 1 (run_co 1 [] (chan_send m (begun 1 before_io)))

      abbrev before_tab : World
      before_tab = record after_io { sched = (dequeue after_io.sched).1 }

      abbrev after_tab : World
      after_tab = settled 2 (run_co 2 [] (chan_recv (begun 2 before_tab)))

      first_queued : (dequeue started_world.sched).0 ≡ some 0
      unfolding dequeue enqueue
      first_queued = refl

      io_queued : (dequeue printed_now.sched).0 ≡ some 1
      unfolding dequeue enqueue turn run_co settle
      io_queued = refl

      tab_queued : (dequeue after_io.sched).0 ≡ some 2
      unfolding dequeue enqueue turn run_co settle chan_send
      tab_queued = refl

      none_queued : dequeue after_tab.sched ≡ (none, after_tab.sched)
      unfolding dequeue enqueue turn run_co settle chan_send chan_recv
      none_queued = refl

      io_todo : ((begun 1 before_io).sched.pool 1).todo ≡ send m ∷ []
      unfolding dequeue enqueue turn run_co settle
      io_todo = refl

      tab_todo : ((begun 2 before_tab).sched.pool 2).todo ≡ recv ∷ []
      unfolding dequeue enqueue turn run_co settle chan_send
      tab_todo = refl

      io_room : leb cap n ≡ false → leb before_io.chan.cap before_io.chan.count ≡ false
      unfolding turn run_co settle dequeue
      io_room e = e

      tab_held : (n + 1 == 0) ≡ false → (before_tab.chan.count == 0) ≡ false
      unfolding turn run_co settle chan_send dequeue
      tab_held e = e

      round_run :
          leb cap n ≡ false
          → (n + 1 == 0) ≡ false
          → co_run 4 started_world
            ≡ some (record after_tab { sched = record after_tab.sched { current = none } })
      round_run room held =
          co_run-turn 3 0 started_world first_queued
          ∙ co_run-turn 2 1 printed_now io_queued
          ∙ ap (co_run 2) (turn-send 1 m before_io io_todo (io_room room))
          ∙ co_run-turn 1 2 after_io tab_queued
          ∙ ap (co_run 1) (turn-recv 2 before_tab tab_todo (tab_held held))
          ∙ co_run-idle 0 after_tab none_queued

      abbrev rested : World
      rested = record after_tab { sched = record after_tab.sched { current = none } }

      -- What holds of the three slots that were used and of all others.
      at_rest :
          (Holds : Coroutine → Type 0)
          → Holds (rested.sched.pool 0)
          → Holds (rested.sched.pool 1)
          → Holds (rested.sched.pool 2)
          → ((x : ℕ) → Holds (p x))
          → (x : ℕ) → Holds (rested.sched.pool x)
      unfolding dequeue enqueue turn run_co settle chan_send chan_recv
      at_rest Holds h0 h1 h2 others x = elim (ℕ_discrete x 0) [
        | yes e ↦ rw e h0
        | no n0 ↦ elim (ℕ_discrete x 1) [
          | yes e ↦ rw e h1
          | no n1 ↦ elim (ℕ_discrete x 2) [
            | yes e ↦ rw e h2
            | no n2 ↦
                let e0 : (x == 0) ≡ false = ground (arith, n0) in
                let e1 : (x == 1) ≡ false = ground (arith, n1) in
                let e2 : (x == 2) ≡ false = ground (arith, n2) in rw (e0, e1, e2) (others x)
          ]
        ]
      ]

      all_free : (x : ℕ) → (rested.sched.pool x).state ≡ co_free
      unfolding dequeue enqueue turn run_co settle chan_send chan_recv
      all_free = at_rest (λ y. y.state ≡ co_free) refl refl refl free

      all_stacks : (x : ℕ) → ¬ ((rested.sched.pool x).stack ≡ map_failed)
      unfolding dequeue enqueue turn run_co settle chan_send chan_recv
      all_stacks =
          at_rest (λ y. ¬ (y.stack ≡ map_failed)) (λ e. absurd (ground (arith, e)))
            (λ e. absurd (ground (arith, e))) (λ e. absurd (ground (arith, e))) stacks

      rested-Calm :
          IsChan calm_chan []
          → leb cap n ≡ false
          → Calm rested × (rested.received ≡ received ++ m ∷ [])
      unfolding dequeue enqueue turn run_co settle chan_send chan_recv
      rested-Calm v room =
          let sent = chan_send-IsChan m [] calm_world v (ground (arith, room)) in
          let (holds, got_it) = chan_recv-IsChan m [] (chan_send m calm_world) sent in
          (
            record {
              free = all_free;
              stacks = all_stacks;
              no_head = refl;
              no_tail = refl;
              no_recv = refl;
              no_send = refl;
              holds = holds;
            },
            got_it,
          )

-- A round from `w` ends with `m` received and all calm again.
abbrev Serves : ℕ → World → Type 0
Serves m w =
    (w' : World) × (tasks_round m w ≡ some w') × Calm w' × (w'.received ≡ w.received ++ m ∷ [])

-- A calm world, with its empty links and waiters written out.
literal :
    (m : ℕ) (w : World) (v : Calm w)
    → w
      ≡ calm_world w.sched.pool w.sched.current v.free v.stacks m w.chan.buf w.chan.cap w.chan.head
          w.chan.tail w.chan.count w.received
literal m w v =
    ap (λ x. record w { sched = record w.sched { head = x } }) v.no_head
    ∙ ap (λ x. record w { sched = record w.sched { head = none; tail = x } }) v.no_tail
    ∙ ap
        (λ x. record w {
          sched = record w.sched { head = none; tail = none };
          chan = record w.chan { recv_waiter = x };
        })
        v.no_recv
    ∙ ap
        (λ x. record w {
          sched = record w.sched { head = none; tail = none };
          chan = record w.chan { recv_waiter = none; send_waiter = x };
        })
        v.no_send

tasks_round-Serves : (m : ℕ) (w : World) → Calm w → Serves m w
unfolding tasks_round
tasks_round-Serves m w v =
    let p = w.sched.pool in
    let c = w.sched.current in
    let ch = w.chan in
    let room : leb ch.cap ch.count ≡ false =
      (let counted = v.holds.counted in let cap = v.holds.some_cap in ground arith) in
    let held : (ch.count + 1 == 0) ≡ false = ground arith in
    let holds = subst (λ z. IsChan z.chan []) (literal m w v) v.holds in
    let (calm, got_it) =
      rested-Calm p c v.free v.stacks m ch.buf ch.cap ch.head ch.tail ch.count w.received holds
        room in
    subst (Serves m) (sym (literal m w v)) (
      rested p c v.free v.stacks m ch.buf ch.cap ch.head ch.tail ch.count w.received,
      ap
            (run_tasks
              (calm_world p c v.free v.stacks m ch.buf ch.cap ch.head ch.tail ch.count w.received))
            (all_started p c v.free v.stacks m)
          ∙ round_run p c v.free v.stacks m ch.buf ch.cap ch.head ch.tail ch.count w.received room
              held,
      calm,
      got_it,
    )

-- However many rounds the program makes, each one ends: the scheduler returns, `task_tab` has
-- received the message that `task_io` sent in the same round, and all slots are free, the run queue
-- and the channel empty and nobody waiting, so the next round can start. It begins so after
-- `co_sched_init` and `co_chan_make`. Every `mmap` of a stack gives memory, and no slot had one that
-- did not.
pub tasks_loop-Calm :
    (ms : List ℕ) (w : World)
    → Calm w
    → (w' : World) × (tasks_loop ms w ≡ some w') × Calm w' × (w'.received ≡ w.received ++ ms)
unfolding tasks_loop
tasks_loop-Calm [] w v = (w, refl, v, sym (append-nil w.received))
tasks_loop-Calm (m ∷ ms) w v =
    let (w1, runs, calm, got_it) = tasks_round-Serves m w v in
    let (w', rest, calm', all) = tasks_loop-Calm ms w1 calm in
    (
      w',
      ap (λ o. elim o [ none ↦ none | some w2 ↦ tasks_loop ms w2 ]) runs ∙ rest,
      calm',
      all ∙ ap (λ r. r ++ ms) got_it ∙ append_assoc w.received (m ∷ []) ms,
    )
