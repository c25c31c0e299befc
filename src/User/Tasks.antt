-- ===== src/User/Tasks.antt =====
-- user/xo-user.c: the three tasks of a round as coroutines, and the message from one to another.
pub mod Served
use kxo.Prelude.{
  ℕ, ◌+◌, ◌<◌, ◌≡◌, refl, sym, ap, ◌∙◌, arith, List, [], ◌∷◌, ◌++◌, true, false, Option, none, some,
  inl, inr, Bool-cases, leb, ◌==◌, put,
}
use kxo.Coro.{
  co_max, co_free, co_ready, CoChan, Pool, Act, send, recv, Sched, World, set_todo, enqueue,
  free_slot, start_at, co_start, Stack, no_stack, map_failed, has_stack, with_stack, make_ready,
  chan_send, chan_recv, turn, co_run, run_co, settle, set_co_state, co_running, dequeue,
  co_sched_init, co_chan_make,
}
use mathlib.Core.Path.{subst}
use mathlib.Core.List.{append_assoc, append-nil}
use native.Mathlib.Decide.{ℕ_discrete}
use kxo.Coro.Ends.{co_run-turn, co_run-idle}
use kxo.Coro.Channel.{IsChan, chan_send-IsChan, chan_recv-IsChan, co_chan_make-IsChan}

-- A `co_start` after those before it; `none` is a crash. Each one that calls `mmap` gets memory.
abbrev pub then_start : List Act → Option Sched → Option Sched
then_start todo started = elim started [ none ↦ none | some s ↦ co_start true todo s ]

-- What the three tasks do with the runtime: `task_print_now`, `task_io` with its message, `task_tab`.
abbrev pub start_tasks : ℕ → Sched → Option Sched
start_tasks m s = then_start (recv ∷ []) (then_start (send m ∷ []) (co_start true [] s))

-- A round: four rounds of the loop of `co_run` are enough for three tasks.
abbrev pub run_tasks : World → Option Sched → Option World
run_tasks w started = elim started [ none ↦ none | some s ↦ co_run 4 (record w { sched = s }) ]

unfoldable pub tasks_round : ℕ → World → Option World
tasks_round m w = run_tasks w (start_tasks m w.sched)

unfoldable pub tasks_loop : List ℕ → World → Option World
tasks_loop [] w = some w
tasks_loop (m ∷ ms) w = elim (tasks_round m w) [ none ↦ none | some w' ↦ tasks_loop ms w' ]

-- Between two rounds: all slots free and none with `MAP_FAILED` for a stack, nothing queued, nobody
-- waits and the channel is empty.
pub record Calm (w : World) : Type 0 where
  pub free : (x : ℕ) → (w.sched.pool x).state ≡ co_free
  pub stacks : (x : ℕ) → ¬ ((w.sched.pool x).stack ≡ map_failed)
  pub no_head : w.sched.head ≡ none
  pub no_tail : w.sched.tail ≡ none
  pub no_recv : w.chan.recv_waiter ≡ none
  pub no_send : w.chan.send_waiter ≡ none
  pub holds : IsChan w.chan []

-- The slot `i` when it has got a routine.
abbrev got : ℕ → List Act → Sched → Sched
got i todo s =
    let s' = set_todo i todo s in
    record s' { pool = put s'.pool i (record (s'.pool i) { stack = has_stack; state = co_ready }) }

given_stack :
    (stack : Stack) (i : ℕ) (s : Sched)
    → ¬ (stack ≡ map_failed)
    → with_stack stack true i s ≡ some (make_ready i s)
unfolding with_stack
given_stack has_stack i s ne = refl
given_stack no_stack i s ne = refl
given_stack map_failed i s ne = absurd (ne refl)

pub co_start-got :
    (i : ℕ) (todo : List Act) (s : Sched)
    → free_slot co_max 0 s.pool ≡ some i
    → ¬ ((s.pool i).stack ≡ map_failed)
    → co_start true todo s ≡ some (enqueue i (got i todo s))
unfolding co_start start_at make_ready
co_start-got i todo s e ne =
    ap (λ o. start_at o true todo s) e ∙ given_stack (s.pool i).stack i (set_todo i todo s) ne

-- The start and the end of a turn.
abbrev begun : ℕ → World → World
begun i w = record w { sched = record (set_co_state i co_running w.sched) { current = some i } }

abbrev settled : ℕ → World → World
settled i w = record w { sched = settle (w.sched.pool i).state i w.sched }

turn-send :
    (i m : ℕ) (w : World)
    → ((begun i w).sched.pool i).todo ≡ send m ∷ []
    → leb w.chan.cap w.chan.count ≡ false
    → turn i w ≡ settled i (run_co i [] (chan_send m (begun i w)))
unfolding turn
turn-send i m w todo room = ap (settled i) (ap (λ acts. run_co i acts (begun i w)) todo ∙ sends)
  where
    sends : run_co i (send m ∷ []) (begun i w) ≡ run_co i [] (chan_send m (begun i w))
    sends = rw (run_co, room) refl

turn-recv :
    (i : ℕ) (w : World)
    → ((begun i w).sched.pool i).todo ≡ recv ∷ []
    → (w.chan.count == 0) ≡ false
    → turn i w ≡ settled i (run_co i [] (chan_recv (begun i w)))
unfolding turn
turn-recv i w todo held = ap (settled i) (ap (λ acts. run_co i acts (begun i w)) todo ∙ receives)
  where
    receives : run_co i (recv ∷ []) (begun i w) ≡ run_co i [] (chan_recv (begun i w))
    receives = rw (run_co, held) refl

pub co_sched_init-Calm :
    (cap : ℕ)
    → 0 < cap
    → Calm (record { sched = co_sched_init; chan = co_chan_make cap; received = [] })
unfolding co_sched_init co_chan_make
co_sched_init-Calm cap h = record {
  free = λ x. refl;
  stacks = λ x e. absurd (ground (arith, e));
  no_head = refl;
  no_tail = refl;
  no_recv = refl;
  no_send = refl;
  holds = co_chan_make-IsChan cap h;
}
