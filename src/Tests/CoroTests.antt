-- ===== src/Tests/CoroTests.antt =====
-- user/coro.c: runs of two coroutines over a channel, and instances of the theorems.
use kxo.User.Tasks.Served.{tasks_loop-Calm}
use kxo.Prelude.{
  Option, ℕ, ◌≤◌, ◌≡◌, refl, arith, List, [], ◌∷◌, ◌++◌, true, false, some, none, length,
}
use mathlib.Core.Option
use kxo.Coro.{
  co_max, pause, send, recv, Act, Sched, World, co_start, co_sched_init, co_chan_make, co_run,
  enqueue, dequeue, chan_send, chan_recv,
}
use kxo.Coro.Queue.{IsQueue, enqueue-IsQueue, dequeue-enqueue}
use kxo.Coro.Channel.{IsChan, chan_send-IsChan, chan_recv-IsChan, co_chan_make-IsChan}
use kxo.Coro.Turns.{IsWorld}
use kxo.Coro.Rounds.{acts_left}
use kxo.Coro.Ends.{Ended, co_run-Ended}
use kxo.User.Tasks.{Calm, tasks_loop, co_sched_init-Calm}
use kxo.Coro.Starts.{Start, co_start-Start, co_sched_init-IsWorld, Start-IsWorld}

abbrev fresh_world : World
fresh_world = record { sched = co_sched_init; chan = co_chan_make 2; received = [] }

-- A coroutine that sends three messages, and one that receives them, over a channel for two.
abbrev sender : List Act
sender = send 7 ∷ send 8 ∷ send 9 ∷ pause ∷ []

abbrev receiver : List Act
receiver = recv ∷ recv ∷ recv ∷ []

-- The scheduler after a `co_start` that does not crash.
abbrev or_self : Sched → Option Sched → Sched
or_self s started = elim started [ none ↦ s | some s' ↦ s' ]

abbrev one_task : World
one_task = record fresh_world {
  sched = or_self fresh_world.sched (co_start true sender fresh_world.sched);
}

abbrev two_tasks : World
two_tasks = record one_task {
  sched = or_self one_task.sched (co_start true receiver one_task.sched);
}

one_task_starts : co_start true sender fresh_world.sched ≡ some one_task.sched
unfolding co_start co_sched_init
one_task_starts = refl

two_tasks_starts : co_start true receiver one_task.sched ≡ some two_tasks.sched
unfolding co_start co_sched_init
two_tasks_starts = refl

-- The second `co_start` after one whose `mmap` failed crashes, with or without memory.
abbrev refused_sched : Sched
refused_sched = or_self fresh_world.sched (co_start false sender fresh_world.sched)

crashes_next : co_start true receiver refused_sched ≡ none
unfolding co_start co_sched_init
crashes_next = refl

all_received : Option.map (λ w. World.received w) (co_run 12 two_tasks) ≡ some (7 ∷ 8 ∷ 9 ∷ [])
unfolding co_run co_start co_sched_init co_chan_make Option.map
all_received = refl

fresh_world-IsWorld : IsWorld none [] [] fresh_world
fresh_world-IsWorld = co_sched_init-IsWorld 2 (omega arith)

co_start-Start_example :
    Start true sender [] [] fresh_world (co_start true sender fresh_world.sched)
co_start-Start_example = co_start-Start true sender [] [] fresh_world fresh_world-IsWorld

one_task-IsWorld : (q : List ℕ) × IsWorld none q [] one_task × (length q ≤ 1)
one_task-IsWorld =
    Start-IsWorld true sender [] [] fresh_world one_task.sched fresh_world-IsWorld
      (rw one_task_starts at co_start-Start_example)

two_tasks-IsWorld : (q : List ℕ) × IsWorld none q [] two_tasks × (length q ≤ 2)
two_tasks-IsWorld =
    let (q, v, short) = one_task-IsWorld in
    let (q', v', short') =
      Start-IsWorld true receiver q [] one_task two_tasks.sched v
        (rw two_tasks_starts at (co_start-Start true receiver q [] one_task v)) in
    (q', v', omega (arith, short, short'))

two_tasks-acts_left : acts_left co_max two_tasks.sched.pool ≡ 7
unfolding co_start co_sched_init
two_tasks-acts_left = refl

co_run-Ended_example : (w' : World) × (co_run 10 two_tasks ≡ some w') × Ended [] two_tasks w'
co_run-Ended_example =
    co_run-Ended 10 two_tasks-IsWorld.0 [] two_tasks two_tasks-IsWorld.1
      (omega (arith, two_tasks-acts_left, two_tasks-IsWorld.2))

-- A channel for two that holds 7.
abbrev holding : World
holding = chan_send 7 fresh_world

fresh_chan-IsChan : IsChan fresh_world.chan []
fresh_chan-IsChan = co_chan_make-IsChan 2 (omega arith)

chan_send-IsChan_example : IsChan (chan_send 7 fresh_world).chan (7 ∷ [])
unfolding co_chan_make
chan_send-IsChan_example = chan_send-IsChan 7 [] fresh_world fresh_chan-IsChan (omega arith)

chan_recv-IsChan_example :
    IsChan (chan_recv holding).chan [] × ((chan_recv holding).received ≡ holding.received ++ 7 ∷ [])
chan_recv-IsChan_example = chan_recv-IsChan 7 [] holding chan_send-IsChan_example

fresh-IsQueue : IsQueue fresh_world.sched []
fresh-IsQueue = fresh_world-IsWorld.is_ready.queue

with_three-IsQueue : IsQueue (enqueue 3 fresh_world.sched) (3 ∷ [])
with_three-IsQueue = enqueue-IsQueue fresh_world.sched 3 [] fresh-IsQueue (λ e. e)

abbrev with_three : Sched
with_three = enqueue 3 fresh_world.sched

dequeue-enqueue_example :
    IsQueue (enqueue 5 with_three) (3 ∷ 5 ∷ [])
    × ((x : ℕ) × (rest : List ℕ) × ((3 ∷ []) ++ 5 ∷ [] ≡ x ∷ rest)
        × ((dequeue (enqueue 5 with_three)).0 ≡ some x)
        × IsQueue (dequeue (enqueue 5 with_three)).1 rest)
dequeue-enqueue_example =
    dequeue-enqueue with_three 5 (3 ∷ []) with_three-IsQueue (λ e. ground (arith, e))

-- Three rounds of the tasks of user/xo-user.c over a channel for sixteen.
abbrev tasks_world : World
tasks_world = record { sched = co_sched_init; chan = co_chan_make 16; received = [] }

tasks_world-Calm : Calm tasks_world
tasks_world-Calm = co_sched_init-Calm 16 (omega arith)

tasks_loop-Calm_example :
    (w' : World) × (tasks_loop (7 ∷ 7 ∷ 9 ∷ []) tasks_world ≡ some w')
    × Calm w'
    × (w'.received ≡ tasks_world.received ++ 7 ∷ 7 ∷ 9 ∷ [])
tasks_loop-Calm_example = tasks_loop-Calm (7 ∷ 7 ∷ 9 ∷ []) tasks_world tasks_world-Calm
