-- ===== src/Coro.antt =====
-- user/coro.c: the coroutines of the user program, with their run queue and channels. The switch of
-- contexts is assembly: a saved context is here the rest of the routine, a list of what it will do
-- that the runtime sees. The pool is a function on the indices of its slots, below `co_max`.
pub mod Queue
pub mod Channel
pub mod Ready
pub mod Turns
pub mod Runs
pub mod Blocks
pub mod Steps
pub mod Rounds
pub mod Ends
pub mod Slots
pub mod Starts
use kxo.Prelude.{
  ℕ, zero, suc, ◌+◌, ◌-◌, ◌%◌, List, [], ◌∷◌, ◌++◌, Bool, true, false, Option, none, some,
}
use kxo.Prelude.{◌==◌, if◌then◌else◌, leb, set, get_or, replicate, put}

abbrev pub co_max : ℕ
co_max = 16

-- `enum co_state`.
pub data CoState : Type 0 where
  co_free co_ready co_running co_blocked co_done : CoState

-- What a routine asks of the runtime.
pub data Act : Type 0 where
  pause : Act
  send : ℕ → Act
  recv : Act

-- `stack.ptr` of a slot: NULL, `MAP_FAILED`, or a stack.
pub data Stack : Type 0 where
  no_stack map_failed has_stack : Stack

-- `struct coroutine`: `todo` is what its function, arguments and saved context amount to.
pub record Coroutine : Type 0 where
  pub todo : List Act
  pub stack : Stack
  pub state : CoState
  pub next : Option ℕ

abbrev pub Pool : Type 0
Pool = ℕ → Coroutine

-- `sched`.
pub record Sched : Type 0 where
  pub pool : Pool
  pub current : Option ℕ
  pub head : Option ℕ
  pub tail : Option ℕ

-- `struct co_chan`, an element of the buffer as one number.
pub record CoChan : Type 0 where
  pub buf : List ℕ
  pub cap : ℕ
  pub head : ℕ
  pub tail : ℕ
  pub count : ℕ
  pub recv_waiter : Option ℕ
  pub send_waiter : Option ℕ

-- The scheduler, one channel, and what `co_chan_recv` has handed out.
pub record World : Type 0 where
  pub sched : Sched
  pub chan : CoChan
  pub received : List ℕ

abbrev pub set_next : ℕ → Option ℕ → Sched → Sched
set_next i next s = record s { pool = put s.pool i (record (s.pool i) { next = next }) }

abbrev pub set_co_state : ℕ → CoState → Sched → Sched
set_co_state i state s = record s { pool = put s.pool i (record (s.pool i) { state = state }) }

abbrev pub set_todo : ℕ → List Act → Sched → Sched
set_todo i todo s = record s { pool = put s.pool i (record (s.pool i) { todo = todo }) }

-- `if (sched.tail) sched.tail->next = co; else sched.head = co; sched.tail = co;`
unfoldable pub link : Option ℕ → ℕ → Sched → Sched
link none co s = record s { head = some co; tail = some co }
link (some last) co s = record (set_next last (some co) s) { tail = some co }

unfoldable pub enqueue : ℕ → Sched → Sched
unfolding link
enqueue co s = link s.tail co (set_next co none s)

-- `dequeue` with the head of the queue.
unfoldable pub unlink : Option ℕ → Sched → Option ℕ × Sched
unlink none s = (none, s)
unlink (some co) s =
    let rest = (s.pool co).next in
    (
      some co,
      set_next co none
          (record s { head = rest; tail = elim rest [ none ↦ none | some _ ↦ s.tail ] }),
    )

unfoldable pub dequeue : Sched → Option ℕ × Sched
unfolding unlink
dequeue s = unlink s.head s

abbrev pub is_free : CoState → Bool
is_free co_free = true
is_free co_ready = false
is_free co_running = false
is_free co_blocked = false
is_free co_done = false

abbrev pub unused : Coroutine
unused = record { todo = []; stack = no_stack; state = co_free; next = none }

unfoldable pub co_sched_init : Sched
co_sched_init = record { pool = λ i. unused; current = none; head = none; tail = none }

-- The first free slot, from `i` on, with `left` to come.
unfoldable pub free_slot : ℕ → ℕ → Pool → Option ℕ
free_slot zero i pool = none
free_slot (suc left) i pool =
    let later = free_slot left (i + 1) pool in if is_free (pool i).state then some i else later

-- The slot when `stack.ptr` has been set, and when `co_start` has made it ready.
abbrev pub set_stack : ℕ → Stack → Sched → Sched
set_stack i stack s = record s { pool = put s.pool i (record (s.pool i) { stack = stack }) }

unfoldable pub make_ready : ℕ → Sched → Sched
unfolding enqueue
make_ready i s =
    enqueue i
      (record s { pool = put s.pool i (record (s.pool i) { stack = has_stack; state = co_ready }) })

-- `co_start` from the test of the stack on. `granted` is whether `mmap` gives memory when it is
-- called; when it does not, `co_stack_alloc` leaves `MAP_FAILED`, which is not NULL. `none` is a
-- crash: `co_stack_init` writes below the stack that `stack.ptr` names.
unfoldable pub with_stack : Stack → Bool → ℕ → Sched → Option Sched
unfolding make_ready
with_stack has_stack granted i s = some (make_ready i s)
with_stack map_failed granted i s = none
with_stack no_stack true i s = some (make_ready i s)
with_stack no_stack false i s = some (set_stack i map_failed s)

-- `co_start`.
unfoldable pub start_at : Option ℕ → Bool → List Act → Sched → Option Sched
unfolding with_stack
start_at none granted todo s = some s
start_at (some i) granted todo s = with_stack (s.pool i).stack granted i (set_todo i todo s)

unfoldable pub co_start : Bool → List Act → Sched → Option Sched
unfolding start_at free_slot
co_start granted todo s = start_at (free_slot co_max 0 s.pool) granted todo s

-- `co_yield` of the coroutine `i`, which goes on with `todo` later.
unfoldable pub co_yield : ℕ → List Act → Sched → Sched
unfolding enqueue
co_yield i todo s =
    let s' = set_todo i todo s in
    enqueue i (elim (s.pool i).state [ co_running ↦ set_co_state i co_ready s' | _ ↦ s' ])

-- A waiter that is woken.
unfoldable pub wake : Option ℕ → Sched → Sched
unfolding enqueue
wake none s = s
wake (some i) s = enqueue i (set_co_state i co_ready s)

-- The coroutine `i` waits, to go on with `todo`.
unfoldable pub block : ℕ → List Act → Sched → Sched
block i todo s = set_co_state i co_blocked (set_todo i todo s)

-- `co_chan_send` once the channel is not full, and `co_chan_recv` once it is not empty.
unfoldable pub chan_send : ℕ → World → World
unfolding wake
chan_send x w =
    let ch = w.chan in
    record w {
      sched = wake ch.recv_waiter w.sched;
      chan = record ch {
        buf = set ch.buf ch.tail x;
        tail = (ch.tail + 1) % ch.cap;
        count = ch.count + 1;
        recv_waiter = none;
      };
    }

unfoldable pub chan_recv : World → World
unfolding wake
chan_recv w =
    let ch = w.chan in
    record w {
      sched = wake ch.send_waiter w.sched;
      chan = record ch { head = (ch.head + 1) % ch.cap; count = ch.count - 1; send_waiter = none };
      received = w.received ++ get_or ch.buf ch.head 0 ∷ [];
    }

-- The run of the coroutine `i` up to its switch to the scheduler: at its end (`co_proxy`), at a
-- `co_yield`, or where it waits in one of the loops of the channel, which it then tests again.
unfoldable pub run_co : ℕ → List Act → World → World
unfolding co_yield block chan_send chan_recv
run_co i [] w = record w { sched = set_co_state i co_done (set_todo i [] w.sched) }
run_co i (pause ∷ rest) w = record w { sched = co_yield i rest w.sched }
run_co i (send x ∷ rest) w =
    let later = run_co i rest (chan_send x w) in
    if leb w.chan.cap w.chan.count
    then record w {
      sched = block i (send x ∷ rest) w.sched;
      chan = record w.chan { send_waiter = some i };
    }
    else later
run_co i (recv ∷ rest) w =
    let later = run_co i rest (chan_recv w) in
    if w.chan.count == 0
    then record w {
      sched = block i (recv ∷ rest) w.sched;
      chan = record w.chan { recv_waiter = some i };
    }
    else later

-- A coroutine that is done gives its slot back.
unfoldable pub settle : CoState → ℕ → Sched → Sched
settle co_done i s = set_co_state i co_free s
settle co_free i s = s
settle co_ready i s = s
settle co_running i s = s
settle co_blocked i s = s

-- One round of the loop of `co_run` for the coroutine `i`, taken from the queue.
unfoldable pub turn : ℕ → World → World
unfolding run_co settle
turn i w =
    let s = record (set_co_state i co_running w.sched) { current = some i } in
    let w' = run_co i (s.pool i).todo (record w { sched = s }) in
    record w' { sched = settle (w'.sched.pool i).state i w'.sched }

-- `co_run`, with fuel; `none` when it runs out.
unfoldable pub co_run : ℕ → World → Option World
unfolding dequeue turn
co_run zero w = none
co_run (suc fuel) w =
    let (co, s) = dequeue w.sched in
    elim co [
      | none ↦ some (record w { sched = record s { current = none } })
      | some i ↦ co_run fuel (turn i (record w { sched = s }))
    ]

-- `co_chan_make`, when both allocations succeed.
unfoldable pub co_chan_make : ℕ → CoChan
co_chan_make cap = record {
  buf = replicate cap 0;
  cap = cap;
  head = 0;
  tail = 0;
  count = 0;
  recv_waiter = none;
  send_waiter = none;
}
