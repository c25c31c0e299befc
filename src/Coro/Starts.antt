-- ===== src/Coro/Starts.antt =====
-- user/coro.c: how the scheduler begins, and a coroutine in it.
use kxo.Prelude.{
  ℕ, suc, ◌<◌, ◌≤◌, ◌≡◌, ◌≢◌, ◌⊎◌, inl, inr, refl, ap, ◌∙◌, arith, List, [], ◌∷◌, ◌++◌, Bool, true,
  false, some, none, Option, Option-cases, Elem, length, length-append,
}
use mathlib.Core.Path.{subst}
use mathlib.Core.Option.{some-injective}
use native.Mathlib.Decide.{ℕ_discrete}
use kxo.Coro.{
  co_max, co_free, co_ready, co_blocked, Act, Coroutine, free_slot, Sched, World, set_todo, enqueue,
  start_at, co_start, Stack, no_stack, map_failed, has_stack, set_stack, with_stack, co_sched_init,
  co_chan_make,
}
use kxo.Prelude.{put, put_self, put_other}
use kxo.Coro.Channel.{co_chan_make-IsChan}
use kxo.Coro.Ready.{IsReady, put-IsReady, enqueue-SameWork, enqueue-IsReady}
use kxo.Coro.Turns.{AtRest, Waits, IsWorld, not_queued}
use kxo.Coro.Slots.{free_slot-found, free_slot-none, enqueue-stack}

-- A slot of this stack can be started: the stack is there or can be had.
abbrev pub HasStack : Bool → Stack → Type 0
HasStack granted stack = (stack ≡ has_stack) ⊎ ((granted ≡ true) × (stack ≡ no_stack))

-- What `co_start` does, `o` being the scheduler after it, `none` for a crash.
pub data Start (granted : Bool) (todo : List Act) (q xs : List ℕ) (w : World) (o : Option Sched)
    : Type 0 where
  started :
      (i : ℕ) (s' : Sched)
      → o ≡ some s'
      → i < co_max
      → (w.sched.pool i).state ≡ co_free
      → HasStack granted (w.sched.pool i).stack
      → (s'.pool i).stack ≡ has_stack
      → (s'.pool i).todo ≡ todo
      → IsWorld none (q ++ i ∷ []) xs (record w { sched = s' })
      → Start granted todo q xs w o
  refused :
      (i : ℕ) (s' : Sched)
      → o ≡ some s'
      → granted ≡ false
      → (w.sched.pool i).stack ≡ no_stack
      → (s'.pool i).state ≡ co_free
      → (s'.pool i).stack ≡ map_failed
      → IsWorld none q xs (record w { sched = s' })
      → Start granted todo q xs w o
  no_slot :
      ((x : ℕ) → x < co_max → (w.sched.pool x).state ≢ co_free)
      → o ≡ some w.sched
      → Start granted todo q xs w o
  crashed :
      (i : ℕ)
      → o ≡ none
      → (w.sched.pool i).state ≡ co_free
      → (w.sched.pool i).stack ≡ map_failed
      → Start granted todo q xs w o

-- A free slot gets its routine, and if `st` is `co_ready` its place in the run queue.
module _ (i : ℕ) (todo : List Act) (q xs : List ℕ) (w : World) (lt : i < co_max)
    (free : (w.sched.pool i).state ≡ co_free) (v : IsWorld none q xs w) where
  abbrev given : Coroutine
  given = record (w.sched.pool i) { todo = todo }

  out : ¬ Elem i q
  out = not_queued w.sched q i v.is_ready (λ e. absurd (ground (arith, e, free)))

  kept_waiting :
      (s : Sched)
      → ((x : ℕ) → x ≢ i → (s.pool x).state ≡ (w.sched.pool x).state)
      → (j : ℕ) → Waits w.sched j
      → Waits s j
  kept_waiting s same j h = (same j (λ f. other f) ∙ h.0, h.1)
    where
      other : j ≢ i
      other f =
          let b = subst (λ k. (w.sched.pool k).state ≡ co_blocked) f h.0 in
          absurd (ground (arith, free, b))

  -- The world when the slot alone has changed, and the run queue with it.
  changed-IsWorld :
      (s : Sched) (q' : List ℕ)
      → IsReady s q'
      → AtRest (s.pool i).state
      → ((x : ℕ) → x ≢ i → (s.pool x).state ≡ (w.sched.pool x).state)
      → IsWorld none q' xs (record w { sched = s })
  changed-IsWorld s q' ready rest same = record {
    is_ready = ready;
    at_rest = λ x ne. elim (ℕ_discrete x i) [
      | yes e ↦ rw e rest
      | no other ↦ rw (same x other) (v.at_rest x ne)
    ];
    waiters = record {
      at_recv = λ j e. kept_waiting s same j (v.waiters.at_recv j e);
      at_send = λ j e. kept_waiting s same j (v.waiters.at_send j e);
      differ = v.waiters.differ;
    };
    holds = v.holds;
  }

  given-IsReady : IsReady (set_todo i todo w.sched) q
  given-IsReady =
      put-IsReady w.sched q i given v.is_ready out (λ e. absurd (ground (arith, e, free)))

  abbrev failed_slot : Coroutine
  failed_slot = record ((set_todo i todo w.sched).pool i) { stack = map_failed }

  failed_is : (set_todo i todo w.sched).pool i ≡ given
  failed_is = put_self w.sched.pool i given

  without :
      IsWorld none q xs (record w { sched = set_stack i map_failed (set_todo i todo w.sched) })
  without =
      let still : failed_slot.state ≡ co_free = ap (λ (c : Coroutine). c.state) failed_is ∙ free in
      changed-IsWorld (set_stack i map_failed (set_todo i todo w.sched)) q
        (put-IsReady (set_todo i todo w.sched) q i failed_slot given-IsReady out
          (λ e. absurd (ground (arith, e, still))))
        (rw (put_self (set_todo i todo w.sched).pool i failed_slot) (inl still))
        (λ x ne.
          ap (λ (c : Coroutine). c.state)
            (put_other (set_todo i todo w.sched).pool i x failed_slot ne
              ∙ put_other w.sched.pool i x given ne))

  abbrev ready_slot : Coroutine
  ready_slot = record ((set_todo i todo w.sched).pool i) { stack = has_stack; state = co_ready }

  abbrev got : Sched
  got = record w.sched { pool = put (set_todo i todo w.sched).pool i ready_slot }

  taken : IsWorld none (q ++ i ∷ []) xs (record w { sched = enqueue i got })
  taken =
      changed-IsWorld (enqueue i got) (q ++ i ∷ [])
        (enqueue-IsReady (set_todo i todo w.sched) q i ready_slot given-IsReady out refl lt)
        (inr (
          inl (
            (enqueue-SameWork i got i).0
            ∙ ap (λ (c : Coroutine). c.state)
                (put_self (set_todo i todo w.sched).pool i ready_slot))))
        (λ x ne.
          (enqueue-SameWork i got x).0
          ∙ ap (λ (c : Coroutine). c.state)
              (put_other (set_todo i todo w.sched).pool i x ready_slot ne
                ∙ put_other w.sched.pool i x given ne))

  begun :
      (granted : Bool)
      → HasStack granted (w.sched.pool i).stack
      → Start granted todo q xs w (some (enqueue i got))
  begun granted had =
      started i (enqueue i got) refl lt free had
        (enqueue-stack i got i
          ∙ ap (λ (c : Coroutine). c.stack) (put_self (set_todo i todo w.sched).pool i ready_slot))
        ((enqueue-SameWork i got i).1
          ∙ ap (λ (c : Coroutine). c.todo) (put_self (set_todo i todo w.sched).pool i ready_slot)
          ∙ ap (λ (c : Coroutine). c.todo) (put_self w.sched.pool i given))
        taken

  with_stack-Start :
      (stack : Stack) (granted : Bool)
      → (w.sched.pool i).stack ≡ stack
      → Start granted todo q xs w (with_stack stack granted i (set_todo i todo w.sched))
  unfolding with_stack
  with_stack-Start has_stack granted e = begun granted (inl e)
  with_stack-Start map_failed granted e = crashed i refl free e
  with_stack-Start no_stack true e = begun true (inr (refl, e))
  with_stack-Start no_stack false e =
      refused i (set_stack i map_failed (set_todo i todo w.sched)) refl refl e
        (ap (λ (c : Coroutine). c.state) (put_self (set_todo i todo w.sched).pool i failed_slot)
          ∙ ap (λ (c : Coroutine). c.state) failed_is
          ∙ free)
        (ap (λ (c : Coroutine). c.stack) (put_self (set_todo i todo w.sched).pool i failed_slot))
        without

-- `co_start` in a world between two rounds, where the run queue holds the coroutines that are ready,
-- none runs and the waiters of the channel are blocked. With a free slot whose stack is there or
-- granted it gives the slot the routine and puts it last in the run queue. Without memory for a
-- stack it starts nothing, and leaves the slot free with `MAP_FAILED` for a stack; it crashes only
-- when the slot that it takes was left so before. When all slots are taken nothing changes. The world
-- is in order in each case but the crash.
pub co_start-Start :
    (granted : Bool) (todo : List Act) (q xs : List ℕ) (w : World)
    → IsWorld none q xs w
    → Start granted todo q xs w (co_start granted todo w.sched)
unfolding co_start start_at
co_start-Start granted todo q xs w v = elim (Option-cases (free_slot co_max 0 w.sched.pool)) [
  | inl e ↦
      rw (e, start_at)
        (no_slot (λ x lt. free_slot-none co_max 0 x w.sched.pool e (omega arith) lt) refl)
  | inr (i, e) ↦
      let (lt, free) = free_slot-found co_max 0 i w.sched.pool e in
      rw (e, start_at)
        (with_stack-Start i todo q xs w lt free v (w.sched.pool i).stack granted refl)
]

-- The scheduler after `co_sched_init`, with a channel that has just been made.
pub co_sched_init-IsWorld :
    (cap : ℕ)
    → 0 < cap
    → IsWorld none [] [] (record { sched = co_sched_init; chan = co_chan_make cap; received = [] })
unfolding co_sched_init co_chan_make
co_sched_init-IsWorld cap h = record {
  is_ready = record {
    queue = record { links = refl; tail_is = refl; distinct = tt };
    ready = λ x e. absurd e;
    queued = λ x e. absurd (ground (arith, e));
    in_pool = λ x e. absurd e;
  };
  at_rest = λ x ne. inl refl;
  waiters = record {
    at_recv = λ j e. absurd (ground (arith, e));
    at_send = λ j e. absurd (ground (arith, e));
    differ = λ j e f. absurd (ground (arith, e));
  };
  holds = co_chan_make-IsChan cap h;
}

-- The world after `co_start`, whatever it did but crash.
pub Start-IsWorld :
    (granted : Bool) (todo : List Act) (q xs : List ℕ) (w : World) (s' : Sched)
    → IsWorld none q xs w
    → Start granted todo q xs w (some s')
    → (q' : List ℕ) × IsWorld none q' xs (record w { sched = s' }) × (length q' ≤ suc (length q))
Start-IsWorld granted todo q xs w s' v (started i t e lt free had stack same v') =
    (q ++ i ∷ [], rw (some-injective _ _ e) v', omega (arith, length-append q (i ∷ [])))
Start-IsWorld granted todo q xs w s' v (refused i t e g none_yet free failed v') =
    (q, rw (some-injective _ _ e) v', omega arith)
Start-IsWorld granted todo q xs w s' v (no_slot full e) =
    (q, rw (some-injective _ _ e) v, omega arith)
Start-IsWorld granted todo q xs w s' v (crashed i e free failed) = absurd (ground (arith, e))
