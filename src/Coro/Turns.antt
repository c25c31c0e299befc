-- ===== src/Coro/Turns.antt =====
-- user/coro.c: what holds of the scheduler and a channel whenever a coroutine is taken from the run
-- queue and while it runs, and what every step leaves of the work to do.
use kxo.Prelude.{
  ℕ, suc, ◌<◌, ◌≤◌, ◌≡◌, ◌≢◌, ◌⊎◌, inl, inr, refl, ◌∙◌, arith, List, [], ◌∷◌, ◌++◌, Option, some,
  none, length, length-append, Elem,
}
use kxo.Prelude.{put}
use kxo.Coro.{
  co_max, CoState, co_free, co_ready, co_blocked, Coroutine, Sched, World, enqueue, wake,
}
use kxo.Coro.Channel.{IsChan}
use kxo.Coro.Ready.{IsReady, put_field, enqueue-SameWork, enqueue-IsReady}

-- The state of a coroutine that does not run.
abbrev pub AtRest : CoState → Type 0
AtRest st = (st ≡ co_free) ⊎ (st ≡ co_ready) ⊎ (st ≡ co_blocked)

abbrev pub Waits : Sched → ℕ → Type 0
Waits s j = ((s.pool j).state ≡ co_blocked) × (j < co_max)

-- The coroutines that wait at a channel are blocked, and are two.
pub record Waiters (s : Sched) (recv_waiter send_waiter : Option ℕ) : Type 0 where
  pub at_recv : (j : ℕ) → recv_waiter ≡ some j → Waits s j
  pub at_send : (j : ℕ) → send_waiter ≡ some j → Waits s j
  pub differ : (j : ℕ) → recv_waiter ≡ some j → send_waiter ≢ some j

-- The run queue is `q`, the channel holds `xs`, and no coroutine runs but, if at all, `who`.
pub record IsWorld (who : Option ℕ) (q xs : List ℕ) (w : World) : Type 0 where
  pub is_ready : IsReady w.sched q
  pub at_rest : (x : ℕ) → who ≢ some x → AtRest (w.sched.pool x).state
  pub waiters : Waiters w.sched w.chan.recv_waiter w.chan.send_waiter
  pub holds : IsChan w.chan xs

-- What `wake` leaves.
pub record Woken (waiter : Option ℕ) (s : Sched) (n : ℕ) (q' : List ℕ) (s' : Sched) : Type 0 where
  pub is_ready : IsReady s' q'
  pub at_most : length q' ≤ suc n
  pub kept : (x : ℕ) → waiter ≢ some x → (s'.pool x).state ≡ (s.pool x).state
  pub changed : (x : ℕ) → ((s'.pool x).state ≡ (s.pool x).state) ⊎ ((s'.pool x).state ≡ co_ready)
  pub same_todo : (x : ℕ) → (s'.pool x).todo ≡ (s.pool x).todo

pub not_queued :
    (s : Sched) (q : List ℕ) (i : ℕ) → IsReady s q → (s.pool i).state ≢ co_ready → ¬ Elem i q
not_queued s q i v ne h = ne (v.ready i h)

pub wake-Woken :
    (waiter : Option ℕ) (s : Sched) (q : List ℕ)
    → IsReady s q
    → ((j : ℕ) → waiter ≡ some j → Waits s j)
    → (q' : List ℕ) × Woken waiter s (length q) q' (wake waiter s)
unfolding wake
wake-Woken none s q v waits = (
  q,
  record {
    is_ready = v;
    at_most = omega arith;
    kept = λ x ne. refl;
    changed = λ x. inl refl;
    same_todo = λ x. refl;
  },
)
wake-Woken (some i) s q v waits =
    let (blocked, lt) = waits i refl in
    let c : Coroutine = record (s.pool i) { state = co_ready } in
    let s' : Sched = record s { pool = put s.pool i c } in
    (
      q ++ i ∷ [],
      record {
        is_ready =
            enqueue-IsReady s q i c v
              (not_queued s q i v (λ e. absurd (ground (arith, e, blocked)))) refl lt;
        at_most = omega (arith, length-append q (i ∷ []));
        kept = λ x ne.
            (enqueue-SameWork i s' x).0
            ∙ put_field (λ (d : Coroutine). d.state) s.pool i c
                (λ x st. some i ≢ some x → st ≡ (s.pool x).state) (λ f. absurd (f refl))
                (λ x _ _. refl) x ne;
        changed = λ x.
            put_field (λ (d : Coroutine). d.state) s.pool i c
              (λ x st.
                ((enqueue i s').pool x).state ≡ st
                → (((enqueue i s').pool x).state ≡ (s.pool x).state)
                  ⊎ (((enqueue i s').pool x).state ≡ co_ready))
              (λ e. inr e) (λ x _ e. inl e) x (enqueue-SameWork i s' x).0;
        same_todo = λ x.
            (enqueue-SameWork i s' x).1
            ∙ put_field (λ (d : Coroutine). d.todo) s.pool i c (λ x t. t ≡ (s.pool x).todo) refl
                (λ x _. refl) x;
      },
    )
