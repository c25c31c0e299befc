-- ===== src/Coro/Blocks.antt =====
-- user/coro.c: a coroutine that waits at a side of the channel.
use kxo.Prelude.{ℕ, ◌<◌, ◌≡◌, ◌≢◌, inr, refl, sym, arith, List, Option, some}
use mathlib.Core.Path.{subst}
use mathlib.Core.Option.{some-injective}
use kxo.Coro.{CoChan, co_max, co_blocked, Act, World, block}
use kxo.Coro.Channel.{IsChan}
use kxo.Coro.Turns.{Waits, Waiters}
use kxo.Coro.Runs.{IsRunning, Ran, halt-Left, waiting_ne, halted-Ran, halted-Waits}

module _ (i : ℕ) (lt : i < co_max) where
  waiter-IsChan :
      (recv_waiter send_waiter : Option ℕ) (ch : CoChan) (xs : List ℕ)
      → IsChan ch xs
      → IsChan (record ch { recv_waiter = recv_waiter; send_waiter = send_waiter }) xs
  waiter-IsChan recv_waiter send_waiter ch xs v = record {
    counted = v.counted;
    fits = v.fits;
    some_cap = v.some_cap;
    size = v.size;
    head_lt = v.head_lt;
    tail_is = v.tail_is;
    held = v.held;
  }

  -- The coroutine waits, and is the one that its side of the channel knows of.
  pub block-Ran :
      (acts : List Act) (q xs : List ℕ) (w : World) (recv_waiter send_waiter : Option ℕ)
      → IsRunning i lt q xs w
      → Waiters (block i acts w.sched) recv_waiter send_waiter
      → Ran i lt acts q xs w (record w {
        sched = block i acts w.sched;
        chan = record w.chan { recv_waiter = recv_waiter; send_waiter = send_waiter };
      })
  unfolding block
  block-Ran acts q xs w recv_waiter send_waiter v waiters =
      let left =
        halt-Left i lt co_blocked acts w.sched q (λ e. absurd (ground (arith, e))) v.world.is_ready
          v.runs in
      halted-Ran i lt acts q xs w
        (record w {
          sched = block i acts w.sched;
          chan = record w.chan { recv_waiter = recv_waiter; send_waiter = send_waiter };
        })
        co_blocked acts q v left (inr (inr (inr refl))) (omega arith) refl refl waiters
        (waiter-IsChan recv_waiter send_waiter w.chan xs v.world.holds)

  -- Who waits once the coroutine has blocked, at either side.
  module _ (acts : List Act) (q xs : List ℕ) (w : World) (v : IsRunning i lt q xs w) where
    still :
        (waiter : Option ℕ)
        → ((j : ℕ) → waiter ≡ some j → Waits w.sched j)
        → (j : ℕ) → waiter ≡ some j
        → Waits (block i acts w.sched) j
    unfolding block
    still waiter waits =
        halted-Waits i lt waiter w.sched (block i acts w.sched) co_blocked acts q v.runs
          (halt-Left i lt co_blocked acts w.sched q (λ e. absurd (ground (arith, e)))
            v.world.is_ready v.runs)
          waits

    here : (j : ℕ) → some i ≡ some j → Waits (block i acts w.sched) j
    unfolding block
    here j e =
        subst (λ k. Waits (block i acts w.sched) k) (some-injective _ _ e)
          (
            (halt-Left i lt co_blocked acts w.sched q (λ f. absurd (ground (arith, f)))
                v.world.is_ready v.runs).state_is,
            lt,
          )

    -- The coroutine that runs does not wait.
    elsewhere :
        (waiter : Option ℕ)
        → ((j : ℕ) → waiter ≡ some j → Waits w.sched j)
        → (j : ℕ) → some i ≡ some j
        → waiter ≢ some j
    elsewhere waiter waits j e f =
        waiting_ne i lt waiter w.sched j v.runs waits f (sym (some-injective _ _ e))

    pub block_send-Waiters : Waiters (block i acts w.sched) w.chan.recv_waiter (some i)
    block_send-Waiters =
        let waits = v.world.waiters in
        record {
          at_recv = still w.chan.recv_waiter waits.at_recv;
          at_send = here;
          differ = λ j e f. elsewhere w.chan.recv_waiter waits.at_recv j f e;
        }

    pub block_recv-Waiters : Waiters (block i acts w.sched) (some i) w.chan.send_waiter
    block_recv-Waiters =
        let waits = v.world.waiters in
        record {
          at_recv = here;
          at_send = still w.chan.send_waiter waits.at_send;
          differ = elsewhere w.chan.send_waiter waits.at_send;
        }
