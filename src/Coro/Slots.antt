-- ===== src/Coro/Slots.antt =====
-- user/coro.c: the free slots of the pool, and the stacks when a coroutine is queued.
use kxo.Prelude.{
  ℕ, zero, suc, ◌+◌, ◌<◌, ◌≤◌, ◌≡◌, ◌≢◌, inl, inr, refl, ap, ◌∙◌, arith, true, some, none, Option,
  Bool-cases,
}
use mathlib.Core.Path.{subst}
use mathlib.Core.Option.{some-injective}
use native.Mathlib.Decide.{ℕ_discrete}
use kxo.Coro.{
  CoState, co_free, co_ready, co_running, co_blocked, co_done, Coroutine, Pool, is_free, free_slot,
  Sched, set_next, link, enqueue,
}
use kxo.Prelude.{put_self, put_other}

is_free-co_free : (st : CoState) → is_free st ≡ true → st ≡ co_free
is_free-co_free co_free e = refl
is_free-co_free co_ready e = absurd (ground (arith, e))
is_free-co_free co_running e = absurd (ground (arith, e))
is_free-co_free co_blocked e = absurd (ground (arith, e))
is_free-co_free co_done e = absurd (ground (arith, e))

pub free_slot-found :
    (left i j : ℕ) (p : Pool)
    → free_slot left i p ≡ some j
    → (j < i + left) × ((p j).state ≡ co_free)
unfolding free_slot
free_slot-found zero i j p e = absurd (ground (arith, e))
free_slot-found (suc left) i j p e = elim (Bool-cases (is_free (p i).state)) [
  | inl free ↦
      let here : i ≡ j = some-injective _ _ (rw free at e) in
      (
        omega (arith, here),
        subst (λ k. (p k).state ≡ co_free) here (is_free-co_free (p i).state free),
      )
  | inr busy ↦
      let (lt, free) = free_slot-found left (i + 1) j p (rw busy at e) in (omega (arith, lt), free)
]

pub free_slot-none :
    (left i x : ℕ) (p : Pool)
    → free_slot left i p ≡ none
    → i ≤ x
    → x < i + left
    → (p x).state ≢ co_free
unfolding free_slot
free_slot-none zero i x p e le lt = absurd (omega (arith, le, lt))
free_slot-none (suc left) i x p e le lt = elim (Bool-cases (is_free (p i).state)) [
  | inl free ↦ let e' = (rw free at e) in absurd (ground (arith, e'))
  | inr busy ↦ elim (ℕ_discrete x i) [
    | yes here ↦ rw here (λ f. absurd (ground (arith, busy, f)))
    | no ne ↦
        free_slot-none left (i + 1) x p (rw busy at e) (omega (arith, le, ne)) (omega (arith, lt))
  ]
]

set_next-stack :
    (i : ℕ) (next : Option ℕ) (s : Sched) (x : ℕ)
    → ((set_next i next s).pool x).stack ≡ (s.pool x).stack
set_next-stack i next s x = elim (ℕ_discrete x i) [
  | yes e ↦
      rw e (ap (λ (c : Coroutine). c.stack) (put_self s.pool i (record (s.pool i) { next = next })))
  | no ne ↦
      ap (λ (c : Coroutine). c.stack) (put_other s.pool i x (record (s.pool i) { next = next }) ne)
]

pub enqueue-stack : (i : ℕ) (s : Sched) (x : ℕ) → ((enqueue i s).pool x).stack ≡ (s.pool x).stack
unfolding enqueue link
enqueue-stack i s x = linked s.tail
  where
    linked : (last : Option ℕ) → ((link last i (set_next i none s)).pool x).stack ≡ (s.pool x).stack
    linked none = set_next-stack i none s x
    linked (some last) =
        set_next-stack last (some i) (set_next i none s) x ∙ set_next-stack i none s x
