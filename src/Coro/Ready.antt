-- ===== src/Coro/Ready.antt =====
-- user/coro.c: the coroutines that are ready, and how they enter and leave the run queue.
use kxo.Prelude.{
  ℕ, ◌<◌, ◌≡◌, ◌≢◌, inl, inr, refl, sym, ◌∙◌, arith, List, [], ◌∷◌, ◌++◌, Option, some, none, Elem,
  Elem-append_inv, Elem-append_left, Elem-append_right,
}
use mathlib.Core.Path.{subst}
use native.Mathlib.Decide.{ℕ_discrete}
use kxo.Coro.{
  co_max, co_ready, co_running, Coroutine, Pool, Sched, set_next, set_co_state, link, enqueue,
  unlink, dequeue,
}
use kxo.Prelude.{put, put_self, put_other}
use kxo.Coro.Queue.{IsQueue, Links-put, enqueue-IsQueue, dequeue-IsQueue}

-- The run queue is `q`, and holds the coroutines that are ready and no others.
pub record IsReady (s : Sched) (q : List ℕ) : Type 0 where
  pub queue : IsQueue s q
  pub ready : (x : ℕ) → Elem x q → (s.pool x).state ≡ co_ready
  pub queued : (x : ℕ) → (s.pool x).state ≡ co_ready → Elem x q
  pub in_pool : (x : ℕ) → Elem x q → x < co_max

-- What `put` leaves where, for a field of the slots.
pub put_field :
    {A : Type 0} (f : Coroutine → A) (p : Pool) (i : ℕ) (c : Coroutine) (P : ℕ → A → Type 0)
    → P i (f c)
    → ((x : ℕ) → x ≢ i → P x (f (p x)))
    → (x : ℕ) → P x (f (put p i c x))
put_field f p i c P here there x = elim (ℕ_discrete x i) [
  | yes e ↦ rw (e, put_self p i c) here
  | no ne ↦ rw (put_other p i x c ne) (there x ne)
]

-- A slot that is not ready may change to one that is not.
pub put-IsReady :
    (s : Sched) (q : List ℕ) (i : ℕ) (c : Coroutine)
    → IsReady s q
    → ¬ Elem i q
    → c.state ≢ co_ready
    → IsReady (record s { pool = put s.pool i c }) q
put-IsReady s q i c v out ne = record {
  queue = record {
    links = Links-put s.pool i c s.head q out v.queue.links;
    tail_is = v.queue.tail_is;
    distinct = v.queue.distinct;
  };
  ready = λ x e.
      rw (put_other s.pool i x c (λ (f : x ≡ i). out (subst (λ z. Elem z q) f e))) (v.ready x e);
  queued =
      put_field (λ (d : Coroutine). d.state) s.pool i c (λ x st. st ≡ co_ready → Elem x q)
        (λ e. absurd (ne e)) (λ x f e. v.queued x e);
  in_pool = v.in_pool;
}

-- `s'` has the states and the work of `s`.
abbrev pub SameWork : Sched → Sched → Type 0
SameWork s s' =
    (x : ℕ) → ((s'.pool x).state ≡ (s.pool x).state) × ((s'.pool x).todo ≡ (s.pool x).todo)

set_next-SameWork : (i : ℕ) (next : Option ℕ) (s : Sched) → SameWork s (set_next i next s)
set_next-SameWork i next s x = elim (ℕ_discrete x i) [
  | yes e ↦ rw (e, put_self s.pool i (record (s.pool i) { next = next })) (refl, refl)
  | no ne ↦ rw (put_other s.pool i x (record (s.pool i) { next = next }) ne) (refl, refl)
]

SameWork-trans : (s s' s'' : Sched) → SameWork s s' → SameWork s' s'' → SameWork s s''
SameWork-trans s s' s'' h k x = ((k x).0 ∙ (h x).0, (k x).1 ∙ (h x).1)

pub enqueue-SameWork : (i : ℕ) (s : Sched) → SameWork s (enqueue i s)
unfolding enqueue link
enqueue-SameWork i s = linked s.tail
  where
    linked : (last : Option ℕ) → SameWork s (link last i (set_next i none s))
    linked none = set_next-SameWork i none s
    linked (some last) =
        SameWork-trans s (set_next i none s) (set_next last (some i) (set_next i none s))
          (set_next-SameWork i none s) (set_next-SameWork last (some i) (set_next i none s))

pub dequeue-SameWork : (s : Sched) → SameWork s (dequeue s).1
unfolding dequeue unlink
dequeue-SameWork s = unlinked s.head
  where
    unlinked : (head : Option ℕ) → SameWork s (unlink head s).1
    unlinked none x = (refl, refl)
    unlinked (some co) x = set_next-SameWork co none s x

-- A coroutine that was not in the run queue becomes ready.
pub enqueue-IsReady :
    (s : Sched) (q : List ℕ) (i : ℕ) (c : Coroutine)
    → IsReady s q
    → ¬ Elem i q
    → c.state ≡ co_ready
    → i < co_max
    → IsReady (enqueue i (record s { pool = put s.pool i c })) (q ++ i ∷ [])
enqueue-IsReady s q i c v out e lt =
    let s' : Sched = record s { pool = put s.pool i c } in
    record {
      queue =
          enqueue-IsQueue s' i q
            (record {
              links = Links-put s.pool i c s.head q out v.queue.links;
              tail_is = v.queue.tail_is;
              distinct = v.queue.distinct;
            })
            out;
      ready = λ x el.
          (enqueue-SameWork i s' x).0
          ∙ put_field (λ (d : Coroutine). d.state) s.pool i c
              (λ x st. Elem x (q ++ i ∷ []) → st ≡ co_ready) (λ _. e)
              (λ x ne el. elim (Elem-append_inv x q (i ∷ []) el) [
                | inl there ↦ v.ready x there
                | inr (inl f) ↦ absurd (ne f)
                | inr (inr f) ↦ absurd f
              ])
              x el;
      queued = λ x f.
          put_field (λ (d : Coroutine). d.state) s.pool i c
            (λ x st. st ≡ co_ready → Elem x (q ++ i ∷ []))
            (λ _. Elem-append_right i q (i ∷ []) (inl refl))
            (λ x ne g. Elem-append_left x q (i ∷ []) (v.queued x g)) x
            (sym (enqueue-SameWork i s' x).0 ∙ f);
      in_pool = λ x el. elim (Elem-append_inv x q (i ∷ []) el) [
        | inl there ↦ v.in_pool x there
        | inr (inl f) ↦ rw f lt
        | inr (inr f) ↦ absurd f
      ];
    }

-- The coroutine that is taken from the run queue starts to run, and the others wait.
pub dequeue-IsReady :
    (s : Sched) (q : List ℕ) (i : ℕ)
    → IsReady s (i ∷ q)
    → IsReady (record (set_co_state i co_running (dequeue s).1) { current = some i }) q
dequeue-IsReady s q i v =
    let s' = (dequeue s).1 in
    let c : Coroutine = record (s'.pool i) { state = co_running } in
    let out = v.queue.distinct.0 in
    let left = (dequeue-IsQueue s i q v.queue).1 in
    record {
      queue = record {
        links = Links-put s'.pool i c s'.head q out left.links;
        tail_is = left.tail_is;
        distinct = left.distinct;
      };
      ready = λ x e.
          rw (put_other s'.pool i x c (λ (f : x ≡ i). out (subst (λ z. Elem z q) f e)))
            ((dequeue-SameWork s x).0 ∙ v.ready x (inr e));
      queued =
          put_field (λ (d : Coroutine). d.state) s'.pool i c (λ x st. st ≡ co_ready → Elem x q)
            (λ e. absurd (ground (arith, e)))
            (λ x ne e. elim (v.queued x (sym (dequeue-SameWork s x).0 ∙ e)) [
              | inl f ↦ absurd (ne f)
              | inr there ↦ there
            ]);
      in_pool = λ x e. v.in_pool x (inr e);
    }
