-- ===== src/Coro/Queue.antt =====
-- user/coro.c: the run queue as a list, first the next to run.
use kxo.Prelude.{
  ℕ, ◌≡◌, ◌≢◌, inl, inr, refl, sym, ap, ◌∙◌, arith, List, [], ◌∷◌, ◌++◌, Option, some, none, Elem,
  Distinct, Distinct-append_one, put_self, put_other, put,
}
use mathlib.Core.Path.{subst}
use mathlib.Core.Option.{some-injective}
use kxo.Coro.{Coroutine, Pool, Sched, set_next, link, enqueue, unlink, dequeue}

-- The slots of `q` one after the other, from `from` on.
abbrev pub Links : Pool → Option ℕ → List ℕ → Type 0
Links pool from [] = from ≡ none
Links pool from (x ∷ q) = (from ≡ some x) × Links pool (pool x).next q

abbrev pub last_of : List ℕ → Option ℕ
last_of [] = none
last_of (x ∷ []) = some x
last_of (x ∷ y ∷ q) = last_of (y ∷ q)

-- The run queue of `s` is the list `q`.
pub record IsQueue (s : Sched) (q : List ℕ) : Type 0 where
  pub links : Links s.pool s.head q
  pub tail_is : s.tail ≡ last_of q
  pub distinct : Distinct q

-- The links of slots that keep theirs.
pub Links-same :
    (p p' : Pool) (from : Option ℕ) (q : List ℕ)
    → ((x : ℕ) → Elem x q → (p' x).next ≡ (p x).next)
    → Links p from q
    → Links p' from q
Links-same p p' from [] same h = h
Links-same p p' from (x ∷ q) same h =
    (h.0, rw (same x (inl refl)) (Links-same p p' (p x).next q (λ y e. same y (inr e)) h.1))

last_of-append : (q : List ℕ) (i : ℕ) → last_of (q ++ i ∷ []) ≡ some i
last_of-append [] i = refl
last_of-append (x ∷ []) i = refl
last_of-append (x ∷ y ∷ q) i = last_of-append (y ∷ q) i

-- The link of the last slot leads to the new one.
Links-link :
    (p : Pool) (from : Option ℕ) (q : List ℕ) (last i : ℕ)
    → Links p from q
    → Distinct q
    → last_of q ≡ some last
    → ¬ Elem i q
    → (p i).next ≡ none
    → Links (put p last (record (p last) { next = some i })) from (q ++ i ∷ [])
Links-link p from [] last i h d e ne n = absurd (ground (arith, e))
Links-link p from (x ∷ []) last i h d e ne n =
    let same : x ≡ last = some-injective _ _ e in
    let apart : i ≢ last = λ f. ne (inl (f ∙ sym same)) in
    (
      h.0,
      rw (same, put_self p last (record (p last) { next = some i }))
          (refl, rw (put_other p last i (record (p last) { next = some i }) apart) n),
    )
Links-link p from (x ∷ y ∷ q) last i h d e ne n =
    let apart : x ≢ last =
      λ f. d.0 (subst (λ z. Elem z (y ∷ q)) (sym f) (last_of-Elem (y ∷ q) last e)) in
    (
      h.0,
      rw (put_other p last x (record (p last) { next = some i }) apart)
          (Links-link p (p x).next (y ∷ q) last i h.1 d.1 e (λ h'. ne (inr h')) n),
    )
  where
    last_of-Elem : (q : List ℕ) (last : ℕ) → last_of q ≡ some last → Elem last q
    last_of-Elem [] last e = absurd (ground (arith, e))
    last_of-Elem (x ∷ []) last e = inl (sym (some-injective _ _ e))
    last_of-Elem (x ∷ y ∷ q) last e = inr (last_of-Elem (y ∷ q) last e)

last_of-ne_none : (x : ℕ) (q : List ℕ) → last_of (x ∷ q) ≢ none
last_of-ne_none x [] e = absurd (ground (arith, e))
last_of-ne_none x (y ∷ q) e = last_of-ne_none y q e

-- A slot that is not in the queue may change.
pub Links-put :
    (p : Pool) (i : ℕ) (c : Coroutine) (from : Option ℕ) (q : List ℕ)
    → ¬ Elem i q
    → Links p from q
    → Links (put p i c) from q
Links-put p i c from q ne h =
    Links-same p (put p i c) from q
      (λ x e.
        ap (λ (d : Coroutine). d.next) (put_other p i x c (λ f. ne (subst (λ z. Elem z q) f e))))
      h

module _ (s : Sched) (i : ℕ) where
  cleared-next : (put s.pool i (record (s.pool i) { next = none }) i).next ≡ none
  cleared-next =
      ap (λ (c : Coroutine). c.next) (put_self s.pool i (record (s.pool i) { next = none }))

  link-IsQueue :
      (q : List ℕ) (last : Option ℕ)
      → IsQueue s q
      → ¬ Elem i q
      → last ≡ last_of q
      → IsQueue (link last i (set_next i none s)) (q ++ i ∷ [])
  unfolding link
  link-IsQueue [] none v ne e = record {
    links = (refl, cleared-next);
    tail_is = refl;
    distinct = (λ h. h, tt);
  }
  link-IsQueue [] (some last) v ne e = absurd (ground (arith, e))
  link-IsQueue (x ∷ q) none v ne e = absurd (last_of-ne_none x q (sym e))
  link-IsQueue (x ∷ q) (some last) v ne e = record {
    links =
        Links-link (put s.pool i (record (s.pool i) { next = none })) s.head (x ∷ q) last i
          (Links-put s.pool i (record (s.pool i) { next = none }) s.head (x ∷ q) ne v.links)
          v.distinct (sym e) ne cleared-next;
    tail_is = sym (last_of-append (x ∷ q) i);
    distinct = Distinct-append_one (x ∷ q) i v.distinct ne;
  }

  -- `enqueue` of a slot that is not in the run queue puts it last, and the others keep their order.
  pub enqueue-IsQueue :
      (q : List ℕ) → IsQueue s q → ¬ Elem i q → IsQueue (enqueue i s) (q ++ i ∷ [])
  unfolding enqueue
  enqueue-IsQueue q v ne = link-IsQueue q s.tail v ne v.tail_is

tail_left :
    (p : Pool) (rest tail : Option ℕ) (x : ℕ) (q : List ℕ)
    → Links p rest q
    → tail ≡ last_of (x ∷ q)
    → Path (Option ℕ) (elim rest [ none ↦ none | some _ ↦ tail ]) (last_of q)
tail_left p none tail x [] h e = refl
tail_left p none tail x (y ∷ q) h e = absurd (ground (arith, h.0))
tail_left p (some z) tail x [] h e = absurd (ground (arith, h))
tail_left p (some z) tail x (y ∷ q) h e = e

unlink-IsQueue :
    (s : Sched) (h : Option ℕ) (x : ℕ) (q : List ℕ)
    → h ≡ some x
    → IsQueue s (x ∷ q)
    → ((unlink h s).0 ≡ some x) × IsQueue (unlink h s).1 q
unfolding unlink
unlink-IsQueue s none x q e v = absurd (ground (arith, e))
unlink-IsQueue s (some y) x q e v = rw (some-injective _ _ e) (
  refl,
  record {
    links =
        Links-put s.pool x (record (s.pool x) { next = none }) (s.pool x).next q v.distinct.0
          v.links.1;
    tail_is = tail_left s.pool (s.pool x).next s.tail x q v.links.1 v.tail_is;
    distinct = v.distinct.1;
  },
)

-- `dequeue` of a run queue gives its first slot, and leaves the rest.
pub dequeue-IsQueue :
    (s : Sched) (x : ℕ) (q : List ℕ)
    → IsQueue s (x ∷ q)
    → ((dequeue s).0 ≡ some x) × IsQueue (dequeue s).1 q
unfolding dequeue
dequeue-IsQueue s x q v = unlink-IsQueue s s.head x q v.links.0 v

-- `dequeue` of an empty run queue gives nothing and changes nothing.
pub dequeue-empty : (s : Sched) → IsQueue s [] → dequeue s ≡ (none, s)
unfolding dequeue
dequeue-empty s v = rw v.links

-- The run queue is first in, first out: after `enqueue` of a slot that is not in it the run queue
-- holds the slots that it held, in their order, and the new one last; and `dequeue` then gives the
-- first of these and leaves the rest.
pub dequeue-enqueue :
    (s : Sched) (i : ℕ) (q : List ℕ)
    → IsQueue s q
    → ¬ Elem i q
    → IsQueue (enqueue i s) (q ++ i ∷ [])
      × ((x : ℕ) × (rest : List ℕ) × (q ++ i ∷ [] ≡ x ∷ rest)
          × ((dequeue (enqueue i s)).0 ≡ some x)
          × IsQueue (dequeue (enqueue i s)).1 rest)
dequeue-enqueue s i [] v ne =
    let after = enqueue-IsQueue s i [] v ne in
    let (first, left) = dequeue-IsQueue (enqueue i s) i [] after in
    (after, (i, [], refl, first, left))
dequeue-enqueue s i (y ∷ q) v ne =
    let after = enqueue-IsQueue s i (y ∷ q) v ne in
    let (first, left) = dequeue-IsQueue (enqueue i s) y (q ++ i ∷ []) after in
    (after, (y, q ++ i ∷ [], refl, first, left))
