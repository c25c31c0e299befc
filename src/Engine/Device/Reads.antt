-- ===== src/Engine/Device/Reads.antt =====
-- src/main.c: what `kxo_read` returns.
use kxo.Prelude.{
  ℕ, ◌<◌, ◌≡◌, refl, arith, List, [], ◌∷◌, ◌++◌, Bool, true, false, some, ap, ◌==◌, Bool-cases, inl,
  inr,
}
use kxo.Engine.Device.{Attempt, ok, read_loop, kxo_read}

-- A round that found nothing, and after which the reader sleeps on.
pub record Idle (a : Attempt) : Type 0 where
  pub no_fault : a.fault ≡ false
  pub no_data : a.read ≡ 0
  pub no_signal : a.signal ≡ false

abbrev pub AllIdle : List Attempt → Type 0
AllIdle [] = Unit {0}
AllIdle (a ∷ rest) = Idle a × AllIdle rest

-- The round that ends a read that returns `n`.
pub record Served (nonblock : Bool) (rounds : List Attempt) (n : ℕ) : Type 0 where
  pub before : List Attempt
  pub last : Attempt
  pub after : List Attempt
  pub rounds_are : rounds ≡ before ++ last ∷ after
  pub slept : AllIdle before
  pub no_fault : last.fault ≡ false
  pub data_is : last.read ≡ n
  pub some_data : 0 < n
  pub at_once : nonblock ≡ true → before ≡ []

-- A round that sleeps joins the ones before the last.
slept_on :
    (nonblock : Bool) (a : Attempt) (rest : List Attempt) (n : ℕ)
    → nonblock ≡ false
    → Idle a
    → Served nonblock rest n
    → Served nonblock (a ∷ rest) n
slept_on nonblock a rest n b idle s = record {
  before = a ∷ s.before;
  last = s.last;
  after = s.after;
  rounds_are = ap (λ xs. a ∷ xs) s.rounds_are;
  slept = (idle, s.slept);
  no_fault = s.no_fault;
  data_is = s.data_is;
  some_data = s.some_data;
  at_once = λ e. absurd (ground (arith, b, e));
}

served :
    (nonblock : Bool) (rounds : List Attempt) (n : ℕ)
    → read_loop nonblock rounds ≡ some (ok n)
    → Served nonblock rounds n
unfolding read_loop
served nonblock [] n e = cc
served nonblock (a ∷ rest) n e = elim (Bool-cases a.fault) [
  | inl f ↦ absurd (ground (arith, rw f at e))
  | inr f ↦ elim (Bool-cases (a.read == 0)) [
    | inr r ↦ record {
      before = [];
      last = a;
      after = rest;
      rounds_are = refl;
      slept = tt;
      no_fault = f;
      data_is = ground (arith, rw (f, r) at e);
      some_data = ground (arith, r, rw (f, r) at e);
      at_once = λ _. refl;
    }
    | inl r ↦ elim (Bool-cases nonblock) [
      | inl b ↦ absurd (ground (arith, rw (f, r, b) at e))
      | inr b ↦ elim (Bool-cases a.signal) [
        | inl g ↦ absurd (ground (arith, rw (f, r, b, g) at e))
        | inr g ↦
            let idle : Idle a = record {
              no_fault = f;
              no_data = ground (arith, r);
              no_signal = g;
            } in
            slept_on nonblock a rest n b idle (served nonblock rest n (rw (f, r, b, g) at e))
      ]
    ]
  ]
]

-- A read that returns a number of bytes returns more than 0, which the last round copied without a
-- fault; every round before it found nothing and was not interrupted, and a reader that does not
-- block had no round before it.
pub kxo_read-Served :
    (access_ok lock_signal nonblock : Bool) (rounds : List Attempt) (n : ℕ)
    → kxo_read access_ok lock_signal nonblock rounds ≡ some (ok n)
    → Served nonblock rounds n
unfolding kxo_read
kxo_read-Served false lock_signal nonblock rounds n e = absurd (ground (arith, e))
kxo_read-Served true true nonblock rounds n e = absurd (ground (arith, e))
kxo_read-Served true false nonblock rounds n e = served nonblock rounds n e
