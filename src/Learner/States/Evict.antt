-- ===== src/Learner/States/Evict.antt =====
-- src/rl-state.c: room for a new state, which `clean_state` makes when the bitmap is almost full.
use kxo.Prelude.{
  ℕ, zero, suc, ◌+◌, ◌-◌, ◌<◌, ◌≤◌, ◌≡◌, ◌≢◌, inl, inr, refl, sym, ◌∙◌, arith, List, [], ◌∷◌, Bool,
  true, false, put_self, put_other, Elem, Elem-remove, Bool-cases, leb,
}
use mathlib.Core.Path.{subst}
use native.Mathlib.Decide.{ℕ_discrete}
use kxo.Prelude.Int.{pos}
use kxo.Learner.States.{
  max_states, clean_n_states, States, drop_state, clean_states, clean_state, bitmap_weight,
  first_zero, make_room,
}
use kxo.Learner.States.Slots.{IsStates, drop_state-IsStates}

-- A digit of the bitmap that is 0.
abbrev pub IsZero : (ℕ → Bool) → ℕ → Type 0
IsZero st_map p = (p < max_states) × (st_map p ≡ false)

bitmap_weight-zero :
    (n : ℕ) (st_map : ℕ → Bool)
    → bitmap_weight n st_map < n
    → (p : ℕ) × (p < n) × (st_map p ≡ false)
unfolding bitmap_weight
bitmap_weight-zero zero st_map lt = absurd (omega (arith, lt))
bitmap_weight-zero (suc n) st_map lt = elim (Bool-cases (st_map n)) [
  | inr free ↦ (n, omega arith, free)
  | inl used ↦
      let (p, below, free) = bitmap_weight-zero n st_map (ground (arith, lt, used)) in
      (p, omega (arith, below), free)
]

pub first_zero-lt :
    (left i p : ℕ) (st_map : ℕ → Bool)
    → i ≤ p
    → p < i + left
    → st_map p ≡ false
    → (first_zero left i st_map < i + left) × (st_map (first_zero left i st_map) ≡ false)
unfolding first_zero
first_zero-lt zero i p st_map le lt free = absurd (omega (arith, le, lt))
first_zero-lt (suc left) i p st_map le lt free = elim (Bool-cases (st_map i)) [
  | inr here ↦ rw (here, first_zero) (omega arith, here)
  | inl used ↦
      let ne : i ≢ p =
        λ e. (let f = subst (λ q. st_map q ≡ true) e used in absurd (ground (arith, f, free))) in
      let later =
        first_zero-lt left (i + 1) p st_map (omega (arith, le, ne)) (omega (arith, lt)) free in
      rw (used, first_zero) (omega (arith, later.0), later.1)
]

-- What `s'` still knows of `s`.
pub record Survives (s s' : States) : Type 0 where
  pub survivor : (x : ℕ) → Elem x s'.orders → Elem x s.orders × (s'.st_buff x ≡ s.st_buff x)
  pub still_free : (x : ℕ) → s.st_map x ≡ false → s'.st_map x ≡ false

Survives-refl : (s : States) → Survives s s
Survives-refl s = record { survivor = λ x h. (h, refl); still_free = λ x e. e }

drop_state-Survives : (st : ℕ) (s : States) → Survives s (drop_state st s)
unfolding drop_state
drop_state-Survives st s = record {
  survivor = λ x h.
      let (used, ne) = (Elem-remove st x s.orders).0 h in
      (used, put_other s.st_buff st x (record { table = 0; score_o = pos 0; score_x = pos 0 }) ne);
  still_free = λ x e. elim (ℕ_discrete x st) [
    | yes f ↦ rw (f, put_self s.st_map st false) refl
    | no ne ↦ rw (put_other s.st_map st x false ne) e
  ];
}

drop_state-free : (st : ℕ) (s : States) → (drop_state st s).st_map st ≡ false
unfolding drop_state
drop_state-free st s = put_self s.st_map st false

clean_states-Survives :
    (left : ℕ) (sts : List ℕ) (s : States) → Survives s (clean_states left sts s)
unfolding clean_states
clean_states-Survives zero sts s = Survives-refl s
clean_states-Survives (suc left) [] s = Survives-refl s
clean_states-Survives (suc left) (st ∷ sts) s =
    let first = drop_state-Survives st s in
    let rest = clean_states-Survives left sts (drop_state st s) in
    record {
      survivor = λ x h.
          let (used, same) = rest.survivor x h in
          let (used', same') = first.survivor x used in (used', same ∙ same');
      still_free = λ x e. rest.still_free x (first.still_free x e);
    }

clean_states-free :
    (left st : ℕ) (orders sts : List ℕ) (s : States)
    → orders ≡ st ∷ sts
    → (clean_states (suc left) orders s).st_map st ≡ false
unfolding clean_states
clean_states-free left st [] sts s e = absurd (ground (arith, e))
clean_states-free left st (x ∷ xs) sts s e =
    let same : x ≡ st = ground (arith, e) in
    (clean_states-Survives left xs (drop_state x s)).still_free st
      (rw (← same) (drop_state-free x s))

some_rounds : clean_n_states ≡ suc 9829
unfolding clean_n_states
some_rounds = refl

clean_state-free :
    (s : States) (st : ℕ) (sts : List ℕ) → s.orders ≡ st ∷ sts → (clean_state s).st_map st ≡ false
unfolding clean_state
clean_state-free s st sts e =
    subst (λ n. (clean_states n s.orders s).st_map st ≡ false) (sym some_rounds)
      (clean_states-free 9829 st s.orders sts s e)

some_slots : 0 < max_states
unfolding max_states
some_slots = omega arith

module _ (bucket : ℕ → ℕ) where
  clean_states-IsStates :
      (left : ℕ) (sts : List ℕ) (s : States)
      → IsStates bucket s
      → IsStates bucket (clean_states left sts s)
  unfolding clean_states
  clean_states-IsStates zero sts s v = v
  clean_states-IsStates (suc left) [] s v = v
  clean_states-IsStates (suc left) (st ∷ sts) s v =
      clean_states-IsStates left sts (drop_state st s) (drop_state-IsStates bucket st s v)

  -- Whatever is known before, there is room after `make_room`; what is still known is as it was, and
  -- everything is when the bitmap was not almost full.
  pub record Room (s s' : States) : Type 0 where
    pub valid : IsStates bucket s'
    pub survives : Survives s s'
    pub zero_bit : (p : ℕ) × IsZero s'.st_map p
    pub untouched : bitmap_weight max_states s.st_map < max_states - 1 → s' ≡ s

  clean_state-Room :
      (s : States)
      → IsStates bucket s
      → max_states - 1 ≤ bitmap_weight max_states s.st_map
      → Room s (clean_state s)
  unfolding clean_state
  clean_state-Room s v full = record {
    valid = clean_states-IsStates clean_n_states s.orders s v;
    survives = clean_states-Survives clean_n_states s.orders s;
    zero_bit = zero_after s.orders refl;
    untouched = λ h. absurd (omega (arith, full, h));
  }
    where
      zero_after : (orders : List ℕ) → s.orders ≡ orders → (p : ℕ) × IsZero (clean_state s).st_map p
      zero_after [] e =
          let none_used : s.st_map 0 ≢ true = λ f. subst (λ xs. Elem 0 xs) e ((v.mapped 0).0 f) in
          let free : s.st_map 0 ≡ false = ground (arith, none_used) in
          (0, (some_slots, (clean_states-Survives clean_n_states s.orders s).still_free 0 free))
      zero_after (st ∷ sts) e = (
        st,
        (v.in_range st (subst (λ xs. Elem st xs) (sym e) (inl refl)), clean_state-free s st sts e),
      )

  same-Room :
      (s : States)
      → IsStates bucket s
      → bitmap_weight max_states s.st_map < max_states - 1
      → Room s s
  same-Room s v low =
      let (p, lt, free) = bitmap_weight-zero max_states s.st_map (omega (arith, low)) in
      record {
        valid = v;
        survives = Survives-refl s;
        zero_bit = (p, (lt, free));
        untouched = λ h. refl;
      }

  pub make_room-Room : (s : States) → IsStates bucket s → Room s (make_room s)
  unfolding make_room
  make_room-Room s v =
      elim (Bool-cases (leb (max_states - 1) (bitmap_weight max_states s.st_map))) [
        | inr low ↦ rw low (same-Room s v (ground (arith, low)))
        | inl full ↦ rw full (clean_state-Room s v (ground (arith, full)))
      ]
