-- ===== src/Learner/States/Found.antt =====
-- src/rl-state.c: what `find_rl_state` answers, and what is known after it.
use kxo.Prelude.{
  ℕ, ◌-◌, ◌<◌, ◌≡◌, ◌≢◌, ◌⊎◌, inl, inr, refl, sym, ap, ◌∙◌, arith, List, [], ◌∷◌, ◌++◌, false, none,
  some, put, put_self, put_other, remove, Elem, Bool-cases, Option-cases, ◌==◌, ==_iff,
}
use mathlib.Core.Path.{subst}
use mathlib.Core.Option.{some-injective}
use kxo.Learner.States.{
  max_states, XoState, States, search_bucket, bitmap_weight, first_zero, make_room, insert_state,
  new_state, find_rl_state, init_rl_agent,
}
use kxo.Learner.States.Slots.{
  IsStates, Elem-touched, touch-IsStates, insert_state-IsStates, new_state-table,
}
use kxo.Learner.States.Evict.{Room, make_room-Room, first_zero-lt}

search_bucket-found :
    (table : ℕ) (st_buff : ℕ → XoState) (sts : List ℕ) (st : ℕ)
    → search_bucket table st_buff sts ≡ some st
    → Elem st sts × ((st_buff st).table ≡ table)
unfolding search_bucket
search_bucket-found table st_buff [] st e = absurd (ground (arith, e))
search_bucket-found table st_buff (x ∷ xs) st e = elim (Bool-cases ((st_buff x).table == table)) [
  | inl here ↦
      let same : x ≡ st = some-injective _ _ (rw here at e) in
      (inl (sym same), subst (λ y. (st_buff y).table ≡ table) same ((==_iff _ _).0 here))
  | inr other ↦
      let (there, is) = search_bucket-found table st_buff xs st (rw other at e) in (inr there, is)
]

search_bucket-none :
    (table : ℕ) (st_buff : ℕ → XoState) (sts : List ℕ) (st : ℕ)
    → search_bucket table st_buff sts ≡ none
    → Elem st sts
    → (st_buff st).table ≢ table
unfolding search_bucket
search_bucket-none table st_buff [] st e h = elim h [ ]
search_bucket-none table st_buff (x ∷ xs) st e h = elim (Bool-cases ((st_buff x).table == table)) [
  | inl here ↦ let e' = (rw here at e) in absurd (ground (arith, e'))
  | inr other ↦ elim h [
    | inl f ↦
        rw f
          (λ g. let g' = (==_iff (st_buff x).table table).1 g in absurd (ground (arith, other, g')))
    | inr there ↦ search_bucket-none table st_buff xs st (rw other at e) there
  ]
]

-- The state `known` of a board is known in `s`.
abbrev pub Knows : States → XoState → Type 0
Knows s known = (st : ℕ) × Elem st s.orders × (s.st_buff st ≡ known)

module _ (bucket : ℕ → ℕ) where
  -- What `find_rl_state` of the board `table` leaves, with the slot that it answers.
  pub record Found (table : ℕ) (s : States) (st : ℕ) (s' : States) : Type 0 where
    pub valid : IsStates bucket s'
    pub in_pool : st < max_states
    pub used : Elem st s'.orders
    pub is_board : (s'.st_buff st).table ≡ table
    pub known_before :
        (known : XoState)
        → Knows s known
        → known.table ≡ table
        → (s'.st_buff st ≡ known) × ((k : XoState) → Knows s k → Knows s' k)
    pub made :
        ((known : XoState) → Knows s known → known.table ≢ table) → s'.st_buff st ≡ new_state table
    pub nothing_else : (k : XoState) → Knows s' k → (k.table ≡ table) ⊎ Knows s k
    pub nothing_lost :
        bitmap_weight max_states s.st_map < max_states - 1 → (k : XoState) → Knows s k → Knows s' k

  module _ (table : ℕ) (s : States) (v : IsStates bucket s) where
    hit-Found :
        (st : ℕ)
        → search_bucket table s.st_buff (s.states (bucket table)) ≡ some st
        → Found table s st (record s { orders = remove st s.orders ++ st ∷ [] })
    hit-Found st e =
        let (there, is) = search_bucket-found table s.st_buff (s.states (bucket table)) st e in
        let used = ((v.in_bucket (bucket table) st).0 there).0 in
        let same = Elem-touched st s.orders used in
        let still : (k : XoState)
            → Knows s k
            → Knows (record s { orders = remove st s.orders ++ st ∷ [] }) k =
          λ k (x, h, f). (x, (same x).1 h, f) in
        record {
          valid = touch-IsStates bucket st s used v;
          in_pool = v.in_range st used;
          used = (same st).1 used;
          is_board = is;
          known_before = λ known (x, h, f) g.
              let one : st ≡ x =
                v.unique st x used h (is ∙ sym g ∙ sym (ap (λ (k : XoState). k.table) f)) in
              (ap s.st_buff one ∙ f, still);
          made = λ unknown. absurd (unknown (s.st_buff st) (st, used, refl) is);
          nothing_else = λ k (x, h, f). inr (x, (same x).0 h, f);
          nothing_lost = λ low. still;
        }

    unknown :
        search_bucket table s.st_buff (s.states (bucket table)) ≡ none
        → (known : XoState) → Knows s known
        → known.table ≢ table
    unknown e known (x, used, f) g =
        let is : (s.st_buff x).table ≡ table = ap (λ (k : XoState). k.table) f ∙ g in
        search_bucket-none table s.st_buff (s.states (bucket table)) x e
          ((v.in_bucket (bucket table) x).1 (used, ap bucket is)) is

    insert-Found :
        (s' : States) (st : ℕ)
        → Room bucket s s'
        → st < max_states
        → s'.st_map st ≡ false
        → ((known : XoState) → Knows s known → known.table ≢ table)
        → Found table s st (insert_state (bucket table) table st s')
    unfolding insert_state
    insert-Found s' st room lt free new =
        let here : put s'.st_buff st (new_state table) st ≡ new_state table =
          put_self s'.st_buff st (new_state table) in
        record {
          valid =
              insert_state-IsStates bucket table st s' lt free
                (λ x h e. new (s'.st_buff x) (before x h) e) room.valid;
          in_pool = lt;
          used = inl refl;
          is_board = ap (λ (k : XoState). k.table) here ∙ new_state-table table;
          known_before = λ known knows g. absurd (new known knows g);
          made = λ _. here;
          nothing_else = λ k (x, h, f). elim h [
            | inl g ↦ inl (
                ap (λ (j : XoState). j.table)
                  (sym f ∙ ap (put s'.st_buff st (new_state table)) g ∙ here)
                ∙ new_state-table table)
            | inr used ↦
                let (there, same) = room.survives.survivor x used in
                inr (
                  x,
                  there,
                  sym same ∙ sym (put_other s'.st_buff st x (new_state table) (other x used)) ∙ f,
                )
          ];
          nothing_lost = λ low k knows.
              let (x, used, f) = subst (λ z. Knows z k) (sym (room.untouched low)) knows in
              (x, inr used, put_other s'.st_buff st x (new_state table) (other x used) ∙ f);
        }
      where
        before : (x : ℕ) → Elem x s'.orders → Knows s (s'.st_buff x)
        before x h = let (there, same) = room.survives.survivor x h in (x, there, sym same)

        other : (x : ℕ) → Elem x s'.orders → x ≢ st
        other x h e =
            let used = (room.valid.mapped st).1 (subst (λ y. Elem y s'.orders) e h) in
            absurd (ground (arith, used, free))

    miss-Found :
        search_bucket table s.st_buff (s.states (bucket table)) ≡ none
        → let s' = make_room s in
          let st = first_zero max_states 0 s'.st_map in
          Found table s st (insert_state (bucket table) table st s')
    miss-Found e =
        let room = make_room-Room bucket s v in
        let (p, (lt, free)) = room.zero_bit in
        let (st_lt, st_free) =
          first_zero-lt max_states 0 p (make_room s).st_map (omega arith) (omega (arith, lt))
            free in
        insert-Found (make_room s) (first_zero max_states 0 (make_room s).st_map) room
          (omega (arith, st_lt)) st_free (unknown e)

  -- `find_rl_state`, with the slots in use listed once in `orders` and each board in its bucket,
  -- keeps this, and answers a slot of the pool with the board it was asked for. A board that was
  -- known has its state there, and every other state stays known; an unknown board has the state
  -- that the heuristic score gives. No state of another board appears, and none is lost unless the
  -- bitmap was almost full.
  pub find_rl_state-Found :
      (table : ℕ) (s : States)
      → IsStates bucket s
      → let (st, s') = find_rl_state bucket table s in Found table s st s'
  unfolding find_rl_state
  find_rl_state-Found table s v =
      elim (Option-cases (search_bucket table s.st_buff (s.states (bucket table)))) [
        | inr (st, e) ↦ rw (find_rl_state, e) (hit-Found table s v st e)
        | inl e ↦ rw (find_rl_state, e) (miss-Found table s v e)
      ]

  pub init_rl_agent-IsStates : IsStates bucket init_rl_agent
  unfolding init_rl_agent
  init_rl_agent-IsStates = record {
    mapped = λ st. (λ e. absurd (ground (arith, e)), λ h. elim h [ ]);
    in_range = λ st h. elim h [ ];
    distinct = tt;
    in_bucket = λ k st. (λ h. elim h [ ], λ h. elim h.0 [ ]);
    unique = λ st st' h h' e. elim h [ ];
  }
