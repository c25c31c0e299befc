-- ===== src/Learner/States/Slots.antt =====
-- src/rl-state.c: what holds of the slots, and how one is taken, left and used again.
use kxo.Prelude.{
  ℕ, ◌<◌, ◌≡◌, ◌≢◌, ◌↔◌, inl, inr, refl, sym, ap, ◌∙◌, arith, List, [], ◌∷◌, ◌++◌, true, false, put,
  put_self, put_other, remove, Elem, Elem-remove, Elem-append_inv, Elem-append_left,
  Elem-append_right, Distinct, Distinct-remove, Distinct-append_one,
}
use mathlib.Core.Path.{subst}
use native.Mathlib.Decide.{ℕ_discrete}
use kxo.Prelude.Int.{pos}
use kxo.Learner.States.{max_states, XoState, States, drop_state, insert_state, new_state}

pub new_state-table : (table : ℕ) → (new_state table).table ≡ table
unfolding new_state
new_state-table table = refl

pub Elem-touched :
    (st : ℕ) (orders : List ℕ)
    → Elem st orders
    → (x : ℕ) → Elem x (remove st orders ++ st ∷ []) ↔ Elem x orders
Elem-touched st orders used x = (
  λ h. elim (Elem-append_inv x (remove st orders) (st ∷ []) h) [
    | inl there ↦ ((Elem-remove st x orders).0 there).0
    | inr (inl e) ↦ rw e used
    | inr (inr f) ↦ absurd f
  ],
  λ h. elim (ℕ_discrete x st) [
    | yes e ↦ Elem-append_right x (remove st orders) (st ∷ []) (inl e)
    | no ne ↦ Elem-append_left x (remove st orders) (st ∷ []) ((Elem-remove st x orders).1 (h, ne))
  ],
)

module _ (bucket : ℕ → ℕ) where
  -- The slots in use are those in `orders`, each once; each is in the bucket of its board and in no
  -- other, and no two have the same board.
  pub record IsStates (s : States) : Type 0 where
    pub mapped : (st : ℕ) → (s.st_map st ≡ true) ↔ Elem st s.orders
    pub in_range : (st : ℕ) → Elem st s.orders → st < max_states
    pub distinct : Distinct s.orders
    pub in_bucket :
        (k st : ℕ) → Elem st (s.states k) ↔ (Elem st s.orders × (bucket (s.st_buff st).table ≡ k))
    pub unique :
        (st st' : ℕ)
        → Elem st s.orders
        → Elem st' s.orders
        → (s.st_buff st).table ≡ (s.st_buff st').table
        → st ≡ st'

  pub drop_state-IsStates : (st : ℕ) (s : States) → IsStates s → IsStates (drop_state st s)
  unfolding drop_state
  drop_state-IsStates st s v =
      let gone : XoState = record { table = 0; score_o = pos 0; score_x = pos 0 } in
      record {
        mapped = λ x. elim (ℕ_discrete x st) [
          | yes e ↦
              rw (e, put_self s.st_map st false)
                (
                  λ f. absurd (ground (arith, f)),
                  λ h. absurd (((Elem-remove st st s.orders).0 h).1 refl),
                )
          | no ne ↦ rw (put_other s.st_map st x false ne) (
            λ f. (Elem-remove st x s.orders).1 ((v.mapped x).0 f, ne),
            λ h. (v.mapped x).1 ((Elem-remove st x s.orders).0 h).0,
          )
        ];
        in_range = λ x h. v.in_range x ((Elem-remove st x s.orders).0 h).0;
        distinct = Distinct-remove st s.orders v.distinct;
        in_bucket = λ k x. (
          λ h.
              let (there, ne) = (Elem-remove st x (s.states k)).0 h in
              let (used, key) = (v.in_bucket k x).0 there in
              ((Elem-remove st x s.orders).1 (used, ne), rw (put_other s.st_buff st x gone ne) key),
          λ h.
              let (used, ne) = (Elem-remove st x s.orders).0 h.0 in
              (Elem-remove st x (s.states k)).1
                ((v.in_bucket k x).1 (used, rw (put_other s.st_buff st x gone ne) at h.1), ne),
        );
        unique = λ x y hx hy e.
            let (used, ne) = (Elem-remove st x s.orders).0 hx in
            let (used', ne') = (Elem-remove st y s.orders).0 hy in
            v.unique x y used used'
              (rw (put_other s.st_buff st x gone ne, put_other s.st_buff st y gone ne') at e);
      }

  -- A slot goes to the end of `orders`.
  pub touch-IsStates :
      (st : ℕ) (s : States)
      → Elem st s.orders
      → IsStates s
      → IsStates (record s { orders = remove st s.orders ++ st ∷ [] })
  touch-IsStates st s used v =
      let same = Elem-touched st s.orders used in
      record {
        mapped = λ x. (λ f. (same x).1 ((v.mapped x).0 f), λ h. (v.mapped x).1 ((same x).0 h));
        in_range = λ x h. v.in_range x ((same x).0 h);
        distinct =
            Distinct-append_one (remove st s.orders) st (Distinct-remove st s.orders v.distinct)
              (λ h. ((Elem-remove st st s.orders).0 h).1 refl);
        in_bucket = λ k x. (
          λ h. let (used, key) = (v.in_bucket k x).0 h in ((same x).1 used, key),
          λ h. (v.in_bucket k x).1 ((same x).0 h.0, h.1),
        );
        unique = λ x y hx hy e. v.unique x y ((same x).0 hx) ((same y).0 hy) e;
      }

  pub insert_state-IsStates :
      (table st : ℕ) (s : States)
      → st < max_states
      → s.st_map st ≡ false
      → ((x : ℕ) → Elem x s.orders → (s.st_buff x).table ≢ table)
      → IsStates s
      → IsStates (insert_state (bucket table) table st s)
  unfolding insert_state
  insert_state-IsStates table st s lt free fresh v =
      let key = bucket table in
      let here : (put s.st_buff st (new_state table) st).table ≡ table =
        rw (put_self s.st_buff st (new_state table)) (new_state-table table) in
      let kept : (x : ℕ)
          → Elem x s.orders
          → (put s.st_buff st (new_state table) x).table ≡ (s.st_buff x).table =
        λ x h.
          ap (λ (t : XoState). t.table) (put_other s.st_buff st x (new_state table) (other x h)) in
      record {
        mapped = λ x. elim (ℕ_discrete x st) [
          | yes e ↦ rw (e, put_self s.st_map st true) (λ f. inl refl, λ h. refl)
          | no ne ↦ rw (put_other s.st_map st x true ne) (
            λ f. inr ((v.mapped x).0 f),
            λ h. elim h [ inl e ↦ absurd (ne e) | inr used ↦ (v.mapped x).1 used ],
          )
        ];
        in_range = λ x h. elim h [ inl e ↦ rw e lt | inr used ↦ v.in_range x used ];
        distinct = (unused, v.distinct);
        in_bucket = λ k x. elim (ℕ_discrete k key) [
          | yes e ↦
              rw (e, put_self s.states key (st ∷ s.states key))
                (
                  λ h. elim h [
                    | inl f ↦ (
                      inl f,
                      subst (λ y. bucket (put s.st_buff st (new_state table) y).table ≡ key) (sym f)
                          (ap bucket here),
                    )
                    | inr there ↦
                        let (used, at_key) = (v.in_bucket key x).0 there in
                        (inr used, ap bucket (kept x used) ∙ at_key)
                  ],
                  λ h. elim h.0 [
                    | inl f ↦ inl f
                    | inr used ↦
                        inr ((v.in_bucket key x).1 (used, sym (ap bucket (kept x used)) ∙ h.1))
                  ],
                )
          | no ne ↦ rw (put_other s.states key k (st ∷ s.states key) ne) (
            λ h.
                let (used, at_key) = (v.in_bucket k x).0 h in
                (inr used, ap bucket (kept x used) ∙ at_key),
            λ h. elim h.0 [
              | inl f ↦ absurd (
                  ne (
                    sym h.1
                    ∙ subst (λ y. bucket (put s.st_buff st (new_state table) y).table ≡ key) (sym f)
                        (ap bucket here)))
              | inr used ↦ (v.in_bucket k x).1 (used, sym (ap bucket (kept x used)) ∙ h.1)
            ],
          )
        ];
        unique = λ x y hx hy e. elim hx [
          | inl f ↦ elim hy [
            | inl g ↦ f ∙ sym g
            | inr used ↦ absurd (fresh y used (sym (kept y used) ∙ sym e ∙ at_new x f here))
          ]
          | inr used ↦ elim hy [
            | inl g ↦ absurd (fresh x used (sym (kept x used) ∙ e ∙ at_new y g here))
            | inr used' ↦ v.unique x y used used' (sym (kept x used) ∙ e ∙ kept y used')
          ]
        ];
      }
    where
      unused : ¬ Elem st s.orders
      unused h = let used = (v.mapped st).1 h in absurd (ground (arith, used, free))

      other : (x : ℕ) → Elem x s.orders → x ≢ st
      other x h e = unused (subst (λ y. Elem y s.orders) e h)

      at_new :
          (x : ℕ)
          → x ≡ st
          → (put s.st_buff st (new_state table) st).table ≡ table
          → (put s.st_buff st (new_state table) x).table ≡ table
      at_new x e h = subst (λ y. (put s.st_buff st (new_state table) y).table ≡ table) (sym e) h
