-- ===== src/Learner/States.antt =====
-- src/rl-state.c: the states that the learning agent knows, in a pool of slots with a hash table, a
-- bitmap of the slots in use and the list `orders`. The pool is a function on the indices of its
-- slots. The bucket of a board, which `hash_32` and linux/hashtable.h choose, is a parameter.
pub mod Slots
pub mod Evict
pub mod Found
pub mod Agent
use kxo.Prelude.{
  ℕ, zero, suc, ◌+◌, ◌-◌, ◌*◌, ◌/◌, ◌^◌, List, [], ◌∷◌, ◌++◌, Bool, true, false, Option, none, some,
}
use kxo.Prelude.{◌==◌, if◌then◌else◌, leb, put, remove}
use kxo.Prelude.Int.{ℤ, pos}
use kxo.Board.{cell_o, cell_x}
use kxo.Score.{get_score}
use kxo.Engine.Fixed.{fixed_mul_s32}
use kxo.Learner.{Store}

unfoldable pub max_states : ℕ
max_states = 2 ^ 14

unfoldable pub clean_n_states : ℕ
clean_n_states = 2 ^ 14 * 3 / 5

abbrev pub initial_multiplier : ℤ
initial_multiplier = pos 0x6

-- `struct xo_state` without its links.
pub record XoState : Type 0 where
  pub table : ℕ
  pub score_o : ℤ
  pub score_x : ℤ

-- The variables of rl-state.c: `states` gives the slots of a bucket.
pub record States : Type 0 where
  pub st_buff : ℕ → XoState
  pub states : ℕ → List ℕ
  pub orders : List ℕ
  pub st_map : ℕ → Bool

-- The body of the loop of `clean_state`.
unfoldable pub drop_state : ℕ → States → States
drop_state st s = record {
  st_buff = put s.st_buff st (record { table = 0; score_o = pos 0; score_x = pos 0 });
  states = λ k. remove st (s.states k);
  orders = remove st s.orders;
  st_map = put s.st_map st false;
}

-- The loop over `orders`, with `left` rounds to come before the `break`.
unfoldable pub clean_states : ℕ → List ℕ → States → States
unfolding drop_state
clean_states zero sts s = s
clean_states (suc left) [] s = s
clean_states (suc left) (st ∷ sts) s = clean_states left sts (drop_state st s)

unfoldable pub clean_state : States → States
unfolding clean_states
clean_state s = clean_states clean_n_states s.orders s

-- `hash_for_each_possible` over the slots of a bucket.
unfoldable pub search_bucket : ℕ → (ℕ → XoState) → List ℕ → Option ℕ
search_bucket table st_buff [] = none
search_bucket table st_buff (st ∷ sts) =
    let later = search_bucket table st_buff sts in
    if (st_buff st).table == table then some st else later

-- `bitmap_weight` of the first `n` digits.
unfoldable pub bitmap_weight : ℕ → (ℕ → Bool) → ℕ
bitmap_weight zero st_map = 0
bitmap_weight (suc n) st_map = bitmap_weight n st_map + (if st_map n then 1 else 0)

-- `find_first_zero_bit` from `i` on, with `left` digits to come; the size when there is none.
unfoldable pub first_zero : ℕ → ℕ → (ℕ → Bool) → ℕ
first_zero zero i st_map = i
first_zero (suc left) i st_map =
    let later = first_zero left (i + 1) st_map in if st_map i then later else i

-- The state of a board that is not known yet.
unfoldable pub new_state : ℕ → XoState
unfolding get_score fixed_mul_s32
new_state table = record {
  table = table;
  score_o = fixed_mul_s32 initial_multiplier (get_score table cell_o);
  score_x = fixed_mul_s32 initial_multiplier (get_score table cell_x);
}

-- A slot that is not in use gets the state of a board, in the bucket `key`.
unfoldable pub insert_state : ℕ → ℕ → ℕ → States → States
insert_state key table st s = record {
  st_buff = put s.st_buff st (new_state table);
  states = put s.states key (st ∷ s.states key);
  orders = st ∷ s.orders;
  st_map = put s.st_map st true;
}

unfoldable pub make_room : States → States
unfolding clean_state bitmap_weight
make_room s = if leb (max_states - 1) (bitmap_weight max_states s.st_map) then clean_state s else s

-- `scores[id]`.
abbrev pub score_at : ℕ → XoState → ℤ
score_at id st = if id == 0 then st.score_o else st.score_x

abbrev pub with_score : ℕ → ℤ → XoState → XoState
with_score id score st =
    if id == 0 then record st { score_o = score } else record st { score_x = score }

module _ (bucket : ℕ → ℕ) where
  -- `find_rl_state`, with the index of the slot that it answers.
  unfoldable pub find_rl_state : ℕ → States → ℕ × States
  unfolding search_bucket make_room insert_state first_zero
  find_rl_state table s = elim (search_bucket table s.st_buff (s.states (bucket table))) [
    | some st ↦ (st, record s { orders = remove st s.orders ++ st ∷ [] })
    | none ↦
        let s' = make_room s in
        let st = first_zero max_states 0 s'.st_map in (st, insert_state (bucket table) table st s')
  ]

  -- What src/rl.c does with the answer: it reads a score, and may then assign to it.
  unfoldable pub find_score : ℕ → ℕ → States → ℤ × States
  unfolding find_rl_state
  find_score table id s = let (st, s') = find_rl_state table s in (score_at id (s'.st_buff st), s')

  unfoldable pub set_score : ℕ → ℕ → ℤ → States → States
  unfolding search_bucket
  set_score table id score s = elim (search_bucket table s.st_buff (s.states (bucket table))) [
    | some st ↦ record s { st_buff = put s.st_buff st (with_score id score (s.st_buff st)) }
    | none ↦ s
  ]

  abbrev pub rl_store : Store States
  rl_store = record { find_rl_state = find_score; set_score = set_score }

unfoldable pub init_rl_agent : States
init_rl_agent = record {
  st_buff = λ i. record { table = 0; score_o = pos 0; score_x = pos 0 };
  states = λ k. [];
  orders = [];
  st_map = λ i. false;
}
