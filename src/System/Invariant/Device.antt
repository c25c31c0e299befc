-- ===== src/System/Invariant/Device.antt =====
-- src/main.c: the handlers that change no game, the calls from user space, and the last release.
use kxo.Prelude.{
  ℕ, ◌+◌, ◌≡◌, refl, arith, List, [], ◌∷◌, ◌++◌, some, Option, get_elem?, map, if_both, Bool, true,
  false, ◌==◌, Option-cases, Bool-cases, ◌-◌, inl, inr, suc, zero,
}
use kxo.Engine.{Kxo, AiGame, AiGameState, game_busy, game_ready, game_done, Work, drawboard_work}
use kxo.Engine.Move.Keeps.{set_state-IsGame}
use kxo.Engine.Handlers.{drawboard_work_func, draw_state}
use kxo.Engine.Device.{
  kxo_state_store, kxo_open, kxo_release_begin, kxo_release_end, wake_game, wake_state,
}
use kxo.Engine.LoadAvg.{LoadMath, loadavg_handler}
use kxo.System.{Worker}
use kxo.System.Invariant.Counts.{total-split, n_finish}
use kxo.System.Invariant.Owned.{Owned, AllOwned}
use kxo.System.Invariant.Update.{same-AllOwned, take-SameFor}
use kxo.System.Invariant.Timers.{Keeps}

-- What is found in a mapped list is the image of what was found.
map-found :
    (f : AiGame → AiGame) (xs : List AiGame) (i : ℕ) (y : AiGame)
    → get_elem? (map f xs) i ≡ some y
    → (x : AiGame) × (get_elem? xs i ≡ some x) × (f x ≡ y)
map-found f [] i y h = cc
map-found f (x ∷ xs) zero y h = (x, refl, cc)
map-found f (x ∷ xs) (suc i) y h = map-found f xs i y h

module _ {Rl : Type 0} (r : List Worker) (k : Kxo Rl) (h : Keeps r k) where
  pub same-Keeps :
      (k' : Kxo Rl)
      → k'.games ≡ k.games
      → k'.queued ≡ k.queued
      → k'.finish_works ≡ k.finish_works
      → Keeps r k'
  same-Keeps k' a b c = record { owned = rw (a, b) h.owned; finish_is = rw (b, c) h.finish_is }

  pub kxo_open-Keeps : Keeps r (kxo_open k)
  unfolding kxo_open
  kxo_open-Keeps =
      if_both (Keeps r) _ _ _
        (same-Keeps
          (record k { open_cnt = k.open_cnt + 1; timer_on = true; loadavg_timer_on = true }) refl
          refl refl)
        (same-Keeps (record k { open_cnt = k.open_cnt + 1 }) refl refl refl)

  pub kxo_release_begin-Keeps : Keeps r (kxo_release_begin k).0
  unfolding kxo_release_begin
  kxo_release_begin-Keeps = elim (Bool-cases ((k.open_cnt - 1) == 0)) [
    | inl e ↦ rw e (record { owned = h.owned; finish_is = h.finish_is })
    | inr e ↦ rw e (record { owned = h.owned; finish_is = h.finish_is })
  ]

  pub kxo_state_store-Keeps :
      (sscanf : List ℕ → Option (ℕ × ℕ × ℕ)) (buf : List ℕ) (count : ℕ)
      → Keeps r (kxo_state_store sscanf buf count k).0
  unfolding kxo_state_store
  kxo_state_store-Keeps sscanf buf count = elim (Option-cases (sscanf buf)) [
    | inl e ↦ rw (kxo_state_store, e) h
    | inr (c, e) ↦ rw (kxo_state_store, e) (record { owned = h.owned; finish_is = h.finish_is })
  ]

  pub loadavg_handler-Keeps :
      (m : LoadMath) (tv_end now : ℕ) → Keeps r (loadavg_handler m tv_end now k).0
  unfolding loadavg_handler
  loadavg_handler-Keeps m tv_end now = elim (Bool-cases (tv_end == 0)) [
    | inl e ↦ rw e (record { owned = h.owned; finish_is = h.finish_is })
    | inr e ↦ rw e (record { owned = h.owned; finish_is = h.finish_is })
  ]

  draw_state-Keeps : (st : AiGameState) (g : AiGame) → Keeps r (draw_state st g k)
  unfolding draw_state
  draw_state-Keeps game_busy g = h
  draw_state-Keeps game_ready g = record { owned = h.owned; finish_is = h.finish_is }
  draw_state-Keeps game_done g = record { owned = h.owned; finish_is = h.finish_is }

  pub drawboard_work_func-Keeps : (g : AiGame) → Keeps r (drawboard_work_func g k)
  unfolding drawboard_work_func
  drawboard_work_func-Keeps g = if_both (Keeps r) _ _ _ h (draw_state-Keeps g.state g)

-- The work that draws a board leaves the queue.
pub draw-Keeps :
    {Rl : Type 0} (r : List Worker) (k : Kxo Rl) (i : ℕ) (before after : List Work)
    → k.queued ≡ before ++ drawboard_work i ∷ after
    → Keeps r k
    → Keeps r (record k { queued = before ++ after })
draw-Keeps r k i before after e h = record {
  owned =
      same-AllOwned k.games (before ++ drawboard_work i ∷ after) (before ++ after) r r
        (rw e at h.owned) (λ j. take-SameFor j before after (drawboard_work i) r refl refl refl);
  finish_is = λ j fw found pos_h.
      h.finish_is j fw found
        (rw e (omega (arith, total-split (n_finish j) before (drawboard_work i) after)));
}

-- A game of an empty system is not busy, and wakes up ready.
wake_state-Owned :
    (st : AiGameState) (i : ℕ) (g : AiGame)
    → g.state ≡ st
    → Owned i g [] []
    → Owned i (record g { state = wake_state st }) [] []
unfolding wake_state
wake_state-Owned game_busy i g e o = absurd (omega (arith, (rw e at o.phase).0))
wake_state-Owned game_ready i g e o = record {
  game = set_state-IsGame i g game_ready o.game;
  phase = (refl, refl);
  turn_one = o.turn_one;
  turn_two = o.turn_two;
  runs = tt;
}
wake_state-Owned game_done i g e o = record {
  game = set_state-IsGame i g game_ready o.game;
  phase = (refl, refl);
  turn_one = o.turn_one;
  turn_two = o.turn_two;
  runs = tt;
}

wake-Owned : (games : List AiGame) → AllOwned games [] [] → AllOwned (map wake_game games) [] []
unfolding wake_game
wake-Owned games all i g found =
    let (x, at_i, is) = map-found wake_game games i g found in
    rw (← is) (wake_state-Owned x.state i x refl (all i x at_i))

pub kxo_release_end-Keeps :
    {Rl : Type 0} (last : Bool) (r : List Worker) (k : Kxo Rl)
    → (last ≡ true → (k.queued ≡ []) × (r ≡ []))
    → Keeps r k
    → Keeps r (kxo_release_end last k)
unfolding kxo_release_end
kxo_release_end-Keeps false r k idle h = record { owned = h.owned; finish_is = h.finish_is }
kxo_release_end-Keeps true r k idle h =
    let (q_empty, r_empty) = idle refl in
    record {
      owned = rw (q_empty, r_empty) (wake-Owned k.games (rw (q_empty, r_empty) at h.owned));
      finish_is = h.finish_is;
    }
