-- ===== src/User/Shown.antt =====
-- user/xo-user.c: the boards that stand on the screen while the program runs.
use kxo.Terminal.Tabs.Rows.Drawing.{tui_update_tab-InRows, stop_message-InRows, print_now-InRows}
use kxo.Terminal.Grid.Cells.{other-look, update_table-look}
use kxo.Terminal.Screen.Effects.{show_stroke-rows, show-look}
use kxo.Prelude.{
  ℕ, ◌<◌, ◌≤◌, ◌≡◌, ◌⊎◌, inl, inr, refl, sym, ap, ◌∙◌, arith, List, [], ◌∷◌, ◌++◌, ◌==◌,
  if◌then◌else◌, not, ◌&&◌, Bool, true, false, Option, none, some, Bool-cases, ==_iff, if_both,
  if_yes, if_no,
}
use mathlib.Core.Path.{subst}
use kxo.Board.{XoTable, n_games, xo_attr_id, xo_attr_steps}
use kxo.Terminal.Strokes.{Glyph, Stroke}
use kxo.Terminal.Boards.{pos_x, pos_y, update_table}
use kxo.Terminal.Screen.{Terminal, IsTerminal, InRows, All, show, show-append}
use kxo.Terminal.Grid.{mark}
use kxo.Terminal.Tabs.{stop_message, print_now}
use kxo.User.{
  User, Round, key_pressed, listen_keyboard_handler, reads, serve, task_print_now, task_io,
  task_tab, main_round, main_loop,
}

-- A table of one of the games, with no more steps than cells.
abbrev pub IsTable : XoTable → Type 0
IsTable tlb = (xo_attr_id tlb.attr < n_games) × (xo_attr_steps tlb.attr < 17)

-- What a clock and the device give.
abbrev pub IsRound : Round → Type 0
IsRound r = (r.hour < 100) × (r.min < 100) × (r.sec < 100) × IsTable r.table

abbrev pub AllRounds : List Round → Type 0
AllRounds [] = Unit {0}
AllRounds (r ∷ rs) = IsRound r × AllRounds rs

-- The tables that the rounds read, in their order.
unfoldable pub boards_read : List Round → User → List XoTable
boards_read [] u = []
boards_read (r ∷ rs) u =
    let rest = boards_read rs (main_round r u).1 in
    if u.end_attr then [] else (if reads r u then r.table ∷ rest else rest)

-- What the cell `i` of the game `id` shows when these tables are drawn where `g` stood.
unfoldable pub last_mark : ℕ → ℕ → List XoTable → Glyph → Glyph
last_mark id i [] g = g
last_mark id i (tlb ∷ tlbs) g =
    last_mark id i tlbs (if xo_attr_id tlb.attr == id then mark tlb.table i else g)

key_pressed-tlb :
    (input : ℕ) (buf : List ℕ) (u : User) → (key_pressed input buf u).0.tobj.tlb ≡ u.tobj.tlb
unfolding key_pressed
key_pressed-tlb input buf u =
    let P : User × Option (List ℕ) → Type 0 = λ p. p.0.tobj.tlb ≡ u.tobj.tlb in
    if_both P (input == 16) _ _ refl (
      if_both P (input == 17) _ _ refl
        (if_both P (input == 113) _ _ refl (if_both P (input == 119) _ _ refl refl)))

handler-tlb :
    (opened : Bool) (key : Option ℕ) (buf : List ℕ) (u : User)
    → (listen_keyboard_handler opened key buf u).0.tobj.tlb ≡ u.tobj.tlb
unfolding listen_keyboard_handler
handler-tlb opened none buf u = refl
handler-tlb true (some input) buf u = key_pressed-tlb input buf u
handler-tlb false (some input) buf u = refl

serve-IsTable :
    (r : Round) (u : User) → IsTable r.table → IsTable u.tobj.tlb → IsTable (serve r u).1.tobj.tlb
unfolding serve
serve-IsTable r u new old =
    let P : List Stroke × User → Type 0 = λ p. IsTable p.1.tobj.tlb in
    if_both P r.stdin_ready _ _ (subst IsTable (sym (handler-tlb r.attr_opened r.key r.attr u)) old)
      (if_both P (u.read_attr && r.device_ready) _ _ new old)

task_tab-tobj : (r : Round) (u : User) → (task_tab r u).1.tobj ≡ u.tobj
unfolding task_tab
task_tab-tobj r u =
    if_both (λ (p : List Stroke × User). p.1.tobj ≡ u.tobj) u.read_attr _ _ refl refl

task_tab-InRows : (r : Round) (u : User) → IsTable u.tobj.tlb → All (InRows 49 64) (task_tab r u).0
unfolding task_tab
task_tab-InRows r u (h, hs) =
    if_both (λ (p : List Stroke × User). All (InRows 49 64) p.0) u.read_attr _ _
      (tui_update_tab-InRows u.tobj.tab u.tobj.tlb r.reading u.tabs h hs) tt

module _ {S : Type 0} (t : Terminal S) (is : IsTerminal t) where
  abbrev Looks : ℕ → ℕ → S → Glyph
  Looks id i s = t.look s (pos_x id i) (pos_y id i)

  -- Strokes above or below the boards leave their cells alone.
  rows-look :
      (y0 y1 id i : ℕ) (sts : List Stroke) (s : S)
      → 0 < y0
      → y1 < 65
      → id < 9
      → i < 16
      → (y1 < 15) ⊎ (44 < y0)
      → All (InRows y0 y1) sts
      → Looks id i (show t sts s) ≡ Looks id i s
  rows-look y0 y1 id i sts s h0 h1 h hi apart all =
      show-look t is (InRows y0 y1) (pos_x id i) (pos_y id i)
        (λ st s' ok.
          show_stroke-rows t is y0 y1 st s' (pos_x id i) (pos_y id i) h0 (omega (arith, h1)) ok
            (away apart))
        sts s all
    where
      away : (y1 < 15) ⊎ (44 < y0) → (pos_y id i < y0) ⊎ (y1 ≤ pos_y id i)
      away (inl above) = inr (omega (arith, above))
      away (inr below) = inl (omega (arith, below, h, hi))

  abbrev drawn : ℕ → ℕ → XoTable → Glyph → Glyph
  drawn id i tlb g = if xo_attr_id tlb.attr == id then mark tlb.table i else g

  board-look :
      (id i : ℕ) (tlb : XoTable) (s : S)
      → id < 9
      → i < 16
      → IsTable tlb
      → Looks id i (show t (update_table tlb) s) ≡ drawn id i tlb (Looks id i s)
  board-look id i tlb s h hi (ht, hs) = elim (Bool-cases (xo_attr_id tlb.attr == id)) [
    | inl e ↦
        let same = (==_iff _ _).0 e in
        rw e (
          subst (λ k. Looks k i (show t (update_table tlb) s) ≡ mark tlb.table i) same
            (update_table-look t is tlb i s ht hi))
    | inr ne ↦
        rw ne (other-look t is tlb id i s ht h hi (λ same. absurd (ground (arith, ne, same))))
  ]

  serve-look :
      (id i : ℕ) (r : Round) (u : User) (s : S)
      → id < 9
      → i < 16
      → IsTable r.table
      → Looks id i (show t (serve r u).0 s)
        ≡ (if reads r u then drawn id i r.table (Looks id i s) else Looks id i s)
  unfolding serve show
  serve-look id i r u s h hi ok = elim (Bool-cases r.stdin_ready) [
    | inl key ↦ rw key refl
    | inr no_key ↦ elim (Bool-cases (u.read_attr && r.device_ready)) [
      | inl both ↦ rw (no_key, both) (board-look id i r.table s h hi ok)
      | inr neither ↦ rw (no_key, neither) refl
    ]
  ]

  round-look :
      (id i : ℕ) (r : Round) (u : User) (s : S)
      → id < 9
      → i < 16
      → IsRound r
      → IsTable u.tobj.tlb
      → Looks id i (show t (main_round r u).0 s)
        ≡ (if reads r u then drawn id i r.table (Looks id i s) else Looks id i s)
  unfolding main_round task_io task_print_now
  round-look id i r u s h hi (hh, hm, hsec, ok) old =
      let at : S → Glyph = Looks id i in
      let clock = print_now r.hour r.min r.sec in
      let (sts, u') = serve r u in
      let message = stop_message (not u'.read_attr) in
      let tab = (task_tab r u').0 in
      let s1 = show t clock s in
      let s2 = show t sts s1 in
      let before : at s1 ≡ at s =
        rows-look 48 49 id i clock s (omega arith) (omega arith) h hi (inr (omega arith))
          (print_now-InRows r.hour r.min r.sec hh hm hsec) in
      ap at (show-append t clock ((sts ++ message) ++ tab) s)
      ∙ ap at (show-append t (sts ++ message) tab s1)
      ∙ rows-look 49 64 id i tab (show t (sts ++ message) s1) (omega arith) (omega arith) h hi
          (inr (omega arith)) (task_tab-InRows r u' (serve-IsTable r u ok old))
      ∙ ap at (show-append t sts message s1)
      ∙ rows-look 8 11 id i message s2 (omega arith) (omega arith) h hi (inl (omega arith))
          (stop_message-InRows (not u'.read_attr))
      ∙ serve-look id i r u s1 h hi ok
      ∙ ap (λ g. if reads r u then drawn id i r.table g else g) before

  round-IsTable :
      (r : Round) (u : User) → IsRound r → IsTable u.tobj.tlb → IsTable (main_round r u).1.tobj.tlb
  unfolding main_round task_io
  round-IsTable r u (hh, hm, hsec, ok) old =
      subst (λ o. IsTable o.tlb) (sym (task_tab-tobj r (serve r u).1)) (serve-IsTable r u ok old)

  -- Whatever the keys and the order in which tables and keys come: after what the rounds of the loop
  -- draw, the cells of each game show the marks of the last table of that game that was read, or
  -- what they showed before if none was; the clock, the tabs, the message of a stopped display and
  -- the boards of other games never write over them. The tables, the unset one at the start
  -- included, are of one of the games and have at most 16 steps, the numbers of the clock are below
  -- 100, and the terminal has room for all that is drawn. Of the key of the end, the text that it
  -- prints past the drawing is not counted.
  pub main_loop-look :
      (id i : ℕ) (rs : List Round) (u : User) (s : S)
      → id < 9
      → i < 16
      → AllRounds rs
      → IsTable u.tobj.tlb
      → t.look (show t (main_loop rs u).0 s) (pos_x id i) (pos_y id i)
        ≡ last_mark id i (boards_read rs u) (t.look s (pos_x id i) (pos_y id i))
  unfolding main_loop boards_read last_mark show
  main_loop-look id i [] u s h hi oks old = refl
  main_loop-look id i (r ∷ rs) u s h hi (ok, oks) old =
      let s' = show t (main_round r u).0 s in
      let u' = (main_round r u).1 in
      let rest = main_loop rs u' in
      let strokes = (main_round r u).0 ++ rest.0 in
      let reading = boards_read rs u' in
      let read = if reads r u then r.table ∷ reading else reading in
      let final : List Stroke × User → Glyph = λ p. Looks id i (show t p.0 s) in
      let marks : List XoTable → Glyph = λ tlbs. last_mark id i tlbs (Looks id i s) in
      elim (Bool-cases u.end_attr) [
        | inl ended ↦
            ap final (if_yes u.end_attr ([], u) (strokes, rest.1) ended)
            ∙ sym (ap marks (if_yes u.end_attr [] read ended))
        | inr running ↦
            ap final (if_no u.end_attr ([], u) (strokes, rest.1) running)
            ∙ ap (Looks id i) (show-append t (main_round r u).0 rest.0 s)
            ∙ main_loop-look id i rs u' s' h hi oks (round-IsTable r u ok old)
            ∙ ap (last_mark id i reading) (round-look id i r u s h hi ok old)
            ∙ one_more (reads r u) r.table reading
            ∙ sym (ap marks (if_no u.end_attr [] read running))
      ]
    where
      one_more :
          (b : Bool) (tlb : XoTable) (reading : List XoTable)
          → last_mark id i reading (if b then drawn id i tlb (Looks id i s) else Looks id i s)
            ≡ last_mark id i (if b then tlb ∷ reading else reading) (Looks id i s)
      one_more true tlb reading = refl
      one_more false tlb reading = refl
