-- ===== src/Board/Moves/Laws.antt =====
-- src/game.c: what `available_moves` lists.
use kxo.Prelude.{Elem, ℕ, zero, suc, ◌+◌, ◌-◌, ◌<◌, ◌≤◌, List, [], ◌∷◌, ◌++◌, map, ◌==◌, set}
use kxo.Prelude.{
  ◌≡◌, refl, ap, ◌∙◌, inl, inr, ◌↔◌, arith, length, length-append, length-map, replicate, take,
  Bool-cases,
}
use kxo.Prelude.Int.{ℤ, pos, negsuc}
use native.Mathlib.Decide.{ℕ_discrete}
use mathlib.Core.List.{append_assoc, append-nil}
use kxo.Board.{n_grids, cell_empty, table_get_cell, empty_grids, empty_grids_from}
use kxo.Board.Moves.{Filled, fill_moves, end_moves, available_moves, count_moves}

-- Every entry is at least `i`, and each is above the one before.
abbrev pub Ascends : ℕ → List ℕ → Type 0
Ascends i [] = Unit {0}
Ascends i (x ∷ xs) = (i ≤ x) × Ascends (x + 1) xs

Ascends-weaken : (i j : ℕ) (xs : List ℕ) → i ≤ j → Ascends j xs → Ascends i xs
Ascends-weaken i j [] h a = tt
Ascends-weaken i j (x ∷ xs) h a = (omega arith, a.1)

module _ (table : ℕ) where
  Elem-empty_grids_from :
      (left i p : ℕ)
      → Elem p (empty_grids_from left i table)
        ↔ ((i ≤ p) × (p < i + left) × (table_get_cell table p ≡ cell_empty))
  unfolding empty_grids_from
  Elem-empty_grids_from zero i p = ground arith
  Elem-empty_grids_from (suc left) i p = elim (Bool-cases (table_get_cell table i == cell_empty)) [
    | inl e ↦ rw e (
      λ h. ground (arith, (Elem-empty_grids_from left (i + 1) p).0, e, h),
      λ h. elim (ℕ_discrete p i) [
        | yes same ↦ inl same
        | no ne ↦ inr ((Elem-empty_grids_from left (i + 1) p).1 (omega arith, omega arith, h.2))
      ],
    )
    | inr ne ↦ rw ne (
      λ h. ground (arith, (Elem-empty_grids_from left (i + 1) p).0 h),
      λ h. elim (ℕ_discrete p i) [
        | yes same ↦ absurd (ground (arith, same, ne, h))
        | no apart ↦ (Elem-empty_grids_from left (i + 1) p).1 (omega arith, omega arith, h.2)
      ],
    )
  ]

  Ascends-empty_grids_from : (left i : ℕ) → Ascends i (empty_grids_from left i table)
  unfolding empty_grids_from
  Ascends-empty_grids_from zero i = tt
  Ascends-empty_grids_from (suc left) i = elim (Bool-cases (table_get_cell table i == cell_empty)) [
    | inl e ↦ rw e (omega arith, Ascends-empty_grids_from left (i + 1))
    | inr ne ↦ rw ne (
        Ascends-weaken i (i + 1) (empty_grids_from left (i + 1) table) (omega arith)
          (Ascends-empty_grids_from left (i + 1)))
  ]

  length-empty_grids_from : (left i : ℕ) → length (empty_grids_from left i table) ≤ left
  unfolding empty_grids_from
  length-empty_grids_from zero i = omega arith
  length-empty_grids_from (suc left) i = ground (arith, length-empty_grids_from left (i + 1))

set-append : (xs : List ℤ) (y v : ℤ) (ys : List ℤ) → set (xs ++ y ∷ ys) (length xs) v ≡ xs ++ v ∷ ys
set-append [] y v ys = refl
set-append (x ∷ xs) y v ys = ap (λ t. x ∷ t) (set-append xs y v ys)

-- An array that holds `xs`, and zeros behind.
held : List ℤ → ℕ → Filled
held xs z = record { m = length xs; moves = xs ++ replicate z (pos 0) }

push : ℕ → Filled → Filled
push i f = record { m = f.m + 1; moves = set f.moves f.m (pos i) }

push-held : (xs : List ℤ) (i z : ℕ) → push i (held xs (suc z)) ≡ held (xs ++ pos i ∷ []) z
unfolding held push
push-held xs i z =
    rw (set-append, length-append, append_assoc)
      (let e : length xs + 1 ≡ length xs + length (pos i ∷ []) = omega arith in rw e)

held-regroup :
    (xs ys : List ℤ) (v : ℤ) (z n : ℕ)
    → held ((xs ++ v ∷ []) ++ ys) (z - n) ≡ held (xs ++ v ∷ ys) (suc z - suc n)
held-regroup xs ys v z n = let e : z - n ≡ suc z - suc n = omega arith in rw (append_assoc, e)

-- The loop appends the empty cells to what the array holds.
fill_moves_lem :
    (left i table z : ℕ) (xs : List ℤ)
    → left ≤ z
    → let found = empty_grids_from left i table in
      fill_moves left i table (held xs z) ≡ held (xs ++ map pos found) (z - length found)
unfolding fill_moves empty_grids_from push
fill_moves_lem zero i table z xs h = let e : z ≡ z - 0 = omega arith in rw (append-nil, ← e)
fill_moves_lem (suc left) i table zero xs h = absurd (omega arith)
fill_moves_lem (suc left) i table (suc z) xs h =
    elim (Bool-cases (table_get_cell table i == cell_empty)) [
      | inl e ↦ rw e (
          after_push (push-held xs i z)
            (fill_moves_lem left (i + 1) table z (xs ++ pos i ∷ []) (omega arith)))
      | inr ne ↦ rw ne (fill_moves_lem left (i + 1) table (suc z) xs (omega arith))
    ]
  where
    rest : List ℕ
    rest = empty_grids_from left (i + 1) table

    after_push :
        {f : Filled}
        → f ≡ held (xs ++ pos i ∷ []) z
        → fill_moves left (i + 1) table (held (xs ++ pos i ∷ []) z)
          ≡ held ((xs ++ pos i ∷ []) ++ map pos rest) (z - length rest)
        → fill_moves left (i + 1) table f
          ≡ held (xs ++ pos i ∷ map pos rest) (suc z - suc (length rest))
    after_push e ih = rw e (ih ∙ held-regroup xs (map pos rest) (pos i) z (length rest))

take-append : (xs ys : List ℤ) → take (length xs) (xs ++ ys) ≡ xs
take-append [] ys = refl
take-append (x ∷ xs) ys = ap (λ t. x ∷ t) (take-append xs ys)

-- The count stops at the -1 behind the listed cells.
count-stop :
    (found : List ℕ) (left : ℕ) (ys : List ℤ)
    → length found < left
    → count_moves left (map pos found ++ negsuc 0 ∷ ys) ≡ length found
unfolding count_moves
count-stop [] zero ys h = absurd (omega arith)
count-stop [] (suc left) ys h = refl
count-stop (x ∷ found) zero ys h = absurd (omega arith)
count-stop (x ∷ found) (suc left) ys h = omega (arith, count-stop found left ys (omega arith))

-- Without one it stops at the end of the array.
count-full :
    (found : List ℕ) (n : ℕ) → length found ≡ n → count_moves n (map pos found ++ []) ≡ length found
unfolding count_moves
count-full [] zero e = refl
count-full [] (suc n) e = refl
count-full (x ∷ found) zero e = absurd (omega arith)
count-full (x ∷ found) (suc n) e = omega (arith, count-full found n (omega arith))

abbrev pub n_moves : ℕ → ℕ
n_moves table = count_moves n_grids (available_moves table)

pub length-empty_grids : (table : ℕ) → length (empty_grids table) ≤ 16
unfolding empty_grids
length-empty_grids table = length-empty_grids_from table 16 0

-- A full array gets no end mark, and any other gets -1 behind the listed cells.
end_full :
    (found : List ℕ) → length found ≡ 16 → end_moves (held (map pos found) 0) ≡ map pos found ++ []
unfolding end_moves held
end_full found e = ground (arith, length-map found pos)

end_more :
    (found : List ℕ) (z : ℕ)
    → length found < 16
    → end_moves (held (map pos found) (suc z)) ≡ map pos found ++ negsuc 0 ∷ replicate z (pos 0)
unfolding end_moves held
end_more found z h = ground (
  arith,
  length-map found pos,
  set-append (map pos found) (pos 0) (negsuc 0) (replicate z (pos 0)),
)

pub Elem-empty_grids :
    (table p : ℕ) → Elem p (empty_grids table) ↔ ((p < 16) × (table_get_cell table p ≡ cell_empty))
unfolding empty_grids
Elem-empty_grids table p =
    let i = Elem-empty_grids_from table 16 0 p in
    (λ h. ((i.0 h).1, (i.0 h).2), λ h. i.1 (omega arith, h.0, h.1))

-- What a caller reads of the array.
abbrev pub Reads : List ℤ → List ℕ → Type 0
Reads ms found =
    (count_moves n_grids ms ≡ length found) × (take (count_moves n_grids ms) ms ≡ map pos found)

take_found :
    (found : List ℕ) (ys : List ℤ) → take (length found) (map pos found ++ ys) ≡ map pos found
take_found found ys = rw (length-map found pos) at (take-append (map pos found) ys)

read_moves :
    (z : ℕ) (found : List ℕ)
    → length found + z ≡ 16
    → Reads (end_moves (held (map pos found) z)) found
read_moves zero found e =
    let l : length found ≡ 16 = omega arith in
    let counted : count_moves 16 (map pos found ++ []) ≡ length found = count-full found 16 l in
    rw (end_full found l, counted) (refl, take_found found [])
read_moves (suc z) found e =
    let ys = replicate z (pos 0) in
    let counted = count-stop found 16 ys (omega arith) in
    rw (end_more found z (omega arith), counted) (refl, take_found found (negsuc 0 ∷ ys))

available_moves-held :
    (table : ℕ)
    → available_moves table
      ≡ end_moves (held (map pos (empty_grids table)) (16 - length (empty_grids table)))
unfolding available_moves empty_grids held
available_moves-held table = ap end_moves (fill_moves_lem 16 0 table 16 [] (omega arith))

-- The callers of `available_moves` count and read exactly the empty cells, in ascending order.
pub available_moves_lem :
    (table : ℕ)
    → Reads (available_moves table) (empty_grids table)
      × Ascends 0 (empty_grids table)
      × ((p : ℕ) → Elem p (empty_grids table) ↔ ((p < 16) × (table_get_cell table p ≡ cell_empty)))
available_moves_lem table = (
  rw (available_moves-held table) (
      read_moves (16 - length (empty_grids table)) (empty_grids table)
        (omega (arith, length-empty_grids table))),
  unfold empty_grids in Ascends-empty_grids_from table 16 0,
  Elem-empty_grids table,
)
