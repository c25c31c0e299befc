-- ===== src/Zobrist/Laws.antt =====
-- src/zobrist.c: the cache as a map from keys.
use kxo.Prelude.{
  List, [], ◌∷◌, Option, ℕ, ◌≡◌, refl, arith, Bool, true, false, none, some, ◌==◌, if◌then◌else◌,
  Bool-cases, inl, inr, ==_iff, zero, suc, ◌+◌, ◌<◌, ◌≤◌, ap, ◌∙◌,
}
use native.Mathlib.Decide.{ℕ_discrete}
use kxo.Prelude.Int.{ℤ}
use kxo.Zobrist.{
  Entry, hash_table_size, find, with_chain, drain, clear_from, zobrist_init, HashTable, hash,
  zobrist_get, zobrist_put, zobrist_clear,
}

-- The map that the cache stands for: `put` writes a key, unless there is no memory or no table.
abbrev pub written : HashTable → Bool → Bool
written none granted = false
written (some table) granted = granted

-- After `zobrist_put` of a key, `zobrist_get` of that key finds the new score and move, and of every
-- other key, one of the same bucket too, what it found before; without a table or without memory
-- for the entry nothing changes for any key.
pub zobrist_get-put :
    (granted : Bool) (key key' : ℕ) (score move : ℤ) (table : HashTable)
    → zobrist_get key' (zobrist_put granted key score move table) ≡ (
        if written table granted
        then (if key == key' then some (score, move) else zobrist_get key' table)
        else zobrist_get key' table)
unfolding zobrist_get zobrist_put
zobrist_get-put granted key key' score move none = refl
zobrist_get-put false key key' score move (some table) = refl
zobrist_get-put true key key' score move (some table) = elim (Bool-cases (hash key' == hash key)) [
  | inl same ↦ rw (same, (==_iff _ _).0 same) refl
  | inr apart ↦ let ne : (key == key') ≡ false = ground (arith, apart) in rw (apart, ne) refl
]

drain-empty : (chain : List Entry) → drain chain ≡ []
unfolding drain
drain-empty [] = refl
drain-empty (entry ∷ rest) = drain-empty rest

-- The loop does not touch the buckets before `i`.
clear_from-before :
    (left i bucket : ℕ) (table : ℕ → List Entry)
    → bucket < i
    → clear_from left i table bucket ≡ table bucket
unfolding clear_from
clear_from-before zero i bucket table lt = refl
clear_from-before (suc left) i bucket table lt =
    let other : (bucket == i) ≡ false = ground (arith, lt) in
    clear_from-before left (i + 1) bucket (with_chain table i (drain (table i))) (omega (arith, lt))
    ∙ rw other refl

clear_from-empty :
    (left i bucket : ℕ) (table : ℕ → List Entry)
    → i ≤ bucket
    → bucket < i + left
    → clear_from left i table bucket ≡ []
unfolding clear_from
clear_from-empty zero i bucket table le lt = absurd (omega (arith, le, lt))
clear_from-empty (suc left) i bucket table le lt =
    let table' = with_chain table i (drain (table i)) in
    elim (ℕ_discrete bucket i) [
      | yes same ↦
          let here : (bucket == i) ≡ true = ground (arith, same) in
          clear_from-before left (i + 1) bucket table' (omega (arith, same))
          ∙ rw here (drain-empty (table i))
      | no ne ↦
          clear_from-empty left (i + 1) bucket table' (omega (arith, le, ne)) (omega (arith, lt))
    ]

pub zobrist_get-clear : (key : ℕ) (table : HashTable) → zobrist_get key (zobrist_clear table) ≡ none
unfolding zobrist_get zobrist_clear
zobrist_get-clear key none = refl
zobrist_get-clear key (some table) =
    ap (find key) (clear_from-empty hash_table_size 0 (hash key) table (omega arith) (omega arith))

-- What the search asks of the cache.
pub data Call : Type 0 where
  put : (granted : Bool) (key : ℕ) (score move : ℤ) → Call
  clear : Call

abbrev pub call : Call → HashTable → HashTable
call (put granted key score move) table = zobrist_put granted key score move table
call clear table = zobrist_clear table

abbrev pub calls : List Call → HashTable → HashTable
calls [] table = table
calls (c ∷ rest) table = calls rest (call c table)

-- The same calls on a map from keys, which knows no buckets and no chains.
abbrev pub Cache : Type 0
Cache = ℕ → Option (ℤ × ℤ)

abbrev pub map_call : Call → Cache → Cache
map_call (put granted key score move) cache key' =
    if granted then (if key == key' then some (score, move) else cache key') else cache key'
map_call clear cache key' = none

abbrev pub map_calls : List Call → Cache → Cache
map_calls [] cache = cache
map_calls (c ∷ rest) cache = map_calls rest (map_call c cache)

-- Without a table there is none after any calls.
calls-no_table : (cs : List Call) → calls cs none ≡ none
unfolding zobrist_put zobrist_clear
calls-no_table [] = refl
calls-no_table (put granted key score move ∷ rest) = calls-no_table rest
calls-no_table (clear ∷ rest) = calls-no_table rest

has_table : HashTable → Bool
has_table none = false
has_table (some table) = true

call-has_table :
    (c : Call) (table : HashTable) → has_table table ≡ true → has_table (call c table) ≡ true
unfolding has_table zobrist_put zobrist_clear
call-has_table (put granted key score move) none h = h
call-has_table (put true key score move) (some table) h = refl
call-has_table (put false key score move) (some table) h = refl
call-has_table clear none h = h
call-has_table clear (some table) h = refl

get-call :
    (c : Call) (table : HashTable) (cache : Cache)
    → has_table table ≡ true
    → ((key : ℕ) → zobrist_get key table ≡ cache key)
    → (key : ℕ) → zobrist_get key (call c table) ≡ map_call c cache key
unfolding has_table
get-call (put granted key' score move) none cache h same key = absurd (ground (arith, h))
get-call (put granted key' score move) (some table) cache h same key =
    rw (zobrist_get-put granted key' key score move (some table), same key) refl
get-call clear table cache h same key = zobrist_get-clear key table

get-calls :
    (cs : List Call) (table : HashTable) (cache : Cache)
    → has_table table ≡ true
    → ((key : ℕ) → zobrist_get key table ≡ cache key)
    → (key : ℕ) → zobrist_get key (calls cs table) ≡ map_calls cs cache key
get-calls [] table cache h same key = same key
get-calls (c ∷ rest) table cache h same key =
    get-calls rest (call c table) (map_call c cache) (call-has_table c table h)
      (get-call c table cache h same) key

-- After `zobrist_init` and any calls of `zobrist_put` and `zobrist_clear`, `zobrist_get` finds for
-- every key what the same calls leave in a map from keys: the score and move of the last entry put
-- for the key since the last clear. When `zobrist_init` got no memory for the table it finds nothing,
-- whatever was called.
pub zobrist_get-calls :
    (granted : Bool) (cs : List Call) (key : ℕ)
    → zobrist_get key (calls cs (zobrist_init granted))
      ≡ (if granted then map_calls cs (λ key'. none) key else none)
unfolding has_table zobrist_get zobrist_init
zobrist_get-calls false cs key = ap (zobrist_get key) (calls-no_table cs)
zobrist_get-calls true cs key =
    get-calls cs (zobrist_init true) (λ key'. none) refl (λ key'. refl) key
