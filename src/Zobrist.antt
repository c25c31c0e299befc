-- ===== src/Zobrist.antt =====
-- src/zobrist.c and include/zobrist.h: the cache of the negamax agent, a table of chained entries.
-- The memory that `kmalloc` gives is an input: whether it gives it.
pub mod Laws
use kxo.Prelude.{
  ℕ, zero, suc, ◌+◌, ◌*◌, ◌%◌, ◌/◌, ◌^◌, List, [], ◌∷◌, Bool, true, false, Option, none, some,
}
use kxo.Prelude.{◌==◌, if◌then◌else◌, bit_xor}
use kxo.Prelude.Int.{ℤ}
use kxo.Board.{u64}

abbrev pub hash_table_size : ℕ
hash_table_size = 100003

-- `HASH(key)`.
abbrev pub hash : ℕ → ℕ
hash key = key % hash_table_size

-- `zobrist_entry_t`, without its list node.
pub record Entry : Type 0 where
  pub key : ℕ
  pub score : ℤ
  pub move : ℤ

-- `hash_table`: NULL, or the chain of each bucket, the first entry first.
abbrev pub HashTable : Type 0
HashTable = Option (ℕ → List Entry)

-- `wyhash64_stateless` on the seed: the value, and the seed that it leaves.
unfoldable pub mix : ℕ → ℕ → ℕ
mix x factor = let tmp = x * factor % 2 ^ 128 in u64 (bit_xor (tmp / 2 ^ 64) tmp)

unfoldable pub wyhash64_stateless : ℕ → ℕ × ℕ
unfolding mix
wyhash64_stateless seed =
    let seed' = (seed + 0x60bee2bee120fc15) % 2 ^ 64 in
    (mix (mix seed' 0xa3b195354a39b70d) 0x1b03738712fad5c9, seed')

-- `wyhash64`, where `ns` is the time that the kernel tells.
unfoldable pub wyhash64 : ℕ → ℕ
unfolding wyhash64_stateless
wyhash64 ns = (wyhash64_stateless (u64 ns)).0

-- What `zobrist_init` puts into `zobrist_table`: `times` are those of its calls of `wyhash64`, two
-- for each cell.
unfoldable pub zobrist_keys : (times : ℕ → ℕ) → ℕ → Bool → ℕ
unfolding wyhash64
zobrist_keys times cell second = wyhash64 (times (2 * cell + (if second then 1 else 0)))

-- `hlist_for_each_entry` with its early return.
unfoldable pub find : ℕ → List Entry → Option (ℤ × ℤ)
find key [] = none
find key (entry ∷ rest) =
    let later = find key rest in if entry.key == key then some (entry.score, entry.move) else later

unfoldable pub zobrist_get : ℕ → HashTable → Option (ℤ × ℤ)
unfolding find
zobrist_get key none = none
zobrist_get key (some table) = find key (table (hash key))

-- The table with one chain changed.
abbrev pub with_chain : (ℕ → List Entry) → ℕ → List Entry → ℕ → List Entry
with_chain table bucket chain i = if i == bucket then chain else table i

unfoldable pub zobrist_put : (granted : Bool) → ℕ → ℤ → ℤ → HashTable → HashTable
zobrist_put granted key score move none = none
zobrist_put false key score move (some table) = some table
zobrist_put true key score move (some table) = some (
    with_chain table (hash key)
      (record { key = key; score = score; move = move } ∷ table (hash key)))

-- `while (!hlist_empty(...))`: the first entry is taken out and freed.
unfoldable pub drain : List Entry → List Entry
drain [] = []
drain (entry ∷ rest) = drain rest

-- The loop over the buckets from `i` on, with `left` to come.
unfoldable pub clear_from : ℕ → ℕ → (ℕ → List Entry) → ℕ → List Entry
clear_from zero i table = table
clear_from (suc left) i table = clear_from left (i + 1) (with_chain table i (drain (table i)))

unfoldable pub zobrist_clear : HashTable → HashTable
zobrist_clear none = none
zobrist_clear (some table) = some (clear_from hash_table_size 0 table)

-- The table of `zobrist_init`.
unfoldable pub zobrist_init : (granted : Bool) → HashTable
zobrist_init true = some (λ bucket. [])
zobrist_init false = none

unfoldable pub zobrist_destroy : HashTable → HashTable
zobrist_destroy table = none
