-- ===== src/Tests/EngineTests.antt =====
-- src/main.c and src/zobrist.c: runs, and instances of the theorems.
use kxo.Prelude.{
  ap, ◌≢◌, List, ◌+◌, ◌%◌, ◌≡◌, refl, arith, [], ◌∷◌, ◌==◌, true, false, some, none, if◌then◌else◌,
}
use kxo.Prelude.Int.{pos}
use kxo.Board.{xo_set_attr_ai_alg, table_get_cell, cell_empty}
use kxo.Engine.{xo_ai_tot, who_one, who_two}
use kxo.Engine.Agents.{who-set_attr_ai_alg}
use kxo.Engine.Device.{Attempt, ok, kxo_read}
use kxo.Engine.Device.Reads.{Served, kxo_read-Served}
use kxo.Engine.LoadAvg.{pack_avg}
use kxo.Engine.LoadAvg.Packed.{avg_int, avg_frac, avg-pack_avg}
use kxo.Engine.Lifecycle.{Grants, device, kxo_init, kxo_exit}
use kxo.Engine.Lifecycle.Balance.{everything, fails_at_file, kxo_init_lem, kxo_exit-kxo_init}
use kxo.Engine.Move.{one, apply_move}
use kxo.Engine.Move.Keeps.{IsGame, apply_move-IsGame}
use kxo.Engine.Handlers.{reset_game}
use kxo.System.Invariant.Finish.{reset_game-IsGame}
use kxo.Random.{xoro_init}
use kxo.Random.Laws.{IsState, stuck, after_calls, after_calls-ne}
use kxo.Zobrist.{zobrist_get, zobrist_put, zobrist_init}
use kxo.Zobrist.Laws.{
  zobrist_get-put, zobrist_get-calls, Call, put, clear, calls, map_calls, written,
}

who-set_attr_ai_alg_example :
    let attr' = xo_set_attr_ai_alg 5 0 2 in
    (who_one attr' ≡ (0 + 2) % xo_ai_tot) × (who_two attr' ≡ 2)
who-set_attr_ai_alg_example = who-set_attr_ai_alg 5 0 2 (omega arith) (omega arith) (omega arith)

-- One round without data, then one with 12 bytes.
abbrev two_rounds : List Attempt
two_rounds =
    record { fault = false; read = 0; signal = false }
    ∷ record { fault = false; read = 12; signal = false }
    ∷ []

read_two_rounds : kxo_read true false false two_rounds ≡ some (ok 12)
unfolding kxo_read
read_two_rounds = refl

kxo_read-Served_example : Served false two_rounds 12
kxo_read-Served_example = kxo_read-Served true false false two_rounds 12 read_two_rounds

avg-pack_avg_example : (avg_int (pack_avg 3 57) ≡ 3 % 16) × (avg_frac (pack_avg 3 57) ≡ 57 % 128)
avg-pack_avg_example = avg-pack_avg 3 57

-- Everything is granted.
abbrev all_granted : Grants
all_granted = record {
  kfifo_alloc = true;
  alloc_chrdev_region = 0;
  cdev_add = 0;
  class_create = 0;
  device_create_file = 0;
  vmalloc = true;
  alloc_workqueue = true;
  kmalloc_table = true;
}

-- All but the file of the device.
abbrev no_file : Grants
no_file = record all_granted { device_create_file = 12 }

loaded : (kxo_init all_granted).0 ≡ 0
unfolding kxo_init
loaded = refl

kxo_init_lem_example : (kxo_init no_file).1 ≡ (
    if (kxo_init no_file).0 == 0
    then everything no_file
    else (if fails_at_file no_file then device ∷ [] else []))
kxo_init_lem_example = kxo_init_lem no_file

kxo_exit-kxo_init_example : kxo_exit (kxo_init all_granted).1 ≡ []
kxo_exit-kxo_init_example = kxo_exit-kxo_init all_granted loaded

zobrist_get-put_example :
    zobrist_get 7 (zobrist_put true 100010 (pos 3) (pos 4) (zobrist_init true)) ≡ (
      if written (zobrist_init true) true
      then (if 100010 == 7 then some (pos 3, pos 4) else zobrist_get 7 (zobrist_init true))
      else zobrist_get 7 (zobrist_init true))
zobrist_get-put_example = zobrist_get-put true 100010 7 (pos 3) (pos 4) (zobrist_init true)

-- Two keys of one bucket, the first put twice.
abbrev some_calls : List Call
some_calls =
    put true 7 (pos 3) (pos 4)
    ∷ put true 100010 (pos 5) (pos 6)
    ∷ clear
    ∷ put true 7 (pos 8) (pos 9)
    ∷ []

zobrist_get-calls_example :
    zobrist_get 7 (calls some_calls (zobrist_init true))
    ≡ (if true then map_calls some_calls (λ key. none) 7 else none)
zobrist_get-calls_example = zobrist_get-calls true some_calls 7

first_turn : (reset_game 4 0).turn ≡ b'O'
unfolding reset_game
first_turn = refl

first_free : table_get_cell (reset_game 4 0).xo_tlb.table 5 ≡ cell_empty
unfolding reset_game table_get_cell
first_free = refl

apply_move-IsGame_example : IsGame 4 (
    apply_move one
      (record { attr = (reset_game 4 0).xo_tlb.attr; table = (reset_game 4 0).xo_tlb.table })
      (some 5)
      (reset_game 4 0))
apply_move-IsGame_example =
    apply_move-IsGame one 4 (reset_game 4 0) (reset_game-IsGame 4 0 (omega arith)) first_turn 5
      (omega arith) first_free

xoro_init-IsState : IsState xoro_init
unfolding xoro_init
xoro_init-IsState = record { word0 = omega arith; word1 = omega arith }

init-ne : xoro_init ≢ stuck
unfolding xoro_init
init-ne e = ground (arith, ap (λ obj. obj.s0) e)

after_calls-ne_example : IsState (after_calls 1000 xoro_init) × (after_calls 1000 xoro_init ≢ stuck)
after_calls-ne_example = after_calls-ne 1000 xoro_init xoro_init-IsState init-ne
