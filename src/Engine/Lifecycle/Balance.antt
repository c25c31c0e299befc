-- ===== src/Engine/Lifecycle/Balance.antt =====
-- src/main.c: which resources `kxo_init` and `kxo_exit` leave held.
use kxo.Prelude.{[], ◌∷◌, Bool, ◌==◌, if◌then◌else◌, ◌≡◌, arith, not, ◌&&◌}
use kxo.Engine.Lifecycle.{
  fifo_buffer, chrdev_region, cdev, class, device, device_file, fast_buffer, workqueue,
  zobrist_table, rl_buffer, Held, Grants, kxo_init, kxo_exit,
}

-- What the module needs, and what it holds when it is loaded: the table of the cache too, if there
-- was memory for it.
abbrev pub needed : Held
needed =
    workqueue ∷ fast_buffer ∷ device_file ∷ device ∷ class ∷ cdev ∷ chrdev_region ∷ fifo_buffer ∷ []

abbrev pub everything : Grants → Held
everything g = rl_buffer ∷ (if g.kmalloc_table then zobrist_table ∷ needed else needed)

-- The calls up to `device_create` succeed and `device_create_file` fails.
abbrev pub fails_at_file : Grants → Bool
fails_at_file g =
    g.kfifo_alloc
    && (g.alloc_chrdev_region == 0)
    && (g.cdev_add == 0)
    && (g.class_create == 0)
    && not (g.device_create_file == 0)

-- A successful `kxo_init` holds all that the module needs and the buffer of the learning agent, and
-- the table of the cache exactly when `zobrist_init` got memory for it, which does not make it fail;
-- one that fails has given everything back, but for one path: when `device_create_file` fails the
-- device stays.
pub kxo_init_lem :
    (g : Grants)
    → (kxo_init g).1 ≡ (
        if (kxo_init g).0 == 0 then everything g else (if fails_at_file g then device ∷ [] else []))
unfolding kxo_init
kxo_init_lem g = ground arith

-- After a `kxo_init` that succeeds `kxo_exit` gives back every resource that is held.
pub kxo_exit-kxo_init : (g : Grants) → (kxo_init g).0 ≡ 0 → kxo_exit (kxo_init g).1 ≡ []
unfolding kxo_init kxo_exit
kxo_exit-kxo_init g h = ground arith
