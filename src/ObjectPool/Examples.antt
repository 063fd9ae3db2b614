-- ===== src/ObjectPool/Examples.antt =====
-- The theorem on the pool at concrete calls.
use p_base.Base.{ℕ, ◌≤◌, ◌≡◌, arith, some, List, [], ◌∷◌}
use p_base.ObjectPool.{Pool, arena_object_pool, new_pool}
use p_base.ObjectPool.Counts.{count}
use p_base.ObjectPool.Fits.{Fits}
use p_base.ObjectArena.{new_global_group}
use p_base.ObjectPool.Blocks.{add_blocks, add_blocks-block_names}
use p_base.ObjectPool.Runs.{PoolAction, acquires, releases, ends, run_pool, run_pool_lem}

-- Two threads take names, one gives its name back, takes it again and ends.
abbrev calls : List PoolAction
calls = acquires 0 ∷ acquires 1 ∷ releases 0 1_048_576 ∷ acquires 0 ∷ ends 0 ∷ acquires 1 ∷ []

run_pool_lem_example :
    (held : List ℕ) × (p : Pool) × (run_pool arena_object_pool calls [] new_pool ≡ some (held, p))
    × ((x : ℕ) → count x held ≤ 1)
    × Fits arena_object_pool p.items
run_pool_lem_example =
    run_pool_lem arena_object_pool 2 calls
      (omega arith, (omega arith, (omega arith, (omega arith, (omega arith, (omega arith, tt))))))
      (omega arith)

add_blocks-block_names_example : add_blocks 2 new_global_group ≡ some (1_048_576 ∷ 1_049_600 ∷ [])
add_blocks-block_names_example = add_blocks-block_names 2 (omega arith)
