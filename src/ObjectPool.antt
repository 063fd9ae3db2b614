-- ===== src/ObjectPool.antt =====
-- `ObjectPool` and `ArenaObjectPool`: include/p/base/object_pool.h. Each thread keeps a group of names of free objects;
-- groups that are full and groups without names wait on two stacks that all threads share. The calls
-- come one after the other. A group is found by its name modulo 2 ^ 32, as the arena finds it; the
-- entries of a group below its size are a list, the last one first.
pub mod Counts
pub mod State
pub mod Stack
pub mod LockFree
pub mod Groups
pub mod Fits
pub mod Acquire
pub mod Release
pub mod Runs
pub mod Blocks
mod Examples
use p_base.Base.{
  ℕ, zero, suc, ◌+◌, ◌*◌, ◌%◌, ◌^◌, ◌-◌, Option, none, some, ltb, leb, ◌==◌, if◌then◌else◌, List,
  [], ◌∷◌, length, add64,
}

-- The two pools do the same but for the size of a group, and for what `acquire` does when no object is
-- free: `ArenaObjectPool` takes a block of objects, `ObjectPool` makes one by `NewThis`. An object of
-- `ObjectPool` is named by a number that `NewThis` gives out once.
pub data PoolKind : Type 0 where
  arena_object_pool : PoolKind
  object_pool : PoolKind

-- `ArenaObjectGroupItemSize<T>::kValue`
abbrev pub object_group_item_size : ℕ
object_group_item_size = 2 ^ 10

-- `kObjectGroupItemSize`
abbrev pub item_size : PoolKind → ℕ
item_size arena_object_pool = object_group_item_size
item_size object_pool = 256

abbrev pub group_key : ℕ → ℕ
group_key id = id % 2 ^ 32

-- The name of the first object of the `n`-th block of an arena, from 0 on.
abbrev pub block_name : ℕ → ℕ
block_name n = (n + 2 ^ 10) * 2 ^ 10

-- `global_object_group_stack_` and `global_free_object_group_stack_` are lists, the top first. A thread
-- without a group has the null pointer. `group_blocks` and `object_blocks` are how many blocks the two
-- arenas have.
pub record Pool : Type 0 where
  pub items : ℕ → List ℕ
  pub object_groups : List ℕ
  pub free_groups : List ℕ
  pub local_group : ℕ → Option ℕ
  pub group_blocks : ℕ
  pub object_blocks : ℕ

abbrev pub new_pool : Pool
new_pool = record {
  items = λ _. [];
  object_groups = [];
  free_groups = [];
  local_group = λ _. none;
  group_blocks = 0;
  object_blocks = 0;
}

abbrev pub set_at {ℓ} : {A : Type ℓ} → ℕ → A → (ℕ → A) → ℕ → A
set_at k v f j = if j == k then v else f j

-- `LockFreeStack::push`: the version in the upper half goes up by 1.
abbrev pub push : ℕ → List ℕ → List ℕ
push value stack = add64 value (2 ^ 32) ∷ stack

-- `push(++free_id)`, `n` times.
unfoldable pub push_next : ℕ → ℕ → List ℕ → List ℕ
push_next zero free_id stack = stack
push_next (suc n) free_id stack = push_next n (free_id + 1) (push (free_id + 1) stack)

-- `new_free_object_group`: the name of the group, and the pool.
unfoldable pub new_free_group_of : List ℕ → Pool → ℕ × Pool
new_free_group_of [] p =
    let id = block_name p.group_blocks in
    (
      id,
      record p {
        free_groups = push_next (object_group_item_size - 1) id [];
        group_blocks = p.group_blocks + 1;
      },
    )
new_free_group_of (id ∷ ids) p = (id, record p { free_groups = ids })

unfoldable pub new_free_group : Pool → ℕ × Pool
unfolding new_free_group_of
new_free_group p = new_free_group_of p.free_groups p

-- Group `id` becomes that of thread `t`, with these names.
abbrev pub use_group : ℕ → ℕ → List ℕ → Pool → Pool
use_group t id names p = record p {
  local_group = set_at t (some id) p.local_group;
  items = set_at (group_key id) names p.items;
}

-- The names behind the first of a block, from the last one down.
unfoldable pub rest_of_block : ℕ → ℕ → List ℕ
rest_of_block zero id = []
rest_of_block (suc n) id = (id + suc n) ∷ rest_of_block n id

-- A block of objects: its first is given out, the others go to the group.
unfoldable pub acquire_block : ℕ → ℕ × Pool → ℕ × Pool
acquire_block t (id, p) =
    let obj_id = block_name p.object_blocks in
    (
      obj_id,
      use_group t id (rest_of_block (object_group_item_size - 1) obj_id)
          (record p { object_blocks = p.object_blocks + 1 }),
    )

-- `T::NewThis()`; the thread has no group then.
unfoldable pub new_this : Pool → ℕ × Pool
new_this p = (block_name p.object_blocks, record p { object_blocks = p.object_blocks + 1 })

unfoldable pub acquire_new : PoolKind → ℕ → Pool → ℕ × Pool
unfolding new_free_group acquire_block new_this
acquire_new arena_object_pool t p = acquire_block t (new_free_group p)
acquire_new object_pool t p = new_this p

-- The last name of a group from the stack; `none` is the failed `assert` of a group without names or
-- with more than it has room for.
unfoldable pub take_last : PoolKind → ℕ → ℕ → List ℕ → Pool → Option (ℕ × Pool)
take_last kind t id [] p = none
take_last kind t id (name ∷ names) p =
    if leb (length (name ∷ names)) (item_size kind)
    then some (name, use_group t id names p)
    else none

unfoldable pub acquire_group_of : PoolKind → ℕ → List ℕ → Pool → Option (ℕ × Pool)
unfolding acquire_new take_last
acquire_group_of kind t [] p = some (acquire_new kind t p)
acquire_group_of kind t (id ∷ ids) p =
    take_last kind t id (p.items (group_key id)) (record p { object_groups = ids })

unfoldable pub acquire_group : PoolKind → ℕ → Pool → Option (ℕ × Pool)
unfolding acquire_group_of
acquire_group kind t p = acquire_group_of kind t p.object_groups p

-- The thread has no group until it has another; the pointer is set on every way on.
abbrev pub put_down : ℕ → Pool → Pool
put_down t p = record p { local_group = set_at t none p.local_group }

unfoldable pub acquire_local : PoolKind → ℕ → ℕ → List ℕ → Pool → Option (ℕ × Pool)
unfolding acquire_group
acquire_local kind t id (name ∷ names) p =
    some (name, record p { items = set_at (group_key id) names p.items })
acquire_local kind t id [] p =
    acquire_group kind t (put_down t (record p { free_groups = push id p.free_groups }))

unfoldable pub acquire_of : PoolKind → ℕ → Option ℕ → Pool → Option (ℕ × Pool)
unfolding acquire_group acquire_local
acquire_of kind t none p = acquire_group kind t p
acquire_of kind t (some id) p = acquire_local kind t id (p.items (group_key id)) p

-- `acquire`, on thread `t`: the name of an object, and the pool.
unfoldable pub acquire : PoolKind → ℕ → Pool → Option (ℕ × Pool)
unfolding acquire_of
acquire kind t p = acquire_of kind t (p.local_group t) p

unfoldable pub release_new : ℕ → ℕ → Pool → Pool
unfolding new_free_group
release_new t obj_id p = let (id, q) = new_free_group p in use_group t id (obj_id ∷ []) q

unfoldable pub release_of : PoolKind → ℕ → ℕ → Option ℕ → Pool → Pool
unfolding release_new
release_of kind t obj_id none p = release_new t obj_id p
release_of kind t obj_id (some id) p =
    if ltb (length (p.items (group_key id))) (item_size kind)
    then record p { items = set_at (group_key id) (obj_id ∷ p.items (group_key id)) p.items }
    else release_new t obj_id (put_down t (record p { object_groups = push id p.object_groups }))

unfoldable pub release : PoolKind → ℕ → ℕ → Pool → Pool
unfolding release_of
release kind t obj_id p = release_of kind t obj_id (p.local_group t) p

-- The destructor of `LocalObjectGroup`, when thread `t` ends.
unfoldable pub end_thread_of : ℕ → Option ℕ → Pool → Pool
end_thread_of t none p = p
end_thread_of t (some id) p =
    if ltb 0 (length (p.items (group_key id)))
    then put_down t (record p { object_groups = push id p.object_groups })
    else put_down t (record p { free_groups = push id p.free_groups })

unfoldable pub end_thread : ℕ → Pool → Pool
unfolding end_thread_of
end_thread t p = end_thread_of t (p.local_group t) p
