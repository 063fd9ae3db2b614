-- ===== src/ObjectPool/Runs.antt =====
-- Calls of several threads, one after the other: no name is given out twice.
use p_base.Base.{
  ℕ, ◌^◌, ◌+◌, ◌≤◌, ◌<◌, ◌≡◌, refl, ap, subst, ◌∙◌, arith, ltb, ◌==◌, if◌then◌else◌, Option, none,
  some, List, [], ◌∷◌, length, Bool-cases, inl, inr,
}
use p_base.ObjectPool.{PoolKind, Pool, block_name, new_pool, acquire, release, end_thread}
use p_base.ObjectPool.Counts.{count, sum_zero}
use p_base.ObjectPool.State.{IsPool}
use p_base.ObjectPool.Fits.{Fits, FitsAfter, acquire-Fits, release-Fits, end_thread-Fits}
use p_base.ObjectPool.Groups.{HasRoom}
use p_base.ObjectPool.Acquire.{acquire-Gives}
use p_base.ObjectPool.Release.{Without, release-Takes, end_thread-IsPool}

-- A call by a thread.
pub data PoolAction : Type 0 where
  acquires : ℕ → PoolAction
  releases : ℕ → ℕ → PoolAction
  ends : ℕ → PoolAction

abbrev pub remove : ℕ → List ℕ → List ℕ
remove x [] = []
remove x (y ∷ ys) = let rest = remove x ys in if y == x then ys else y ∷ rest

abbrev pub hold : List ℕ → Option (ℕ × Pool) → Option (List ℕ × Pool)
hold held none = none
hold held (some (name, p)) = some (name ∷ held, p)

-- Callers release only what they hold: other releases are left out. The names that callers hold, and
-- the pool; `none` is a failed `assert`.
unfoldable pub act : PoolKind → PoolAction → List ℕ → Pool → Option (List ℕ × Pool)
unfolding acquire release end_thread
act kind (acquires t) held p = hold held (acquire kind t p)
act kind (releases t obj_id) held p =
    some (
      if ltb 0 (count obj_id held)
      then (remove obj_id held, release kind t obj_id p)
      else (held, p))
act kind (ends t) held p = some (held, end_thread t p)

abbrev then_run :
    (List ℕ → Pool → Option (List ℕ × Pool)) → Option (List ℕ × Pool) → Option (List ℕ × Pool)
then_run f none = none
then_run f (some (held, p)) = f held p

unfoldable pub run_pool : PoolKind → List PoolAction → List ℕ → Pool → Option (List ℕ × Pool)
unfolding act
run_pool kind [] held p = some (held, p)
run_pool kind (a ∷ actions) held p = then_run (run_pool kind actions) (act kind a held p)

abbrev pub thread_of : PoolAction → ℕ
thread_of (acquires t) = t
thread_of (releases t obj_id) = t
thread_of (ends t) = t

abbrev pub AllIn : ℕ → List PoolAction → Type 0
AllIn threads [] = Unit
AllIn threads (a ∷ actions) = (thread_of a < threads) × AllIn threads actions

-- A run ends without a failed `assert`, in a pool as it should be.
record Runs (kind : PoolKind) (threads most : ℕ) (res : Option (List ℕ × Pool)) : Type 0 where
  held : List ℕ
  after : Pool
  ended : res ≡ some (held, after)
  valid : IsPool threads none held after
  fits : Fits kind after.items
  blocks : after.group_blocks ≤ most

remove-Without : (x : ℕ) (held : List ℕ) → 1 ≤ count x held → Without held x (remove x held)
remove-Without x [] h y = absurd (omega arith)
remove-Without x (z ∷ held) h y = elim (Bool-cases (z == x)) [
  | inl e ↦ let k : z ≡ x = ground arith in rw e (rw k refl)
  | inr e ↦
      let k : 1 ≤ count x held = ground arith in
      let more = remove-Without x held k y in ground (arith, more)
]

act-Runs :
    (kind : PoolKind) (threads : ℕ) (a : PoolAction) (held : List ℕ) (p : Pool)
    → IsPool threads none held p
    → thread_of a < threads
    → HasRoom p
    → Fits kind p.items
    → Runs kind threads (p.group_blocks + 1) (act kind a held p)
unfolding act
act-Runs kind threads (acquires t) held p v h room fits =
    let g = acquire-Gives kind threads t held p v h room fits in
    record {
      held = g.name ∷ held;
      after = g.after;
      ended = ap (hold held) g.given;
      valid = g.valid;
      fits = subst (FitsAfter kind) g.given (acquire-Fits kind t p fits);
      blocks = g.blocks;
    }
act-Runs kind threads (releases t obj_id) held p v h room fits =
    elim (Bool-cases (ltb 0 (count obj_id held))) [
      | inl e ↦
          let r =
            release-Takes kind threads t obj_id held (remove obj_id held) p v h room
              (remove-Without obj_id held (ground arith)) in
          rw e (record {
            held = remove obj_id held;
            after = release kind t obj_id p;
            ended = refl;
            valid = r.valid;
            fits = release-Fits kind t obj_id p fits;
            blocks = r.blocks;
          })
      | inr e ↦ rw e (record {
        held = held;
        after = p;
        ended = refl;
        valid = v;
        fits = fits;
        blocks = omega arith;
      })
    ]
act-Runs kind threads (ends t) held p v h room fits =
    let r = end_thread-IsPool threads t held p v h in
    record {
      held = held;
      after = end_thread t p;
      ended = refl;
      valid = r.valid;
      fits = end_thread-Fits kind t p fits;
      blocks = omega (arith, r.blocks);
    }

run_pool-Runs :
    (kind : PoolKind) (threads : ℕ) (actions : List PoolAction) (held : List ℕ) (p : Pool)
    → IsPool threads none held p
    → AllIn threads actions
    → block_name (p.group_blocks + length actions) ≤ 2 ^ 32
    → Fits kind p.items
    → Runs kind threads (p.group_blocks + length actions) (run_pool kind actions held p)
unfolding run_pool
run_pool-Runs kind threads [] held p v h room fits = record {
  held = held;
  after = p;
  ended = refl;
  valid = v;
  fits = fits;
  blocks = omega arith;
}
run_pool-Runs kind threads (a ∷ actions) held p v (h, hs) room fits =
    let one = act-Runs kind threads a held p v h (omega arith) fits in
    let all =
      run_pool-Runs kind threads actions one.held one.after one.valid hs
        (omega (arith, room, one.blocks)) one.fits in
    record {
      held = all.held;
      after = all.after;
      ended = ap (then_run (run_pool kind actions)) one.ended ∙ all.ended;
      valid = all.valid;
      fits = all.fits;
      blocks = omega (arith, one.blocks, all.blocks);
    }

empty-IsPool :
    (threads blocks : ℕ)
    → block_name blocks ≤ 2 ^ 32
    → IsPool threads none [] (record new_pool { group_blocks = blocks })
empty-IsPool threads blocks h = record {
  groups = λ g. omega (arith, sum_zero threads);
  groups_new = λ g l. omega (arith, sum_zero threads);
  objects = λ x. omega (arith, sum_zero (block_name blocks));
  objects_new = λ x l. omega (arith, sum_zero (block_name blocks));
  free = tt;
  full = tt;
  blank = λ g l. refl;
  room = h;
}

-- In both pools, whatever calls several threads make, one after the other, each releasing only names that are held and
-- not more calls than the arena has blocks for: no `assert` fails, no name is held twice, and no group
-- has more names than it has room for.
pub run_pool_lem :
    (kind : PoolKind) (threads : ℕ) (actions : List PoolAction)
    → AllIn threads actions
    → block_name (length actions) ≤ 2 ^ 32
    → (held : List ℕ) × (p : Pool) × (run_pool kind actions [] new_pool ≡ some (held, p))
      × ((x : ℕ) → count x held ≤ 1)
      × Fits kind p.items
run_pool_lem kind threads actions h room =
    let r =
      run_pool-Runs kind threads actions [] new_pool (empty-IsPool threads 0 (omega arith)) h
        (omega (arith, room)) (λ g. omega arith) in
    (r.held, r.after, r.ended, (λ x. omega (arith, r.valid.objects x)), r.fits)
