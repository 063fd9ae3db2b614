-- ===== src/ZBuffer/Buffer/Read.antt =====
-- The operations of `ZBuffer` that take bytes and references out, and the destructor.
use p_base.Base.{
  ℕ, zero, suc, ◌+◌, ◌-◌, ◌^◌, ◌%◌, Bool, none, some, List, [], ◌∷◌, ◌++◌, add32, sub32, sub64, ltb,
  leb, ◌==◌, ◌||◌, if◌then◌else◌,
}
use p_base.ZBuffer.Block.{Memory}
use p_base.ZBuffer.Ref.{
  BlockRef, BlockRefArray, null_ref, release, ref_at, set_ref_at, read_ref, ref_bytes,
}
use p_base.ZBuffer.Buffer.{ZBuffer, simple, array, empty_buffer}

-- `ref.offset += count; ref.length -= count;`
abbrev pub advance : BlockRef → ℕ → BlockRef
advance r count = record r {
  offset = add32 r.offset count;
  length = sub32 r.length (count % 2 ^ 32);
}

-- What a read gives back: the number returned, the bytes that were copied out, the buffer that is
-- left, and the memory.
abbrev pub Taken : Type 0
Taken = ℕ × List ℕ × ZBuffer × Memory

-- `length > (int64_t)count`
unfoldable pub exceeds : ℕ → ℕ → Bool
exceeds len count = leb (2 ^ 63) count || ltb count len

unfoldable pub pop_second : BlockRef → ℕ → ℕ → List ℕ → Memory → Taken
unfolding release
pop_second s count copied out m =
    if leb s.length count
    then (copied + s.length, out ++ ref_bytes m.bytes s, empty_buffer, release s m)
    else (copied + count, out ++ read_ref m.bytes s count, simple (advance s count) null_ref, m)

unfoldable pub simple_popn : BlockRef → BlockRef → ℕ → Memory → Taken
unfolding exceeds pop_second release
simple_popn f s count m =
    if f.length == 0
    then (0, [], simple f s, m)
    else (if exceeds f.length count
        then (count, read_ref m.bytes f count, simple (advance f count) s, m)
        else elim s.block [
          | none ↦ (f.length, ref_bytes m.bytes f, simple null_ref s, release f m)
          | some _ ↦ pop_second s (count - f.length) f.length (ref_bytes m.bytes f) (release f m)
        ])

-- One round for each of the `left` entries from place `i` on: the place where the loop stops, the
-- number of bytes copied, and the bytes.
unfoldable pub pop_loop :
    ℕ → ℕ → ℕ → BlockRefArray → Memory → ℕ × ℕ × List ℕ × BlockRefArray × Memory
unfolding ref_at set_ref_at release
pop_loop zero i count a m = (i, 0, [], a, m)
pop_loop (suc left) i count a m =
    let r = ref_at a i in
    let rest = pop_loop left (i + 1) (count - r.length) (set_ref_at a i null_ref) (release r m) in
    if ltb count r.length
    then (i, count, read_ref m.bytes r count, set_ref_at a i (advance r count), m)
    else (rest.0, r.length + rest.1, ref_bytes m.bytes r ++ rest.2, rest.3, rest.4)

unfoldable pub array_popn : ℕ → BlockRefArray → BlockRef → ℕ → Memory → Taken
unfolding pop_loop
array_popn n a space count m =
    let (i, copied, out, a', m') = pop_loop n 0 count a m in
    let left = record a' { nbytes = sub64 a'.nbytes copied; begin = add32 a'.begin i } in
    (copied, out, array (sub32 n i) left space, m')

unfoldable pub popn : ZBuffer → ℕ → Memory → Taken
unfolding simple_popn array_popn
popn (simple f s) count m = simple_popn f s count m
popn (array n a space) count m = array_popn n a space count m

-- `copy_front` reads as `popn` does and leaves the buffer alone. The loop over the array and the
-- two references of a small buffer do the same.
unfoldable pub copy_loop : (ℕ → ℕ → ℕ) → ℕ → ℕ → ℕ → BlockRefArray → ℕ × List ℕ
unfolding ref_at
copy_loop bytes zero i count a = (0, [])
copy_loop bytes (suc left) i count a =
    let r = ref_at a i in
    let rest = copy_loop bytes left (i + 1) (count - r.length) a in
    if leb count r.length
    then (count, read_ref bytes r count)
    else (r.length + rest.0, ref_bytes bytes r ++ rest.1)

unfoldable pub copy_front : (ℕ → ℕ → ℕ) → ZBuffer → ℕ → ℕ × List ℕ
unfolding copy_loop
copy_front bytes (array n a space) count = copy_loop bytes n 0 count a
copy_front bytes (simple f s) count =
    if leb count f.length
    then (count, read_ref bytes f count)
    else (let left = count - f.length in
        if leb left s.length
        then (f.length + left, ref_bytes bytes f ++ read_ref bytes s left)
        else (f.length + s.length, ref_bytes bytes f ++ ref_bytes bytes s))

-- The references are moved to the end of `queue`; the empty ones are released.
unfoldable pub dump_ref : BlockRef → List BlockRef → Memory → ℕ × List BlockRef × Memory
unfolding release
dump_ref r queue m = if r.length == 0 then (0, queue, release r m) else (1, queue ++ r ∷ [], m)

unfoldable pub dump_loop :
    ℕ → ℕ → BlockRefArray → List BlockRef → Memory → ℕ × List BlockRef × Memory
unfolding dump_ref ref_at
dump_loop zero i a queue m = (0, queue, m)
dump_loop (suc left) i a queue m =
    let (k, queue', m') = dump_ref (ref_at a i) queue m in
    let (nr, queue'', m'') = dump_loop left (i + 1) a queue' m' in (k + nr, queue'', m'')

unfoldable pub dump_refs_to :
    ZBuffer → List BlockRef → Memory → ℕ × List BlockRef × ZBuffer × Memory
unfolding dump_ref dump_loop release
dump_refs_to (simple f s) queue m =
    let (k, queue', m') = dump_ref f queue m in
    let (j, queue'', m'') = dump_ref s queue' m' in (k + j, queue'', empty_buffer, m'')
dump_refs_to (array n a space) queue m =
    let (nr, queue', m') = dump_loop n 0 a queue m in (nr, queue', empty_buffer, release space m')

-- The references that `map` calls its function with, in order; their number is what it returns.
unfoldable pub map_loop : ℕ → ℕ → BlockRefArray → List BlockRef
unfolding ref_at
map_loop zero i a = []
map_loop (suc left) i a = ref_at a i ∷ map_loop left (i + 1) a

abbrev pub visit : BlockRef → List BlockRef
visit r = elim r.block [ none ↦ [] | some _ ↦ r ∷ [] ]

unfoldable pub map_refs : ZBuffer → List BlockRef
unfolding map_loop
map_refs (simple f s) = visit f ++ visit s
map_refs (array n a space) = map_loop n 0 a

unfoldable pub release_loop : ℕ → ℕ → BlockRefArray → Memory → Memory
unfolding ref_at release
release_loop zero i a m = m
release_loop (suc left) i a m = release_loop left (i + 1) a (release (ref_at a i) m)

-- `~ZBuffer`
unfoldable pub destroy : ZBuffer → Memory → Memory
unfolding release_loop release
destroy (simple f s) m = release s (release f m)
destroy (array n a space) m = release space (release_loop n 0 a m)
