-- ===== src/ZBuffer/Buffer/ArrayAppend.antt =====
-- `array_append_ref`, both overloads: the bytes of the reference go to the end of the ring.
use p_base.Base.{
  ℕ, zero, suc, ◌+◌, ◌≤◌, ◌<◌, ◌≡◌, ◌≢◌, refl, ap, ◌∙◌, inl, inr, ◌⊎◌, true, false, Option, none,
  some, arith, ◌++◌, add32, sub32, Bool-cases, ltb,
}
use p_base.ZBuffer.Block.{Memory, Ptr, inc_ref, dec_ref}
use p_base.ZBuffer.Ref.{
  BlockRef, BlockRefArray, merge, same_block, release, ref_at, set_ref_at, copy_array, ref_bytes,
}
use p_base.ZBuffer.Ref.Merge.{IsRef, merge-cases}
use p_base.ZBuffer.Ref.Reserve.{IsListed, acquire_lem, bytes-inc_ref, bytes-dec_ref, bytes-release}
use p_base.ZBuffer.Ref.Ring.{IsRing, IsRing-le}
use p_base.ZBuffer.Buffer.{
  ZBuffer, simple, array, array_resize, make_room, array_append_move, array_append_copy,
}
use p_base.ZBuffer.Buffer.Contents.{contents, IsArray, filled_suc, IsBuffer}
use p_base.ZBuffer.Buffer.Entries.{
  count_bytes, Kept, Kept-refl, IsRing-count, window-set-Kept, window-count, window-set_longer,
  set_end-IsFilled, set_last-IsArray,
}
use p_base.ZBuffer.Buffer.Resize.{CanDouble, doubled, copy-IsRing, cap_mask-copy, ref_at-copy}

-- Where an array has to be made or doubled, the cache of the thread is a list that ends, and the
-- full ring begins where doubling keeps its entries.
abbrev pub CanGrow : ZBuffer → Memory → Type 0
CanGrow (simple f s) m = IsListed m
CanGrow (array n a space) m = a.cap_mask < n → CanDouble a × IsListed m

-- `after` is a buffer that holds the bytes of `z`, and those of `r` behind them.
pub record IsLonger (z : ZBuffer) (r : BlockRef) (after : ZBuffer) : Type 0 where
  pub valid : IsBuffer after
  pub joined : (bytes : ℕ → ℕ → ℕ) → contents bytes after ≡ contents bytes z ++ ref_bytes bytes r

-- The call gives such a buffer, and no block's bytes change.
pub record Appends (z : ZBuffer) (r : BlockRef) (m : Memory) (outcome : Option (ZBuffer × Memory))
    : Type 0 where
  pub after : ZBuffer
  pub memory : Memory
  pub result : outcome ≡ some (after, memory)
  pub longer : IsLonger z r after
  pub same_bytes : memory.bytes ≡ m.bytes

same_block-null : (p q : Ptr) → p ≡ none → q ≢ none → same_block p q ≡ false
same_block-null none none e ne = absurd (ne refl)
same_block-null none (some q) e ne = refl
same_block-null (some p) q e ne = cc

-- The reference before the first one is null in an empty ring: nothing merges with it.
no_merge_empty :
    (last r : BlockRef) → last.block ≡ none → r.block ≢ none → merge last r ≡ (false, last)
unfolding merge
no_merge_empty last r e ne = rw (same_block-null last.block r.block e ne)

-- The last reference of the ring takes the bytes of `r` over, or `r` goes behind it once there is
-- room.
abbrev Fits : ℕ → BlockRefArray → BlockRef → BlockRef → Type 0
Fits n a space r =
    ((last : BlockRef) × (merge (ref_at a (sub32 n 1)) r ≡ (true, last))
      × IsLonger (array n a space) r
          (array n (set_ref_at (count_bytes a r.length) (sub32 n 1) last) space))
    ⊎ ((merge (ref_at a (sub32 n 1)) r ≡ (false, ref_at a (sub32 n 1)))
        × ((room : BlockRefArray) (space' : BlockRef)
            → Kept n (count_bytes a r.length) room
            → IsLonger (array n a space) r (array (add32 n 1) (set_ref_at room n r) space')))

IsLonger-end :
    (n : ℕ) (a room : BlockRefArray) (space space' r : BlockRef)
    → IsArray n a
    → IsRef r
    → Kept n (count_bytes a r.length) room
    → IsLonger (array n a space) r (array (add32 n 1) (set_ref_at room n r) space')
IsLonger-end n a room space space' r v w kept =
    let e : add32 n 1 ≡ suc n = omega (arith, v.fits, IsRing-le a v.ring) in
    rw e (record {
      valid = filled_suc n (set_ref_at room n r) (set_end-IsFilled n a room r v.filled w kept);
      joined = λ bytes.
          window-set-Kept bytes n (count_bytes a r.length) room r kept
          ∙ ap (λ l. l ++ ref_bytes bytes r) (window-count bytes a r.length 0 n);
    })

fits_lem :
    (n : ℕ) (a : BlockRefArray) (space r : BlockRef)
    → IsArray n a
    → IsRef r
    → r.block ≢ none
    → Fits n a space r
fits_lem zero a space r v w ne = inr (
  no_merge_empty (ref_at a (sub32 0 1)) r (v.before refl) ne,
  λ room space' kept. IsLonger-end 0 a room space space' r v w kept,
)
fits_lem (suc k) a space r v w ne =
    let e : sub32 (suc k) 1 ≡ k = omega (arith, v.fits, IsRing-le a v.ring) in
    rw e (elim (merge-cases (ref_at a k) r (v.refs k (omega arith)) w) [
      | inl apart ↦
          inr (apart, λ room space' kept. IsLonger-end (suc k) a room space space' r v w kept)
      | inr (last, merged, valid, same, long, joined) ↦ inl (
        last,
        merged,
        record {
          valid = set_last-IsArray k a r last v w valid joined;
          joined = λ bytes. window-set_longer bytes k a r last v (joined bytes);
        },
      )
    ])

-- Both overloads leave the same buffer. Copying takes one more reference to the block than moving, or
-- moving drops the one that it was given.
abbrev pub Agree : BlockRef → Option (ZBuffer × Memory) → Option (ZBuffer × Memory) → Type 0
Agree r copy move =
    (z : ZBuffer) × (m : Memory) × (m' : Memory) × (copy ≡ some (z, m))
    × (move ≡ some (z, m'))
    × ((m ≡ inc_ref r.block m') ⊎ (m' ≡ release r m))

module _ (raw : BlockRef → ℕ → BlockRef) where
  room_lem :
      (n : ℕ) (a : BlockRefArray) (space : BlockRef) (m : Memory)
      → IsRing a
      → n ≤ a.cap_mask + 1
      → (a.cap_mask < n → CanDouble a × IsListed m)
      → (room : BlockRefArray) × (space' : BlockRef) × (m' : Memory) × (make_room raw n a space m
          ≡ some (room, space', m'))
        × Kept n a room
        × (m'.bytes ≡ m.bytes)
  unfolding make_room array_resize
  room_lem n a space m v fits grow = elim (Bool-cases (ltb a.cap_mask n)) [
    | inr enough ↦ (a, space, m, rw enough, Kept-refl n a v (ground arith), refl)
    | inl full ↦
        let (can, l) = grow (ground arith) in
        let (space', m', got, r) = acquire_lem (doubled a) m l in
        (
          copy_array a (doubled a) (raw space'),
          space',
          dec_ref space.block m',
          rw (full, got),
          record {
            ring = copy-IsRing a (raw space') v can.small;
            space = omega (arith, cap_mask-copy a (raw space') can.small);
            entries = λ i p. ref_at-copy a (raw space') i v can (omega arith);
            nbytes = refl;
          },
          bytes-dec_ref space.block m' ∙ r.same_bytes,
        )
  ]

  CanDouble-count : (a : BlockRefArray) (k : ℕ) → CanDouble a → CanDouble (count_bytes a k)
  CanDouble-count a k v = record { aligned = v.aligned; small = v.small }

  pub array_append_copy-Appends :
      (n : ℕ) (a : BlockRefArray) (space r : BlockRef) (m : Memory)
      → IsArray n a
      → CanGrow (array n a space) m
      → IsRef r
      → r.block ≢ none
      → Appends (array n a space) r m (array_append_copy raw n a space r m)
  unfolding array_append_copy
  array_append_copy-Appends n a space r m v grow w ne = elim (fits_lem n a space r v w ne) [
    | inl (last, merged, longer) ↦ record {
      after = array n (set_ref_at (count_bytes a r.length) (sub32 n 1) last) space;
      memory = m;
      result = rw merged;
      longer = longer;
      same_bytes = refl;
    }
    | inr (apart, longer) ↦
        let (room, space', m', made, kept, same) =
          room_lem n (count_bytes a r.length) space m (IsRing-count a r.length v.ring) v.fits
            (λ h. let (can, l) = grow h in (CanDouble-count a r.length can, l)) in
        record {
          after = array (add32 n 1) (set_ref_at room n r) space';
          memory = inc_ref r.block m';
          result = rw (apart, made);
          longer = longer room space' kept;
          same_bytes = bytes-inc_ref r.block m' ∙ same;
        }
  ]

  pub array_append_move-Appends :
      (n : ℕ) (a : BlockRefArray) (space r : BlockRef) (m : Memory)
      → IsArray n a
      → CanGrow (array n a space) m
      → IsRef r
      → r.block ≢ none
      → Appends (array n a space) r m (array_append_move raw n a space r m)
  unfolding array_append_move
  array_append_move-Appends n a space r m v grow w ne = elim (fits_lem n a space r v w ne) [
    | inl (last, merged, longer) ↦ record {
      after = array n (set_ref_at (count_bytes a r.length) (sub32 n 1) last) space;
      memory = release r m;
      result = rw merged;
      longer = longer;
      same_bytes = bytes-release r m;
    }
    | inr (apart, longer) ↦
        let (room, space', m', made, kept, same) =
          room_lem n (count_bytes a r.length) space m (IsRing-count a r.length v.ring) v.fits
            (λ h. let (can, l) = grow h in (CanDouble-count a r.length can, l)) in
        record {
          after = array (add32 n 1) (set_ref_at room n r) space';
          memory = m';
          result = rw (apart, made);
          longer = longer room space' kept;
          same_bytes = same;
        }
  ]

  pub array_append-Agree :
      (n : ℕ) (a : BlockRefArray) (space r : BlockRef) (m : Memory)
      → IsArray n a
      → CanGrow (array n a space) m
      → IsRef r
      → r.block ≢ none
      → Agree r (array_append_copy raw n a space r m) (array_append_move raw n a space r m)
  unfolding array_append_copy array_append_move
  array_append-Agree n a space r m v grow w ne = elim (fits_lem n a space r v w ne) [
    | inl (last, merged, longer) ↦
        let z = array n (set_ref_at (count_bytes a r.length) (sub32 n 1) last) space in
        (z, m, release r m, rw merged, rw merged, inr refl)
    | inr (apart, longer) ↦
        let (room, space', m', made, kept, same) =
          room_lem n (count_bytes a r.length) space m (IsRing-count a r.length v.ring) v.fits
            (λ h. let (can, l) = grow h in (CanDouble-count a r.length can, l)) in
        let z = array (add32 n 1) (set_ref_at room n r) space' in
        (z, inc_ref r.block m', m', rw (apart, made), rw (apart, made), inl refl)
  ]
