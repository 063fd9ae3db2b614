-- ===== src/ZBuffer/Buffer/CopyFront.antt =====
-- `copy_front` reads what `popn` would take.
use p_base.Base.{
  ℕ, zero, suc, ◌+◌, ◌-◌, ◌≤◌, ◌<◌, ◌≡◌, sym, ap, ◌∙◌, arith, inl, inr, List, [], ◌++◌, length,
  take, min, Bool-cases, leb, take-append_le, take-append_ge, length-append, take-all,
}
use p_base.ZBuffer.Ref.{BlockRef, BlockRefArray, ref_at, ref_bytes, read_ref}
use p_base.ZBuffer.Ref.Merge.{IsRef, take-read_ptr}
use p_base.ZBuffer.Ref.Ring.{window}
use p_base.ZBuffer.Buffer.{ZBuffer, simple, array}
use p_base.ZBuffer.Buffer.Contents.{contents, IsBuffer, length-ref_bytes}
use p_base.ZBuffer.Buffer.Read.{copy_loop, copy_front}

-- A reference, and what follows it: the cut falls inside, or behind.
module _ (bytes : ℕ → ℕ → ℕ) (r : BlockRef) (v : IsRef r) (count : ℕ) (more : List ℕ) where
  inside :
      count ≤ r.length
      → (read_ref bytes r count ≡ take count (ref_bytes bytes r ++ more))
        × (count ≡ min count (length (ref_bytes bytes r ++ more)))
  inside h =
      let long = length-ref_bytes bytes r v in
      (
        sym (
            take-append_le count (ref_bytes bytes r) more (omega arith)
            ∙ take-read_ptr bytes r.block r.offset r.length count h),
        omega (arith, length-append (ref_bytes bytes r) more),
      )

  behind :
      r.length ≤ count
      → (ref_bytes bytes r ++ take (count - r.length) more ≡ take count (ref_bytes bytes r ++ more))
        × (r.length + min (count - r.length) (length more)
            ≡ min count (length (ref_bytes bytes r ++ more)))
  behind h =
      let long = length-ref_bytes bytes r v in
      (
        sym (rw long at (take-append_ge count (ref_bytes bytes r) more (omega arith))),
        omega (arith, length-append (ref_bytes bytes r) more),
      )

abbrev IsFront : List ℕ → ℕ → ℕ × List ℕ → Type 0
IsFront xs count res = (res.1 ≡ take count xs) × (res.0 ≡ min count (length xs))

copy_loop-IsFront :
    (bytes : ℕ → ℕ → ℕ) (left i count : ℕ) (a : BlockRefArray)
    → ((j : ℕ) → j < left → IsRef (ref_at a (i + j)))
    → IsFront (window bytes a i left) count (copy_loop bytes left i count a)
unfolding copy_loop
copy_loop-IsFront bytes zero i count a refs = (sym (take-all count [] (omega arith)), omega arith)
copy_loop-IsFront bytes (suc left) i count a refs =
    let r = ref_at a i in
    let more = window bytes a (i + 1) left in
    let u : IsRef r = (let e : i + 0 ≡ i = omega arith in rw e at (refs 0 (omega arith))) in
    let (bs, k) = copy_loop-IsFront bytes left (i + 1) (count - r.length) a (λ j t.
      let e : i + suc j ≡ i + 1 + j = omega arith in rw e at (refs (suc j) (omega arith))) in
    elim (Bool-cases (leb count r.length)) [
      | inl fits ↦ rw fits (inside bytes r u count more (ground arith))
      | inr past ↦
          let (joined, sum) = behind bytes r u count more (ground arith) in
          rw past (ap (λ l. ref_bytes bytes r ++ l) bs ∙ joined, ap (λ n. r.length + n) k ∙ sum)
    ]

-- `copy_front` copies out the first `count` bytes, or all that there are, and returns their
-- number, whichever form the buffer has.
pub copy_front_lem :
    (bytes : ℕ → ℕ → ℕ) (z : ZBuffer) (count : ℕ)
    → IsBuffer z
    → (copy_front bytes z count).1 ≡ take count (contents bytes z)
      × ((copy_front bytes z count).0 ≡ min count (length (contents bytes z)))
unfolding copy_front
copy_front_lem bytes (array n a space) count v =
    copy_loop-IsFront bytes n 0 count a
      (λ j t. let e : 0 + j ≡ j = omega arith in rw e (v.refs j t))
copy_front_lem bytes (simple f s) count (v, w, _) = elim (Bool-cases (leb count f.length)) [
  | inl fits ↦ rw fits (inside bytes f v count (ref_bytes bytes s) (ground arith))
  | inr past ↦
      let (joined, sum) = behind bytes f v count (ref_bytes bytes s) (ground arith) in
      rw past (elim (Bool-cases (leb (count - f.length) s.length)) [
        | inl fits ↦ rw fits (
          ap (λ l. ref_bytes bytes f ++ l)
                (sym
                  (take-read_ptr bytes s.block s.offset s.length (count - f.length) (ground arith)))
              ∙ joined,
          ap (λ n. f.length + n) (ground (arith, length-ref_bytes bytes s w)) ∙ sum,
        )
        | inr all ↦ rw all (
          ap (λ l. ref_bytes bytes f ++ l)
                (sym (
                  take-all (count - f.length) (ref_bytes bytes s)
                    (ground (arith, length-ref_bytes bytes s w))))
              ∙ joined,
          ap (λ n. f.length + n) (ground (arith, length-ref_bytes bytes s w)) ∙ sum,
        )
      ])
]
