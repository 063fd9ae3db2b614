-- ===== src/ZBuffer/Buffer/Below.antt =====
-- What a buffer stands for where characters are written into a block behind all its references.
use p_base.Base.{
  ℕ, zero, suc, ◌+◌, ◌≤◌, ◌<◌, ◌≡◌, refl, ap, ap₂, subst, inl, inr, true, none, some, arith, List,
  ◌++◌, length, ◌==◌, Bool-cases, read, read-write_self, read-write_below, write-below,
}
use p_base.ZBuffer.Block.{Ptr}
use p_base.ZBuffer.Ref.{BlockRef, BlockRefArray, ref_at, ref_bytes}
use p_base.ZBuffer.Ref.Ring.{window}
use p_base.ZBuffer.Buffer.{ZBuffer, simple, array}
use p_base.ZBuffer.Buffer.Contents.{contents}
use p_base.ZBuffer.Buffer.Write.{write_block}

-- A reference into block `id` ends at `limit` or before.
abbrev pub IsBelow : ℕ → ℕ → BlockRef → Type 0
IsBelow id limit r = r.block ≡ some id → r.offset + r.length ≤ limit

-- So do all references of a buffer.
abbrev pub AreBelow : ℕ → ℕ → ZBuffer → Type 0
AreBelow id limit (simple f s) = IsBelow id limit f × IsBelow id limit s
AreBelow id limit (array n a space) = (i : ℕ) → i < n → IsBelow id limit (ref_at a i)

module _ (id limit : ℕ) (text : List ℕ) (bytes : ℕ → ℕ → ℕ) where
  read_ref-write :
      (p : Ptr) (i n : ℕ)
      → (p ≡ some id → i + n ≤ limit)
      → ref_bytes (write_block id limit text bytes) (record { offset = i; length = n; block = p })
        ≡ ref_bytes bytes (record { offset = i; length = n; block = p })
  read_ref-write none i n h = refl
  read_ref-write (some j) i n h = elim (Bool-cases (j == id)) [
    | inl e ↦
        let same : j ≡ id = ground arith in
        rw e (read-write_below (bytes j) limit text i n (h (ap some same)))
    | inr e ↦ rw e refl
  ]

  ref_bytes-write :
      (r : BlockRef)
      → IsBelow id limit r
      → ref_bytes (write_block id limit text bytes) r ≡ ref_bytes bytes r
  ref_bytes-write r h = read_ref-write r.block r.offset r.length h

  window-write :
      (a : BlockRefArray) (i n : ℕ)
      → ((k : ℕ) → k < n → IsBelow id limit (ref_at a (i + k)))
      → window (write_block id limit text bytes) a i n ≡ window bytes a i n
  window-write a i zero h = refl
  window-write a i (suc n) h =
      ap₂ (λ x y. x ++ y)
        (let e : i + 0 ≡ i = omega arith in
          ref_bytes-write (ref_at a i)
            (subst (λ k. IsBelow id limit (ref_at a k)) (e) (h 0 (omega arith))))
        (window-write a (i + 1) n (λ k p.
          let e : i + suc k ≡ i + 1 + k = omega arith in
          subst (λ k. IsBelow id limit (ref_at a k)) (e) (h (suc k) (omega arith))))

  -- Writing behind all references changes nothing that the buffer stands for.
  pub contents-write :
      (z : ZBuffer)
      → AreBelow id limit z
      → contents (write_block id limit text bytes) z ≡ contents bytes z
  contents-write (simple f s) h =
      ap₂ (λ x y. x ++ y) (ref_bytes-write f h.0) (ref_bytes-write s h.1)
  contents-write (array n a space) h =
      window-write a 0 n (λ k p. let e : 0 + k ≡ k = omega arith in rw e (h k p))

-- The characters are read back by a reference to them.
pub written :
    (id offset n : ℕ) (text : List ℕ) (bytes : ℕ → ℕ → ℕ)
    → length text ≡ n
    → read (write_block id offset text bytes id) offset n ≡ text
written id offset n text bytes e =
    let self : id == id ≡ true = ground arith in
    rw self (rw (← e) (read-write_self (bytes id) offset text))

pub untouched :
    (id offset : ℕ) (text : List ℕ) (bytes : ℕ → ℕ → ℕ) (j i : ℕ)
    → (j ≡ id → i < offset)
    → write_block id offset text bytes j i ≡ bytes j i
untouched id offset text bytes j i out = elim (Bool-cases (j == id)) [
  | inl e ↦ rw e (write-below (bytes j) offset text i (out (ground arith)))
  | inr e ↦ rw e refl
]
