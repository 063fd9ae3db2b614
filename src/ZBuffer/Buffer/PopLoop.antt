-- ===== src/ZBuffer/Buffer/PopLoop.antt =====
-- The loop of `array_popn`.
use p_base.Base.{
  ℕ, zero, suc, ◌+◌, ◌-◌, ◌^◌, ◌%◌, ◌≤◌, ◌<◌, ◌≡◌, refl, sym, ap, ap₂, ◌∙◌, inl, inr, arith, List,
  [], ◌++◌, length, take, drop, min, add32, sub32, Bool-cases, ltb, take-append_le, drop-append_le,
  take-append_ge, drop-append_ge, length-append, take-all, drop-all,
}
use native.Mathlib.Decide.{ℕ_discrete}
use p_base.ZBuffer.Block.{Memory}
use p_base.ZBuffer.Ref.{
  BlockRef, BlockRefArray, null_ref, release, ref_at, set_ref_at, ref_bytes, read_ref,
}
use p_base.ZBuffer.Ref.Merge.{IsRef, take-read_ptr, drop-read_ptr}
use p_base.ZBuffer.Ref.Reserve.{bytes-release}
use p_base.ZBuffer.Ref.Ring.{IsRing, window, window-eq, ref_at-set_self}
use p_base.ZBuffer.Buffer.Contents.{length-ref_bytes}
use p_base.ZBuffer.Buffer.Entries.{
  ref_at-set_other, IsRing-set, nbytes-set, cap_mask-set, begin-set,
}
use p_base.ZBuffer.Buffer.Read.{advance, pop_loop}

-- A reference that is not used up: its first bytes are the ones taken, and it keeps the others.
pub advance_lem :
    (r : BlockRef) (count : ℕ)
    → IsRef r
    → count < r.length
    → IsRef (advance r count)
      × ((advance r count).length ≡ r.length - count)
      × ((bytes : ℕ → ℕ → ℕ)
          → (read_ref bytes r count ≡ take count (ref_bytes bytes r))
            × (ref_bytes bytes (advance r count) ≡ drop count (ref_bytes bytes r)))
advance_lem r count v h =
    let e : add32 r.offset count ≡ r.offset + count = omega (arith, v.small) in
    let e' : sub32 r.length (count % 2 ^ 32) ≡ r.length - count = omega (arith, v.small) in
    (
      record {
        small = omega (arith, v.small);
        null_empty = λ z. absurd (omega (arith, v.null_empty z));
      },
      e',
      λ bytes. (
        sym (take-read_ptr bytes r.block r.offset r.length count (omega arith)),
        rw (e, e') (sym (drop-read_ptr bytes r.block r.offset r.length count (omega arith))),
      ),
    )

-- What the loop does from place `i` on, with `left` entries before it.
pub record Popped (left i count : ℕ) (a : BlockRefArray) (m : Memory)
    (res : ℕ × ℕ × List ℕ × BlockRefArray × Memory) : Type 0 where
  pub from : i ≤ res.0
  pub to : res.0 ≤ i + left
  pub taken : res.2 ≡ take count (window m.bytes a i left)
  pub counted : res.1 ≡ min count (length (window m.bytes a i left))
  pub rest :
      (bytes : ℕ → ℕ → ℕ)
      → window bytes res.3 res.0 (i + left - res.0) ≡ drop count (window bytes a i left)
  pub refs : (j : ℕ) → res.0 ≤ j → j < i + left → IsRef (ref_at res.3 j)
  pub nulls : (j : ℕ) → i ≤ j → j < res.0 → ref_at res.3 j ≡ null_ref
  pub before : (j : ℕ) → j < i → ref_at res.3 j ≡ ref_at a j
  pub idle : left ≡ 0 → res.3 ≡ a
  pub same_mask : res.3.cap_mask ≡ a.cap_mask
  pub same_begin : res.3.begin ≡ a.begin
  pub same_nbytes : res.3.nbytes ≡ a.nbytes
  pub same_bytes : res.4.bytes ≡ m.bytes

Popped-none : (i count : ℕ) (a : BlockRefArray) (m : Memory) → Popped 0 i count a m (i, 0, [], a, m)
Popped-none i count a m = record {
  from = omega arith;
  to = omega arith;
  taken = sym (take-all count [] (omega arith));
  counted = omega arith;
  rest =
      λ bytes. let e : i + 0 - i ≡ 0 = omega arith in rw e (sym (drop-all count [] (omega arith)));
  refs = λ j p q. absurd (omega arith);
  nulls = λ j p q. absurd (omega arith);
  before = λ j p. refl;
  idle = λ z. refl;
  same_mask = refl;
  same_begin = refl;
  same_nbytes = refl;
  same_bytes = refl;
}

-- What is written at the first entry leaves the rest of the window alone.
window-set_start :
    (bytes : ℕ → ℕ → ℕ) (a : BlockRefArray) (i left : ℕ) (r : BlockRef)
    → IsRing a
    → i + suc left ≤ a.cap_mask + 1
    → window bytes (set_ref_at a i r) (i + 1) left ≡ window bytes a (i + 1) left
window-set_start bytes a i left r v fits =
    window-eq bytes (set_ref_at a i r) a (i + 1) left
      (λ k p. ref_at-set_other a i (i + 1 + k) r v (omega arith) (omega arith) (omega arith))

-- The loop stops inside entry `i`.
Popped-inside :
    (left i count : ℕ) (a : BlockRefArray) (m : Memory)
    → IsRing a
    → i + suc left ≤ a.cap_mask + 1
    → ((j : ℕ) → i ≤ j → j < i + suc left → IsRef (ref_at a j))
    → count < (ref_at a i).length
    → Popped (suc left) i count a m (
      i,
      count,
      read_ref m.bytes (ref_at a i) count,
      set_ref_at a i (advance (ref_at a i) count),
      m,
    )
Popped-inside left i count a m v fits refs h =
    let r = ref_at a i in
    let u = refs i (omega arith) (omega arith) in
    let (valid, shorter, split) = advance_lem r count u h in
    let long = length-ref_bytes m.bytes r u in
    record {
      from = omega arith;
      to = omega arith;
      taken =
          (split m.bytes).0
          ∙ sym (
              take-append_le count (ref_bytes m.bytes r) (window m.bytes a (i + 1) left)
                (omega arith));
      counted = omega (arith, length-append (ref_bytes m.bytes r) (window m.bytes a (i + 1) left));
      rest = λ bytes.
          let e : i + suc left - i ≡ suc left = omega arith in
          rw e (
            ap₂ (λ q w. ref_bytes bytes q ++ w) (ref_at-set_self a i (advance r count))
              (window-set_start bytes a i left (advance r count) v fits)
            ∙ ap (λ l. l ++ window bytes a (i + 1) left) (split bytes).1
            ∙ sym (
                drop-append_le count (ref_bytes bytes r) (window bytes a (i + 1) left)
                  (omega (arith, length-ref_bytes bytes r u))));
      refs = λ j p q. elim (ℕ_discrete j i) [
        | yes e ↦ rw (e, ref_at-set_self a i (advance r count)) valid
        | no ne ↦
            rw
              (ref_at-set_other a i j (advance r count) v (omega arith) (omega arith)
                (λ e. ne (sym e)))
              (refs j p q)
      ];
      nulls = λ j p q. absurd (omega arith);
      before = λ j p.
          ref_at-set_other a i j (advance r count) v (omega arith) (omega arith) (omega arith);
      idle = λ z. absurd (omega arith);
      same_mask = cap_mask-set a i (advance r count);
      same_begin = begin-set a i (advance r count);
      same_nbytes = nbytes-set a i (advance r count);
      same_bytes = refl;
    }

-- Entry `i` is used up, and the loop goes on.
Popped-whole :
    (left i count : ℕ) (a : BlockRefArray) (m : Memory)
    (res : ℕ × ℕ × List ℕ × BlockRefArray × Memory)
    → IsRing a
    → i + suc left ≤ a.cap_mask + 1
    → IsRef (ref_at a i)
    → (ref_at a i).length ≤ count
    → Popped left
        (i + 1)
        (count - (ref_at a i).length)
        (set_ref_at a i null_ref)
        (release (ref_at a i) m)
        res
    → Popped
        (suc left)
        i
        count
        a
        m
        (res.0, (ref_at a i).length + res.1, ref_bytes m.bytes (ref_at a i) ++ res.2, res.3, res.4)
Popped-whole left i count a m res v fits u h p =
    let r = ref_at a i in
    let end : i + suc left ≡ i + 1 + left = omega arith in
    let same = bytes-release r m in
    let long = length-ref_bytes m.bytes r u in
    let view : window (release r m).bytes (set_ref_at a i null_ref) (i + 1) left
        ≡ window m.bytes a (i + 1) left =
      ap (λ b. window b (set_ref_at a i null_ref) (i + 1) left) same
      ∙ window-set_start m.bytes a i left null_ref v fits in
    record {
      from = omega (arith, p.from);
      to = omega (arith, p.to);
      taken =
          ap (λ l. ref_bytes m.bytes r ++ l) (p.taken ∙ ap (take (count - r.length)) view)
          ∙ sym (
              rw long at (
                take-append_ge count (ref_bytes m.bytes r) (window m.bytes a (i + 1) left)
                  (omega arith)));
      counted = omega (
        arith,
        length-append (ref_bytes m.bytes r) (window m.bytes a (i + 1) left),
        p.counted,
        ap length view,
        long,
      );
      rest = λ bytes.
          let long' = length-ref_bytes bytes r u in
          ap (λ e. window bytes res.3 res.0 (e - res.0)) end
          ∙ p.rest bytes
          ∙ ap (drop (count - r.length)) (window-set_start bytes a i left null_ref v fits)
          ∙ sym (
              rw long' at (
                drop-append_ge count (ref_bytes bytes r) (window bytes a (i + 1) left)
                  (omega arith)));
      refs = λ j f t. p.refs j f (omega arith);
      nulls = λ j f t. elim (ℕ_discrete j i) [
        | yes e ↦ rw e (p.before i (omega arith) ∙ ref_at-set_self a i null_ref)
        | no ne ↦ p.nulls j (omega arith) t
      ];
      before = λ j t.
          p.before j (omega arith)
          ∙ ref_at-set_other a i j null_ref v (omega arith) (omega arith) (omega arith);
      idle = λ z. absurd (omega arith);
      same_mask = p.same_mask ∙ cap_mask-set a i null_ref;
      same_begin = p.same_begin ∙ begin-set a i null_ref;
      same_nbytes = p.same_nbytes ∙ nbytes-set a i null_ref;
      same_bytes = p.same_bytes ∙ same;
    }

pub pop_loop-Popped :
    (left i count : ℕ) (a : BlockRefArray) (m : Memory)
    → IsRing a
    → i + left ≤ a.cap_mask + 1
    → ((j : ℕ) → i ≤ j → j < i + left → IsRef (ref_at a j))
    → Popped left i count a m (pop_loop left i count a m)
unfolding pop_loop
pop_loop-Popped zero i count a m v fits refs = Popped-none i count a m
pop_loop-Popped (suc left) i count a m v fits refs =
    elim (Bool-cases (ltb count (ref_at a i).length)) [
      | inl inside ↦ rw inside (Popped-inside left i count a m v fits refs (ground arith))
      | inr whole ↦ rw whole (
          Popped-whole left i count a m _ v fits (refs i (omega arith) (omega arith)) (ground arith)
            (pop_loop-Popped left (i + 1) (count - (ref_at a i).length) (set_ref_at a i null_ref)
              (release (ref_at a i) m) (IsRing-set a i null_ref v)
              (omega (arith, cap_mask-set a i null_ref))
              (λ j p q.
                rw (ref_at-set_other a i j null_ref v (omega arith) (omega arith) (omega arith))
                  (refs j (omega arith) (omega arith)))))
    ]
