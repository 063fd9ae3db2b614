-- ===== src/ZBuffer/Buffer/ArrayPopn.antt =====
-- `array_popn`: the bytes come off the front of the ring, in order.
use p_base.Base.{
  ℕ, zero, suc, ◌+◌, ◌-◌, ◌^◌, ◌%◌, ◌≤◌, ◌<◌, ◌≡◌, refl, ap, ap₂, ◌∙◌, none, arith, ◌++◌, length,
  drop, add32, sub32, sub64, length-append, length-drop,
}
use p_base.ZBuffer.Block.{Memory}
use p_base.ZBuffer.Ref.{BlockRef, BlockRefArray, null_ref, ref_at, ring_index, ref_bytes}
use p_base.ZBuffer.Ref.Merge.{IsRef}
use p_base.ZBuffer.Ref.Ring.{IsRing-le, window}
use p_base.ZBuffer.Buffer.{array}
use p_base.ZBuffer.Buffer.Contents.{IsArray, length-ref_bytes}
use p_base.ZBuffer.Buffer.Read.{pop_loop, array_popn}
use p_base.ZBuffer.Buffer.PopLoop.{pop_loop-Popped}
use p_base.ZBuffer.Buffer.Pops.{Pops}

-- The ring as `array_popn` leaves it: `copied` bytes are gone, and it begins `i` places later.
abbrev shifted : BlockRefArray → ℕ → ℕ → BlockRefArray
shifted a i copied = record a { nbytes = sub64 a.nbytes copied; begin = add32 a.begin i }

ref_at-shifted :
    (a : BlockRefArray) (i copied j : ℕ) → ref_at (shifted a i copied) j ≡ ref_at a (i + j)
unfolding ref_at ring_index
ref_at-shifted a i copied j = ap (λ x. a.refs (x % (a.cap_mask + 1))) (omega arith)

-- One place before the start is the last place that was passed.
ref_at-before :
    (a : BlockRefArray) (i copied : ℕ) → ref_at (shifted a (suc i) copied) (sub32 0 1) ≡ ref_at a i
unfolding ref_at ring_index
ref_at-before a i copied = ap (λ x. a.refs (x % (a.cap_mask + 1))) (omega arith)

window-shifted :
    (bytes : ℕ → ℕ → ℕ) (a : BlockRefArray) (i copied k n : ℕ)
    → window bytes (shifted a i copied) k n ≡ window bytes a (i + k) n
window-shifted bytes a i copied k zero = refl
window-shifted bytes a i copied k (suc n) =
    ap₂ (λ r w. ref_bytes bytes r ++ w) (ref_at-shifted a i copied k)
      (window-shifted bytes a i copied (k + 1) n ∙ ap (λ x. window bytes a x n) (omega arith))

length-window_eq :
    (b c : ℕ → ℕ → ℕ) (a : BlockRefArray) (i n : ℕ)
    → ((j : ℕ) → j < n → IsRef (ref_at a (i + j)))
    → length (window b a i n) ≡ length (window c a i n)
length-window_eq b c a i zero h = refl
length-window_eq b c a i (suc n) h =
    let first = rw (let e : i + 0 ≡ i = omega arith in e) at (h 0 (omega arith)) in
    omega (
      arith,
      length-append (ref_bytes b (ref_at a i)) (window b a (i + 1) n),
      length-append (ref_bytes c (ref_at a i)) (window c a (i + 1) n),
      length-ref_bytes b (ref_at a i) first,
      length-ref_bytes c (ref_at a i) first,
      length-window_eq b c a (i + 1) n
          (λ j t. let e : i + suc j ≡ i + 1 + j = omega arith in rw e at (h (suc j) (omega arith))),
    )

-- In the empty ring, the place before the start is the last one used up, or was null already.
before_shifted :
    (n i copied : ℕ) (a a' : BlockRefArray)
    → IsArray n a
    → n ≤ i
    → (n ≡ 0 → a' ≡ a)
    → ((j : ℕ) → j < i → ref_at a' j ≡ null_ref)
    → (ref_at (shifted a' i copied) (sub32 0 1)).block ≡ none
before_shifted n (suc i) copied a a' v h idle nulls =
    ap (λ r. r.block) (ref_at-before a' i copied ∙ nulls i (omega arith))
before_shifted n zero copied a a' v h idle nulls =
    let none_left : n ≡ 0 = omega arith in
    ap (λ r. r.block)
      (ref_at-shifted a' 0 copied (sub32 0 1) ∙ ap₂ ref_at (idle none_left) (omega arith))
    ∙ v.before none_left

pub array_popn-Pops :
    (n : ℕ) (a : BlockRefArray) (space : BlockRef) (count : ℕ) (m : Memory)
    → IsArray n a
    → count < 2 ^ 63
    → Pops (array n a space) count m (array_popn n a space count m)
unfolding array_popn
array_popn-Pops n a space count m v h =
    let p =
      pop_loop-Popped n 0 count a m v.ring (omega (arith, v.fits))
        (λ j f t. v.refs j (omega arith)) in
    let (i, copied, out, a', m') = pop_loop n 0 count a m in
    let less : sub32 n i ≡ n - i = omega (arith, p.to, v.fits, IsRing-le a v.ring) in
    let left : (bytes : ℕ → ℕ → ℕ)
        → window bytes (shifted a' i copied) 0 (n - i) ≡ drop count (window bytes a 0 n) =
      λ bytes.
        window-shifted bytes a' i copied 0 (n - i)
        ∙ ap₂ (window bytes a') (omega arith) (omega arith)
        ∙ p.rest bytes in
    record {
      number = p.counted;
      taken = p.taken;
      rest = λ bytes. ap (window bytes (shifted a' i copied) 0) less ∙ left bytes;
      valid = rw less (record {
        filled = record {
          ring = record {
            log = v.ring.log;
            power = omega (arith, p.same_mask, v.ring.power);
            small = v.ring.small;
          };
          fits = omega (arith, p.same_mask, v.fits);
          refs =
              λ j t. rw (ref_at-shifted a' i copied j) (p.refs (i + j) (omega arith) (omega arith));
          counted = λ bytes. omega (
            arith,
            p.same_nbytes,
            v.counted bytes,
            p.counted,
            ap length (left bytes),
            length-drop count (window bytes a 0 n),
            length-window_eq m.bytes bytes a 0 n (λ j t. v.refs (0 + j) (omega arith)),
          );
        };
        before = λ z.
            before_shifted n i copied a a' v (omega arith) (λ e. p.idle e)
              (λ j t. p.nulls j (omega arith) t);
      });
      same_bytes = p.same_bytes;
    }
