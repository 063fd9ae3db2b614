-- ===== src/ZBuffer/Ref/Merge.antt =====
-- Reading a stretch of a block, and `BlockRef::merge`.
use p_base.Base.{
  ℕ, zero, suc, ◌+◌, ◌-◌, ◌^◌, ◌≤◌, ◌<◌, ◌≡◌, refl, ap₂, ◌∙◌, sym, true, false, none, some, arith,
  ◌++◌, length, take, drop, ◌&&◌, ◌==◌, add32, ◌⊎◌, inl, inr, Bool-cases, read, length-read,
  read-add, take-read, drop-read,
}
use p_base.ZBuffer.Block.{Ptr}
use p_base.ZBuffer.Ref.{BlockRef, null_ref, merge, same_block, read_ptr, ref_bytes}

-- A reference that `array()` cannot mistake for an array, and that ends below 2 ^ 31.
pub record IsRef (r : BlockRef) : Type 0 where
  pub small : r.offset + r.length < 2 ^ 31
  pub null_empty : r.block ≡ none → r.length ≡ 0

pub null_ref-IsRef : IsRef null_ref
null_ref-IsRef = record { small = omega arith; null_empty = λ _. refl }

-- A null pointer and a length of zero go together in all that is read.
pub length-read_ref :
    (bytes : ℕ → ℕ → ℕ) (p : Ptr) (i n : ℕ) → (p ≡ none → n ≡ 0) → length (read_ptr bytes p i n) ≡ n
length-read_ref bytes none i n h = sym (h refl)
length-read_ref bytes (some id) i n h = length-read (bytes id) i n

pub take-read_ptr :
    (bytes : ℕ → ℕ → ℕ) (p : Ptr) (i n k : ℕ)
    → k ≤ n
    → take k (read_ptr bytes p i n) ≡ read_ptr bytes p i k
take-read_ptr bytes none i n zero h = refl
take-read_ptr bytes none i n (suc k) h = refl
take-read_ptr bytes (some id) i n k h = take-read (bytes id) i n k h

pub drop-read_ptr :
    (bytes : ℕ → ℕ → ℕ) (p : Ptr) (i n k : ℕ)
    → k ≤ n
    → drop k (read_ptr bytes p i n) ≡ read_ptr bytes p (i + k) (n - k)
drop-read_ptr bytes none i n zero h = refl
drop-read_ptr bytes none i n (suc k) h = refl
drop-read_ptr bytes (some id) i n k h = drop-read (bytes id) i n k h

read-join :
    (bytes : ℕ → ℕ → ℕ) (p q : Ptr) (i a j b : ℕ)
    → same_block p q ≡ true
    → i + a ≡ j
    → read_ptr bytes p i (a + b) ≡ read_ptr bytes p i a ++ read_ptr bytes q j b
read-join bytes none none i a j b s e = refl
read-join bytes none (some q) i a j b s e = cc
read-join bytes (some p) none i a j b s e = cc
read-join bytes (some p) (some q) i a j b s e =
    let p-eq-q : p ≡ q = ground arith in
    read-add (bytes p) i a b ∙ ap₂ (λ k h. read (bytes p) i a ++ read (bytes k) h b) p-eq-q e

same_block-null : (p q : Ptr) → same_block p q ≡ true → p ≡ none → q ≡ none
same_block-null none none s e = refl
same_block-null none (some q) s e = cc
same_block-null (some p) q s e = cc

-- `merge` either refuses, and leaves the reference as it was, or makes it stand for its own
-- bytes and those of the other reference behind them.
pub merge-cases :
    (r rhs : BlockRef)
    → IsRef r
    → IsRef rhs
    → (merge r rhs ≡ (false, r))
      ⊎ ((r' : BlockRef) × (merge r rhs ≡ (true, r'))
          × IsRef r'
          × (r'.block ≡ r.block)
          × (r'.length ≡ r.length + rhs.length)
          × ((bytes : ℕ → ℕ → ℕ) → ref_bytes bytes r' ≡ ref_bytes bytes r ++ ref_bytes bytes rhs))
unfolding merge
merge-cases r rhs v w =
    elim (Bool-cases (same_block r.block rhs.block && add32 r.offset r.length == rhs.offset)) [
      | inr e ↦ inl (rw e)
      | inl e ↦
          let same : same_block r.block rhs.block ≡ true = ground arith in
          let next : r.offset + r.length ≡ rhs.offset = ground arith in
          let sum : add32 r.length rhs.length ≡ r.length + rhs.length = omega arith in
          inr (
            record r { length = add32 r.length rhs.length },
            rw e,
            record {
              small = omega arith;
              null_empty = λ z.
                  omega (
                    arith,
                    v.null_empty z,
                    w.null_empty (same_block-null r.block rhs.block same z),
                  );
            },
            refl,
            sum,
            λ bytes. rw sum (
                read-join bytes r.block rhs.block r.offset r.length rhs.offset rhs.length same
                  next),
          )
    ]
