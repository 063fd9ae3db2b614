-- ===== src/ZBuffer/Buffer/Resize.antt =====
-- `array_resize`: the entries are copied to the same places of the larger array, and found again
-- exactly where the ring begins at a multiple of the new capacity.
use native.Mathlib.Nat.{pow-suc, mod-eq_of_lt, mod-add-mod, mod-mod_of_dvd, dvd-mul_left}
use native.Mathlib.Decide.{dec_lt, ℕ_discrete}
use p_base.Base.{
  ℕ, suc, ◌+◌, ◌-◌, ◌*◌, ◌^◌, ◌%◌, ◌≤◌, ◌<◌, ◌≡◌, ◌≢◌, ◌⊎◌, inl, inr, refl, sym, ap, ap₂, ◌∙◌,
  arith, add32,
}
use p_base.ZBuffer.Ref.{BlockRef, BlockRefArray, ring_index, ref_at, copy_array}
use p_base.ZBuffer.Ref.Ring.{IsRing, ring_index_lem}

abbrev pub doubled : BlockRefArray → ℕ
doubled a = add32 a.cap_mask 1 * 2 % 2 ^ 32

-- The ring starts at a multiple of the doubled capacity, and that fits 32 bits.
pub record CanDouble (a : BlockRefArray) : Type 0 where
  pub aligned : a.begin % (2 * (a.cap_mask + 1)) ≡ 0
  pub small : a.cap_mask + 1 < 2 ^ 31

pub doubled_lem : (a : BlockRefArray) → a.cap_mask + 1 < 2 ^ 31 → doubled a ≡ 2 * (a.cap_mask + 1)
doubled_lem a h = omega arith

log-lt : (k : ℕ) → k ≤ 31 → 2 ^ k < 2 ^ 31 → k ≤ 30
log-lt k h p = elim (dec_lt k 31) [
  | yes q ↦ omega arith
  | no q ↦ (let e : k ≡ 31 = omega arith in absurd (omega (arith, rw e at p)))
]

pub copy-IsRing :
    (a : BlockRefArray) (raw : ℕ → BlockRef)
    → IsRing a
    → a.cap_mask + 1 < 2 ^ 31
    → IsRing (copy_array a (doubled a) raw)
unfolding copy_array
copy-IsRing a raw v h = record {
  log = suc v.log;
  power = omega (arith, v.power, doubled_lem a h, pow-suc 2 v.log);
  small = omega (arith, log-lt v.log v.small (rw v.power at h));
}

pub cap_mask-copy :
    (a : BlockRefArray) (raw : ℕ → BlockRef)
    → a.cap_mask + 1 < 2 ^ 31
    → (copy_array a (doubled a) raw).cap_mask + 1 ≡ 2 * (a.cap_mask + 1)
unfolding copy_array
cap_mask-copy a raw h = omega (arith, doubled_lem a h)

-- Where an entry of the copy lies, seen from the remainder at which the ring begins.
ring_index-copy :
    (a : BlockRefArray) (raw : ℕ → BlockRef) (i : ℕ)
    → IsRing a
    → a.cap_mask + 1 < 2 ^ 31
    → ring_index (copy_array a (doubled a) raw) i
      ≡ (a.begin % (2 * (a.cap_mask + 1)) + i) % (2 * (a.cap_mask + 1))
unfolding copy_array
ring_index-copy a raw i v h =
    ring_index_lem (copy_array a (doubled a) raw) i (copy-IsRing a raw v h)
    ∙ ap₂ (λ b c. (b + i) % c) (begin-copy a raw) (cap_mask-copy a raw h)
    ∙ sym (mod-add-mod a.begin (2 * (a.cap_mask + 1)) i)
  where
    begin-copy :
        (b : BlockRefArray) (r : ℕ → BlockRef) → (copy_array b (doubled b) r).begin ≡ b.begin
    begin-copy b r = refl

refs-copy_inside :
    (a : BlockRefArray) (raw : ℕ → BlockRef) (j : ℕ)
    → j ≤ a.cap_mask
    → (copy_array a (doubled a) raw).refs j ≡ a.refs j
unfolding copy_array
refs-copy_inside a raw j p = ground arith

refs-copy_outside :
    (a : BlockRefArray) (raw : ℕ → BlockRef) (j : ℕ)
    → a.cap_mask < j
    → (copy_array a (doubled a) raw).refs j ≡ raw j
unfolding copy_array
refs-copy_outside a raw j p = ground arith

index-old :
    (a : BlockRefArray) (i : ℕ) → IsRing a → CanDouble a → i ≤ a.cap_mask → ring_index a i ≡ i
index-old a i v h p =
    ring_index_lem a i v
    ∙ sym (mod-add-mod a.begin (a.cap_mask + 1) i)
    ∙ ap (λ b. (b + i) % (a.cap_mask + 1)) start
    ∙ mod-eq_of_lt {n = 0 + i} (omega arith)
    ∙ omega arith
  where
    start : a.begin % (a.cap_mask + 1) ≡ 0
    start =
        sym (mod-mod_of_dvd (a.cap_mask + 1) a.begin (dvd-mul_left (a.cap_mask + 1) 2))
        ∙ ap (λ b. b % (a.cap_mask + 1)) h.aligned
        ∙ mod-eq_of_lt (omega arith)

index-copy :
    (a : BlockRefArray) (raw : ℕ → BlockRef) (i : ℕ)
    → IsRing a
    → CanDouble a
    → i ≤ a.cap_mask
    → ring_index (copy_array a (doubled a) raw) i ≡ i
index-copy a raw i v h p =
    ring_index-copy a raw i v h.small
    ∙ ap (λ b. (b + i) % (2 * (a.cap_mask + 1))) h.aligned
    ∙ mod-eq_of_lt {n = 0 + i} (omega arith)
    ∙ omega arith

-- Where the ring begins at a multiple of the new capacity, every entry of it is found again in
-- the copy of twice the size.
pub ref_at-copy :
    (a : BlockRefArray) (raw : ℕ → BlockRef) (i : ℕ)
    → IsRing a
    → CanDouble a
    → i ≤ a.cap_mask
    → ref_at (copy_array a (doubled a) raw) i ≡ ref_at a i
unfolding ref_at
ref_at-copy a raw i v h p =
    ap (copy_array a (doubled a) raw).refs (index-copy a raw i v h p)
    ∙ refs-copy_inside a raw i p
    ∙ ap a.refs (sym (index-old a i v h p))

-- Where a full ring begins anywhere else, growing it loses entries: some entry `i` of it is read
-- afterwards from a place that the copy never wrote, and so is whatever the memory held there.
resize_loses :
    (a : BlockRefArray) (raw : ℕ → BlockRef)
    → IsRing a
    → a.cap_mask + 1 < 2 ^ 31
    → a.begin % (2 * (a.cap_mask + 1)) ≢ 0
    → (i : ℕ) × (i ≤ a.cap_mask)
      × (j : ℕ) × (a.cap_mask < j)
      × (ref_at (copy_array a (doubled a) raw) i ≡ raw j)
unfolding ref_at
resize_loses a raw v h ne = elim (dec_lt (a.begin % (2 * cap)) cap) [
  | yes p ↦ lost (cap - a.begin % (2 * cap)) (omega arith) (omega arith) (omega arith)
  | no p ↦ lost 0 (omega arith) (omega arith) (omega arith)
]
  where
    cap : ℕ
    cap = a.cap_mask + 1

    lost :
        (i : ℕ)
        → i ≤ a.cap_mask
        → cap ≤ a.begin % (2 * cap) + i
        → a.begin % (2 * cap) + i < 2 * cap
        → (i : ℕ) × (i ≤ a.cap_mask)
          × (j : ℕ) × (a.cap_mask < j)
          × ((copy_array a (doubled a) raw).refs (ring_index (copy_array a (doubled a) raw) i)
              ≡ raw j)
    lost i p q r = (
      i,
      p,
      a.begin % (2 * cap) + i,
      omega arith,
      ap (copy_array a (doubled a) raw).refs (ring_index-copy a raw i v h ∙ mod-eq_of_lt r)
          ∙ refs-copy_outside a raw (a.begin % (2 * cap) + i) (omega arith),
    )

-- Growing a full ring: where it begins at a multiple of the new capacity, every entry is found again,
-- and where it begins anywhere else, some entry is read from a place that the copy never wrote.
pub ref_at-copy_cases :
    (a : BlockRefArray) (raw : ℕ → BlockRef)
    → IsRing a
    → a.cap_mask + 1 < 2 ^ 31
    → ((a.begin % (2 * (a.cap_mask + 1)) ≡ 0)
        × ((i : ℕ) → i ≤ a.cap_mask → ref_at (copy_array a (doubled a) raw) i ≡ ref_at a i))
      ⊎ ((a.begin % (2 * (a.cap_mask + 1)) ≢ 0)
          × ((i : ℕ) × (i ≤ a.cap_mask)
              × (j : ℕ) × (a.cap_mask < j)
              × (ref_at (copy_array a (doubled a) raw) i ≡ raw j)))
ref_at-copy_cases a raw v h = elim (ℕ_discrete (a.begin % (2 * (a.cap_mask + 1))) 0) [
  | yes e ↦ inl (e, λ i p. ref_at-copy a raw i v (record { aligned = e; small = h }) p)
  | no ne ↦ inr (ne, resize_loses a raw v h ne)
]
