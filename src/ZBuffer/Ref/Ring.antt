-- ===== src/ZBuffer/Ref/Ring.antt =====
-- The ring of references: what its window of `n` entries holds, and what writes leave alone.
use Prim.Native.Nat.{◌∣◌}
use native.Mathlib.Nat.{mod-mod_of_dvd, dvd_refl, dvd-mul_right_of_dvd, pow-suc, pow-le-pow_right}
use native.Mathlib.Decide.{dec_lt}
use p_base.Base.{
  ℕ, zero, suc, ◌+◌, ◌-◌, ◌^◌, ◌%◌, ◌≤◌, ◌<◌, ◌≡◌, ◌≢◌, refl, sym, ap, ap₂, ◌∙◌, arith, List, [],
  ◌++◌, append_assoc, append-nil,
}
use p_base.ZBuffer.Ref.{BlockRef, BlockRefArray, ring_index, ref_at, set_ref_at, ref_bytes}

-- The capacity is a power of two, and so divides 2 ^ 32: the sum `begin + i` may wrap.
pub record IsRing (a : BlockRefArray) : Type 0 where
  pub log : ℕ
  pub power : a.cap_mask + 1 ≡ 2 ^ log
  pub small : log ≤ 31

pow-dvd-pow : (k n : ℕ) → k ≤ n → 2 ^ k ∣ 2 ^ n
pow-dvd-pow k zero h = let e : k ≡ 0 = omega arith in rw e (dvd_refl (2 ^ 0))
pow-dvd-pow k (suc n) h = elim (dec_lt k (suc n)) [
  | yes p ↦ rw (pow-suc 2 n) (dvd-mul_right_of_dvd (2 ^ k) (pow-dvd-pow k n (omega arith)) 2)
  | no p ↦ (let e : k ≡ suc n = omega arith in rw e (dvd_refl (2 ^ suc n)))
]

IsRing-dvd : (a : BlockRefArray) → IsRing a → (a.cap_mask + 1) ∣ 2 ^ 32
IsRing-dvd a v = rw v.power (pow-dvd-pow v.log 32 (omega (arith, v.small)))

pub IsRing-le : (a : BlockRefArray) → IsRing a → a.cap_mask + 1 ≤ 2 ^ 31
IsRing-le a v = rw v.power (pow-le-pow_right {n = 2} (omega arith) v.small)

mod-add-ne : (x c d : ℕ) → 0 < d → d < c → x % c ≢ (x + d) % c
mod-add-ne x c d p q = grind arith

pub ring_index_lem :
    (a : BlockRefArray) (i : ℕ) → IsRing a → ring_index a i ≡ (a.begin + i) % (a.cap_mask + 1)
unfolding ring_index
ring_index_lem a i v = mod-mod_of_dvd (a.cap_mask + 1) (a.begin + i) (IsRing-dvd a v)

-- Places of the ring that are less than its capacity apart are different entries.
pub ring_index_ne :
    (a : BlockRefArray) (i d : ℕ)
    → IsRing a
    → 0 < d
    → d ≤ a.cap_mask
    → ring_index a i ≢ ring_index a (i + d)
ring_index_ne a i d v p q e = mod-add-ne (a.begin + i) (a.cap_mask + 1) d p (omega arith) (
    sym (ring_index_lem a i v)
    ∙ e
    ∙ ring_index_lem a (i + d) v
    ∙ ap (λ x. x % (a.cap_mask + 1)) (omega arith))

pub ref_at-set_self : (a : BlockRefArray) (i : ℕ) (r : BlockRef) → ref_at (set_ref_at a i r) i ≡ r
unfolding ref_at set_ref_at ring_index
ref_at-set_self a i r = ground arith

pub ref_at-set_ne :
    (a : BlockRefArray) (i j : ℕ) (r : BlockRef)
    → ring_index a i ≢ ring_index a j
    → ref_at (set_ref_at a i r) j ≡ ref_at a j
unfolding ref_at set_ref_at ring_index
ref_at-set_ne a i j r h = ground arith

-- The bytes of `n` entries from place `i` on.
abbrev pub window : (ℕ → ℕ → ℕ) → BlockRefArray → ℕ → ℕ → List ℕ
window bytes a i zero = []
window bytes a i (suc n) = ref_bytes bytes (ref_at a i) ++ window bytes a (i + 1) n

pub window-snoc :
    (bytes : ℕ → ℕ → ℕ) (a : BlockRefArray) (i n : ℕ)
    → window bytes a i (suc n) ≡ window bytes a i n ++ ref_bytes bytes (ref_at a (i + n))
window-snoc bytes a i zero =
    let e : i + 0 ≡ i = omega arith in rw (e, append-nil (ref_bytes bytes (ref_at a i)))
window-snoc bytes a i (suc n) =
    let e : i + suc n ≡ i + 1 + n = omega arith in
    rw
      (
        e,
        append_assoc (ref_bytes bytes (ref_at a i)) (window bytes a (i + 1) n)
            (ref_bytes bytes (ref_at a (i + 1 + n))),
      )
      (ap (λ l. ref_bytes bytes (ref_at a i) ++ l) (window-snoc bytes a (i + 1) n))

-- Two rings that agree on a window hold the same bytes in it.
pub window-eq :
    (bytes : ℕ → ℕ → ℕ) (a b : BlockRefArray) (i n : ℕ)
    → ((k : ℕ) → k < n → ref_at a (i + k) ≡ ref_at b (i + k))
    → window bytes a i n ≡ window bytes b i n
window-eq bytes a b i zero h = refl
window-eq bytes a b i (suc n) h =
    ap₂ (λ r l. ref_bytes bytes r ++ l)
      (let e : i + 0 ≡ i = omega arith in rw e at (h 0 (omega arith)))
      (window-eq bytes a b (i + 1) n
        (λ k p. let e : i + suc k ≡ i + 1 + k = omega arith in rw e at (h (suc k) (omega arith))))

-- An entry put right behind the window makes it one longer.
pub window-set_end :
    (bytes : ℕ → ℕ → ℕ) (a : BlockRefArray) (n : ℕ) (r : BlockRef)
    → IsRing a
    → n ≤ a.cap_mask
    → window bytes (set_ref_at a n r) 0 (suc n) ≡ window bytes a 0 n ++ ref_bytes bytes r
window-set_end bytes a n r v h =
    let b = set_ref_at a n r in
    let e : 0 + n ≡ n = omega arith in
    window-snoc bytes b 0 n
    ∙ ap₂ (λ w q. w ++ ref_bytes bytes q) (window-eq bytes b a 0 n (λ k p. kept k p))
        (rw e (ref_at-set_self a n r))
  where
    kept : (k : ℕ) → k < n → ref_at (set_ref_at a n r) (0 + k) ≡ ref_at a (0 + k)
    kept k p =
        let e : 0 + k + (n - k) ≡ n = omega arith in
        ref_at-set_ne a n (0 + k) r
          (λ q. ring_index_ne a (0 + k) (n - k) v (omega arith) (omega arith) (rw e (sym q)))

-- The last entry of the window is written anew.
pub window-set_last :
    (bytes : ℕ → ℕ → ℕ) (a : BlockRefArray) (n : ℕ) (r : BlockRef)
    → IsRing a
    → n ≤ a.cap_mask
    → (xs : List ℕ) → ref_bytes bytes r ≡ ref_bytes bytes (ref_at a n) ++ xs
    → window bytes (set_ref_at a n r) 0 (suc n) ≡ window bytes a 0 (suc n) ++ xs
window-set_last bytes a n r v h xs e =
    let z : 0 + n ≡ n = omega arith in
    window-set_end bytes a n r v h
    ∙ rw (window-snoc bytes a 0 n, z, e)
        (sym (append_assoc (window bytes a 0 n) (ref_bytes bytes (ref_at a n)) xs))
