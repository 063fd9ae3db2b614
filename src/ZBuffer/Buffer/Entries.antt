-- ===== src/ZBuffer/Buffer/Entries.antt =====
-- Writing an entry of the ring: the last one anew, and one behind it.
use p_base.Base.{
  ℕ, suc, ◌+◌, ◌-◌, ◌≤◌, ◌<◌, ◌≡◌, ◌≢◌, refl, sym, ap, ◌∙◌, arith, ◌++◌, length, length-append,
  add64,
}
use native.Mathlib.Decide.{dec_lt}
use p_base.ZBuffer.Ref.{BlockRef, BlockRefArray, ring_index, ref_at, set_ref_at, ref_bytes}
use p_base.ZBuffer.Ref.Merge.{IsRef}
use p_base.ZBuffer.Ref.Ring.{
  IsRing, window, window-eq, window-set_end, window-set_last, ref_at-set_self, ref_at-set_ne,
  ring_index_ne,
}
use p_base.ZBuffer.Buffer.Contents.{IsFilled, IsArray, filled_suc, length-ref_bytes}

abbrev pub count_bytes : BlockRefArray → ℕ → BlockRefArray
count_bytes a k = record a { nbytes = add64 a.nbytes k }

-- Writing entry `i` leaves entry `j` alone, both in one turn of the ring.
pub ref_at-set_other :
    (a : BlockRefArray) (i j : ℕ) (r : BlockRef)
    → IsRing a
    → i ≤ a.cap_mask
    → j ≤ a.cap_mask
    → i ≢ j
    → ref_at (set_ref_at a i r) j ≡ ref_at a j
ref_at-set_other a i j r v p q ne = elim (dec_lt i j) [
  | yes h ↦
      (let e : i + (j - i) ≡ j = omega arith in
        ref_at-set_ne a i j r
          (λ s. ring_index_ne a i (j - i) v (omega arith) (omega arith) (rw e s)))
  | no h ↦
      (let e : j + (i - j) ≡ i = omega arith in
        ref_at-set_ne a i j r
          (λ s. ring_index_ne a j (i - j) v (omega arith) (omega arith) (rw e (sym s))))
]

pub IsRing-set : (a : BlockRefArray) (i : ℕ) (r : BlockRef) → IsRing a → IsRing (set_ref_at a i r)
unfolding set_ref_at
IsRing-set a i r v = record { log = v.log; power = v.power; small = v.small }

pub IsRing-count : (a : BlockRefArray) (k : ℕ) → IsRing a → IsRing (count_bytes a k)
IsRing-count a k v = record { log = v.log; power = v.power; small = v.small }

-- The ring `a` with `k` entries, of which `room` keeps every one, takes a reference behind them.
pub record Kept (k : ℕ) (a room : BlockRefArray) : Type 0 where
  pub ring : IsRing room
  pub space : k ≤ room.cap_mask
  pub entries : (i : ℕ) → i < k → ref_at room i ≡ ref_at a i
  pub nbytes : room.nbytes ≡ a.nbytes

pub Kept-refl : (k : ℕ) (a : BlockRefArray) → IsRing a → k ≤ a.cap_mask → Kept k a a
Kept-refl k a v h = record { ring = v; space = h; entries = λ i p. refl; nbytes = refl }

pub window-set-Kept :
    (bytes : ℕ → ℕ → ℕ) (k : ℕ) (a room : BlockRefArray) (r : BlockRef)
    → Kept k a room
    → window bytes (set_ref_at room k r) 0 (suc k) ≡ window bytes a 0 k ++ ref_bytes bytes r
window-set-Kept bytes k a room r v =
    window-set_end bytes room k r v.ring v.space
    ∙ ap (λ w. w ++ ref_bytes bytes r)
        (window-eq bytes room a 0 k
          (λ i p. let e : 0 + i ≡ i = omega arith in rw e (v.entries i p)))

pub nbytes-set : (a : BlockRefArray) (i : ℕ) (r : BlockRef) → (set_ref_at a i r).nbytes ≡ a.nbytes
unfolding set_ref_at
nbytes-set a i r = refl

pub cap_mask-set :
    (a : BlockRefArray) (i : ℕ) (r : BlockRef) → (set_ref_at a i r).cap_mask ≡ a.cap_mask
unfolding set_ref_at
cap_mask-set a i r = refl

ref_at-count : (a : BlockRefArray) (k i : ℕ) → ref_at (count_bytes a k) i ≡ ref_at a i
unfolding ref_at ring_index
ref_at-count a k i = refl

pub window-count :
    (bytes : ℕ → ℕ → ℕ) (a : BlockRefArray) (k i n : ℕ)
    → window bytes (count_bytes a k) i n ≡ window bytes a i n
window-count bytes a k i n =
    window-eq bytes (count_bytes a k) a i n (λ j p. ref_at-count a k (i + j))

pub begin-set : (a : BlockRefArray) (i : ℕ) (r : BlockRef) → (set_ref_at a i r).begin ≡ a.begin
unfolding set_ref_at
begin-set a i r = refl

-- `room` is the array with the bytes of `r` counted already.
pub set_end-IsFilled :
    (k : ℕ) (a room : BlockRefArray) (r : BlockRef)
    → IsFilled k a
    → IsRef r
    → Kept k (count_bytes a r.length) room
    → IsFilled (suc k) (set_ref_at room k r)
set_end-IsFilled k a room r v w u = record {
  ring = IsRing-set room k r u.ring;
  fits = omega (arith, cap_mask-set room k r, u.space);
  refs = λ i p. elim (dec_lt i k) [
    | yes q ↦
        rw
          (
            ref_at-set_other room k i r u.ring u.space (omega arith) (omega arith),
            u.entries i q,
            ref_at-count a r.length i,
          )
          (v.refs i q)
    | no q ↦ (let e : i ≡ k = omega arith in rw (e, ref_at-set_self room k r) w)
  ];
  counted = λ bytes. omega (
    arith,
    nbytes-set room k r,
    ap length (window-set-Kept bytes k (count_bytes a r.length) room r u),
    ap length (window-count bytes a r.length 0 k),
    length-append (window bytes (count_bytes a r.length) 0 k) (ref_bytes bytes r),
    length-ref_bytes bytes r w,
    u.nbytes,
    v.counted bytes,
  );
}

-- The last entry gets longer by `r`, which is counted already.
pub window-set_longer :
    (bytes : ℕ → ℕ → ℕ) (k : ℕ) (a : BlockRefArray) (r r' : BlockRef)
    → IsArray (suc k) a
    → ref_bytes bytes r' ≡ ref_bytes bytes (ref_at a k) ++ ref_bytes bytes r
    → window bytes (set_ref_at (count_bytes a r.length) k r') 0 (suc k)
      ≡ window bytes a 0 (suc k) ++ ref_bytes bytes r
window-set_longer bytes k a r r' v e =
    window-set_last bytes (count_bytes a r.length) k r' (IsRing-count a r.length v.ring)
      (omega (arith, v.fits)) (ref_bytes bytes r) (rw (ref_at-count a r.length k) e)
    ∙ ap (λ w. w ++ ref_bytes bytes r) (window-count bytes a r.length 0 (suc k))

pub set_last-IsArray :
    (k : ℕ) (a : BlockRefArray) (r r' : BlockRef)
    → IsArray (suc k) a
    → IsRef r
    → IsRef r'
    → ((bytes : ℕ → ℕ → ℕ) → ref_bytes bytes r' ≡ ref_bytes bytes (ref_at a k) ++ ref_bytes bytes r)
    → IsArray (suc k) (set_ref_at (count_bytes a r.length) k r')
set_last-IsArray k a r r' v w w' e =
    filled_suc k (set_ref_at (count_bytes a r.length) k r') (record {
      ring = IsRing-set (count_bytes a r.length) k r' (IsRing-count a r.length v.ring);
      fits = omega (arith, cap_mask-set (count_bytes a r.length) k r', v.fits);
      refs = λ i p. elim (dec_lt i k) [
        | yes q ↦
            rw
              (
                ref_at-set_other (count_bytes a r.length) k i r' (IsRing-count a r.length v.ring)
                    (omega (arith, v.fits)) (omega (arith, v.fits)) (omega arith),
                ref_at-count a r.length i,
              )
              (v.refs i (omega arith))
        | no q ↦
            (let e : i ≡ k = omega arith in
              rw (e, ref_at-set_self (count_bytes a r.length) k r') w')
      ];
      counted = λ bytes. omega (
        arith,
        nbytes-set (count_bytes a r.length) k r',
        ap length (window-set_longer bytes k a r r' v (e bytes)),
        length-append (window bytes a 0 (suc k)) (ref_bytes bytes r),
        length-ref_bytes bytes r w,
        v.counted bytes,
      );
    })
