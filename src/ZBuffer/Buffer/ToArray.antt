-- ===== src/ZBuffer/Buffer/ToArray.antt =====
-- `transfor_to_array`: the two references of a buffer become an array of two.
use p_base.Base.{ℕ, ◌≡◌, ◌≢◌, refl, ap, ◌∙◌, none, some, arith, ◌++◌, append-nil, add32}
use p_base.ZBuffer.Block.{Memory, Ptr}
use p_base.ZBuffer.Ref.{
  BlockRef, BlockRefArray, ref_at, ring_index, set_ref_at, new_array, ref_bytes,
}
use p_base.ZBuffer.Ref.Merge.{IsRef}
use p_base.ZBuffer.Ref.Reserve.{IsListed, acquire_lem}
use p_base.ZBuffer.Ref.Ring.{window, ref_at-set_self}
use p_base.ZBuffer.Buffer.{place, transfor_to_array}
use p_base.ZBuffer.Buffer.Contents.{IsFilled, IsArray, filled_suc}
use p_base.ZBuffer.Buffer.Entries.{
  count_bytes, Kept, Kept-refl, IsRing-count, window-set-Kept, window-count, set_end-IsFilled,
}

place_lem :
    (r : BlockRef) (n : ℕ) (a : BlockRefArray)
    → r.block ≢ none
    → place r (n, a) ≡ (add32 n 1, set_ref_at (count_bytes a r.length) n r)
unfolding place set_ref_at ring_index
place_lem r n a ne = place_at r.block refl
  where
    place_at :
        (p : Ptr)
        → r.block ≡ p
        → place r (n, a) ≡ (add32 n 1, set_ref_at (count_bytes a r.length) n r)
    place_at none e = absurd (ne e)
    place_at (some id) e = simp (e, place)

new_array-IsFilled : (raw : ℕ → BlockRef) → IsFilled 0 (new_array 32 raw)
unfolding new_array
new_array-IsFilled raw = record {
  ring = record { log = 5; power = refl; small = omega arith };
  fits = omega arith;
  refs = λ i p. absurd (omega arith);
  counted = λ bytes. refl;
}

module _ (raw : ℕ → BlockRef) (f s : BlockRef) where
  fresh : BlockRefArray
  fresh = new_array 32 raw

  -- The array with the first of the two references of a buffer, and with both.
  one_ref : BlockRefArray
  one_ref = set_ref_at (count_bytes fresh f.length) 0 f

  pub two_refs : BlockRefArray
  two_refs = set_ref_at (count_bytes one_ref s.length) 1 s

  fresh-Kept : Kept 0 (count_bytes fresh f.length) (count_bytes fresh f.length)
  unfolding fresh new_array
  fresh-Kept =
      Kept-refl 0 (count_bytes fresh f.length)
        (IsRing-count fresh f.length (new_array-IsFilled raw).ring) (omega arith)

  one_ref-IsFilled : IsRef f → IsFilled 1 one_ref
  unfolding one_ref fresh
  one_ref-IsFilled v =
      set_end-IsFilled 0 fresh (count_bytes fresh f.length) f (new_array-IsFilled raw) v fresh-Kept

  one_ref-Kept : IsRef f → Kept 1 (count_bytes one_ref s.length) (count_bytes one_ref s.length)
  unfolding one_ref fresh new_array set_ref_at
  one_ref-Kept v =
      Kept-refl 1 (count_bytes one_ref s.length)
        (IsRing-count one_ref s.length (one_ref-IsFilled v).ring) (omega arith)

  pub two_refs-IsArray : IsRef f → IsRef s → IsArray 2 two_refs
  unfolding two_refs
  two_refs-IsArray v w = filled_suc 1 two_refs (
      set_end-IsFilled 1 one_ref (count_bytes one_ref s.length) s (one_ref-IsFilled v) w
        (one_ref-Kept v))

  pub window-two_refs :
      (bytes : ℕ → ℕ → ℕ)
      → IsRef f
      → window bytes two_refs 0 2 ≡ ref_bytes bytes f ++ ref_bytes bytes s
  unfolding two_refs one_ref
  window-two_refs bytes v =
      window-set-Kept bytes 1 (count_bytes one_ref s.length) (count_bytes one_ref s.length) s
        (one_ref-Kept v)
      ∙ ap (λ l. l ++ ref_bytes bytes s)
          (window-count bytes one_ref s.length 0 1 ∙ window-one_ref bytes)
    where
      window-one_ref : (b : ℕ → ℕ → ℕ) → window b one_ref 0 1 ≡ ref_bytes b f
      window-one_ref b =
          append-nil (ref_bytes b (ref_at one_ref 0))
          ∙ ap (ref_bytes b) (ref_at-set_self (count_bytes fresh f.length) 0 f)

  pub cap_mask-two_refs : two_refs.cap_mask ≡ 31
  unfolding two_refs one_ref fresh new_array set_ref_at
  cap_mask-two_refs = refl

  place-two_refs :
      f.block ≢ none → s.block ≢ none → place s (place f (0, new_array 32 raw)) ≡ (2, two_refs)
  unfolding two_refs one_ref fresh
  place-two_refs nf ns =
      ap (place s) (place_lem f 0 (new_array 32 raw) nf) ∙ place_lem s 1 one_ref ns

module _ (raw : BlockRef → ℕ → BlockRef) where
  pub transfor_lem :
      (f s : BlockRef) (m : Memory)
      → IsListed m
      → f.block ≢ none
      → s.block ≢ none
      → (space : BlockRef) × (m' : Memory) × (transfor_to_array raw f s m
          ≡ some (2, two_refs (raw space) f s, space, m'))
        × (m'.bytes ≡ m.bytes)
  unfolding transfor_to_array
  transfor_lem f s m l nf ns =
      let (space, m', got, r) = acquire_lem 32 m l in
      (space, m', rw (got, place-two_refs (raw space) f s nf ns), r.same_bytes)
