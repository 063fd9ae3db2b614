-- ===== src/ZBuffer/Buffer/Append.antt =====
-- `append_ref`, both overloads: the bytes of the reference go to the end of the buffer.
use p_base.Base.{
  ℕ, ◌≡◌, ◌≢◌, refl, sym, ap, ◌∙◌, inl, inr, ◌⊎◌, Option, none, some, arith, ◌++◌, append_assoc,
  append-nil,
}
use p_base.ZBuffer.Block.{Memory, Ptr, inc_ref}
use p_base.ZBuffer.Ref.{BlockRef, release, ref_bytes}
use p_base.ZBuffer.Ref.Merge.{IsRef, merge-cases}
use p_base.ZBuffer.Ref.Reserve.{bytes-inc_ref, bytes-release}
use p_base.ZBuffer.Buffer.{ZBuffer, simple, array, append_ref_copy, append_ref_move}
use p_base.ZBuffer.Buffer.Contents.{IsBuffer, null-ref_bytes}
use p_base.ZBuffer.Buffer.ArrayAppend.{
  CanGrow, IsLonger, Appends, Agree, array_append-Agree, array_append_copy-Appends,
  array_append_move-Appends,
}
use p_base.ZBuffer.Buffer.ToArray.{
  two_refs, two_refs-IsArray, window-two_refs, cap_mask-two_refs, transfor_lem,
}

-- A buffer with no reference yet takes `r` as its first.
IsLonger-first :
    (f s r : BlockRef)
    → IsBuffer (simple f s)
    → f.block ≡ none
    → IsRef r
    → r.block ≢ none
    → IsLonger (simple f s) r (simple r s)
IsLonger-first f s r (v, w, ordered) e u ne = record {
  valid = (u, w, λ z. absurd (ne z));
  joined = λ bytes.
      rw (null-ref_bytes bytes f v e, null-ref_bytes bytes s w (ordered e))
        (append-nil (ref_bytes bytes r));
}

-- A buffer with one reference takes `r` as its second, or into the first.
IsLonger-second :
    (f s r : BlockRef)
    → IsBuffer (simple f s)
    → f.block ≢ none
    → s.block ≡ none
    → IsRef r
    → IsLonger (simple f s) r (simple f r)
IsLonger-second f s r (v, w, ordered) nf e u = record {
  valid = (v, u, λ z. absurd (nf z));
  joined = λ bytes. rw (null-ref_bytes bytes s w e, append-nil (ref_bytes bytes f));
}

IsLonger-into_first :
    (f s r f' : BlockRef)
    → IsBuffer (simple f s)
    → s.block ≡ none
    → IsRef f'
    → f'.block ≡ f.block
    → ((bytes : ℕ → ℕ → ℕ) → ref_bytes bytes f' ≡ ref_bytes bytes f ++ ref_bytes bytes r)
    → IsLonger (simple f s) r (simple f' s)
IsLonger-into_first f s r f' (v, w, ordered) e u same joined = record {
  valid = (u, w, λ z. ordered (sym same ∙ z));
  joined = λ bytes.
      rw
        (
          null-ref_bytes bytes s w e,
          append-nil (ref_bytes bytes f'),
          append-nil (ref_bytes bytes f),
        )
        (joined bytes);
}

IsLonger-into_second :
    (f s r s' : BlockRef)
    → IsBuffer (simple f s)
    → f.block ≢ none
    → IsRef s'
    → ((bytes : ℕ → ℕ → ℕ) → ref_bytes bytes s' ≡ ref_bytes bytes s ++ ref_bytes bytes r)
    → IsLonger (simple f s) r (simple f s')
IsLonger-into_second f s r s' (v, w, ordered) nf u joined = record {
  valid = (v, u, λ z. absurd (nf z));
  joined = λ bytes.
      rw (joined bytes)
        (sym (append_assoc (ref_bytes bytes f) (ref_bytes bytes s) (ref_bytes bytes r)));
}

-- Which references a buffer of two has.
abbrev Shape : BlockRef → BlockRef → Type 0
Shape f s =
    (f.block ≡ none)
    ⊎ ((i : ℕ) × (f.block ≡ some i) × (s.block ≡ none))
    ⊎ ((i : ℕ) × (j : ℕ) × (f.block ≡ some i) × (s.block ≡ some j))

shape : (f s : BlockRef) → Shape f s
shape f s = by_blocks f.block s.block refl refl
  where
    by_blocks : (p q : Ptr) → f.block ≡ p → s.block ≡ q → Shape f s
    by_blocks none q e g = inl e
    by_blocks (some i) none e g = inr (inl (i, e, g))
    by_blocks (some i) (some j) e g = inr (inr (i, j, e, g))

some_ne : (p : Ptr) (i : ℕ) → p ≡ some i → p ≢ none
some_ne p i e z = cc

module _ (raw : BlockRef → ℕ → BlockRef) where
  -- Any append to the array that two references were put into goes on from there.
  after_transfor :
      (f s r : BlockRef) (m m' : Memory) (space : BlockRef) (outcome : Option (ZBuffer × Memory))
      → IsRef f
      → m'.bytes ≡ m.bytes
      → Appends (array 2 (two_refs (raw space) f s) space) r m' outcome
      → Appends (simple f s) r m outcome
  after_transfor f s r m m' space outcome v same w = record {
    after = w.after;
    memory = w.memory;
    result = w.result;
    longer = record {
      valid = w.longer.valid;
      joined = λ bytes.
          w.longer.joined bytes
          ∙ ap (λ l. l ++ ref_bytes bytes r) (window-two_refs (raw space) f s bytes v);
    };
    same_bytes = w.same_bytes ∙ same;
  }

  no_growth :
      (f s : BlockRef) (space : BlockRef) (m : Memory)
      → CanGrow (array 2 (two_refs (raw space) f s) space) m
  no_growth f s space m h = absurd (omega (arith, cap_mask-two_refs (raw space) f s))

  -- `append_ref(const BlockRef &)` of a reference that has a block gives a buffer of the old bytes
  -- with those of the reference behind them, whichever form the buffer has and takes on.
  pub append_ref_copy-Appends :
      (r : BlockRef) (z : ZBuffer) (m : Memory)
      → IsBuffer z
      → CanGrow z m
      → IsRef r
      → r.block ≢ none
      → Appends z r m (append_ref_copy raw r z m)
  unfolding append_ref_copy
  append_ref_copy-Appends r (array n a space) m v grow u ne =
      array_append_copy-Appends raw n a space r m v grow u ne
  append_ref_copy-Appends r (simple f s) m v l u ne = elim (shape f s) [
    | inl e ↦ record {
      after = simple r s;
      memory = inc_ref r.block m;
      result = simp e;
      longer = IsLonger-first f s r v e u ne;
      same_bytes = bytes-inc_ref r.block m;
    }
    | inr (inl (i, e, g)) ↦ elim (merge-cases f r v.0 u) [
      | inl apart ↦ record {
        after = simple f r;
        memory = inc_ref r.block m;
        result = simp (e, g, apart);
        longer = IsLonger-second f s r v (some_ne f.block i e) g u;
        same_bytes = bytes-inc_ref r.block m;
      }
      | inr (f', merged, valid, same, long, joined) ↦ record {
        after = simple f' s;
        memory = m;
        result = simp (e, g, merged);
        longer = IsLonger-into_first f s r f' v g valid same joined;
        same_bytes = refl;
      }
    ]
    | inr (inr (i, j, e, g)) ↦ elim (merge-cases s r v.1 u) [
      | inl apart ↦
          let (space, m', got, same) =
            transfor_lem raw f s m l (some_ne f.block i e) (some_ne s.block j g) in
          let outcome =
            array_append_copy-Appends raw 2 (two_refs (raw space) f s) space r m'
              (two_refs-IsArray (raw space) f s v.0 v.1) (no_growth f s space m') u ne in
          simp (e, g, apart, got) (after_transfor f s r m m' space _ v.0 same outcome)
      | inr (s', merged, valid, same, long, joined) ↦ record {
        after = simple f s';
        memory = m;
        result = simp (e, g, merged);
        longer = IsLonger-into_second f s r s' v (some_ne f.block i e) valid joined;
        same_bytes = refl;
      }
    ]
  ]

  -- `append_ref(BlockRef &&)` of a reference that has a block gives a buffer of the old bytes with
  -- those of the reference behind them, whichever form the buffer has and takes on.
  pub append_ref_move-Appends :
      (r : BlockRef) (z : ZBuffer) (m : Memory)
      → IsBuffer z
      → CanGrow z m
      → IsRef r
      → r.block ≢ none
      → Appends z r m (append_ref_move raw r z m)
  unfolding append_ref_move
  append_ref_move-Appends r (array n a space) m v grow u ne =
      array_append_move-Appends raw n a space r m v grow u ne
  append_ref_move-Appends r (simple f s) m v l u ne = elim (shape f s) [
    | inl e ↦ record {
      after = simple r s;
      memory = m;
      result = simp e;
      longer = IsLonger-first f s r v e u ne;
      same_bytes = refl;
    }
    | inr (inl (i, e, g)) ↦ elim (merge-cases f r v.0 u) [
      | inl apart ↦ record {
        after = simple f r;
        memory = m;
        result = simp (e, g, apart);
        longer = IsLonger-second f s r v (some_ne f.block i e) g u;
        same_bytes = refl;
      }
      | inr (f', merged, valid, same, long, joined) ↦ record {
        after = simple f' s;
        memory = release r m;
        result = simp (e, g, merged);
        longer = IsLonger-into_first f s r f' v g valid same joined;
        same_bytes = bytes-release r m;
      }
    ]
    | inr (inr (i, j, e, g)) ↦ elim (merge-cases s r v.1 u) [
      | inl apart ↦
          let (space, m', got, same) =
            transfor_lem raw f s m l (some_ne f.block i e) (some_ne s.block j g) in
          let outcome =
            array_append_move-Appends raw 2 (two_refs (raw space) f s) space r m'
              (two_refs-IsArray (raw space) f s v.0 v.1) (no_growth f s space m') u ne in
          simp (e, g, apart, got) (after_transfor f s r m m' space _ v.0 same outcome)
      | inr (s', merged, valid, same, long, joined) ↦ record {
        after = simple f s';
        memory = release r m;
        result = simp (e, g, merged);
        longer = IsLonger-into_second f s r s' v (some_ne f.block i e) valid joined;
        same_bytes = bytes-release r m;
      }
    ]
  ]

  append_ref_copy-Agree :
      (r : BlockRef) (z : ZBuffer) (m : Memory)
      → IsBuffer z
      → CanGrow z m
      → IsRef r
      → r.block ≢ none
      → Agree r (append_ref_copy raw r z m) (append_ref_move raw r z m)
  unfolding append_ref_copy append_ref_move
  append_ref_copy-Agree r (array n a space) m v grow u ne =
      array_append-Agree raw n a space r m v grow u ne
  append_ref_copy-Agree r (simple f s) m v l u ne = elim (shape f s) [
    | inl e ↦ (simple r s, inc_ref r.block m, m, simp e, simp e, inl refl)
    | inr (inl (i, e, g)) ↦ elim (merge-cases f r v.0 u) [
      | inl apart ↦
          (simple f r, inc_ref r.block m, m, simp (e, g, apart), simp (e, g, apart), inl refl)
      | inr (f', merged, ok, same, long, joined) ↦
          (simple f' s, m, release r m, simp (e, g, merged), simp (e, g, merged), inr refl)
    ]
    | inr (inr (i, j, e, g)) ↦ elim (merge-cases s r v.1 u) [
      | inl apart ↦
          let (space, m', got, same) =
            transfor_lem raw f s m l (some_ne f.block i e) (some_ne s.block j g) in
          let agree =
            array_append-Agree raw 2 (two_refs (raw space) f s) space r m'
              (two_refs-IsArray (raw space) f s v.0 v.1) (no_growth f s space m') u ne in
          simp (e, g, apart, got) agree
      | inr (s', merged, ok, same, long, joined) ↦
          (simple f s', m, release r m, simp (e, g, merged), simp (e, g, merged), inr refl)
    ]
  ]

  -- Both overloads of `append_ref`, of a reference that has a block, where an array that has to be
  -- made or doubled keeps its entries, give a buffer of the old bytes with those of the reference
  -- behind them, whichever form the buffer has and takes on, and no block's bytes change. It is the
  -- same buffer, and the references are counted: copying takes one more to the block than moving, or
  -- moving drops the one that it was given where the last reference of the buffer was extended.
  pub append_ref_copy-append_ref_move :
      (r : BlockRef) (z : ZBuffer) (m : Memory)
      → IsBuffer z
      → CanGrow z m
      → IsRef r
      → r.block ≢ none
      → Appends z r m (append_ref_copy raw r z m)
        × Appends z r m (append_ref_move raw r z m)
        × Agree r (append_ref_copy raw r z m) (append_ref_move raw r z m)
  append_ref_copy-append_ref_move r z m v grow u ne = (
    append_ref_copy-Appends r z m v grow u ne,
    append_ref_move-Appends r z m v grow u ne,
    append_ref_copy-Agree r z m v grow u ne,
  )
