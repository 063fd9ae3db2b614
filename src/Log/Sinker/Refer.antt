-- ===== src/Log/Sinker/Refer.antt =====
-- What is written since the last reference gets one.
use p_base.Base.{
  ℕ, ◌+◌, ◌-◌, ◌<◌, ◌≡◌, refl, subst, sym, ap, ap₂, ◌∙◌, arith, Option, none, some, ltb, ◌==◌,
  if◌then◌else◌, List, [], ◌∷◌, ◌++◌, append-nil, read, Bool-cases, inl, inr,
}
use p_base.Log.Sinker.{BufferRef, LogSinker, push_written_of, push_written, ref_text}
use p_base.Log.Sinker.Contents.{
  refs_text, written, all_text, count, returned, IsOwned, own, count-append, returned-append,
  AllReturn-mono, AllReturn-append, refs_text-append,
}

pub count-returned_snoc :
    (b : ℕ) (rs : List BufferRef) (r : BufferRef)
    → count b (returned (rs ++ r ∷ []))
      ≡ count b (returned rs) + (if r.size == 0 then (if r.buffer == b then 1 else 0) else 0)
unfolding returned
count-returned_snoc b rs r = ground (arith, returned-append b rs (r ∷ []))

abbrev pub rest_ref : ℕ → LogSinker → BufferRef
rest_ref b s = record { buffer = b; start = s.ptr; size = s.cur_ptr - s.ptr }

pub written-some :
    (s : LogSinker) (b : ℕ) → s.cur_buffer ≡ some b → written s ≡ ref_text s.bytes (rest_ref b s)
written-some s b e = rw e

pub written-none : (s : LogSinker) → s.cur_ptr ≡ s.ptr → written s ≡ []
written-none s h = go s.cur_buffer
  where
    go :
        (o : Option ℕ)
        → (elim o as (λ _. List ℕ) [
          | none ↦ []
          | some b ↦ read (s.bytes b) s.ptr (s.cur_ptr - s.ptr)
        ])
          ≡ []
    go none = refl
    go (some b) = let zero_left : s.cur_ptr - s.ptr ≡ 0 = omega arith in rw zero_left

-- What a reference to the written text leaves.
module _ (s : LogSinker) (v : IsOwned s) (b : ℕ) (e : s.cur_buffer ≡ some b)
    (h : s.ptr < s.cur_ptr) where
  abbrev referred : LogSinker
  referred = record s { ref_list = s.ref_list ++ rest_ref b s ∷ []; cur_ptr = s.ptr }

  same_returned :
      (c : ℕ) → count c (returned (s.ref_list ++ rest_ref b s ∷ [])) ≡ count c (returned s.ref_list)
  same_returned c = ground (arith, count-returned_snoc c s.ref_list (rest_ref b s), h)

  referred-IsOwned : IsOwned referred
  referred-IsOwned = record {
    owned = λ c. omega (arith, v.owned c, same_returned c);
    known = λ c k. omega (arith, v.known c k, same_returned c);
    return =
        AllReturn-append (returned referred.ref_list ++ own s.cur_buffer) s.ref_list
          (rest_ref b s ∷ [])
          (AllReturn-mono (returned s.ref_list ++ own s.cur_buffer)
            (returned referred.ref_list ++ own s.cur_buffer) s.ref_list
            (λ c. omega (
              arith,
              count-append c (returned s.ref_list) (own s.cur_buffer),
              count-append c (returned referred.ref_list) (own s.cur_buffer),
              same_returned c,
            ))
            v.return)
          (ground (arith, e, count-append b (returned referred.ref_list) (own s.cur_buffer)), tt);
    ordered = omega (arith, v.ordered);
    none_yet = λ k. cc;
  }

  referred_text : all_text referred ≡ all_text s
  unfolding refs_text
  referred_text =
      ap (λ l. s.output ++ l)
        (ap₂ ◌++◌ (refs_text-append s.bytes s.ref_list (rest_ref b s ∷ []))
            (written-none referred refl)
          ∙ append-nil (refs_text s.bytes s.ref_list ++ refs_text s.bytes (rest_ref b s ∷ []))
          ∙ ap (λ l. refs_text s.bytes s.ref_list ++ l)
              (append-nil (ref_text s.bytes (rest_ref b s)) ∙ sym (written-some s b e)))

-- After a reference to the written text, nothing written is left that has none.
pub record Refers (s after : LogSinker) : Type 0 where
  pub valid : IsOwned after
  pub text : all_text after ≡ all_text s
  pub nothing : after.cur_ptr ≡ after.ptr
  pub same : after.cur_buffer ≡ s.cur_buffer

pub push_written-Refers : (s : LogSinker) → IsOwned s → Refers s (push_written s)
unfolding push_written
push_written-Refers s v = go s.cur_buffer refl
  where
    go : (o : Option ℕ) → s.cur_buffer ≡ o → Refers s (push_written s)
    go none e =
        let same : push_written s ≡ s = ap (λ o. push_written_of o s) e in
        let (p, c, _) = v.none_yet e in
        subst (Refers s) (sym same)
          (record { valid = v; text = refl; nothing = omega arith; same = refl })
    go (some b) e = elim (Bool-cases (ltb s.ptr s.cur_ptr)) [
      | inl more ↦
          let h : s.ptr < s.cur_ptr = ground arith in
          let same : push_written s ≡ referred s v b e h =
            ap (λ o. push_written_of o s) e ∙ rw more in
          subst (Refers s) (sym same) (record {
            valid = referred-IsOwned s v b e h;
            text = referred_text s v b e h;
            nothing = refl;
            same = refl;
          })
      | inr nothing ↦
          let same : push_written s ≡ s = ap (λ o. push_written_of o s) e ∙ rw nothing in
          subst (Refers s) (sym same)
            (record { valid = v; text = refl; nothing = ground (arith, v.ordered); same = refl })
    ]
