-- ===== src/Log/Sinker/Retire.antt =====
-- `new_buffer` gives the buffer in use back and takes another one.
use p_base.Base.{
  ℕ, ◌+◌, ◌≤◌, ◌≡◌, refl, subst, sym, ap, ◌∙◌, arith, Option, none, some, List, [], ◌∷◌, ◌++◌,
  append-nil, inl, inr, ◌⊎◌,
}
use p_base.Log.Sinker.{
  BufferRef, LogSinker, flush_buffer_size, push_buffer_of, take_buffer_of, push_written,
  push_buffer, take_buffer, new_buffer,
}
use p_base.Log.Sinker.Contents.{
  refs_text, all_text, count, returned, uses, owners, AllReturn, IsOwned, IsSinker, own,
  count-append, AllReturn-mono, AllReturn-append, refs_text-append,
}
use p_base.Log.Sinker.Refer.{count-returned_snoc, written-none, push_written-Refers}

abbrev markers : Option ℕ → List BufferRef
markers none = []
markers (some b) = record { buffer = b; start = 0; size = 0 } ∷ []

marked :
    (s : LogSinker) (o : Option ℕ)
    → push_buffer_of o s ≡ record s { ref_list = s.ref_list ++ markers o }
unfolding push_buffer_of
marked s none = ap (λ l. record s { ref_list = l }) (sym (append-nil s.ref_list))
marked s (some b) = refl

-- Giving the buffer in use back, and taking buffer `c`, the first free one or a new one.
module _ (s : LogSinker) (v : IsOwned s) (h : s.cur_ptr ≡ s.ptr) (c : ℕ) (free : List ℕ) (next : ℕ)
    (kind : ((s.free_buffer_list ≡ c ∷ free) × (next ≡ s.next_buffer))
      ⊎ ((s.free_buffer_list ≡ [])
          × (free ≡ [])
          × (c ≡ s.next_buffer)
          × (next ≡ s.next_buffer + 1))) where
  abbrev retired : LogSinker
  retired = record s {
    ref_list = s.ref_list ++ markers s.cur_buffer;
    free_buffer_list = free;
    next_buffer = next;
    cur_buffer = some c;
    ptr = 0;
    cur_ptr = 0;
    end_ptr = flush_buffer_size;
  }

  count-markers :
      (b : ℕ) (o : Option ℕ)
      → count b (returned (s.ref_list ++ markers o)) ≡ count b (returned s.ref_list) + uses b o
  unfolding returned
  count-markers b none = rw append-nil (omega arith)
  count-markers b (some d) =
      omega (arith, count-returned_snoc b s.ref_list (record { buffer = d; start = 0; size = 0 }))

  count-own : (b : ℕ) (o : Option ℕ) → count b (own o) ≡ uses b o
  count-own b none = refl
  count-own b (some d) = ground arith

  AllReturn-markers :
      (back : List ℕ) (o : Option ℕ)
      → ((b : ℕ) → uses b o ≤ count b back)
      → AllReturn back (markers o)
  AllReturn-markers back none f = tt
  AllReturn-markers back (some d) f = (ground (arith, f d), tt)

  owned_lem : (b : ℕ) → owners b retired ≤ 1
  owned_lem b = elim kind [
    | inl (e, f) ↦ ground (arith, v.owned b, count-markers b s.cur_buffer, ap (count b) e)
    | inr (e, f, g, k) ↦
        ground (
          arith,
          v.owned b,
          v.known b,
          count-markers b s.cur_buffer,
          ap (count b) e,
          ap (count b) f,
        )
  ]

  known_lem : (b : ℕ) → next ≤ b → owners b retired ≡ 0
  known_lem b p = elim kind [
    | inl (e, f) ↦ ground (arith, v.known b, count-markers b s.cur_buffer, ap (count b) e)
    | inr (e, f, g, k) ↦
        ground (arith, v.known b, count-markers b s.cur_buffer, ap (count b) e, ap (count b) f)
  ]

  apart_lem : AllReturn (returned retired.ref_list) retired.ref_list
  apart_lem =
      AllReturn-append (returned retired.ref_list) s.ref_list (markers s.cur_buffer)
        (AllReturn-mono (returned s.ref_list ++ own s.cur_buffer) (returned retired.ref_list)
          s.ref_list
          (λ b. omega (
            arith,
            count-append b (returned s.ref_list) (own s.cur_buffer),
            count-own b s.cur_buffer,
            count-markers b s.cur_buffer,
          ))
          v.return)
        (AllReturn-markers (returned retired.ref_list) s.cur_buffer
          (λ b. omega (arith, count-markers b s.cur_buffer)))

  retired-IsSinker : IsSinker retired
  retired-IsSinker = record {
    valid = record {
      owned = owned_lem;
      known = known_lem;
      return =
          AllReturn-mono (returned retired.ref_list) (returned retired.ref_list ++ c ∷ [])
            retired.ref_list
            (λ b. omega (arith, count-append b (returned retired.ref_list) (c ∷ []))) apart_lem;
      ordered = omega arith;
      none_yet = λ k. cc;
    };
    apart = apart_lem;
  }

  markers_text : (o : Option ℕ) → refs_text s.bytes (markers o) ≡ []
  unfolding refs_text
  markers_text none = refl
  markers_text (some b) = refl

  retired_text : all_text retired ≡ all_text s
  retired_text =
      ap (λ l. s.output ++ l)
        (append-nil (refs_text s.bytes (s.ref_list ++ markers s.cur_buffer))
          ∙ refs_text-append s.bytes s.ref_list (markers s.cur_buffer)
          ∙ ap (λ l. refs_text s.bytes s.ref_list ++ l)
              (markers_text s.cur_buffer ∙ sym (written-none s h)))

-- What `new_buffer` leaves: an empty buffer of full size.
pub record Renews (s after : LogSinker) : Type 0 where
  pub valid : IsSinker after
  pub text : all_text after ≡ all_text s
  pub empty : (after.cur_ptr ≡ 0) × (after.end_ptr ≡ flush_buffer_size)
  pub in_use : (b : ℕ) × (after.cur_buffer ≡ some b)

retire-Renews :
    (s : LogSinker) → IsOwned s → s.cur_ptr ≡ s.ptr → Renews s (take_buffer (push_buffer s))
unfolding take_buffer push_buffer
retire-Renews s v h = go s.free_buffer_list refl
  where
    taken :
        (c : ℕ) (free : List ℕ) (next : ℕ)
        (kind : ((s.free_buffer_list ≡ c ∷ free) × (next ≡ s.next_buffer))
          ⊎ ((s.free_buffer_list ≡ [])
              × (free ≡ [])
              × (c ≡ s.next_buffer)
              × (next ≡ s.next_buffer + 1)))
        → take_buffer (push_buffer s) ≡ retired s v h c free next kind
        → Renews s (take_buffer (push_buffer s))
    taken c free next kind same = subst (Renews s) (sym same) (record {
      valid = retired-IsSinker s v h c free next kind;
      text = retired_text s v h c free next kind;
      empty = (refl, refl);
      in_use = (c, refl);
    })

    go : (f : List ℕ) → s.free_buffer_list ≡ f → Renews s (take_buffer (push_buffer s))
    go [] k = taken s.next_buffer [] (s.next_buffer + 1) (inr (k, refl, refl, refl)) (
        ap take_buffer (marked s s.cur_buffer)
        ∙ ap (λ f. take_buffer_of f (record s { ref_list = s.ref_list ++ markers s.cur_buffer })) k
        ∙ ap
            (λ f. record s {
              ref_list = s.ref_list ++ markers s.cur_buffer;
              free_buffer_list = f;
              next_buffer = s.next_buffer + 1;
              cur_buffer = some s.next_buffer;
              ptr = 0;
              cur_ptr = 0;
              end_ptr = flush_buffer_size;
            })
            k)
    go (c ∷ free) k = taken c free s.next_buffer (inl (k, refl)) (
        ap take_buffer (marked s s.cur_buffer)
        ∙ ap (λ f. take_buffer_of f (record s { ref_list = s.ref_list ++ markers s.cur_buffer })) k)

pub new_buffer-Renews : (s : LogSinker) → IsOwned s → Renews s (new_buffer s)
unfolding new_buffer
new_buffer-Renews s v =
    let r = push_written-Refers s v in
    let n = retire-Renews (push_written s) r.valid r.nothing in
    record { valid = n.valid; text = n.text ∙ r.text; empty = n.empty; in_use = n.in_use }
