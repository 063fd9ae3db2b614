-- ===== src/ZBuffer/Buffer/Popn.antt =====
-- `popn`: the bytes come off the front, in order.
use p_base.Base.{
  ℕ, ◌+◌, ◌-◌, ◌^◌, ◌≤◌, ◌<◌, ◌≡◌, refl, sym, ap, ap₂, ◌∙◌, inl, inr, none, some, arith, [], ◌++◌,
  append-nil, length, take, drop, Bool-cases, ltb, leb, ◌==◌, ◌||◌, take-append_le, drop-append_le,
  take-append_ge, drop-append_ge, length-append, take-all, drop-all,
}
use p_base.ZBuffer.Block.{Memory, Ptr}
use p_base.ZBuffer.Ref.{BlockRef, null_ref, release, ref_bytes, read_ref, read_ptr}
use p_base.ZBuffer.Ref.Merge.{null_ref-IsRef}
use p_base.ZBuffer.Ref.Reserve.{bytes-release}
use p_base.ZBuffer.Buffer.{ZBuffer, simple, array, empty_buffer}
use p_base.ZBuffer.Buffer.Contents.{
  contents, IsBuffer, length-ref_bytes, null-ref_bytes, empty_buffer-IsBuffer,
}
use p_base.ZBuffer.Buffer.Read.{advance, exceeds, pop_second, simple_popn, popn}
use p_base.ZBuffer.Buffer.PopLoop.{advance_lem}
use p_base.ZBuffer.Buffer.Pops.{Pops, HasFront}
use p_base.ZBuffer.Buffer.ArrayPopn.{array_popn-Pops}

zero-ref_bytes : (bytes : ℕ → ℕ → ℕ) (r : BlockRef) → r.length ≡ 0 → ref_bytes bytes r ≡ []
zero-ref_bytes bytes r e = rw e (nothing r.block)
  where
    nothing : (p : Ptr) → read_ptr bytes p r.offset 0 ≡ []
    nothing none = refl
    nothing (some id) = refl

module _ (f s : BlockRef) (count : ℕ) (m : Memory) (v : IsBuffer (simple f s)) where
  -- Nothing is there.
  Pops-nothing : f.length ≡ 0 → s.length ≡ 0 → Pops (simple f s) count m (0, [], simple f s, m)
  Pops-nothing e g =
      let empty : (bytes : ℕ → ℕ → ℕ) → contents bytes (simple f s) ≡ [] =
        λ bytes. ap₂ ◌++◌ (zero-ref_bytes bytes f e) (zero-ref_bytes bytes s g) in
      record {
        number = omega (arith, ap length (empty m.bytes));
        taken = sym (ap (take count) (empty m.bytes) ∙ take-all count [] (omega arith));
        rest = λ bytes.
            empty bytes ∙ sym (ap (drop count) (empty bytes) ∙ drop-all count [] (omega arith));
        valid = v;
        same_bytes = refl;
      }

  -- The first reference has more than that.
  Pops-first :
      count < f.length
      → Pops (simple f s) count m (count, read_ref m.bytes f count, simple (advance f count) s, m)
  Pops-first h =
      let (valid, shorter, split) = advance_lem f count v.0 h in
      record {
        number = omega (
          arith,
          length-append (ref_bytes m.bytes f) (ref_bytes m.bytes s),
          length-ref_bytes m.bytes f v.0,
        );
        taken =
            (split m.bytes).0
            ∙ sym (
                take-append_le count (ref_bytes m.bytes f) (ref_bytes m.bytes s)
                  (omega (arith, length-ref_bytes m.bytes f v.0)));
        rest = λ bytes.
            ap (λ l. l ++ ref_bytes bytes s) (split bytes).1
            ∙ sym (
                drop-append_le count (ref_bytes bytes f) (ref_bytes bytes s)
                  (omega (arith, length-ref_bytes bytes f v.0)));
        valid = (valid, v.1, v.2);
        same_bytes = refl;
      }

  take_past :
      (bytes : ℕ → ℕ → ℕ)
      → f.length ≤ count
      → take count (contents bytes (simple f s))
        ≡ ref_bytes bytes f ++ take (count - f.length) (ref_bytes bytes s)
  take_past bytes h =
      let long = length-ref_bytes bytes f v.0 in
      rw long at (take-append_ge count (ref_bytes bytes f) (ref_bytes bytes s) (omega arith))

  drop_past :
      (bytes : ℕ → ℕ → ℕ)
      → f.length ≤ count
      → drop count (contents bytes (simple f s)) ≡ drop (count - f.length) (ref_bytes bytes s)
  drop_past bytes h =
      let long = length-ref_bytes bytes f v.0 in
      rw long at (drop-append_ge count (ref_bytes bytes f) (ref_bytes bytes s) (omega arith))

  -- The first reference is used up, and there is no second.
  Pops-only :
      s.block ≡ none
      → f.length ≤ count
      → Pops (simple f s) count m (f.length, ref_bytes m.bytes f, simple null_ref s, release f m)
  Pops-only e h =
      let none_left : (bytes : ℕ → ℕ → ℕ) → ref_bytes bytes s ≡ [] =
        λ bytes. null-ref_bytes bytes s v.1 e in
      record {
        number = omega (
          arith,
          length-append (ref_bytes m.bytes f) (ref_bytes m.bytes s),
          length-ref_bytes m.bytes f v.0,
          ap length (none_left m.bytes),
        );
        taken = sym (
            take_past m.bytes h
            ∙ ap (λ l. ref_bytes m.bytes f ++ take (count - f.length) l) (none_left m.bytes)
            ∙ ap (λ l. ref_bytes m.bytes f ++ l) (take-all (count - f.length) [] (omega arith))
            ∙ append-nil (ref_bytes m.bytes f));
        rest = λ bytes.
            none_left bytes
            ∙ sym (
                drop_past bytes h
                ∙ ap (drop (count - f.length)) (none_left bytes)
                ∙ drop-all (count - f.length) [] (omega arith));
        valid = (null_ref-IsRef, v.1, λ _. e);
        same_bytes = bytes-release f m;
      }

  -- Both references are used up.
  Pops-both :
      f.length ≤ count
      → s.length ≤ count - f.length
      → Pops (simple f s) count m (
        f.length + s.length,
        ref_bytes m.bytes f ++ ref_bytes (release f m).bytes s,
        empty_buffer,
        release s (release f m),
      )
  Pops-both h g = record {
    number = omega (
      arith,
      length-append (ref_bytes m.bytes f) (ref_bytes m.bytes s),
      length-ref_bytes m.bytes f v.0,
      length-ref_bytes m.bytes s v.1,
    );
    taken =
        ap (λ b. ref_bytes m.bytes f ++ ref_bytes b s) (bytes-release f m)
        ∙ sym (
            take_past m.bytes h
            ∙ ap (λ l. ref_bytes m.bytes f ++ l)
                (take-all (count - f.length) (ref_bytes m.bytes s)
                  (omega (arith, length-ref_bytes m.bytes s v.1))));
    rest = λ bytes. sym (
        drop_past bytes h
        ∙ drop-all (count - f.length) (ref_bytes bytes s)
            (omega (arith, length-ref_bytes bytes s v.1)));
    valid = empty_buffer-IsBuffer;
    same_bytes = bytes-release s (release f m) ∙ bytes-release f m;
  }

  -- The second reference has more than is still wanted, and moves to the front.
  Pops-part :
      f.length ≤ count
      → count - f.length < s.length
      → Pops (simple f s) count m (
        f.length + (count - f.length),
        ref_bytes m.bytes f ++ read_ref (release f m).bytes s (count - f.length),
        simple (advance s (count - f.length)) null_ref,
        release f m,
      )
  Pops-part h g =
      let (valid, shorter, split) = advance_lem s (count - f.length) v.1 g in
      record {
        number = omega (
          arith,
          length-append (ref_bytes m.bytes f) (ref_bytes m.bytes s),
          length-ref_bytes m.bytes f v.0,
          length-ref_bytes m.bytes s v.1,
        );
        taken =
            ap (λ l. ref_bytes m.bytes f ++ l)
              (ap (λ b. read_ref b s (count - f.length)) (bytes-release f m) ∙ (split m.bytes).0)
            ∙ sym (take_past m.bytes h);
        rest = λ bytes.
            append-nil (ref_bytes bytes (advance s (count - f.length)))
            ∙ (split bytes).1
            ∙ sym (drop_past bytes h);
        valid = (valid, null_ref-IsRef, λ _. refl);
        same_bytes = bytes-release f m;
      }

  Pops-second :
      f.length ≤ count
      → Pops
          (simple f s)
          count
          m
          (pop_second s (count - f.length) f.length (ref_bytes m.bytes f) (release f m))
  unfolding pop_second
  Pops-second h = elim (Bool-cases (leb s.length (count - f.length))) [
    | inl all ↦ rw all (Pops-both h (ground arith))
    | inr part ↦ rw part (Pops-part h (ground arith))
  ]

  Pops-past :
      f.length ≤ count
      → (p : Ptr) → s.block ≡ p
      → Pops (simple f s) count m (elim p [
        | none ↦ (f.length, ref_bytes m.bytes f, simple null_ref s, release f m)
        | some _ ↦ pop_second s (count - f.length) f.length (ref_bytes m.bytes f) (release f m)
      ])
  Pops-past h none e = Pops-only e h
  Pops-past h (some id) e = Pops-second h

  simple_popn-Pops :
      HasFront (simple f s) → count < 2 ^ 63 → Pops (simple f s) count m (simple_popn f s count m)
  unfolding simple_popn exceeds
  simple_popn-Pops w h = elim (Bool-cases (f.length == 0)) [
    | inl none_there ↦ (let e : f.length ≡ 0 = ground arith in rw none_there (Pops-nothing e (w e)))
    | inr some_there ↦ elim (Bool-cases (leb (2 ^ 63) count || ltb count f.length)) [
      | inl less ↦ rw (some_there, less) (Pops-first (ground arith))
      | inr past ↦ rw (some_there, past) (Pops-past (ground arith) s.block refl)
    ]
  ]

-- `popn` returns how many bytes it took, which is `count` or all that there are; it copies out
-- that many from the front, in order; the buffer keeps exactly the others and its invariant; no
-- block's bytes change. This holds of both forms of the buffer, for a count that is no negative
-- `int64_t`, where an empty first reference does not hide a second one.
pub popn-Pops :
    (z : ZBuffer) (count : ℕ) (m : Memory)
    → IsBuffer z
    → HasFront z
    → count < 2 ^ 63
    → Pops z count m (popn z count m)
unfolding popn
popn-Pops (simple f s) count m v w h = simple_popn-Pops f s count m v w h
popn-Pops (array n a space) count m v w h = array_popn-Pops n a space count m v h
