-- ===== src/Log/Sinker/Append.antt =====
-- `append_buf` puts a message behind all the text there is.
use p_base.Base.{
  ℕ, ◌+◌, ◌-◌, ◌≤◌, ◌≡◌, refl, subst, sym, ap, ap₂, ◌∙◌, arith, true, Option, none, some, ltb, ◌==◌,
  List, ◌++◌, append_assoc, length, read, write, Bool-cases, inl, inr, read-write_self,
  read-write_below, read-add,
}
use p_base.Log.Sinker.{
  LogSinker, flush_buffer_size, first_buffer_of, copy_in_of, new_buffer, first_buffer, make_room,
  set_bytes, copy_in, append_buf, ref_text,
}
use p_base.Log.Sinker.Contents.{
  refs_text, written, all_text, count, returned, uses, IsSinker, refs_text-set,
}
use p_base.Log.Sinker.Refer.{rest_ref, written-some}
use p_base.Log.Sinker.Retire.{new_buffer-Renews}

-- What a call leaves: the invariant, and all the text, with more behind it.
pub record Keeps (s : LogSinker) (more : List ℕ) (after : LogSinker) : Type 0 where
  pub valid : IsSinker after
  pub text : all_text after ≡ all_text s ++ more

-- Room for a message: the text is as before, and the message fits if it fits a buffer.
pub record HasRoom (s : LogSinker) (size : ℕ) (after : LogSinker) : Type 0 where
  pub valid : IsSinker after
  pub text : all_text after ≡ all_text s
  pub in_use : (b : ℕ) × (after.cur_buffer ≡ some b)
  pub fits : size ≤ flush_buffer_size → after.cur_ptr + size ≤ after.end_ptr

first_buffer-Keeps : (s : LogSinker) → IsSinker s → HasRoom s 0 (first_buffer s)
unfolding first_buffer
first_buffer-Keeps s v = go s.cur_buffer refl
  where
    go : (o : Option ℕ) → s.cur_buffer ≡ o → HasRoom s 0 (first_buffer s)
    go none e =
        let n = new_buffer-Renews s v.valid in
        let same : first_buffer s ≡ new_buffer s = ap (λ o. first_buffer_of o s) e in
        subst (HasRoom s 0) (sym same) (record {
          valid = n.valid;
          text = n.text;
          in_use = n.in_use;
          fits = λ h. omega (arith, n.empty, n.valid.ordered);
        })
    go (some b) e =
        let same : first_buffer s ≡ s = ap (λ o. first_buffer_of o s) e in
        subst (HasRoom s 0) (sym same)
          (record { valid = v; text = refl; in_use = (b, e); fits = λ h. omega (arith, v.ordered) })

pub room_lem :
    (s : LogSinker) (size : ℕ) → IsSinker s → HasRoom s size (make_room size (first_buffer s))
unfolding make_room
room_lem s size v =
    let f = first_buffer-Keeps s v in
    let t = first_buffer s in
    elim (Bool-cases (ltb t.end_ptr (t.cur_ptr + size))) [
      | inl full ↦
          let n = new_buffer-Renews t f.valid.valid in
          rw full (record {
            valid = n.valid;
            text = n.text ∙ f.text;
            in_use = n.in_use;
            fits = λ h. omega (arith, n.empty);
          })
      | inr fits ↦
          rw fits
            (record { valid = f.valid; text = f.text; in_use = f.in_use; fits = λ h. ground arith })
    ]

copied_text :
    (s : LogSinker) (text : List ℕ) (b : ℕ)
    → s.ptr ≤ s.cur_ptr
    → read
        (set_bytes s.bytes b (write (s.bytes b) s.cur_ptr text) b)
        s.ptr
        (s.cur_ptr + length text - s.ptr)
      ≡ read (s.bytes b) s.ptr (s.cur_ptr - s.ptr) ++ text
unfolding set_bytes
copied_text s text b h =
    let f = s.bytes b in
    let d = s.cur_ptr - s.ptr in
    let e : s.cur_ptr + length text - s.ptr ≡ d + length text = omega arith in
    let e' : s.ptr + d ≡ s.cur_ptr = omega arith in
    let g : b == b ≡ true = ground arith in
    rw (g, e)
      (read-add (write f s.cur_ptr text) s.ptr d (length text)
        ∙ ap₂ ◌++◌ (read-write_below f s.cur_ptr text s.ptr d (omega arith)) (
            ap (λ i. read (write f s.cur_ptr text) i (length text)) e'
            ∙ read-write_self f s.cur_ptr text))

-- The copy puts the message behind what was written, and changes no text that a reference is to.
copy_in-Keeps :
    (s : LogSinker) (text : List ℕ) (b : ℕ)
    → IsSinker s
    → s.cur_buffer ≡ some b
    → s.cur_ptr + length text ≤ s.end_ptr
    → Keeps s text (copy_in text s)
unfolding copy_in
copy_in-Keeps s text b v e h =
    let back = returned s.ref_list in
    let free : count b back ≡ 0 = ground (arith, v.owned b, ap (uses b) e) in
    let d = s.cur_ptr - s.ptr in
    let f = write (s.bytes b) s.cur_ptr text in
    let bytes' = set_bytes s.bytes b (write (s.bytes b) s.cur_ptr text) in
    let after : LogSinker = record s { bytes = bytes'; cur_ptr = s.cur_ptr + length text } in
    let same : copy_in text s ≡ after = ap (λ o. copy_in_of o text s) e in
    subst (Keeps s text) (sym same) (record {
      valid = record {
        valid = record {
          owned = v.owned;
          known = v.known;
          return = v.return;
          ordered = omega (arith, v.ordered);
          none_yet = λ k. cc;
        };
        apart = v.apart;
      };
      text =
          ap (λ l. s.output ++ l)
            (ap₂ ◌++◌ (refs_text-set s.bytes b f back s.ref_list free v.apart)
                (written-some after b e ∙ copied_text s text b v.ordered.0)
              ∙ sym (
                  append_assoc (refs_text s.bytes s.ref_list) (ref_text s.bytes (rest_ref b s))
                    text)
              ∙ ap (λ l. (refs_text s.bytes s.ref_list ++ l) ++ text) (sym (written-some s b e)))
          ∙ sym (append_assoc s.output (refs_text s.bytes s.ref_list ++ written s) text);
    })

-- `append_buf` keeps all that was logged before, and puts the message behind it, if the message fits
-- a buffer.
pub append_buf-Keeps :
    (s : LogSinker) (text : List ℕ)
    → IsSinker s
    → length text ≤ flush_buffer_size
    → Keeps s text (append_buf text s)
unfolding append_buf
append_buf-Keeps s text v h =
    let r = room_lem s (length text) v in
    let k =
      copy_in-Keeps (make_room (length text) (first_buffer s)) text r.in_use.0 r.valid r.in_use.1
        (r.fits h) in
    record { valid = k.valid; text = k.text ∙ ap (λ l. l ++ text) r.text }
