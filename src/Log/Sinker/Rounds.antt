-- ===== src/Log/Sinker/Rounds.antt =====
-- `work`: the rounds of the thread, and what it does at the end.
use p_base.Base.{
  ℕ, ◌≤◌, ◌≡◌, refl, subst, sym, ap, ap₂, ◌∙◌, arith, ◌==◌, List, [], ◌∷◌, ◌++◌, append_assoc,
  append-nil, length, Bool, true, false, Bool-cases, inl, inr,
}
use p_base.Log.Sinker.{
  BufferRef, LogSinker, flush_buffer_size, new_sinker, push_written, sync_with_front, ref_text,
  flush_refs, flush, work_round, LogEvent, message, sync_step, flush_step,
}
use p_base.Log.Sinker.Contents.{refs_text, all_text, returned, IsOwned, IsSinker, count-append}
use p_base.Log.Sinker.Refer.{written-none, push_written-Refers}

flush_refs_lem :
    (rs : List BufferRef) (s : LogSinker)
    → flush_refs rs s ≡ record s {
      free_buffer_list = s.free_buffer_list ++ returned rs;
      output = s.output ++ refs_text s.bytes rs;
    }
unfolding flush_refs returned refs_text
flush_refs_lem [] s =
    ap₂ (λ f o. record s { free_buffer_list = f; output = o }) (sym (append-nil s.free_buffer_list))
      (sym (append-nil s.output))
flush_refs_lem (r ∷ rs) s = elim (Bool-cases (r.size == 0)) [
  | inl e ↦
      let k : r.size ≡ 0 = ground arith in
      let t = record s { free_buffer_list = s.free_buffer_list ++ r.buffer ∷ [] } in
      rw e (
        flush_refs_lem rs t
        ∙ ap₂ (λ f o. record s { free_buffer_list = f; output = o })
            (append_assoc s.free_buffer_list (r.buffer ∷ []) (returned rs)) (rw k refl))
  | inr e ↦
      let t = record s { output = s.output ++ ref_text s.bytes r } in
      rw e (
        flush_refs_lem rs t
        ∙ ap (λ o. record s { free_buffer_list = s.free_buffer_list ++ returned rs; output = o })
            (append_assoc s.output (ref_text s.bytes r) (refs_text s.bytes rs)))
]

-- After a flush nothing waits, and all text is in the output, when nothing written has no reference.
record Flushes (s after : LogSinker) : Type 0 where
  valid : IsSinker after
  output : after.output ≡ all_text s
  text : all_text after ≡ all_text s

abbrev flushed : LogSinker → LogSinker
flushed s = record s {
  ref_list = [];
  free_buffer_list = s.free_buffer_list ++ returned s.ref_list;
  output = s.output ++ refs_text s.bytes s.ref_list;
}

flush-Flushes : (s : LogSinker) → IsOwned s → s.cur_ptr ≡ s.ptr → Flushes s (flush s)
unfolding flush returned refs_text
flush-Flushes s v h =
    let out : s.output ++ refs_text s.bytes s.ref_list ≡ all_text s =
      ap (λ l. s.output ++ l)
        (sym (append-nil (refs_text s.bytes s.ref_list))
          ∙ ap (λ l. refs_text s.bytes s.ref_list ++ l) (sym (written-none s h))) in
    subst (Flushes s) (sym (flush_refs_lem s.ref_list (record s { ref_list = [] }))) (record {
      valid = record {
        valid = record {
          owned = λ b.
              omega (arith, v.owned b, count-append b s.free_buffer_list (returned s.ref_list));
          known = λ b k.
              omega (arith, v.known b k, count-append b s.free_buffer_list (returned s.ref_list));
          return = tt;
          ordered = v.ordered;
          none_yet = v.none_yet;
        };
        apart = tt;
      };
      output = out;
      text =
          ap (λ l. (flushed s).output ++ l) (written-none (flushed s) h)
          ∙ append-nil (flushed s).output
          ∙ out;
    })

work_round-Flushes : (s : LogSinker) → IsSinker s → Flushes s (work_round s)
unfolding work_round sync_with_front
work_round-Flushes s v =
    let r = push_written-Refers s v.valid in
    let f = flush-Flushes (push_written s) r.valid r.nothing in
    record { valid = f.valid; output = f.output ∙ r.text; text = f.text ∙ r.text }

-- The text that messages are to leave.
unfoldable pub logged : List LogEvent → List ℕ
logged [] = []
logged (message text ∷ events) = text ++ logged events
logged (sync_step ∷ events) = logged events
logged (flush_step ∷ events) = logged events

-- Each message fits a buffer.
abbrev pub AllFit : List LogEvent → Type 0
AllFit [] = Unit
AllFit (message text ∷ events) = (length text ≤ flush_buffer_size) × AllFit events
AllFit (sync_step ∷ events) = AllFit events
AllFit (flush_step ∷ events) = AllFit events

-- Each first half of a round is followed at once by the second, with no message between; the
-- Boolean is whether a first half was the last event.
abbrev pub Undisturbed : Bool → List LogEvent → Type 0
Undisturbed false [] = Unit
Undisturbed false (message text ∷ events) = Undisturbed false events
Undisturbed false (sync_step ∷ events) = Undisturbed true events
Undisturbed false (flush_step ∷ events) = ⊥
Undisturbed true (flush_step ∷ events) = Undisturbed false events
Undisturbed true events = ⊥

pub new_sinker-IsSinker : IsSinker new_sinker
unfolding returned
new_sinker-IsSinker = record {
  valid = record {
    owned = λ b. omega arith;
    known = λ b h. refl;
    return = tt;
    ordered = omega arith;
    none_yet = λ h. (refl, refl, refl);
  };
  apart = tt;
}

-- From any state in which the buffers have one owner each, a round that no message comes into gives the output function all that
-- was logged and not yet written out, in order, and leaves nothing waiting.
pub work_round-output :
    (s : LogSinker)
    → IsSinker s
    → ((work_round s).output ≡ all_text s)
      × (all_text (work_round s) ≡ all_text s)
      × IsSinker (work_round s)
work_round-output s v = let k = work_round-Flushes s v in (k.output, k.text, k.valid)
