-- ===== src/Log/Sinker/Overwrite.antt =====
-- What is wrong when a message comes between the two halves of a round, and what a message that is
-- longer than a buffer does.
use p_base.Base.{
  ℕ, ◌+◌, ◌-◌, ◌≤◌, ◌<◌, ◌≡◌, ap, ap₂, ◌∙◌, arith, false, true, some, ltb, leb, ◌==◌, List, [], ◌∷◌,
  ◌++◌, length, read, write, read-write_self, read-write_above, read-add,
}
use p_base.Log.Sinker.{
  LogSinker, flush_buffer_size, push_written_of, first_buffer_of, copy_in_of, first_buffer,
  make_room, set_bytes, copy_in, append_buf, push_written, sync_with_front, flush_refs, flush,
}
use p_base.Log.Sinker.Contents.{IsSinker}
use p_base.Log.Sinker.Append.{room_lem}

copy_in-end :
    (s : LogSinker) (text : List ℕ) (b : ℕ)
    → s.cur_buffer ≡ some b
    → ((copy_in text s).cur_ptr ≡ s.cur_ptr + length text) × ((copy_in text s).end_ptr ≡ s.end_ptr)
unfolding copy_in
copy_in-end s text b e = (
  ap LogSinker.cur_ptr (ap (λ o. copy_in_of o text s) e),
  ap LogSinker.end_ptr (ap (λ o. copy_in_of o text s) e),
)

-- A message stays within the buffer it is copied to exactly if it is at most 32 KiB long: a longer
-- one is written past the end of a buffer.
pub append_buf-within :
    (s : LogSinker) (text : List ℕ)
    → IsSinker s
    → leb (append_buf text s).cur_ptr (append_buf text s).end_ptr
      ≡ leb (length text) flush_buffer_size
unfolding append_buf
append_buf-within s text v =
    let r = room_lem s (length text) v in
    let t = make_room (length text) (first_buffer s) in
    let (c, e) = copy_in-end t text r.in_use.0 r.in_use.1 in
    ground (arith, c, e, r.fits, r.valid.ordered)

-- When there is a buffer and room in it, a message is just copied.
append_buf-some :
    (s : LogSinker) (text : List ℕ) (b : ℕ)
    → s.cur_buffer ≡ some b
    → s.cur_ptr + length text ≤ s.end_ptr
    → append_buf text s ≡ copy_in_of (some b) text s
unfolding append_buf first_buffer make_room copy_in
append_buf-some s text b e h =
    let fits : ltb s.end_ptr (s.cur_ptr + length text) ≡ false = ground arith in
    ap (λ t. copy_in text (make_room (length text) t)) (ap (λ o. first_buffer_of o s) e)
    ∙ rw fits (ap (λ o. copy_in_of o text s) e)

-- A message that comes between `sync_with_front` and `flush` is copied over the text that waits for the
-- flush: the output function is given the message and then the rest of that text, the start of which
-- is lost. The conditions: the buffer in use has text, no other reference waits, and the message is not
-- longer than that text.
pub flush-sync_with_front :
    (s : LogSinker) (text : List ℕ) (b : ℕ)
    → IsSinker s
    → s.cur_buffer ≡ some b
    → s.ref_list ≡ []
    → s.ptr < s.cur_ptr
    → s.ptr + length text ≤ s.cur_ptr
    → (flush (append_buf text (sync_with_front s))).output
      ≡ s.output
        ++ (text ++ read (s.bytes b) (s.ptr + length text) (s.cur_ptr - s.ptr - length text))
unfolding flush flush_refs sync_with_front push_written set_bytes copy_in_of
flush-sync_with_front s text b v e k more h =
    let m : ltb s.ptr s.cur_ptr ≡ true = ground arith in
    let t : LogSinker = record s {
      ref_list = record { buffer = b; start = s.ptr; size = s.cur_ptr - s.ptr } ∷ [];
      cur_ptr = s.ptr;
    } in
    let synced : sync_with_front s ≡ t =
      ap (λ o. push_written_of o s) e
      ∙ rw m (
          ap
            (λ l. record t {
              ref_list = l ++ record { buffer = b; start = s.ptr; size = s.cur_ptr - s.ptr } ∷ [];
            })
            k) in
    let there : (s.cur_ptr - s.ptr) == 0 ≡ false = ground arith in
    let self : b == b ≡ true = ground arith in
    let f = write (s.bytes b) s.ptr text in
    let n = s.cur_ptr - s.ptr - length text in
    let size : s.cur_ptr - s.ptr ≡ length text + n = omega arith in
    ap (λ u. (flush (append_buf text u)).output) synced
    ∙ ap (λ u. (flush u).output) (append_buf-some t text b e (omega (arith, v.ordered)))
    ∙ rw (there, self)
        (ap (λ l. s.output ++ l)
          (ap (read f s.ptr) size
            ∙ read-add f s.ptr (length text) n
            ∙ ap₂ ◌++◌ (read-write_self (s.bytes b) s.ptr text)
                (read-write_above (s.bytes b) s.ptr text (s.ptr + length text) n (omega arith))))
