-- ===== src/Log/Sinker.antt =====
-- `LogSinkThread` of src/logger.cpp: callers copy their messages into a buffer, and a thread of its
-- own hands what is in the buffers to the output function. A buffer is named by a number that
-- `malloc` gives out once, a pointer into it is a place.
pub mod Contents
pub mod Refer
pub mod Retire
pub mod Append
pub mod Rounds
pub mod Overwrite
use p_base.Base.{
  ℕ, ◌+◌, ◌*◌, ◌-◌, Option, none, some, ltb, ◌==◌, if◌then◌else◌, List, [], ◌∷◌, ◌++◌, length, read,
  write,
}

abbrev pub flush_buffer_size : ℕ
flush_buffer_size = 32 * 1024

pub record BufferRef : Type 0 where
  pub buffer : ℕ
  pub start : ℕ
  pub size : ℕ

-- `ptr`, `cur_ptr` and `end_ptr` are places in `cur_buffer`. `output` is all that the output
-- function was given.
pub record LogSinker : Type 0 where
  pub bytes : ℕ → ℕ → ℕ
  pub next_buffer : ℕ
  pub free_buffer_list : List ℕ
  pub ref_list : List BufferRef
  pub cur_buffer : Option ℕ
  pub ptr : ℕ
  pub cur_ptr : ℕ
  pub end_ptr : ℕ
  pub output : List ℕ

abbrev pub new_sinker : LogSinker
new_sinker = record {
  bytes = λ _ _. 0;
  next_buffer = 0;
  free_buffer_list = [];
  ref_list = [];
  cur_buffer = none;
  ptr = 0;
  cur_ptr = 0;
  end_ptr = 0;
  output = [];
}

-- `if (cur_ptr_ > ptr_)`: a reference to what was written since, and the place is set back.
unfoldable pub push_written_of : Option ℕ → LogSinker → LogSinker
push_written_of none s = s
push_written_of (some b) s =
    if ltb s.ptr s.cur_ptr
    then record s {
      ref_list = s.ref_list ++ record { buffer = b; start = s.ptr; size = s.cur_ptr - s.ptr } ∷ [];
      cur_ptr = s.ptr;
    }
    else s

unfoldable pub push_written : LogSinker → LogSinker
unfolding push_written_of
push_written s = push_written_of s.cur_buffer s

-- An empty reference gives the buffer back when the thread comes to it.
unfoldable pub push_buffer_of : Option ℕ → LogSinker → LogSinker
push_buffer_of none s = s
push_buffer_of (some b) s = record s {
  ref_list = s.ref_list ++ record { buffer = b; start = 0; size = 0 } ∷ [];
}

unfoldable pub push_buffer : LogSinker → LogSinker
unfolding push_buffer_of
push_buffer s = push_buffer_of s.cur_buffer s

-- A free buffer, the first of them, or a new one.
unfoldable pub take_buffer_of : List ℕ → LogSinker → LogSinker
take_buffer_of [] s = record s {
  next_buffer = s.next_buffer + 1;
  cur_buffer = some s.next_buffer;
  ptr = 0;
  cur_ptr = 0;
  end_ptr = flush_buffer_size;
}
take_buffer_of (b ∷ bs) s = record s {
  free_buffer_list = bs;
  cur_buffer = some b;
  ptr = 0;
  cur_ptr = 0;
  end_ptr = flush_buffer_size;
}

unfoldable pub take_buffer : LogSinker → LogSinker
unfolding take_buffer_of
take_buffer s = take_buffer_of s.free_buffer_list s

unfoldable pub new_buffer : LogSinker → LogSinker
unfolding push_written push_buffer take_buffer
new_buffer s = take_buffer (push_buffer (push_written s))

-- The first buffer comes with the first message.
unfoldable pub first_buffer_of : Option ℕ → LogSinker → LogSinker
unfolding new_buffer
first_buffer_of none s = new_buffer s
first_buffer_of (some b) s = s

unfoldable pub first_buffer : LogSinker → LogSinker
unfolding first_buffer_of
first_buffer s = first_buffer_of s.cur_buffer s

unfoldable pub make_room : ℕ → LogSinker → LogSinker
unfolding new_buffer
make_room size s = if ltb s.end_ptr (s.cur_ptr + size) then new_buffer s else s

unfoldable pub set_bytes : (ℕ → ℕ → ℕ) → ℕ → (ℕ → ℕ) → ℕ → ℕ → ℕ
set_bytes bytes b f c = if c == b then f else bytes c

-- The `memcpy` to the end of the buffer.
unfoldable pub copy_in_of : Option ℕ → List ℕ → LogSinker → LogSinker
unfolding set_bytes write
copy_in_of none text s = s
copy_in_of (some b) text s = record s {
  bytes = set_bytes s.bytes b (write (s.bytes b) s.cur_ptr text);
  cur_ptr = s.cur_ptr + length text;
}

unfoldable pub copy_in : List ℕ → LogSinker → LogSinker
unfolding copy_in_of
copy_in text s = copy_in_of s.cur_buffer text s

unfoldable pub append_buf : List ℕ → LogSinker → LogSinker
unfolding first_buffer make_room copy_in
append_buf text s = copy_in text (make_room (length text) (first_buffer s))

unfoldable pub sync_with_front : LogSinker → LogSinker
unfolding push_written
sync_with_front s = push_written s

abbrev pub ref_text : (ℕ → ℕ → ℕ) → BufferRef → List ℕ
ref_text bytes r = read (bytes r.buffer) r.start r.size

-- `flush` takes the references off one by one, gives the buffers of empty ones back, and hands the
-- text of the others out.
unfoldable pub flush_refs : List BufferRef → LogSinker → LogSinker
flush_refs [] s = s
flush_refs (r ∷ rs) s = flush_refs rs (
    if r.size == 0
    then record s { free_buffer_list = s.free_buffer_list ++ r.buffer ∷ [] }
    else record s { output = s.output ++ ref_text s.bytes r })

unfoldable pub flush : LogSinker → LogSinker
unfolding flush_refs
flush s = flush_refs s.ref_list (record s { ref_list = [] })

-- One round of `work` between whose halves no other thread logs.
unfoldable pub work_round : LogSinker → LogSinker
unfolding sync_with_front flush
work_round s = flush (sync_with_front s)

-- The thread logs `farewell`, a last line of its own, before it hands out all there is.
unfoldable pub stop_work : List ℕ → LogSinker → LogSinker
unfolding append_buf new_buffer flush
stop_work farewell s = flush (new_buffer (append_buf farewell s))

-- Messages, and the two halves of the rounds of the thread, which the messages of other threads may
-- come between.
pub data LogEvent : Type 0 where
  message : List ℕ → LogEvent
  sync_step : LogEvent
  flush_step : LogEvent

unfoldable pub run_events : List LogEvent → LogSinker → LogSinker
unfolding append_buf sync_with_front flush
run_events [] s = s
run_events (message text ∷ events) s = run_events events (append_buf text s)
run_events (sync_step ∷ events) s = run_events events (sync_with_front s)
run_events (flush_step ∷ events) s = run_events events (flush s)
