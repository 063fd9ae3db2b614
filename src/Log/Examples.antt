-- ===== src/Log/Examples.antt =====
-- The theorems on logging at concrete messages.
use p_base.Base.{◌≡◌, refl, arith, List, [], ◌∷◌, leb}
use p_base.Log.Sinker.{
  LogSinker, flush_buffer_size, new_sinker, append_buf, sync_with_front, flush, work_round,
  LogEvent, message, sync_step, flush_step,
}
use p_base.Log.Sinker.Contents.{all_text, IsSinker}
use p_base.Log.Sinker.Overwrite.{append_buf-within, flush-sync_with_front}
use p_base.Log.Sinker.Rounds.{work_round-output, new_sinker-IsSinker}
use p_base.Log.Sinker.Append.{append_buf-Keeps}

-- Two messages, a round, and one more.
abbrev three_messages : List LogEvent
three_messages =
    message (65 ∷ 66 ∷ []) ∷ message (67 ∷ []) ∷ sync_step ∷ flush_step ∷ message (68 ∷ []) ∷ []

abbrev two_waiting : LogSinker
unfolding append_buf
two_waiting = append_buf (67 ∷ 68 ∷ []) new_sinker

two_waiting-IsSinker : IsSinker two_waiting
unfolding two_waiting append_buf
two_waiting-IsSinker =
    (append_buf-Keeps new_sinker (67 ∷ 68 ∷ []) new_sinker-IsSinker (omega arith)).valid

work_round-output_example :
    ((work_round two_waiting).output ≡ all_text two_waiting)
    × (all_text (work_round two_waiting) ≡ all_text two_waiting)
    × IsSinker (work_round two_waiting)
work_round-output_example = work_round-output two_waiting two_waiting-IsSinker

append_buf-within_example :
    leb (append_buf (69 ∷ []) two_waiting).cur_ptr (append_buf (69 ∷ []) two_waiting).end_ptr
    ≡ leb 1 flush_buffer_size
append_buf-within_example = append_buf-within two_waiting (69 ∷ []) two_waiting-IsSinker

-- The 69 is output twice, and the 67 never, where the messages are 67, 68 and 69.
flush-sync_with_front_example :
    (flush (append_buf (69 ∷ []) (sync_with_front two_waiting))).output ≡ 69 ∷ 68 ∷ []
unfolding two_waiting append_buf
flush-sync_with_front_example =
    flush-sync_with_front two_waiting (69 ∷ []) 0 two_waiting-IsSinker refl refl (omega arith)
      (omega arith)
