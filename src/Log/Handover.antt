-- ===== src/Log/Handover.antt =====
-- The end of a message (src/logger.cpp): its line goes to the thread that writes the log.
use p_base.Base.{
  ℕ, ◌+◌, ◌≤◌, ◌<◌, ◌≡◌, refl, subst, sym, arith, true, false, Option, none, some, leb, List, [],
  ◌∷◌, ◌++◌, length, Bool-cases, inl, inr, length-append,
}
use p_base.Log.Levels.{LogSettings}
use p_base.Log.Stream.{LogStream, avail, append_place, put, sink, sink_of}
use p_base.Log.Stream.Bounds.{IsStream}
use p_base.Log.Stream.Past.{IsSource, append_place-Placed}
use p_base.Log.Sinker.{LogSinker, append_buf, flush_buffer_size}
use p_base.Log.Sinker.Contents.{IsSinker}
use p_base.Log.Sinker.Append.{Keeps, append_buf-Keeps}

unfoldable pub hand_over : Option (List ℕ) → LogSinker → LogSinker
unfolding append_buf
hand_over none k = k
hand_over (some line) k = append_buf line k

unplaced :
    (s : LogStream) → leb (s.source_file.name_size + 32) (avail s) ≡ false → append_place s ≡ s
unfolding append_place
unplaced s e = rw e refl

length-append_place :
    (s : LogStream) → IsStream s → IsSource s.source_file → length (append_place s).text ≤ s.limit
length-append_place s v f = elim (Bool-cases (leb (s.source_file.name_size + 32) (avail s))) [
  | inl e ↦ omega (arith, (append_place-Placed s v f (ground arith)).left)
  | inr e ↦ rw (unplaced s e) v.within
]

-- With buffers for messages that are smaller than 32 KiB, the line of a message that is within its
-- buffer is kept whole by the thread that writes the log, behind all that was logged before.
pub sink-Keeps :
    (g : LogSettings) (s : LogStream) (k : LogSinker)
    → IsStream s
    → IsSource s.source_file
    → s.auto_flush ≡ true
    → s.limit < flush_buffer_size
    → IsSinker k
    → Keeps k ((append_place s).text ++ b'\n' ∷ []) (hand_over (sink g s).buffered k)
unfolding sink hand_over put
sink-Keeps g s k v f a h w =
    let line = (append_place s).text ++ b'\n' ∷ [] in
    subst (λ o. Keeps k line (hand_over (sink_of o g s).buffered k)) (sym a)
      (append_buf-Keeps k line w (
        omega (arith, length-append (append_place s).text (b'\n' ∷ []), length-append_place s v f)))
