-- ===== src/Buffer/Examples.antt =====
-- The theorems on growing buffers at an empty buffer.
use p_base.Base.{ℕ, refl, sym, arith, List, [], ◌∷◌}
use p_base.Buffer.{new_buffer, append}
use p_base.Buffer.Growth.{IsBuffer, Appends, append-Appends, true_not_false}

abbrev three : List ℕ
three = b'f' ∷ b'g' ∷ b'h' ∷ []

new_buffer-IsBuffer : IsBuffer new_buffer
new_buffer-IsBuffer = record { fits = λ e. absurd (true_not_false (sym e)); nothing = λ e. refl }

append-Appends_example : Appends three new_buffer (append three new_buffer)
append-Appends_example = append-Appends three new_buffer new_buffer-IsBuffer (omega arith)
