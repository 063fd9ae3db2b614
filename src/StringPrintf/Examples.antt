-- ===== src/StringPrintf/Examples.antt =====
-- Formatted text that has room and that has none.
use p_base.Base.{ℕ, ◌≡◌, arith, some, List, [], ◌∷◌, ◌++◌}
use p_base.StringPrintf.{Text, string_append_v, string_print_v}
use p_base.StringPrintf.Appends.{text_of, length_of, string_append_v-string_print_v}

abbrev short : Text
short = record { chars = b'a' ∷ b'b' ∷ []; capacity = 3 }

abbrev printed : List ℕ
printed = b'1' ∷ b'2' ∷ b'3' ∷ []

string_append_v-string_print_v_example :
    ((string_append_v 15 (some printed) short).0 ≡ length_of (some printed))
    × ((string_append_v 15 (some printed) short).1.chars ≡ short.chars ++ text_of (some printed))
    × ((string_print_v 15 (some printed) short).0 ≡ length_of (some printed))
    × ((string_print_v 15 (some printed) short).1.chars ≡ text_of (some printed))
string_append_v-string_print_v_example =
    string_append_v-string_print_v 15 (some printed) short (omega arith)
