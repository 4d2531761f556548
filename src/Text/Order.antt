-- ===== src/Text/Order.antt =====
-- The order of texts by their bytes, and with it by their characters: `Ord` of Rust's strings, and
-- the comparison of texts in SQLite.
use green_relay.Prelude.{Bool, true, false, [], ◌∷◌, ltb, ◌==◌, if◌then◌else◌}
use green_relay.Text.{Text}

unfoldable pub text_lt : Text → Text → Bool
text_lt s [] = false
text_lt [] (d ∷ t) = true
text_lt (c ∷ s) (d ∷ t) = if c == d then text_lt s t else ltb c d
