-- ===== src/Log/Pattern/Tests.antt =====
-- Runs of `LogFormatter::Init`, and the theorems on it at concrete patterns.
use sylar_study.Prelude.{◌≡◌, refl, false, List, [], ◌∷◌, ok, inl, inr, All}
use sylar_study.Log.Pattern.{
  Bytes, Item, msg, new_line, date_time, text, log_level, parse, init, loop, finish, step,
  transform, get_event, find_item,
}
use sylar_study.Log.Pattern.Buffer.{empty, parse_buffer, parse-parse_buffer}
use sylar_study.Log.Pattern.Printing.{print, print_item}
use sylar_study.Log.Pattern.RoundTrip.{IsGood, Spaced, parse-print}
use sylar_study.Log.Pattern.Sound.{parse-print_eq}

-- `a%d{H}%L%%%n`.
abbrev items : List Item
items = text (b'a' ∷ []) ∷ date_time (b'H' ∷ []) ∷ log_level ∷ text (b'%' ∷ []) ∷ new_line ∷ []

abbrev pattern : Bytes
pattern = b'a' ∷ b'%' ∷ b'd' ∷ b'{' ∷ b'H' ∷ b'}' ∷ b'%' ∷ b'L' ∷ b'%' ∷ b'%' ∷ b'%' ∷ b'n' ∷ []

-- A letter that no item has is left out and reported.
parse_rejects : parse (b'%' ∷ b'q' ∷ b'%' ∷ b'm' ∷ []) ≡ ok (msg ∷ [], b'q' ∷ [])
unfolding parse init loop finish step transform get_event find_item
parse_rejects = refl

items-IsGood : All IsGood items
items-IsGood = (inr ((λ e. cc), (refl, tt)), ((refl, tt), (tt, (inl refl, (tt, tt)))))

items-Spaced : Spaced false items
items-Spaced = (refl, (refl, (refl, (refl, (refl, tt)))))

parse-print_example : parse (print items) ≡ ok (items, [])
parse-print_example = parse-print items items-IsGood items-Spaced

pattern-eq : parse pattern ≡ ok (items, [])
unfolding print print_item
pattern-eq = parse-print items items-IsGood items-Spaced

parse-print_eq_example : print items ≡ pattern
parse-print_eq_example = parse-print_eq pattern pattern-eq

parse-parse_buffer_example : parse pattern ≡ parse_buffer empty pattern
parse-parse_buffer_example = parse-parse_buffer pattern
