-- ===== src/Log/Pattern/Printing.antt =====
-- The pattern that a list of formatter items comes from, and what `LogFormatter::Init`
-- (sylar/base/log.cpp) does with it: reading and printing are inverse to one another.
use sylar_study.Prelude.{
  ℕ, ◌≡◌, refl, sym, ap, ◌∙◌, Bool, false, List, [], ◌∷◌, ◌++◌, some, arith, ◌==◌, if◌then◌else◌,
}
use mathlib.Core.List.{append_assoc, append-nil}
use sylar_study.Log.Pattern.{
  Bytes, Item, msg, new_line, line_num, tab, file_name, thread_id, logger_name, log_level,
  routine_id, text, date_time, percent, other, get_event, find_item,
}

-- No byte of the text is the given one.
abbrev pub Lacks : ℕ → Bytes → Type 0
Lacks a [] = Unit
Lacks a (c ∷ cs) = ((c == a) ≡ false) × Lacks a cs

abbrev pub percent_text : Bytes → Bool
percent_text [] = false
percent_text (c ∷ []) = c == b'%'
percent_text (c ∷ d ∷ cs) = false

-- The part of a pattern that stands for an item.
unfoldable pub print_item : Item → Bytes
print_item msg = b'%' ∷ b'm' ∷ []
print_item logger_name = b'%' ∷ b'c' ∷ []
print_item log_level = b'%' ∷ b'L' ∷ []
print_item line_num = b'%' ∷ b'l' ∷ []
print_item tab = b'%' ∷ b't' ∷ []
print_item new_line = b'%' ∷ b'n' ∷ []
print_item file_name = b'%' ∷ b'f' ∷ []
print_item thread_id = b'%' ∷ b'T' ∷ []
print_item routine_id = b'%' ∷ b'R' ∷ []
print_item (text t) = if percent_text t then b'%' ∷ b'%' ∷ [] else t
print_item (date_time f) = b'%' ∷ b'd' ∷ b'{' ∷ (f ++ b'}' ∷ [])

unfoldable pub print : List Item → Bytes
print [] = []
print (x ∷ xs) = print_item x ++ print xs

pub print-append : (xs ys : List Item) → print (xs ++ ys) ≡ print xs ++ print ys
unfolding print
print-append [] ys = refl
print-append (x ∷ xs) ys =
    ap (λ l. print_item x ++ l) (print-append xs ys)
    ∙ sym (append_assoc (print_item x) (print xs) (print ys))

pub print-push : (xs : List Item) (x : Item) → print (xs ++ x ∷ []) ≡ print xs ++ print_item x
unfolding print
print-push xs x = print-append xs (x ∷ []) ∙ ap (λ l. print xs ++ l) (append-nil (print_item x))

pub Lacks-push : (a c : ℕ) (cs : Bytes) → Lacks a cs → (c == a) ≡ false → Lacks a (cs ++ c ∷ [])
Lacks-push a c [] l h = (h, tt)
Lacks-push a c (x ∷ cs) l h = (l.0, Lacks-push a c cs l.1 h)

pub percent_text-Lacks : (t : Bytes) → Lacks b'%' t → percent_text t ≡ false
percent_text-Lacks [] l = refl
percent_text-Lacks (c ∷ []) l = l.0
percent_text-Lacks (c ∷ d ∷ cs) l = refl

pub print_item-text : (t : Bytes) → Lacks b'%' t → print_item (text t) ≡ t
unfolding print_item
print_item-text t l = rw (percent_text-Lacks t l)

pub get_event-percent : (c : ℕ) → get_event c ≡ percent → c ≡ b'%'
unfolding get_event
get_event-percent c h = ground arith

pub find_item-print :
    (c : ℕ) (x : Item) → get_event c ≡ other → find_item c ≡ some x → print_item x ≡ b'%' ∷ c ∷ []
unfolding find_item print_item get_event
find_item-print c x e h = ground arith
