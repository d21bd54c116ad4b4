-- ===== src/Log/Pattern/RoundTrip.antt =====
-- `LogFormatter::Init` (sylar/base/log.cpp) reads back the items that a pattern was printed from.
use sylar_study.Prelude.{
  ℕ, ◌≡◌, ◌≢◌, refl, sym, subst, ap, ◌∙◌, Bool, true, false, not, ◌&&◌, List, [], ◌∷◌, ◌++◌, some,
  arith, ok, Bool-cases, inl, inr, ◌⊎◌, All,
}
use mathlib.Core.Bool.{false≢true}
use mathlib.Core.List.{append_assoc, append-nil}
use sylar_study.Log.Pattern.{
  Bytes, Item, msg, new_line, line_num, tab, file_name, thread_id, logger_name, log_level,
  routine_id, text, date_time, other, State, start, text_begin, text_keep, percent_after_text,
  single_percent, try_add_item, double_percent, wait_brace, time_format_begin, time_format_end,
  get_event, find_item, parse,
}
use sylar_study.Log.Pattern.Buffer.{
  Buffer, step_buffer, run_buffer, finish_buffer, parse_buffer, parse-parse_buffer,
}
use sylar_study.Log.Pattern.Printing.{Lacks, percent_text, print_item, print}
use sylar_study.Log.Pattern.Steps.{
  at, IsRest, IsText, IsPercent, parse-step, rest_percent, rest_other, text_percent, percent_letter,
  percent_percent, percent_d, wait_open, read_time, read-IsText,
}

-- A text is `%`, or is not empty and holds no `%`; a time format holds no `}`.
abbrev pub IsGood : Item → Type 0
IsGood (text t) = (t ≡ b'%' ∷ []) ⊎ ((t ≢ []) × Lacks b'%' t)
IsGood (date_time f) = Lacks b'}' f
IsGood _ = Unit

abbrev pub is_plain : Item → Bool
is_plain (text t) = not (percent_text t)
is_plain _ = false

-- No two texts but `%` stand side by side; `after` says whether one stands before the list.
abbrev pub Spaced : Bool → List Item → Type 0
Spaced after [] = Unit
Spaced after (x ∷ xs) = ((after && is_plain x) ≡ false) × Spaced (is_plain x) xs

percent_text-eq : (t : Bytes) → percent_text t ≡ true → t ≡ b'%' ∷ []
percent_text-eq [] e = cc
percent_text-eq (c ∷ []) e = ground arith
percent_text-eq (c ∷ d ∷ cs) e = cc

-- From a percent sign on, an item that is not a plain text is read whole.
module _ (rest : Bytes) (b : Buffer) (s : State) (h : Bytes) (xs : List Item) (r : IsPercent s)
    (p : step_buffer b'%' b ≡ ok (at s h xs)) where
  abbrev ReadsItem : Item → Type 0
  ReadsItem x =
      (s' : State) × (h' : Bytes) × IsRest s'
      × (parse_buffer b (print_item x ++ rest) ≡ parse_buffer (at s' h' (xs ++ x ∷ [])) rest)

  read_letter :
      (c : ℕ) (x : Item)
      → get_event c ≡ other
      → find_item c ≡ some x
      → parse_buffer b (b'%' ∷ c ∷ rest) ≡ parse_buffer (at try_add_item h (xs ++ x ∷ [])) rest
  read_letter c x g f =
      parse-step b'%' (c ∷ rest) b (at s h xs) p
      ∙ parse-step c rest (at s h xs) _ (percent_letter h xs s c x r g f)

  read_item : (x : Item) → is_plain x ≡ false → IsGood x → ReadsItem x
  unfolding print_item get_event find_item
  read_item msg n g = (try_add_item, h, tt, read_letter b'm' msg refl refl)
  read_item new_line n g = (try_add_item, h, tt, read_letter b'n' new_line refl refl)
  read_item line_num n g = (try_add_item, h, tt, read_letter b'l' line_num refl refl)
  read_item tab n g = (try_add_item, h, tt, read_letter b't' tab refl refl)
  read_item file_name n g = (try_add_item, h, tt, read_letter b'f' file_name refl refl)
  read_item thread_id n g = (try_add_item, h, tt, read_letter b'T' thread_id refl refl)
  read_item logger_name n g = (try_add_item, h, tt, read_letter b'c' logger_name refl refl)
  read_item log_level n g = (try_add_item, h, tt, read_letter b'L' log_level refl refl)
  read_item routine_id n g = (try_add_item, h, tt, read_letter b'R' routine_id refl refl)
  read_item (text t) n g =
      let e : t ≡ b'%' ∷ [] = percent_text-eq t (ground arith) in
      subst (λ t. ReadsItem (text t)) (sym e)
        (
          double_percent,
          h,
          tt,
          parse-step b'%' (b'%' ∷ rest) b (at s h xs) p
              ∙ parse-step b'%' rest (at s h xs) _ (percent_percent h xs s r),
        )
  read_item (date_time f) n g = (
    time_format_end,
    f,
    tt,
    parse-step b'%' _ b (at s h xs) p
        ∙ parse-step b'd' _ (at s h xs) _ (percent_d h xs s r)
        ∙ parse-step b'{' _ (at wait_brace h xs) _ (wait_open h xs)
        ∙ ap (parse_buffer (at time_format_begin [] xs)) (append_assoc f (b'}' ∷ []) rest)
        ∙ read_time f rest [] xs time_format_begin tt g,
  )

-- Between two items: `acc` are the items before, the last of which may be a text still held.
abbrev Settled : Bool → State → Bytes → List Item → List Item → Type 0
Settled false s h its acc = IsRest s × (its ≡ acc)
Settled true s h its acc = IsText s × (its ++ text h ∷ [] ≡ acc)

Settled-IsPercent :
    (after : Bool) (s : State) (h : Bytes) (its acc : List Item)
    → Settled after s h its acc
    → (s' : State) × IsPercent s' × (step_buffer b'%' (at s h its) ≡ ok (at s' h acc))
Settled-IsPercent false s h its acc (r, e) = (single_percent, tt, rw (← e) (rest_percent h its s r))
Settled-IsPercent true s h its acc (r, e) =
    (percent_after_text, tt, rw (← e) (text_percent h its s r))

plain_text : (t : Bytes) → IsGood (text t) → percent_text t ≡ false → (t ≢ []) × Lacks b'%' t
plain_text t (inl e) n = absurd (false≢true (sym n ∙ ap percent_text e))
plain_text t (inr g) n = g

read_plain :
    (t rest h : Bytes) (xs : List Item) (s : State)
    → IsRest s
    → (t ≢ []) × Lacks b'%' t
    → (s' : State) × IsText s'
      × (parse_buffer (at s h xs) (t ++ rest) ≡ parse_buffer (at s' t xs) rest)
read_plain [] rest h xs s r (n, l) = absurd (n refl)
read_plain (c ∷ t) rest h xs s r (n, l) =
    let (s', r', e) = read-IsText t rest (c ∷ []) xs text_begin tt l.1 in
    (s', r', parse-step c (t ++ rest) (at s h xs) _ (rest_other h xs s c r l.0) ∙ e)

parse_rest :
    (s : State) (h : Bytes) (acc : List Item)
    → IsRest s
    → parse_buffer (at s h acc) [] ≡ ok (acc, [])
unfolding parse_buffer run_buffer finish_buffer
parse_rest start h acc r = refl
parse_rest try_add_item h acc r = refl
parse_rest double_percent h acc r = refl
parse_rest time_format_end h acc r = refl
parse_rest _ h acc r = absurd r

parse_text :
    (s : State) (h : Bytes) (its : List Item)
    → IsText s
    → parse_buffer (at s h its) [] ≡ ok (its ++ text h ∷ [], [])
unfolding parse_buffer run_buffer finish_buffer
parse_text text_begin h its r = refl
parse_text text_keep h its r = refl
parse_text _ h its r = absurd r

parse_end :
    (after : Bool) (s : State) (h : Bytes) (its acc : List Item)
    → Settled after s h its acc
    → parse_buffer (at s h its) [] ≡ ok (acc, [])
parse_end false s h its acc (r, e) = rw (← e) (parse_rest s h its r)
parse_end true s h its acc (r, e) = rw (← e) (parse_text s h its r)

ReadsItems : Bool → List Item → Type 0
ReadsItems after xs =
    (s : State) (h : Bytes) (its acc : List Item)
    → Settled after s h its acc
    → All IsGood xs
    → Spaced after xs
    → parse_buffer (at s h its) (print xs) ≡ ok (acc ++ xs, [])

-- After a plain text comes no other one.
read_after_plain :
    (x : Item) (xs : List Item)
    → ReadsItems true xs
    → is_plain x ≡ true
    → (s : State) (h : Bytes) (its acc : List Item) (after : Bool) → Settled after s h its acc
    → All IsGood (x ∷ xs)
    → Spaced after (x ∷ xs)
    → parse_buffer (at s h its) (print (x ∷ xs)) ≡ ok (acc ++ x ∷ xs, [])
unfolding print print_item ReadsItems
read_after_plain (text t) xs ih n s h its acc true w g d = absurd (false≢true (sym d.0 ∙ n))
read_after_plain (text t) xs ih n s h its acc false (r, e) g d =
    let no : percent_text t ≡ false = ground arith in
    let (s', r', q) = read_plain t (print xs) h its s r (plain_text t g.0 no) in
    let next =
      ih s' t its (acc ++ text t ∷ []) (r', ap (λ l. l ++ text t ∷ []) e) g.1 (rw n at d.1) in
    rw no (q ∙ next ∙ ap (λ l. ok (l, [])) (append_assoc acc (text t ∷ []) xs))
read_after_plain x xs ih n s h its acc after w g d = absurd (false≢true n)

parse-items : (xs : List Item) (after : Bool) → ReadsItems after xs
unfolding print ReadsItems
parse-items [] after s h its acc w g d =
    parse_end after s h its acc w ∙ ap (λ l. ok (l, [])) (sym (append-nil acc))
parse-items (x ∷ xs) after s h its acc w g d = elim (Bool-cases (is_plain x)) [
  | inl n ↦ read_after_plain x xs (parse-items xs true) n s h its acc after w g d
  | inr n ↦
      let (s1, r1, q1) = Settled-IsPercent after s h its acc w in
      let (s2, h2, r2, q2) = read_item (print xs) (at s h its) s1 h acc r1 q1 x n g.0 in
      let next =
        parse-items xs false s2 h2 (acc ++ x ∷ []) (acc ++ x ∷ []) (r2, refl) g.1 (rw n at d.1) in
      q2 ∙ next ∙ ap (λ l. ok (l, [])) (append_assoc acc (x ∷ []) xs)
]

-- Items whose texts and time formats can be written in a pattern, with no two plain texts side by
-- side, are read back from the pattern that they print as, and no id is rejected.
pub parse-print :
    (items : List Item)
    → All IsGood items
    → Spaced false items
    → parse (print items) ≡ ok (items, [])
unfolding ReadsItems
parse-print items g d =
    parse-parse_buffer (print items) ∙ parse-items items false start [] [] [] (tt, refl) g d
