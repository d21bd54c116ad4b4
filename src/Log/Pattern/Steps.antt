-- ===== src/Log/Pattern/Steps.antt =====
-- Single steps of the scan of `LogFormatter::Init` (sylar/base/log.cpp) between two items.
use sylar_study.Prelude.{ℕ, ◌≡◌, ◌≢◌, refl, ◌∙◌, false, List, [], ◌∷◌, ◌++◌, some, arith, ok, ◌==◌}
use mathlib.Core.List.{append_assoc, append-nil}
use sylar_study.Log.Pattern.{
  Bytes, Item, text, date_time, percent, other, State, start, text_begin, text_keep,
  percent_after_text, single_percent, try_add_item, double_percent, wait_brace, time_format_begin,
  time_format_keep, time_format_end, get_event, transform, find_item,
}
use sylar_study.Log.Pattern.Buffer.{
  Buffer, add_found, enter_buffer, step_buffer, run_buffer, parse_buffer,
}
use sylar_study.Log.Pattern.Printing.{Lacks}

abbrev pub at : State → Bytes → List Item → Buffer
at s held items = record { state = s; held = held; items = items; rejected = [] }

abbrev pub IsRest : State → Type 0
IsRest start = Unit
IsRest try_add_item = Unit
IsRest double_percent = Unit
IsRest time_format_end = Unit
IsRest _ = ⊥

abbrev pub IsText : State → Type 0
IsText text_begin = Unit
IsText text_keep = Unit
IsText _ = ⊥

abbrev pub IsPercent : State → Type 0
IsPercent percent_after_text = Unit
IsPercent single_percent = Unit
IsPercent _ = ⊥

abbrev pub IsTime : State → Type 0
IsTime time_format_begin = Unit
IsTime time_format_keep = Unit
IsTime _ = ⊥

pub parse-step :
    (c : ℕ) (cs : Bytes) (b q : Buffer)
    → step_buffer c b ≡ ok q
    → parse_buffer b (c ∷ cs) ≡ parse_buffer q cs
unfolding parse_buffer run_buffer
parse-step c cs b q e = rw e

event_of_text : (c : ℕ) → (c == b'%') ≡ false → get_event c ≢ percent
unfolding get_event
event_of_text c h e = ground arith

module _ (h : Bytes) (xs : List Item) where
  pub rest_percent :
      (s : State) → IsRest s → step_buffer b'%' (at s h xs) ≡ ok (at single_percent h xs)
  unfolding step_buffer enter_buffer transform get_event
  rest_percent start r = refl
  rest_percent try_add_item r = refl
  rest_percent double_percent r = refl
  rest_percent time_format_end r = refl
  rest_percent _ r = absurd r

  pub rest_other :
      (s : State) (c : ℕ)
      → IsRest s
      → (c == b'%') ≡ false
      → step_buffer c (at s h xs) ≡ ok (at text_begin (c ∷ []) xs)
  unfolding step_buffer enter_buffer transform get_event
  rest_other start c r e = ground arith
  rest_other try_add_item c r e = ground arith
  rest_other double_percent c r e = ground arith
  rest_other time_format_end c r e = ground arith
  rest_other _ c r e = absurd r

  pub text_percent :
      (s : State)
      → IsText s
      → step_buffer b'%' (at s h xs) ≡ ok (at percent_after_text h (xs ++ text h ∷ []))
  unfolding step_buffer enter_buffer transform get_event
  text_percent text_begin r = refl
  text_percent text_keep r = refl
  text_percent _ r = absurd r

  text_other :
      (s : State) (c : ℕ)
      → IsText s
      → (c == b'%') ≡ false
      → step_buffer c (at s h xs) ≡ ok (at text_keep (h ++ c ∷ []) xs)
  unfolding step_buffer enter_buffer transform get_event
  text_other text_begin c r e = ground arith
  text_other text_keep c r e = ground arith
  text_other _ c r e = absurd r

  pub percent_letter :
      (s : State) (c : ℕ) (x : Item)
      → IsPercent s
      → get_event c ≡ other
      → find_item c ≡ some x
      → step_buffer c (at s h xs) ≡ ok (at try_add_item h (xs ++ x ∷ []))
  unfolding step_buffer enter_buffer transform add_found
  percent_letter percent_after_text c x r g f = rw (g, f)
  percent_letter single_percent c x r g f = rw (g, f)
  percent_letter _ c x r g f = absurd r

  pub percent_percent :
      (s : State)
      → IsPercent s
      → step_buffer b'%' (at s h xs) ≡ ok (at double_percent h (xs ++ text (b'%' ∷ []) ∷ []))
  unfolding step_buffer enter_buffer transform get_event
  percent_percent percent_after_text r = refl
  percent_percent single_percent r = refl
  percent_percent _ r = absurd r

  pub percent_d : (s : State) → IsPercent s → step_buffer b'd' (at s h xs) ≡ ok (at wait_brace h xs)
  unfolding step_buffer enter_buffer transform get_event
  percent_d percent_after_text r = refl
  percent_d single_percent r = refl
  percent_d _ r = absurd r

  pub wait_open : step_buffer b'{' (at wait_brace h xs) ≡ ok (at time_format_begin [] xs)
  unfolding step_buffer enter_buffer transform get_event
  wait_open = refl

  time_close :
      (s : State)
      → IsTime s
      → step_buffer b'}' (at s h xs) ≡ ok (at time_format_end h (xs ++ date_time h ∷ []))
  unfolding step_buffer enter_buffer transform get_event
  time_close time_format_begin r = refl
  time_close time_format_keep r = refl
  time_close _ r = absurd r

  time_other :
      (s : State) (c : ℕ)
      → IsTime s
      → (c == b'}') ≡ false
      → step_buffer c (at s h xs) ≡ ok (at time_format_keep (h ++ c ∷ []) xs)
  unfolding step_buffer enter_buffer transform get_event
  time_other time_format_begin c r e = ground arith
  time_other time_format_keep c r e = ground arith
  time_other _ c r e = absurd r

-- Reading the bytes of a time format, and of a text.
pub read_time :
    (f rest h : Bytes) (xs : List Item) (s : State)
    → IsTime s
    → Lacks b'}' f
    → parse_buffer (at s h xs) (f ++ b'}' ∷ rest)
      ≡ parse_buffer (at time_format_end (h ++ f) (xs ++ date_time (h ++ f) ∷ [])) rest
read_time [] rest h xs s r l = rw (append-nil h) (parse-step b'}' rest _ _ (time_close h xs s r))
read_time (c ∷ f) rest h xs s r l =
    parse-step c (f ++ b'}' ∷ rest) _ _ (time_other h xs s c r l.0)
    ∙ read_time f rest (h ++ c ∷ []) xs time_format_keep tt l.1
    ∙ (rw (append_assoc h (c ∷ []) f) refl)

pub read-IsText :
    (t rest h : Bytes) (xs : List Item) (s : State)
    → IsText s
    → Lacks b'%' t
    → (s' : State) × IsText s'
      × (parse_buffer (at s h xs) (t ++ rest) ≡ parse_buffer (at s' (h ++ t) xs) rest)
read-IsText [] rest h xs s r l = (s, r, rw (append-nil h))
read-IsText (c ∷ t) rest h xs s r l =
    let (s', r', e) = read-IsText t rest (h ++ c ∷ []) xs text_keep tt l.1 in
    (
      s',
      r',
      parse-step c (t ++ rest) _ _ (text_other h xs s c r l.0)
          ∙ e
          ∙ (rw (append_assoc h (c ∷ []) t) refl),
    )
