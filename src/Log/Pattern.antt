-- ===== src/Log/Pattern.antt =====
-- `LogFormatter::Init` and its helpers (sylar/base/log.cpp): the table-driven scan of a pattern
-- into formatter items. A pattern is its list of bytes.
mod Tests
pub mod Buffer
pub mod Printing
pub mod RoundTrip
pub mod Steps
pub mod Sound
pub use sylar_study.Prelude.{Bytes}
use sylar_study.Prelude.{
  ◌≡◌, refl, ℕ, zero, suc, ◌+◌, ◌-◌, Bool, true, false, List, [], ◌∷◌, ◌++◌, Option, none, some,
  ◌==◌, if◌then◌else◌, Outcome, ok, fault, thrown, ◌>>=◌,
}

-- The classes of formatter items; the item of `%%` is a text.
pub data Item : Type 0 where
  msg new_line line_num tab file_name thread_id logger_name log_level routine_id : Item
  text date_time : Bytes → Item

pub data Event : Type 0 where
  percent alpha_d brace back_brace other : Event

pub data State : Type 0 where
  start text_begin text_keep percent_after_text single_percent try_add_item double_percent : State
  wait_brace time_format_begin time_format_keep time_format_end invalid : State

pub get_event : ℕ → Event
get_event c =
    if c == b'%'
    then percent
    else if c == b'd'
    then alpha_d
    else if c == b'{'
    then brace
    else if c == b'}'
    then back_brace
    else other

-- The rows of `transform_table` that several states share.
abbrev on_rest : Event → State
on_rest percent = single_percent
on_rest _ = text_begin

abbrev on_text : Event → State
on_text percent = percent_after_text
on_text _ = text_keep

abbrev on_percent : Event → State
on_percent percent = double_percent
on_percent alpha_d = wait_brace
on_percent brace = invalid
on_percent back_brace = invalid
on_percent other = try_add_item

abbrev on_wait : Event → State
on_wait brace = time_format_begin
on_wait _ = invalid

abbrev on_time : Event → State
on_time back_brace = time_format_end
on_time _ = time_format_keep

-- `transform_table`.
pub transform : State → Event → State
transform start e = on_rest e
transform text_begin e = on_text e
transform text_keep e = on_text e
transform percent_after_text e = on_percent e
transform single_percent e = on_percent e
transform try_add_item e = on_rest e
transform double_percent e = on_rest e
transform wait_brace e = on_wait e
transform time_format_begin e = on_time e
transform time_format_keep e = on_time e
transform time_format_end e = on_rest e
transform invalid e = invalid

-- `s_formatter_item_set`.
pub find_item : ℕ → Option Item
find_item c =
    if c == b'm'
    then some msg
    else if c == b'c'
    then some logger_name
    else if c == b'L'
    then some log_level
    else if c == b'l'
    then some line_num
    else if c == b't'
    then some tab
    else if c == b'n'
    then some new_line
    else if c == b'f'
    then some file_name
    else if c == b'T'
    then some thread_id
    else if c == b'R'
    then some routine_id
    else if c == b'%'
    then some (text (b'%' ∷ []))
    else none

abbrev pub take : ℕ → Bytes → Bytes
take zero xs = []
take (suc n) [] = []
take (suc n) (x ∷ xs) = x ∷ take n xs

abbrev pub drop : ℕ → Bytes → Bytes
drop zero xs = xs
drop (suc n) [] = []
drop (suc n) (x ∷ xs) = drop n xs

-- `pattern_.substr(begin, n)`, for a `begin` in range.
abbrev pub substr : Bytes → ℕ → ℕ → Bytes
substr pattern begin n = take n (drop begin pattern)

-- The locals of `Init` and `items_`; `rejected` holds the ids of unknown items that were logged.
pub record Scan : Type 0 where
  pub state : State
  pub first : ℕ
  pub second : ℕ
  pub items : List Item
  pub rejected : Bytes

abbrev pub push_item : Scan → Item → Scan
push_item p x = record p { items = p.items ++ x ∷ [] }

handle_double_percent : Scan → Scan
handle_double_percent p = push_item p (text (b'%' ∷ []))

handle_percent_after_text : Bytes → Scan → Scan
handle_percent_after_text pattern p =
    push_item p (text (substr pattern p.first (p.second - p.first)))

handle_ending_with_text : Bytes → Scan → Scan
handle_ending_with_text pattern p = push_item p (text (drop p.first pattern))

handle_try_add_item : ℕ → Scan → Scan
handle_try_add_item c p = elim (find_item c) [
  | some x ↦ push_item p x
  | none ↦ record p { rejected = p.rejected ++ c ∷ [] }
]

handle_time_format_end : Bytes → Scan → Scan
handle_time_format_end pattern p =
    push_item p (date_time (substr pattern (p.first + 1) (p.second - p.first - 1)))

-- The `switch` of the loop, at the byte `c` of index `i`.
enter : State → Bytes → ℕ → ℕ → Scan → Outcome Scan
unfolding handle_double_percent handle_percent_after_text handle_try_add_item handle_time_format_end
enter start pattern i c p = ok p
enter text_keep pattern i c p = ok p
enter single_percent pattern i c p = ok p
enter wait_brace pattern i c p = ok p
enter time_format_keep pattern i c p = ok p
enter text_begin pattern i c p = ok (record p { first = i })
enter time_format_begin pattern i c p = ok (record p { first = i })
enter percent_after_text pattern i c p =
    ok (record (handle_percent_after_text pattern (record p { second = i })) {
      first = 0;
      second = 0;
    })
enter try_add_item pattern i c p = ok (handle_try_add_item c p)
enter double_percent pattern i c p = ok (handle_double_percent p)
enter time_format_end pattern i c p =
    ok (record (handle_time_format_end pattern (record p { second = i })) { first = 0; second = 0 })
enter invalid pattern i c p = fault thrown

step : Bytes → ℕ → ℕ → Scan → Outcome Scan
unfolding enter
step pattern i c p =
    let s = transform p.state (get_event c) in enter s pattern i c (record p { state = s })

-- The loop, on the bytes from the index `i` on.
loop : Bytes → ℕ → Bytes → Scan → Outcome Scan
loop pattern i [] p = ok p
loop pattern i (c ∷ cs) p = do q ← step pattern i c p; loop pattern (i + 1) cs q

-- The test behind the loop.
finish : State → Bytes → Scan → Outcome Scan
unfolding handle_ending_with_text
finish text_begin pattern p = ok (handle_ending_with_text pattern p)
finish text_keep pattern p = ok (handle_ending_with_text pattern p)
finish percent_after_text pattern p = fault thrown
finish single_percent pattern p = fault thrown
finish wait_brace pattern p = fault thrown
finish time_format_begin pattern p = fault thrown
finish time_format_keep pattern p = fault thrown
finish start pattern p = ok p
finish try_add_item pattern p = ok p
finish double_percent pattern p = ok p
finish time_format_end pattern p = ok p
finish invalid pattern p = ok p

abbrev pub initial : Scan
initial = record { state = start; first = 0; second = 0; items = []; rejected = [] }

-- `LogFormatter::Init`.
pub init : Bytes → Outcome Scan
init pattern = do p ← loop pattern 0 pattern initial; finish p.state pattern p

-- What a constructed formatter holds, and the ids that were logged as unknown.
pub parse : Bytes → Outcome (List Item × Bytes)
parse pattern = do p ← init pattern; ok (p.items, p.rejected)
