-- ===== src/Log/Pattern/Buffer.antt =====
-- The scan of `LogFormatter::Init` (sylar/base/log.cpp) without positions: a machine that keeps the
-- text it is in, and the proof that the index ranges of the source always cut out that text.
use sylar_study.Prelude.{
  ℕ, zero, suc, ◌+◌, ◌-◌, ◌≤◌, ◌≡◌, refl, sym, subst, ap, ◌∙◌, List, [], ◌∷◌, ◌++◌, Option, none,
  some, arith, Outcome, ok, fault, thrown, ◌>>=◌, length, length-append,
}
use mathlib.Core.List.{append_assoc, append-nil}
use sylar_study.Log.Pattern.{
  Bytes, Item, text, date_time, parse, Event, percent, State, start, text_begin, text_keep,
  percent_after_text, single_percent, try_add_item, double_percent, wait_brace, time_format_begin,
  time_format_keep, time_format_end, invalid, get_event, transform, find_item, take, drop, substr,
  Scan, enter, step, loop, finish, initial, init, handle_try_add_item,
}

pub record Buffer : Type 0 where
  pub state : State
  pub held : Bytes
  pub items : List Item
  pub rejected : Bytes

abbrev pub push : Buffer → Item → Buffer
push b x = record b { items = b.items ++ x ∷ [] }

unfoldable pub add_found : Option Item → ℕ → Buffer → Buffer
add_found (some x) c b = push b x
add_found none c b = record b { rejected = b.rejected ++ c ∷ [] }

unfoldable pub enter_buffer : State → ℕ → Buffer → Outcome Buffer
enter_buffer start c b = ok b
enter_buffer single_percent c b = ok b
enter_buffer wait_brace c b = ok b
enter_buffer text_begin c b = ok (record b { held = c ∷ [] })
enter_buffer time_format_begin c b = ok (record b { held = [] })
enter_buffer text_keep c b = ok (record b { held = b.held ++ c ∷ [] })
enter_buffer time_format_keep c b = ok (record b { held = b.held ++ c ∷ [] })
enter_buffer percent_after_text c b = ok (push b (text b.held))
enter_buffer time_format_end c b = ok (push b (date_time b.held))
enter_buffer try_add_item c b = ok (add_found (find_item c) c b)
enter_buffer double_percent c b = ok (push b (text (b'%' ∷ [])))
enter_buffer invalid c b = fault thrown

unfoldable pub step_buffer : ℕ → Buffer → Outcome Buffer
step_buffer c b =
    let s = transform b.state (get_event c) in enter_buffer s c (record b { state = s })

unfoldable pub run_buffer : Bytes → Buffer → Outcome Buffer
run_buffer [] b = ok b
run_buffer (c ∷ cs) b = do q ← step_buffer c b; run_buffer cs q

unfoldable pub finish_buffer : State → Buffer → Outcome Buffer
finish_buffer text_begin b = ok (push b (text b.held))
finish_buffer text_keep b = ok (push b (text b.held))
finish_buffer percent_after_text b = fault thrown
finish_buffer single_percent b = fault thrown
finish_buffer wait_brace b = fault thrown
finish_buffer time_format_begin b = fault thrown
finish_buffer time_format_keep b = fault thrown
finish_buffer start b = ok b
finish_buffer try_add_item b = ok b
finish_buffer double_percent b = ok b
finish_buffer time_format_end b = ok b
finish_buffer invalid b = ok b

abbrev pub empty : Buffer
empty = record { state = start; held = []; items = []; rejected = [] }

drop-append : (n : ℕ) (xs ys : Bytes) → n ≤ length xs → drop n (xs ++ ys) ≡ drop n xs ++ ys
drop-append zero xs ys h = refl
drop-append (suc n) [] ys h = absurd (omega arith)
drop-append (suc n) (x ∷ xs) ys h = drop-append n xs ys (omega arith)

drop_all : (xs ys : Bytes) → drop (length xs) (xs ++ ys) ≡ ys
drop_all [] ys = refl
drop_all (x ∷ xs) ys = drop_all xs ys

take_all : (xs ys : Bytes) (n : ℕ) → n ≡ length xs → take n (xs ++ ys) ≡ xs
take_all [] ys zero h = refl
take_all [] ys (suc n) h = absurd (omega arith)
take_all (x ∷ xs) ys zero h = absurd (omega arith)
take_all (x ∷ xs) ys (suc n) h = ap (λ l. x ∷ l) (take_all xs ys n (omega arith))

length-drop : (n : ℕ) (xs : Bytes) → length (drop n xs) ≡ length xs - n
length-drop zero xs = omega arith
length-drop (suc n) [] = omega arith
length-drop (suc n) (x ∷ xs) = omega (arith, length-drop n xs)

-- The range from `n` up to the end of `before` cuts out what is held.
cut :
    (n m : ℕ) (before rest held : Bytes)
    → n ≤ length before
    → drop n before ≡ held
    → m ≡ length before - n
    → substr (before ++ rest) n m ≡ held
cut n m before rest held h e l =
    ap (take m) (drop-append n before rest h)
    ∙ take_all (drop n before) rest m (omega (arith, length-drop n before))
    ∙ e

-- `n` is where the held text starts in what was read.
abbrev From : ℕ → Bytes → Bytes → Type 0
From n before held = (n ≤ length before) × (drop n before ≡ held)

From-grow :
    (n : ℕ) (before held : Bytes) (c : ℕ)
    → From n before held
    → From n (before ++ c ∷ []) (held ++ c ∷ [])
From-grow n before held c h = (
  omega (arith, length-append before (c ∷ [])),
  drop-append n before (c ∷ []) h.0 ∙ ap (λ l. l ++ c ∷ []) h.1,
)

From-here : (before : Bytes) (c : ℕ) → From (length before) (before ++ c ∷ []) (c ∷ [])
From-here before c = (omega (arith, length-append before (c ∷ [])), drop_all before (c ∷ []))

From-next : (before : Bytes) (c : ℕ) → From (suc (length before)) (before ++ c ∷ []) []
From-next [] c = (omega arith, refl)
From-next (x ∷ xs) c = (omega (arith, (From-next xs c).0), (From-next xs c).1)

-- In a text the held text starts at `first`, in a time format behind it.
abbrev Held : State → ℕ → Bytes → Bytes → Type 0
Held text_begin n before held = From n before held
Held text_keep n before held = From n before held
Held time_format_begin n before held = From (suc n) before held
Held time_format_keep n before held = From (suc n) before held
Held _ n before held = Unit

-- What entering a state needs.
abbrev Needs : State → ℕ → Bytes → Bytes → Type 0
Needs text_keep n before held = From n before held
Needs percent_after_text n before held = From n before held
Needs time_format_keep n before held = From (suc n) before held
Needs time_format_end n before held = From (suc n) before held
Needs _ n before held = Unit

carry :
    (s : State) (e : Event) (n : ℕ) (before held : Bytes)
    → Held s n before held
    → Needs (transform s e) n before held
unfolding transform
carry start percent n b h k = tt
carry start _ n b h k = tt
carry text_begin percent n b h k = k
carry text_begin _ n b h k = k
carry text_keep percent n b h k = k
carry text_keep _ n b h k = k
carry percent_after_text percent n b h k = tt
carry percent_after_text _ n b h k = tt
carry single_percent percent n b h k = tt
carry single_percent _ n b h k = tt
carry try_add_item percent n b h k = tt
carry try_add_item _ n b h k = tt
carry double_percent percent n b h k = tt
carry double_percent _ n b h k = tt
carry wait_brace percent n b h k = tt
carry wait_brace _ n b h k = tt
carry time_format_begin percent n b h k = k
carry time_format_begin _ n b h k = k
carry time_format_keep percent n b h k = k
carry time_format_keep _ n b h k = k
carry time_format_end percent n b h k = tt
carry time_format_end _ n b h k = tt
carry invalid percent n b h k = tt
carry invalid _ n b h k = tt

-- The scan and the machine agree.
pub record Agree (before : Bytes) (p : Scan) (b : Buffer) : Type 0 where
  pub state_eq : p.state ≡ b.state
  pub items_eq : p.items ≡ b.items
  pub rejected_eq : p.rejected ≡ b.rejected
  pub held_is : Held b.state p.first before b.held

-- Both fail alike, or end in states that agree.
abbrev pub Agrees : Bytes → Outcome Scan → Outcome Buffer → Type 0
Agrees before (ok p) (ok b) = Agree before p b
Agrees before (fault e) (fault f) = e ≡ f
Agrees before _ _ = ⊥

Agree-at :
    (s : State) (before : Bytes) (p : Scan) (b : Buffer)
    → p.state ≡ s
    → b.state ≡ s
    → p.items ≡ b.items
    → p.rejected ≡ b.rejected
    → Held s p.first before b.held
    → Agree before p b
Agree-at s before p b ps bs ei er h = record {
  state_eq = ps ∙ sym bs;
  items_eq = ei;
  rejected_eq = er;
  held_is = rw bs h;
}

-- The position of the byte read is the length of what was read before it.
module _ (before rest : Bytes) (c : ℕ) where
  cut_text :
      (p : Scan) (held : Bytes)
      → From p.first before held
      → substr (before ++ c ∷ rest) p.first (length before - p.first) ≡ held
  cut_text p held (le, e) = cut p.first (length before - p.first) before (c ∷ rest) held le e refl

  cut_time :
      (p : Scan) (held : Bytes)
      → From (suc p.first) before held
      → substr (before ++ c ∷ rest) (p.first + 1) (length before - p.first - 1) ≡ held
  cut_time p held (le, e) =
      let one : p.first + 1 ≡ suc p.first = omega arith in
      rw one
        (cut (suc p.first) (length before - p.first - 1) before (c ∷ rest) held le e (omega arith))

  add_found-Agree :
      (o : Option Item) (p : Scan) (b : Buffer)
      → find_item c ≡ o
      → p.state ≡ try_add_item
      → b.state ≡ try_add_item
      → p.items ≡ b.items
      → p.rejected ≡ b.rejected
      → Agree (before ++ c ∷ []) (handle_try_add_item c p) (add_found o c b)
  unfolding handle_try_add_item add_found
  add_found-Agree none p b e ps bs ei er =
      rw (e, handle_try_add_item)
        (Agree-at try_add_item _ _ _ ps bs ei (ap (λ l. l ++ c ∷ []) er) tt)
  add_found-Agree (some x) p b e ps bs ei er =
      rw (e, handle_try_add_item)
        (Agree-at try_add_item _ _ _ ps bs (ap (λ l. l ++ x ∷ []) ei) er tt)

  enter-Agrees :
      (s : State) (p : Scan) (b : Buffer)
      → p.state ≡ s
      → b.state ≡ s
      → p.items ≡ b.items
      → p.rejected ≡ b.rejected
      → Needs s p.first before b.held
      → Agrees
          (before ++ c ∷ [])
          (enter s (before ++ c ∷ rest) (length before) c p)
          (enter_buffer s c b)
  unfolding enter enter_buffer
  enter-Agrees start p b ps bs ei er k = Agree-at start _ _ _ ps bs ei er tt
  enter-Agrees single_percent p b ps bs ei er k = Agree-at single_percent _ _ _ ps bs ei er tt
  enter-Agrees wait_brace p b ps bs ei er k = Agree-at wait_brace _ _ _ ps bs ei er tt
  enter-Agrees text_begin p b ps bs ei er k =
      Agree-at text_begin _ _ _ ps bs ei er (From-here before c)
  enter-Agrees time_format_begin p b ps bs ei er k =
      Agree-at time_format_begin _ _ _ ps bs ei er (From-next before c)
  enter-Agrees text_keep p b ps bs ei er k =
      Agree-at text_keep _ _ _ ps bs ei er (From-grow p.first before b.held c k)
  enter-Agrees time_format_keep p b ps bs ei er k =
      Agree-at time_format_keep _ _ _ ps bs ei er (From-grow (suc p.first) before b.held c k)
  enter-Agrees percent_after_text p b ps bs ei er k =
      Agree-at percent_after_text _ _ _ ps bs (rw (cut_text p b.held k, ei)) er tt
  enter-Agrees time_format_end p b ps bs ei er k =
      Agree-at time_format_end _ _ _ ps bs (rw (cut_time p b.held k, ei)) er tt
  enter-Agrees try_add_item p b ps bs ei er k = add_found-Agree (find_item c) p b refl ps bs ei er
  enter-Agrees double_percent p b ps bs ei er k =
      Agree-at double_percent _ _ _ ps bs (ap (λ l. l ++ text (b'%' ∷ []) ∷ []) ei) er tt
  enter-Agrees invalid p b ps bs ei er k = refl

  step-Agrees :
      (p : Scan) (b : Buffer)
      → Agree before p b
      → Agrees (before ++ c ∷ []) (step (before ++ c ∷ rest) (length before) c p) (step_buffer c b)
  unfolding step step_buffer
  step-Agrees p b a = rw a.state_eq (
      enter-Agrees (transform b.state (get_event c))
        (record p { state = transform b.state (get_event c) })
        (record b { state = transform b.state (get_event c) }) refl refl a.items_eq a.rejected_eq
        (carry b.state (get_event c) p.first before b.held a.held_is))

bind-Agrees :
    (b1 b2 : Bytes) (x : Outcome Scan) (y : Outcome Buffer) (f : Scan → Outcome Scan)
    (g : Buffer → Outcome Buffer)
    → Agrees b1 x y
    → ((q : Scan) (r : Buffer) → Agree b1 q r → Agrees b2 (f q) (g r))
    → Agrees b2 (x >>= f) (y >>= g)
bind-Agrees b1 b2 (ok p) (ok b) f g h k = k p b h
bind-Agrees b1 b2 (fault e) (fault e') f g h k = h
bind-Agrees b1 b2 (ok p) (fault e) f g h k = absurd h
bind-Agrees b1 b2 (fault e) (ok b) f g h k = absurd h

loop-Agrees :
    (before rest pattern : Bytes) (i : ℕ) (p : Scan) (b : Buffer)
    → before ++ rest ≡ pattern
    → i ≡ length before
    → Agree before p b
    → Agrees pattern (loop pattern i rest p) (run_buffer rest b)
unfolding loop run_buffer
loop-Agrees before [] pattern i p b e l a = rw (← e, append-nil before) a
loop-Agrees before (c ∷ cs) pattern i p b e l a =
    bind-Agrees (before ++ c ∷ []) pattern (step pattern i c p) (step_buffer c b)
      (loop pattern (i + 1) cs) (run_buffer cs) (rw (← e, l) (step-Agrees before cs c p b a))
      λ q r h.
        loop-Agrees (before ++ c ∷ []) cs pattern (i + 1) q r (append_assoc before (c ∷ []) cs ∙ e)
          (omega (arith, length-append before (c ∷ []))) h

finish-Agrees :
    (s : State) (pattern : Bytes) (p : Scan) (b : Buffer)
    → b.state ≡ s
    → Agree pattern p b
    → Agrees pattern (finish s pattern p) (finish_buffer s b)
unfolding finish finish_buffer
finish-Agrees text_begin pattern p b e a =
    let k : From p.first pattern b.held = rw e at a.held_is in
    record {
      state_eq = a.state_eq;
      items_eq = rw (k.1, a.items_eq);
      rejected_eq = a.rejected_eq;
      held_is = a.held_is;
    }
finish-Agrees text_keep pattern p b e a =
    let k : From p.first pattern b.held = rw e at a.held_is in
    record {
      state_eq = a.state_eq;
      items_eq = rw (k.1, a.items_eq);
      rejected_eq = a.rejected_eq;
      held_is = a.held_is;
    }
finish-Agrees percent_after_text pattern p b e a = refl
finish-Agrees single_percent pattern p b e a = refl
finish-Agrees wait_brace pattern p b e a = refl
finish-Agrees time_format_begin pattern p b e a = refl
finish-Agrees time_format_keep pattern p b e a = refl
finish-Agrees start pattern p b e a = a
finish-Agrees try_add_item pattern p b e a = a
finish-Agrees double_percent pattern p b e a = a
finish-Agrees time_format_end pattern p b e a = a
finish-Agrees invalid pattern p b e a = a

-- `Init` on the machine without positions.
unfoldable pub parse_buffer : Buffer → Bytes → Outcome (List Item × Bytes)
parse_buffer b cs = do q ← run_buffer cs b; r ← finish_buffer q.state q; ok (r.items, r.rejected)

abbrev results : Outcome Scan → Outcome (List Item × Bytes)
results x = do p ← x; ok (p.items, p.rejected)

abbrev buffer_results : Outcome Buffer → Outcome (List Item × Bytes)
buffer_results y = do b ← y; ok (b.items, b.rejected)

Agrees-results :
    (before : Bytes) (x : Outcome Scan) (y : Outcome Buffer)
    → Agrees before x y
    → results x ≡ buffer_results y
Agrees-results before (ok p) (ok b) h = rw (h.items_eq, h.rejected_eq)
Agrees-results before (fault e) (fault f) h = rw h
Agrees-results before (ok p) (fault e) h = absurd h
Agrees-results before (fault e) (ok b) h = absurd h

bind_assoc :
    {A B : Type 0} {C : Type 0} (m : Outcome A) (f : A → Outcome B) (g : B → Outcome C)
    → ((m >>= f) >>= g) ≡ (m >>= λ a. f a >>= g)
bind_assoc (ok a) f g = refl
bind_assoc (fault e) f g = refl

-- The index ranges of `Init` cut out exactly the bytes of the texts and time formats: with them
-- the pattern is read as by the machine that collects those bytes one by one, errors included.
pub parse-parse_buffer : (pattern : Bytes) → parse pattern ≡ parse_buffer empty pattern
unfolding parse parse_buffer init
parse-parse_buffer pattern =
    Agrees-results pattern (init pattern)
      (run_buffer pattern empty >>= λ q. finish_buffer q.state q)
      (bind-Agrees pattern pattern (loop pattern 0 pattern initial) (run_buffer pattern empty)
        (λ p. finish p.state pattern p) (λ q. finish_buffer q.state q)
        (loop-Agrees [] pattern pattern 0 initial empty refl refl
          (Agree-at start [] initial empty refl refl refl refl tt))
        (λ q r h.
          subst (λ s. Agrees pattern (finish s pattern q) (finish_buffer r.state r))
            (sym h.state_eq) (finish-Agrees r.state pattern q r refl h)))
    ∙ bind_assoc (run_buffer pattern empty) (λ q. finish_buffer q.state q)
        (λ b. ok (b.items, b.rejected))
