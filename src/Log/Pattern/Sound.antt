-- ===== src/Log/Pattern/Sound.antt =====
-- A pattern that `LogFormatter::Init` (sylar/base/log.cpp) accepts is what its items are printed as.
use sylar_study.Prelude.{
  ℕ, ◌≡◌, refl, sym, subst, ap, ◌∙◌, false, List, [], ◌∷◌, ◌++◌, Option, none, some, arith, Outcome,
  ok, fault, ◌>>=◌, >>=-eq-ok, ◌==◌,
}
use mathlib.Core.List.{append_assoc, append-nil}
use sylar_study.Log.Pattern.{
  Bytes, Item, text, date_time, Event, percent, alpha_d, brace, back_brace, other, State, start,
  text_begin, text_keep, percent_after_text, single_percent, try_add_item, double_percent,
  wait_brace, time_format_begin, time_format_keep, time_format_end, invalid, get_event, transform,
  find_item, parse,
}
use sylar_study.Log.Pattern.Buffer.{
  Buffer, add_found, enter_buffer, step_buffer, run_buffer, finish_buffer, empty, parse_buffer,
  parse-parse_buffer,
}
use sylar_study.Log.Pattern.Printing.{
  Lacks, print_item, print, print-push, Lacks-push, print_item-text, get_event-percent,
  find_item-print,
}

-- What of the bytes read is not in an item yet.
pending : State → Bytes → Bytes
pending text_begin held = held
pending text_keep held = held
pending percent_after_text held = b'%' ∷ []
pending single_percent held = b'%' ∷ []
pending wait_brace held = b'%' ∷ b'd' ∷ []
pending time_format_begin held = b'%' ∷ b'd' ∷ b'{' ∷ held
pending time_format_keep held = b'%' ∷ b'd' ∷ b'{' ∷ held
pending _ held = []

abbrev Plain : State → Bytes → Type 0
Plain text_begin held = Lacks b'%' held
Plain text_keep held = Lacks b'%' held
Plain _ held = Unit

-- What was read is what is printed of the items and what is pending.
record Reads (before : Bytes) (b : Buffer) : Type 0 where
  printed : b.rejected ≡ [] → print b.items ++ pending b.state b.held ≡ before
  plain : Plain b.state b.held

abbrev After : Bytes → Outcome Buffer → Type 0
After before (ok b) = Reads before b
After before (fault e) = Unit

snoc :
    (xs held before : Bytes) (c : ℕ)
    → xs ++ held ≡ before
    → xs ++ (held ++ c ∷ []) ≡ before ++ c ∷ []
snoc xs held before c h = sym (append_assoc xs held (c ∷ [])) ∙ ap (λ l. l ++ c ∷ []) h

append-ne-nil : (xs : Bytes) (c : ℕ) → xs ++ c ∷ [] ≡ [] → ⊥
append-ne-nil [] c h = cc
append-ne-nil (x ∷ xs) c h = cc

module _ (before : Bytes) (c : ℕ) (b : Buffer) where
  abbrev Enters : State → Type 0
  Enters s = After (before ++ c ∷ []) (enter_buffer s c (record b { state = s }))

  begin_text : (c == b'%') ≡ false → (b.rejected ≡ [] → print b.items ≡ before) → Enters text_begin
  unfolding enter_buffer pending
  begin_text e h = record { printed = λ r. ap (λ l. l ++ c ∷ []) (h r); plain = (e, tt) }

  from_rest :
      (e : Event)
      → get_event c ≡ e
      → (b.rejected ≡ [] → print b.items ≡ before)
      → Enters (transform start e)
  unfolding enter_buffer pending transform get_event
  from_rest percent g h = record {
    printed = λ r. rw (get_event-percent c g) (ap (λ l. l ++ b'%' ∷ []) (h r));
    plain = tt;
  }
  from_rest alpha_d g h = begin_text (ground arith) h
  from_rest brace g h = begin_text (ground arith) h
  from_rest back_brace g h = begin_text (ground arith) h
  from_rest other g h = begin_text (ground arith) h

  keep_text :
      (c == b'%') ≡ false
      → Lacks b'%' b.held
      → (b.rejected ≡ [] → print b.items ++ b.held ≡ before)
      → Enters text_keep
  unfolding enter_buffer pending
  keep_text e l h = record {
    printed = λ r. snoc (print b.items) b.held before c (h r);
    plain = Lacks-push b'%' c b.held l e;
  }

  from_text :
      (e : Event)
      → get_event c ≡ e
      → Lacks b'%' b.held
      → (b.rejected ≡ [] → print b.items ++ b.held ≡ before)
      → Enters (transform text_keep e)
  unfolding enter_buffer pending transform get_event
  from_text percent g l h = record {
    printed = λ r.
        rw (print-push b.items (text b.held), print_item-text b.held l, get_event-percent c g)
          (ap (λ l. l ++ b'%' ∷ []) (h r));
    plain = tt;
  }
  from_text alpha_d g l h = keep_text (ground arith) l h
  from_text brace g l h = keep_text (ground arith) l h
  from_text back_brace g l h = keep_text (ground arith) l h
  from_text other g l h = keep_text (ground arith) l h

  add_item :
      (o : Option Item)
      → find_item c ≡ o
      → get_event c ≡ other
      → (b.rejected ≡ [] → print b.items ++ b'%' ∷ [] ≡ before)
      → After (before ++ c ∷ []) (ok (add_found o c (record b { state = try_add_item })))
  unfolding add_found pending
  add_item none f g h = record { printed = λ r. absurd (append-ne-nil b.rejected c r); plain = tt }
  add_item (some x) f g h = record {
    printed = λ r.
        append-nil _
        ∙ print-push b.items x
        ∙ ap (λ l. print b.items ++ l) (find_item-print c x g f)
        ∙ snoc (print b.items) (b'%' ∷ []) before c (h r);
    plain = tt;
  }

  from_percent :
      (e : Event)
      → get_event c ≡ e
      → (b.rejected ≡ [] → print b.items ++ b'%' ∷ [] ≡ before)
      → Enters (transform single_percent e)
  unfolding enter_buffer pending transform get_event print_item
  from_percent percent g h = record {
    printed = λ r.
        append-nil _
        ∙ print-push b.items (text (b'%' ∷ []))
        ∙ (rw (get_event-percent c g) (snoc (print b.items) (b'%' ∷ []) before b'%' (h r)));
    plain = tt;
  }
  from_percent alpha_d g h = record {
    printed = λ r.
        let d : c ≡ b'd' = ground arith in
        rw d (snoc (print b.items) (b'%' ∷ []) before b'd' (h r));
    plain = tt;
  }
  from_percent brace g h = tt
  from_percent back_brace g h = tt
  from_percent other g h = add_item (find_item c) refl g h

  from_wait :
      (e : Event)
      → get_event c ≡ e
      → (b.rejected ≡ [] → print b.items ++ b'%' ∷ b'd' ∷ [] ≡ before)
      → Enters (transform wait_brace e)
  unfolding enter_buffer pending transform get_event
  from_wait brace g h = record {
    printed = λ r.
        let d : c ≡ b'{' = ground arith in
        rw d (snoc (print b.items) (b'%' ∷ b'd' ∷ []) before b'{' (h r));
    plain = tt;
  }
  from_wait _ g h = tt

  keep_time :
      (b.rejected ≡ [] → print b.items ++ b'%' ∷ b'd' ∷ b'{' ∷ b.held ≡ before)
      → Enters time_format_keep
  unfolding enter_buffer pending
  keep_time h = record {
    printed = λ r. snoc (print b.items) (b'%' ∷ b'd' ∷ b'{' ∷ b.held) before c (h r);
    plain = tt;
  }

  from_time :
      (e : Event)
      → get_event c ≡ e
      → (b.rejected ≡ [] → print b.items ++ b'%' ∷ b'd' ∷ b'{' ∷ b.held ≡ before)
      → Enters (transform time_format_keep e)
  unfolding enter_buffer pending transform get_event print_item
  from_time back_brace g h = record {
    printed = λ r.
        let d : c ≡ b'}' = ground arith in
        append-nil _
        ∙ print-push b.items (date_time b.held)
        ∙ (rw d (snoc (print b.items) (b'%' ∷ b'd' ∷ b'{' ∷ b.held) before b'}' (h r)));
    plain = tt;
  }
  from_time _ g h = keep_time h

  from_state : (s : State) → b.state ≡ s → Reads before b → Enters (transform s (get_event c))
  unfolding transform pending enter_buffer
  from_state s e w =
      go s (λ r. subst (λ x. print b.items ++ pending x b.held ≡ before) e (w.printed r))
        (rw e at w.plain)
    where
      go :
          (s : State)
          → (b.rejected ≡ [] → print b.items ++ pending s b.held ≡ before)
          → Plain s b.held
          → Enters (transform s (get_event c))
      go start h l = from_rest (get_event c) refl (λ r. sym (append-nil _) ∙ h r)
      go try_add_item h l = from_rest (get_event c) refl (λ r. sym (append-nil _) ∙ h r)
      go double_percent h l = from_rest (get_event c) refl (λ r. sym (append-nil _) ∙ h r)
      go time_format_end h l = from_rest (get_event c) refl (λ r. sym (append-nil _) ∙ h r)
      go text_begin h l = from_text (get_event c) refl l h
      go text_keep h l = from_text (get_event c) refl l h
      go percent_after_text h l = from_percent (get_event c) refl h
      go single_percent h l = from_percent (get_event c) refl h
      go wait_brace h l = from_wait (get_event c) refl h
      go time_format_begin h l = from_time (get_event c) refl h
      go time_format_keep h l = from_time (get_event c) refl h
      go invalid h l = tt

run-Reads :
    (before rest : Bytes) (b : Buffer) {q : Buffer}
    → Reads before b
    → run_buffer rest b ≡ ok q
    → Reads (before ++ rest) q
unfolding run_buffer step_buffer
run-Reads before [] b {q} w e =
    let same : b ≡ q = ground arith in
    subst (λ x. Reads (before ++ []) x) same (rw (append-nil before) w)
run-Reads before (c ∷ cs) b {q} w e =
    let (r, s, later) = >>=-eq-ok (step_buffer c b) (run_buffer cs) e in
    let next : Reads (before ++ c ∷ []) r =
      subst (After (before ++ c ∷ [])) s (from_state before c b b.state refl w) in
    rw (append_assoc before (c ∷ []) cs) at (run-Reads (before ++ c ∷ []) cs r next later)

finish-printed :
    (s : State) (before : Bytes) (b : Buffer) {r : Buffer}
    → finish_buffer s b ≡ ok r
    → r.rejected ≡ []
    → (b.rejected ≡ [] → print b.items ++ pending s b.held ≡ before)
    → Plain s b.held
    → print r.items ≡ before
unfolding finish_buffer pending
finish-printed text_begin before b {r} f e h l =
    let same : r.items ≡ b.items ++ text b.held ∷ [] = ground arith in
    ap print same
    ∙ print-push b.items (text b.held)
    ∙ ap (λ x. print b.items ++ x) (print_item-text b.held l)
    ∙ h (ground arith)
finish-printed text_keep before b {r} f e h l =
    let same : r.items ≡ b.items ++ text b.held ∷ [] = ground arith in
    ap print same
    ∙ print-push b.items (text b.held)
    ∙ ap (λ x. print b.items ++ x) (print_item-text b.held l)
    ∙ h (ground arith)
finish-printed percent_after_text before b f e h l = cc
finish-printed single_percent before b f e h l = cc
finish-printed wait_brace before b f e h l = cc
finish-printed time_format_begin before b f e h l = cc
finish-printed time_format_keep before b f e h l = cc
finish-printed _ before b {r} f e h l =
    let same : b ≡ r = ground arith in
    ap (λ x. print x.items) (sym same)
    ∙ sym (append-nil (print b.items))
    ∙ h (ap (λ x. x.rejected) same ∙ e)

-- An accepted pattern with no unknown item id is exactly the print of the items read from it.
pub parse-print_eq :
    (pattern : Bytes) {items : List Item} → parse pattern ≡ ok (items, []) → print items ≡ pattern
unfolding parse_buffer pending print
parse-print_eq pattern {items} e =
    let (q, ran, e1) =
      >>=-eq-ok (run_buffer pattern empty)
        (λ q. finish_buffer q.state q >>= λ r. ok (r.items, r.rejected))
        (sym (parse-parse_buffer pattern) ∙ e) in
    let (r, done, e2) = >>=-eq-ok (finish_buffer q.state q) (λ r. ok (r.items, r.rejected)) e1 in
    let w = run-Reads [] pattern empty (record { printed = λ x. refl; plain = tt }) ran in
    let same : r.items ≡ items = ground arith in
    ap print (sym same) ∙ finish-printed q.state pattern q done (ground arith) w.printed w.plain
