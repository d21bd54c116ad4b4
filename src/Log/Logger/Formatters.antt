-- ===== src/Log/Logger/Formatters.antt =====
-- That every appender that a logger holds has a formatter (sylar/base/log.cpp), which the assertion of
-- `StreamLogAppender::Log` asks for.
use sylar_study.Prelude.{
  All-map, ok-injective, some-injective, get-eq-ok, ℕ, ◌≡◌, refl, sym, ap, subst, ◌∙◌, ◌⊎◌, inl,
  inr, Bool, true, false, List, [], ◌∷◌, ◌++◌, Option, some, ◌==◌, ==_refl, if◌then◌else◌, ok,
  ◌>>=◌, >>=-eq-ok, get, Bool-cases, All, arith,
}
use sylar_study.Log.Level.{Level}
use sylar_study.Log.Logger.Chain.{set_parent-inv}
use sylar_study.Log.Logger.{
  set_parent, Appender, Logger, Store, Formatter, put_logger, put_appender, appender_set_formatter,
  add_appender, clear_all_appender, spread, set_formatter, set_log_level,
}

abbrev pub HasFormatter : (ℕ → Option Appender) → ℕ → Type 0
HasFormatter appenders j =
    (a : Appender) × (f : Formatter) × (appenders j ≡ some a) × (a.formatter ≡ some f)

-- Loggers and appenders with a formatter of their own have one, and so do the appenders of loggers.
pub record IsFormatted (s : Store) : Type 0 where
  pub named : (i : ℕ) (l : Logger) → s.loggers i ≡ some l → (f : Formatter) × (l.formatter ≡ some f)
  pub listed :
      (i : ℕ) (l : Logger) → s.loggers i ≡ some l → All (HasFormatter s.appenders) l.appender_array
  pub special :
      (j : ℕ) (a : Appender)
      → s.appenders j ≡ some a
      → a.has_special_formatter ≡ true
      → (f : Formatter) × (a.formatter ≡ some f)

-- The calls that change loggers and appenders. No formatter that is set is a null pointer.
pub data Step (s s' : Store) : Type 0 where
  adds : (i j : ℕ) → add_appender i j s ≡ ok s' → Step s s'
  clears : (i : ℕ) → clear_all_appender i s ≡ ok s' → Step s s'
  sets : (i : ℕ) (f : Formatter) → set_formatter i (some f) s ≡ ok s' → Step s s'
  specializes : (j : ℕ) (f : Formatter) → appender_set_formatter j (some f) s ≡ ok s' → Step s s'
  limits : (i : ℕ) (v : Level) → set_log_level i v s ≡ ok s' → Step s s'
  moves : (fuel i : ℕ) (p : Option ℕ) → set_parent fuel i p s ≡ some (ok s') → Step s s'

-- What is stored at a number after a write to the store.
at-put {ℓ} :
    {A : Type ℓ} (i j : ℕ) (a b : A) (o : Option A)
    → (if j == i then some a else o) ≡ some b
    → ((j ≡ i) × (a ≡ b)) ⊎ (o ≡ some b)
at-put i j a b o h = elim (Bool-cases (j == i)) [
  | inl t ↦ inl (ground arith, some-injective (ap (λ c. if c then some a else o) (sym t) ∙ h))
  | inr n ↦ inr (ap (λ c. if c then some a else o) (sym n) ∙ h)
]

All-push {ℓ κ} :
    {A : Type ℓ} (P : A → Type κ) (xs : List A) (x : A) → All P xs → P x → All P (xs ++ x ∷ [])
All-push P [] x h p = (p, tt)
All-push P (y ∷ ys) x (q, h) p = (q, All-push P ys x h p)

-- An appender that gets a formatter takes none away from another.
HasFormatter-put :
    (j k : ℕ) (a : Appender) (f : Formatter) (s : Store)
    → a.formatter ≡ some f
    → HasFormatter s.appenders k
    → HasFormatter (put_appender j a s).appenders k
HasFormatter-put j k a f s e (b, g, at_k, h) = elim (Bool-cases (k == j)) [
  | inl t ↦ (a, f, ap (λ c. if c then some a else s.appenders k) t, e)
  | inr n ↦ (b, g, ap (λ c. if c then some a else s.appenders k) n ∙ at_k, h)
]

put_appender-IsFormatted :
    (j : ℕ) (a : Appender) (f : Formatter) (s : Store)
    → a.formatter ≡ some f
    → IsFormatted s
    → IsFormatted (put_appender j a s)
put_appender-IsFormatted j a f s e w = record {
  named = w.named;
  listed = λ i l h.
      All-map (HasFormatter s.appenders) (HasFormatter (put_appender j a s).appenders)
        l.appender_array (λ k. HasFormatter-put j k a f s e) (w.listed i l h);
  special = λ k b h t. elim (at-put j k a b (s.appenders k) h) [
    | inl (_, q) ↦ (f, ap (λ z. z.formatter) (sym q) ∙ e)
    | inr o ↦ w.special k b o t
  ];
}

put_logger-IsFormatted :
    (i : ℕ) (l : Logger) (f : Formatter) (s : Store)
    → l.formatter ≡ some f
    → All (HasFormatter s.appenders) l.appender_array
    → IsFormatted s
    → IsFormatted (put_logger i l s)
put_logger-IsFormatted i l f s e h w = record {
  named = λ j k g. elim (at-put i j l k (s.loggers j) g) [
    | inl (_, q) ↦ (f, ap (λ z. z.formatter) (sym q) ∙ e)
    | inr o ↦ w.named j k o
  ];
  listed = λ j k g. elim (at-put i j l k (s.loggers j) g) [
    | inl (_, q) ↦ subst (λ z. All (HasFormatter s.appenders) z.appender_array) q h
    | inr o ↦ w.listed j k o
  ];
  special = w.special;
}

unless-IsFormatted :
    (b : Bool) (j : ℕ) (a : Appender) (f : Formatter) (s : Store)
    → a.formatter ≡ some f
    → IsFormatted s
    → IsFormatted (if b then s else put_appender j a s)
unless-IsFormatted true j a f s e w = w
unless-IsFormatted false j a f s e w = put_appender-IsFormatted j a f s e w

-- An appender that is added gets the formatter of the logger, unless it has one of its own.
added-IsFormatted :
    (b : Bool) (i j : ℕ) (l : Logger) (a : Appender) (s : Store)
    → a.has_special_formatter ≡ b
    → s.loggers i ≡ some l
    → s.appenders j ≡ some a
    → IsFormatted s
    → IsFormatted (
        put_logger i
          (record l { appender_array = l.appender_array ++ j ∷ [] })
          (if b then s else put_appender j (record a { formatter = l.formatter }) s))
added-IsFormatted true i j l a s b e g w =
    let (f, named) = w.named i l e in
    let (own, h) = w.special j a g b in
    put_logger-IsFormatted i (record l { appender_array = l.appender_array ++ j ∷ [] }) f s named
      (All-push (HasFormatter s.appenders) l.appender_array j (w.listed i l e) (a, own, g, h)) w
added-IsFormatted false i j l a s b e g w =
    let (f, named) = w.named i l e in
    let a' : Appender = record a { formatter = l.formatter } in
    let w1 = put_appender-IsFormatted j a' f s named w in
    put_logger-IsFormatted i (record l { appender_array = l.appender_array ++ j ∷ [] }) f
      (put_appender j a' s) named
      (All-push (HasFormatter (put_appender j a' s).appenders) l.appender_array j (w1.listed i l e)
        (a', f, ap (λ c. if c then some a' else s.appenders j) (==_refl j), named))
      w1

spread-IsFormatted :
    (f : Formatter) (js : List ℕ) (s : Store) {s' : Store}
    → IsFormatted s
    → spread (some f) js s ≡ ok s'
    → IsFormatted s'
unfolding spread
spread-IsFormatted f [] s w h = subst IsFormatted (ok-injective h) w
spread-IsFormatted f (j ∷ js) s w h =
    let r =
      >>=-eq-ok (get (s.appenders j))
        (λ a. spread (some f) js (
          if a.has_special_formatter
          then s
          else put_appender j (record a { formatter = some f; has_special_formatter = false }) s))
        h in
    spread-IsFormatted f js _
      (unless-IsFormatted r.0.has_special_formatter j
        (record r.0 { formatter = some f; has_special_formatter = false }) f s refl w)
      r.2

-- Adding and clearing appenders, setting a formatter that is no null pointer, a level or a parent
-- keep it that all loggers, and the appenders they hold, have a formatter.
pub Step-IsFormatted : (s s' : Store) → Step s s' → IsFormatted s → IsFormatted s'
unfolding add_appender clear_all_appender set_formatter appender_set_formatter set_log_level
Step-IsFormatted s s' (adds i j h) w =
    let r =
      >>=-eq-ok (get (s.loggers i))
        (λ l. get (s.appenders j) >>= λ a. ok (
          put_logger i (record l { appender_array = l.appender_array ++ j ∷ [] })
            (if a.has_special_formatter
              then s
              else put_appender j (record a { formatter = l.formatter }) s)))
        h in
    let q =
      >>=-eq-ok (get (s.appenders j))
        (λ a. ok (
          put_logger i (record r.0 { appender_array = r.0.appender_array ++ j ∷ [] })
            (if a.has_special_formatter
              then s
              else put_appender j (record a { formatter = r.0.formatter }) s)))
        r.2 in
    subst IsFormatted (ok-injective q.2) (
      added-IsFormatted q.0.has_special_formatter i j r.0 q.0 s refl (get-eq-ok (s.loggers i) r.1)
        (get-eq-ok (s.appenders j) q.1) w)
Step-IsFormatted s s' (clears i h) w =
    let r =
      >>=-eq-ok (get (s.loggers i)) (λ l. ok (put_logger i (record l { appender_array = [] }) s))
        h in
    let named = w.named i r.0 (get-eq-ok (s.loggers i) r.1) in
    subst IsFormatted (ok-injective r.2)
      (put_logger-IsFormatted i (record r.0 { appender_array = [] }) named.0 s named.1 tt w)
Step-IsFormatted s s' (sets i f h) w =
    let r =
      >>=-eq-ok (get (s.loggers i))
        (λ l. spread (some f) l.appender_array (put_logger i (record l { formatter = some f }) s))
        h in
    let e = get-eq-ok (s.loggers i) r.1 in
    spread-IsFormatted f r.0.appender_array _
      (put_logger-IsFormatted i (record r.0 { formatter = some f }) f s refl (w.listed i r.0 e) w)
      r.2
Step-IsFormatted s s' (specializes j f h) w =
    let r =
      >>=-eq-ok (get (s.appenders j))
        (λ a. ok (put_appender j (record a { formatter = some f; has_special_formatter = true }) s))
        h in
    subst IsFormatted (ok-injective r.2) (
      put_appender-IsFormatted j (record r.0 { formatter = some f; has_special_formatter = true }) f
        s refl w)
Step-IsFormatted s s' (limits i v h) w =
    let r = >>=-eq-ok (get (s.loggers i)) (λ l. ok (put_logger i (record l { level = v }) s)) h in
    let e = get-eq-ok (s.loggers i) r.1 in
    let named = w.named i r.0 e in
    subst IsFormatted (ok-injective r.2)
      (put_logger-IsFormatted i (record r.0 { level = v }) named.0 s named.1 (w.listed i r.0 e) w)
Step-IsFormatted s s' (moves fuel i p h) w =
    let q = set_parent-inv fuel i p s h in
    let l = q.1.0 in
    let e = q.1.1 in
    let named = w.named i l e in
    subst IsFormatted q.1.2
      (put_logger-IsFormatted i (record l { parent = p }) named.0 s named.1 (w.listed i l e) w)
