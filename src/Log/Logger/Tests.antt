-- ===== src/Log/Logger/Tests.antt =====
-- The theorems on loggers at a root logger with an appender and a child without one.
use sylar_study.Prelude.{
  ℕ, ◌<◌, ◌≡◌, refl, subst, true, false, ◌⊎◌, inl, inr, [], ◌∷◌, Option, none, some, ◌==◌,
  if◌then◌else◌, ok, fault, thrown, Bytes, codes, All, arith,
}
use sylar_study.Log.Level.{info, warn}
use sylar_study.Log.Pattern.{msg, tab, text}
use sylar_study.Log.Format.{LogEvent, format}
use sylar_study.Log.Logger.{
  Formatter, Appender, Logger, Store, put_logger, new_logger, log, set_parent, add_appender, write,
  log_all, appender_log,
}
use sylar_study.Log.Logger.Chain.{
  EndsIn, IsAbove, IsAcyclic, set_parent-IsAcyclic, set_parent_total,
}
use sylar_study.Log.Logger.Formatters.{HasFormatter, IsFormatted, adds, Step-IsFormatted}
use sylar_study.Log.Logger.Delivery.{Reaches, here, up, IsComplete, Grown, lines, log-delivers}

abbrev root : Logger
root = record (new_logger (codes "SYLAR")) {
  appender_array = 0 ∷ [];
  formatter = some (text (b'>' ∷ []) ∷ msg ∷ []);
}

abbrev leaf : Logger
leaf = record (new_logger (codes "leaf")) { formatter = root.formatter; parent = some 0 }

abbrev console : Appender
console = record {
  level = info;
  has_special_formatter = false;
  formatter = root.formatter;
  target = 0;
}

abbrev own : Appender
own = record console { has_special_formatter = true; formatter = some (tab ∷ []); target = 1 }

abbrev store : Store
store = record {
  loggers = λ i. if i == 0 then some root else if i == 1 then some leaf else none;
  appenders = λ i. if i == 0 then some console else if i == 1 then some own else none;
  streams = λ i. [];
}

abbrev event : LogEvent
event = record {
  trigger = some (codes "leaf");
  message = codes "hello";
  time = 0;
  line = 12;
  file = some (codes "a.cpp");
  thread = 7;
  routine = 0;
  level = warn;
}

abbrev no_time : Bytes → ℕ → Option Bytes
no_time f t = none

log_run : log no_time 3 1 event store ≡ some (ok (write 0 (codes ">hello") store))
unfolding log log_all appender_log format
log_run = refl

-- What is stored at a number in a store of two.
either {ℓ} :
    {A : Type ℓ} (i : ℕ) (a b x : A)
    → (if i == 0 then some a else if i == 1 then some b else none) ≡ some x
    → (a ≡ x) ⊎ (b ≡ x)
either i a b x h = ground arith

each {ℓ} :
    {A : Type ℓ} (P : A → Type 0) (i : ℕ) (a b x : A)
    → (if i == 0 then some a else if i == 1 then some b else none) ≡ some x
    → P a
    → P b
    → P x
each P i a b x h p q = elim (either i a b x h) [ inl e ↦ subst P e p | inr e ↦ subst P e q ]

store-IsAcyclic : IsAcyclic store
unfolding EndsIn
store-IsAcyclic i l h =
    each (λ k. (n : ℕ) × EndsIn store k.parent n) i root leaf l h (1, tt) (1, (root, refl, tt))

store-IsFormatted : IsFormatted store
store-IsFormatted = record {
  named = λ i l h.
      each (λ k. (f : Formatter) × (k.formatter ≡ some f)) i root leaf l h
        (text (b'>' ∷ []) ∷ msg ∷ [], refl) (text (b'>' ∷ []) ∷ msg ∷ [], refl);
  listed = λ i l h.
      each (λ k. All (HasFormatter store.appenders) k.appender_array) i root leaf l h
        ((console, text (b'>' ∷ []) ∷ msg ∷ [], refl, refl), tt) tt;
  special = λ j a h t.
      each (λ k. (f : Formatter) × (k.formatter ≡ some f)) j console own a h
        (text (b'>' ∷ []) ∷ msg ∷ [], refl) (tab ∷ [], refl);
}

-- The child is given no parent.
abbrev orphaned : Store
orphaned = put_logger 1 (record leaf { parent = none }) store

orphan_run : set_parent 5 1 none store ≡ some (ok orphaned)
unfolding set_parent
orphan_run = refl

set_parent-IsAcyclic_example : IsAcyclic orphaned
set_parent-IsAcyclic_example = set_parent-IsAcyclic 5 1 none store store-IsAcyclic orphan_run

leaf-EndsIn : EndsIn store (some 1) 2
unfolding EndsIn
leaf-EndsIn = (leaf, refl, (root, refl, tt))

-- The root logger cannot be put below its child.
set_parent_total_example :
    (IsAbove store 0 (some 1) 2 × (set_parent 3 0 (some 1) store ≡ some (fault thrown)))
    ⊎ ((¬ IsAbove store 0 (some 1) 2)
        × (set_parent 3 0 (some 1) store
            ≡ some (ok (put_logger 0 (record root { parent = some 1 }) store))))
set_parent_total_example = set_parent_total 3 0 2 (some 1) root store refl leaf-EndsIn (omega arith)

abbrev added : Store
added = put_logger 1 (record leaf { appender_array = 1 ∷ [] }) store

added_run : add_appender 1 1 store ≡ ok added
unfolding add_appender
added_run = refl

Step-IsFormatted_example : IsFormatted added
Step-IsFormatted_example = Step-IsFormatted store added (adds 1 1 added_run) store-IsFormatted

event-IsComplete : IsComplete event
event-IsComplete = ((codes "leaf", refl), (codes "a.cpp", refl))

leaf-Reaches : Reaches store warn 1 0
leaf-Reaches = up leaf 0 refl refl refl refl (here root 0 [] refl refl refl)

log-delivers_example :
    (n : ℕ) × (l : Logger) × (s : Store) × (store.loggers 0 ≡ some l)
    × ((fuel : ℕ) → n < fuel → log no_time fuel 1 event store ≡ some (ok s))
    × Grown no_time (λ k. lines no_time k l.appender_array event store.appenders) store s
log-delivers_example =
    log-delivers no_time event store store-IsFormatted event-IsComplete leaf-Reaches
