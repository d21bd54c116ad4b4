-- ===== src/Timer/Order.antt =====
-- The timer set of sylar/concurrency/timer_manager.cpp as a strictly sorted list: what `insert` and
-- `erase_id` do to the order and to the timer stored at a deadline.
use sylar_study.Prelude.{
  ℕ, ◌<◌, ◌≤◌, ◌≡◌, refl, true, List, [], ◌∷◌, Option, none, some, arith, ◌==◌, if◌then◌else◌,
}
use sylar_study.Timer.{Timer, insert, erase_id, has_id}

-- The deadlines ascend strictly, and all lie after `a`.
abbrev pub Above : ℕ → List Timer → Type 0
Above a [] = Unit
Above a (t ∷ ts) = (a < t.timeout_tp) × Above t.timeout_tp ts

-- The order of the set.
abbrev pub IsSorted : List Timer → Type 0
IsSorted [] = Unit
IsSorted (t ∷ ts) = Above t.timeout_tp ts

pub Above-mono : (a b : ℕ) (ts : List Timer) → a ≤ b → Above b ts → Above a ts
Above-mono a b [] h s = tt
Above-mono a b (t ∷ ts) h s = (omega arith, s.1)

pub Above-IsSorted : (a : ℕ) (ts : List Timer) → Above a ts → IsSorted ts
Above-IsSorted a [] s = tt
Above-IsSorted a (t ∷ ts) s = s.1

pub insert-Above :
    (a : ℕ) (t : Timer) (ts : List Timer) → a < t.timeout_tp → Above a ts → Above a (insert t ts)
unfolding insert
insert-Above a t [] h s = (h, tt)
insert-Above a t (u ∷ us) h s = ground (arith, insert-Above u.timeout_tp t us)

pub insert-IsSorted : (t : Timer) (ts : List Timer) → IsSorted ts → IsSorted (insert t ts)
unfolding insert
insert-IsSorted t [] s = tt
insert-IsSorted t (u ∷ us) s = ground (arith, insert-Above u.timeout_tp t us)

pub erase_id-Above : (a i : ℕ) (ts : List Timer) → Above a ts → Above a (erase_id i ts)
unfolding erase_id
erase_id-Above a i [] s = tt
erase_id-Above a i (t ∷ ts) s =
    ground (arith, erase_id-Above t.timeout_tp i ts, Above-mono a t.timeout_tp ts)

pub erase_id-IsSorted : (i : ℕ) (ts : List Timer) → IsSorted ts → IsSorted (erase_id i ts)
unfolding erase_id
erase_id-IsSorted i [] s = tt
erase_id-IsSorted i (t ∷ ts) s =
    ground (arith, erase_id-Above t.timeout_tp i ts s, Above-IsSorted t.timeout_tp ts s)

-- The timer that the set holds for a deadline.
abbrev pub at : ℕ → List Timer → Option Timer
at tp [] = none
at tp (t ∷ ts) = if t.timeout_tp == tp then some t else at tp ts

abbrev pub or_else {ℓ} : {A : Type ℓ} → Option A → A → A
or_else none a = a
or_else (some b) a = b

pub at-Above : (tp : ℕ) (ts : List Timer) → Above tp ts → at tp ts ≡ none
at-Above tp [] s = refl
at-Above tp (t ∷ ts) s =
    ground (arith, at-Above tp ts (Above-mono tp t.timeout_tp ts (omega arith) s.1))

pub at-Above_le : (a tp : ℕ) (ts : List Timer) → tp ≤ a → Above a ts → at tp ts ≡ none
at-Above_le a tp ts h s = at-Above tp ts (Above-mono tp a ts h s)

pub at-insert :
    (tp : ℕ) (t : Timer) (ts : List Timer)
    → IsSorted ts
    → at tp (insert t ts) ≡ (if t.timeout_tp == tp then some (or_else (at tp ts) t) else at tp ts)
unfolding insert
at-insert tp t [] s = ground arith
at-insert tp t (u ∷ us) s =
    ground
      (arith, at-insert tp t us (Above-IsSorted u.timeout_tp us s), at-Above_le u.timeout_tp tp us)

pub has_id-insert_absent :
    (i : ℕ) (t : Timer) (ts : List Timer)
    → at t.timeout_tp ts ≡ none
    → has_id i (insert t ts) ≡ (if t.id == i then true else has_id i ts)
unfolding insert has_id
has_id-insert_absent i t [] h = ground arith
has_id-insert_absent i t (u ∷ us) h = ground (arith, has_id-insert_absent i t us)

pub insert_present :
    (t u : Timer) (ts : List Timer) → IsSorted ts → at t.timeout_tp ts ≡ some u → insert t ts ≡ ts
unfolding insert
insert_present t u [] s h = cc
insert_present t u (v ∷ us) s h = ground (
  arith,
  insert_present t u us (Above-IsSorted v.timeout_tp us s),
  at-Above_le v.timeout_tp t.timeout_tp us,
)
