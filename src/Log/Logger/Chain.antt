-- ===== src/Log/Logger/Chain.antt =====
-- The chain of parents of a logger (sylar/base/log.cpp: `Logger::SetParent`): that it ends, and that
-- `SetParent` keeps it so.
use sylar_study.Prelude.{
  ok-injective, some-injective, get-eq-ok, ℕ, zero, suc, ◌<◌, ◌≡◌, refl, sym, ap, subst, ◌∙◌, ◌⊎◌,
  inl, inr, Bool, true, false, Option, none, some, ◌==◌, if◌then◌else◌, Outcome, ok, fault, thrown,
  undefined, ◌>>=◌, >>=-eq-ok, get, Bool-cases, Option-cases, arith,
}
use sylar_study.Log.Logger.{Logger, Store, put_logger, climb, adopt, set_parent}

-- From a pointer the chain of parents ends after at most that many loggers.
unfoldable pub EndsIn : Store → Option ℕ → ℕ → Type 0
EndsIn s none n = Unit
EndsIn s (some j) zero = ⊥
EndsIn s (some j) (suc n) = (l : Logger) × (s.loggers j ≡ some l) × EndsIn s l.parent n

-- The logger is met within that many steps.
unfoldable pub IsAbove : Store → ℕ → Option ℕ → ℕ → Type 0
IsAbove s i none n = ⊥
IsAbove s i (some j) zero = ⊥
IsAbove s i (some j) (suc n) =
    (j ≡ i) ⊎ ((l : Logger) × (s.loggers j ≡ some l) × IsAbove s i l.parent n)

-- The chain of every logger ends.
abbrev pub IsAcyclic : Store → Type 0
IsAcyclic s = (i : ℕ) (l : Logger) → s.loggers i ≡ some l → (n : ℕ) × EndsIn s l.parent n

climb-next :
    (fuel i j : ℕ) (l : Logger) (s : Store)
    → (j == i) ≡ false
    → s.loggers j ≡ some l
    → climb (suc fuel) i (some j) s ≡ climb fuel i l.parent s
unfolding climb
climb-next fuel i j l s n e = rw (n, e, climb) refl

climb-here :
    (fuel i j : ℕ) (s : Store) → (j == i) ≡ true → climb (suc fuel) i (some j) s ≡ some (ok true)
unfolding climb
climb-here fuel i j s h = rw (h, climb) refl

climb-missing :
    (fuel i j : ℕ) (s : Store)
    → (j == i) ≡ false
    → s.loggers j ≡ none
    → climb (suc fuel) i (some j) s ≡ some (fault undefined)
unfolding climb
climb-missing fuel i j s n e = rw (n, e, climb) refl

IsAbove-next :
    (i n j : ℕ) (l : Logger) (s : Store)
    → (j == i) ≡ false
    → s.loggers j ≡ some l
    → ¬ IsAbove s i l.parent n
    → ¬ IsAbove s i (some j) (suc n)
unfolding IsAbove
IsAbove-next i n j l s f e a (inl t) = ground arith
IsAbove-next i n j l s f e a (inr (k, g, b)) =
    a (subst (λ z. IsAbove s i z.parent n) (some-injective (sym g ∙ e)) b)

-- On a chain that ends the loop ends, and says whether it met the logger.
climb_lem :
    (fuel i n : ℕ) (o : Option ℕ) (s : Store)
    → EndsIn s o n
    → n < fuel
    → (IsAbove s i o n × (climb fuel i o s ≡ some (ok true)))
      ⊎ ((¬ IsAbove s i o n) × (climb fuel i o s ≡ some (ok false)))
unfolding climb EndsIn IsAbove
climb_lem zero i n o s h m = absurd (omega arith)
climb_lem (suc fuel) i n none s h m = inr ((λ a. a), refl)
climb_lem (suc fuel) i zero (some j) s h m = absurd h
climb_lem (suc fuel) i (suc n) (some j) s (l, e, h) m = elim (Bool-cases (j == i)) [
  | inl t ↦ inl (inl (ground arith), climb-here fuel i j s t)
  | inr f ↦ elim (climb_lem fuel i n l.parent s h (omega arith)) [
    | inl (a, c) ↦ inl (inr (l, e, a), climb-next fuel i j l s f e ∙ c)
    | inr (a, c) ↦ inr (IsAbove-next i n j l s f e a, climb-next fuel i j l s f e ∙ c)
  ]
]

-- A chain that does not meet a logger stays as it is when this logger is changed.
climb-EndsIn :
    (fuel i : ℕ) (o : Option ℕ) (l : Logger) (s : Store)
    → climb fuel i o s ≡ some (ok false)
    → EndsIn (put_logger i l s) o fuel
unfolding climb EndsIn
climb-EndsIn zero i o l s h = cc
climb-EndsIn (suc fuel) i none l s h = tt
climb-EndsIn (suc fuel) i (some j) l s h = elim (Bool-cases (j == i)) [
  | inl t ↦ let no : some (ok true) ≡ some (ok false) = sym (climb-here fuel i j s t) ∙ h in cc
  | inr f ↦ elim (Option-cases (s.loggers j)) [
    | inl e ↦ let no = sym (climb-missing fuel i j s f e) ∙ h in cc
    | inr (k, e) ↦ (
      k,
      ap (λ b. if b then some l else s.loggers j) f ∙ e,
      climb-EndsIn fuel i k.parent l s (sym (climb-next fuel i j k s f e) ∙ h),
    )
  ]
]

-- Chains that went through the logger go on to its new parent.
EndsIn-put_logger :
    (i n m : ℕ) (o : Option ℕ) (l : Logger) (s : Store)
    → EndsIn s o n
    → EndsIn (put_logger i l s) l.parent m
    → (k : ℕ) × EndsIn (put_logger i l s) o k
unfolding EndsIn
EndsIn-put_logger i n m none l s h p = (0, tt)
EndsIn-put_logger i zero m (some j) l s h p = absurd h
EndsIn-put_logger i (suc n) m (some j) l s (c, e, h) p = elim (Bool-cases (j == i)) [
  | inl t ↦ (suc m, (l, ap (λ b. if b then some l else s.loggers j) t, p))
  | inr f ↦
      let r = EndsIn-put_logger i n m c.parent l s h p in
      (suc r.0, (c, ap (λ b. if b then some l else s.loggers j) f ∙ e, r.1))
]

set_parent-met :
    (fuel i : ℕ) (p : Option ℕ) (s : Store) (o : Outcome Bool)
    → climb fuel i p s ≡ some o
    → set_parent fuel i p s ≡ some (o >>= λ met. adopt i p s met)
unfolding set_parent
set_parent-met fuel i p s o e = rw (e, set_parent) refl

set_parent-none :
    (fuel i : ℕ) (p : Option ℕ) (s : Store) → climb fuel i p s ≡ none → set_parent fuel i p s ≡ none
unfolding set_parent
set_parent-none fuel i p s e = rw (e, set_parent) refl

adopt-inv :
    (i : ℕ) (p : Option ℕ) (s : Store) (met : Bool) {s' : Store}
    → adopt i p s met ≡ ok s'
    → (met ≡ false)
      × ((l : Logger) × (s.loggers i ≡ some l) × (put_logger i (record l { parent = p }) s ≡ s'))
unfolding adopt
adopt-inv i p s true h = cc
adopt-inv i p s false h =
    let r = >>=-eq-ok (get (s.loggers i)) (λ l. ok (put_logger i (record l { parent = p }) s)) h in
    (refl, (r.0, get-eq-ok (s.loggers i) r.1, ok-injective r.2))

-- What a call of `SetParent` that returns has done.
pub set_parent-inv :
    (fuel i : ℕ) (p : Option ℕ) (s : Store) {s' : Store}
    → set_parent fuel i p s ≡ some (ok s')
    → (climb fuel i p s ≡ some (ok false))
      × ((l : Logger) × (s.loggers i ≡ some l) × (put_logger i (record l { parent = p }) s ≡ s'))
unfolding set_parent adopt
set_parent-inv fuel i p s h = elim (Option-cases (climb fuel i p s)) [
  | inl e ↦ let no = sym (set_parent-none fuel i p s e) ∙ h in cc
  | inr (o, e) ↦
      let r =
        >>=-eq-ok o (λ met. adopt i p s met)
          (some-injective (sym (set_parent-met fuel i p s o e) ∙ h)) in
      let q = adopt-inv i p s r.0 r.2 in (e ∙ ap some (r.1 ∙ ap ok q.0), q.1)
]

-- `SetParent`, when it returns, leaves a store in which the chain of every logger ends, if it was
-- called in such a store.
pub set_parent-IsAcyclic :
    (fuel i : ℕ) (p : Option ℕ) (s : Store) {s' : Store}
    → IsAcyclic s
    → set_parent fuel i p s ≡ some (ok s')
    → IsAcyclic s'
set_parent-IsAcyclic fuel i p s a h =
    let (c, (l, e, put)) = set_parent-inv fuel i p s h in
    let l' : Logger = record l { parent = p } in
    let ends = climb-EndsIn fuel i p l' s c in
    subst IsAcyclic put (λ j k f. elim (Bool-cases (j == i)) [
      | inl t ↦ (
        fuel,
        subst (λ z. EndsIn (put_logger i l' s) z.parent fuel)
            (some-injective (ap (λ b. if b then some l' else s.loggers j) (sym t) ∙ f)) ends,
      )
      | inr n ↦
          let r = a j k (ap (λ b. if b then some l' else s.loggers j) (sym n) ∙ f) in
          EndsIn-put_logger i r.0 fuel k.parent l' s r.1 ends
    ])

-- `SetParent` ends once it has fuel for the chain of the new parent. It throws exactly when the
-- logger is on that chain, and else it sets the parent and changes nothing else.
pub set_parent_total :
    (fuel i n : ℕ) (p : Option ℕ) (l : Logger) (s : Store)
    → s.loggers i ≡ some l
    → EndsIn s p n
    → n < fuel
    → (IsAbove s i p n × (set_parent fuel i p s ≡ some (fault thrown)))
      ⊎ ((¬ IsAbove s i p n)
          × (set_parent fuel i p s ≡ some (ok (put_logger i (record l { parent = p }) s))))
unfolding adopt
set_parent_total fuel i n p l s e h m = elim (climb_lem fuel i n p s h m) [
  | inl (a, c) ↦ inl (a, set_parent-met fuel i p s (ok true) c)
  | inr (a, c) ↦ inr (
    a,
    set_parent-met fuel i p s (ok false) c
        ∙ ap (λ o. some (get o >>= λ x. ok (put_logger i (record x { parent = p }) s))) e,
  )
]
