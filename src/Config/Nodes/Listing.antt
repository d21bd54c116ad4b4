-- ===== src/Config/Nodes/Listing.antt =====
-- That the listing of a document holds its named nodes, and no other (sylar/base/config.cpp).
use sylar_study.Prelude.{
  false_ne_true, IsIn, first, later, IsIn-left, IsIn-right, IsIn-append, IsIn-cons, IsIn-nil, ℕ,
  zero, suc, ◌≡◌, refl, sym, ap, subst, ◌∙◌, ◌⊎◌, inl, inr, Bool, true, false, ◌||◌, List, [], ◌∷◌,
  ◌++◌, some, ok-injective, some-injective, if◌then◌else◌, ok, fault, thrown, Run, >=>-eq-ok, Bytes,
  arith,
}
use mathlib.Core.List.{append_assoc, append-nil}
use sylar_study.Config.Yaml.{Yaml}
use sylar_study.Config.Nodes.{is_valid_name, is_empty_name, join, fold_run, list_all_node, pushed}

module _ {N : Type 0} (yaml : Yaml N) where
  open yaml use {is_map, scalar, entries}

  -- The named node is met on a way down from another, with the names joined on the way.
  pub data IsUnder (name : Bytes) (n : N) : Bytes → N → Type 0 where
    itself : IsUnder name n name n
    entry :
        {base : Bytes} {root : N} (key child : N)
        → is_map root ≡ true
        → IsIn (key, child) (entries root)
        → IsUnder name n (join base (scalar key)) child
        → IsUnder name n base root

  -- What is added is valid and stands under the root, and all that has a name there is added.
  unfoldable pub IsListed : N → Bytes → List (Bytes × N) → Type 0
  IsListed root base more =
      ((name : Bytes) (n : N)
        → IsIn (name, n) more
        → (is_valid_name name ≡ true) × IsUnder name n base root)
      × ((name : Bytes) (n : N)
          → IsUnder name n base root
          → is_empty_name name ≡ false
          → IsIn (name, n) more)

  -- The named node stands under an entry.
  IsBelow : List (N × N) → Bytes → Bytes → N → Type 0
  IsBelow es base name n =
      (key : N) × (child : N) × IsIn (key, child) es × IsUnder name n (join base (scalar key)) child

  -- The same for the entries of a node.
  AreListed : List (N × N) → Bytes → List (Bytes × N) → Type 0
  AreListed es base more =
      ((name : Bytes) (n : N)
        → IsIn (name, n) more
        → (is_valid_name name ≡ true) × IsBelow es base name n)
      × ((name : Bytes) (n : N)
          → IsBelow es base name n
          → is_empty_name name ≡ false
          → IsIn (name, n) more)

  abbrev Adds : List (Bytes × N) → List (Bytes × N) → (List (Bytes × N) → Type 0) → Type 0
  Adds node_set out P = (more : List (Bytes × N)) × (out ≡ node_set ++ more) × P more

  abbrev pub body : ℕ → Bytes → N × N → List (Bytes × N) → Run (List (Bytes × N))
  body fuel base it s = list_all_node yaml fuel it.1 s (join base (scalar it.0))

  module _ (base : Bytes) (key child : N) (es : List (N × N)) (more rest : List (Bytes × N)) where
    sound-cons :
        ((name : Bytes) (n : N)
          → IsIn (name, n) more
          → (is_valid_name name ≡ true) × IsUnder name n (join base (scalar key)) child)
        → ((name : Bytes) (n : N)
            → IsIn (name, n) rest
            → (is_valid_name name ≡ true) × IsBelow es base name n)
        → (name : Bytes) (n : N) → IsIn (name, n) (more ++ rest)
        → (is_valid_name name ≡ true) × IsBelow ((key, child) ∷ es) base name n
    unfolding IsBelow
    sound-cons s s' name n i = elim (IsIn-append more rest i) [
      | inl p ↦ ((s name n p).0, (key, child, first, (s name n p).1))
      | inr p ↦ let q = s' name n p in (q.0, (q.1.0, q.1.1, later q.1.2, q.1.3))
    ]

    complete-cons :
        ((name : Bytes) (n : N)
          → IsUnder name n (join base (scalar key)) child
          → is_empty_name name ≡ false
          → IsIn (name, n) more)
        → ((name : Bytes) (n : N)
            → IsBelow es base name n
            → is_empty_name name ≡ false
            → IsIn (name, n) rest)
        → (name : Bytes) (n : N) → IsBelow ((key, child) ∷ es) base name n
        → is_empty_name name ≡ false
        → IsIn (name, n) (more ++ rest)
    unfolding IsBelow
    complete-cons c c' name n (k, m, i, u) e = elim (IsIn-cons i) [
      | inl p ↦
          IsIn-left rest (c name n (subst (λ x. IsUnder name n (join base (scalar x.0)) x.1) p u) e)
      | inr p ↦ IsIn-right more (c' name n (k, m, p, u) e)
    ]

  entries-AreListed :
      (fuel : ℕ) (base : Bytes)
      → ((root : N) (node_set : List (Bytes × N)) (name : Bytes) (out : List (Bytes × N))
          → list_all_node yaml fuel root node_set name ≡ some (ok out)
          → Adds node_set out (IsListed root name))
      → (es : List (N × N)) (node_set out : List (Bytes × N))
      → fold_run (body fuel base) es node_set ≡ some (ok out)
      → Adds node_set out (AreListed es base)
  unfolding fold_run AreListed IsListed IsBelow
  entries-AreListed fuel base ih [] node_set out h = (
    [],
    sym (ok-injective (some-injective h)) ∙ sym (append-nil node_set),
    ((λ name n i. absurd (IsIn-nil i)), (λ name n b e. absurd (IsIn-nil b.2))),
  )
  entries-AreListed fuel base ih ((key, child) ∷ es) node_set out h =
      let r = >=>-eq-ok (body fuel base (key, child) node_set) _ h in
      let (more, grown, laws) = ih child node_set (join base (scalar key)) r.0 r.1 in
      let (rest, grown', laws') = entries-AreListed fuel base ih es r.0 out r.2 in
      (
        more ++ rest,
        grown' ∙ ap (λ s. s ++ rest) grown ∙ append_assoc node_set more rest,
        (
          sound-cons base key child es more rest laws.0 laws'.0,
          complete-cons base key child es more rest laws.1 laws'.1,
        ),
      )

  IsUnder-cases :
      {name base : Bytes} {n root : N}
      → IsUnder name n base root
      → (◌≡◌ {A = Bytes × N} (name, n) (base, root))
        ⊎ ((is_map root ≡ true) × IsBelow (entries root) base name n)
  unfolding IsBelow
  IsUnder-cases itself = inl refl
  IsUnder-cases (entry key child m i u) = inr (m, (key, child, i, u))

  -- The node itself, when it has a name, and what stands below it.
  listed :
      (root : N) (base : Bytes) (node_set rest : List (Bytes × N)) (empty : Bool)
      → is_empty_name base ≡ empty
      → (empty ≡ false → is_valid_name base ≡ true)
      → ((name : Bytes) (n : N)
          → IsIn (name, n) rest
          → (is_valid_name name ≡ true) × (is_map root ≡ true) × IsBelow (entries root) base name n)
      → ((name : Bytes) (n : N)
          → is_map root ≡ true
          → IsBelow (entries root) base name n
          → is_empty_name name ≡ false
          → IsIn (name, n) rest)
      → Adds node_set
          ((if empty then node_set else node_set ++ (base, root) ∷ []) ++ rest)
          (IsListed root base)
  unfolding IsListed IsBelow
  listed root base node_set rest true e v sound complete = (
    rest,
    refl,
    (
      (λ name n i. let q = sound name n i in (q.0, entry q.2.0 q.2.1 q.1 q.2.2 q.2.3)),
      (λ name n u f. elim (IsUnder-cases u) [
        | inl p ↦ absurd (false_ne_true (sym f ∙ ap (λ x. is_empty_name x.0) p ∙ e))
        | inr q ↦ complete name n q.0 q.1 f
      ]),
    ),
  )
  listed root base node_set rest false e v sound complete = (
    (base, root) ∷ rest,
    append_assoc node_set ((base, root) ∷ []) rest,
    (
      (λ name n i. elim (IsIn-cons i) [
        | inl p ↦
            subst (λ x. (is_valid_name x.0 ≡ true) × IsUnder x.0 x.1 base root) (sym p)
              (v refl, itself)
        | inr q ↦ let r = sound name n q in (r.0, entry r.2.0 r.2.1 r.1 r.2.2 r.2.3)
      ]),
      (λ name n u f. elim (IsUnder-cases u) [
        | inl p ↦ subst (λ x. IsIn x ((base, root) ∷ rest)) (sym p) first
        | inr q ↦ later (complete name n q.0 q.1 f)
      ]),
    ),
  )

  name_of_node :
      (base : Bytes)
      → is_valid_name base || is_empty_name base ≡ true
      → is_empty_name base ≡ false
      → is_valid_name base ≡ true
  name_of_node base v e = ground arith

  -- The same for what the listing of the entries, or no listing, has added.
  IsListed-below :
      (root : N) (base : Bytes) (node_set out rest : List (Bytes × N))
      → is_valid_name base || is_empty_name base ≡ true
      → out ≡ pushed yaml base root node_set ++ rest
      → ((name : Bytes) (n : N)
          → IsIn (name, n) rest
          → (is_valid_name name ≡ true) × (is_map root ≡ true) × IsBelow (entries root) base name n)
      → ((name : Bytes) (n : N)
          → is_map root ≡ true
          → IsBelow (entries root) base name n
          → is_empty_name name ≡ false
          → IsIn (name, n) rest)
      → Adds node_set out (IsListed root base)
  IsListed-below root base node_set out rest v grown sound complete =
      let l =
        listed root base node_set rest (is_empty_name base) refl (name_of_node base v) sound
          complete in
      (l.0, grown ∙ l.1, l.2)

  IsListed-step :
      (fuel : ℕ) (root : N) (node_set : List (Bytes × N)) (base : Bytes) (out : List (Bytes × N))
      → ((child : N) (node_set : List (Bytes × N)) (name : Bytes) (out : List (Bytes × N))
          → list_all_node yaml fuel child node_set name ≡ some (ok out)
          → Adds node_set out (IsListed child name))
      → (v m : Bool) → is_valid_name base || is_empty_name base ≡ v
      → is_map root ≡ m
      → (if v
          then (if m
              then fold_run (body fuel base) (entries root) (pushed yaml base root node_set)
              else some (ok (pushed yaml base root node_set)))
          else some (fault thrown))
        ≡ some (ok out)
      → Adds node_set out (IsListed root base)
  unfolding AreListed
  IsListed-step fuel root node_set base out ih false m v mq r = ground arith
  IsListed-step fuel root node_set base out ih true false v mq r =
      IsListed-below root base node_set out [] v
        (sym (ok-injective (some-injective r)) ∙ sym (append-nil (pushed yaml base root node_set)))
        (λ name n i. absurd (IsIn-nil i)) (λ name n i b f. absurd (false_ne_true (sym mq ∙ i)))
  IsListed-step fuel root node_set base out ih true true v mq r =
      let (more, grown, laws) =
        entries-AreListed fuel base ih (entries root) (pushed yaml base root node_set) out r in
      IsListed-below root base node_set out more v grown
        (λ name n i. ((laws.0 name n i).0, mq, (laws.0 name n i).1))
        (λ name n i b f. laws.1 name n b f)

  -- When the listing of a document returns, it has added to the set, behind what was there, exactly
  -- the nodes under the root that have a name, and each of these names is valid.
  pub list_all_node-IsListed :
      (fuel : ℕ) (root : N) (node_set : List (Bytes × N)) (base : Bytes) (out : List (Bytes × N))
      → list_all_node yaml fuel root node_set base ≡ some (ok out)
      → Adds node_set out (IsListed root base)
  unfolding list_all_node
  list_all_node-IsListed zero root node_set base out h = ground arith
  list_all_node-IsListed (suc fuel) root node_set base out h =
      IsListed-step fuel root node_set base out (list_all_node-IsListed fuel)
        (is_valid_name base || is_empty_name base) (is_map root) refl refl h
