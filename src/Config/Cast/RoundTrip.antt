-- ===== src/Config/Cast/RoundTrip.antt =====
-- Containers that are written to YAML are read back (sylar/base/config.h: `LexicalCast`).
use sylar_study.Prelude.{
  All-map, ◌≡◌, ◌≢◌, refl, sym, ap, ◌∙◌, inl, inr, Bool, true, false, List, [], ◌∷◌, map, none,
  some, if◌then◌else◌, Outcome, ok, fault, thrown, ok-injective, ◌>>=◌, Bytes, same_bytes,
  same_bytes_iff, All, Bool-cases,
}
use sylar_study.Config.Yaml.{Yaml, value_of, DistinctKeys}
use sylar_study.Config.Cast.{
  each_ok, emplace_sorted, emplace_all, on_keys, node_of, parse_item, pair_of, parse_pair,
  vector_to_string, vector_from_string, set_to_string, set_from_string, map_to_string,
  map_from_string, unordered_map_from_string,
}
use sylar_study.Config.Cast.Sorted.{IsAscending, emplace_ascending}

each_ok-cons {ℓ κ} :
    {A : Type ℓ} {B : Type κ} (f : A → Outcome B) (x : A) (xs : List A) (y : B) (ys : List B)
    → f x ≡ ok y
    → each_ok f xs ≡ ok ys
    → each_ok f (x ∷ xs) ≡ ok (y ∷ ys)
unfolding each_ok
each_ok-cons f x xs y ys h hs =
    ap (λ o. o >>= λ z. each_ok f xs >>= λ zs. ok (z ∷ zs)) h ∙ ap (λ o. o >>= λ zs. ok (y ∷ zs)) hs

distinct_keys {ℓ} :
    {A : Type ℓ} (lt : A → A → Bool) (x y : A) → (lt x y ≡ true) × (lt y x ≡ false) → y ≢ x
distinct_keys lt x y (p, q) e =
    let no : true ≡ false = sym p ∙ ap (λ z. lt x z) e ∙ sym (ap (λ z. lt z x) e) ∙ q in cc

value_of-other {ℓ} :
    {A : Type ℓ} (j k : Bytes) (a : A) (ps : List (Bytes × A))
    → j ≢ k
    → value_of k ps ≡ none
    → value_of k ((j, a) ∷ ps) ≡ none
value_of-other j k a ps n h = elim (Bool-cases (same_bytes j k)) [
  | inl t ↦ absurd (n ((same_bytes_iff j k).0 t))
  | inr f ↦ ap (λ b. if b then some a else value_of k ps) f ∙ h
]

module _ {N : Type 0} (yaml : Yaml N) where
  open yaml use {
    load, emit, is_sequence, is_map, scalar, items, entries, sequence, mapping, scalar_of,
    load-emit, sequence_is, mapping_is, scalar_is,
  }

  module _ {A : Type 0} (from : Bytes → Outcome A) (to : A → Outcome Bytes) where
    -- The element is written as a document that is read back.
    abbrev pub IsReadBack : A → Type 0
    IsReadBack x = (t : Bytes) × (n : N) × (to x ≡ ok t) × (load t ≡ ok n) × (from (emit n) ≡ ok x)

    each_read_back :
        (xs : List A)
        → All IsReadBack xs
        → (ns : List N) × (each_ok (node_of yaml from to) xs ≡ ok ns)
          × (each_ok (parse_item yaml from to) ns ≡ ok xs)
    unfolding each_ok
    each_read_back [] h = ([], refl, refl)
    each_read_back (x ∷ xs) ((t, n, p, q, r), h) =
        let rest = each_read_back xs h in
        (
          n ∷ rest.0,
          each_ok-cons (node_of yaml from to) x xs n rest.0 (ap (λ o. o >>= λ t. load t) p ∙ q)
              rest.1,
          each_ok-cons (parse_item yaml from to) n rest.0 x xs r rest.2,
        )

    -- A vector whose elements are read back one by one is read back.
    pub vector_from_string-vector_to_string :
        (xs : List A)
        → All IsReadBack xs
        → (t : Bytes) × (vector_to_string yaml from to xs ≡ ok t)
          × (vector_from_string yaml from to t ≡ ok xs)
    unfolding vector_to_string vector_from_string
    vector_from_string-vector_to_string xs h =
        let r = each_read_back xs h in
        let s = sequence_is r.0 in
        (
          emit (sequence r.0),
          ap (λ o. o >>= λ ns. ok (emit (sequence ns))) r.1,
          ap
                (λ o. o >>= λ n.
                  (if is_sequence n
                    then each_ok (parse_item yaml from to) (items n)
                    else fault thrown))
                (load-emit (sequence r.0))
              ∙ ap
                  (λ b.
                    if b
                    then each_ok (parse_item yaml from to) (items (sequence r.0))
                    else fault thrown)
                  s.0
              ∙ ap (each_ok (parse_item yaml from to)) s.1
              ∙ r.2,
        )

    -- A set is read back, its elements in their order.
    pub set_from_string-set_to_string :
        (lt : A → A → Bool) (xs : List A)
        → IsAscending lt xs
        → All IsReadBack xs
        → (t : Bytes) × (set_to_string yaml from to xs ≡ ok t)
          × (set_from_string yaml from to lt t ≡ ok xs)
    unfolding set_to_string set_from_string
    set_from_string-set_to_string lt xs a h =
        let r = vector_from_string-vector_to_string xs h in
        (
          r.0,
          r.1,
          ap (λ o. o >>= λ ys. ok (emplace_all (emplace_sorted lt) [] ys)) r.2
              ∙ ap ok (emplace_ascending lt xs a),
        )

  module _ {K V : Type 0} (from_key : Bytes → Outcome K) (to_key : K → Outcome Bytes)
      (from_val : Bytes → Outcome V) (to_val : V → Outcome Bytes) where
    -- A key is written as a text that is read back, and a value as a document.
    abbrev pub IsPairReadBack : K × V → Type 0
    IsPairReadBack p =
        ((t : Bytes) × (to_key p.0 ≡ ok t) × (from_key t ≡ ok p.0)) × IsReadBack from_val to_val p.1

    abbrev keyed : Bytes × N → N × N
    keyed p = (scalar_of p.0, p.1)

    abbrev pairs : List (K × V) → Outcome (List (Bytes × N))
    pairs ps = each_ok (pair_of yaml from_key to_key from_val to_val) ps

    abbrev parsed : List (Bytes × N) → Outcome (List (K × V))
    parsed ns = each_ok (parse_pair yaml from_key to_key from_val to_val) (map keyed ns)

    -- A key that no pair has stands for nothing in what the pairs are written as.
    IsAbsent : List (K × V) → List (Bytes × N) → Type 0
    IsAbsent ps ns =
        (k : K) (t : Bytes) → from_key t ≡ ok k → All (λ p. p.0 ≢ k) ps → value_of t ns ≡ none

    pair_made :
        (k : K) (v : V) (kt t : Bytes) (n : N)
        → to_key k ≡ ok kt
        → to_val v ≡ ok t
        → load t ≡ ok n
        → pair_of yaml from_key to_key from_val to_val (k, v) ≡ ok (kt, n)
    pair_made k v kt t n p r l =
        ap (λ o. o >>= λ j. to_val v >>= λ u. load u >>= λ m. ok (j, m)) p
        ∙ ap (λ o. o >>= λ u. load u >>= λ m. ok (kt, m)) r
        ∙ ap (λ o. o >>= λ m. ok (kt, m)) l

    pair_back :
        (k : K) (v : V) (kt : Bytes) (n : N)
        → from_key kt ≡ ok k
        → from_val (emit n) ≡ ok v
        → parse_pair yaml from_key to_key from_val to_val (keyed (kt, n)) ≡ ok (k, v)
    pair_back k v kt n q f =
        ap (λ o. o >>= λ j. from_val (emit n) >>= λ u. ok (j, u)) (ap from_key (scalar_is kt).2 ∙ q)
        ∙ ap (λ o. o >>= λ u. ok (k, u)) f

    each_pair_read_back :
        (lt : K → K → Bool) (ps : List (K × V))
        → IsAscending (on_keys lt) ps
        → All IsPairReadBack ps
        → (ns : List (Bytes × N)) × (pairs ps ≡ ok ns)
          × (parsed ns ≡ ok ps)
          × DistinctKeys ns
          × IsAbsent ps ns
    unfolding each_ok IsAbsent
    each_pair_read_back lt [] a h = ([], refl, refl, tt, (λ k t e f. refl))
    each_pair_read_back lt ((k, v) ∷ ps) (b, a) (((kt, p, q), (t, n, r, l, f)), h) =
        let (ns, made, back, distinct, absent) = each_pair_read_back lt ps a h in
        (
          (kt, n) ∷ ns,
          each_ok-cons (pair_of yaml from_key to_key from_val to_val) (k, v) ps (kt, n) ns
              (pair_made k v kt t n p r l) made,
          each_ok-cons (parse_pair yaml from_key to_key from_val to_val) (keyed (kt, n))
              (map keyed ns) (k, v) ps (pair_back k v kt n q f) back,
          (absent k kt q (All-map _ _ ps (λ y. distinct_keys lt k y.0) b), distinct),
          (λ k2 t2 e (off, offs).
              value_of-other kt t2 n ns (λ same. off (ok-injective (sym q ∙ ap from_key same ∙ e)))
                (absent k2 t2 e offs)),
        )

    -- A map whose keys ascend in the given order, with keys and values that their own casts write
    -- and read back, is written, and what is written is read back as the map.
    pub map_from_string-map_to_string :
        (lt : K → K → Bool) (ps : List (K × V))
        → IsAscending (on_keys lt) ps
        → All IsPairReadBack ps
        → (t : Bytes) × (map_to_string yaml from_key to_key from_val to_val ps ≡ ok t)
          × (map_from_string yaml from_key to_key from_val to_val lt t ≡ ok ps)
    unfolding map_to_string map_from_string
    map_from_string-map_to_string lt ps a h =
        let (ns, made, back, distinct, absent) = each_pair_read_back lt ps a h in
        let (is, holds, fields) = mapping_is ns distinct in
        let read : N → Outcome (List (K × V)) = λ n.
          (each_ok (parse_pair yaml from_key to_key from_val to_val) (entries n) >>= λ qs.
          ok (emplace_all (emplace_sorted (on_keys lt)) [] qs)) in
        (
          emit (mapping ns),
          ap (λ o. o >>= λ x. ok (emit (mapping x))) made,
          ap (λ o. o >>= λ n. (if is_map n then read n else fault thrown)) (load-emit (mapping ns))
              ∙ ap (λ b. if b then read (mapping ns) else fault thrown) is
              ∙ ap
                  (λ es. each_ok (parse_pair yaml from_key to_key from_val to_val) es >>= λ qs.
                    ok (emplace_all (emplace_sorted (on_keys lt)) [] qs))
                  holds
              ∙ ap (λ o. o >>= λ qs. ok (emplace_all (emplace_sorted (on_keys lt)) [] qs)) back
              ∙ ap ok (emplace_ascending (on_keys lt) ps a),
        )

    -- A document that is one scalar is refused for a map, but read as an empty unordered map.
    pub unordered_map_from_string-scalar :
        (lt same : K → K → Bool) (t : Bytes)
        → (map_from_string yaml from_key to_key from_val to_val lt (emit (scalar_of t))
            ≡ fault thrown)
          × (unordered_map_from_string yaml from_key to_key from_val to_val same
                (emit (scalar_of t))
              ≡ ok [])
    unfolding map_from_string unordered_map_from_string each_ok emplace_all
    unordered_map_from_string-scalar lt same t =
        let s = scalar_is t in
        (rw (load-emit (scalar_of t), s.1) refl, rw (load-emit (scalar_of t), s.3) refl)
