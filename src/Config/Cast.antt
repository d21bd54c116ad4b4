-- ===== src/Config/Cast.antt =====
-- The specializations of `LexicalCast` for containers (sylar/base/config.h): from and to YAML documents,
-- given those of the elements.
pub mod Sorted
pub mod RoundTrip
use sylar_study.Prelude.{
  Bool, true, false, not, ◌||◌, List, [], ◌∷◌, ◌++◌, Option, none, some, if◌then◌else◌, Outcome, ok,
  fault, thrown, ◌>>=◌, Bytes,
}
use sylar_study.Config.Yaml.{Yaml}

-- A loop that can throw, over a list.
unfoldable pub each_ok {ℓ κ} :
    {A : Type ℓ} {B : Type κ} → (A → Outcome B) → List A → Outcome (List B)
each_ok f [] = ok []
each_ok f (x ∷ xs) = f x >>= λ y. each_ok f xs >>= λ ys. ok (y ∷ ys)

-- `std::set::emplace`: an element that is neither less nor greater than one of the set is dropped.
pub emplace_sorted {ℓ} : {A : Type ℓ} → (A → A → Bool) → A → List A → List A
emplace_sorted lt x [] = x ∷ []
emplace_sorted lt x (y ∷ ys) =
    let rest = emplace_sorted lt x ys in
    if lt x y then x ∷ y ∷ ys else if lt y x then y ∷ rest else y ∷ ys

-- `std::unordered_set::emplace`, with the elements in the order of their insertion.
pub emplace_unordered {ℓ} : {A : Type ℓ} → (A → A → Bool) → A → List A → List A
emplace_unordered same x [] = x ∷ []
emplace_unordered same x (y ∷ ys) =
    let rest = emplace_unordered same x ys in if same x y then y ∷ ys else y ∷ rest

-- `emplace` of a pair into a map, which goes by the key.
abbrev pub on_keys {ℓ κ} : {A : Type ℓ} {B : Type κ} → (A → A → Bool) → A × B → A × B → Bool
on_keys test p q = test p.0 q.0

-- The elements in the order of the document, each emplaced.
pub emplace_all {ℓ} : {A : Type ℓ} → (A → List A → List A) → List A → List A → List A
emplace_all emplace set [] = set
emplace_all emplace set (x ∷ xs) = emplace_all emplace (emplace x set) xs

module _ {N : Type 0} (yaml : Yaml N) where
  open yaml use {load, emit, is_sequence, is_map, scalar, items, entries, sequence, mapping}

  module _ {A : Type 0} (from : Bytes → Outcome A) (to : A → Outcome Bytes) where
    abbrev pub node_of : A → Outcome N
    node_of x = to x >>= λ t. load t

    abbrev pub parse_item : N → Outcome A
    parse_item n = from (emit n)

    unfoldable pub vector_to_string : List A → Outcome Bytes
    unfolding each_ok
    vector_to_string xs = each_ok node_of xs >>= λ ns. ok (emit (sequence ns))

    unfoldable pub vector_from_string : Bytes → Outcome (List A)
    unfolding each_ok
    vector_from_string text =
        load text >>= λ n. (if is_sequence n then each_ok parse_item (items n) else fault thrown)

    pub list_to_string : List A → Outcome Bytes
    unfolding vector_to_string
    list_to_string xs = vector_to_string xs

    pub list_from_string : Bytes → Outcome (List A)
    unfolding vector_from_string
    list_from_string text = vector_from_string text

    pub set_from_string : (A → A → Bool) → Bytes → Outcome (List A)
    unfolding vector_from_string emplace_sorted emplace_all
    set_from_string lt text =
        vector_from_string text >>= λ xs. ok (emplace_all (emplace_sorted lt) [] xs)

    pub set_to_string : List A → Outcome Bytes
    unfolding vector_to_string
    set_to_string xs = vector_to_string xs

    unfoldable pub unordered_set_from_string : (A → A → Bool) → Bytes → Outcome (List A)
    unfolding vector_from_string emplace_unordered emplace_all
    unordered_set_from_string same text =
        vector_from_string text >>= λ xs. ok (emplace_all (emplace_unordered same) [] xs)

    pub unordered_set_to_string : List A → Outcome Bytes
    unfolding vector_to_string
    unordered_set_to_string xs = vector_to_string xs

  module _ {K V : Type 0} (from_key : Bytes → Outcome K) (to_key : K → Outcome Bytes)
      (from_val : Bytes → Outcome V) (to_val : V → Outcome Bytes) where
    abbrev pub parse_pair : N × N → Outcome (K × V)
    parse_pair p = from_key (scalar p.0) >>= λ k. from_val (emit p.1) >>= λ v. ok (k, v)

    abbrev pub pair_of : K × V → Outcome (Bytes × N)
    pair_of p = to_key p.0 >>= λ k. to_val p.1 >>= λ t. load t >>= λ n. ok (k, n)

    pub map_from_string : (K → K → Bool) → Bytes → Outcome (List (K × V))
    unfolding each_ok emplace_sorted emplace_all
    map_from_string lt text = load text >>= λ n.
        (if is_map n
          then (each_ok parse_pair (entries n) >>= λ ps.
              ok (emplace_all (emplace_sorted (on_keys lt)) [] ps))
          else fault thrown)

    pub map_to_string : List (K × V) → Outcome Bytes
    unfolding each_ok
    map_to_string ps = each_ok pair_of ps >>= λ ns. ok (emit (mapping ns))

    -- The exception for a node that is no map is made, but not thrown.
    pub unordered_map_from_string : (K → K → Bool) → Bytes → Outcome (List (K × V))
    unfolding each_ok emplace_unordered emplace_all
    unordered_map_from_string same text = load text >>= λ n.
        each_ok parse_pair (entries n) >>= λ ps.
        ok (emplace_all (emplace_unordered (on_keys same)) [] ps)

    pub unordered_map_to_string : List (K × V) → Outcome Bytes
    unfolding map_to_string
    unordered_map_to_string ps = map_to_string ps
