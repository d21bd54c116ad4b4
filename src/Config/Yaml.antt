-- ===== src/Config/Yaml.antt =====
-- What sylar/base/config.h, config.cpp and log.cpp use of yaml-cpp: a parameter, with what its
-- documentation says of nodes that are built, written and read again.
use sylar_study.Prelude.{
  ◌≡◌, Bool, true, false, List, [], ◌∷◌, map, Option, none, some, if◌then◌else◌, Outcome, ok, Bytes,
  same_bytes,
}

-- What a key stands for in a list of pairs.
abbrev pub value_of {ℓ} : {A : Type ℓ} → Bytes → List (Bytes × A) → Option A
value_of k [] = none
value_of k ((j, a) ∷ ps) = if same_bytes j k then some a else value_of k ps

-- No key stands twice.
abbrev pub DistinctKeys {ℓ} : {A : Type ℓ} → List (Bytes × A) → Type ℓ
DistinctKeys [] = Unit
DistinctKeys ((k, a) ∷ ps) = (value_of k ps ≡ none) × DistinctKeys ps

-- `load` is YAML::Load, which throws on a text that is no document; `emit` is the output operator.
-- `sequence` and `mapping` are the nodes that `push_back` and assignments to keys build, and
-- `scalar_of` the node of a text. `items` and `entries` are what the iterators give, `field` is
-- `node[key]` where that is defined, and `scalar` is `Scalar()`.
pub record Yaml (N : Type 0) : Type 0 where
  pub load : Bytes → Outcome N
  pub emit : N → Bytes
  pub is_sequence : N → Bool
  pub is_map : N → Bool
  pub is_scalar : N → Bool
  pub scalar : N → Bytes
  pub items : N → List N
  pub entries : N → List (N × N)
  pub field : N → Bytes → Option N
  pub sequence : List N → N
  pub mapping : List (Bytes × N) → N
  pub scalar_of : Bytes → N
  pub load-emit : (n : N) → load (emit n) ≡ ok n
  pub sequence_is : (ns : List N) → (is_sequence (sequence ns) ≡ true) × (items (sequence ns) ≡ ns)
  pub mapping_is :
      (ps : List (Bytes × N))
      → DistinctKeys ps
      → (is_map (mapping ps) ≡ true)
        × (entries (mapping ps) ≡ map (λ p. (scalar_of p.0, p.1)) ps)
        × ((k : Bytes) → field (mapping ps) k ≡ value_of k ps)
  pub scalar_is :
      (t : Bytes)
      → (is_scalar (scalar_of t) ≡ true)
        × (is_map (scalar_of t) ≡ false)
        × (scalar (scalar_of t) ≡ t)
        × (entries (scalar_of t) ≡ [])
