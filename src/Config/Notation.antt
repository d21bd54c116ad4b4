-- ===== src/Config/Notation.antt =====
-- A small notation for documents, as one instance of the interface of yaml-cpp. A document is
-- written as its kind (1 a sequence, 2 a text, 3 a map) and its parts, each part with its bytes raised
-- by one and a zero behind.
use sylar_study.Prelude.{
  ℕ, zero, suc, ◌≡◌, refl, ap, ◌∙◌, Bool, false, List, [], ◌∷◌, map, ◌==◌, if◌then◌else◌, ok, Bytes,
}
use sylar_study.Config.Yaml.{Yaml, value_of}

abbrev part : Bytes → Bytes → Bytes
part [] rest = 0 ∷ rest
part (c ∷ cs) rest = suc c ∷ part cs rest

abbrev parts : List Bytes → Bytes
parts [] = []
parts (n ∷ ns) = part n (parts ns)

abbrev push : ℕ → List Bytes → List Bytes
push c [] = (c ∷ []) ∷ []
push c (n ∷ ns) = (c ∷ n) ∷ ns

abbrev split : Bytes → List Bytes
split [] = []
split (zero ∷ cs) = [] ∷ split cs
split (suc c ∷ cs) = push c (split cs)

split-part : (n rest : Bytes) → split (part n rest) ≡ n ∷ split rest
split-part [] rest = refl
split-part (c ∷ cs) rest = ap (push c) (split-part cs rest)

pub split-parts : (ns : List Bytes) → split (parts ns) ≡ ns
split-parts [] = refl
split-parts (n ∷ ns) = split-part n (parts ns) ∙ ap (λ l. n ∷ l) (split-parts ns)

abbrev flat : List (Bytes × Bytes) → List Bytes
flat [] = []
flat ((k, n) ∷ ps) = (2 ∷ k) ∷ n ∷ flat ps

abbrev in_pairs : List Bytes → List (Bytes × Bytes)
in_pairs [] = []
in_pairs (k ∷ []) = []
in_pairs (k ∷ n ∷ ns) = (k, n) ∷ in_pairs ns

in_pairs-flat : (ps : List (Bytes × Bytes)) → in_pairs (flat ps) ≡ map (λ p. (2 ∷ p.0, p.1)) ps
in_pairs-flat [] = refl
in_pairs-flat ((k, n) ∷ ps) = ap (λ l. (2 ∷ k, n) ∷ l) (in_pairs-flat ps)

abbrev is_kind : ℕ → Bytes → Bool
is_kind kind [] = false
is_kind kind (c ∷ cs) = c == kind

abbrev content : Bytes → Bytes
content [] = []
content (c ∷ cs) = cs

abbrev entries_of : Bytes → List (Bytes × Bytes)
entries_of n = if is_kind 3 n then in_pairs (split (content n)) else []

abbrev with_names : List (Bytes × Bytes) → List (Bytes × Bytes)
with_names = map (λ p. (content p.0, p.1))

pub with_names-map : (ps : List (Bytes × Bytes)) → with_names (map (λ p. (2 ∷ p.0, p.1)) ps) ≡ ps
with_names-map [] = refl
with_names-map (p ∷ ps) = ap (λ l. p ∷ l) (with_names-map ps)

pub entries_of-flat :
    (ps : List (Bytes × Bytes)) → entries_of (3 ∷ parts (flat ps)) ≡ map (λ p. (2 ∷ p.0, p.1)) ps
entries_of-flat ps = ap in_pairs (split-parts (flat ps)) ∙ in_pairs-flat ps

abbrev pub notation : Yaml Bytes
notation = record {
  load = ok;
  emit = λ n. n;
  is_sequence = is_kind 1;
  is_map = is_kind 3;
  is_scalar = is_kind 2;
  scalar = content;
  items = λ n. split (content n);
  entries = entries_of;
  field = λ n k. value_of k (with_names (entries_of n));
  sequence = λ ns. 1 ∷ parts ns;
  mapping = λ ps. 3 ∷ parts (flat ps);
  scalar_of = λ t. 2 ∷ t;
  load-emit = λ n. refl;
  sequence_is = λ ns. (refl, split-parts ns);
  mapping_is = λ ps d. (
    refl,
    entries_of-flat ps,
    λ k. ap (λ l. value_of k l) (ap with_names (entries_of-flat ps) ∙ with_names-map ps),
  );
  scalar_is = λ t. (refl, refl, refl, refl);
}
