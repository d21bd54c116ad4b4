-- ===== src/Config/Nodes.antt =====
-- The nodes of a configuration document by their dotted names (sylar/base/config.cpp: `IsValidName`,
-- `ListAllNode`).
pub mod Listing
pub mod Ends
use sylar_study.Prelude.{
  ℕ, zero, suc, Bool, true, false, not, ◌||◌, ◌&&◌, List, [], ◌∷◌, ◌++◌, Option, none, some, ◌==◌,
  leb, if◌then◌else◌, Outcome, ok, fault, thrown, Run, ◌>=>◌, Bytes,
}
use sylar_study.Config.Yaml.{Yaml}

abbrev within : ℕ → ℕ → ℕ → Bool
within lo hi c = leb lo c && leb c hi

-- One byte of `[a-zA-Z0-9._]`.
pub is_name_char : ℕ → Bool
is_name_char c =
    within b'a' b'z' c || within b'A' b'Z' c || within b'0' b'9' c || c == b'.' || c == b'_'

pub all_name_chars : Bytes → Bool
unfolding is_name_char
all_name_chars [] = true
all_name_chars (c ∷ cs) = is_name_char c && all_name_chars cs

abbrev pub is_empty_name : Bytes → Bool
is_empty_name [] = true
is_empty_name (c ∷ cs) = false

-- `AbsConfigVar::IsValidName`.
unfoldable pub is_valid_name : Bytes → Bool
unfolding all_name_chars
is_valid_name name = not (is_empty_name name) && all_name_chars name

-- The name of an entry below a node.
unfoldable pub join : Bytes → Bytes → Bytes
join [] key = key
join (c ∷ cs) key = (c ∷ cs) ++ b'.' ∷ key

-- A loop whose body can throw or run out of fuel.
pub fold_run {ℓ κ} : {A : Type ℓ} {S : Type κ} → (A → S → Run S) → List A → S → Run S
fold_run body [] s = some (ok s)
fold_run body (x ∷ xs) s = body x s >=> λ t. fold_run body xs t

module _ {N : Type 0} (yaml : Yaml N) where
  open yaml use {is_map, scalar, entries}

  -- `node_set.emplace_back(name, root)`, for a name that is not empty.
  abbrev pub pushed : Bytes → N → List (Bytes × N) → List (Bytes × N)
  pushed name root node_set = if is_empty_name name then node_set else node_set ++ (name, root) ∷ []

  -- `ListAllNode`, on fuel for the depth of the document.
  unfoldable pub list_all_node : ℕ → N → List (Bytes × N) → Bytes → Run (List (Bytes × N))
  unfolding is_valid_name join fold_run
  list_all_node zero root node_set name = none
  list_all_node (suc fuel) root node_set name =
      if is_valid_name name || is_empty_name name
      then (if is_map root
          then fold_run (λ it s. list_all_node fuel it.1 s (join name (scalar it.0))) (entries root)
              (pushed name root node_set)
          else some (ok (pushed name root node_set)))
      else some (fault thrown)
