-- ===== src/Config/Nodes/Ends.antt =====
-- That the listing of a document ends (sylar/base/config.cpp: `ListAllNode`).
use sylar_study.Prelude.{
  ℕ, zero, suc, Bool, true, false, ◌||◌, List, [], ◌∷◌, some, if◌then◌else◌, ok, fault, thrown, Run,
  ◌>=>◌, Bytes, IsIn, first, later,
}
use sylar_study.Config.Yaml.{Yaml}
use sylar_study.Config.Nodes.{is_valid_name, is_empty_name, join, fold_run, list_all_node, pushed}
use sylar_study.Config.Nodes.Listing.{body}

-- A run that ends with a result or with an exception.
pub data IsEnded {A : Type 0} : Run A → Type 0 where
  result : (a : A) → IsEnded (some (ok a))
  refused : IsEnded (some (fault thrown))

>=>-IsEnded :
    {A B : Type 0} {m : Run A} {k : A → Run B}
    → IsEnded m
    → ((a : A) → IsEnded (k a))
    → IsEnded (m >=> k)
>=>-IsEnded (result a) ends = ends a
>=>-IsEnded refused ends = refused

if-IsEnded :
    {A : Type 0} {m : Run A} (a : A) (v b : Bool)
    → IsEnded m
    → IsEnded (if v then (if b then m else some (ok a)) else some (fault thrown))
if-IsEnded a false b t = refused
if-IsEnded a true false t = result a
if-IsEnded a true true t = t

module _ {N : Type 0} (yaml : Yaml N) where
  open yaml use {is_map, scalar, entries}

  -- The document is at most so deep.
  pub data IsWithin : ℕ → N → Type 0 where
    deeper :
        {d : ℕ} {root : N}
        → ((key child : N) → IsIn (key, child) (entries root) → IsWithin d child)
        → IsWithin (suc d) root

  entries-IsEnded :
      (fuel : ℕ) (base : Bytes) (es : List (N × N)) (node_set : List (Bytes × N))
      → ((key child : N)
          → IsIn (key, child) es
          → (node_set : List (Bytes × N)) (name : Bytes)
          → IsEnded (list_all_node yaml fuel child node_set name))
      → IsEnded (fold_run (body yaml fuel base) es node_set)
  unfolding fold_run
  entries-IsEnded fuel base [] node_set ih = result node_set
  entries-IsEnded fuel base ((key, child) ∷ es) node_set ih =
      >=>-IsEnded (ih key child first node_set (join base (scalar key)))
        (λ t. entries-IsEnded fuel base es t (λ k c i. ih k c (later i)))

  -- With fuel for the depth of the document its listing ends, with the nodes or with the exception.
  pub list_all_node-IsEnded :
      (fuel : ℕ) (root : N) (node_set : List (Bytes × N)) (base : Bytes)
      → IsWithin fuel root
      → IsEnded (list_all_node yaml fuel root node_set base)
  unfolding list_all_node
  list_all_node-IsEnded zero root node_set base d = elim d [ ]
  list_all_node-IsEnded (suc fuel) root node_set base (deeper d) =
      if-IsEnded (pushed yaml base root node_set) (is_valid_name base || is_empty_name base)
        (is_map root)
        (entries-IsEnded fuel base (entries root) (pushed yaml base root node_set)
          (λ k c i s b. list_all_node-IsEnded fuel c s b (d k c i)))
