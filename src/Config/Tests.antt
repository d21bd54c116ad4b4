-- ===== src/Config/Tests.antt =====
-- The theorems on configuration at concrete inputs.
use sylar_study.Prelude.{
  ℕ, zero, suc, ◌≡◌, ◌≢◌, refl, sym, Bool, true, false, List, [], ◌∷◌, ◌++◌, Option, none, some,
  ◌==◌, ltb, if◌then◌else◌, Outcome, ok, fault, thrown, Bytes, codes, same_bytes, IsIn, IsIn-cons,
  IsIn-nil, subst, inl, inr, first, length, arith,
}
use sylar_study.Config.Cast.{map_to_string, map_from_string}
use sylar_study.Config.Cast.RoundTrip.{map_from_string-map_to_string}
use sylar_study.Config.Nodes.{join, is_valid_name, list_all_node}
use sylar_study.Config.Nodes.Listing.{itself, entry, IsListed, list_all_node-IsListed}
use sylar_study.Config.Nodes.Ends.{IsWithin, deeper}
use sylar_study.Config.Vars.{
  ConfigVar, Types, AbsConfigVar, ConfigManager, get_all_monitor, add_monitor, set_val,
  load_from_file,
}
use sylar_study.Config.Vars.Monitors.{add_all, add_monitor_wraps, set_val-add_all}
use sylar_study.Config.Vars.Loads.{load_from_file_lem, load_from_file-invalid_name}
use sylar_study.Config.Notation.{notation, entries_of-flat}

-- Numbers as elements, as keys and as values.
abbrev to_doc : ℕ → Outcome Bytes
to_doc x = ok (2 ∷ x ∷ [])

abbrev from_doc : Bytes → Outcome ℕ
from_doc (k ∷ x ∷ []) = ok x
from_doc _ = fault thrown

abbrev to_text : ℕ → Outcome Bytes
to_text x = ok (x ∷ [])

abbrev from_text : Bytes → Outcome ℕ
from_text (x ∷ []) = ok x
from_text _ = fault thrown

map_from_string-map_to_string_example :
    (t : Bytes) × (map_to_string notation from_text to_text from_doc to_doc ((1, 7) ∷ (2, 6) ∷ [])
      ≡ ok t)
    × (map_from_string notation from_text to_text from_doc to_doc ltb t ≡ ok ((1, 7) ∷ (2, 6) ∷ []))
map_from_string-map_to_string_example =
    map_from_string-map_to_string notation from_text to_text from_doc to_doc ltb
      ((1, 7) ∷ (2, 6) ∷ []) (((refl, refl), tt), (tt, tt))
      (
        ((1 ∷ [], refl, refl), (2 ∷ 7 ∷ [], 2 ∷ 7 ∷ [], refl, refl, refl)),
        (((2 ∷ [], refl, refl), (2 ∷ 6 ∷ [], 2 ∷ 6 ∷ [], refl, refl, refl)), tt),
      )

-- The document `port: 1`.
abbrev port_doc : Bytes
port_doc = notation.mapping ((codes "port", 2 ∷ 1 ∷ []) ∷ [])

port_listed : list_all_node notation 2 port_doc [] [] ≡ some (ok ((codes "port", 2 ∷ 1 ∷ []) ∷ []))
unfolding list_all_node
port_listed = refl

one_deep : (key text : Bytes) → IsWithin notation 2 (notation.mapping ((key, 2 ∷ text) ∷ []))
one_deep key text = deeper (λ k c i.
    elim (IsIn-cons (subst (λ l. IsIn (k, c) l) (entries_of-flat ((key, 2 ∷ text) ∷ [])) i)) [
      | inl p ↦ subst (λ x. IsWithin notation 1 x.1) (sym p) (deeper (λ a b j. absurd (IsIn-nil j)))
      | inr q ↦ absurd (IsIn-nil q)
    ])

list_all_node-IsListed_example :
    (more : List (Bytes × Bytes)) × ((codes "port", 2 ∷ 1 ∷ []) ∷ [] ≡ [] ++ more)
    × IsListed notation port_doc [] more
list_all_node-IsListed_example =
    list_all_node-IsListed notation 2 port_doc [] [] ((codes "port", 2 ∷ 1 ∷ []) ∷ []) port_listed

-- Variables that are numbers, whose monitors are numbers that their calls note.
abbrev types : Types ℕ (List ℕ)
types = record {
  Val = λ t. ℕ;
  same = λ t. ◌==◌;
  from = λ t. from_text;
  call = λ t m old now s. (m ∷ old ∷ now ∷ s, true);
}

abbrev variable : ℕ → ConfigVar ℕ ℕ
variable x = record { name = codes "port"; desc = []; val = x; monitors = [] }

abbrev absolute : ℕ → AbsConfigVar types
absolute x = record { type_of = 4; var = variable x }

abbrev repeat : ℕ → List ℕ
repeat zero = []
repeat (suc n) = 2 ∷ repeat n

length-repeat : (n : ℕ) → length (repeat n) ≡ n
length-repeat zero = refl
length-repeat (suc n) = omega (arith, length-repeat n)

abbrev many : List ℕ
many = repeat 65535

length-many : length many ≡ 65535
length-many = length-repeat 65535

add_monitor_wraps_example :
    (let r = add_all (1 ∷ many) 0 (variable 1) in
      get_all_monitor (add_monitor 3 r.1 r.0).0 ≡ 3 ∷ many)
add_monitor_wraps_example = add_monitor_wraps 1 many 3 (variable 1) refl length-many

set_val-add_all_example :
    (let r = set_val (types.call 4) ◌==◌ 8 (add_all (5 ∷ 6 ∷ []) 0 (variable 1)).0 [] in
      (r.0.val ≡ 8) × (r.1 ≡ 6 ∷ 1 ∷ 8 ∷ 5 ∷ 1 ∷ 8 ∷ []) × (r.2 ≡ true))
set_val-add_all_example =
    set_val-add_all (types.call 4) ◌==◌ (5 ∷ 6 ∷ []) 8 (variable 1) [] refl (omega arith) refl
      (λ m s. refl)

-- A program whose first variable was replaced by the second under the same name.
abbrev manager : ConfigManager types
manager = record {
  configs = λ k. if same_bytes k (codes "port") then some 1 else none;
  vars = λ i. if i == 0 then some (absolute 7) else (if i == 1 then some (absolute 8) else none);
  next_var = 2;
  outside = [];
}

port_is_valid : is_valid_name (codes "port") ≡ true
unfolding is_valid_name
port_is_valid = refl

blank_is_invalid : is_valid_name (codes "a b") ≡ false
unfolding is_valid_name
blank_is_invalid = refl

abbrev loaded : ConfigManager types
loaded = record manager { vars = λ i. if i == 1 then some (absolute 1) else manager.vars i }

port_loaded : load_from_file types notation 2 port_doc manager ≡ some (ok loaded)
unfolding load_from_file same_bytes
port_loaded = refl

not_first : (b : Bool) → ◌≢◌ {A = Option ℕ} (if b then some 1 else none) (some 0)
not_first b = ground arith

load_from_file_lem_example : (loaded.configs ≡ manager.configs) × (loaded.vars 0 ≡ manager.vars 0)
load_from_file_lem_example =
    load_from_file_lem types notation 2 port_doc port_doc manager loaded 0 refl port_loaded
      (λ name n u e. not_first (same_bytes name (codes "port")))

load_from_file-invalid_name_example :
    load_from_file types notation 2 (notation.mapping ((codes "a b", 2 ∷ 1 ∷ []) ∷ [])) manager
    ≡ some (ok manager)
unfolding join
load_from_file-invalid_name_example =
    load_from_file-invalid_name types notation 2 (notation.mapping ((codes "a b", 2 ∷ 1 ∷ []) ∷ []))
      (notation.mapping ((codes "a b", 2 ∷ 1 ∷ []) ∷ [])) manager (codes "a b") (2 ∷ 1 ∷ []) refl
      (one_deep (codes "a b") (1 ∷ [])) (entry (2 ∷ codes "a b") (2 ∷ 1 ∷ []) refl first itself)
      refl blank_is_invalid
