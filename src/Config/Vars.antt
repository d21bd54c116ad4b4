-- ===== src/Config/Vars.antt =====
-- Configuration variables and the loading of a document into them (sylar/base/config.h: `ConfigVar`,
-- `ConfigManager`; config.cpp: `ConfigManager::LoadFromFile`, `FindConfigVarBase`). A monitor is run
-- by the parameter `call` on the state outside, where false stands for an exception; it does not use
-- the variable itself.
pub mod Monitors
pub mod Loads
use sylar_study.Prelude.{
  ℕ, suc, ◌+◌, ◌%◌, Bool, true, false, List, [], ◌∷◌, map, Option, none, some, ◌==◌, ltb,
  if◌then◌else◌, Outcome, ok, fault, thrown, get, ◌>>=◌, ◌>=>◌, catch, Run, Bytes, same_bytes,
}
use sylar_study.Config.Yaml.{Yaml}
use sylar_study.Config.Nodes.{is_valid_name, list_all_node}

pub record ConfigVar (T M : Type 0) : Type 0 where
  pub name : Bytes
  pub desc : Bytes
  pub val : T
  pub monitors : List (ℕ × M)

-- The constructors of `AbsConfigVar` and `ConfigVar`.
unfoldable pub new_config_var : {T M : Type 0} → Bytes → T → Bytes → Outcome (ConfigVar T M)
new_config_var name def_val desc =
    if is_valid_name name
    then ok (record { name = name; desc = desc; val = def_val; monitors = [] })
    else fault thrown

-- `monitors_[id] = m`, on the map as a list in the order of the ids.
unfoldable pub put_monitor : {M : Type 0} → ℕ → M → List (ℕ × M) → List (ℕ × M)
put_monitor id m [] = (id, m) ∷ []
put_monitor id m ((k, n) ∷ rest) =
    let later = put_monitor id m rest in
    if ltb id k
    then (id, m) ∷ (k, n) ∷ rest
    else (if id == k then (id, m) ∷ rest else (k, n) ∷ later)

-- `monitors_.erase(id)`.
unfoldable pub erase_monitor : {M : Type 0} → ℕ → List (ℕ × M) → List (ℕ × M)
erase_monitor id [] = []
erase_monitor id ((k, n) ∷ rest) =
    let later = erase_monitor id rest in if id == k then rest else (k, n) ∷ later

module _ {T M : Type 0} where
  unfoldable pub get_all_monitor : ConfigVar T M → List M
  get_all_monitor v = map (λ pair. pair.1) v.monitors

  -- `AddMonitor`, with the counter of the type before and after.
  unfoldable pub add_monitor : M → ℕ → ConfigVar T M → ConfigVar T M × ℕ × ℕ
  unfolding put_monitor
  add_monitor m next_id v =
      (record v { monitors = put_monitor next_id m v.monitors }, next_id, suc next_id % 65536)

  unfoldable pub remove_monitor : ℕ → ConfigVar T M → ConfigVar T M
  unfolding erase_monitor
  remove_monitor id v = record v { monitors = erase_monitor id v.monitors }

  module _ {S : Type 0} (call : M → T → T → S → S × Bool) where
    -- The loop over the monitors, which an exception leaves.
    unfoldable pub notify : List M → T → T → S → S × Bool
    notify [] old val s = (s, true)
    notify (m ∷ ms) old val s =
        let r = call m old val s in let rest = notify ms old val r.0 in if r.1 then rest else r

    module _ (same : T → T → Bool) where
      unfoldable pub set_val : T → ConfigVar T M → S → ConfigVar T M × S × Bool
      unfolding notify get_all_monitor
      set_val val v s =
          let r = notify (get_all_monitor v) v.val val s in
          if same val v.val then (v, s, true) else (record v { val = val }, r.0, r.1)

      -- `FromString`, which catches what the conversion and the monitors throw.
      unfoldable pub from_string :
          (Bytes → Outcome T) → Bytes → ConfigVar T M → S → Outcome (ConfigVar T M × S)
      unfolding set_val
      from_string from str v s =
          catch (v, s) (from str >>= λ val. ok ((set_val val v s).0, (set_val val v s).1))

  -- `ToString`, whose result is empty when the conversion throws.
  unfoldable pub to_string : (T → Outcome Bytes) → ConfigVar T M → Outcome Bytes
  to_string to v = catch [] (to v.val)

-- The types of variables that a program uses, by their numbers.
pub record Types (M S : Type 0) : Type 1 where
  pub Val : ℕ → Type 0
  pub same : (t : ℕ) → Val t → Val t → Bool
  pub from : (t : ℕ) → Bytes → Outcome (Val t)
  pub call : (t : ℕ) → M → Val t → Val t → S → S × Bool

module _ {M S : Type 0} (types : Types M S) where
  open types use {Val, same, from, call}

  pub record AbsConfigVar : Type 0 where
    pub type_of : ℕ
    pub var : ConfigVar (Val type_of) M

  -- `configs` is the map of names, `vars` what its pointers lead to.
  pub record ConfigManager : Type 0 where
    pub configs : Bytes → Option ℕ
    pub vars : ℕ → Option AbsConfigVar
    pub next_var : ℕ
    pub outside : S

  -- What `std::dynamic_pointer_cast` to the type gives.
  abbrev pub is_of_type : ℕ → Option AbsConfigVar → Bool
  is_of_type t none = false
  is_of_type t (some v) = v.type_of == t

  unfoldable pub find_config_var_base : Bytes → ConfigManager → Option ℕ
  find_config_var_base name w = w.configs name

  -- `Find<T>`.
  unfoldable pub find : ℕ → Bytes → ConfigManager → Option ℕ
  find t name w = elim (w.configs name) [
    | none ↦ none
    | some i ↦ if is_of_type t (w.vars i) then some i else none
  ]

  -- `configs_[name] = new_instance`.
  abbrev pub put_config : Bytes → AbsConfigVar → ConfigManager → ConfigManager
  put_config name new_instance w = record w {
    configs = λ n. if same_bytes n name then some w.next_var else w.configs n;
    vars = λ i. if i == w.next_var then some new_instance else w.vars i;
    next_var = suc w.next_var;
  }

  -- `AddOrUpdate<T>`.
  unfoldable pub add_or_update :
      (t : ℕ) → Bytes → Val t → Bytes → ConfigManager → Outcome (ConfigManager × Option ℕ)
  unfolding new_config_var
  add_or_update t name def_val desc w =
      if is_valid_name name
      then (new_config_var name def_val desc
          >>= (λ var. ok (put_config name (record { type_of = t; var = var }) w, some w.next_var)))
      else ok (w, none)

  -- `FromString` of the variable that the pointer leads to.
  unfoldable pub from_string_at : ℕ → Bytes → ConfigManager → Outcome ConfigManager
  unfolding from_string
  from_string_at i str w = get (w.vars i) >>= λ v.
      from_string (call v.type_of) (same v.type_of) (from v.type_of) str v.var w.outside >>= λ r.
      ok (record w {
        vars = λ j. if j == i then some (record { type_of = v.type_of; var = r.0 }) else w.vars j;
        outside = r.1;
      })

  module _ {N : Type 0} (yaml : Yaml N) where
    open yaml use {is_scalar, scalar, emit, load}

    -- One node of the second loop of `LoadFromFile`.
    unfoldable pub load_node : Bytes × N → ConfigManager → Outcome ConfigManager
    unfolding find_config_var_base from_string_at
    load_node pair w = elim (find_config_var_base pair.0 w) [
      | none ↦ ok w
      | some i ↦ from_string_at i (if is_scalar pair.1 then scalar pair.1 else emit pair.1) w
    ]

    unfoldable pub load_nodes : List (Bytes × N) → ConfigManager → Outcome ConfigManager
    unfolding load_node
    load_nodes [] w = ok w
    load_nodes (pair ∷ rest) w = load_node pair w >>= λ w'. load_nodes rest w'

    -- What follows the listing: an exception of the listing is logged, and nothing is loaded.
    unfoldable pub load_listed : ConfigManager → Run (List (Bytes × N)) → Run ConfigManager
    unfolding load_nodes
    load_listed w none = none
    load_listed w (some (ok node_set)) = some (load_nodes node_set w)
    load_listed w (some (fault e)) = some (catch w (fault e))

    -- `LoadFromFile`, on the text of the file and fuel for the depth of the document.
    unfoldable pub load_from_file : ℕ → Bytes → ConfigManager → Run ConfigManager
    unfolding list_all_node load_listed
    load_from_file fuel text w =
        some (load text) >=> λ doc_root. load_listed w (list_all_node yaml fuel doc_root [] [])
