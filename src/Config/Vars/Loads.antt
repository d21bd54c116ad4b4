-- ===== src/Config/Vars/Loads.antt =====
-- Registering, finding and loading configuration variables (sylar/base/config.h and config.cpp:
-- `ConfigManager`).
use sylar_study.Prelude.{
  ℕ, ◌≡◌, ◌≢◌, refl, sym, ap, ◌∙◌, subst, true, false, List, [], ◌∷◌, Option, none, some, ◌==◌,
  ==_refl, if◌then◌else◌, Outcome, ok, fault, thrown, assertion, undefined, thread_ended, Run, get,
  ◌>>=◌, ◌>=>◌, >>=-eq-ok, ok-injective, some-injective, Bytes, same_bytes, same_bytes_refl, IsIn,
  first, later, arith, false_ne_true,
}
use sylar_study.Config.Yaml.{Yaml}
use sylar_study.Config.Nodes.{is_valid_name, is_empty_name, list_all_node}
use sylar_study.Config.Nodes.Listing.{IsUnder, IsListed, list_all_node-IsListed}
use sylar_study.Config.Nodes.Ends.{IsEnded, result, refused, IsWithin, list_all_node-IsEnded}
use sylar_study.Config.Vars.{
  ConfigVar, Types, AbsConfigVar, ConfigManager, find, add_or_update, put_config, from_string,
  from_string_at, find_config_var_base, load_node, load_nodes, load_listed, load_from_file,
  new_config_var, is_of_type,
}

other_index : {A : Type 0} (i j : ℕ) (a b : A) → i ≢ j → (if i == j then a else b) ≡ b
other_index i j a b d = ground arith

-- A valid name is not empty.
named : (name : Bytes) → is_valid_name name ≡ true → is_empty_name name ≡ false
unfolding is_valid_name
named [] h = ground arith
named (c ∷ cs) h = refl

module _ {M S : Type 0} (types : Types M S) where
  open types use {Val, same, from, call}

  abbrev found : ℕ → ConfigManager types → Option ℕ → Option ℕ
  found u w o = elim o [
    | none ↦ none
    | some i ↦ if is_of_type types u (w.vars i) then some i else none
  ]

  -- A variable that is added under a valid name is found there under its type, is not found under
  -- another type, has the given value, and the other names stay as they are.
  pub find-add_or_update :
      (t : ℕ) (name : Bytes) (def_val : Val t) (desc : Bytes) (w : ConfigManager types)
      → is_valid_name name ≡ true
      → (w' : ConfigManager types) × (add_or_update types t name def_val desc w
          ≡ ok (w', some w.next_var))
        × ((u : ℕ) → find types u name w' ≡ (if t == u then some w.next_var else none))
        × ((other : Bytes)
            → w'.configs other
              ≡ (if same_bytes other name then some w.next_var else w.configs other))
  unfolding find add_or_update new_config_var
  find-add_or_update t name def_val desc w valid =
      let var : ConfigVar (Val t) M = record {
        name = name;
        desc = desc;
        val = def_val;
        monitors = [];
      } in
      let w' = put_config types name (record { type_of = t; var = var }) w in
      (
        w',
        ap
            (λ b.
              if b
              then ((if b then ok var else fault thrown) >>= (λ v.
                  ok (put_config types name (record { type_of = t; var = v }) w, some w.next_var)))
              else ok (w, none))
            valid,
        (λ u.
            ap (λ b. found u w' (if b then some w.next_var else w.configs name))
              (same_bytes_refl name)
            ∙ ap
                (λ b.
                  if is_of_type types u
                    (if b then some (record { type_of = t; var = var }) else w.vars w.next_var)
                  then some w.next_var
                  else none)
                (==_refl w.next_var)),
        (λ other. refl),
      )

  -- What a change of the variable behind a pointer leaves as it is.
  Keeps : ℕ → ConfigManager types → ConfigManager types → Type 0
  Keeps i w w' = (w'.configs ≡ w.configs) × (w'.vars i ≡ w.vars i)

  abbrev from_string_of :
      (v : AbsConfigVar types)
      → Bytes
      → ConfigManager types
      → Outcome (ConfigVar (Val v.type_of) M × S)
  from_string_of v str w =
      from_string (call v.type_of) (same v.type_of) (from v.type_of) str v.var w.outside

  from_string_at-Keeps :
      (i j : ℕ) (str : Bytes) (w w' : ConfigManager types)
      → from_string_at types j str w ≡ ok w'
      → i ≢ j
      → Keeps i w w'
  unfolding from_string_at Keeps
  from_string_at-Keeps i j str w w' h d =
      let r = >>=-eq-ok (get (w.vars j)) _ h in
      let q = >>=-eq-ok (from_string_of r.0 str w) _ r.2 in
      let e = ok-injective q.2 in
      (sym (ap (λ x. x.configs) e), sym (ap (λ x. x.vars i) e) ∙ other_index i j _ _ d)

  module _ {N : Type 0} (yaml : Yaml N) where
    load_found :
        (i : ℕ) (o : Option ℕ) (str : Bytes) (w w' : ConfigManager types)
        → o ≢ some i
        → elim o [ none ↦ ok w | some k ↦ from_string_at types k str w ] ≡ ok w'
        → Keeps i w w'
    unfolding Keeps
    load_found i none str w w' d h =
        let e = ok-injective h in (sym (ap (λ x. x.configs) e), sym (ap (λ x. x.vars i) e))
    load_found i (some k) str w w' d h =
        from_string_at-Keeps i k str w w' h (λ p. d (ap some (sym p)))

    load_node-Keeps :
        (i : ℕ) (pair : Bytes × N) (w w' : ConfigManager types)
        → load_node types yaml pair w ≡ ok w'
        → w.configs pair.0 ≢ some i
        → Keeps i w w'
    unfolding load_node find_config_var_base Keeps
    load_node-Keeps i pair w w' h d = load_found i (w.configs pair.0) _ w w' d h

    load_nodes-Keeps :
        (i : ℕ) (nodes : List (Bytes × N)) (w w' : ConfigManager types)
        → load_nodes types yaml nodes w ≡ ok w'
        → ((name : Bytes) (n : N) → IsIn (name, n) nodes → w.configs name ≢ some i)
        → Keeps i w w'
    unfolding load_nodes Keeps
    load_nodes-Keeps i [] w w' h d =
        let e = ok-injective h in (sym (ap (λ x. x.configs) e), sym (ap (λ x. x.vars i) e))
    load_nodes-Keeps i (pair ∷ nodes) w w' h d =
        let r = >>=-eq-ok (load_node types yaml pair w) _ h in
        let one = load_node-Keeps i pair w r.0 r.1 (d pair.0 pair.1 first) in
        let rest =
          load_nodes-Keeps i nodes r.0 w' r.2
            (λ name n q x. d name n (later q) (sym (ap (λ f. f name) one.0) ∙ x)) in
        (rest.0 ∙ one.0, rest.1 ∙ one.1)

    load_listed-Keeps :
        (i : ℕ) (r : Run (List (Bytes × N))) (w w' : ConfigManager types)
        → load_listed types yaml w r ≡ some (ok w')
        → ((nodes : List (Bytes × N)) (name : Bytes) (n : N)
            → r ≡ some (ok nodes)
            → IsIn (name, n) nodes
            → w.configs name ≢ some i)
        → Keeps i w w'
    unfolding load_listed Keeps
    load_listed-Keeps i none w w' h d = ground arith
    load_listed-Keeps i (some (ok nodes)) w w' h d =
        load_nodes-Keeps i nodes w w' (some-injective h) (λ name n q. d nodes name n refl q)
    load_listed-Keeps i (some (fault thrown)) w w' h d =
        let e = ok-injective (some-injective h) in
        (sym (ap (λ x. x.configs) e), sym (ap (λ x. x.vars i) e))
    load_listed-Keeps i (some (fault assertion)) w w' h d = ground arith
    load_listed-Keeps i (some (fault undefined)) w w' h d = ground arith
    load_listed-Keeps i (some (fault thread_ended)) w w' h d = ground arith

    -- What a listed name is.
    listed_name :
        (fuel : ℕ) (root : N) (nodes : List (Bytes × N)) (name : Bytes) (n : N)
        → list_all_node yaml fuel root [] [] ≡ some (ok nodes)
        → IsIn (name, n) nodes
        → (is_valid_name name ≡ true) × IsUnder yaml name n [] root
    unfolding IsListed
    listed_name fuel root nodes name n h i =
        let l = list_all_node-IsListed yaml fuel root [] [] nodes h in
        l.2.0 name n (subst (λ x. IsIn (name, n) x) l.1 i)

    load_from_file_read :
        (fuel : ℕ) (text : Bytes) (root : N) (w : ConfigManager types)
        → yaml.load text ≡ ok root
        → load_from_file types yaml fuel text w
          ≡ load_listed types yaml w (list_all_node yaml fuel root [] [])
    unfolding load_from_file
    load_from_file_read fuel text root w h =
        ap
          (λ l. some l >=> λ doc_root.
            load_listed types yaml w (list_all_node yaml fuel doc_root [] []))
          h

    -- When the loading of a text that is read as a document returns, the names of the variables are
    -- as before, and so is each variable that is registered under none of the names, but for an
    -- empty one, of the nodes of the document.
    pub load_from_file_lem :
        (fuel : ℕ) (text : Bytes) (root : N) (w w' : ConfigManager types) (i : ℕ)
        → yaml.load text ≡ ok root
        → load_from_file types yaml fuel text w ≡ some (ok w')
        → ((name : Bytes) (n : N)
            → IsUnder yaml name n [] root
            → is_empty_name name ≡ false
            → w.configs name ≢ some i)
        → (w'.configs ≡ w.configs) × (w'.vars i ≡ w.vars i)
    unfolding Keeps
    load_from_file_lem fuel text root w w' i read h d =
        load_listed-Keeps i (list_all_node yaml fuel root [] []) w w'
          (sym (load_from_file_read fuel text root w read) ∙ h)
          (λ nodes name n e q.
            let l = listed_name fuel root nodes name n e q in d name n l.1 (named name l.0))

    -- When a text is read as a document with a node whose name is invalid and not empty, its
    -- loading, with fuel for the depth of the document, ends and changes nothing at all.
    pub load_from_file-invalid_name :
        (fuel : ℕ) (text : Bytes) (root : N) (w : ConfigManager types) (name : Bytes) (n : N)
        → yaml.load text ≡ ok root
        → IsWithin yaml fuel root
        → IsUnder yaml name n [] root
        → is_empty_name name ≡ false
        → is_valid_name name ≡ false
        → load_from_file types yaml fuel text w ≡ some (ok w)
    unfolding load_listed IsListed
    load_from_file-invalid_name fuel text root w name n read d u e v =
        load_from_file_read fuel text root w read
        ∙ refused_whole (list_all_node yaml fuel root [] []) refl
            (list_all_node-IsEnded yaml fuel root [] [] d)
      where
        refused_whole :
            (r : Run (List (Bytes × N)))
            → list_all_node yaml fuel root [] [] ≡ r
            → IsEnded r
            → load_listed types yaml w r ≡ some (ok w)
        refused_whole _ h refused = refl
        refused_whole _ h (result nodes) =
            let l = list_all_node-IsListed yaml fuel root [] [] nodes h in
            let i = subst (λ x. IsIn (name, n) x) (sym l.1) (l.2.1 name n u e) in
            absurd (false_ne_true (sym v ∙ (listed_name fuel root nodes name n h i).0))
