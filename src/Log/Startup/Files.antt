-- ===== src/Log/Startup/Files.antt =====
-- Loading documents into the variable `loggers` (sylar/base/log.cpp: `__InitLoggersHelper`; config.cpp:
-- `LoadFromFile`).
use sylar_study.Prelude.{
  ℕ, ◌≡◌, refl, sym, ap, ◌∙◌, subst, Bool, true, false, List, [], ◌∷◌, Option, none, some, ◌==◌,
  ==_refl, if◌then◌else◌, ok, fault, thrown, assertion, undefined, thread_ended, get, get-eq-ok,
  ◌>>=◌, >>=-eq-ok, ◌>=>◌, >=>-eq-ok, ok-injective, some-injective, Run, Bytes, codes, same_bytes,
}
use sylar_study.Log.Level.{Level}
use sylar_study.Log.Manager.{Manager}
use sylar_study.Log.Startup.{Monitor, loggers_types, with_monitor, init_loggers, load_files}
use sylar_study.Config.Yaml.{Yaml}
use sylar_study.Config.Nodes.{is_valid_name, list_all_node}
use sylar_study.Log.Startup.Loads.{
  Var, run, same, read, IsWatched, from_string-IsWatched, IsServed-nil,
}
use sylar_study.Config.Vars.{
  Types, AbsConfigVar, ConfigManager, from_string, from_string_at, find_config_var_base, load_node,
  load_nodes, load_listed, load_from_file, put_config, add_or_update, new_config_var, add_monitor,
  put_monitor,
}

module _ {N : Type 0} (yaml : Yaml N) (open_file : Bytes → Option ℕ) (garbage : Level)
    (fuel : ℕ) where
  abbrev types : Types Monitor (Run Manager)
  types = loggers_types yaml open_file garbage fuel

  abbrev pub Config : Type 0
  Config = ConfigManager (loggers_types yaml open_file garbage fuel)

  abbrev only_name : ℕ → Bytes → Option ℕ
  only_name i name = if same_bytes name (codes "loggers") then some i else none

  -- The name `loggers` alone has a variable, with the monitor alone, and every name of its value has a
  -- logger if the process still goes on.
  pub record IsSetUp (w : Config) : Type 0 where
    pub at : ℕ
    pub var : AbsConfigVar types
    pub named : (name : Bytes) → w.configs name ≡ only_name at name
    pub found : w.vars at ≡ some var
    pub watched : IsWatched yaml open_file garbage fuel var.var w.outside

  only_name-some : (i j : ℕ) (b : Bool) → (if b then some i else none) ≡ some j → i ≡ j
  only_name-some i j true e = some-injective e
  only_name-some i j false e = cc

  from_string_at-IsSetUp :
      (str : Bytes) (w : Config) {w' : Config} (u : IsSetUp w)
      → from_string_at types u.at str w ≡ ok w'
      → IsSetUp w'
  unfolding from_string_at
  from_string_at-IsSetUp str w u h =
      let written : AbsConfigVar types → Var yaml open_file garbage fuel × Run Manager → Config =
        λ v r. record w {
          vars =
              λ j. if j == u.at then some (record { type_of = v.type_of; var = r.0 }) else w.vars j;
          outside = r.1;
        } in
      let a =
        >>=-eq-ok (get (w.vars u.at))
          (λ v.
            from_string (run yaml open_file garbage fuel) (same yaml open_file garbage fuel)
              (read yaml open_file garbage fuel) str v.var w.outside
            >>= λ r. ok (written v r))
          h in
      let b =
        >>=-eq-ok
          (from_string (run yaml open_file garbage fuel) (same yaml open_file garbage fuel)
            (read yaml open_file garbage fuel) str a.0.var w.outside)
          (λ r. ok (written a.0 r)) a.2 in
      let same_var = some-injective (sym u.found ∙ get-eq-ok (w.vars u.at) a.1) in
      let v : AbsConfigVar types = record { type_of = a.0.type_of; var = b.0.0 } in
      subst IsSetUp (ok-injective b.2) record {
        at = u.at;
        var = v;
        named = u.named;
        found = ap (λ c. if c then some v else w.vars u.at) (==_refl u.at);
        watched =
            from_string-IsWatched yaml open_file garbage fuel str a.0.var w.outside
              (subst (λ z. IsWatched yaml open_file garbage fuel z.var w.outside) same_var
                u.watched)
              b.1;
      }

  load_node-IsSetUp :
      (pair : Bytes × N) (w : Config) {w' : Config}
      → IsSetUp w
      → load_node types yaml pair w ≡ ok w'
      → IsSetUp w'
  unfolding load_node find_config_var_base
  load_node-IsSetUp pair w {w'} u h = set_up_as (w.configs pair.0) refl h
    where
      str : Bytes
      str = if yaml.is_scalar pair.1 then yaml.scalar pair.1 else yaml.emit pair.1

      set_up_as :
          (o : Option ℕ)
          → w.configs pair.0 ≡ o
          → (elim o [ none ↦ ok w | some i ↦ from_string_at types i str w ]) ≡ ok w'
          → IsSetUp w'
      set_up_as none q e = subst IsSetUp (ok-injective e) u
      set_up_as (some i) q e =
          let same_at =
            only_name-some u.at i (same_bytes pair.0 (codes "loggers"))
              (sym (u.named pair.0) ∙ q) in
          from_string_at-IsSetUp str w u (ap (λ k. from_string_at types k str w) same_at ∙ e)

  load_nodes-IsSetUp :
      (pairs : List (Bytes × N)) (w : Config) {w' : Config}
      → IsSetUp w
      → load_nodes types yaml pairs w ≡ ok w'
      → IsSetUp w'
  unfolding load_nodes
  load_nodes-IsSetUp [] w u h = subst IsSetUp (ok-injective h) u
  load_nodes-IsSetUp (pair ∷ pairs) w u h =
      let r = >>=-eq-ok (load_node types yaml pair w) (λ w1. load_nodes types yaml pairs w1) h in
      load_nodes-IsSetUp pairs r.0 (load_node-IsSetUp pair w u r.1) r.2

  load_listed-IsSetUp :
      (r : Run (List (Bytes × N))) (w : Config) {w' : Config}
      → IsSetUp w
      → load_listed types yaml w r ≡ some (ok w')
      → IsSetUp w'
  unfolding load_listed
  load_listed-IsSetUp none w u h = cc
  load_listed-IsSetUp (some (ok pairs)) w u h = load_nodes-IsSetUp pairs w u (some-injective h)
  load_listed-IsSetUp (some (fault thrown)) w u h =
      subst IsSetUp (ok-injective (some-injective h)) u
  load_listed-IsSetUp (some (fault assertion)) w u h = cc
  load_listed-IsSetUp (some (fault undefined)) w u h = cc
  load_listed-IsSetUp (some (fault thread_ended)) w u h = cc

  load_from_file-IsSetUp :
      (depth : ℕ) (text : Bytes) (w : Config) {w' : Config}
      → IsSetUp w
      → load_from_file types yaml depth text w ≡ some (ok w')
      → IsSetUp w'
  unfolding load_from_file
  load_from_file-IsSetUp depth text w u h =
      let r =
        >=>-eq-ok (some (yaml.load text))
          (λ root. load_listed types yaml w (list_all_node yaml depth root [] [])) h in
      load_listed-IsSetUp (list_all_node yaml depth r.0 [] []) w u r.2

  init_loggers-IsSetUp :
      (w : Config)
      → ((name : Bytes) → w.configs name ≡ none)
      → (w' : Config) × (init_loggers yaml open_file garbage fuel w ≡ ok w') × IsSetUp w'
  unfolding init_loggers add_or_update new_config_var is_valid_name add_monitor put_monitor
  init_loggers-IsSetUp w none_yet =
      let i = w.next_var in
      let v : AbsConfigVar types = record {
        type_of = 0;
        var = record {
          name = codes "loggers";
          desc = codes "loggers config";
          val = [];
          monitors = [];
        };
      } in
      let seen = with_monitor yaml open_file garbage fuel v in
      let w1 = put_config types (codes "loggers") v w in
      let left : AbsConfigVar types → Config = λ z. record w1 {
        vars = λ j. if j == i then some (with_monitor yaml open_file garbage fuel z) else w1.vars j;
      } in
      (
        left v,
        ap (λ b. get (if b then some v else w.vars i) >>= λ z. ok (left z)) (==_refl i),
        record {
          at = i;
          var = seen;
          named = λ name.
              ap (λ o. if same_bytes name (codes "loggers") then some i else o) (none_yet name);
          found = ap (λ b. if b then some seen else w1.vars i) (==_refl i);
          watched = record {
            wired = refl;
            served = IsServed-nil yaml open_file garbage fuel w.outside;
          };
        },
      )

  load_files-keeps :
      (depth : ℕ) (texts : List Bytes) (w : Config) {w' : Config}
      → IsSetUp w
      → load_files yaml open_file garbage fuel depth texts w ≡ some (ok w')
      → IsSetUp w'
  unfolding load_files
  load_files-keeps depth [] w u h = subst IsSetUp (ok-injective (some-injective h)) u
  load_files-keeps depth (text ∷ texts) w u h =
      let r =
        >=>-eq-ok (load_from_file types yaml depth text w)
          (λ w1. load_files yaml open_file garbage fuel depth texts w1) h in
      load_files-keeps depth texts r.0 (load_from_file-IsSetUp depth text w u r.1) r.2

  -- After the registration of `loggers` in a manager without variables and any number of loadings of
  -- documents that return, `loggers` is the only variable, it has its monitor alone, and every name
  -- in its value has a logger if the monitor has returned each time.
  pub load_files-IsSetUp :
      (depth : ℕ) (texts : List Bytes) (w : Config) {w' : Config}
      → ((name : Bytes) → w.configs name ≡ none)
      → (some (init_loggers yaml open_file garbage fuel w)
          >=> load_files yaml open_file garbage fuel depth texts)
        ≡ some (ok w')
      → IsSetUp w'
  load_files-IsSetUp depth texts w none_yet h =
      let u = init_loggers-IsSetUp w none_yet in
      load_files-keeps depth texts u.0 u.2
        (sym (ap (λ q. some q >=> load_files yaml open_file garbage fuel depth texts) u.1) ∙ h)
