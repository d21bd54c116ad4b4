-- ===== src/Config/Vars/Monitors.antt =====
-- The monitors of a configuration variable (sylar/base/config.h: `AddMonitor`, `RemoveMonitor`,
-- `SetVal`).
use sylar_study.Prelude.{
  ℕ, suc, ◌+◌, ◌%◌, ◌≤◌, ◌<◌, ◌≡◌, refl, subst, sym, ap, ◌∙◌, Bool, true, false, List, [], ◌∷◌,
  ◌++◌, map, if◌then◌else◌, length, All, arith,
}
use mathlib.Core.List.{append_assoc, append-nil}
use sylar_study.Config.Vars.{
  ConfigVar, put_monitor, erase_monitor, get_all_monitor, add_monitor, remove_monitor, notify,
  set_val,
}

-- The ids of the map stay below the counter.
unfoldable pub IsFresh : {M : Type 0} → ℕ → List (ℕ × M) → Type 0
IsFresh c ms = All (λ p. p.0 < c) ms

module _ {M : Type 0} where
  put_monitor-fresh :
      (c : ℕ) (m : M) (ms : List (ℕ × M)) → IsFresh c ms → put_monitor c m ms ≡ ms ++ (c, m) ∷ []
  unfolding put_monitor IsFresh
  put_monitor-fresh c m [] f = refl
  put_monitor-fresh c m ((k, n) ∷ ms) f = let later = put_monitor-fresh c m ms f.1 in ground arith

  erase_monitor-fresh :
      (c : ℕ) (m : M) (ms : List (ℕ × M)) → IsFresh c ms → erase_monitor c (ms ++ (c, m) ∷ []) ≡ ms
  unfolding erase_monitor IsFresh
  erase_monitor-fresh c m [] f = ground arith
  erase_monitor-fresh c m ((k, n) ∷ ms) f =
      let later = erase_monitor-fresh c m ms f.1 in ground arith

  -- Ids from a number on.
  pub numbered : ℕ → List M → List (ℕ × M)
  numbered c [] = []
  numbered c (m ∷ ms) = (c, m) ∷ numbered (suc c) ms

  IsFresh-suc :
      (c : ℕ) (m : M) (ms : List (ℕ × M)) → IsFresh c ms → IsFresh (suc c) (ms ++ (c, m) ∷ [])
  unfolding IsFresh
  IsFresh-suc c m [] f = (omega arith, tt)
  IsFresh-suc c m ((k, n) ∷ ms) f = (omega arith, IsFresh-suc c m ms f.1)

  map-numbered : (c : ℕ) (ms : List M) → map (λ p. p.1) (numbered c ms) ≡ ms
  unfolding numbered
  map-numbered c [] = refl
  map-numbered c (m ∷ ms) = ap (λ l. m ∷ l) (map-numbered (suc c) ms)

next_id_below : (c n : ℕ) → c + suc (suc n) ≤ 65536 → suc c % 65536 ≡ suc c
next_id_below c n h = omega arith

wrapped : {n : ℕ} → n ≡ 65535 → (0 + suc n) % 65536 ≡ 0
wrapped h = omega arith

mod_step : (c n : ℕ) → (suc c % 65536 + n) % 65536 ≡ (c + suc n) % 65536
mod_step c n = omega arith

module _ {T M : Type 0} where
  -- The monitors are added one after the other.
  unfoldable pub add_all : List M → ℕ → ConfigVar T M → ConfigVar T M × ℕ
  unfolding add_monitor
  add_all [] c v = (v, c)
  add_all (m ∷ ms) c v = let r = add_monitor m c v in add_all ms r.2 r.0

  monitors-add_monitor :
      (m : M) (c : ℕ) (v : ConfigVar T M)
      → IsFresh c v.monitors
      → (add_monitor m c v).0 ≡ record v { monitors = v.monitors ++ (c, m) ∷ [] }
  unfolding add_monitor
  monitors-add_monitor m c v f =
      ap (λ l. record v { monitors = l }) (put_monitor-fresh c m v.monitors f)

  add_all-numbered :
      (ms : List M) (c : ℕ) (v : ConfigVar T M)
      → IsFresh c v.monitors
      → c + length ms ≤ 65536
      → (add_all ms c v).0 ≡ record v { monitors = v.monitors ++ numbered c ms }
  unfolding add_all numbered add_monitor
  add_all-numbered [] c v f h = ap (λ l. record v { monitors = l }) (sym (append-nil v.monitors))
  add_all-numbered (m ∷ []) c v f h = monitors-add_monitor m c v f
  add_all-numbered (m ∷ n ∷ ms) c v f h =
      let one = monitors-add_monitor m c v f in
      let w = record v { monitors = v.monitors ++ (c, m) ∷ [] } in
      ap (λ u. (add_all (n ∷ ms) (suc c % 65536) u).0) one
      ∙ ap (λ k. (add_all (n ∷ ms) k w).0) (next_id_below c (length ms) h)
      ∙ add_all-numbered (n ∷ ms) (suc c) w (IsFresh-suc c m v.monitors f) (omega arith)
      ∙ ap (λ l. record v { monitors = l })
          (append_assoc v.monitors ((c, m) ∷ []) (numbered (suc c) (n ∷ ms)))

  next_id-add_all :
      (ms : List M) (c : ℕ) (v : ConfigVar T M)
      → c < 65536
      → (add_all ms c v).1 ≡ (c + length ms) % 65536
  unfolding add_all add_monitor
  next_id-add_all [] c v h = omega arith
  next_id-add_all (m ∷ ms) c v h =
      next_id-add_all ms (suc c % 65536) (add_monitor m c v).0 (omega arith)
      ∙ mod_step c (length ms)

  -- A monitor that was added under an id above those in use is gone when that id is removed.
  pub remove_monitor-add_monitor :
      (m : M) (c : ℕ) (v : ConfigVar T M)
      → IsFresh c v.monitors
      → remove_monitor (add_monitor m c v).1 (add_monitor m c v).0 ≡ v
  unfolding remove_monitor add_monitor
  remove_monitor-add_monitor m c v f =
      ap (λ u. remove_monitor c u) (monitors-add_monitor m c v f)
      ∙ ap (λ l. record v { monitors = l }) (erase_monitor-fresh c m v.monitors f)

  add_all_first :
      (ms : List M) (v : ConfigVar T M)
      → v.monitors ≡ []
      → length ms ≤ 65536
      → (add_all ms 0 v).0 ≡ record v { monitors = numbered 0 ms }
  unfolding IsFresh
  add_all_first ms v none_yet few =
      add_all-numbered ms 0 v (subst (λ l. IsFresh 0 l) (sym none_yet) tt) (omega arith)
      ∙ ap (λ l. record v { monitors = l ++ numbered 0 ms }) none_yet

  -- When a variable has no monitors, the counter of its type is at zero and 65536 monitors are added
  -- to it, the next monitor that is added takes the place of the first one, which is lost.
  pub add_monitor_wraps :
      (first : M) (ms : List M) (last : M) (v : ConfigVar T M)
      → v.monitors ≡ []
      → length ms ≡ 65535
      → (let r = add_all (first ∷ ms) 0 v in
          get_all_monitor (add_monitor last r.1 r.0).0 ≡ last ∷ ms)
  unfolding get_all_monitor add_monitor numbered
  add_monitor_wraps first ms last v none_yet full =
      ap (λ u. get_all_monitor (add_monitor last (add_all (first ∷ ms) 0 v).1 u).0)
        (add_all_first (first ∷ ms) v none_yet (omega arith))
      ∙ ap
          (λ k.
            get_all_monitor
              (add_monitor last k (record v { monitors = numbered 0 (first ∷ ms) })).0)
          (next_id-add_all (first ∷ ms) 0 v (omega arith) ∙ wrapped full)
      ∙ ap (λ l. last ∷ l) (map-numbered 1 ms)

  module _ {S : Type 0} (call : M → T → T → S → S × Bool) where
    -- The calls of the monitors in turn.
    abbrev pub run_all : List M → T → T → S → S
    run_all [] old now s = s
    run_all (m ∷ ms) old now s = run_all ms old now (call m old now s).0

    notify-run_all :
        (ms : List M) (old now : T) (s : S)
        → ((m : M) (s : S) → (call m old now s).1 ≡ true)
        → notify call ms old now s ≡ (run_all ms old now s, true)
    unfolding notify
    notify-run_all [] old now s returns = refl
    notify-run_all (m ∷ ms) old now s returns =
        ap (λ b. if b then notify call ms old now (call m old now s).0 else call m old now s)
          (returns m s)
        ∙ notify-run_all ms old now (call m old now s).0 returns

    set_val_differs :
        (same : T → T → Bool) (val : T) (u : ConfigVar T M) (s : S)
        → same val u.val ≡ false
        → (let r = notify call (get_all_monitor u) u.val val s in
            set_val call same val u s ≡ (record u { val = val }, r.0, r.1))
    unfolding set_val
    set_val_differs same val u s differs =
        let r = notify call (get_all_monitor u) u.val val s in
        ap (λ b. if b then (u, s, true) else (record u { val = val }, r.0, r.1)) differs

    -- When up to 65536 monitors are added to a variable that has none, with the counter of its type
    -- at zero, none of them throws, and a
    -- value is set that the comparison tells from the one before, the variable has that value, and
    -- each monitor has been called once, in the order of their addition, with the old and the new value.
    pub set_val-add_all :
        (same : T → T → Bool) (ms : List M) (val : T) (v : ConfigVar T M) (s : S)
        → v.monitors ≡ []
        → length ms ≤ 65536
        → same val v.val ≡ false
        → ((m : M) (s : S) → (call m v.val val s).1 ≡ true)
        → (let r = set_val call same val (add_all ms 0 v).0 s in
            (r.0.val ≡ val) × (r.1 ≡ run_all ms v.val val s) × (r.2 ≡ true))
    unfolding get_all_monitor
    set_val-add_all same ms val v s none_yet few differs returns =
        let u = record v { monitors = numbered 0 ms } in
        let said =
          ap (λ l. notify call l v.val val s) (map-numbered 0 ms)
          ∙ notify-run_all ms v.val val s returns in
        let e =
          ap (λ w. set_val call same val w s) (add_all_first ms v none_yet few)
          ∙ set_val_differs same val u s differs in
        (
          ap (λ r. r.0.val) e,
          ap (λ r. r.1) e ∙ ap (λ r. r.0) said,
          ap (λ r. r.2) e ∙ ap (λ r. r.1) said,
        )
