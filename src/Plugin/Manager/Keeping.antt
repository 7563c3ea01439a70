-- ===== src/Plugin/Manager/Keeping.antt =====
-- What register, unregister, start_all and stop_all (src/crates/bey-plugin/src/lib.rs) keep of the
-- average times of the plugins.
use bey.Base.{
  ℕ, ◌≤◌, ◌≡◌, refl, Bool, if-either, Option, none, some, List, [], ◌∷◌, All, insert-All,
  remove-All, lookup-All, String, string_eq, lookup, is_some, arith,
}
use bey.Base.Errors.{NetResult, ok, err, panics, new_error, with_category, system}
use bey.Plugin.Entry.{PluginEntry, new_context, running}
use bey.Plugin.Manager.{
  Shared, Plugin, PluginManager, Answer, is_state, called, set_entry, entry_of, subscribe_to,
  register, clean_up, unregister_entry,
}
use bey.Plugin.Manager.Running.{Shift, set_state, shift_one, shift_all, shift_in, set_running}
use bey.Plugin.Manager.Shifting.{on_success-either, and_then-either}

module _ {P H : Type 0} (b : ℕ) where
  abbrev pub AreBelow : PluginManager P H → Type 0
  AreBelow m = All (λ p. p.1.stats.avg_event_time_us ≤ b) m.plugins

  pub entry_below :
      (m : PluginManager P H) (name : String) (entry : PluginEntry P)
      → AreBelow m
      → lookup name m.plugins ≡ some entry
      → entry.stats.avg_event_time_us ≤ b
  entry_below m name entry a h =
      (lookup-All (λ p. p.1.stats.avg_event_time_us ≤ b) name entry m.plugins a h).1

  pub set_entry-AreBelow :
      (m : PluginManager P H) (name : String) (entry : PluginEntry P) (shared : Shared H)
      → AreBelow m
      → entry.stats.avg_event_time_us ≤ b
      → AreBelow (set_entry m name entry shared)
  set_entry-AreBelow m name entry shared a h = insert-All _ name entry m.plugins h a

  pub shift_one-AreBelow :
      (shift : Shift P H) (m : PluginManager P H) (name : String) (found : Option (PluginEntry P))
      → AreBelow m
      → lookup name m.plugins ≡ found
      → AreBelow (shift_one shift m name found).0
  shift_one-AreBelow shift m name none a h = a
  shift_one-AreBelow shift m name (some entry) a h =
      let o = shift.handler entry.plugin entry.context m.shared in
      let low = entry_below m name entry a h in
      if-either (λ (r : Answer P H). AreBelow r.0) (is_state entry.state shift.from) _ _
        (on_success-either AreBelow (set_entry m name (called entry o) o.shared) _ shift.failure
          o.result (set_entry-AreBelow m name (called entry o) o.shared a low)
          (set_entry-AreBelow m name (set_state (called entry o) shift.to) o.shared a low))
        a

  pub shift_all-AreBelow :
      (shift : Shift P H) (order : List String) (m : PluginManager P H)
      → AreBelow m
      → AreBelow (shift_all shift order m).0
  unfolding shift_all
  shift_all-AreBelow shift [] m a = a
  shift_all-AreBelow shift (name ∷ names) m a =
      let one = shift_one shift m name (lookup name m.plugins) in
      let low = shift_one-AreBelow shift m name (lookup name m.plugins) a refl in
      and_then-either AreBelow (shift_all shift names) one low
        (shift_all-AreBelow shift names one.0 low)

  pub shift_in-AreBelow :
      (shift : Shift P H) (flag : Bool) (m : PluginManager P H) (r : NetResult (List String))
      → AreBelow m
      → AreBelow (shift_in shift flag m r).0
  shift_in-AreBelow shift flag m (ok order) a =
      let low = shift_all-AreBelow shift order m a in
      and_then-either AreBelow (set_running flag) (shift_all shift order m) low low
  shift_in-AreBelow shift flag m (err e) a = a
  shift_in-AreBelow shift flag m panics a = a

module _ {P H : Type 0} (T : Plugin P H) (b : ℕ) where
  pub register-AreBelow :
      (m : PluginManager P H) (plugin : P) → AreBelow b m → AreBelow b (register T m plugin).0
  unfolding register
  register-AreBelow m plugin a =
      let o = T.on_init plugin (new_context (T.name plugin)) m.shared in
      if-either (λ (r : Answer P H). AreBelow b r.0) (is_some (lookup (T.name plugin) m.plugins)) _
        _ a
        (on_success-either (AreBelow b) (record m { shared = o.shared }) _
          (with_category (new_error 8002) system) o.result a
          (set_entry-AreBelow b m (T.name plugin) (entry_of T (T.name plugin) o)
            (subscribe_to T o (T.name plugin)) a (omega arith)))

  pub clean_up-AreBelow :
      (m : PluginManager P H) (name : String) (entry : PluginEntry P)
      → AreBelow b m
      → entry.stats.avg_event_time_us ≤ b
      → AreBelow b (clean_up T m name entry).0
  clean_up-AreBelow m name entry a h =
      let o = T.on_cleanup entry.plugin entry.context m.shared in
      on_success-either (AreBelow b) (set_entry m name (called entry o) o.shared) _ (new_error 8005)
        o.result (set_entry-AreBelow b m name (called entry o) o.shared a h)
        (remove-All _ name m.plugins a)

  pub unregister-AreBelow :
      (m : PluginManager P H) (name : String) (found : Option (PluginEntry P))
      → AreBelow b m
      → lookup name m.plugins ≡ found
      → AreBelow b (unregister_entry T m name found).0
  unregister-AreBelow m name none a h = a
  unregister-AreBelow m name (some entry) a h =
      let o = T.on_stop entry.plugin entry.context m.shared in
      let low = entry_below b m name entry a h in
      let halted = set_entry-AreBelow b m name (called entry o) o.shared a low in
      if-either (λ (r : Answer P H). AreBelow b r.0) (is_state entry.state running) _ _
        (on_success-either (AreBelow b) (set_entry m name (called entry o) o.shared) _
          (new_error 8004) o.result halted
          (clean_up-AreBelow (set_entry m name (called entry o) o.shared) name (called entry o)
            halted low))
        (clean_up-AreBelow m name entry a low)
