-- ===== src/Plugin/Manager/Stopping.antt =====
-- When stop_all (src/crates/bey-plugin/src/lib.rs) refuses to stop anything.
use bey.Base.{◌≡◌, refl, Bool, true, false, if_true, List, String, string_eq}
use bey.Base.Errors.{NetResult, ok, err, panics}
use bey.Plugin.Dependencies.{resolve_dependencies}
use bey.Plugin.Dependencies.Graph.{Reason, Incomplete}
use bey.Plugin.Dependencies.Resolving.{Resolves, resolve_dependencies-Resolves}
use bey.Plugin.Manager.{Plugin, PluginManager, Answer}
use bey.Plugin.Manager.Running.{Shift, shift_in, stopping, stop_all, reversed}

module _ {P H : Type 0} (T : Plugin P H) (m : PluginManager P H) where
  -- The outcomes of a call that is refused for the dependencies.
  abbrev pub RefusedFor : Answer P H → Type 0
  RefusedFor (n, ok u) = ⊥
  RefusedFor (n, err e) = (n ≡ m) × Reason m.plugins e
  RefusedFor (n, panics) = ⊥

  shift_in-RefusedFor :
      (shift : Shift P H) (b : Bool) (r : NetResult (List String))
      → Incomplete m.plugins
      → Resolves m.plugins r
      → RefusedFor (shift_in shift b m (reversed r))
  shift_in-RefusedFor shift b (ok order) lack f = absurd (f.4 lack)
  shift_in-RefusedFor shift b (err e) lack f = (refl, f)
  shift_in-RefusedFor shift b panics lack f = f

  -- While some plugin depends on one that is not registered, as after unregister of a dependency,
  -- stop_all on a running manager fails with 8009 or 8010 and stops no plugin.
  pub stop_all-incomplete : m.is_running ≡ true → Incomplete m.plugins → RefusedFor (stop_all T m)
  unfolding stop_all
  stop_all-incomplete run lack = if_true RefusedFor m.is_running _ _ run (
      shift_in-RefusedFor (stopping T) false (resolve_dependencies m.plugins) lack
        (resolve_dependencies-Resolves m.plugins))
