-- ===== src/Plugin/Manager/Leaving.antt =====
-- What register and unregister (src/crates/bey-plugin/src/lib.rs) leave on the event bus.
use bey.Base.{◌≡◌, string_eq}
use bey.Base.Errors.{ok}
use bey.Plugin.Entry.{PluginContext, new_context}
use bey.Plugin.Manager.{
  Shared, Handler, Plugin, PluginManager, set_entry, entry_of, subscribe_to, register, unregister,
}

module _ {P H : Type 0} (T : Plugin P H) where
  -- A call that succeeds and leaves the event bus and the hooks as they are.
  abbrev pub IsQuiet : Handler P H → Type 0
  IsQuiet handler =
      (p : P) (c : PluginContext) (s : Shared H)
      → ((handler p c s).result ≡ ok tt) × ((handler p c s).shared ≡ s)

  -- The manager after a plugin was registered and unregistered again.
  abbrev pub passing : PluginManager P H → P → PluginManager P H
  passing m plugin = (unregister T (register T m plugin).0 (T.name plugin)).0

  abbrev entered : PluginManager P H → P → PluginManager P H
  entered m plugin =
      let o = T.on_init plugin (new_context (T.name plugin)) m.shared in
      set_entry m (T.name plugin) (entry_of T (T.name plugin) o) (subscribe_to T o (T.name plugin))
