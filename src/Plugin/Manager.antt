-- ===== src/Plugin/Manager.antt =====
-- The plugin manager, src/crates/bey-plugin/src/lib.rs. What a plugin does when it is called is a
-- parameter, `Plugin`: it may change itself, its context and the event bus and hooks, which are
-- shared. The lock on `running` and those of the DashMap are left out: a call is one step.
pub mod Running
pub mod Shifting
pub mod Calls
pub mod Lifecycle
pub mod Starting
pub mod Stopping
pub mod Leaving
pub mod Keeping
pub mod Averages
use bey.Base.{
  u64, ℕ, ◌/◌, Bool, true, false, if◌then◌else◌, Option, none, some, List, [], ◌∷◌, String,
  string_eq, lookup, insert, remove, is_some,
}
use bey.Base.Errors.{
  NetResult, ok, err, panics, ◌>>=◌, ErrorInfo, new_error, with_category, with_severity, validation,
  system, warning,
}
use bey.Plugin.EventBus.{EventBus, get_subscribers, subscribe_all}
use bey.Plugin.EventBus
use bey.Plugin.Hooks.{HookRegistry}
use bey.Plugin.Hooks
use bey.Plugin.Entry.{
  PluginState, initialized, running, stopped, unloaded, error, PluginMetadata, PluginContext,
  new_context, PluginStats, default_stats, PluginEntry, Registry,
}
use bey.Plugin.Dependencies.{resolve_dependencies}

-- What all contexts share.
pub record Shared (H : Type 0) : Type 0 where
  pub event_bus : EventBus
  pub hook_registry : HookRegistry H

-- How a call of a plugin ends, the time that it took, in microseconds, and the time at its end.
pub record Outcome (P H : Type 0) : Type 0 where
  pub plugin : P
  pub context : PluginContext
  pub shared : Shared H
  pub result : NetResult (Unit {0})
  pub elapsed_us : ℕ
  pub ended_at : ℕ

abbrev pub Handler : Type 0 → Type 0 → Type 0
Handler P H = P → PluginContext → Shared H → Outcome P H

-- The trait `Plugin`.
pub record Plugin (P H : Type 0) : Type 0 where
  pub name : P → String
  pub version : P → String
  pub description : P → String
  pub author : P → String
  pub dependencies : P → List String
  pub subscribed_events : P → List String
  pub on_init : Handler P H
  pub on_start : Handler P H
  pub on_stop : Handler P H
  pub on_cleanup : Handler P H
  pub on_event : String → List ℕ → Handler P H

pub record PluginManager (P H : Type 0) : Type 0 where
  pub plugins : Registry P
  pub shared : Shared H
  pub is_running : Bool

module _ {P H : Type 0} where
  abbrev pub new : PluginManager P H
  new = record {
    plugins = [];
    shared = record { event_bus = EventBus.new; hook_registry = Hooks.new };
    is_running = false;
  }

-- A call returns its result and leaves the manager in a new state.
abbrev pub Answer : Type 0 → Type 0 → Type 0
Answer P H = PluginManager P H × NetResult (Unit {0})

abbrev pub is_state : PluginState → PluginState → Bool
is_state unloaded unloaded = true
is_state initialized initialized = true
is_state running running = true
is_state stopped stopped = true
is_state error error = true
is_state _ _ = false

-- `map_err`: the error of a plugin is replaced.
abbrev pub replace_error : ErrorInfo → NetResult (Unit {0}) → NetResult (Unit {0})
replace_error e (ok u) = ok u
replace_error e (err cause) = err e
replace_error e panics = panics

module _ {P H : Type 0} where
  -- The entry after a call of its plugin, which was passed the entry's context.
  abbrev pub called : PluginEntry P → Outcome P H → PluginEntry P
  called entry o = record entry { plugin = o.plugin; context = o.context }

  abbrev pub set_entry : PluginManager P H → String → PluginEntry P → Shared H → PluginManager P H
  set_entry m name entry shared = record m {
    plugins = insert name entry m.plugins;
    shared = shared;
  }

  -- `then` where the plugin succeeded; otherwise the manager and the error.
  abbrev pub on_success : PluginManager P H → NetResult (Unit {0}) → Answer P H → Answer P H
  on_success m (ok u) answer = answer
  on_success m (err e) answer = (m, err e)
  on_success m panics answer = (m, panics)

module _ {P H : Type 0} (T : Plugin P H) where
  abbrev pub entry_of : String → Outcome P H → PluginEntry P
  entry_of name o = record {
    plugin = o.plugin;
    metadata = record {
      name = name;
      version = T.version o.plugin;
      description = T.description o.plugin;
      author = T.author o.plugin;
      dependencies = T.dependencies o.plugin;
    };
    state = initialized;
    context = o.context;
    stats = record (default_stats o.ended_at) { init_time_ms = u64 (o.elapsed_us / 1000) };
  }

  abbrev pub subscribe_to : Outcome P H → String → Shared H
  subscribe_to o name = record o.shared {
    event_bus = subscribe_all o.shared.event_bus (T.subscribed_events o.plugin) name;
  }

  -- What follows the call of `on_init`.
  abbrev pub admit : PluginManager P H → String → Outcome P H → Answer P H
  admit m name o =
      on_success (record m { shared = o.shared })
        (replace_error (with_category (new_error 8002) system) o.result)
        (set_entry m name (entry_of name o) (subscribe_to o name), ok tt)

  unfoldable pub register : PluginManager P H → P → Answer P H
  register m plugin =
      let name = T.name plugin in
      if is_some (lookup name m.plugins)
      then (m, err (with_severity (with_category (new_error 8001) validation) warning))
      else admit m name (T.on_init plugin (new_context name) m.shared)

  -- The end of `unregister`, once the plugin is stopped.
  abbrev pub clean_up : PluginManager P H → String → PluginEntry P → Answer P H
  clean_up m name entry =
      let o = T.on_cleanup entry.plugin entry.context m.shared in
      on_success (set_entry m name (called entry o) o.shared)
        (replace_error (new_error 8005) o.result)
        (record m { plugins = remove name m.plugins; shared = o.shared }, ok tt)

  abbrev pub stop_and_clean_up : PluginManager P H → String → PluginEntry P → Answer P H
  stop_and_clean_up m name entry =
      let o = T.on_stop entry.plugin entry.context m.shared in
      let halted = set_entry m name (called entry o) o.shared in
      on_success halted (replace_error (new_error 8004) o.result)
        (clean_up halted name (called entry o))

  abbrev pub unregister_entry : PluginManager P H → String → Option (PluginEntry P) → Answer P H
  unregister_entry m name none = (m, err (with_category (new_error 8003) validation))
  unregister_entry m name (some entry) =
      if is_state entry.state running then stop_and_clean_up m name entry else clean_up m name entry

  unfoldable pub unregister : PluginManager P H → String → Answer P H
  unregister m name = unregister_entry m name (lookup name m.plugins)

module _ {P : Type 0} where
  abbrev pub state_of : Option (PluginEntry P) → Option PluginState
  state_of none = none
  state_of (some entry) = some entry.state

  abbrev pub stats_of : Option (PluginEntry P) → Option PluginStats
  stats_of none = none
  stats_of (some entry) = some entry.stats

  abbrev pub metadata_of : Registry P → List PluginMetadata
  metadata_of [] = []
  metadata_of ((name, entry) ∷ entries) = entry.metadata ∷ metadata_of entries

module _ {P H : Type 0} where
  abbrev pub get_plugin_state : PluginManager P H → String → Option PluginState
  get_plugin_state m name = state_of (lookup name m.plugins)

  abbrev pub get_plugin_stats : PluginManager P H → String → Option PluginStats
  get_plugin_stats m name = stats_of (lookup name m.plugins)

  abbrev pub list_plugins : PluginManager P H → List PluginMetadata
  list_plugins m = metadata_of m.plugins
