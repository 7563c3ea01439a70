-- ===== src/Plugin/Entry.antt =====
-- What the manager keeps of a plugin: src/crates/bey-plugin/src/lifecycle.rs, context.rs and the
-- types of lib.rs. The references of a context to the event bus and the hooks, which all contexts
-- share, are passed beside it.
use bey.Base.{
  ℕ, Bool, Option, List, [], ◌∷◌, ◌++◌, String, string_eq, HashMap, lookup, insert, remove, is_some,
}

pub data PluginState : Type 0 where
  unloaded initialized running stopped error : PluginState

pub record PluginMetadata : Type 0 where
  pub name : String
  pub version : String
  pub description : String
  pub author : String
  pub dependencies : List String

abbrev pub new_metadata : String → String → PluginMetadata
new_metadata name version = record {
  name = name;
  version = version;
  description = "";
  author = "";
  dependencies = [];
}

abbrev pub with_description : PluginMetadata → String → PluginMetadata
with_description m description = record m { description = description }

abbrev pub with_author : PluginMetadata → String → PluginMetadata
with_author m author = record m { author = author }

abbrev pub with_dependency : PluginMetadata → String → PluginMetadata
with_dependency m dependency = record m { dependencies = m.dependencies ++ dependency ∷ [] }

-- `data` is the store of bytes that a plugin has for itself.
pub record PluginContext : Type 0 where
  pub plugin_name : String
  pub store : HashMap String (List ℕ)

abbrev pub new_context : String → PluginContext
new_context name = record { plugin_name = name; store = [] }

abbrev pub set_data : PluginContext → String → List ℕ → PluginContext
set_data c key value = record c { store = insert key value c.store }

abbrev pub get_data : PluginContext → String → Option (List ℕ)
get_data c key = lookup key c.store

abbrev pub remove_data : PluginContext → String → PluginContext × Option (List ℕ)
remove_data c key = (record c { store = remove key c.store }, lookup key c.store)

abbrev pub clear_data : PluginContext → PluginContext
clear_data c = record c { store = [] }

abbrev pub has_data : PluginContext → String → Bool
has_data c key = is_some (lookup key c.store)

pub record PluginStats : Type 0 where
  pub init_time_ms : ℕ
  pub event_count : ℕ
  pub avg_event_time_us : ℕ
  pub last_active : ℕ

-- `PluginStats::default`, at a reading of the clock.
abbrev pub default_stats : ℕ → PluginStats
default_stats now = record {
  init_time_ms = 0;
  event_count = 0;
  avg_event_time_us = 0;
  last_active = now;
}

-- `P` is the plugin itself, a `dyn Plugin`.
pub record PluginEntry (P : Type 0) : Type 0 where
  pub plugin : P
  pub metadata : PluginMetadata
  pub state : PluginState
  pub context : PluginContext
  pub stats : PluginStats

abbrev pub Registry : Type 0 → Type 0
Registry P = HashMap String (PluginEntry P)
