-- ===== src/Plugin/Manager/Starting.antt =====
-- What start_all and stop_all (src/crates/bey-plugin/src/lib.rs) do to plugins that depend on each
-- other.
use bey.Base.{
  ◌≡◌, ◌⊎◌, true, false, if◌then◌else◌, some, List, [], ◌∷◌, All, String, string_eq, contains,
  names,
}
use bey.Base.Errors.{ok, err, panics, new_error}
use bey.Plugin.Entry.{initialized, running}
use bey.Plugin.Dependencies.Graph.{deps_of, Reason, IsClosed}
use bey.Plugin.Manager.{Plugin, PluginManager, Answer, get_plugin_state}

module _ {P H : Type 0} (T : Plugin P H) (m : PluginManager P H) where
  -- In the loop of start_all the plugins of `before` are running, the others as they were.
  record Level (before : List String) (n : PluginManager P H) : Type 0 where
    states :
        (x : String)
        → get_plugin_state n x ≡ (if contains x before then some running else get_plugin_state m x)
    idle : n.is_running ≡ false

  abbrev Partway : PluginManager P H → Type 0
  Partway n = (before : List String) × IsClosed m.plugins before × Level before n

  abbrev Goes : List String → Answer P H → Type 0
  Goes before (n, ok u) = Level before n
  Goes before (n, err e) = (e ≡ new_error 8007) × Partway n
  Goes before (n, panics) = Partway n

  abbrev onto : List String → List String → List String
  onto [] before = before
  onto (x ∷ xs) before = onto xs (x ∷ before)

  -- A plugin that was not started, or one that runs as all its dependencies do.
  abbrev pub IsSupported : PluginManager P H → String → Type 0
  IsSupported n k =
      (get_plugin_state n k ≡ some initialized)
      ⊎ ((get_plugin_state n k ≡ some running)
          × All (λ d. get_plugin_state n d ≡ some running) (deps_of m.plugins k))

  -- The outcomes of start_all.
  abbrev pub Starts : Answer P H → Type 0
  Starts (n, ok u) =
      (n.is_running ≡ true) × All (λ k. get_plugin_state n k ≡ some running) (names m.plugins)
  Starts (n, err e) =
      ((n ≡ m) × Reason m.plugins e)
      ⊎ ((e ≡ new_error 8007) × (n.is_running ≡ false) × All (IsSupported n) (names m.plugins))
  Starts (n, panics) = (n.is_running ≡ false) × All (IsSupported n) (names m.plugins)

  -- No plugin has been started yet.
  abbrev pub AreInitialized : Type 0
  AreInitialized = All (λ p. p.1.state ≡ initialized) m.plugins
