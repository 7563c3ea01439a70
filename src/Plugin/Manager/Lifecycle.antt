-- ===== src/Plugin/Manager/Lifecycle.antt =====
-- The life of a plugin through the calls of the manager (src/crates/bey-plugin/src/lib.rs).
use bey.Base.{
  ◌≡◌, refl, ap, ◌⊎◌, inl, inr, Bool-cases, true, false, if-either, Option, some, List, [], ◌∷◌,
  Any, String, string_eq, lookup, is_some,
}
use bey.Plugin.EventBus.{get_subscribers}
use bey.Plugin.Entry.{PluginState, initialized, stopped, new_context}
use bey.Plugin.Dependencies.{resolve_dependencies}
use bey.Plugin.Manager.{Plugin, PluginManager, Answer, get_plugin_state, register, unregister}
use bey.Plugin.Manager.Running.{starting, stopping, start_all, stop_all, reversed, emit_event}
use bey.Plugin.Manager.Calls.{
  Call, registers, unregisters, starts, stops, emits, step, run, Evolves, stays, admitted, started,
  halted, removed, EvolvesTo, along, admit-EvolvesTo, unregister-EvolvesTo, shift_in-EvolvesTo,
  deliver_all-same,
}
use bey.Plugin.Manager.Shifting.{states_differ, Shifts}

module _ {P H : Type 0} (T : Plugin P H) where
  starts_moves :
      (k : String) (a b : Option PluginState) → Shifts (starting T) a b → Evolves T k starts a b
  starts_moves k a b (inl e) = along T refl e stays
  starts_moves k a b (inr p) = along T p.0 p.1 started

  stops_moves :
      (k : String) (a b : Option PluginState) → Shifts (stopping T) a b → Evolves T k stops a b
  stops_moves k a b (inl e) = along T refl e stays
  stops_moves k a b (inr p) = along T p.0 p.1 halted

  -- No call changes the state of a plugin but so: register takes a name that is free to
  -- Initialized, start_all goes from Initialized to Running, stop_all from Running to Stopped, and
  -- unregister frees the name that it is given. This holds whatever the plugins do, and for calls
  -- that fail as well.
  pub step-Evolves :
      (m : PluginManager P H) (call : Call P) (k : String)
      → Evolves T k call (get_plugin_state m k) (get_plugin_state (step T m call) k)
  unfolding step register unregister start_all stop_all emit_event
  step-Evolves m (registers plugin) k =
      elim (Bool-cases (is_some (lookup (T.name plugin) m.plugins))) [
        | inl e ↦ rw (step, register, e) stays
        | inr e ↦
            rw (step, register, e)
              (admit-EvolvesTo T k m plugin
                (T.on_init plugin (new_context (T.name plugin)) m.shared) e)
      ]
  step-Evolves m (unregisters name) k = unregister-EvolvesTo T k m name (lookup name m.plugins) refl
  step-Evolves m starts k =
      if-either (λ (a : Answer P H). EvolvesTo T k starts m a.0) m.is_running _ _ stays
        (shift_in-EvolvesTo T k starts (starting T) true m (resolve_dependencies m.plugins)
          (starts_moves k) refl)
  step-Evolves m stops k =
      if-either (λ (a : Answer P H). EvolvesTo T k stops m a.0) m.is_running _ _
        (shift_in-EvolvesTo T k stops (stopping T) false m
          (reversed (resolve_dependencies m.plugins)) (stops_moves k) refl)
        stays
  step-Evolves m (emits event bytes) k =
      along T refl (deliver_all-same T event bytes (get_subscribers m.shared.event_bus event) m k)
        stays

  stopped_next :
      (k : String) (call : Call P) (a b : Option PluginState)
      → a ≡ some stopped
      → Evolves T k call a b
      → (b ≡ some stopped) ⊎ (call ≡ unregisters k)
  stopped_next k call a b h stays = inl h
  stopped_next k call a b h (admitted e) = cc
  stopped_next k call a b h started = absurd (states_differ initialized stopped refl h)
  stopped_next k call a b h halted = inl refl
  stopped_next k call a b h (removed e) = inr (ap unregisters e)

  -- A plugin that is stopped stays so whatever calls follow, start_all among them, until it is
  -- unregistered: no plugin is ever started again.
  pub run-stopped :
      (m : PluginManager P H) (calls : List (Call P)) (k : String)
      → get_plugin_state m k ≡ some stopped
      → (get_plugin_state (run T m calls) k ≡ some stopped)
        ⊎ Any (λ call. call ≡ unregisters k) calls
  unfolding run
  run-stopped m [] k h = inl h
  run-stopped m (call ∷ calls) k h = elim (stopped_next k call _ _ h (step-Evolves m call k)) [
    | inl e ↦ elim (run-stopped (step T m call) calls k e) [
      | inl done ↦ inl done
      | inr later ↦ inr (inr later)
    ]
    | inr e ↦ inr (inl e)
  ]
