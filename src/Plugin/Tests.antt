-- ===== src/Plugin/Tests.antt =====
-- The theorems about the plugin system at concrete inputs.
use bey.Base.{
  ℕ, suc, ◌≡◌, refl, ◌⊎◌, some, List, [], ◌∷◌, ◌++◌, Any, String, string_eq, lookup, insert, remove,
  contains, arith,
}
use bey.Base.Errors.{NetResult, ok}
use bey.Plugin.EventBus.{get_subscribers, subscribe, subscribe_all}
use bey.Plugin.Hooks.{
  HookRegistry, network_before_send, storage_after_write, point_eq, register_hook, run_hooks,
  after_hook, execute,
}
use bey.Plugin.Hooks
use bey.Plugin.Entry.{stopped}
use bey.Plugin.Dependencies.{resolve_dependencies, visit_plugin, visit_dependencies, visit_all}
use bey.Plugin.Dependencies.Resolving.{Resolves, resolve_dependencies-Resolves}
use bey.Plugin.Manager.{Handler, Plugin, PluginManager, register, unregister, new, get_plugin_state}
use bey.Plugin.Manager.Running.{shift_all, start_all, stop_all}
use bey.Plugin.Manager.Calls.{
  Call, registers, unregisters, starts, stops, emits, step, run, Evolves,
}
use bey.Plugin.Manager.Lifecycle.{step-Evolves, run-stopped}
use bey.Plugin.Manager.Stopping.{RefusedFor, stop_all-incomplete}
use bey.Plugin.Manager.Averages.{run-AreBelow}
use bey.Plugin.Manager.Keeping.{AreBelow}

-- A plugin that does nothing, in five microseconds: its name and its dependencies.
abbrev quiet : Handler (String × List String) ℕ
quiet p c s = record {
  plugin = p;
  context = c;
  shared = s;
  result = ok tt;
  elapsed_us = 5;
  ended_at = 9;
}

abbrev plain : Plugin (String × List String) ℕ
plain = record {
  name = λ p. p.0;
  version = λ p. "1.0.0";
  description = λ p. "";
  author = λ p. "";
  dependencies = λ p. p.1;
  subscribed_events = λ p. "message.received" ∷ [];
  on_init = quiet;
  on_start = quiet;
  on_stop = quiet;
  on_cleanup = quiet;
  on_event = λ event bytes. quiet;
}

abbrev base : String × List String
base = ("base", [])

abbrev chat : String × List String
chat = ("chat", "base" ∷ [])

-- Registered in this order, chat comes first in the table.
abbrev both : PluginManager (String × List String) ℕ
both = run plain new (registers chat ∷ registers base ∷ [])

abbrev alone : PluginManager (String × List String) ℕ
alone = run plain both (starts ∷ unregisters "base" ∷ [])

both_order : resolve_dependencies both.plugins ≡ ok ("base" ∷ "chat" ∷ [])
unfolding run step register subscribe_all subscribe get_subscribers lookup insert
    resolve_dependencies visit_all visit_plugin visit_dependencies contains
both_order = refl

resolve_dependencies-Resolves_example : Resolves both.plugins (resolve_dependencies both.plugins)
resolve_dependencies-Resolves_example = resolve_dependencies-Resolves both.plugins

step-Evolves_example :
    Evolves plain "chat" starts
      (get_plugin_state both "chat")
      (get_plugin_state (step plain both starts) "chat")
step-Evolves_example = step-Evolves plain both starts "chat"

abbrev halted_both : PluginManager (String × List String) ℕ
halted_both = run plain both (starts ∷ stops ∷ [])

run-stopped_example :
    (get_plugin_state (run plain halted_both (starts ∷ [])) "chat" ≡ some stopped)
    ⊎ Any {A = Call (String × List String)} (λ call. call ≡ unregisters "chat") (starts ∷ [])
unfolding run step register start_all stop_all shift_all subscribe_all subscribe get_subscribers
    lookup insert resolve_dependencies visit_all visit_plugin visit_dependencies contains
run-stopped_example = run-stopped plain halted_both (starts ∷ []) "chat" refl

stop_all-incomplete_example : RefusedFor plain alone (stop_all plain alone)
unfolding run step register unregister start_all shift_all subscribe_all subscribe get_subscribers
    lookup insert remove resolve_dependencies visit_all visit_plugin visit_dependencies contains
stop_all-incomplete_example = stop_all-incomplete plain alone refl ("chat", "base", refl, refl)

run-AreBelow_example :
    AreBelow 5 (run plain new (registers base ∷ starts ∷ emits "message.received" [] ∷ []))
run-AreBelow_example =
    run-AreBelow plain 5 (registers base ∷ starts ∷ emits "message.received" [] ∷ [])
      (λ event bytes p c s. omega arith)

-- A hook that appends its number.
abbrev append_hook : ℕ → List ℕ → ℕ → NetResult (List ℕ) × ℕ
append_hook n bytes w = (ok (bytes ++ n ∷ []), suc w)

abbrev hooked : HookRegistry ℕ
hooked = register_hook Hooks.new network_before_send 1

two_hooks :
    execute append_hook (register_hook hooked network_before_send 2) network_before_send (7 ∷ []) 0
    ≡ (ok (7 ∷ 1 ∷ 2 ∷ []), 2)
unfolding execute register_hook run_hooks lookup insert
two_hooks = refl
