-- ===== src/Plugin/Manager/Running.antt =====
-- Starting and stopping all plugins, and events: start_all, stop_all and emit_event of
-- src/crates/bey-plugin/src/lib.rs.
use mathlib.Core.List.{reverse}
use bey.Base.{
  u64, ℕ, suc, ◌+◌, ◌*◌, ◌/◌, ◌-◌, Bool, true, false, eqb, if◌then◌else◌, Option, none, some, List,
  [], ◌∷◌, String, string_eq, lookup,
}
use bey.Base.Errors.{NetResult, ok, err, panics, ErrorInfo, new_error, with_category, validation}
use bey.Plugin.EventBus.{get_subscribers}
use bey.Plugin.Entry.{PluginState, initialized, running, stopped, PluginStats, PluginEntry}
use bey.Plugin.Dependencies.{resolve_dependencies}
use bey.Plugin.Manager.{
  Outcome, Handler, Plugin, PluginManager, Answer, is_state, replace_error, called, set_entry,
  on_success,
}

-- What the loops of `start_all` and `stop_all` do: which plugins they call, in which state they
-- leave them, and the error of a plugin that fails.
pub record Shift (P H : Type 0) : Type 0 where
  pub from : PluginState
  pub to : PluginState
  pub failure : ErrorInfo
  pub handler : Handler P H

module _ {P : Type 0} where
  abbrev pub set_state : PluginEntry P → PluginState → PluginEntry P
  set_state entry s = record entry { state = s }

abbrev pub reversed : NetResult (List String) → NetResult (List String)
reversed (ok order) = ok (reverse order)
reversed (err e) = err e
reversed panics = panics

module _ {P H : Type 0} where
  -- The call of one plugin.
  abbrev pub shift_entry :
      Shift P H → PluginManager P H → String → PluginEntry P → Outcome P H → Answer P H
  shift_entry shift m name entry o =
      on_success (set_entry m name (called entry o) o.shared) (replace_error shift.failure o.result)
        (set_entry m name (set_state (called entry o) shift.to) o.shared, ok tt)

  abbrev pub shift_one :
      Shift P H → PluginManager P H → String → Option (PluginEntry P) → Answer P H
  shift_one shift m name none = (m, ok tt)
  shift_one shift m name (some entry) =
      if is_state entry.state shift.from
      then shift_entry shift m name entry (shift.handler entry.plugin entry.context m.shared)
      else (m, ok tt)

  -- `?`: the rest runs where the call succeeded.
  abbrev pub and_then : (PluginManager P H → Answer P H) → Answer P H → Answer P H
  and_then rest (m, ok u) = rest m
  and_then rest (m, err e) = (m, err e)
  and_then rest (m, panics) = (m, panics)

  -- The loop over the order.
  unfoldable pub shift_all : Shift P H → List String → PluginManager P H → Answer P H
  shift_all shift [] m = (m, ok tt)
  shift_all shift (name ∷ names) m =
      and_then (shift_all shift names) (shift_one shift m name (lookup name m.plugins))

  abbrev pub set_running : Bool → PluginManager P H → Answer P H
  set_running b m = (record m { is_running = b }, ok tt)

  -- The loop over an order, where there is one, and the flag at the end.
  abbrev pub shift_in : Shift P H → Bool → PluginManager P H → NetResult (List String) → Answer P H
  shift_in shift b m (ok order) = and_then (set_running b) (shift_all shift order m)
  shift_in shift b m (err e) = (m, err e)
  shift_in shift b m panics = (m, panics)

-- The statistics after an event of that length; the division by a counter that wrapped to zero
-- panics.
abbrev pub count_event : PluginStats → ℕ → ℕ → NetResult PluginStats
count_event stats elapsed now =
    let count = u64 (suc stats.event_count) in
    let total = u64 (stats.avg_event_time_us * (count - 1) + elapsed) in
    if eqb count 0
    then panics
    else ok
        (record stats { event_count = count; avg_event_time_us = total / count; last_active = now })

module _ {P H : Type 0} where
  abbrev pub set_stats :
      PluginManager P H → String → PluginEntry P → Outcome P H → NetResult PluginStats → Answer P H
  set_stats m name entry o (ok stats) =
      (set_entry m name (record entry { stats = stats }) o.shared, ok tt)
  set_stats m name entry o (err e) = (m, err e)
  set_stats m name entry o panics = (m, panics)

  -- What follows the call of `on_event`: an error is logged only.
  abbrev pub end_event :
      PluginManager P H → String → PluginEntry P → Outcome P H → NetResult (Unit {0}) → Answer P H
  end_event m name entry o (ok u) =
      set_stats m name entry o (count_event entry.stats (u64 o.elapsed_us) o.ended_at)
  end_event m name entry o (err e) = (set_entry m name entry o.shared, ok tt)
  end_event m name entry o panics = (m, panics)

module _ {P H : Type 0} (T : Plugin P H) where
  abbrev pub starting : Shift P H
  starting = record {
    from = initialized;
    to = running;
    failure = new_error 8007;
    handler = T.on_start;
  }

  abbrev pub stopping : Shift P H
  stopping = record { from = running; to = stopped; failure = new_error 8008; handler = T.on_stop }

  unfoldable pub start_all : PluginManager P H → Answer P H
  start_all m =
      if m.is_running
      then (m, err (with_category (new_error 8006) validation))
      else shift_in starting true m (resolve_dependencies m.plugins)

  unfoldable pub stop_all : PluginManager P H → Answer P H
  stop_all m =
      if m.is_running
      then shift_in stopping false m (reversed (resolve_dependencies m.plugins))
      else (m, ok tt)

  abbrev pub deliver_to :
      String → List ℕ → PluginManager P H → String → Option (PluginEntry P) → Answer P H
  deliver_to event bytes m name none = (m, ok tt)
  deliver_to event bytes m name (some entry) =
      let o = T.on_event event bytes entry.plugin entry.context m.shared in
      if is_state entry.state running
      then end_event m name (called entry o) o o.result
      else (m, ok tt)

  unfoldable pub deliver_all : String → List ℕ → List String → PluginManager P H → Answer P H
  deliver_all event bytes [] m = (m, ok tt)
  deliver_all event bytes (name ∷ names) m =
      and_then (deliver_all event bytes names)
        (deliver_to event bytes m name (lookup name m.plugins))

  unfoldable pub emit_event : PluginManager P H → String → List ℕ → Answer P H
  emit_event m event bytes = deliver_all event bytes (get_subscribers m.shared.event_bus event) m
