-- ===== src/Plugin/Manager/Averages.antt =====
-- The average times that emit_event (src/crates/bey-plugin/src/lib.rs) keeps.
use native.Mathlib.Nat.{div-le_of_le-mul, mul-le-mul_right, mul_comm, mod-le}
use bey.Base.{
  u64, ℕ, zero, suc, true, false, ◌+◌, ◌*◌, ◌-◌, ◌/◌, ◌≤◌, ◌≡◌, refl, subst, Bool-cases, inl, inr,
  eqb, if-either, if_true, if_false, Option, none, some, List, [], ◌∷◌, String, string_eq, lookup,
  arith,
}
use bey.Base.Errors.{NetResult, ok, err, panics}
use bey.Plugin.EventBus.{get_subscribers}
use bey.Plugin.Entry.{PluginContext, PluginStats, PluginEntry, running}
use bey.Plugin.Dependencies.{resolve_dependencies}
use bey.Plugin.Manager.{
  Shared, Outcome, Plugin, PluginManager, Answer, is_state, called, unregister, new,
}
use bey.Plugin.Manager.Running.{
  starting, stopping, start_all, stop_all, reversed, count_event, set_stats, end_event, deliver_to,
  deliver_all, emit_event,
}
use bey.Plugin.Manager.Calls.{Call, registers, unregisters, starts, stops, emits, step, run}
use bey.Plugin.Manager.Keeping.{
  AreBelow, entry_below, set_entry-AreBelow, register-AreBelow, unregister-AreBelow,
  shift_in-AreBelow,
}
use bey.Plugin.Manager.Shifting.{and_then-either}

-- The average of a statistic that a count gives, where it gives one.
abbrev IsBelow : ℕ → NetResult PluginStats → Type 0
IsBelow b (ok stats) = stats.avg_event_time_us ≤ b
IsBelow b (err e) = Unit
IsBelow b panics = Unit

-- The new average, with any count and total that were reduced to machine words.
average_le :
    (b average count elapsed total : ℕ)
    → average ≤ b
    → elapsed ≤ b
    → total ≤ average * (count - 1) + elapsed
    → eqb count 0 ≡ false
    → total / count ≤ b
average_le b average zero elapsed total h k t c = ground arith
average_le b average (suc n) elapsed total h k t c =
    div-le_of_le-mul (suc n) (omega (arith, smaller, k, mul-le-mul_right n h, mul_comm n b))
  where
    smaller : total ≤ average * n + elapsed
    smaller = subst (λ i. total ≤ average * i + elapsed) (omega arith) t

count_event-IsBelow :
    (b : ℕ) (stats : PluginStats) (elapsed now : ℕ)
    → stats.avg_event_time_us ≤ b
    → elapsed ≤ b
    → IsBelow b (count_event stats elapsed now)
count_event-IsBelow b stats elapsed now h k =
    elim (Bool-cases (eqb (u64 (suc stats.event_count)) 0)) [
      | inl e ↦ if_true (IsBelow b) _ _ _ e tt
      | inr e ↦ if_false (IsBelow b) _ _ _ e (
          average_le b stats.avg_event_time_us (u64 (suc stats.event_count)) elapsed
            (u64 (stats.avg_event_time_us * (u64 (suc stats.event_count) - 1) + elapsed)) h k
            (mod-le (stats.avg_event_time_us * (u64 (suc stats.event_count) - 1) + elapsed)
              18446744073709551616)
            e)
    ]

module _ {P H : Type 0} (T : Plugin P H) (b : ℕ) where
  -- Every call of on_event takes at most that time.
  abbrev pub AreQuick : Type 0
  AreQuick =
      (event : String) (bytes : List ℕ) (p : P) (c : PluginContext) (s : Shared H)
      → (T.on_event event bytes p c s).elapsed_us ≤ b

  set_stats-AreBelow :
      (m : PluginManager P H) (name : String) (entry : PluginEntry P) (o : Outcome P H)
      (r : NetResult PluginStats)
      → AreBelow b m
      → IsBelow b r
      → AreBelow b (set_stats m name entry o r).0
  set_stats-AreBelow m name entry o (ok stats) a h =
      set_entry-AreBelow b m name (record entry { stats = stats }) o.shared a h
  set_stats-AreBelow m name entry o (err e) a h = a
  set_stats-AreBelow m name entry o panics a h = a

  end_event-AreBelow :
      (m : PluginManager P H) (name : String) (entry : PluginEntry P) (o : Outcome P H)
      (r : NetResult (Unit {0}))
      → AreBelow b m
      → entry.stats.avg_event_time_us ≤ b
      → o.elapsed_us ≤ b
      → AreBelow b (end_event m name entry o r).0
  end_event-AreBelow m name entry o (ok u) a h q =
      set_stats-AreBelow m name entry o (count_event entry.stats (u64 o.elapsed_us) o.ended_at) a (
        count_event-IsBelow b entry.stats (u64 o.elapsed_us) o.ended_at h
          (omega (arith, q, mod-le o.elapsed_us 18446744073709551616)))
  end_event-AreBelow m name entry o (err e) a h q = set_entry-AreBelow b m name entry o.shared a h
  end_event-AreBelow m name entry o panics a h q = a

  deliver_to-AreBelow :
      (event : String) (bytes : List ℕ) (m : PluginManager P H) (name : String)
      (found : Option (PluginEntry P))
      → AreQuick
      → AreBelow b m
      → lookup name m.plugins ≡ found
      → AreBelow b (deliver_to T event bytes m name found).0
  deliver_to-AreBelow event bytes m name none q a h = a
  deliver_to-AreBelow event bytes m name (some entry) q a h =
      let o = T.on_event event bytes entry.plugin entry.context m.shared in
      if-either (λ (r : Answer P H). AreBelow b r.0) (is_state entry.state running) _ _
        (end_event-AreBelow m name (called entry o) o o.result a (entry_below b m name entry a h)
          (q event bytes entry.plugin entry.context m.shared))
        a

  deliver_all-AreBelow :
      (event : String) (bytes : List ℕ) (names : List String) (m : PluginManager P H)
      → AreQuick
      → AreBelow b m
      → AreBelow b (deliver_all T event bytes names m).0
  unfolding deliver_all
  deliver_all-AreBelow event bytes [] m q a = a
  deliver_all-AreBelow event bytes (name ∷ names) m q a =
      let one = deliver_to T event bytes m name (lookup name m.plugins) in
      let low = deliver_to-AreBelow event bytes m name (lookup name m.plugins) q a refl in
      and_then-either (AreBelow b) (deliver_all T event bytes names) one low
        (deliver_all-AreBelow event bytes names one.0 q low)

  step-AreBelow :
      (m : PluginManager P H) (call : Call P) → AreQuick → AreBelow b m → AreBelow b (step T m call)
  unfolding step unregister start_all stop_all emit_event
  step-AreBelow m (registers plugin) q a = register-AreBelow T b m plugin a
  step-AreBelow m (unregisters name) q a =
      unregister-AreBelow T b m name (lookup name m.plugins) a refl
  step-AreBelow m starts q a =
      if-either (λ (r : Answer P H). AreBelow b r.0) m.is_running _ _ a
        (shift_in-AreBelow b (starting T) true m (resolve_dependencies m.plugins) a)
  step-AreBelow m stops q a =
      if-either (λ (r : Answer P H). AreBelow b r.0) m.is_running _ _
        (shift_in-AreBelow b (stopping T) false m (reversed (resolve_dependencies m.plugins)) a) a
  step-AreBelow m (emits event bytes) q a =
      deliver_all-AreBelow event bytes (get_subscribers m.shared.event_bus event) m q a

  steps_below :
      (calls : List (Call P)) (m : PluginManager P H)
      → AreQuick
      → AreBelow b m
      → AreBelow b (run T m calls)
  unfolding run
  steps_below [] m q a = a
  steps_below (call ∷ calls) m q a = steps_below calls (step T m call) q (step-AreBelow m call q a)

  -- Where each call of on_event takes at most b microseconds, no average time of a plugin is
  -- above b, after any calls of a new manager: neither the running division nor a sum that wraps
  -- makes it larger.
  pub run-AreBelow : (calls : List (Call P)) → AreQuick → AreBelow b (run T new calls)
  run-AreBelow calls q = steps_below calls new q tt
