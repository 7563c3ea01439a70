-- ===== src/Plugin/Manager/Calls.antt =====
-- The calls of the manager (src/crates/bey-plugin/src/lib.rs), and how each may change the state of
-- a plugin.
use bey.Base.{
  u64, ℕ, ◌≡◌, refl, sym, ◌∙◌, ap, subst, inl, inr, Bool, Bool-cases, true, false, if◌then◌else◌,
  Option, none, some, List, [], ◌∷◌, String, string_eq, ◌==◌, lookup, remove, is_some, is_some-none,
  beq_refl, lookup-insert, lookup-remove,
}
use bey.Base.Errors.{NetResult, ok, err, panics, new_error, with_category, system}
use bey.Plugin.Entry.{PluginState, initialized, running, stopped, PluginStats, PluginEntry}
use bey.Plugin.Manager.{
  Outcome, Plugin, PluginManager, is_state, called, set_entry, get_plugin_state, state_of, entry_of,
  subscribe_to, admit, register, clean_up, stop_and_clean_up, unregister_entry, unregister,
}
use bey.Plugin.Manager.Running.{
  Shift, shift_all, shift_in, set_running, start_all, stop_all, count_event, set_stats, end_event,
  deliver_to, deliver_all, emit_event,
}
use bey.Plugin.Manager.Shifting.{
  get_plugin_state-set_entry, get_plugin_state-same, on_success-either, and_then-either, Shifts,
  shift_all-Shifts,
}

-- A call of the manager from outside.
pub data Call (P : Type 0) : Type 0 where
  registers : P → Call P
  unregisters : String → Call P
  starts stops : Call P
  emits : String → List ℕ → Call P

module _ {P H : Type 0} (T : Plugin P H) where
  unfoldable pub step : PluginManager P H → Call P → PluginManager P H
  step m (registers plugin) = (register T m plugin).0
  step m (unregisters name) = (unregister T m name).0
  step m starts = (start_all T m).0
  step m stops = (stop_all T m).0
  step m (emits event bytes) = (emit_event T m event bytes).0

  unfoldable pub run : PluginManager P H → List (Call P) → PluginManager P H
  run m [] = m
  run m (call ∷ calls) = run (step m call) calls

  -- How a call may change the state of the plugin of a name.
  pub data Evolves (k : String) : Call P → Option PluginState → Option PluginState → Type 0 where
    stays : {call : Call P} {s : Option PluginState} → Evolves k call s s
    admitted :
        {plugin : P} → T.name plugin ≡ k → Evolves k (registers plugin) none (some initialized)
    started : Evolves k starts (some initialized) (some running)
    halted : Evolves k stops (some running) (some stopped)
    removed :
        {name : String} {s : Option PluginState} → name ≡ k → Evolves k (unregisters name) s none

  -- The change from a manager to the next one.
  abbrev pub EvolvesTo : String → Call P → PluginManager P H → PluginManager P H → Type 0
  EvolvesTo k call m n = Evolves k call (get_plugin_state m k) (get_plugin_state n k)

  pub stays-EvolvesTo :
      (k : String) (call : Call P) (m n : PluginManager P H)
      → get_plugin_state n k ≡ get_plugin_state m k
      → EvolvesTo k call m n
  stays-EvolvesTo k call m n e = subst (Evolves k call (get_plugin_state m k)) (sym e) stays

  pub along :
      {k : String} {call : Call P} {a b c d : Option PluginState}
      → c ≡ a
      → d ≡ b
      → Evolves k call a b
      → Evolves k call c d
  along {k} {call} {a} {b} {c} {d} e f v =
      subst (λ x. Evolves k call x d) (sym e) (subst (Evolves k call a) (sym f) v)

  pub admit-EvolvesTo :
      (k : String) (m : PluginManager P H) (plugin : P) (o : Outcome P H)
      → is_some (lookup (T.name plugin) m.plugins) ≡ false
      → EvolvesTo k (registers plugin) m (admit T m (T.name plugin) o).0
  admit-EvolvesTo k m plugin o new =
      on_success-either (EvolvesTo k (registers plugin) m) (record m { shared = o.shared }) _
        (with_category (new_error 8002) system) o.result stays
        (elim (Bool-cases (T.name plugin == k)) [
          | inl e ↦
              along
                (ap state_of (
                  subst (λ x. lookup x m.plugins ≡ none)
                    ((string_eq.matches_iff (T.name plugin) k).0 e)
                    (is_some-none (lookup (T.name plugin) m.plugins) new)))
                (rw
                  (
                    get_plugin_state-set_entry m (T.name plugin) k (entry_of T (T.name plugin) o)
                        (subscribe_to T o (T.name plugin)),
                    e,
                  )
                  refl)
                (admitted ((string_eq.matches_iff (T.name plugin) k).0 e))
          | inr e ↦
              stays-EvolvesTo k (registers plugin) m
                (set_entry m (T.name plugin) (entry_of T (T.name plugin) o)
                  (subscribe_to T o (T.name plugin)))
                (rw
                  (
                    get_plugin_state-set_entry m (T.name plugin) k (entry_of T (T.name plugin) o)
                        (subscribe_to T o (T.name plugin)),
                    e,
                  )
                  refl)
        ])

  pub clean_up-EvolvesTo :
      (k : String) (m : PluginManager P H) (name : String) (entry : PluginEntry P)
      → lookup name m.plugins ≡ some entry
      → EvolvesTo k (unregisters name) m (clean_up T m name entry).0
  clean_up-EvolvesTo k m name entry h =
      let o = T.on_cleanup entry.plugin entry.context m.shared in
      on_success-either (EvolvesTo k (unregisters name) m)
        (set_entry m name (called entry o) o.shared) _ (new_error 8005) o.result
        (stays-EvolvesTo k (unregisters name) m (set_entry m name (called entry o) o.shared)
          (get_plugin_state-same m name k entry (called entry o) o.shared h refl))
        (elim (Bool-cases (name == k)) [
          | inl e ↦ along refl (gone e) (removed ((string_eq.matches_iff name k).0 e))
          | inr e ↦ along refl (left e) stays
        ])
    where
      gone : (name == k) ≡ true → state_of (lookup k (remove name m.plugins)) ≡ none
      gone e = rw (lookup-remove name k m.plugins, e) refl

      left :
          (name == k) ≡ false → state_of (lookup k (remove name m.plugins)) ≡ get_plugin_state m k
      left e = rw (lookup-remove name k m.plugins, e) refl

  pub stop_and_clean_up-EvolvesTo :
      (k : String) (m : PluginManager P H) (name : String) (entry : PluginEntry P)
      → lookup name m.plugins ≡ some entry
      → EvolvesTo k (unregisters name) m (stop_and_clean_up T m name entry).0
  stop_and_clean_up-EvolvesTo k m name entry h =
      let o = T.on_stop entry.plugin entry.context m.shared in
      let halted = set_entry m name (called entry o) o.shared in
      let same = get_plugin_state-same m name k entry (called entry o) o.shared h refl in
      on_success-either (EvolvesTo k (unregisters name) m) halted _ (new_error 8004) o.result
        (along refl same stays)
        (along (sym same) refl (
          clean_up-EvolvesTo k halted name (called entry o) (
            lookup-insert name name (called entry o) m.plugins
            ∙ ap (λ b. if b then some (called entry o) else lookup name m.plugins)
                (beq_refl name))))

  pub unregister-EvolvesTo :
      (k : String) (m : PluginManager P H) (name : String) (found : Option (PluginEntry P))
      → lookup name m.plugins ≡ found
      → EvolvesTo k (unregisters name) m (unregister_entry T m name found).0
  unregister-EvolvesTo k m name none h = stays
  unregister-EvolvesTo k m name (some entry) h = elim (Bool-cases (is_state entry.state running)) [
    | inl e ↦ rw e (stop_and_clean_up-EvolvesTo k m name entry h)
    | inr e ↦ rw e (clean_up-EvolvesTo k m name entry h)
  ]

  pub shift_in-EvolvesTo :
      (k : String) (call : Call P) (shift : Shift P H) (b : Bool) (m : PluginManager P H)
      (r : NetResult (List String))
      → ((a c : Option PluginState) → Shifts shift a c → Evolves k call a c)
      → is_state shift.to shift.from ≡ false
      → EvolvesTo k call m (shift_in shift b m r).0
  shift_in-EvolvesTo k call shift b m (ok order) f d =
      let v = f _ _ (shift_all-Shifts shift order m k d) in
      and_then-either (EvolvesTo k call m) (set_running b) (shift_all shift order m) v v
  shift_in-EvolvesTo k call shift b m (err e) f d = stays
  shift_in-EvolvesTo k call shift b m panics f d = stays

  pub set_stats-same :
      (m : PluginManager P H) (name k : String) (old entry : PluginEntry P) (o : Outcome P H)
      (r : NetResult PluginStats)
      → lookup name m.plugins ≡ some old
      → entry.state ≡ old.state
      → get_plugin_state (set_stats m name entry o r).0 k ≡ get_plugin_state m k
  set_stats-same m name k old entry o (ok stats) h e =
      get_plugin_state-same m name k old (record entry { stats = stats }) o.shared h e
  set_stats-same m name k old entry o (err cause) h e = refl
  set_stats-same m name k old entry o panics h e = refl

  pub end_event-same :
      (m : PluginManager P H) (name k : String) (old entry : PluginEntry P) (o : Outcome P H)
      (r : NetResult (Unit {0}))
      → lookup name m.plugins ≡ some old
      → entry.state ≡ old.state
      → get_plugin_state (end_event m name entry o r).0 k ≡ get_plugin_state m k
  end_event-same m name k old entry o (ok u) h e =
      set_stats-same m name k old entry o (count_event entry.stats (u64 o.elapsed_us) o.ended_at) h
        e
  end_event-same m name k old entry o (err cause) h e =
      get_plugin_state-same m name k old entry o.shared h e
  end_event-same m name k old entry o panics h e = refl

  pub deliver_to-same :
      (event : String) (bytes : List ℕ) (m : PluginManager P H) (name k : String)
      (found : Option (PluginEntry P))
      → lookup name m.plugins ≡ found
      → get_plugin_state (deliver_to T event bytes m name found).0 k ≡ get_plugin_state m k
  deliver_to-same event bytes m name k none h = refl
  deliver_to-same event bytes m name k (some entry) h =
      elim (Bool-cases (is_state entry.state running)) [
        | inl e ↦ rw e (
            let o = T.on_event event bytes entry.plugin entry.context m.shared in
            end_event-same m name k entry (called entry o) o o.result h refl)
        | inr e ↦ rw e refl
      ]

  pub deliver_all-same :
      (event : String) (bytes : List ℕ) (names : List String) (m : PluginManager P H) (k : String)
      → get_plugin_state (deliver_all T event bytes names m).0 k ≡ get_plugin_state m k
  unfolding deliver_all
  deliver_all-same event bytes [] m k = refl
  deliver_all-same event bytes (name ∷ names) m k =
      let one = deliver_to T event bytes m name (lookup name m.plugins) in
      let same = deliver_to-same event bytes m name k (lookup name m.plugins) refl in
      and_then-either (λ n. get_plugin_state n k ≡ get_plugin_state m k)
        (deliver_all T event bytes names) one same
        (deliver_all-same event bytes names one.0 k ∙ same)
