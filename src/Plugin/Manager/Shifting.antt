-- ===== src/Plugin/Manager/Shifting.antt =====
-- How the states of the plugins change in the loops of start_all and stop_all
-- (src/crates/bey-plugin/src/lib.rs).
use bey.Base.{
  ◌≡◌, refl, sym, ◌∙◌, ap, subst, ◌⊎◌, inl, inr, Bool, Bool-cases, true, false, if◌then◌else◌,
  Option, none, some, List, [], ◌∷◌, String, string_eq, ◌==◌, lookup, lookup-insert,
}
use bey.Base.Errors.{NetResult, ok, err, panics, ErrorInfo}
use bey.Plugin.Entry.{PluginState, initialized, running, stopped, unloaded, error, PluginEntry}
use bey.Plugin.Manager.{
  Shared, Outcome, PluginManager, Answer, is_state, replace_error, called, set_entry, on_success,
  get_plugin_state, state_of,
}
use bey.Plugin.Manager.Running.{Shift, set_state, shift_one, and_then, shift_all}

is_state-eq : (a b : PluginState) → is_state a b ≡ true → a ≡ b
is_state-eq unloaded unloaded h = refl
is_state-eq initialized initialized h = refl
is_state-eq running running h = refl
is_state-eq stopped stopped h = refl
is_state-eq error error h = refl
is_state-eq _ _ h = cc

is_state_refl : (a : PluginState) → is_state a a ≡ true
is_state_refl unloaded = refl
is_state_refl initialized = refl
is_state_refl running = refl
is_state_refl stopped = refl
is_state_refl error = refl

abbrev pub has_state : PluginState → Option PluginState → Bool
has_state b none = false
has_state b (some a) = is_state a b

pub states_differ : (a b : PluginState) → is_state a b ≡ false → some a ≡ some b → ⊥
states_differ a b d e = cc (d, ap (has_state b) e, is_state_refl b)

module _ {P H : Type 0} where
  pub get_plugin_state-set_entry :
      (m : PluginManager P H) (name k : String) (entry : PluginEntry P) (shared : Shared H)
      → get_plugin_state (set_entry m name entry shared) k
        ≡ (if name == k then some entry.state else get_plugin_state m k)
  get_plugin_state-set_entry m name k entry shared = elim (Bool-cases (name == k)) [
    | inl e ↦ rw (lookup-insert name k entry m.plugins, e) refl
    | inr e ↦ rw (lookup-insert name k entry m.plugins, e) refl
  ]

  -- An entry that is set over one that is there.
  pub get_plugin_state-set :
      (m : PluginManager P H) (name k : String) (old entry : PluginEntry P) (shared : Shared H)
      → lookup name m.plugins ≡ some old
      → (get_plugin_state (set_entry m name entry shared) k ≡ get_plugin_state m k)
        ⊎ ((get_plugin_state m k ≡ some old.state)
            × (get_plugin_state (set_entry m name entry shared) k ≡ some entry.state))
  get_plugin_state-set m name k old entry shared h = elim (Bool-cases (name == k)) [
    | inl hit ↦ inr (
      ap state_of
          (subst (λ x. lookup x m.plugins ≡ some old) ((string_eq.matches_iff name k).0 hit) h),
      get_plugin_state-set_entry m name k entry shared
          ∙ ap (λ b. if b then some entry.state else get_plugin_state m k) hit,
    )
    | inr miss ↦ inl (rw (get_plugin_state-set_entry m name k entry shared, miss) refl)
  ]

  pub get_plugin_state-same :
      (m : PluginManager P H) (name k : String) (old entry : PluginEntry P) (shared : Shared H)
      → lookup name m.plugins ≡ some old
      → entry.state ≡ old.state
      → get_plugin_state (set_entry m name entry shared) k ≡ get_plugin_state m k
  get_plugin_state-same m name k old entry shared h e =
      elim (get_plugin_state-set m name k old entry shared h) [
        | inl same ↦ same
        | inr new ↦ new.1 ∙ ap some e ∙ sym new.0
      ]

  -- The outcome of a call by that of the plugin.
  pub on_success-either {κ} :
      (Q : PluginManager P H → Type κ) (m : PluginManager P H) (answer : Answer P H) (e : ErrorInfo)
      (r : NetResult (Unit {0}))
      → Q m
      → Q answer.0
      → Q (on_success m (replace_error e r) answer).0
  on_success-either Q m answer e (ok u) q p = p
  on_success-either Q m answer e (err cause) q p = q
  on_success-either Q m answer e panics q p = q

  pub and_then-either {κ} :
      (Q : PluginManager P H → Type κ) (rest : PluginManager P H → Answer P H) (answer : Answer P H)
      → Q answer.0
      → Q (rest answer.0).0
      → Q (and_then rest answer).0
  and_then-either Q rest (m, ok u) q p = p
  and_then-either Q rest (m, err e) q p = q
  and_then-either Q rest (m, panics) q p = q

  -- A state stays or goes from the one to the other.
  abbrev pub Shifts : Shift P H → Option PluginState → Option PluginState → Type 0
  Shifts shift a b = (b ≡ a) ⊎ ((a ≡ some shift.from) × (b ≡ some shift.to))

  Shifts-trans :
      (shift : Shift P H) (a b c : Option PluginState)
      → is_state shift.to shift.from ≡ false
      → Shifts shift a b
      → Shifts shift b c
      → Shifts shift a c
  Shifts-trans shift a b c d (inl e) q = subst (λ x. Shifts shift x c) e q
  Shifts-trans shift a b c d (inr p) (inl e) = inr (p.0, e ∙ p.1)
  Shifts-trans shift a b c d (inr p) (inr q) =
      absurd (states_differ shift.to shift.from d (sym p.1 ∙ q.0))

  shift_one-Shifts :
      (shift : Shift P H) (m : PluginManager P H) (name k : String) (found : Option (PluginEntry P))
      → lookup name m.plugins ≡ found
      → Shifts shift (get_plugin_state m k) (get_plugin_state (shift_one shift m name found).0 k)
  shift_one-Shifts shift m name k none h = inl refl
  shift_one-Shifts shift m name k (some entry) h =
      elim (Bool-cases (is_state entry.state shift.from)) [
        | inl e ↦ rw e (
            let o = shift.handler entry.plugin entry.context m.shared in
            on_success-either (λ n. Shifts shift (get_plugin_state m k) (get_plugin_state n k)) _ _
              shift.failure o.result
              (inl (get_plugin_state-same m name k entry (called entry o) o.shared h refl))
              (moved o (is_state-eq entry.state shift.from e)))
        | inr e ↦ rw e (inl refl)
      ]
    where
      moved :
          (o : Outcome P H)
          → entry.state ≡ shift.from
          → Shifts shift
              (get_plugin_state m k)
              (get_plugin_state (set_entry m name (set_state (called entry o) shift.to) o.shared) k)
      moved o e =
          elim (get_plugin_state-set m name k entry (set_state (called entry o) shift.to) o.shared
            h) [ inl same ↦ inl same | inr new ↦ inr (new.0 ∙ ap some e, new.1) ]

  pub shift_all-Shifts :
      (shift : Shift P H) (names : List String) (m : PluginManager P H) (k : String)
      → is_state shift.to shift.from ≡ false
      → Shifts shift (get_plugin_state m k) (get_plugin_state (shift_all shift names m).0 k)
  unfolding shift_all
  shift_all-Shifts shift [] m k d = inl refl
  shift_all-Shifts shift (name ∷ names) m k d =
      let one = shift_one shift m name (lookup name m.plugins) in
      let first = shift_one-Shifts shift m name k (lookup name m.plugins) refl in
      and_then-either (λ n. Shifts shift (get_plugin_state m k) (get_plugin_state n k))
        (shift_all shift names) one first
        (Shifts-trans shift _ _ _ d first (shift_all-Shifts shift names one.0 k d))
