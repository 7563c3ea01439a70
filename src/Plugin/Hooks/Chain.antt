-- ===== src/Plugin/Hooks/Chain.antt =====
-- What registering a hook changes in the chains of hooks (src/crates/bey-plugin/src/hooks.rs).
use bey.Base.{
  ℕ, ◌≡◌, refl, subst, inl, inr, Bool-cases, if◌then◌else◌, List, [], ◌∷◌, ◌++◌, ◌==◌,
  lookup-insert,
}
use bey.Base.Errors.{NetResult, ok, err, panics}
use bey.Plugin.Hooks.{
  HookPoint, HookRegistry, point_eq, hooks_at, register_hook, after_hook, run_hooks, execute,
}

module _ {H W : Type 0} (run_hook : H → List ℕ → W → NetResult (List ℕ) × W) where
  abbrev Run : Type 0
  Run = NetResult (List ℕ) × W

  after_hook-after_hook :
      (hook : H) (hooks : List H) (r : Run)
      → ((bytes : List ℕ) (w : W)
          → run_hooks run_hook (hooks ++ hook ∷ []) bytes w
            ≡ after_hook run_hook
                (run_hooks run_hook (hook ∷ []))
                (run_hooks run_hook hooks bytes w))
      → after_hook run_hook (run_hooks run_hook (hooks ++ hook ∷ [])) r
        ≡ after_hook run_hook
            (run_hooks run_hook (hook ∷ []))
            (after_hook run_hook (run_hooks run_hook hooks) r)
  after_hook-after_hook hook hooks (ok bytes, w) f = f bytes w
  after_hook-after_hook hook hooks (err e, w) f = refl
  after_hook-after_hook hook hooks (panics, w) f = refl

  run_hooks-append :
      (hook : H) (hooks : List H) (bytes : List ℕ) (w : W)
      → run_hooks run_hook (hooks ++ hook ∷ []) bytes w
        ≡ after_hook run_hook (run_hooks run_hook (hook ∷ [])) (run_hooks run_hook hooks bytes w)
  unfolding run_hooks
  run_hooks-append hook [] bytes w = refl
  run_hooks-append hook (x ∷ hooks) bytes w =
      after_hook-after_hook hook hooks (run_hook x bytes w) (run_hooks-append hook hooks)

  -- After `register` the chain of that point is the chain before and then the new hook, which
  -- gets the bytes that the chain gives and does not run where the chain fails; every other point
  -- has the chain it had.
  pub execute-register_hook :
      (r : HookRegistry H) (point other : HookPoint) (hook : H) (bytes : List ℕ) (w : W)
      → execute run_hook (register_hook r point hook) other bytes w ≡ (
          let before = execute run_hook r other bytes w in
          if point == other
          then after_hook run_hook (run_hooks run_hook (hook ∷ [])) before
          else before)
  unfolding execute register_hook
  execute-register_hook r point other hook bytes w = elim (Bool-cases (point == other)) [
    | inl e ↦
        rw (lookup-insert point other (hooks_at r point ++ hook ∷ []) r.hooks, e)
          (subst
            (λ q.
              run_hooks run_hook (hooks_at r point ++ hook ∷ []) bytes w
              ≡ after_hook run_hook (run_hooks run_hook (hook ∷ []))
                  (run_hooks run_hook (hooks_at r q) bytes w))
            ((point_eq.matches_iff point other).0 e)
            (run_hooks-append hook (hooks_at r point) bytes w))
    | inr e ↦ rw (lookup-insert point other (hooks_at r point ++ hook ∷ []) r.hooks, e) refl
  ]
