-- ===== src/Plugin/EventBus/Subscribing.antt =====
-- What subscribing and unsubscribing make of the subscribers of each event.
use mathlib.Core.List.{append_assoc, append-nil}
use bey.Base.{
  ◌≡◌, refl, sym, inl, inr, not, if◌then◌else◌, Bool-cases, Option-cases, List, [], ◌∷◌, ◌++◌,
  retain, String, string_eq, lookup, ◌==◌, arith, lookup-insert,
}
use bey.Plugin.EventBus.{EventBus, or_empty, get_subscribers, subscribe, unsubscribe, subscribe_all}

get_subscribers-subscribe :
    (bus : EventBus) (event plugin other : String)
    → get_subscribers (subscribe bus event plugin) other
      ≡ get_subscribers bus other ++ (if event == other then plugin ∷ [] else [])
unfolding get_subscribers subscribe
get_subscribers-subscribe bus event plugin other = elim (Bool-cases (event == other)) [
  | inl e ↦
      rw
        (
          lookup-insert event other (get_subscribers bus event ++ plugin ∷ []) bus.subscriptions,
          e,
          (string_eq.matches_iff event other).0 e,
        )
        refl
  | inr e ↦
      rw
        (
          lookup-insert event other (get_subscribers bus event ++ plugin ∷ []) bus.subscriptions,
          e,
          append-nil (or_empty (lookup other bus.subscriptions)),
        )
        refl
]

-- One copy of the plugin for each time that the event is in the list.
abbrev pub copies : String → List String → String → List String
copies event [] plugin = []
copies event (x ∷ xs) plugin = (if x == event then plugin ∷ [] else []) ++ copies event xs plugin

pub get_subscribers-subscribe_all :
    (bus : EventBus) (events : List String) (plugin other : String)
    → get_subscribers (subscribe_all bus events plugin) other
      ≡ get_subscribers bus other ++ copies other events plugin
unfolding subscribe_all
get_subscribers-subscribe_all bus [] plugin other = sym (append-nil (get_subscribers bus other))
get_subscribers-subscribe_all bus (x ∷ xs) plugin other =
    rw
      (
        get_subscribers-subscribe_all (subscribe bus x plugin) xs plugin other,
        get_subscribers-subscribe bus x plugin other,
      )
      (append_assoc (get_subscribers bus other) (if x == other then plugin ∷ [] else [])
        (copies other xs plugin))

pub get_subscribers-unsubscribe :
    (bus : EventBus) (event plugin other : String)
    → get_subscribers (unsubscribe bus event plugin) other ≡ (
        let names = get_subscribers bus other in
        if event == other then retain (λ name. not (name == plugin)) names else names)
unfolding get_subscribers unsubscribe
get_subscribers-unsubscribe bus event plugin other =
    elim (Option-cases (lookup event bus.subscriptions)) [
      | inl e ↦ rw e (ground (arith, string_eq.matches_iff event other))
      | inr (names, e) ↦
          rw
            (
              e,
              lookup-insert event other (retain (λ name. not (name == plugin)) names)
                  bus.subscriptions,
            )
            (ground (arith, string_eq.matches_iff event other))
    ]
