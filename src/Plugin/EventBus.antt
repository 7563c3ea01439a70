-- ===== src/Plugin/EventBus.antt =====
-- The event bus, src/crates/bey-plugin/src/event_bus.rs. A DashMap is an association list.
pub mod Subscribing
use bey.Base.{
  ℕ, Bool, not, Option, none, some, List, [], ◌∷◌, ◌++◌, length, retain, String, string_eq, HashMap,
  lookup, insert, ◌==◌,
}

pub data EventPriority : Type 0 where
  low normal high critical : EventPriority

-- The bytes of `data` are numbers.
pub record Event : Type 0 where
  pub name : String
  pub data_bytes : List ℕ
  pub priority : EventPriority
  pub timestamp : ℕ

-- `Event::new`, at the time in seconds.
abbrev pub new_event : String → List ℕ → ℕ → Event
new_event name bytes now = record {
  name = name;
  data_bytes = bytes;
  priority = normal;
  timestamp = now;
}

abbrev pub with_priority : Event → EventPriority → Event
with_priority event p = record event { priority = p }

-- `subscriptions`: for each event the names of its subscribers.
pub record EventBus : Type 0 where
  pub subscriptions : HashMap String (List String)

abbrev pub new : EventBus
new = record { subscriptions = [] }

-- `unwrap_or_default` on the subscribers of an event.
abbrev pub or_empty : Option (List String) → List String
or_empty none = []
or_empty (some names) = names

unfoldable pub get_subscribers : EventBus → String → List String
get_subscribers bus event = or_empty (lookup event bus.subscriptions)

-- `entry(event).or_insert_with(Vec::new).push(plugin)`.
unfoldable pub subscribe : EventBus → String → String → EventBus
unfolding get_subscribers
subscribe bus event plugin = record {
  subscriptions = insert event (get_subscribers bus event ++ plugin ∷ []) bus.subscriptions;
}

abbrev pub update_subscribers : EventBus → String → String → Option (List String) → EventBus
update_subscribers bus event plugin none = bus
update_subscribers bus event plugin (some names) = record {
  subscriptions = insert event (retain (λ name. not (name == plugin)) names) bus.subscriptions;
}

unfoldable pub unsubscribe : EventBus → String → String → EventBus
unsubscribe bus event plugin = update_subscribers bus event plugin (lookup event bus.subscriptions)

abbrev pub clear : EventBus → EventBus
clear bus = record { subscriptions = [] }

abbrev pub event_count : EventBus → ℕ
event_count bus = length bus.subscriptions

-- The loop of `register` over the subscribed events.
unfoldable pub subscribe_all : EventBus → List String → String → EventBus
subscribe_all bus [] plugin = bus
subscribe_all bus (event ∷ events) plugin = subscribe_all (subscribe bus event plugin) events plugin
