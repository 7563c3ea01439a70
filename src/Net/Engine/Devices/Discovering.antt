-- ===== src/Net/Engine/Devices/Discovering.antt =====
-- What a round of the discovery leaves in the engine's table (src/crates/bey-net/src/engine.rs).
use bey.Base.{
  ℕ, ◌≡◌, if◌then◌else◌, Option, none, some, List, [], ◌∷◌, String, string_eq, ◌==◌, lookup,
}
use bey.Net.Engine.Sending.{Engine, DeviceEntry}
use bey.Net.Engine.Devices.{Service, Devices, sighted}

abbrev or_else : Option (Service × ℕ) → Option (Service × ℕ) → Option (Service × ℕ)
or_else none o = o
or_else (some x) o = some x

-- The last service of a name, with its time.
unfoldable pub latest : String → List (Service × ℕ) → Option (Service × ℕ)
latest name [] = none
latest name ((service, now) ∷ found) =
    or_else (latest name found) (if service.service_name == name then some (service, now) else none)

-- The entry of a name, from the last service of that name and the entry before.
abbrev pub entry_after : Option (Service × ℕ) → Option DeviceEntry → Option DeviceEntry
entry_after none before = before
entry_after (some (service, now)) before = some (sighted service now before)

-- A service found under a name has it.
Carries : String → Option (Service × ℕ) → Type 0
Carries name none = Unit
Carries name (some (service, now)) = service.service_name ≡ name

-- The first service of those found, and then the last one of the others.
module _ (name : String) (service : Service) (now : ℕ) (devices : Devices) where
  abbrev first_entry : DeviceEntry
  first_entry = sighted service now (lookup service.service_name devices)
