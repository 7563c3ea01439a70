-- ===== src/Net/Engine/Devices.antt =====
-- The engine's table of devices, src/crates/bey-net/src/engine.rs: the task of
-- start_device_discovery_listener, perform_authentication, cleanup_devices, the queries, and
-- connect_to_device. What mDNS finds, the certificate manager with its verification, and the
-- fingerprint of a certificate are arguments, and so is the clock, in milliseconds.
mod Discovering
mod Strangers
mod Tests
use bey.Base.{
  ℕ, ◌-◌, ◌/◌, ltb, Bool, true, false, not, if◌then◌else◌, Option, none, some, List, [], ◌∷◌,
  length, retain, String, string_eq, ◌==◌, HashMap, lookup, insert, names,
}
use bey.Base.Errors.{NetResult, ok, err, panics, ◌>>=◌, network, configuration, authentication}
use bey.Net.Engine.Session.{Session, Answers, EngineConfig, connect_to}
use bey.Net.Engine.Crypto.{KeySource, derive_master_key, fault}
use bey.Net.Engine.Sending.{Engine, DeviceEntry, SocketAddr, Answer, problem}

-- The fields of `MdnsServiceInfo` that the engine reads.
pub record Service : Type 0 where
  pub service_name : String
  pub addresses : List String
  pub port : ℕ

abbrev pub Devices : Type 0
Devices = HashMap String DeviceEntry

abbrev pub socket_addrs : ℕ → List String → List SocketAddr
socket_addrs port [] = []
socket_addrs port (ip ∷ ips) = (ip, port) ∷ socket_addrs port ips

-- The entry of a device that was found, from the entry there is.
abbrev pub sighted : Service → ℕ → Option DeviceEntry → DeviceEntry
sighted service now none = record {
  name = service.service_name;
  addresses = socket_addrs service.port service.addresses;
  authenticated = false;
  cert_fingerprint = none;
  last_seen = now;
}
sighted service now (some entry) = record entry {
  addresses = socket_addrs service.port service.addresses;
  last_seen = now;
}

-- Each service with the reading of the clock that goes with it.
abbrev pub see_all : List (Service × ℕ) → Devices → Devices
see_all [] devices = devices
see_all ((service, now) ∷ found) devices = see_all found (
    insert service.service_name (sighted service now (lookup service.service_name devices)) devices)

-- Seen no more than 30 whole seconds ago; a clock that has gone back keeps the entry too.
abbrev pub is_fresh : ℕ → String × DeviceEntry → Bool
is_fresh now (name, entry) = not (ltb 30 ((now - entry.last_seen) / 1000))

-- A round of the task of start_device_discovery_listener: what the query answers, and the reading
-- of the clock before the old entries are dropped.
unfoldable pub discover : NetResult (List (Service × ℕ)) → ℕ → Engine → Engine
discover (ok found) now e = record e {
  discovered_devices = retain (is_fresh now) (see_all found e.discovered_devices);
}
discover (err cause) now e = e
discover panics now e = e

unfoldable pub cleanup_devices : ℕ → Engine → Engine × ℕ
cleanup_devices now e =
    let kept = retain (is_fresh now) e.discovered_devices in
    (record e { discovered_devices = kept }, length e.discovered_devices - length kept)

abbrev pub list_discovered_devices : Engine → List String
list_discovered_devices e = names e.discovered_devices

abbrev pub addresses_of : Option DeviceEntry → Option (List SocketAddr)
addresses_of none = none
addresses_of (some entry) = some entry.addresses

abbrev pub get_device_addresses : Engine → String → Option (List SocketAddr)
get_device_addresses e device_name = addresses_of (lookup device_name e.discovered_devices)

abbrev pub is_authenticated : String × DeviceEntry → Bool
is_authenticated (name, entry) = entry.authenticated

-- How many devices there are, and how many of them are authenticated.
unfoldable pub connection_stats : Engine → ℕ × ℕ
connection_stats e =
    (length e.discovered_devices, length (retain is_authenticated e.discovered_devices))

-- What the certificate manager answers on the validity of a certificate, and its fingerprint.
pub record Verifier : Type 0 where
  pub verify : String → NetResult Bool
  pub fingerprint : String → String

abbrev pub certificate_of : Option (NetResult (Option String)) → NetResult String
certificate_of none = err (fault 4318 configuration)
certificate_of (some (ok (some pem))) = ok pem
certificate_of (some (ok none)) = err (fault 4323 authentication)
certificate_of (some (err cause)) = err (fault 4319 authentication)
certificate_of (some panics) = panics

abbrev pub validated : NetResult Bool → String → NetResult String
validated (ok true) fingerprint = ok fingerprint
validated (ok false) fingerprint = err (fault 4321 authentication)
validated (err cause) fingerprint = err (fault 4320 authentication)
validated panics fingerprint = panics

abbrev pub mark : String → SocketAddr → ℕ → String → Option DeviceEntry → DeviceEntry
mark name remote_addr now fingerprint none = record {
  name = name;
  addresses = remote_addr ∷ [];
  authenticated = true;
  cert_fingerprint = some fingerprint;
  last_seen = now;
}
mark name remote_addr now fingerprint (some entry) = record entry {
  authenticated = true;
  cert_fingerprint = some fingerprint;
}

abbrev pub keep_key : Engine → NetResult (List ℕ) → Answer
keep_key e (ok key) = (record e { master_key = some key }, ok tt)
keep_key e (err cause) = (e, err cause)
keep_key e panics = (e, panics)

abbrev pub ensure_key : KeySource → Engine → Option (List ℕ) → Answer
ensure_key source e (some key) = (e, ok tt)
ensure_key source e none = keep_key e (derive_master_key source)

abbrev pub admit : KeySource → SocketAddr → ℕ → Engine → NetResult String → Answer
admit source remote_addr now e (ok fingerprint) =
    ensure_key source
      (record e {
        discovered_devices =
            insert e.name
              (mark e.name remote_addr now fingerprint (lookup e.name e.discovered_devices))
              e.discovered_devices;
      })
      e.master_key
admit source remote_addr now e (err cause) = (e, err cause)
admit source remote_addr now e panics = (e, panics)

unfoldable pub perform_authentication : Verifier → KeySource → SocketAddr → ℕ → Engine → Answer
perform_authentication verifier source remote_addr now e = admit source remote_addr now e (
    certificate_of source.certificate >>= λ pem.
    validated (verifier.verify pem) (verifier.fingerprint pem))

abbrev pub find_service : String → List Service → Option Service
find_service device_name [] = none
find_service device_name (service ∷ services) =
    let rest = find_service device_name services in
    if service.service_name == device_name then some service else rest

abbrev pub first_address : Option Service → NetResult SocketAddr
first_address none = err (problem 4327)
first_address (some service) = elim service.addresses [
  | [] ↦ err (problem 4328)
  | ip ∷ _ ↦ ok (ip, service.port)
]

-- No answer is an engine without mDNS.
abbrev pub resolve_device : Option (NetResult (List Service)) → String → NetResult SocketAddr
resolve_device none device_name = err (fault 4329 configuration)
resolve_device (some (ok services)) device_name = first_address (find_service device_name services)
resolve_device (some (err cause)) device_name = err (fault 4326 network)
resolve_device (some panics) device_name = panics

abbrev pub connect_resolved :
    EngineConfig → (SocketAddr → Answers) → (ℕ → ℕ) → NetResult SocketAddr → Session (Unit {0})
connect_resolved config answers clock (ok device_addr) machine =
    connect_to config (answers device_addr) clock machine
connect_resolved config answers clock (err cause) machine = (machine, err cause)
connect_resolved config answers clock panics machine = (machine, panics)

-- `answers` gives what the transport and the authentication answer for an address.
unfoldable pub connect_to_device :
    EngineConfig
    → (SocketAddr → Answers)
    → (ℕ → ℕ)
    → Option (NetResult (List Service))
    → String
    → Session (Unit {0})
connect_to_device config answers clock found device_name =
    connect_resolved config answers clock (resolve_device found device_name)
