-- ===== src/Tests/HaMqtt.antt =====
-- bridge/internal/hamqtt at a concrete input.
use ajax_bridge.Prelude.{
  true, none, some, [], ◌∷◌, ◌++◌, Bytes, codes, ◌≡◌, refl, List, arith, if◌then◌else◌, eqb,
}
use ajax_bridge.Integer.{pos}
use ajax_bridge.Dict.{get}
use ajax_bridge.State.Accounts.{Account, fresh_account}
use ajax_bridge.State.Zones.{Zone, fresh_zone}
use ajax_bridge.DeviceCatalog.{one_of}
use ajax_bridge.HaMqtt.Topics.{Config}
use ajax_bridge.HaMqtt.Entities.{keys}
use ajax_bridge.HaMqtt.Plans.{zone_plan, zone_discovery_signature}
use ajax_bridge.HaMqtt.Plans.Stable.{zone_plan-reordered}
use ajax_bridge.HaMqtt.Publish.{Publisher, Outside, publish_account, publish_zone, publish_update}
use ajax_bridge.HaMqtt.Publish.Truth.{IsTrue, publish_update-IsTrue}
use ajax_bridge.HaMqtt.Publish.Steps.{
  Update, Step, updated, told, replayed, publish_steps, publish_account-older,
}

abbrev config : Config
config = record {
  source_id = [];
  broker = codes "tcp://mosquitto:1883";
  username = [];
  password = [];
  client_id = codes "ajaxbridge";
  topic_prefix = codes "ajaxbridge";
  discovery = true;
  discovery_prefix = codes "homeassistant";
  home_assistant_status_topic = codes "homeassistant/status";
  home_assistant_online_payload = codes "online";
  timeout = 10;
  retain = true;
}

abbrev fresh : Publisher
fresh = record {
  cfg = config;
  discovered = [];
  published_states = [];
  account_plans = [];
  zone_plans = [];
  state_gates = [];
  attempts = [];
}

-- A client that takes every message but those on one topic, and payloads by name.
abbrev client_outside : Outside
client_outside = record {
  clock = record { rfc3339 = λ t. codes "2024-01-01T00:00:00Z"; unix = λ t. pos t };
  discovery_json = λ c. c.unique_id;
  zone_json = λ z. z.zone ++ z.last_event_code;
  account_json = λ a. a.account ++ a.mode;
  zone_attributes_json = λ z. z.zone;
  account_attributes_json = λ a. a.account;
  client = λ attempts topic payload retain.
      if eqb topic (codes "ajaxbridge/accounts/1234/state") then some (codes "timeout") else none;
}

abbrev hall : Zone
hall = record (fresh_zone (codes "1234") (codes "7")) {
  device_events = codes "tamper" ∷ codes "battery" ∷ [];
}

fresh-IsTrue : IsTrue fresh
unfolding get
fresh-IsTrue = record { states = λ t v h. ground arith; discoveries = λ t v h. ground arith }

publish_update-IsTrue_example :
    IsTrue
      (publish_update client_outside none true 5
        (fresh_account (codes "1234") ∷ [])
        (hall ∷ [])
        fresh).1
publish_update-IsTrue_example =
    publish_update-IsTrue client_outside none true 5 (fresh_account (codes "1234") ∷ []) (hall ∷ [])
      fresh fresh-IsTrue

abbrev next_update : Update
next_update = record {
  stopped = none;
  connected = true;
  revision = 8;
  accounts = fresh_account (codes "1234") ∷ [];
  zones = hall ∷ [];
}

-- An update, a message of another part, and a replay after a new connection.
abbrev calls : List Step
calls =
    updated next_update
    ∷ told (codes "ajaxbridge/jeedom") (codes "1") true
    ∷ replayed none (next_update ∷ [])
    ∷ []

abbrev armed : Account
armed = record (fresh_account (codes "1234")) { mode = codes "armed" }

abbrev signalled : Zone
signalled = record hall { last_signal = codes "tamper" }

publish_account-older_example :
    let account_after =
      publish_steps client_outside calls
        (publish_account client_outside 7 (fresh_account (codes "1234")) fresh).1 in
    let zone_after =
      publish_steps client_outside calls (publish_zone client_outside 7 hall fresh).1 in
    (publish_account client_outside 6 armed account_after ≡ (none, account_after))
    × (publish_zone client_outside 6 signalled zone_after ≡ (none, zone_after))
publish_account-older_example =
    publish_account-older client_outside 6 7 (fresh_account (codes "1234")) armed hall signalled
      calls fresh (omega arith) refl refl refl

swapped :
    (k : Bytes)
    → one_of k (hall.device_events ++ keys hall.signal_active)
      ≡ one_of k ((codes "battery" ∷ []) ++ keys ((codes "tamper", true) ∷ []))
swapped k = ground arith

zone_plan-reordered_example :
    let w = record hall {
      device_events = codes "battery" ∷ [];
      signal_active = (codes "tamper", true) ∷ [];
    } in
    zone_plan config (λ c. c.unique_id) (zone_discovery_signature hall) hall
    ≡ zone_plan config (λ c. c.unique_id) (zone_discovery_signature w) w
zone_plan-reordered_example =
    zone_plan-reordered config (λ c. c.unique_id) hall (codes "battery" ∷ [])
      ((codes "tamper", true) ∷ []) swapped
