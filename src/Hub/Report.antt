-- ===== src/Hub/Report.antt =====
-- What hub-esp32/hub-esp32.ino publishes of its devices and of itself: `sendDeviceInfo`,
-- `sendSensorValues` and `sendStatus`. What ArduinoJson writes and `atof` reads are parameters.
pub mod Messages
pub mod Values
pub mod Status
mod Tests
use sensaurus.Prelude.{
  ℕ, zero, suc, ◌+◌, ◌-◌, Bool, true, false, List, [], ◌∷◌, ◌++◌, ◌==◌, if◌then◌else◌, Option, none,
  some, Text, codes,
}
use sensaurus.CText.{c_str, text_eq}
use sensaurus.Config.{Config}
use sensaurus.SensaurDevice.{Component, Device}
use sensaurus.Hub.{Hub}
use sensaurus.Hub.Publish.{MqttClient, hub_publish}

-- A topic below the owner of the hub.
abbrev pub hub_topic : Config → Text → Text
hub_topic config name = c_str config.owner_id ++ codes "/hub/" ++ c_str config.hub_id ++ name

-- The message that tells a device's hub.
abbrev pub hub_message : {Float : Type 0} → Config → Device Float → Text × Text
hub_message config d = (
  c_str config.owner_id ++ codes "/device/" ++ c_str d.id,
  codes "{\"hub_id\":\"" ++ c_str config.hub_id ++ codes "\"}",
)

module _ {Float : Type 0} (dec : ℕ → Text) (info_json : Component Float → Text) where
  -- The infos of the first `n` components, from the `j`-th on, with commas between them.
  unfoldable pub component_infos : List (Component Float) → ℕ → ℕ → Text
  component_infos [] n j = []
  component_infos (c ∷ cs) zero j = []
  component_infos (c ∷ cs) (suc n) j =
      (if j == 0 then [] else codes ",") ++ (info_json c ++ component_infos cs n (j + 1))

  -- The member of the list of devices for the device at the plug `i`, counted from 0.
  unfoldable pub device_entry : ℕ → Device Float → Text
  unfolding component_infos
  device_entry i d =
      codes "\""
      ++ c_str d.id
      ++ codes "\":{\"version\":"
      ++ c_str d.version
      ++ codes ", \"plug\":"
      ++ dec (i + 1)
      ++ codes ", \"components\": ["
      ++ component_infos d.components d.component_count 0
      ++ codes "]}"

  -- The loop of `sendDeviceInfo` from the `i`-th device on: what is added to the list of devices,
  -- the messages, and the number of connected devices.
  unfoldable pub describe_devices :
      Config → ℕ → Bool → List (Device Float) → Text × List (Text × Text) × ℕ
  unfolding device_entry
  describe_devices config i first [] = ([], [], 0)
  describe_devices config i first (d ∷ ds) =
      let next = describe_devices config (i + 1) (if d.connected then false else first) ds in
      if d.connected
      then (
        (if first then [] else codes ",") ++ (device_entry i d ++ next.0),
        (if config.wifi_enabled then hub_message config d ∷ next.1 else next.1),
        next.2 + 1,
      )
      else next

  -- The messages of `sendDeviceInfo`, each with its topic.
  unfoldable pub device_info_messages : Config → List (Device Float) → List (Text × Text)
  unfolding describe_devices
  device_info_messages config devices =
      let (json, messages, count) = describe_devices config 0 true devices in
      if config.wifi_enabled
      then messages ++ (hub_topic config (codes "/devices"), codes "{" ++ json ++ codes "}") ∷ []
      else messages

module _ {Float : Type 0} where
  -- Publish messages one after another, the `k`-th with what the client answers then.
  unfoldable pub publish_all :
      Hub Float → ℕ → ℕ → (ℕ → MqttClient) → ℕ → List (Text × Text) → Hub Float
  unfolding hub_publish
  publish_all s time max clients k [] = s
  publish_all s time max clients k ((name, message) ∷ messages) =
      publish_all (hub_publish s time (clients k) max message).1 time max clients (k + 1) messages

  -- `sendDeviceInfo`, at a time.
  unfoldable pub send_device_info_now :
      (ℕ → Text) → (Component Float → Text) → Hub Float → ℕ → ℕ → (ℕ → MqttClient) → Hub Float
  unfolding publish_all device_info_messages
  send_device_info_now dec info_json s time max clients =
      publish_all s time max clients 0 (device_info_messages dec info_json s.config s.devices)

-- `sendSensorValues` fills a document of a fixed capacity. `room` says whether the document with the
-- given members has room for one more of this name: what ArduinoJson needs for it is not modelled.
module _ {Float : Type 0} (room : List (Text × Float) → Text → Bool) where
  -- The member of that name gets the value, if there is one.
  unfoldable pub replace_member : List (Text × Float) → Text → Float → Option (List (Text × Float))
  replace_member [] key v = none
  replace_member ((k, w) ∷ members) key v =
      let rest = replace_member members key v in
      if text_eq k key
      then some ((k, v) ∷ members)
      else elim rest [ none ↦ none | some others ↦ some ((k, w) ∷ others) ]

  -- `doc[key] = value`: a new member is dropped where the document has no room for it.
  unfoldable pub put_member : List (Text × Float) → Text → Float → List (Text × Float)
  unfolding replace_member
  put_member members key v = elim (replace_member members key v) [
    | some replaced ↦ replaced
    | none ↦ if room members key then members ++ (key, v) ∷ [] else members
  ]

  -- The values of the first `n` components of a device, onto the members and the count so far.
  unfoldable pub put_values :
      (Text → Float)
      → Text
      → List (Component Float)
      → ℕ
      → List (Text × Float) × ℕ
      → List (Text × Float) × ℕ
  unfolding put_member
  put_values atof id [] n acc = acc
  put_values atof id (c ∷ cs) zero acc = acc
  put_values atof id (c ∷ cs) (suc n) acc =
      put_values atof id cs n
        (put_member acc.0 (id ++ codes "-" ++ c_str c.id_suffix) (atof (c_str c.value)), acc.1 + 1)

  -- The members of the message of `sendSensorValues`, but for the time, and the number of values
  -- that it tells the console.
  unfoldable pub sensor_values :
      (Text → Float) → List (Device Float) → List (Text × Float) × ℕ → List (Text × Float) × ℕ
  unfolding put_values
  sensor_values atof [] acc = acc
  sensor_values atof (d ∷ ds) acc =
      sensor_values atof ds (
        if d.connected
        then put_values atof (c_str d.id) d.components d.component_count acc
        else acc)
