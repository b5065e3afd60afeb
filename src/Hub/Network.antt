-- ===== src/Hub/Network.antt =====
-- The connections of hub-esp32/hub-esp32.ino: `mqttReconnect`, `checkNetwork` and `WiFiEvent`. What
-- PubSubClient and WiFi answer, and the time, are parameters.
pub mod Reconnect
pub mod Spacing
mod Tests
use sensaurus.Prelude.{
  ℕ, zero, suc, ◌+◌, ◌-◌, ◌*◌, ◌/◌, ◌^◌, Bool, true, false, not, ◌&&◌, ◌||◌, List, [], ◌∷◌, ◌++◌,
  Option, none, some, ltb, leb, ◌==◌, if◌then◌else◌, Text, codes, u32,
}
use sensaurus.CText.{c_str, strcpy}
use sensaurus.Config.{Config}

abbrev pub max_mqtt_connect_retries : ℕ
max_mqtt_connect_retries = 3

abbrev pub mqtt_reconnect_interval : ℕ
mqtt_reconnect_interval = 20000

abbrev pub wifi_last_connected_retry_freshold : ℕ
wifi_last_connected_retry_freshold = 15000

-- The build flavors, and whether ENABLE_BLE is defined in a flavor.
pub data Flavor : Type 0 where
  aws_no_ble aws_ble mqtt_ble : Flavor

unfoldable pub has_ble : Flavor → Bool
has_ble aws_no_ble = false
has_ble aws_ble = true
has_ble mqtt_ble = true

-- Whether ENABLE_AWS_IOT is defined in a flavor, or else ENABLE_MQTT.
unfoldable pub uses_aws : Flavor → Bool
uses_aws aws_no_ble = true
uses_aws aws_ble = true
uses_aws mqtt_ble = false

-- The globals of the connections; times are in milliseconds, on 32 bits. Each topic name has an
-- array of 100 characters.
pub record Network : Type 0 where
  pub pubsub_enabled : Bool
  pub wifi_connected : Bool
  pub last_wifi_connected : ℕ
  pub last_mqtt_connection_attempt : ℕ
  pub last_wifi_connection_attempt : ℕ
  pub command_topic_name : List ℕ
  pub actuators_topic_name : List ℕ

-- The difference of two times.
abbrev pub since : ℕ → ℕ → ℕ
since time earlier = u32 (time + 2 ^ 32 - earlier)

pub data WifiEvent : Type 0 where
  ap_start sta_start sta_connected ap_sta_got_ip6 sta_lost_ip : WifiEvent
  sta_got_ip sta_disconnected other_event : WifiEvent

-- `WiFiEvent`, at a time.
unfoldable pub wifi_event : ℕ → Network → WifiEvent → Network
wifi_event time s sta_got_ip = record s { wifi_connected = true; last_wifi_connected = time }
wifi_event time s sta_disconnected = record s { wifi_connected = false }
wifi_event time s ap_start = s
wifi_event time s sta_start = s
wifi_event time s sta_connected = s
wifi_event time s ap_sta_got_ip6 = s
wifi_event time s sta_lost_ip = s
wifi_event time s other_event = s

-- A topic of the hub.
abbrev pub topic : Config → Text → Text
topic config name = c_str config.owner_id ++ codes "/hub/" ++ c_str config.hub_id ++ name

-- What the libraries answer during one call of `mqttReconnect`: before and at its `k`-th attempt,
-- and to the two subscriptions.
pub record Answers : Type 0 where
  pub connected : ℕ → Bool
  pub wifi_status : ℕ → Bool
  pub connect : ℕ → Bool
  pub subscribe_command : Bool
  pub subscribe_actuators : Bool

-- Behind a connection: the topic names are written, `none` where one does not fit its array, and
-- subscribed to, the second only if the first succeeds. The topics are those asked for.
unfoldable pub subscribe_topics : Config → Answers → Network → Option (Bool × Network × List Text)
subscribe_topics config a s = elim (strcpy s.command_topic_name (topic config (codes "/command"))) [
  | none ↦ none
  | some command ↦ elim (strcpy s.actuators_topic_name (topic config (codes "/actuators"))) [
    | none ↦ none
    | some actuators ↦
        let named = record s { command_topic_name = command; actuators_topic_name = actuators } in
        some (
          if a.subscribe_command
          then (a.subscribe_actuators, named, c_str command ∷ c_str actuators ∷ [])
          else (false, named, c_str command ∷ []))
  ]
]

-- The outcome of the loop: its result, the globals, the topics asked for and the connections
-- tried.
pub record Outcome : Type 0 where
  pub success : Bool
  pub network : Network
  pub topics : List Text
  pub tries : ℕ

-- The loop of `mqttReconnect` with `retries` attempts made; `none` is an array overrun, or that
-- the fuel is used up.
unfoldable pub reconnect_loop : Config → Answers → Network → ℕ → ℕ → Option Outcome
unfolding subscribe_topics
reconnect_loop config a s zero retries = none
reconnect_loop config a s (suc fuel) retries =
    let again = reconnect_loop config a s fuel (retries + 1) in
    let stop =
      λ (tries : ℕ). some (record { success = false; network = s; topics = []; tries = tries }) in
    if a.connected retries
    then stop retries
    else if not (a.wifi_status retries)
    then stop retries
    else if a.connect retries
    then elim (subscribe_topics config a s) [
      | none ↦ none
      | some (success, named, topics) ↦
          some (record { success = success; network = named; topics = topics; tries = retries + 1 })
    ]
    else if leb max_mqtt_connect_retries (retries + 1)
    then stop (retries + 1)
    else again

-- `mqttReconnect`: three rounds are enough.
unfoldable pub mqtt_reconnect : Config → Answers → Network → Option Outcome
unfolding reconnect_loop
mqtt_reconnect config a s = reconnect_loop config a s 3 0

-- What one call of `checkNetwork` sees of the libraries: whether the client is connected, in its
-- `connected` and its `state`, the status of WiFi, whether a DNS lookup succeeds, and the times
-- that `millis` returns.
pub record Sight : Type 0 where
  pub client_connected : Bool
  pub state_connected : Bool
  pub wifi_up : Bool
  pub dns_up : Bool
  pub time : ℕ
  pub dns_time : ℕ
  pub end_time : ℕ
  pub answers : Answers

-- `checkNetwork` with ENABLE_MQTT; true for a restart of WiFi.
unfoldable pub check_network : Config → Sight → Network → Option (Network × Bool)
check_network config e s =
    let lost = not e.client_connected || not e.state_connected in
    let due = ltb mqtt_reconnect_interval (since e.time s.last_mqtt_connection_attempt) in
    let settled = ltb wifi_last_connected_retry_freshold (since e.dns_time s.last_wifi_connected) in
    let delay_reconnect = if e.wifi_up then settled && not e.dns_up else true in
    if s.pubsub_enabled && lost && due
    then (if delay_reconnect
        then some (
          record s { last_mqtt_connection_attempt = u32 (s.last_mqtt_connection_attempt + 15000) },
          true,
        )
        else elim (mqtt_reconnect config e.answers s) [
          | none ↦ none
          | some outcome ↦
              some (record outcome.network { last_mqtt_connection_attempt = e.end_time }, false)
        ])
    else some (s, false)

-- `checkNetwork` with ENABLE_AWS_IOT: the level of the status LED, and true for a restart of WiFi.
unfoldable pub check_network_aws : ℕ → Bool → Network → Network × ℕ × Bool
check_network_aws time wifi_up s =
    let level = if not (time / 2 ^ 5 == 0) then 200 else 0 in
    let due = ltb 15000 (since time s.last_wifi_connection_attempt) in
    if wifi_up
    then (s, 70, false)
    else if due
    then (record s { last_wifi_connection_attempt = time }, level, true)
    else (s, level, false)
