-- ===== src/Hub/Report/Tests.antt =====
-- What is told of a hub with one connected device.
use sensaurus.Prelude.{
  Bool, ltb, ℕ, ◌≡◌, refl, arith, List, All, ◌≤◌, ◌+◌, length, true, [], ◌∷◌, ◌++◌, Text, codes,
}
use sensaurus.CText.{c_str, text_eq}
use sensaurus.Config.{Config}
use sensaurus.Config.Sample.{blank_config}
use sensaurus.SensaurDevice.{Component, Device}
use sensaurus.Hub.Publish.Pieces.{join_pieces}
use sensaurus.Hub.Report.{hub_topic, device_info_messages, sensor_values}
use sensaurus.Hub.Report.Messages.{entries, with_commas, hub_messages, device_info_messages_lem}
use sensaurus.Hub.Report.Values.{Fresh, readings, sensor_values_lem}
use sensaurus.Hub.Report.Status.{Value, Moment, Tells, send_status_now, send_status_lem}
use sensaurus.Hub.Sample.{thermometer, input, fresh_control}

abbrev wifi_config : Config
wifi_config = record blank_config { wifi_enabled = true }

abbrev plug : ℕ → Text
plug n = codes "1"

abbrev info : Component ℕ → Text
info c = codes "{}"

device_info_messages_lem_example :
    device_info_messages plug info wifi_config (thermometer ∷ [])
    ≡ hub_messages plug info wifi_config refl 1 (thermometer ∷ [])
      ++ (
        hub_topic wifi_config (codes "/devices"),
        codes "{"
            ++ with_commas (entries plug info wifi_config refl 1 (thermometer ∷ []))
            ++ codes "}",
      )
        ∷ []
device_info_messages_lem_example =
    device_info_messages_lem plug info wifi_config refl (thermometer ∷ [])

-- Two components with different suffixes.
abbrev two_sensors : Device ℕ
two_sensors = record thermometer {
  components = record input { id_suffix = b't' ∷ 0 ∷ [] } ∷ input ∷ [];
}

-- A document with room for three members.
abbrev room : List (Text × ℕ) → Text → Bool
room members key = ltb (length members) 3

two_sensors-Fresh : Fresh room [] (readings length (two_sensors ∷ []))
unfolding text_eq c_str
two_sensors-Fresh = ((tt, refl), (((refl, tt), refl), tt))

sensor_values_lem_example :
    sensor_values room length (two_sensors ∷ []) ([], 0)
    ≡ (readings length (two_sensors ∷ []), length (readings length (two_sensors ∷ [])))
sensor_values_lem_example = sensor_values_lem room length (two_sensors ∷ []) two_sensors-Fresh

-- Two components with the same suffix: one member, but two values told.
collision : sensor_values room length (thermometer ∷ []) ([], 0) ≡ ((b'-' ∷ [], 0) ∷ [], 2)
unfolding sensor_values text_eq c_str
collision = refl

-- The names of the members.
abbrev names : List (Text × Value) → Text
names [] = []
names ((name, v) ∷ members) = name ++ b' ' ∷ names members

abbrev now : Moment
now = record {
  local_ip = codes "10.0.0.2";
  built = codes "today";
  uptime = 90000;
  boot_time_epoch = 1570000000;
  error_time = 90001;
  wifi_status = 3;
  client = record {
    connected = true;
    begin_publish = true;
    writes = λ k. true;
    end_publish = true;
  };
}

send_status_lem_example :
    (pieces : List Text) × ((send_status_now plug names 50 now fresh_control).1
      ≡ (hub_topic fresh_control.hub.config (codes "/status"), pieces) ∷ [])
    × ((members : List (Text × Value)) × (join_pieces pieces ≡ names members)
        × Tells now fresh_control members)
    × All (λ p. length p ≤ 50) pieces
    × ((send_status_now plug names 50 now fresh_control).0.hub.mqtt_out_count ≡ 0 + 1)
    × ((send_status_now plug names 50 now fresh_control).0.hub.err_count ≡ 0)
send_status_lem_example =
    send_status_lem plug names 50 now fresh_control refl refl refl refl (λ k. refl) (omega arith)
