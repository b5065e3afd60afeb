-- ===== src/Hub/Network/Tests.antt =====
-- The connections at concrete answers.
use sensaurus.Prelude.{◌≤◌, ◌≡◌, refl, arith, true, false, ◌++◌, none, some, ◌==◌, replicate}
use sensaurus.CText.{c_str}
use sensaurus.Config.{Config}
use sensaurus.Config.Sample.{blank_config}
use sensaurus.Hub.Sample.{offline}
use sensaurus.Hub.Network.{Answers, Outcome, mqtt_reconnect, Sight}
use sensaurus.Hub.Network.Reconnect.{
  TopicsFit, Subscribed, mqtt_reconnect_ends, mqtt_reconnect_overrun,
}

-- The second attempt succeeds.
abbrev second_try : Answers
second_try = record {
  connected = λ _. false;
  wifi_status = λ _. true;
  connect = λ k. k == 1;
  subscribe_command = true;
  subscribe_actuators = true;
}

abbrev long_ids : Config
long_ids = record blank_config {
  owner_id = replicate 45 b'1' ++ replicate 19 0;
  hub_id = replicate 45 b'2' ++ replicate 19 0;
}

blank-TopicsFit : TopicsFit blank_config offline
unfolding c_str
blank-TopicsFit = record {
  command_size = refl;
  actuators_size = refl;
  command_fits = omega arith;
  actuators_fit = omega arith;
}

mqtt_reconnect_ends_example :
    (o : Outcome) × (mqtt_reconnect blank_config second_try offline ≡ some o)
    × (o.tries ≤ 3)
    × (o.success ≡ true → Subscribed blank_config o)
mqtt_reconnect_ends_example = mqtt_reconnect_ends blank_config second_try offline blank-TopicsFit

mqtt_reconnect_overrun_example : mqtt_reconnect long_ids second_try offline ≡ none
unfolding c_str
mqtt_reconnect_overrun_example =
    mqtt_reconnect_overrun long_ids second_try offline 1 (omega arith) refl (omega arith)
      (λ j le. (refl, refl)) (λ j lt. ground arith) refl

abbrev down : Sight
down = record {
  client_connected = false;
  state_connected = false;
  wifi_up = false;
  dns_up = false;
  time = 49994;
  dns_time = 49994;
  end_time = 50100;
  answers = second_try;
}

abbrev up : Sight
up = record down { wifi_up = true; dns_up = true }
