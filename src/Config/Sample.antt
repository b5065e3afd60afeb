-- ===== src/Config/Sample.antt =====
-- A configuration to try the hub with, as hub-esp32/sample_settings.h sets it over blank storage.
use sensaurus.Prelude.{true, false, replicate, codes}
use sensaurus.Config.{Config, Settings}

abbrev pub sample_settings : Settings
sample_settings = record {
  enable_console = true;
  enable_wifi = false;
  default_timeout = 50;
  default_owner = codes "123";
  default_hub = codes "45678";
  wifi_ssid = codes "network name";
  default_password = codes "password";
  default_mqtt_user = codes "mqttuser";
  default_mqtt_password = codes "mqttpw";
  default_mqtt_server = codes "mqttserver";
  default_mqtt_port = 1883;
  certificate = codes "XXXX";
  private_key = codes "YYYY";
}

abbrev pub blank_config : Config
blank_config = record {
  version = 0;
  console_enabled = false;
  wifi_enabled = false;
  wifi_network = replicate 64 0;
  wifi_password = replicate 64 0;
  response_timeout = 50;
  owner_id = replicate 64 0;
  hub_id = replicate 64 0;
  mqtt_server = replicate 128 0;
  mqtt_port = 0;
  mqtt_user = replicate 64 0;
  mqtt_password = replicate 64 0;
  thing_crt = replicate 1500 0;
  thing_private_key = replicate 2000 0;
}
