-- ===== src/Hub/Sample.antt =====
-- A hub without devices, one with a device at its first plug, and the globals at the start.
use sensaurus.Prelude.{ℕ, false, true, [], ◌∷◌, replicate}
use sensaurus.Config.Sample.{blank_config}
use sensaurus.ProcessingQueue.Sample.{list_fifo}
use sensaurus.SensaurDevice.{Component, blank_component, Device}
use sensaurus.Hub.{Hub}
use sensaurus.Hub.Network.{Network}
use sensaurus.Hub.Control.{Control}

abbrev pub quiet_hub : Hub ℕ
quiet_hub = record {
  devices = [];
  dev_stream = [];
  config = blank_config;
  err_last_ts = 0;
  err_count = 0;
  err_last_error_code = 0;
  mqtt_out_count = 0;
  events = [];
}

abbrev pub offline : Network
offline = record {
  pubsub_enabled = true;
  wifi_connected = true;
  last_wifi_connected = 0;
  last_mqtt_connection_attempt = 4294967290;
  last_wifi_connection_attempt = 0;
  command_topic_name = replicate 100 0;
  actuators_topic_name = replicate 100 0;
}

abbrev pub fresh_control : Control ℕ list_fifo.Queue
fresh_control = record {
  hub = quiet_hub;
  eeprom = blank_config;
  network = offline;
  queue = ([], 10);
  console_message = replicate 40 0;
  console_message_index = 0;
  poll_interval = 1000;
  last_poll_time = 0;
  send_interval = 0;
  last_send_time = 0;
  last_epoch_seconds = 0;
  last_time_update = 0;
  last_memory_display = 0;
  config_mode = false;
  mqtt_in_count = 0;
  ble_mode = 0;
  sw_reboot = 0;
}

abbrev pub input : Component ℕ
input = record (blank_component 0) { dir = b'i' }

abbrev pub thermometer : Device ℕ
thermometer = record {
  version = replicate 10 0;
  id = replicate 38 0;
  connected = true;
  component_count = 2;
  no_response_count = 1;
  error_count = 2;
  components = input ∷ blank_component 0 ∷ replicate 4 (blank_component 0);
}

abbrev pub small_hub : Hub ℕ
small_hub = record {
  devices = thermometer ∷ [];
  dev_stream = [];
  config = blank_config;
  err_last_ts = 0;
  err_count = 0;
  err_last_error_code = 0;
  mqtt_out_count = 0;
  events = [];
}
