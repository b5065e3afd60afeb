-- ===== src/Hub/Start.antt =====
-- `setup` of hub-esp32/hub-esp32.ino, in each of the three build flavors. The start of pins, LEDs,
-- serial lines and updates over the air is left out. The second `rc`, which ENABLE_MQTT declares in the scope of
-- the first, is a variable of its own here.
pub mod Wifi
pub mod Ends
pub mod Runs
pub mod Button
mod Tests
use sensaurus.Prelude.{
  ℕ, zero, suc, ◌+◌, Bool, true, false, not, ◌&&◌, List, [], ◌∷◌, Option, none, some, replicate,
  leb, ◌==◌, if◌then◌else◌, Text,
}
use sensaurus.CheckStream.{check_stream}
use sensaurus.Config.{Config, Settings, init_config}
use sensaurus.ProcessingQueue.{QueueItem, Fifo, processing_queue}
use sensaurus.SensaurDevice.{device}
use sensaurus.Hub.{Hub, start_ble, send_status, emit, set_last_error, max_device_count}
use sensaurus.Hub.Network.{
  Flavor, has_ble, uses_aws, Network, WifiEvent, wifi_event, Answers, subscribe_topics,
  mqtt_reconnect,
}
use sensaurus.Hub.Control.{Control, tell, console_message_buf_len}
use sensaurus.Hub.Loop.{◌>>=◌, update_time}

abbrev pub max_wifi_retries : ℕ
max_wifi_retries = 3

abbrev pub freeze_error_wifi : ℕ
freeze_error_wifi = 1

abbrev pub freeze_error_ntp : ℕ
freeze_error_ntp = 2

abbrev pub freeze_error_mqtt_conn : ℕ
freeze_error_mqtt_conn = 3

abbrev pub freeze_error_mqtt_sub : ℕ
freeze_error_mqtt_sub = 4

abbrev pub err_aws_iot_connect : ℕ
err_aws_iot_connect = 2

-- How `setup` ends: in BLE mode, without WiFi, in `freezeWithError` with a code, which blinks for
-- ever, or ready.
pub data Started : Type 0 where
  ble_mode_on wifi_disabled ready : Started
  frozen : ℕ → Started

-- What `setup` meets: whether the reset was made by software, the mode that the memory has kept,
-- the EEPROM, the button, whether the `k`-th `WiFi.begin` connects, and behind it whether the `k`-th status
-- of WiFi is connected, with as much fuel as `patience` for that wait, the events of WiFi with their
-- times, the time server, the message server, and the time at which a connection to it has failed.
pub record Boot : Type 0 where
  pub software_reset : Bool
  pub kept_mode : ℕ
  pub stored : Config
  pub button_low : Bool
  pub begins : ℕ → Bool
  pub statuses : ℕ → Bool
  pub patience : ℕ
  pub wifi_events : List (ℕ × WifiEvent)
  pub updates : ℕ → Bool
  pub update_end : ℕ
  pub epoch : ℕ
  pub answers : Answers
  pub fail_time : ℕ

-- The loop that connects to WiFi, with `retries` made: whether it is connected; `none` where the
-- fuel is used up.
unfoldable pub wifi_rounds : (ℕ → Bool) → ℕ → ℕ → Option Bool
wifi_rounds begins zero retries = none
wifi_rounds begins (suc fuel) retries =
    let again = wifi_rounds begins fuel (retries + 1) in
    if begins retries then some true else if leb max_wifi_retries retries then some false else again

-- The wait behind a successful `WiFi.begin`, from the `k`-th status on: how often the status was
-- asked for; `none` where it has not been connected within the fuel, as where it never is.
unfoldable pub await_status : (ℕ → Bool) → ℕ → ℕ → Option ℕ
await_status statuses zero k = none
await_status statuses (suc fuel) k =
    let again = await_status statuses fuel (k + 1) in if statuses k then some (k + 1) else again

-- The events of WiFi, one after another.
unfoldable pub wifi_events_seen : List (ℕ × WifiEvent) → Network → Network
unfolding wifi_event
wifi_events_seen [] s = s
wifi_events_seen (event ∷ events) s = wifi_events_seen events (wifi_event event.0 s event.1)

-- The globals of the connections as they are initialised.
abbrev pub no_network : Network
no_network = record {
  pubsub_enabled = false;
  wifi_connected = false;
  last_wifi_connected = 0;
  last_mqtt_connection_attempt = 0;
  last_wifi_connection_attempt = 0;
  command_topic_name = replicate 100 0;
  actuators_topic_name = replicate 100 0;
}

-- `bleMode`, as the kind of the reset and, in a build with BLE, the button leave it.
unfoldable pub ble_mode_at : Flavor → Boot → ℕ
unfolding has_ble
ble_mode_at flavor e =
    let kept = if e.software_reset then e.kept_mode else 0 in
    if has_ble flavor && e.button_low then 1 else kept

-- The globals as they are initialised, with the configuration that `initConfig` loads.
unfoldable pub initial :
    {Float : Type 0}
    → (f : Fifo QueueItem) → Float
    → Flavor
    → Settings
    → Boot
    → Control Float f.Queue
unfolding init_config processing_queue ble_mode_at
initial f zero_value flavor d e = record {
  hub = record {
    devices = replicate max_device_count (device zero_value);
    dev_stream = replicate max_device_count check_stream;
    config = init_config d e.stored;
    err_last_ts = 0;
    err_count = 0;
    err_last_error_code = 0;
    mqtt_out_count = 0;
    events = [];
  };
  eeprom = e.stored;
  network = no_network;
  queue = processing_queue f;
  console_message = replicate console_message_buf_len 0;
  console_message_index = 0;
  poll_interval = 1000;
  last_poll_time = 0;
  send_interval = 0;
  last_send_time = 0;
  last_epoch_seconds = 0;
  last_time_update = 0;
  last_memory_display = 0;
  config_mode = false;
  mqtt_in_count = 0;
  ble_mode = ble_mode_at flavor e;
  sw_reboot = 0;
}

module _ {Float Queue : Type 0} where
  -- With ENABLE_AWS_IOT: the connection and the subscriptions, each of which freezes the hub where
  -- it fails.
  unfoldable pub connect_aws :
      Answers → ℕ → Control Float Queue → Option (Started × Control Float Queue)
  unfolding subscribe_topics set_last_error
  connect_aws a time s =
      if a.connect 0
      then (subscribe_topics s.hub.config a s.network >>= λ subscribed.
          let (success, named, topics) = subscribed in
          some (
            if success
            then (ready, record s { network = record named { pubsub_enabled = true } })
            else (frozen freeze_error_mqtt_sub, record s { network = named })))
      else some (
        frozen freeze_error_mqtt_conn,
        record s { hub = set_last_error s.hub time err_aws_iot_connect },
      )

  -- With ENABLE_MQTT: `mqttReconnect`, whose result is not looked at.
  unfoldable pub connect_mqtt :
      Answers → Control Float Queue → Option (Started × Control Float Queue)
  unfolding mqtt_reconnect
  connect_mqtt a s = mqtt_reconnect s.hub.config a s.network >>= λ outcome.
      some (ready, record s { network = record outcome.network { pubsub_enabled = true } })

  -- The server of the build.
  unfoldable pub connect_server :
      Flavor → Answers → ℕ → Control Float Queue → Option (Started × Control Float Queue)
  unfolding uses_aws connect_aws connect_mqtt
  connect_server flavor a time s =
      if uses_aws flavor then connect_aws a time s else connect_mqtt a s

  -- The end of `setup`, where it is reached.
  unfoldable pub wrap_up : Started × Control Float Queue → Started × Control Float Queue
  unfolding emit
  wrap_up (ready, s) = (ready, tell s (send_status ∷ []))
  wrap_up (ble_mode_on, s) = (ble_mode_on, s)
  wrap_up (wifi_disabled, s) = (wifi_disabled, s)
  wrap_up (frozen code, s) = (frozen code, s)

module _ {Float : Type 0} (f : Fifo QueueItem) (dec : ℕ → Text) (flavor : Flavor) where
  -- What `setup` does once WiFi is connected.
  unfoldable pub setup_online :
      Boot → Control Float f.Queue → Option (Started × Control Float f.Queue)
  unfolding update_time connect_server wrap_up
  setup_online e s = update_time f dec e.updates e.update_end e.epoch s >>= λ told.
      if not (told.0 == 0)
      then some (frozen freeze_error_ntp, told.1)
      else connect_server flavor e.answers e.fail_time told.1 >>= λ connected.
          some (wrap_up connected)

  -- `setup`, behind the globals' initialisation; four rounds of the loop for WiFi are enough. The
  -- events of WiFi write what `setup` neither reads nor writes, so that their order with its steps
  -- does not matter.
  unfoldable pub setup_steps :
      Boot → Control Float f.Queue → Option (Started × Control Float f.Queue)
  unfolding has_ble wifi_rounds await_status wifi_events_seen setup_online emit
  setup_steps e s =
      if has_ble flavor && not (s.ble_mode == 0)
      then some (ble_mode_on, tell s (start_ble ∷ []))
      else if not s.hub.config.wifi_enabled
      then some (wifi_disabled, s)
      else wifi_rounds e.begins 4 0 >>= λ connected.
          let seen = record s { network = wifi_events_seen e.wifi_events s.network } in
          if not connected
          then some (frozen freeze_error_wifi, seen)
          else await_status e.statuses e.patience 0 >>= λ asked. setup_online e seen

  -- `setup`.
  unfoldable pub setup : Float → Settings → Boot → Option (Started × Control Float f.Queue)
  unfolding initial setup_steps
  setup zero_value d e = setup_steps e (initial f zero_value flavor d e)
