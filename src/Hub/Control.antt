-- ===== src/Hub/Control.antt =====
-- The commands of hub-esp32/hub-esp32.ino, from the console and from the server: `runCommand`,
-- `processByteFromComputer` and `handleIncomingMessage`. A call of sendStatus, sendDeviceInfo or
-- sendSensorValues is an event here.
pub mod Reach
pub mod Console
mod Tests
use sensaurus.Prelude.{
  ℕ, ◌+◌, ◌-◌, ◌*◌, ◌^◌, Bool, true, false, not, ◌&&◌, ◌||◌, List, [], ◌∷◌, ◌++◌, Option, none,
  some, set, get_or, get_elem?, take, drop, replicate, length, ltb, leb, ◌==◌, if◌then◌else◌, Text,
  codes, u32,
}
use sensaurus.CText.{c_str, text_eq}
use sensaurus.CText.Number.{Printer}
use sensaurus.CheckStream.{write_all, crlf}
use sensaurus.Config.{Config}
use sensaurus.Hub.Network.{Network}
use sensaurus.ProcessingQueue.{
  QueueItem, request_mqtt_publish_status, request_actuator_set, status_item, Fifo, try_push,
}
use sensaurus.Hub.{
  Hub, Event, console, send_device_info, dump_config, log_level_set, wifi_begin, start_ble, emit,
}

abbrev pub console_message_buf_len : ℕ
console_message_buf_len = 40

-- The globals beside those of `Hub`. Times are in milliseconds, as `millis` returns them, a 32-bit
-- number; `ble_mode` is the bit pattern of an `int`; `eeprom` is the configuration that the EEPROM holds.
pub record Control (Float Queue : Type 0) : Type 0 where
  pub hub : Hub Float
  pub eeprom : Config
  pub network : Network
  pub queue : Queue
  pub console_message : List ℕ
  pub console_message_index : ℕ
  pub poll_interval : ℕ
  pub last_poll_time : ℕ
  pub send_interval : ℕ
  pub last_send_time : ℕ
  pub last_epoch_seconds : ℕ
  pub last_time_update : ℕ
  pub last_memory_display : ℕ
  pub config_mode : Bool
  pub mqtt_in_count : ℕ
  pub ble_mode : ℕ
  pub sw_reboot : ℕ

-- What ArduinoJson returns for the members that a command reads: an `int` as its bit pattern, the
-- interval as `round` gives its milliseconds, 0 for a member that is not there.
pub record Doc : Type 0 where
  pub console_enabled : ℕ
  pub log_level : ℕ
  pub poll_seconds : ℕ
  pub send_millis : ℕ
  pub url : Text

-- The empty document.
abbrev pub no_doc : Doc
no_doc = record { console_enabled = 0; log_level = 0; poll_seconds = 0; send_millis = 0; url = [] }

-- What differs between the builds, at this time: `doPolling`, what is done behind a message to a
-- device, which with USE_SWSERIAL is nothing, and `updateActuators` with the document that a text
-- holds.
pub record Build (Float : Type 0) : Type 0 where
  pub do_polling : Hub Float → Option (Hub Float)
  pub after_message : Hub Float → ℕ → Option (Hub Float)
  pub actuate : Hub Float → Text → Option (Hub Float)

pub data Command : Type 0 where
  poll dump save_settings show_saved wifi_restart start_sending ble_now req_status : Command
  req_devices set_console set_log set_poll set_send update_firmware : Command
  to_device : ℕ → Text → Command
  ble_start ble_exit unknown : Command

-- Which branch of `runCommand` a command takes: its name is compared in this order. A message to a
-- device starts with a character and ">".
unfoldable pub command_of : Text → Command
command_of c =
    if text_eq c (codes "p")
    then poll
    else if text_eq c (codes "d")
    then dump
    else if text_eq c (codes "w")
    then save_settings
    else if text_eq c (codes "r")
    then show_saved
    else if text_eq c (codes "wifi_begin")
    then wifi_restart
    else if text_eq c (codes "s")
    then start_sending
    else if text_eq c (codes "start_ble")
    then ble_now
    else if text_eq c (codes "req_status")
    then req_status
    else if text_eq c (codes "req_devices")
    then req_devices
    else if text_eq c (codes "set_console_enabled")
    then set_console
    else if text_eq c (codes "set_log_level")
    then set_log
    else if text_eq c (codes "set_poll_interval")
    then set_poll
    else if text_eq c (codes "set_send_interval")
    then set_send
    else if text_eq c (codes "update_firmware")
    then update_firmware
    else if not (get_or c 0 0 == 0) && get_or c 1 0 == b'>'
    then to_device (get_or c 0 0) (drop 2 c)
    else if text_eq c (codes "bleStart")
    then ble_start
    else if text_eq c (codes "bleExit")
    then ble_exit
    else unknown

-- A 32-bit `int`, by its bit pattern, is less than 0.
abbrev pub is_negative : ℕ → Bool
is_negative n = leb (2 ^ 31) n

-- The level that `set_log_level` sets, within ESP_LOG_NONE and ESP_LOG_VERBOSE.
unfoldable pub clip_level : ℕ → ℕ
clip_level n = if ltb 5 n && not (is_negative n) then 5 else if is_negative n then 0 else n

-- The interval that `set_poll_interval` sets, from seconds; the product wraps.
unfoldable pub poll_interval_of : ℕ → ℕ
poll_interval_of seconds =
    let n = u32 (seconds * 1000) in if ltb n 500 || is_negative n then 500 else n

-- Text on the console, as `Serial.println` ends it.
abbrev pub say : Text → Event
say text = console (text ++ crlf)

abbrev pub tell : {Float Queue : Type 0} → Control Float Queue → List Event → Control Float Queue
tell s es = record s { hub = emit s.hub es }

module _ {Float : Type 0} (f : Fifo QueueItem) (p : Printer) (dec : ℕ → Text) where
  open f use {Queue}

  -- The console says what is sent to a device, if it is enabled; the message goes out with its
  -- checksum. A device that there is no stream for is written to outside the array.
  unfoldable pub message_device :
      Build Float → Control Float Queue → ℕ → Text → Option (Control Float Queue)
  unfolding emit
  message_device build s first text =
      let i = first - b'0' in
      let s' =
        if s.hub.config.console_enabled
        then tell s
            (say (codes "sending message to device " ++ (dec i ++ (codes ": " ++ text))) ∷ [])
        else s in
      if ltb first b'0' then none else elim (get_elem? s'.hub.dev_stream i) [
        | none ↦ none
        | some out ↦
            let sent = write_all p false out (text ++ crlf) in
            elim (build.after_message (record s'.hub { dev_stream = set s'.hub.dev_stream i sent })
              i) [ none ↦ none | some hub ↦ some (record s' { hub = hub }) ]
      ]

  -- `runCommand`, once the branch is known. `set_poll` and `set_send` change the intervals.
  unfoldable pub run :
      Build Float → Control Float Queue → Command → Doc → Option (Control Float Queue)
  unfolding emit clip_level poll_interval_of try_push message_device
  run build s poll doc =
      let told = tell s (say (codes "polling") ∷ []) in
      elim (build.do_polling told.hub) [ none ↦ none | some hub ↦ some (record told { hub = hub }) ]
  run build s dump doc =
      some (tell s (say (codes "settings currently effective:") ∷ dump_config s.hub.config ∷ []))
  run build s save_settings doc = some (
      tell (record s { eeprom = s.hub.config })
        (say (codes "settings have been saved to EEPROM:") ∷ dump_config s.hub.config ∷ []))
  run build s show_saved doc =
      some (tell s (say (codes "settings currently in EEPROM:") ∷ dump_config s.eeprom ∷ []))
  run build s wifi_restart doc = some (tell s (wifi_begin ∷ []))
  run build s start_sending doc = some (record s { poll_interval = 1000; send_interval = 1000 })
  run build s ble_now doc = some (tell s (start_ble ∷ []))
  run build s req_status doc =
      some (record s { queue = (try_push f s.queue (status_item request_mqtt_publish_status)).1 })
  run build s req_devices doc = some (tell s (send_device_info ∷ []))
  run build s set_console doc = some (record s {
    hub = record s.hub {
      config = record s.hub.config { console_enabled = not (doc.console_enabled == 0) };
    };
  })
  run build s set_log doc = some (tell s (log_level_set (clip_level doc.log_level) ∷ []))
  run build s set_poll doc = some (record s { poll_interval = poll_interval_of doc.poll_seconds })
  run build s set_send doc = some (record s {
    send_interval = doc.send_millis;
    poll_interval = if ltb doc.send_millis 1000 then 500 else 1000;
  })
  run build s update_firmware doc =
      some (tell s (say (codes "updating firmware: " ++ doc.url) ∷ []))
  run build s (to_device first text) doc = message_device build s first text
  run build s ble_start doc = some (record s { ble_mode = u32 (s.ble_mode + 1); sw_reboot = 2 })
  run build s ble_exit doc = some (record s { ble_mode = 0; sw_reboot = 1 })
  run build s unknown doc = some s

  -- `runCommand`.
  unfoldable pub run_command :
      Build Float → Control Float Queue → Text → Doc → Option (Control Float Queue)
  unfolding run
  run_command build s command doc = run build s (command_of command) doc

  -- `processByteFromComputer`.
  unfoldable pub process_byte_from_computer :
      Build Float → Control Float Queue → ℕ → Option (Control Float Queue)
  unfolding run_command
  process_byte_from_computer build s c =
      if c == 10 || c == 13
      then (if s.console_message_index == 0
          then some s
          else (let message = set s.console_message s.console_message_index 0 in
              elim (run_command build (record s { console_message = message }) (c_str message)
                no_doc) [ none ↦ none | some s' ↦ some (record s' { console_message_index = 0 }) ]))
      else some (
          if ltb s.console_message_index (console_message_buf_len - 1)
          then record s {
            console_message = set s.console_message s.console_message_index c;
            console_message_index = s.console_message_index + 1;
          }
          else s)

  -- The bytes from the computer, one after another.
  unfoldable pub type_bytes :
      Build Float → Control Float Queue → List ℕ → Option (Control Float Queue)
  type_bytes build s [] = some s
  type_bytes build s (c ∷ cs) = elim (process_byte_from_computer build s c) [
    | none ↦ none
    | some s' ↦ type_bytes build s' cs
  ]

  -- `handleIncomingMessage`; `read` is what deserializeJson makes of a text: the command, if the
  -- document has one, and the members that commands read.
  unfoldable pub handle_incoming_message :
      Build Float
      → (Text → Option Text × Doc)
      → Control Float Queue
      → List ℕ
      → Option (Control Float Queue)
  unfolding run_command try_push
  handle_incoming_message build read s payload =
      let saved = c_str payload in
      let (command, doc) = read saved in
      let handled : Option (Control Float Queue) = elim command [
        | some name ↦ run_command build s name doc
        | none ↦ some (record s {
          queue =
              (try_push f s.queue
                (record { request_type = request_actuator_set; payload = saved })).1;
        })
      ] in
      elim handled [
        | none ↦ none
        | some s' ↦ some (record s' { mqtt_in_count = s'.mqtt_in_count + 1 })
      ]
