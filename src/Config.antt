-- ===== src/Config.antt =====
-- The configuration of hub-esp32/hub-esp32.ino: how it is loaded, and how the callbacks of the BLE
-- characteristics change and save it. What settings.h defines is the parameter `Settings`.
pub mod Chunks
pub mod Sample
pub mod Saved
pub mod Upload
pub mod Texts
mod Tests
use sensaurus.Prelude.{
  ℕ, ◌+◌, ◌-◌, ◌*◌, Bool, true, false, not, ◌||◌, List, [], ◌∷◌, ◌++◌, set, get_or, length, take,
  drop, ltb, ◌==◌, if◌then◌else◌, Text, codes, u16,
}
use sensaurus.CText.{c_str, strncpy, strcat, text_eq}

abbrev pub firmware_version : ℕ
firmware_version = 3

-- Each array holds as many characters as it is declared with.
pub record Config : Type 0 where
  pub version : ℕ
  pub console_enabled : Bool
  pub wifi_enabled : Bool
  pub wifi_network : List ℕ
  pub wifi_password : List ℕ
  pub response_timeout : ℕ
  pub owner_id : List ℕ
  pub hub_id : List ℕ
  pub mqtt_server : List ℕ
  pub mqtt_port : ℕ
  pub mqtt_user : List ℕ
  pub mqtt_password : List ℕ
  pub thing_crt : List ℕ
  pub thing_private_key : List ℕ

-- The values that settings.h gives, and the certificate and the key of the hub.
pub record Settings : Type 0 where
  pub enable_console : Bool
  pub enable_wifi : Bool
  pub default_timeout : ℕ
  pub default_owner : Text
  pub default_hub : Text
  pub wifi_ssid : Text
  pub default_password : Text
  pub default_mqtt_user : Text
  pub default_mqtt_password : Text
  pub default_mqtt_server : Text
  pub default_mqtt_port : ℕ
  pub certificate : Text
  pub private_key : Text

-- What `initConfig` writes over a configuration of another version.
unfoldable pub default_config : Settings → Config → Config
default_config d c = record {
  version = firmware_version;
  console_enabled = d.enable_console;
  wifi_enabled = d.enable_wifi;
  response_timeout = d.default_timeout;
  owner_id = strncpy c.owner_id d.default_owner 64;
  hub_id = strncpy c.hub_id d.default_hub 64;
  wifi_network = strncpy c.wifi_network d.wifi_ssid 63;
  wifi_password = strncpy c.wifi_password d.default_password 63;
  mqtt_user = strncpy c.mqtt_user d.default_mqtt_user 63;
  mqtt_password = strncpy c.mqtt_password d.default_mqtt_password 63;
  mqtt_server = strncpy c.mqtt_server d.default_mqtt_server 127;
  mqtt_port = d.default_mqtt_port;
  thing_crt = strncpy c.thing_crt d.certificate 1499;
  thing_private_key = strncpy c.thing_private_key d.private_key 1999;
}

-- `initConfig`, once the EEPROM has been opened: the configuration that it holds, unless that is
-- of another version.
unfoldable pub init_config : Settings → Config → Config
unfolding default_config
init_config d stored =
    if not (stored.version == firmware_version) || stored.version == 0
    then default_config d stored
    else stored

-- The globals that the BLE callbacks use; `eeprom` is what the EEPROM holds.
pub record Setup : Type 0 where
  pub config : Config
  pub eeprom : Config
  pub dirty : Bool
  pub ble_mode : ℕ
  pub sw_reboot : ℕ

-- The globals after a software reset and `initConfig`. `bleMode` survives such a reset.
abbrev pub booted : Settings → Config → ℕ → Setup
booted d stored mode = record {
  config = init_config d stored;
  eeprom = stored;
  dirty = false;
  ble_mode = mode;
  sw_reboot = 0;
}

-- Change the configuration and mark it as modified.
abbrev pub modify : Setup → Config → Setup
modify s c = record s { config = c; dirty = true }

unfoldable pub write_wifi_network : Setup → Text → Setup
write_wifi_network s value =
    if text_eq (c_str s.config.wifi_network) value
    then s
    else modify s (record s.config { wifi_network = strncpy s.config.wifi_network value 64 })

unfoldable pub write_wifi_password : Setup → Text → Setup
write_wifi_password s value =
    if text_eq (c_str s.config.wifi_password) value
    then s
    else modify s (record s.config { wifi_password = strncpy s.config.wifi_password value 64 })

unfoldable pub write_owner_id : Setup → Text → Setup
write_owner_id s value =
    if text_eq (c_str s.config.owner_id) value
    then s
    else modify s (record s.config { owner_id = strncpy s.config.owner_id value 64 })

unfoldable pub write_hub_id : Setup → Text → Setup
write_hub_id s value =
    if text_eq (c_str s.config.hub_id) value
    then s
    else modify s (record s.config { hub_id = strncpy s.config.hub_id value 64 })

unfoldable pub write_mqtt_user : Setup → Text → Setup
write_mqtt_user s value =
    if text_eq (c_str s.config.mqtt_user) value
    then s
    else modify s (record s.config { mqtt_user = strncpy s.config.mqtt_user value 64 })

unfoldable pub write_mqtt_password : Setup → Text → Setup
write_mqtt_password s value =
    if text_eq (c_str s.config.mqtt_password) value
    then s
    else modify s (record s.config { mqtt_password = strncpy s.config.mqtt_password value 64 })

unfoldable pub write_mqtt_server : Setup → Text → Setup
write_mqtt_server s value =
    if text_eq (c_str s.config.mqtt_server) value
    then s
    else modify s (record s.config { mqtt_server = strncpy s.config.mqtt_server value 128 })

-- The first byte is the high one.
unfoldable pub arr_to_uint16 : ℕ → ℕ → ℕ
arr_to_uint16 first second = u16 (u16 (first * 256) + second)

-- The number in the first two bytes of a value; a NUL stands behind it, and then `stray` bytes.
unfoldable pub value_uint16 : ℕ → List ℕ → ℕ
unfolding arr_to_uint16
value_uint16 stray value =
    arr_to_uint16 (get_or (value ++ 0 ∷ []) 0 stray) (get_or (value ++ 0 ∷ []) 1 stray)

unfoldable pub write_console_enabled : Setup → ℕ → Setup
write_console_enabled s value =
    let on = not (value == 0) in
    let changed = if s.config.console_enabled then not on else on in
    if changed then modify s (record s.config { console_enabled = on }) else s

unfoldable pub write_mqtt_port : Setup → ℕ → Setup
write_mqtt_port s value =
    if s.config.mqtt_port == value then s else modify s (record s.config { mqtt_port = value })

unfoldable pub write_command : Setup → Text → Setup
write_command s value =
    if text_eq value (codes "bleExit")
    then record (if s.dirty then record s { eeprom = s.config } else s) {
      ble_mode = 0;
      sw_reboot = 1;
    }
    else if text_eq value (codes "bleStart")
    then record s { ble_mode = s.ble_mode + 1; sw_reboot = 2 }
    else s

-- A piece of a certificate or a key, for an array of `size` characters: the text "clear" empties
-- the array, any other is appended if it fits.
unfoldable pub add_chunk : ℕ → List ℕ → List ℕ → List ℕ
add_chunk size held value =
    if text_eq value (codes "clear")
    then set held 0 0
    else if ltb (length (c_str held) + length (c_str value)) (size - 1)
    then strcat held (c_str value)
    else held

unfoldable pub write_hub_cert : Setup → List ℕ → Setup
unfolding add_chunk
write_hub_cert s value =
    modify s (record s.config { thing_crt = add_chunk 1500 s.config.thing_crt value })

unfoldable pub write_hub_key : Setup → List ℕ → Setup
unfolding add_chunk
write_hub_key s value =
    modify s
      (record s.config { thing_private_key = add_chunk 2000 s.config.thing_private_key value })

pub data Characteristic : Type 0 where
  wifi_network_uuid wifi_password_uuid owner_id_uuid hub_id_uuid : Characteristic
  console_enabled_uuid ble_cmd_uuid mqtt_user_uuid mqtt_password_uuid : Characteristic
  mqtt_server_uuid mqtt_port_uuid hub_cert_uuid hub_key_uuid : Characteristic

-- What a client's write of a value to a characteristic does, by the callback that `startBLE` gives
-- the characteristic.
unfoldable pub on_write : ℕ → Setup → Characteristic → List ℕ → Setup
unfolding value_uint16
on_write stray s wifi_network_uuid value = write_wifi_network s (c_str value)
on_write stray s wifi_password_uuid value = write_wifi_password s (c_str value)
on_write stray s owner_id_uuid value = write_owner_id s (c_str value)
on_write stray s hub_id_uuid value = write_hub_id s (c_str value)
on_write stray s console_enabled_uuid value = write_console_enabled s (value_uint16 stray value)
on_write stray s ble_cmd_uuid value = write_command s (c_str value)
on_write stray s mqtt_user_uuid value = write_mqtt_user s (c_str value)
on_write stray s mqtt_password_uuid value = write_mqtt_password s (c_str value)
on_write stray s mqtt_server_uuid value = write_mqtt_server s (c_str value)
on_write stray s mqtt_port_uuid value = write_mqtt_port s (value_uint16 stray value)
on_write stray s hub_cert_uuid value = write_hub_cert s value
on_write stray s hub_key_uuid value = write_hub_key s value

-- The writes of a BLE session, one after another.
unfoldable pub on_writes : ℕ → Setup → List (Characteristic × List ℕ) → Setup
on_writes stray s [] = s
on_writes stray s ((characteristic, value) ∷ writes) =
    on_writes stray (on_write stray s characteristic value) writes
