-- ===== src/Config/Saved.antt =====
-- What a BLE session saves, and what the next start loads.
use sensaurus.Prelude.{
  ℕ, ◌≡◌, refl, arith, false, List, [], ◌∷◌, if◌then◌else◌, Bool-cases, inl, inr, codes,
}
use sensaurus.CText.{c_str, text_eq}
use sensaurus.Config.{
  Config, Settings, init_config, default_config, Setup, booted, write_wifi_network,
  write_wifi_password, write_owner_id, write_hub_id, write_mqtt_user, write_mqtt_password,
  write_mqtt_server, write_console_enabled, write_mqtt_port, write_command, write_hub_cert,
  write_hub_key, Characteristic, wifi_network_uuid, wifi_password_uuid, owner_id_uuid, hub_id_uuid,
  console_enabled_uuid, ble_cmd_uuid, mqtt_user_uuid, mqtt_password_uuid, mqtt_server_uuid,
  mqtt_port_uuid, hub_cert_uuid, hub_key_uuid, on_write, on_writes,
}

init_config_current : (d : Settings) (c : Config) → c.version ≡ 3 → init_config d c ≡ c
unfolding init_config
init_config_current d c h = rw (init_config, h)

init_config-version : (d : Settings) (c : Config) → (init_config d c).version ≡ 3
unfolding init_config default_config
init_config-version d c = ground arith

-- The state that the command "bleExit" leaves.
exit_setup : Setup → Setup
exit_setup s = record {
  config = s.config;
  eeprom = if s.dirty then s.config else s.eeprom;
  dirty = s.dirty;
  ble_mode = 0;
  sw_reboot = 1;
}

module _ (d : Settings) where
  -- Unless the configuration is marked as modified, a start loads it as it is.
  record IsSaved (s : Setup) : Type 0 where
    current : s.config.version ≡ 3
    clean : s.dirty ≡ false → init_config d s.eeprom ≡ s.config

  booted-IsSaved : (stored : Config) (mode : ℕ) → IsSaved (booted d stored mode)
  booted-IsSaved stored mode = record { current = init_config-version d stored; clean = λ _. refl }

  on_write-IsSaved :
      (stray : ℕ) (s : Setup) (ch : Characteristic) (value : List ℕ)
      → IsSaved s
      → IsSaved (on_write stray s ch value)
  unfolding on_write write_wifi_network write_wifi_password write_owner_id write_hub_id
      write_mqtt_user write_mqtt_password write_mqtt_server write_console_enabled write_mqtt_port
      write_command write_hub_cert write_hub_key
  on_write-IsSaved stray s wifi_network_uuid value h = ground (arith, h.clean)
  on_write-IsSaved stray s wifi_password_uuid value h = ground (arith, h.clean)
  on_write-IsSaved stray s owner_id_uuid value h = ground (arith, h.clean)
  on_write-IsSaved stray s hub_id_uuid value h = ground (arith, h.clean)
  on_write-IsSaved stray s console_enabled_uuid value h = ground (arith, h.clean)
  on_write-IsSaved stray s ble_cmd_uuid value h = ground (arith, h.clean)
  on_write-IsSaved stray s mqtt_user_uuid value h = ground (arith, h.clean)
  on_write-IsSaved stray s mqtt_password_uuid value h = ground (arith, h.clean)
  on_write-IsSaved stray s mqtt_server_uuid value h = ground (arith, h.clean)
  on_write-IsSaved stray s mqtt_port_uuid value h = ground (arith, h.clean)
  on_write-IsSaved stray s hub_cert_uuid value h = ground (arith, h.clean)
  on_write-IsSaved stray s hub_key_uuid value h = ground (arith, h.clean)

  on_writes-IsSaved :
      (stray : ℕ) (s : Setup) (writes : List (Characteristic × List ℕ))
      → IsSaved s
      → IsSaved (on_writes stray s writes)
  unfolding on_writes
  on_writes-IsSaved stray s [] h = h
  on_writes-IsSaved stray s ((ch, value) ∷ writes) h =
      on_writes-IsSaved stray (on_write stray s ch value) writes
        (on_write-IsSaved stray s ch value h)

  ble_exit_loads : (s : Setup) → IsSaved s → init_config d (exit_setup s).eeprom ≡ s.config
  unfolding exit_setup
  ble_exit_loads s h = elim (Bool-cases s.dirty) [
    | inl modified ↦ rw modified (init_config_current d s.config h.current)
    | inr same ↦ rw same (h.clean same)
  ]

exit_lem :
    (d : Settings) (stray : ℕ) (s : Setup)
    → on_write stray s ble_cmd_uuid (codes "bleExit") ≡ exit_setup s
unfolding on_write write_command text_eq c_str exit_setup
exit_lem d stray s = ground arith

-- Whatever the EEPROM held at the start and whatever a BLE client has written to any
-- characteristics since, once it writes "bleExit" the hub restarts out of BLE mode, with exactly
-- the configuration that the session ended with.
pub on_writes-ble_exit :
    (d : Settings) (stored : Config) (mode stray : ℕ) (writes : List (Characteristic × List ℕ))
    → let s = on_writes stray (booted d stored mode) writes in
      let end = on_write stray s ble_cmd_uuid (codes "bleExit") in
      (init_config d end.eeprom ≡ s.config) × (end.ble_mode ≡ 0) × (end.sw_reboot ≡ 1)
unfolding exit_setup
on_writes-ble_exit d stored mode stray writes =
    let s = on_writes stray (booted d stored mode) writes in
    let saved =
      on_writes-IsSaved d stray (booted d stored mode) writes (booted-IsSaved d stored mode) in
    rw (exit_lem d stray s) (ble_exit_loads d s saved, refl, refl)
