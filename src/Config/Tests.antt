-- ===== src/Config/Tests.antt =====
-- The configuration at concrete values.
use sensaurus.Prelude.{ℕ, ◌≡◌, refl, arith, false, List, [], ◌∷◌, replicate, codes}
use sensaurus.CText.{c_str, text_eq}
use sensaurus.CText.Copy.{IsTerminated}
use sensaurus.Config.{
  init_config, Setup, booted, arr_to_uint16, Characteristic, wifi_network_uuid, ble_cmd_uuid,
  hub_cert_uuid, hub_key_uuid, owner_id_uuid, on_write, on_writes, mqtt_port_uuid,
}
use sensaurus.Config.Sample.{sample_settings, blank_config}
use sensaurus.Config.Saved.{on_writes-ble_exit}
use sensaurus.Config.Texts.{text_of, text_write_unterminated}
use sensaurus.Config.Upload.{upload, HasStrings, upload_held}

abbrev blank_setup : Setup
blank_setup = record {
  config = blank_config;
  eeprom = blank_config;
  dirty = false;
  ble_mode = 1;
  sw_reboot = 0;
}

high_byte_first : arr_to_uint16 7 91 ≡ 1883
unfolding arr_to_uint16
high_byte_first = refl

abbrev some_writes : List (Characteristic × List ℕ)
some_writes = (owner_id_uuid, codes "252") ∷ (mqtt_port_uuid, 7 ∷ 91 ∷ []) ∷ []

on_writes-ble_exit_example :
    let s = on_writes 0 (booted sample_settings blank_config 1) some_writes in
    let end = on_write 0 s ble_cmd_uuid (codes "bleExit") in
    (init_config sample_settings end.eeprom ≡ s.config) × (end.ble_mode ≡ 0) × (end.sw_reboot ≡ 1)
on_writes-ble_exit_example = on_writes-ble_exit sample_settings blank_config 1 0 some_writes

blank-HasStrings : HasStrings blank_config
unfolding c_str
blank-HasStrings = record {
  cert_held = record { sized = refl; ends = omega arith };
  key_held = record { sized = refl; ends = omega arith };
}

upload_held_example :
    let s' =
      on_writes 0
        (on_writes 0 blank_setup (upload hub_cert_uuid (codes "AB" ∷ codes "C" ∷ [])))
        (upload hub_key_uuid (codes "DE" ∷ [])) in
    (c_str s'.config.thing_crt ≡ codes "ABC") × (c_str s'.config.thing_private_key ≡ codes "DE")
unfolding text_eq
upload_held_example =
    upload_held 0 blank_setup (codes "AB" ∷ codes "C" ∷ []) (codes "DE" ∷ [])
      blank-HasStrings.cert_held blank-HasStrings.key_held
      ((omega arith, refl), ((omega arith, refl), tt)) ((omega arith, refl), tt) (omega arith)
      (omega arith)

text_write_unterminated_example : ¬ IsTerminated (
    text_of wifi_network_uuid (on_write 0 blank_setup wifi_network_uuid (replicate 64 b'x')).config)
unfolding c_str
text_write_unterminated_example =
    text_write_unterminated 0 blank_setup wifi_network_uuid (replicate 64 b'x') refl (omega arith)
      (omega arith) (omega arith)
