-- ===== src/Config/Texts.antt =====
-- The texts of the configuration that a BLE client writes whole.
use sensaurus.Prelude.{
  ℕ, ◌<◌, ◌≤◌, ◌≡◌, ap, ◌∙◌, arith, List, [], length, if◌then◌else◌, Bool-cases, inl, inr, Text,
}
use sensaurus.CText.{c_str, strncpy, text_eq}
use sensaurus.CText.Copy.{IsText, IsTerminated, c_str-text, c_str-strncpy, strncpy-open}
use sensaurus.CText.Same.{text_eq_sound}
use sensaurus.Config.{
  Config, Setup, write_wifi_network, write_wifi_password, write_owner_id, write_hub_id,
  write_mqtt_user, write_mqtt_password, write_mqtt_server, Characteristic, wifi_network_uuid,
  wifi_password_uuid, owner_id_uuid, hub_id_uuid, mqtt_user_uuid, mqtt_password_uuid,
  mqtt_server_uuid, on_write,
}

-- The array behind a characteristic that is a text, and none behind the others.
abbrev pub text_of : Characteristic → Config → List ℕ
text_of wifi_network_uuid c = c.wifi_network
text_of wifi_password_uuid c = c.wifi_password
text_of owner_id_uuid c = c.owner_id
text_of hub_id_uuid c = c.hub_id
text_of mqtt_user_uuid c = c.mqtt_user
text_of mqtt_password_uuid c = c.mqtt_password
text_of mqtt_server_uuid c = c.mqtt_server
text_of _ c = []

-- The size of that array.
abbrev pub text_size : Characteristic → ℕ
text_size wifi_network_uuid = 64
text_size wifi_password_uuid = 64
text_size owner_id_uuid = 64
text_size hub_id_uuid = 64
text_size mqtt_user_uuid = 64
text_size mqtt_password_uuid = 64
text_size mqtt_server_uuid = 128
text_size _ = 0

abbrev written_text : List ℕ → Text → ℕ → List ℕ
written_text held value size = if text_eq (c_str held) value then held else strncpy held value size

-- A write to a text characteristic puts the text into its array.
text_of-on_write :
    (stray : ℕ) (s : Setup) (ch : Characteristic) (value : List ℕ)
    → IsText value
    → 0 < text_size ch
    → text_of ch (on_write stray s ch value).config
      ≡ written_text (text_of ch s.config) value (text_size ch)
unfolding on_write write_wifi_network write_wifi_password write_owner_id write_hub_id
    write_mqtt_user write_mqtt_password write_mqtt_server
text_of-on_write stray s wifi_network_uuid value h k = ground (arith, c_str-text value h)
text_of-on_write stray s wifi_password_uuid value h k = ground (arith, c_str-text value h)
text_of-on_write stray s owner_id_uuid value h k = ground (arith, c_str-text value h)
text_of-on_write stray s hub_id_uuid value h k = ground (arith, c_str-text value h)
text_of-on_write stray s mqtt_user_uuid value h k = ground (arith, c_str-text value h)
text_of-on_write stray s mqtt_password_uuid value h k = ground (arith, c_str-text value h)
text_of-on_write stray s mqtt_server_uuid value h k = ground (arith, c_str-text value h)
text_of-on_write stray s _ value h k = absurd (omega arith)

written_text-held :
    (held value : List ℕ) (size : ℕ)
    → length held ≡ size
    → IsText value
    → length value < size
    → c_str (written_text held value size) ≡ value
written_text-held held value size sized h fits = elim (Bool-cases (text_eq (c_str held) value)) [
  | inl same ↦ rw same (text_eq_sound (c_str held) value same)
  | inr other ↦ rw other (c_str-strncpy held value size (omega arith) h fits)
]

-- A text without NULs that a client writes to one of the seven text characteristics is held as it
-- is, if it is shorter than the array.
pub text_write_held :
    (stray : ℕ) (s : Setup) (ch : Characteristic) (value : List ℕ)
    → length (text_of ch s.config) ≡ text_size ch
    → IsText value
    → length value < text_size ch
    → c_str (text_of ch (on_write stray s ch value).config) ≡ value
text_write_held stray s ch value sized h fits =
    ap c_str (text_of-on_write stray s ch value h (omega arith))
    ∙ written_text-held (text_of ch s.config) value (text_size ch) sized h fits

-- A text without NULs, as long as the array or longer, that a client writes to one of the seven
-- text characteristics, leaves no NUL in the array, if that held a string before.
pub text_write_unterminated :
    (stray : ℕ) (s : Setup) (ch : Characteristic) (value : List ℕ)
    → length (text_of ch s.config) ≡ text_size ch
    → IsTerminated (text_of ch s.config)
    → IsText value
    → text_size ch ≤ length value
    → ¬ IsTerminated (text_of ch (on_write stray s ch value).config)
text_write_unterminated stray s ch value sized ends h long =
    let held = text_of ch s.config in
    rw (text_of-on_write stray s ch value h (omega arith))
      (elim (Bool-cases (text_eq (c_str held) value)) [
        | inl same ↦ absurd (omega (arith, ap length (text_eq_sound (c_str held) value same)))
        | inr other ↦ rw (other, ← sized) (strncpy-open held value h (omega arith))
      ])
