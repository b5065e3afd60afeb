-- ===== src/Hub/Report/Messages.antt =====
-- What the server is told of the devices.
use sensaurus.Prelude.{
  ℕ, ◌+◌, ◌≡◌, refl, ap, ap₂, zero, suc, take, arith, Bool, true, false, List, [], ◌∷◌, ◌++◌, map,
  length, if◌then◌else◌, ◌==◌, Bool-cases, inl, inr, Text, codes,
}
use sensaurus.CText.{c_str}
use sensaurus.Config.{Config}
use sensaurus.SensaurDevice.{Component, Device}
use sensaurus.Hub.{Hub}
use sensaurus.Hub.Publish.{MqttClient, hub_publish}
use sensaurus.Hub.Report.{
  hub_topic, component_infos, device_entry, describe_devices, device_info_messages, publish_all,
}

-- The connected devices among those from the plug `i` on, each with its plug.
abbrev pub connected_from : {Float : Type 0} → ℕ → List (Device Float) → List (ℕ × Device Float)
connected_from i [] = []
connected_from i (d ∷ ds) =
    let others = connected_from (i + 1) ds in if d.connected then (i, d) ∷ others else others

-- Texts with a comma before each.
abbrev pub after_commas : List Text → Text
after_commas [] = []
after_commas (t ∷ ts) = codes "," ++ (t ++ after_commas ts)

-- Texts with commas between them.
abbrev pub with_commas : List Text → Text
with_commas [] = []
with_commas (t ∷ ts) = t ++ after_commas ts

-- The messages and the members that a connected device stands for, with its plug counted from 1.
module _ {Float : Type 0} (dec : ℕ → Text) (info_json : Component Float → Text)
    (config : Config) where
  abbrev pub told_hub : ℕ × Device Float → Text × Text
  told_hub (plug, d) = (
    c_str config.owner_id ++ codes "/device/" ++ c_str d.id,
    codes "{\"hub_id\":\"" ++ c_str config.hub_id ++ codes "\"}",
  )

  abbrev pub told_device : ℕ × Device Float → Text
  told_device (plug, d) =
      codes "\""
      ++ c_str d.id
      ++ codes "\":{\"version\":"
      ++ c_str d.version
      ++ codes ", \"plug\":"
      ++ dec plug
      ++ codes ", \"components\": ["
      ++ with_commas (map info_json (take d.component_count d.components))
      ++ codes "]}"

  component_infos-after :
      (cs : List (Component Float)) (n j : ℕ)
      → component_infos dec info_json cs n (suc j) ≡ after_commas (map info_json (take n cs))
  unfolding component_infos
  component_infos-after [] zero j = refl
  component_infos-after [] (suc n) j = refl
  component_infos-after (c ∷ cs) zero j = refl
  component_infos-after (c ∷ cs) (suc n) j =
      let later : (suc j == 0) ≡ false = ground arith in
      let next : suc j + 1 ≡ suc (suc j) = omega arith in
      rw (component_infos, later, next)
        (ap (λ t. codes "," ++ (info_json c ++ t)) (component_infos-after cs n (suc j)))

  component_infos_lem :
      (cs : List (Component Float)) (n : ℕ)
      → component_infos dec info_json cs n 0 ≡ with_commas (map info_json (take n cs))
  unfolding component_infos
  component_infos_lem [] zero = refl
  component_infos_lem [] (suc n) = refl
  component_infos_lem (c ∷ cs) zero = refl
  component_infos_lem (c ∷ cs) (suc n) = ap (λ t. info_json c ++ t) (component_infos-after cs n 0)

  device_entry_lem :
      (i : ℕ) (d : Device Float) → device_entry dec info_json i d ≡ told_device (i + 1, d)
  unfolding device_entry
  device_entry_lem i d = rw (component_infos_lem d.components d.component_count) refl

module _ {Float : Type 0} (dec : ℕ → Text) (info_json : Component Float → Text) (config : Config)
    (wifi : config.wifi_enabled ≡ true) where
  -- The members and the messages of the devices from a plug on, which is counted from 1.
  abbrev pub entries : ℕ → List (Device Float) → List Text
  entries plug ds = map (told_device dec info_json config) (connected_from plug ds)

  abbrev pub hub_messages : ℕ → List (Device Float) → List (Text × Text)
  hub_messages plug ds = map (told_hub dec info_json config) (connected_from plug ds)

  describe_lem :
      (i : ℕ) (first : Bool) (ds : List (Device Float))
      → ((describe_devices dec info_json config i first ds).0
          ≡ (if first then with_commas (entries (i + 1) ds) else after_commas (entries (i + 1) ds)))
        × ((describe_devices dec info_json config i first ds).1 ≡ hub_messages (i + 1) ds)
  unfolding describe_devices
  describe_lem i true [] = (refl, refl)
  describe_lem i false [] = (refl, refl)
  describe_lem i true (d ∷ ds) = elim (Bool-cases d.connected) [
    | inl there ↦
        let (text, told) = describe_lem (i + 1) false ds in
        rw (describe_devices, there, wifi)
          (
            ap₂ ◌++◌ (device_entry_lem dec info_json config i d) text,
            ap (◌∷◌ (told_hub dec info_json config (i + 1, d))) told,
          )
    | inr gone ↦ rw (describe_devices, gone) (describe_lem (i + 1) true ds)
  ]
  describe_lem i false (d ∷ ds) = elim (Bool-cases d.connected) [
    | inl there ↦
        let (text, told) = describe_lem (i + 1) false ds in
        rw (describe_devices, there, wifi)
          (
            ap (λ t. codes "," ++ t) (ap₂ ◌++◌ (device_entry_lem dec info_json config i d) text),
            ap (◌∷◌ (told_hub dec info_json config (i + 1, d))) told,
          )
    | inr gone ↦ rw (describe_devices, gone) (describe_lem (i + 1) false ds)
  ]

  -- With WiFi enabled, `sendDeviceInfo` makes for each connected device, in the order of the plugs, a
  -- message for the device's topic with the ID of the hub, and then one object with a member for
  -- each of these devices, in the same order: its ID, its version, its plug, counted from 1, and
  -- the infos of its components in use, with commas between them.
  pub device_info_messages_lem :
      (ds : List (Device Float))
      → device_info_messages dec info_json config ds
        ≡ hub_messages 1 ds
          ++ (
            hub_topic config (codes "/devices"),
            codes "{" ++ with_commas (entries 1 ds) ++ codes "}",
          )
            ∷ []
  unfolding device_info_messages
  device_info_messages_lem ds =
      let (text, told) = describe_lem 0 true ds in
      let shown : with_commas (entries (0 + 1) ds) ≡ with_commas (entries 1 ds) = refl in
      rw (device_info_messages, text, told, wifi)

module _ {Float : Type 0} where
  published-counts :
      (s : Hub Float) (time max : ℕ) (client : MqttClient) (message : Text)
      → let t = (hub_publish s time client max message).1 in
        t.mqtt_out_count + t.err_count ≡ s.mqtt_out_count + s.err_count + 1
  unfolding hub_publish
  published-counts s time max client message = ground arith

  publish_all-counts :
      (s : Hub Float) (time max : ℕ) (clients : ℕ → MqttClient) (k : ℕ)
      (messages : List (Text × Text))
      → let t = publish_all s time max clients k messages in
        t.mqtt_out_count + t.err_count ≡ s.mqtt_out_count + s.err_count + length messages
  unfolding publish_all
  publish_all-counts s time max clients k [] = omega arith
  publish_all-counts s time max clients k ((name, message) ∷ messages) = omega (
    arith,
    published-counts s time max (clients k) message,
    publish_all-counts (hub_publish s time (clients k) max message).1 time max clients (k + 1)
        messages,
  )
