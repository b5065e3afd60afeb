-- ===== src/Hub.antt =====
-- hub-esp32/hub-esp32.ino: the hub's polling of its devices and its handling of what they answer,
-- as it is built without USE_SWSERIAL. `none` is a pointer read that was never set.
pub mod Receive
pub mod Take
pub mod Response
pub mod Exchange
pub mod Values
pub mod Silence
pub mod Publish
pub mod Actuators
pub mod SwSerial
pub mod Network
pub mod Control
pub mod Loop
pub mod Start
pub mod Ota
pub mod Report
pub mod Sample
mod Tests
use sensaurus.Prelude.{
  ℕ, zero, suc, ◌+◌, ◌-◌, ◌<◌, ◌≤◌, Bool, true, false, ◌&&◌, not, List, [], ◌∷◌, ◌++◌, Option, none,
  some, set, get_or, get_elem?, replicate, ltb, leb, ◌==◌, if◌then◌else◌, Text, codes,
}
use sensaurus.CText.{c_str}
use sensaurus.Config.{Config}
use sensaurus.CText.Number.{Printer}
use sensaurus.CheckStream.{CheckStream, write_all, crlf}
use sensaurus.Sensaur.{esp32, checksum_ok, parse_message, Parsed, arg}
use sensaurus.SensaurDevice.{
  Component, set_value, set_info, Device, set_id, set_version, set_connected, no_response,
  responded, reset_error_count, inc_error_count, set_component_count, reset_components,
  max_component_count,
}

abbrev pub max_device_count : ℕ
max_device_count = 6

abbrev pub device_message_buf_len : ℕ
device_message_buf_len = 200

abbrev pub err_checksum : ℕ
err_checksum = 1

-- What the hub does to the outside, other than its lines to the devices.
pub data Event : Type 0 where
  console : Text → Event
  led : ℕ → Bool → Event
  status_led : ℕ → Event
  send_device_info : Event
  send_status : Event
  send_sensor_values : ℕ → Event
  dump_config : Config → Event
  log_level_set : ℕ → Event
  wifi_begin : Event
  start_ble : Event
  free_heap : Event
  restart : Event

-- The globals; `time` is what `millis` returns, for the messages that are handled now.
pub record Hub (Float : Type 0) : Type 0 where
  pub devices : List (Device Float)
  pub dev_stream : List CheckStream
  pub config : Config
  pub err_last_ts : ℕ
  pub err_count : ℕ
  pub err_last_error_code : ℕ
  pub mqtt_out_count : ℕ
  pub events : List Event

module _ {Float : Type 0} where
  unfoldable pub set_last_error : Hub Float → ℕ → ℕ → Hub Float
  set_last_error s time code = record s {
    err_last_ts = time;
    err_last_error_code = code;
    err_count = s.err_count + 1;
  }

  -- Change the `i`-th device, where there is one.
  unfoldable pub with_device : Hub Float → ℕ → (Device Float → Device Float) → Hub Float
  with_device s i f = elim (get_elem? s.devices i) [
    | none ↦ s
    | some d ↦ record s { devices = set s.devices i (f d) }
  ]

  unfoldable pub emit : Hub Float → List Event → Hub Float
  emit s es = record s { events = s.events ++ es }

  -- The loop over the first `n` components at a values message, at the `k`-th argument.
  unfoldable pub take_values :
      List (Component Float) → ℕ → Parsed → ℕ → Option (List (Component Float))
  unfolding set_value arg
  take_values [] n r k = some []
  take_values (c ∷ cs) zero r k = some (c ∷ cs)
  take_values (c ∷ cs) (suc n) r k =
      let skipped = take_values cs n r k in
      let taken = take_values cs n r (k + 1) in
      if c.dir == b'i' && ltb k r.ret
      then elim (arg r k) [
        | none ↦ none
        | some text ↦ elim taken [ none ↦ none | some rest ↦ some (set_value c text ∷ rest) ]
      ]
      else elim skipped [ none ↦ none | some rest ↦ some (c ∷ rest) ]

  -- The loop over the first `n` components at a metadata message, at the `k`-th argument.
  unfoldable pub take_infos :
      List (Component Float) → ℕ → Parsed → ℕ → Option (List (Component Float))
  unfolding set_info arg
  take_infos [] n r k = some []
  take_infos (c ∷ cs) zero r k = some (c ∷ cs)
  take_infos (c ∷ cs) (suc n) r k =
      let others = take_infos cs n r (k + 1) in
      elim (arg r k) [
        | none ↦ none
        | some text ↦ elim others [ none ↦ none | some rest ↦ some (set_info c text ∷ rest) ]
      ]

  -- The version, the ID and the first `n` components of a device, from its metadata.
  unfoldable pub take_components : Device Float → Text → Text → ℕ → Parsed → Option (Device Float)
  unfolding take_infos set_version set_id set_component_count
  take_components d version id n r = elim (take_infos d.components n r 2) [
    | none ↦ none
    | some components ↦ some (record (set_component_count (set_id (set_version d version) id) n) {
      components = components;
    })
  ]

  -- A metadata message of a device.
  unfoldable pub take_metadata : Device Float → Parsed → Option (Device Float)
  unfolding take_components
  take_metadata d r = elim (arg r 0) [
    | none ↦ none
    | some version ↦ elim (arg r 1) [
      | none ↦ none
      | some id ↦
          let count = r.ret - 2 in
          take_components d version id
            (if ltb max_component_count count then max_component_count else count) r
    ]
  ]

  -- What a checked message makes of the device that sent it; true for new metadata.
  unfoldable pub take_message : Device Float → Text → Option (Device Float × Bool)
  unfolding take_values take_metadata
  take_message d text =
      if get_or text 0 0 == b'v'
      then elim (take_values d.components d.component_count
          (parse_message esp32 text (max_component_count + 1) b',') 0) [
            | none ↦ none
            | some components ↦ some (record d { components = components }, false)
          ]
      else if get_or text 0 0 == b'm'
      then (let r = parse_message esp32 text (max_component_count + 1) b';' in
          if ltb 2 r.ret
          then elim (take_metadata d r) [ none ↦ none | some d' ↦ some (d', true) ]
          else some (d, false))
      else some (d, false)

  -- The echo on the console; `dec` prints the plug's number.
  unfoldable pub echo_message : (ℕ → Text) → Hub Float → ℕ → Text → Hub Float
  unfolding emit
  echo_message dec s i message =
      if s.config.console_enabled
      then emit s (console (dec (i + 1) ++ b'>' ∷ (message ++ crlf)) ∷ [])
      else s

  -- A message with a wrong checksum is counted, for the hub and for the device.
  unfoldable pub refuse_message : Hub Float → ℕ → ℕ → Hub Float
  unfolding set_last_error with_device inc_error_count
  refuse_message s time i =
      with_device (set_last_error s time err_checksum) i (λ d. (inc_error_count d).0)

  -- A message with a right checksum, cut off before its mark.
  unfoldable pub accept_message : Hub Float → ℕ → Text → Option (Hub Float)
  unfolding take_message emit
  accept_message s i text = elim (get_elem? s.devices i) [
    | none ↦ some s
    | some d ↦ elim (take_message d text) [
      | none ↦ none
      | some (d', described) ↦
          let taken : Hub Float = record s { devices = set s.devices i d' } in
          some (if described then emit taken (led i true ∷ send_device_info ∷ []) else taken)
    ]
  ]

  -- `processMessageFromDevice`.
  unfoldable pub process_message_from_device :
      (ℕ → Text) → Hub Float → ℕ → ℕ → Text → Option (Hub Float)
  unfolding echo_message refuse_message accept_message
  process_message_from_device dec s time i message =
      let echoed = echo_message dec s i message in
      let (good, text) = checksum_ok esp32 message true in
      if good then accept_message echoed i text else some (refuse_message echoed time i)
