-- ===== src/Sketch/Dht22.antt =====
-- device-dht22/device-dht22.ino: temperature and humidity, read behind each answer.
use sensaurus.Prelude.{
  ℕ, Bool, true, false, List, [], ◌∷◌, ◌++◌, Option, none, some, if◌then◌else◌, codes,
}
use sensaurus.CText.{text_eq}
use sensaurus.CheckStream.{CheckStream, check_stream}
use sensaurus.Sensaur.{Parsed, command}
use sensaurus.Sketch.{
  Core, Line, incoming_all, answer_other, print_line, PinOp, pause, digital_write, ard_led_pin,
  sensor_pins,
}

-- The DHT driver.
pub record Dht (Float Sensor : Type 0) : Type 0 where
  pub read_temperature : Sensor → Float × Sensor
  pub read_humidity : Sensor → Float × Sensor

pub record Climate (Float Sensor : Type 0) : Type 0 where
  pub out : CheckStream
  pub device_id : ℕ
  pub temperature : Float
  pub humidity : Float
  pub valid : Bool
  pub sensor : Sensor
  pub pins : List PinOp

pub dht22_setup : {Float Sensor : Type 0} → Float → ℕ → Sensor → Climate Float Sensor
dht22_setup zero_value id sensor = record {
  out = check_stream;
  device_id = id;
  temperature = zero_value;
  humidity = zero_value;
  valid = false;
  sensor = sensor;
  pins = sensor_pins;
}

module _ {Float Sensor : Type 0} (core : Core Float) (dht : Dht Float Sensor) where
  unfoldable pub read_climate : Climate Float Sensor → Climate Float Sensor
  read_climate s =
      let (temperature, sensor) = dht.read_temperature s.sensor in
      let (humidity, sensor') = dht.read_humidity sensor in
      record s { temperature = temperature; humidity = humidity; sensor = sensor' }

  unfoldable pub answer_climate : Climate Float Sensor → Climate Float Sensor
  unfolding read_climate
  answer_climate s =
      let fresh =
        if s.valid then s else (let read = read_climate s in record read { valid = true }) in
      read_climate (record fresh {
        out = print_line core.printer fresh.out (
            codes "v:" ∷ core.fixed fresh.temperature ∷ codes "," ∷ core.fixed fresh.humidity ∷ []);
        pins =
            fresh.pins ++ digital_write ard_led_pin 1 ∷ pause 20 ∷ digital_write ard_led_pin 0 ∷ [];
      })

  unfoldable pub dht22_message : Climate Float Sensor → Parsed → Option (Climate Float Sensor)
  unfolding answer_climate
  dht22_message s r =
      if text_eq (command r) (codes "v")
      then some (answer_climate s)
      else elim (answer_other core s.out s.device_id
          (codes ";i,temperature,DHT22,degrees C;i,humidity,DHT22,percent") r) [
            | none ↦ none
            | some out ↦ some (record s { out = out })
          ]

  unfoldable pub dht22_loop :
      Line → Climate Float Sensor → List ℕ → Option (Line × Climate Float Sensor)
  dht22_loop l s bytes = incoming_all dht22_message l s bytes
