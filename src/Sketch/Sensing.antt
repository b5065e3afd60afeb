-- ===== src/Sketch/Sensing.antt =====
-- The sketches that measure one number: device-co2, device-tsl2561 and device-veml7700. Each reads
-- its sensor behind the answer, and before the first one.
pub mod Co2
use sensaurus.Prelude.{
  ℕ, ◌+◌, ◌*◌, ◌/◌, ◌%◌, ◌^◌, ◌&&◌, Bool, true, false, List, [], ◌∷◌, ◌++◌, Option, none, some, leb,
  ltb, ◌==◌, get_or, set, if◌then◌else◌, Text, codes, u8, u16, bit_and, bit_or, ◌<<<◌, ◌>>>◌,
}
use sensaurus.CText.{text_eq}
use sensaurus.CheckStream.{CheckStream, check_stream}
use sensaurus.Sensaur.{Parsed, command}
use sensaurus.Sketch.{
  Core, Line, incoming_all, answer_other, print_line, PinOp, pause, digital_write, ard_led_pin,
  sensor_pins,
}

-- The globals: the last value, by its 16 bits, and the sensor behind it.
pub record Sensing (Sensor : Type 0) : Type 0 where
  pub out : CheckStream
  pub device_id : ℕ
  pub last : ℕ
  pub valid : Bool
  pub sensor : Sensor
  pub pins : List PinOp

pub sensing_setup : {Sensor : Type 0} → ℕ → Sensor → Sensing Sensor
sensing_setup id sensor = record {
  out = check_stream;
  device_id = id;
  last = 0;
  valid = false;
  sensor = sensor;
  pins = sensor_pins;
}

module _ {Float Sensor : Type 0} (core : Core Float) where
  -- The answer to `v`, and the reading behind it.
  unfoldable pub answer_value : (Sensing Sensor → Sensing Sensor) → Sensing Sensor → Sensing Sensor
  answer_value read_sensor s =
      let fresh = if s.valid then s else read_sensor s in
      read_sensor (record fresh {
        out = print_line core.printer fresh.out (codes "v:" ∷ core.dec fresh.last ∷ []);
        pins =
            fresh.pins ++ digital_write ard_led_pin 1 ∷ pause 20 ∷ digital_write ard_led_pin 0 ∷ [];
      })

  unfoldable pub sensing_message :
      (Sensing Sensor → Sensing Sensor) → Text → Sensing Sensor → Parsed → Option (Sensing Sensor)
  unfolding answer_value
  sensing_message read_sensor metadata s r =
      if text_eq (command r) (codes "v")
      then some (answer_value read_sensor s)
      else elim (answer_other core s.out s.device_id metadata r) [
        | none ↦ none
        | some out ↦ some (record s { out = out })
      ]

-- The TSL2561 driver: the full luminosity, of 32 bits, and the lux of a full and an infrared part.
pub record Tsl2561 (Sensor : Type 0) : Type 0 where
  pub get_full_luminosity : Sensor → ℕ × Sensor
  pub calculate_lux : ℕ → ℕ → ℕ

module _ {Float Sensor : Type 0} (core : Core Float) where
  unfoldable pub tsl2561_read_sensor : Tsl2561 Sensor → Sensing Sensor → Sensing Sensor
  tsl2561_read_sensor tsl s =
      let (lum, sensor) = tsl.get_full_luminosity s.sensor in
      let ir = u16 (lum >>> 16) in
      let full = u16 (bit_and lum 0xFFFF) in
      record s { last = u16 (tsl.calculate_lux full ir); valid = true; sensor = sensor }

  -- `processMessage` of device-tsl2561 waits for a moment before its answer.
  unfoldable pub tsl2561_message :
      Tsl2561 Sensor → Sensing Sensor → Parsed → Option (Sensing Sensor)
  unfolding tsl2561_read_sensor sensing_message
  tsl2561_message tsl s r =
      sensing_message core (tsl2561_read_sensor tsl) (codes ";i,light,TSL2561,lux")
        (record s { pins = s.pins ++ pause 5 ∷ [] }) r

  unfoldable pub tsl2561_loop :
      Tsl2561 Sensor → Line → Sensing Sensor → List ℕ → Option (Line × Sensing Sensor)
  tsl2561_loop tsl l s bytes = incoming_all (tsl2561_message tsl) l s bytes

  -- `readLux` of the VEML7700 driver is the parameter: the reading as an `int`.
  unfoldable pub veml7700_read_sensor : (Sensor → ℕ × Sensor) → Sensing Sensor → Sensing Sensor
  veml7700_read_sensor read_lux s =
      let (lux, sensor) = read_lux s.sensor in
      record s { last = u16 lux; valid = true; sensor = sensor }

  unfoldable pub veml7700_message :
      (Sensor → ℕ × Sensor) → Sensing Sensor → Parsed → Option (Sensing Sensor)
  unfolding veml7700_read_sensor sensing_message
  veml7700_message read_lux s r =
      sensing_message core (veml7700_read_sensor read_lux) (codes ";i,light,VEML7700,lux")
        (record s { pins = s.pins ++ pause 5 ∷ [] }) r

  unfoldable pub veml7700_loop :
      (Sensor → ℕ × Sensor) → Line → Sensing Sensor → List ℕ → Option (Line × Sensing Sensor)
  veml7700_loop read_lux l s bytes = incoming_all (veml7700_message read_lux) l s bytes

-- The loop that reads what the sensor sends into its four bytes.
unfoldable pub fill_buffer : List ℕ → ℕ → List ℕ → List ℕ
fill_buffer buffer i [] = buffer
fill_buffer buffer i (b ∷ bytes) = fill_buffer (set buffer i b) (i + 1) bytes

-- `readCO2` on the bytes that the sensor sends, four at most: the 16 bits of the result, where
-- 0xFFFF is -1.
unfoldable pub read_co2 : List ℕ → ℕ
unfolding fill_buffer
read_co2 bytes =
    let buffer = fill_buffer (0 ∷ 0 ∷ 0 ∷ 0 ∷ []) 0 bytes in
    let high = bit_or 0 (bit_and (get_or buffer 1 0) 0xFF) in
    let value = bit_or (u16 (high <<< 8)) (bit_and (get_or buffer 2 0) 0xFF) in
    let sum = u8 (get_or buffer 0 0 + get_or buffer 1 0 + get_or buffer 2 0) in
    if sum == get_or buffer 3 0 then value else 0xFFFF

-- The sensor on the bus: what it sends at each request.
module _ {Float Sensor : Type 0} (core : Core Float) (request : Sensor → List ℕ × Sensor) where
  -- `if (v > 0)` is signed.
  unfoldable pub co2_read_sensor : Sensing Sensor → Sensing Sensor
  unfolding read_co2
  co2_read_sensor s =
      let (bytes, sensor) = request s.sensor in
      let v = read_co2 bytes in
      record s {
        last = if ltb 0 v && ltb v (2 ^ 15) then v else s.last;
        valid = true;
        sensor = sensor;
      }

  unfoldable pub co2_message : Sensing Sensor → Parsed → Option (Sensing Sensor)
  unfolding co2_read_sensor sensing_message
  co2_message s r = sensing_message core co2_read_sensor (codes ";i,CO2,K-30,PPM") s r

  unfoldable pub co2_loop : Line → Sensing Sensor → List ℕ → List ℕ → Option (Line × Sensing Sensor)
  co2_loop l s from_hub from_computer = elim (incoming_all co2_message l s from_hub) [
    | none ↦ none
    | some (l', s') ↦ incoming_all co2_message l' s' from_computer
  ]
