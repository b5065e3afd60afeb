-- ===== src/Sketch/Tests/Sensors.antt =====
-- The sensors' sketches at concrete readings.
use sensaurus.Prelude.{ℕ, ◌+◌, refl, false, List, [], ◌∷◌, none, replicate, length, Text, codes}
use sensaurus.CheckStream.{check_stream}
use sensaurus.Sensaur.{Parsed}
use sensaurus.Sensaur.Parse.{Reads}
use sensaurus.Sketch.Sensing.{Sensing}
use sensaurus.Sketch.Oxygen.{Oxygen}

-- A sensor that always sends the same bytes.
abbrev always : ℕ → List ℕ × ℕ
always n = (34 ∷ 2 ∷ 10 ∷ 46 ∷ [], n + 1)

abbrev new_sensor : Sensing ℕ
new_sensor = record {
  out = check_stream;
  device_id = 7;
  last = 0;
  valid = false;
  sensor = 0;
  pins = [];
}

abbrev asks_value : Parsed
asks_value = record { ret = 0; buffer = codes "v"; args = replicate 5 none }

asks_value-Reads : Reads (codes "v") [] asks_value
unfolding sensaurus.CText.c_str
asks_value-Reads = record { ret_is = refl; command_is = refl; args_are = refl }

-- `atof` by the length of the text.
abbrev text_length : Text → ℕ
text_length s = length s

abbrev new_oxygen : Oxygen ℕ
new_oxygen = record {
  out = check_stream;
  device_id = 7;
  ox = 0;
  ox_buf = replicate 80 0;
  ox_buf_index = 0;
  pins = [];
}
