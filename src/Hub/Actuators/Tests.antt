-- ===== src/Hub/Actuators/Tests.antt =====
-- A device with an input between two outputs.
use sensaurus.Prelude.{
  ℕ, ◌+◌, ◌%◌, ◌≡◌, refl, arith, true, false, List, [], ◌∷◌, ◌++◌, Text, codes, replicate,
}
use sensaurus.CText.Hex.{arduino_printer}
use sensaurus.CheckStream.{check_stream}
use sensaurus.CheckStream.Buffer.{IsReady, frame}
use sensaurus.Sensaur.Parse.{message}
use sensaurus.SensaurDevice.{Component, blank_component, set_actuator_value, Device}
use sensaurus.CText.{c_str, text_eq}
use sensaurus.Hub.Actuators.{apply_members, output_parts, print_parts}
use sensaurus.Hub.Actuators.Settings.{output_values, print_parts_message}

abbrev digit : ℕ → Text
digit n = (n % 10 + b'0') ∷ []

abbrev named : ℕ → Text → Component ℕ
named dir suffix = record (blank_component 0) { dir = dir; id_suffix = suffix ++ 0 ∷ [] }

abbrev switch : Device ℕ
switch = record {
  version = replicate 10 0;
  id = codes "7F" ++ 0 ∷ [];
  connected = true;
  component_count = 3;
  no_response_count = 0;
  error_count = 0;
  components =
      named b'o' (codes "out 1") ∷ named b'i' (codes "in 1") ∷ named b'o' (codes "out 2") ∷ [];
}

abbrev outputs : List (Component ℕ)
outputs = switch.components

set_by_key :
    output_values digit (apply_members switch ((codes "7F-out 2", 5) ∷ [])).0.components 3
    ≡ codes "0" ∷ codes "5" ∷ []
unfolding apply_members output_values set_actuator_value text_eq c_str
set_by_key = refl

two_values : output_values digit outputs 3 ≡ codes "0" ∷ codes "0" ∷ []
unfolding output_values
two_values = refl

print_parts_message_example :
    let t =
      print_parts arduino_printer check_stream (codes "s:" ∷ output_parts digit outputs 3 true) in
    (t.sent
      ≡ []
        ++ frame arduino_printer false (message b',' (codes "s") (output_values digit outputs 3)))
    × IsReady t
unfolding output_values
print_parts_message_example =
    print_parts_message digit arduino_printer check_stream outputs 3 (omega arith) (omega arith)
      (record { crc_reset = refl; at_start = refl; buffer_size = refl })
