-- ===== src/Hub/Tests.antt =====
-- A hub with one device at its first plug, and answers of that device.
use sensaurus.Prelude.{
  ℕ, suc, ◌+◌, ◌≡◌, refl, arith, true, false, List, [], ◌∷◌, ◌++◌, none, some, replicate, map, All,
  get_elem?, Text, codes, inl, inr,
}
use sensaurus.CText.Hex.{arduino_printer, hex_text}
use sensaurus.Crc.{crc16_update, crc_of}
use sensaurus.Sensaur.{esp32, checksum_ok}
use sensaurus.Sensaur.Parse.{message, IsMessage}
use sensaurus.CText.{c_str}
use sensaurus.SensaurDevice.{Component, blank_component, Device}
use sensaurus.SensaurDevice.Info.{IsSized}
use sensaurus.Hub.Sample.{input, thermometer, small_hub}
use sensaurus.Hub.{Hub, take_message}
use sensaurus.Hub.Receive.{wait_for_response, drop_silent}
use sensaurus.Hub.Take.Held.{HoldValues, Info, info_text, HoldInfos, take_message_metadata}
use sensaurus.Hub.Take.Six.{take_message_six}
use sensaurus.Hub.Response.{InTime, bytes_of}
use sensaurus.Hub.Exchange.{wait_for_response_garbled}
use sensaurus.Hub.Values.{wait_for_response_values}
use sensaurus.Hub.Silence.{silence_disconnects}

abbrev one_value : List Text
one_value = codes "21" ∷ []

one_value-IsMessage : IsMessage 7 b',' (codes "v") one_value
one_value-IsMessage = record {
  separates = inl refl;
  command_clean = omega arith;
  fields_clean = omega arith;
  fits = omega arith;
  small = omega arith;
}

abbrev first_info : Info
first_info = (b'i', codes "CO2" ∷ [])

abbrev second_info : Info
second_info = (b'o', codes "x" ∷ [])

abbrev first_metadata : List Text
first_metadata = codes "1" ∷ codes "7F" ∷ map info_text (first_info ∷ second_info ∷ [])

first_metadata-IsMessage : IsMessage 7 b';' (codes "m") first_metadata
first_metadata-IsMessage = record {
  separates = inr refl;
  command_clean = omega arith;
  fields_clean = omega arith;
  fits = omega arith;
  small = omega arith;
}

blank-IsSized : IsSized {Float = ℕ} (blank_component 0)
blank-IsSized = record {
  value_size = refl;
  type_size = refl;
  model_size = refl;
  units_size = refl;
  suffix_size = refl;
}

input-IsSized : IsSized input
input-IsSized = record {
  value_size = refl;
  type_size = refl;
  model_size = refl;
  units_size = refl;
  suffix_size = refl;
}

thermometer-IsSized : All IsSized thermometer.components
thermometer-IsSized = (
  input-IsSized,
  (blank-IsSized, (blank-IsSized, (blank-IsSized, (blank-IsSized, (blank-IsSized, tt))))),
)

take_message_metadata_example :
    (d' : Device ℕ) × (take_message thermometer (message b';' (codes "m") first_metadata)
      ≡ some (d', true))
    × (c_str d'.version ≡ codes "1")
    × (c_str d'.id ≡ codes "7F")
    × (d'.component_count ≡ suc 1)
    × HoldInfos thermometer.components (first_info ∷ second_info ∷ []) d'.components
take_message_metadata_example =
    take_message_metadata thermometer (codes "1") (codes "7F") first_info (second_info ∷ [])
      first_metadata-IsMessage refl thermometer-IsSized refl refl (omega arith) (omega arith)
      (omega arith) (omega arith) (omega arith)

take_message_six_example :
    take_message thermometer
      (message b';' (codes "m") (codes "1" ∷ codes "7F" ∷ replicate 6 (codes "i,x")))
    ≡ none
take_message_six_example =
    take_message_six thermometer (codes "1") (codes "7F") (replicate 6 (codes "i,x")) refl refl
      (omega arith) (omega arith)

abbrev at_once : Text → List (ℕ × ℕ)
at_once [] = []
at_once (c ∷ cs) = (c, 1) ∷ at_once cs

in_time : (cs : Text) → InTime 50 (at_once cs)
in_time [] = tt
in_time (c ∷ cs) = (omega arith, in_time cs)

abbrev no_text : ℕ → Text
no_text n = []

wrong_checksum : (checksum_ok esp32 (codes "v:21") true).0 ≡ false
unfolding checksum_ok
wrong_checksum = refl

wait_for_response_garbled_example :
    (s' : Hub ℕ) × (wait_for_response no_text small_hub 9 0 (at_once (codes "v:21") ++ (13, 2) ∷ [])
      ≡ some s')
    × (get_elem? s'.devices 0
        ≡ some (record thermometer { error_count = 1; no_response_count = 0 }))
    × (s'.err_count ≡ 0 + 1)
wait_for_response_garbled_example =
    wait_for_response_garbled no_text 2 (at_once (codes "v:21")) [] small_hub 9 0 thermometer
      (in_time (codes "v:21")) (omega arith) (omega arith) (omega arith) refl refl wrong_checksum

abbrev answer : Text
answer = codes "v:21|" ++ codes "4232"

answer_is :
    bytes_of (at_once answer)
    ≡ message b',' (codes "v") one_value
      ++ b'|' ∷ arduino_printer.hex (crc_of 0xffff (message b',' (codes "v") one_value))
unfolding crc16_update hex_text
answer_is = refl

wait_for_response_values_example :
    (s' : Hub ℕ) × (es : List (Component ℕ)) × (wait_for_response no_text small_hub 9 0
        (at_once answer ++ (13, 2) ∷ [])
      ≡ some s')
    × (get_elem? s'.devices 0
        ≡ some (record thermometer { error_count = 0; no_response_count = 0; components = es }))
    × HoldValues thermometer.components 2 one_value es
wait_for_response_values_example =
    wait_for_response_values no_text 2 (at_once answer) [] small_hub 9 0 thermometer
      (in_time answer) (omega arith) (omega arith) (omega arith) refl arduino_printer one_value refl
      one_value-IsMessage (omega arith) (omega arith) (omega arith) answer_is

silence_disconnects_example :
    (s' : Hub ℕ) × (s'' : Hub ℕ) × (wait_for_response no_text small_hub 9 0 ((0, 50) ∷ [])
      ≡ some s')
    × (wait_for_response no_text s' 99 0 ((0, 50) ∷ []) ≡ some s'')
    × (get_elem? (drop_silent 0 s''.devices).0 0
        ≡ some (record thermometer {
          error_count = 0;
          no_response_count = 1 + 2;
          connected = false;
          component_count = 0;
        }))
silence_disconnects_example =
    silence_disconnects no_text small_hub 9 99 0 0 0 50 50 [] [] thermometer (omega arith)
      (omega arith) refl refl
