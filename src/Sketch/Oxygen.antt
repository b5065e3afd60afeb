-- ===== src/Sketch/Oxygen.antt =====
-- device-o2/device-o2.ino: the oxygen sensor writes lines such as
-- "O 0213.7 T +22.2 P 1010 % 021.16 e 0000" on its own serial line. `atof` is a parameter.
pub mod Reading
use sensaurus.Prelude.{
  ℕ, suc, ◌+◌, ◌&&◌, Bool, List, [], ◌∷◌, ◌++◌, Option, none, some, replicate, drop, set, ltb, ◌==◌,
  if◌then◌else◌, Text, codes,
}
use sensaurus.CText.{c_str, text_eq}
use sensaurus.CheckStream.{CheckStream, check_stream}
use sensaurus.Sensaur.{Parsed, command}
use sensaurus.Sketch.{
  Core, Line, incoming_all, answer_other, print_line, PinOp, pause, digital_write, ard_led_pin,
  sensor_pins,
}

abbrev pub ox_buf_len : ℕ
ox_buf_len = 80

pub record Oxygen (Float : Type 0) : Type 0 where
  pub out : CheckStream
  pub device_id : ℕ
  pub ox : Float
  pub ox_buf : List ℕ
  pub ox_buf_index : ℕ
  pub pins : List PinOp

pub o2_setup : {Float : Type 0} → Float → ℕ → Oxygen Float
o2_setup zero_value id = record {
  out = check_stream;
  device_id = id;
  ox = zero_value;
  ox_buf = replicate ox_buf_len 0;
  ox_buf_index = 0;
  pins = sensor_pins;
}

-- `indexOf(str, c)` for a character `c` other than NUL; `none` is the result -1.
unfoldable pub index_of : Text → ℕ → Option ℕ
index_of [] c = none
index_of (s ∷ str) c =
    let rest = index_of str c in
    if s == c then some 0 else elim rest [ none ↦ none | some i ↦ some (suc i) ]

module _ {Float : Type 0} (atof : Text → Float) where
  unfoldable pub parse_ox_buf : Oxygen Float → Oxygen Float
  unfolding index_of
  parse_ox_buf s =
      let buf = set s.ox_buf s.ox_buf_index 0 in
      let text = c_str buf in
      let ox : Float = elim (index_of text b'%') [
        | none ↦ s.ox
        | some start ↦
            if ltb 0 start && ltb (start + 2) s.ox_buf_index
            then atof (c_str (drop (start + 2) buf))
            else s.ox
      ] in
      record s { ox = ox; ox_buf = buf; ox_buf_index = 0 }

  -- The loop of `checkOx` over the bytes that are available.
  unfoldable pub check_ox : Oxygen Float → List ℕ → Oxygen Float
  unfolding parse_ox_buf
  check_ox s [] = s
  check_ox s (c ∷ cs) =
      check_ox
        (if c == 10
          then parse_ox_buf s
          else if ltb (s.ox_buf_index + 1) ox_buf_len
          then record s {
            ox_buf = set s.ox_buf s.ox_buf_index c;
            ox_buf_index = s.ox_buf_index + 1;
          }
          else s)
        cs

module _ {Float : Type 0} (core : Core Float) (atof : Text → Float) where
  unfoldable pub o2_message : Oxygen Float → Parsed → Option (Oxygen Float)
  o2_message s r =
      if text_eq (command r) (codes "v")
      then some (record s {
        out = print_line core.printer s.out (codes "v:" ∷ core.fixed s.ox ∷ []);
        pins = s.pins ++ digital_write ard_led_pin 1 ∷ pause 20 ∷ digital_write ard_led_pin 0 ∷ [];
      })
      else elim (answer_other core s.out s.device_id (codes ";i,O2,LOX-02,percent") r) [
        | none ↦ none
        | some out ↦ some (record s { out = out })
      ]

  -- `loop`: the bytes from the hub, then those from the sensor.
  unfoldable pub o2_loop : Line → Oxygen Float → List ℕ → List ℕ → Option (Line × Oxygen Float)
  unfolding check_ox
  o2_loop l s from_hub from_sensor = elim (incoming_all o2_message l s from_hub) [
    | none ↦ none
    | some (l', s') ↦ some (l', check_ox atof s' from_sensor)
  ]
