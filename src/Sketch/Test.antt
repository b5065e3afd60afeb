-- ===== src/Sketch/Test.antt =====
-- device-test/device-test.ino: two outputs, and two inputs that show what was set.
use sensaurus.Prelude.{ℕ, ◌&&◌, List, [], ◌∷◌, ◌++◌, Option, none, some, leb, if◌then◌else◌, codes}
use sensaurus.CText.{text_eq}
use sensaurus.CheckStream.{CheckStream, check_stream}
use sensaurus.Sensaur.{Parsed, arg, command}
use sensaurus.Sketch.{
  Core, Line, incoming_all, answer_error, print_line, atoi, PinOp, mode_in, pause, digital_write,
  led_start_up, red_pin, green_pin, blue_pin, ard_led_pin,
}

pub record Outputs : Type 0 where
  pub out : CheckStream
  pub val1 : ℕ
  pub val2 : ℕ
  pub device_id : ℕ
  pub pins : List PinOp

pub test_setup : ℕ → Outputs
test_setup id = record {
  out = check_stream;
  val1 = 0;
  val2 = 0;
  device_id = id;
  pins = mode_in 4 ∷ led_start_up red_pin green_pin blue_pin;
}

module _ {Float : Type 0} (core : Core Float) where
  unfoldable pub test_values : Outputs → Outputs
  test_values s =
      let one = core.dec s.val1 in
      let two = core.dec s.val2 in
      record s {
        out =
            print_line core.printer s.out
              (codes "v:" ∷ one ∷ codes "," ∷ two ∷ codes "," ∷ one ∷ codes "," ∷ two ∷ []);
        pins = s.pins ++ digital_write ard_led_pin 1 ∷ pause 20 ∷ digital_write ard_led_pin 0 ∷ [];
      }

  unfoldable pub test_set : Outputs → ℕ → ℕ → Outputs
  test_set s one two = record s {
    out = print_line core.printer s.out (codes "s:" ∷ core.dec one ∷ codes "," ∷ core.dec two ∷ []);
    val1 = one;
    val2 = two;
    pins =
        s.pins
        ++ digital_write red_pin one ∷ digital_write green_pin 0 ∷ digital_write blue_pin two ∷ [];
  }

  unfoldable pub test_message : Outputs → Parsed → Option Outputs
  unfolding test_values test_set
  test_message s r =
      if text_eq (command r) (codes "v")
      then some (test_values s)
      else if text_eq (command r) (codes "s") && leb 2 r.ret
      then elim (arg r 0) [
        | none ↦ none
        | some one ↦ elim (arg r 1) [
          | none ↦ none
          | some two ↦ some (test_set s (atoi one) (atoi two))
        ]
      ]
      else if text_eq (command r) (codes "m")
      then some (record s {
        out = print_line core.printer s.out (
            codes "m:1;"
            ∷ core.printer.hex s.device_id
            ∷ codes ";o,out 1 test"
            ∷ codes ";o,out 2 test"
            ∷ codes ";i,in 1 test"
            ∷ codes ";i,in 2 test"
            ∷ []);
      })
      else elim (answer_error core.printer s.out r) [
        | none ↦ none
        | some out ↦ some (record s { out = out })
      ]

  unfoldable pub test_loop : Line → Outputs → List ℕ → List ℕ → Option (Line × Outputs)
  test_loop l s from_hub from_computer = elim (incoming_all test_message l s from_hub) [
    | none ↦ none
    | some (l', s') ↦ incoming_all test_message l' s' from_computer
  ]
