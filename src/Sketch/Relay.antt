-- ===== src/Sketch/Relay.antt =====
-- device-relay/device-relay.ino: a relay that the hub sets.
pub mod Serve
use sensaurus.Prelude.{
  ℕ, ◌&&◌, Bool, List, [], ◌∷◌, ◌++◌, Option, none, some, leb, if◌then◌else◌, Text, codes,
}
use sensaurus.CText.{text_eq}
use sensaurus.CheckStream.{CheckStream, check_stream}
use sensaurus.Sensaur.{Parsed, arg, command}
use sensaurus.Sketch.{
  Core, Line, incoming_all, answer_error, print_line, atoi, PinOp, mode_in, digital_write,
  led_start_up, red_pin, green_pin, blue_pin,
}

abbrev pub relay_pin : ℕ
relay_pin = 2

-- The globals; `pins` is what was done to the pins.
pub record Relay : Type 0 where
  pub out : CheckStream
  pub relay_state : ℕ
  pub device_id : ℕ
  pub pins : List PinOp

-- `setup`, with the ID that `getDeviceId` returns.
pub relay_setup : ℕ → Relay
relay_setup id = record {
  out = check_stream;
  relay_state = 0;
  device_id = id;
  pins =
      PinOp.mode_out relay_pin
      ∷ digital_write relay_pin 0
      ∷ mode_in 4
      ∷ led_start_up red_pin green_pin blue_pin;
}

module _ {Float : Type 0} (core : Core Float) where
  -- The command `s`.
  unfoldable pub relay_set : Relay → ℕ → Relay
  relay_set s v = record s {
    out = print_line core.printer s.out (codes "s:" ∷ core.dec v ∷ []);
    relay_state = v;
    pins =
        s.pins
        ++ digital_write relay_pin v
          ∷ digital_write red_pin v
          ∷ digital_write green_pin v
          ∷ digital_write blue_pin v
          ∷ [];
  }

  -- `processMessage`.
  unfoldable pub relay_message : Relay → Parsed → Option Relay
  unfolding relay_set
  relay_message s r =
      if text_eq (command r) (codes "v")
      then some (record s {
        out = print_line core.printer s.out (codes "v:" ∷ core.dec s.relay_state ∷ []);
      })
      else if text_eq (command r) (codes "s") && leb 1 r.ret
      then elim (arg r 0) [ none ↦ none | some text ↦ some (relay_set s (atoi text)) ]
      else if text_eq (command r) (codes "m")
      then some (record s {
        out =
            print_line core.printer s.out
              (codes "m:1;" ∷ core.printer.hex s.device_id ∷ codes ";o,relay" ∷ []);
      })
      else elim (answer_error core.printer s.out r) [
        | none ↦ none
        | some out ↦ some (record s { out = out })
      ]

  -- `loop`: the bytes from the hub, then those from the computer.
  unfoldable pub relay_loop : Line → Relay → List ℕ → List ℕ → Option (Line × Relay)
  relay_loop l s from_hub from_computer = elim (incoming_all relay_message l s from_hub) [
    | none ↦ none
    | some (l', s') ↦ incoming_all relay_message l' s' from_computer
  ]
