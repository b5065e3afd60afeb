-- ===== src/Sketch.antt =====
-- What the device sketches (device-*/device-*.ino) have in common: the line that is assembled from
-- the bytes that come in, and the answers on the line to the hub. `none` is a write outside an
-- array, or a pointer read that was never set.
pub mod Incoming
pub mod Answer
pub mod Identity
pub mod Plain
pub mod Exchange
pub mod Relay
pub mod Test
pub mod Dht22
pub mod Sensing
pub mod Oxygen
pub mod Sample
mod Tests
use sensaurus.Prelude.{
  ℕ, zero, suc, ◌+◌, ◌-◌, ◌*◌, Bool, true, false, ◌&&◌, not, List, [], ◌∷◌, ◌++◌, Option, none,
  some, set, drop, length, ltb, leb, ◌==◌, if◌then◌else◌, Text, codes, u8, All, ◌≡◌, ◌≢◌, ◌%◌, ◌^◌,
}
use sensaurus.CText.{c_str, skip_spaces, text_eq, within}
use sensaurus.CText.Number.{Printer}
use sensaurus.CheckStream.{CheckStream, write_all, crlf}
use sensaurus.CheckStream.Buffer.{IsLineByte}
use sensaurus.Sensaur.{Board, avr, Parsed, parse_message, arg, command}

abbrev pub message_buf_len : ℕ
message_buf_len = 80

abbrev pub max_args : ℕ
max_args = 5

-- What the Arduino core prints: an `int`, given by its 16 bits, in decimal, and a `float`. Neither
-- holds a NUL or a line end.
pub record Core (Float : Type 0) : Type 0 where
  pub printer : Printer
  pub dec : ℕ → Text
  pub fixed : Float → Text
  pub dec_is_plain : (n : ℕ) → All IsLineByte (dec n)
  pub fixed_is_plain : (x : Float) → All IsLineByte (fixed x)

-- The globals `message` and `messageIndex`.
pub record Line : Type 0 where
  pub message : List ℕ
  pub message_index : ℕ

-- `processIncomingByte`, for a sketch with state `S` and its `processMessage`.
module _ {S : Type 0} (process_message : S → Parsed → Option S) where
  -- The line is complete: parse it in place and process it.
  unfoldable pub line_end : Line → S → Option (Line × S)
  line_end l s =
      if l.message_index == 0
      then some (l, s)
      else if ltb l.message_index message_buf_len
      then (let message = set l.message l.message_index 0 in
          let text = c_str message in
          let r = parse_message avr text max_args b',' in
          let left : Line = record {
            message = r.buffer ++ drop (length text) message;
            message_index = 0;
          } in
          if leb 0 r.ret
          then elim (process_message s r) [ none ↦ none | some s' ↦ some (left, s') ]
          else some (left, s))
      else none

  unfoldable pub incoming : Line → S → ℕ → Option (Line × S)
  unfolding line_end
  incoming l s c =
      if c == 13
      then line_end l s
      else if ltb l.message_index message_buf_len && not (c == 10)
      then some (
        record { message = set l.message l.message_index c; message_index = l.message_index + 1 },
        s,
      )
      else some (l, s)

  -- The loop over the bytes that are available.
  unfoldable pub incoming_all : Line → S → List ℕ → Option (Line × S)
  unfolding incoming
  incoming_all l s [] = some (l, s)
  incoming_all l s (c ∷ cs) = elim (incoming l s c) [
    | none ↦ none
    | some (l', s') ↦ incoming_all l' s' cs
  ]

-- The loop that prints the arguments of a message that is not understood: ';' before the first
-- one and ',' before the others. `n` arguments are left, `i` is the next one.
unfoldable pub echo_args : Printer → CheckStream → Parsed → ℕ → ℕ → Option CheckStream
unfolding arg
echo_args p out r i zero = some out
echo_args p out r i (suc n) = elim (arg r i) [
  | none ↦ none
  | some text ↦
      echo_args p (write_all p true out ((if i == 0 then b';' else b',') ∷ text)) r (i + 1) n
]

-- The answer to a message that is not understood.
unfoldable pub answer_error : Printer → CheckStream → Parsed → Option CheckStream
unfolding echo_args
answer_error p out r =
    elim (echo_args p (write_all p true out (codes "e:" ++ command r)) r 0 r.ret) [
      | none ↦ none
      | some echoed ↦ some (write_all p true echoed crlf)
    ]

-- A number of decimal digits at the front of a text.
unfoldable pub dec_digits : ℕ → Text → ℕ
dec_digits acc [] = acc
dec_digits acc (c ∷ cs) =
    let rest = dec_digits (acc * 10 + (c - b'0')) cs in if within b'0' b'9' c then rest else acc

unfoldable pub signed_number : Text → ℕ
unfolding dec_digits
signed_number [] = 0
signed_number (c ∷ cs) =
    if c == b'-'
    then (2 ^ 16 - dec_digits 0 cs % 2 ^ 16) % 2 ^ 16
    else if c == b'+'
    then dec_digits 0 cs % 2 ^ 16
    else dec_digits 0 (c ∷ cs) % 2 ^ 16

-- `atoi`: the 16 bits of an AVR's `int`.
unfoldable pub atoi : Text → ℕ
unfolding signed_number
atoi s = signed_number (skip_spaces s)

-- What a sketch does to its pins, in order, with the milliseconds that it waits in between.
-- `digitalWrite` takes its level as a byte.
pub data PinOp : Type 0 where
  mode_in mode_out : ℕ → PinOp
  level : ℕ → ℕ → PinOp
  pause : ℕ → PinOp

abbrev pub digital_write : ℕ → ℕ → PinOp
digital_write pin v = level pin (u8 v)

abbrev pub red_pin : ℕ
red_pin = 9

abbrev pub green_pin : ℕ
green_pin = 10

abbrev pub blue_pin : ℕ
blue_pin = 11

abbrev pub ard_led_pin : ℕ
ard_led_pin = 13

abbrev show_color : ℕ → ℕ → ℕ → ℕ → ℕ → ℕ → ℕ → List PinOp
show_color red green blue r g b ms = level red r ∷ level green g ∷ level blue b ∷ pause ms ∷ []

-- `ledStartUp` of libraries/Sensaur/Sensaur.cpp.
pub led_start_up : ℕ → ℕ → ℕ → List PinOp
led_start_up red green blue =
    let show = show_color red green blue in
    mode_out red
    ∷ mode_out green
    ∷ mode_out blue
    ∷ (show 1 0 0 100
        ++ show 1 1 0 100
        ++ show 0 1 0 100
        ++ show 0 1 1 100
        ++ show 0 0 1 100
        ++ show 1 1 1 200
        ++ level red 0 ∷ level green 0 ∷ level blue 0 ∷ [])

-- Print each text in turn, then the line end.
unfoldable pub print_line : Printer → CheckStream → List Text → CheckStream
print_line p out [] = write_all p true out crlf
print_line p out (t ∷ ts) = print_line p (write_all p true out t) ts

-- What every sensor's sketch answers to a message other than `v`: `s` is echoed, `m` describes the
-- device, and anything else is an error.
unfoldable pub answer_other :
    {Float : Type 0} → Core Float → CheckStream → ℕ → Text → Parsed → Option CheckStream
answer_other core out device_id metadata r =
    if text_eq (command r) (codes "s") && leb 1 r.ret
    then elim (arg r 0) [
      | none ↦ none
      | some text ↦ some (print_line core.printer out (codes "s:" ∷ core.dec (atoi text) ∷ []))
    ]
    else if text_eq (command r) (codes "m")
    then some
        (print_line core.printer out (codes "m:1;" ∷ core.printer.hex device_id ∷ metadata ∷ []))
    else answer_error core.printer out r

-- The pins that a sensor's `setup` leaves.
abbrev pub sensor_pins : List PinOp
sensor_pins =
    mode_in 4
    ∷ (led_start_up red_pin green_pin blue_pin
        ++ mode_out ard_led_pin ∷ digital_write ard_led_pin 0 ∷ [])
