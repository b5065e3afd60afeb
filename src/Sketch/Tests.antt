-- ===== src/Sketch/Tests.antt =====
-- The sketches at concrete messages, with a core that prints decimal numbers.
mod Sensors
use sensaurus.Prelude.{
  ℕ, zero, suc, ◌+◌, ◌-◌, ◌*◌, ◌/◌, ◌%◌, ◌<◌, ◌≤◌, ◌≡◌, ◌≢◌, refl, arith, Bool, true, false, List,
  [], ◌∷◌, ◌++◌, All, All-snoc, Option, none, some, replicate, length, ltb, if◌then◌else◌, Text,
  codes, Bool-cases, inl, inr, map,
}
use sensaurus.CText.Number.{Printer}
use sensaurus.CText.Hex.{arduino_printer, hex_text}
use sensaurus.Crc.{crc16_update, crc_of}
use sensaurus.CheckStream.{CheckStream, check_stream, crlf}
use sensaurus.CheckStream.Buffer.{IsLineByte, IsReady, frame}
use sensaurus.Sensaur.{avr, Parsed, parse_message}
use sensaurus.Sensaur.Parse.{message, IsMessage, Reads}
use sensaurus.Sketch.{Core, Line, atoi, incoming_all, answer_error}
use sensaurus.Sketch.Incoming.{IsIdle, continue, incoming_all_line, incoming_all_overrun}
use sensaurus.Sketch.Sample.{
  dec_fuel, decimal_core, idle_line, idle_line-IsIdle, check_stream-IsReady, line_byte,
}
use sensaurus.Sketch.Identity.{Eeprom, get_device_id, get_device_id_stable}
use sensaurus.Prelude.{join}
use sensaurus.Sketch.Answer.{echo, answer_error_lem, answer_error_unset}
use sensaurus.Sketch.Exchange.{incoming_all-frame}
use sensaurus.Sketch.Relay.{Relay, relay_message}
use sensaurus.Sketch.Relay.Serve.{
  Request, set_state, request_text, request_command, request_fields, answer_to, Serves,
  relay-Serves,
}

-- Six bytes, the low one of each number first.
abbrev bytes_eeprom : Eeprom
bytes_eeprom = record {
  Memory = (ℕ × ℕ) × (ℕ × ℕ × ℕ × ℕ);
  get_word = λ m. m.0.0 + 256 * m.0.1;
  put_word = λ m v. ((v % 256, v / 256 % 256), m.1);
  get_long = λ m. m.1.0 + 256 * (m.1.1 + 256 * (m.1.2 + 256 * m.1.3));
  put_long = λ m v. (m.0, (v % 256, v / 256 % 256, v / 256 / 256 % 256, v / 256 / 256 / 256 % 256));
  get_word-put_word = λ m v h. omega arith;
  get_word-put_long = λ m v. refl;
  get_long-put_long = λ m v h. omega arith;
}

get_device_id_stable_example :
    let (id, kept) =
      get_device_id bytes_eeprom
        (λ seed. seed + 1)
        (1 ∷ 2 ∷ [])
        ((255, 255), (255, 255, 255, 255)) in
    get_device_id bytes_eeprom (λ seed. 7) [] kept ≡ (id, kept)
get_device_id_stable_example =
    get_device_id_stable bytes_eeprom (λ seed. seed + 1) (λ seed. 7) (1 ∷ 2 ∷ []) []
      ((255, 255), (255, 255, 255, 255))

-- A sketch that counts its messages.
abbrev count_messages : ℕ → Parsed → Option ℕ
count_messages n r = some (n + 1)

long_line-plain : (n : ℕ) → All IsLineByte (replicate n b'x')
long_line-plain zero = tt
long_line-plain (suc n) =
    (line_byte b'x' (omega arith) (omega arith) (omega arith), long_line-plain n)

incoming_all_overrun_example :
    incoming_all count_messages idle_line 0 (replicate 80 b'x' ++ crlf) ≡ none
incoming_all_overrun_example =
    incoming_all_overrun count_messages idle_line 0 (replicate 80 b'x') (long_line-plain 80)
      (omega arith) idle_line-IsIdle

abbrev two_args : Parsed
two_args = record {
  ret = 2;
  buffer = codes "z" ++ 0 ∷ (codes "1" ++ 0 ∷ codes "2");
  args = some 2 ∷ some 4 ∷ none ∷ none ∷ none ∷ [];
}

two_args-Reads : Reads (codes "z") (codes "1" ∷ codes "2" ∷ []) two_args
unfolding sensaurus.Sensaur.arg sensaurus.CText.c_str
two_args-Reads = record { ret_is = refl; command_is = refl; args_are = refl }

abbrev set_one : Request
set_one = set_state (codes "1")

set_one-IsMessage : IsMessage 5 b',' (request_command set_one) (request_fields set_one)
set_one-IsMessage = record {
  separates = inl refl;
  command_clean = omega arith;
  fields_clean = omega arith;
  fits = omega arith;
  small = omega arith;
}

set_one-length :
    length (request_text set_one) + length (hex_text (crc_of 0xffff (request_text set_one))) < 79
unfolding crc16_update hex_text
set_one-length = omega arith

abbrev ready_relay : Relay
ready_relay = record { out = check_stream; relay_state = 0; device_id = 7; pins = [] }

relay-Serves_example :
    (left : Line) × (t : Relay) × (incoming_all
        (relay_message decimal_core)
        idle_line
        ready_relay
        (frame arduino_printer false (request_text set_one))
      ≡ some (left, t))
    × Serves decimal_core ready_relay set_one t
    × IsIdle left
relay-Serves_example =
    relay-Serves decimal_core arduino_printer idle_line ready_relay set_one set_one-IsMessage refl
      (omega arith) set_one-length idle_line-IsIdle check_stream-IsReady
