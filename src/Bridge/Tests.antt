-- ===== src/Bridge/Tests.antt =====
-- A bridge with five devices, at a line of a device and at bytes of the computer.
use sensaurus.Prelude.{
  ℕ, ◌+◌, ◌%◌, ◌<◌, ◌≡◌, refl, arith, true, false, List, [], ◌∷◌, ◌++◌, none, some, set, replicate,
  length, ◌⊎◌, Text, codes,
}
use sensaurus.CText.Hex.{arduino_printer, hex_text}
use sensaurus.Crc.{crc16_update, crc_of}
use sensaurus.CheckStream.{check_stream}
use sensaurus.CheckStream.Buffer.{frame}
use sensaurus.Bridge.{Bridge, process_device_message, process_byte_from_computer}
use sensaurus.Bridge.Bounds.{IsBounded, names_no_device, process_byte_from_computer-IsBounded}
use sensaurus.Bridge.Forward.{process_device_message_line}

abbrev digit : ℕ → Text
digit i = (i % 10 + b'0') ∷ []

abbrev quiet_bridge : Bridge
quiet_bridge = record {
  dev_stream = replicate 5 check_stream;
  hub_message = codes "p" ++ replicate 19 0;
  hub_message_index = 1;
  device_message = replicate 80 0;
  device_message_index = 0;
  listen_device = none;
  hub_stream = check_stream;
  repeat_polling = false;
  last_poll_time = 0;
}

quiet_bridge-IsBounded : IsBounded quiet_bridge
quiet_bridge-IsBounded = record {
  streams = refl;
  hub_size = refl;
  hub_index = omega arith;
  device_size = refl;
  device_index = omega arith;
}

abbrev replies : ℕ → List (List ℕ × ℕ)
replies i = (codes "v:21|4232" ++ 13 ∷ [], 3) ∷ []

process_byte_from_computer-IsBounded_example :
    ((s' : Bridge) × (process_byte_from_computer arduino_printer digit quiet_bridge 13 replies
        ≡ some s')
      × IsBounded s')
    ⊎ (names_no_device (set quiet_bridge.hub_message 1 0) ≡ true)
process_byte_from_computer-IsBounded_example =
    process_byte_from_computer-IsBounded arduino_printer digit quiet_bridge 13 replies
      quiet_bridge-IsBounded

short_enough : 4 + length (hex_text (crc_of 0xffff (codes "v:21"))) < 79
unfolding crc16_update hex_text
short_enough = omega arith

process_device_message_line_example :
    let (ended, left, t) =
      process_device_message arduino_printer digit quiet_bridge 2
        ((codes "v:21" ++ b'|' ∷ hex_text (crc_of 0xffff (codes "v:21"))) ++ 13 ∷ 10 ∷ []) in
    (ended ≡ true)
    × (left ≡ 10 ∷ [])
    × (t.hub_stream.sent ≡ [] ++ frame arduino_printer false (digit 2 ++ b'>' ∷ codes "v:21"))
    × (t.device_message_index ≡ 0)
process_device_message_line_example =
    process_device_message_line arduino_printer digit quiet_bridge 2 (codes "v:21") (10 ∷ []) refl
      refl (record { crc_reset = refl; at_start = refl; buffer_size = refl }) (omega arith)
      (omega arith) refl (omega arith) short_enough
