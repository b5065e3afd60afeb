-- ===== src/Sensaur/Tests.antt =====
-- Runs of `checksumOk` and `parseMessage`, and their theorems at messages of the protocol.
use sensaurus.Prelude.{
  ◌≡◌, refl, codes, arith, List, [], ◌∷◌, ◌++◌, true, false, Text, length, some, inl, map,
  replicate, take, ◌==◌,
}
use sensaurus.CText.{strtol_hex}
use sensaurus.CText.Hex.{arduino_printer, hex_text}
use sensaurus.Crc.{crc16_update, crc_of}
use sensaurus.CheckStream.{check_stream, write_all, crlf}
use sensaurus.Sensaur.{avr, esp32, checksum_ok, parse_message, arg, command}
use sensaurus.Sensaur.Checksum.{checksum_ok-sent, checksum_ok-sent_long, checksum_ok-garbled}
use sensaurus.Sensaur.Parse.{
  message, arg_list, Reads, IsMessage, parse_message-marked, parse_message-mismatch,
}

accepted : checksum_ok esp32 (codes "v|1936") true ≡ (true, codes "v")
unfolding checksum_ok crc16_update strtol_hex
accepted = refl

refused : checksum_ok esp32 (codes "v|c42e") true ≡ (false, codes "v")
unfolding checksum_ok crc16_update strtol_hex
refused = refl

-- A device that is told a wrong checksum still gets a result that is not negative.
mismatch_ret : (parse_message avr (codes "s:1|0") 5 b',').ret ≡ 255
unfolding parse_message crc16_update strtol_hex
mismatch_ret = refl

abbrev metadata : Text
metadata = codes "m:1;7F339B15;o,relay"

metadata_args :
    arg_list (parse_message esp32 metadata 7 b';') 0 3
    ≡ some (codes "1") ∷ some (codes "7F339B15") ∷ some (codes "o,relay") ∷ []
unfolding parse_message arg crc16_update strtol_hex
metadata_args = refl

checksum_ok-sent_example :
    (line : Text) × ((write_all arduino_printer true check_stream (codes "v:21" ++ crlf)).sent
      ≡ line ++ crlf)
    × (checksum_ok esp32 line true ≡ (true, codes "v:21"))
checksum_ok-sent_example =
    checksum_ok-sent arduino_printer esp32 true (codes "v:21") (omega arith) (omega arith) refl
      (λ _. omega arith)

abbrev long_message : Text
long_message = replicate 100 b'0'

checksum_ok-sent_long_example :
    (line : Text) × ((write_all arduino_printer true check_stream (long_message ++ crlf)).sent
      ≡ line ++ crlf)
    × (checksum_ok esp32 line true ≡ (
      crc_of 0xffff long_message == crc_of 0xffff (take 99 long_message),
      take 99 long_message,
    ))
checksum_ok-sent_long_example =
    checksum_ok-sent_long arduino_printer esp32 long_message (omega arith) (omega arith) refl
      (omega arith)

checksum_ok-garbled_example :
    (checksum_ok esp32
      (codes "v:"
        ++ b'3' ∷ codes "1"
        ++ b'|' ∷ hex_text (crc_of 0xffff (codes "v:" ++ b'2' ∷ codes "1")))
      true).0
    ≡ false
checksum_ok-garbled_example =
    checksum_ok-garbled arduino_printer esp32 true (codes "v:") (codes "1") b'2' b'3' (omega arith)
      refl (omega arith) (omega arith) (omega arith) (omega arith)

abbrev settings : List Text
settings = codes "1" ∷ codes "0" ∷ []

settings-IsMessage : IsMessage 5 b',' (codes "s") settings
settings-IsMessage = record {
  separates = inl refl;
  command_clean = omega arith;
  fields_clean = omega arith;
  fits = omega arith;
  small = omega arith;
}

parse_message-marked_example : Reads (codes "s") settings (
    parse_message avr
      (message b',' (codes "s") settings
        ++ b'|' ∷ hex_text (crc_of 0xffff (message b',' (codes "s") settings)))
      5
      b',')
parse_message-marked_example =
    parse_message-marked avr 5 b',' (codes "s") settings settings-IsMessage arduino_printer refl

parse_message-mismatch_example :
    let r = parse_message avr (message b',' (codes "s") settings ++ b'|' ∷ hex_text 0) 5 b',' in
    (r.ret ≡ 255) × (command r ≡ codes "s") × (arg_list r 0 (length settings) ≡ map some settings)
parse_message-mismatch_example =
    parse_message-mismatch avr 5 b',' (codes "s") settings settings-IsMessage arduino_printer refl 0
      (omega arith) (unfold crc16_update in omega arith)
