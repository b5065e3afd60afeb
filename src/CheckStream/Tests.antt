-- ===== src/CheckStream/Tests.antt =====
-- Runs of a CheckStream, and its theorem at two lines.
use sensaurus.Prelude.{◌≡◌, refl, codes, arith, [], ◌∷◌, ◌++◌, true}
use sensaurus.CText.{c_str}
use sensaurus.CText.Hex.{arduino_printer, hex_text}
use sensaurus.Crc.{crc16_update}
use sensaurus.CheckStream.{check_stream, write_all, crlf}
use sensaurus.CheckStream.Lines.{write_lines, concat_lines, concat_frames}

sent_value :
    (write_all arduino_printer true check_stream (codes "v" ++ crlf)).sent ≡ codes "v|1936" ++ crlf
unfolding write_all crc16_update hex_text c_str
sent_value = refl

write_lines_example :
    (write_all arduino_printer true check_stream
      (concat_lines (codes "v" ∷ codes "s:1,0" ∷ []))).sent
    ≡ check_stream.sent ++ concat_frames arduino_printer true (codes "v" ∷ codes "s:1,0" ∷ [])
write_lines_example =
    write_lines arduino_printer true (codes "v" ∷ codes "s:1,0" ∷ []) check_stream (omega arith)
      (record { crc_reset = refl; at_start = refl; buffer_size = refl })
