-- ===== src/Sketch/Exchange.antt =====
-- A message that the hub sends and a device reads.
use sensaurus.Prelude.{
  ◌+◌, ◌<◌, ◌≡◌, sym, ap, ◌∙◌, arith, false, List, ◌∷◌, ◌++◌, append_assoc, Option, length,
  length-append, Text, All,
}
use sensaurus.CText.Number.{Printer}
use sensaurus.Crc.{crc_of}
use sensaurus.CheckStream.{crlf}
use sensaurus.CheckStream.Buffer.{IsLineByte, frame}
use sensaurus.Sensaur.{avr, Parsed, parse_message}
use sensaurus.Sensaur.Checksum.{IsPlain}
use sensaurus.Sensaur.Parse.{message, IsMessage, Reads, parse_message-marked}
use sensaurus.Sketch.{Line, incoming_all}
use sensaurus.Sketch.Plain.{hex_digits-IsLineByte, All-join}
use sensaurus.Sketch.Incoming.{IsIdle, continue, incoming_all_line}

module _ {S : Type 0} (process_message : S → Parsed → Option S) where
  -- A message that the hub sends with its checksum, of fewer than 80 characters in all, with at
  -- most five fields, free of colon, comma, mark, NUL and line end, is processed by an idle device
  -- once, with the command and the fields that were sent, and the device is idle again.
  pub incoming_all-frame :
      (p : Printer) (l : Line) (s : S) (cmd : Text) (fs : List Text)
      → IsMessage 5 b',' cmd fs
      → IsPlain avr (message b',' cmd fs)
      → All IsLineByte (message b',' cmd fs)
      → length (message b',' cmd fs) + length (p.hex (crc_of 0xffff (message b',' cmd fs))) < 79
      → IsIdle l
      → (left : Line) × (r : Parsed) × (incoming_all process_message l s
            (frame p false (message b',' cmd fs))
          ≡ continue left (process_message s r))
        × Reads cmd fs r
        × IsIdle left
  incoming_all-frame p l s cmd fs ok plain bytes short idle =
      let m = message b',' cmd fs in
      let hex = p.hex (crc_of 0xffff m) in
      let sent = m ++ b'|' ∷ hex in
      let whole : All IsLineByte sent = All-join m (b'|' ∷ hex) bytes (
        record {
          not_nul = λ e. ground arith;
          not_cr = λ e. ground arith;
          not_lf = λ e. ground arith;
        },
        hex_digits-IsLineByte hex (p.hex_is_digits (crc_of 0xffff m)),
      ) in
      let (left, rest, ends) =
        incoming_all_line process_message l s sent whole
          (omega (arith, length-append m (b'|' ∷ hex)))
          (omega (arith, length-append m (b'|' ∷ hex))) idle in
      (
        left,
        parse_message avr sent 5 b',',
        ap (incoming_all process_message l s) (sym (append_assoc m (b'|' ∷ hex) crlf)) ∙ ends,
        parse_message-marked avr 5 b',' cmd fs ok p plain,
        rest,
      )
