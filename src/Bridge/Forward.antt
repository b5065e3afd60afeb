-- ===== src/Bridge/Forward.antt =====
-- A device's line on its way to the computer.
use native.Mathlib.Numerals.{add-one}
use sensaurus.Prelude.{
  ℕ, ◌+◌, ◌<◌, ◌≡◌, refl, sym, ap, ◌∙◌, arith, true, false, ◌||◌, List, [], ◌∷◌, ◌++◌, append-nil,
  append_assoc, set, take, take-set-suc, length, length-append, length-set, ltb, ◌==◌, ==_refl,
  Text, All, codes,
}
use sensaurus.CText.{c_str}
use sensaurus.CText.Number.{Printer}
use sensaurus.Crc.{crc_of}
use sensaurus.Crc.Detect.{crc_of-lt}
use sensaurus.CheckStream.{write_all, crlf}
use sensaurus.CheckStream.Buffer.{IsLineByte, IsReady, frame, c_str-set, write_all-append}
use sensaurus.CheckStream.Lines.{write_line}
use sensaurus.Sensaur.{avr, checksum_ok}
use sensaurus.Sensaur.Checksum.{HasNoBar, IsPlain, checksum_ok-printed}
use sensaurus.Sketch.Plain.{hex_digits-IsLineByte, All-join}
use sensaurus.Bridge.{Bridge, forward_message_from_device, process_device_message}

-- A part of a device's line has come in, and nothing else has changed for the computer.
record Gathers (start : Bridge) (line : Text) (s : Bridge) : Type 0 where
  index_is : s.device_message_index ≡ length line
  holds : take s.device_message_index s.device_message ≡ line
  size : length s.device_message ≡ 80
  same_stream : s.hub_stream ≡ start.hub_stream

module _ (p : Printer) (dec : ℕ → Text) where
  step-Gathers :
      (start : Bridge) (line : Text) (s : Bridge) (i c : ℕ) (cs : List ℕ)
      → IsLineByte c
      → length line < 79
      → Gathers start line s
      → (s' : Bridge) × (process_device_message p dec s i (c ∷ cs)
          ≡ process_device_message p dec s' i cs)
        × Gathers start (line ++ c ∷ []) s'
  unfolding process_device_message
  step-Gathers start line s i c cs h short w =
      let char : (c == 10 || c == 13) ≡ false = ground (arith, h.not_cr, h.not_lf) in
      let room : ltb s.device_message_index 79 ≡ true = ground (arith, w.index_is) in
      (
        record s {
          device_message = set s.device_message s.device_message_index c;
          device_message_index = s.device_message_index + 1;
        },
        rw (process_device_message, char, room),
        record {
          index_is = omega (arith, w.index_is, length-append line (c ∷ []));
          holds =
              rw add-one (
                take-set-suc s.device_message_index s.device_message c
                  (omega (arith, w.index_is, w.size)))
              ∙ ap (λ m. m ++ c ∷ []) w.holds;
          size = length-set s.device_message s.device_message_index c ∙ w.size;
          same_stream = w.same_stream;
        },
      )

  line-Gathers :
      (start : Bridge) (line m : Text) (s : Bridge) (i : ℕ) (rest : List ℕ)
      → All IsLineByte m
      → length line + length m < 80
      → Gathers start line s
      → (s' : Bridge) × (process_device_message p dec s i (m ++ rest)
          ≡ process_device_message p dec s' i rest)
        × Gathers start (line ++ m) s'
  line-Gathers start line [] s i rest h short w = (s, refl, rw (append-nil line) w)
  line-Gathers start line (c ∷ m) s i rest h short w =
      let (s', step, w') = step-Gathers start line s i c (m ++ rest) h.0 (omega arith) w in
      let (s'', steps, w'') =
        line-Gathers start (line ++ c ∷ []) m s' i rest h.1
          (omega (arith, length-append line (c ∷ []))) w' in
      (s'', step ∙ steps, rw (append_assoc line (c ∷ []) m) at w'')

  forward_good :
      (s : Bridge) (i : ℕ) (m : Text)
      → checksum_ok avr (c_str s.device_message) true ≡ (true, m)
      → All IsLineByte (dec i ++ b'>' ∷ m)
      → IsReady s.hub_stream
      → let t = forward_message_from_device p dec s i in
        (t.hub_stream.sent ≡ s.hub_stream.sent ++ frame p false (dec i ++ b'>' ∷ m))
        × IsReady t.hub_stream
  unfolding forward_message_from_device
  forward_good s i m good plain ready =
      let whole : write_all p false
            (write_all p false (write_all p false s.hub_stream (dec i)) (codes ">")) (m ++ crlf)
          ≡ write_all p false s.hub_stream ((dec i ++ b'>' ∷ m) ++ crlf) =
        sym (
          write_all-append p false (write_all p false s.hub_stream (dec i)) (codes ">") (m ++ crlf))
        ∙ sym (write_all-append p false s.hub_stream (dec i) (b'>' ∷ (m ++ crlf)))
        ∙ ap (write_all p false s.hub_stream) (sym (append_assoc (dec i) (b'>' ∷ m) crlf)) in
      rw (good, whole) (write_line p false (dec i ++ b'>' ∷ m) s.hub_stream plain ready)

  -- A line that a device sends, of fewer than 80 characters with its checksum, goes to the computer
  -- with the number of the device in front and a checksum of its own, and what the device sent
  -- behind the line is left to be read. The message holds no mark, no NUL and no line end, its
  -- characters are read as they are, and the bridge is between lines on both sides.
  pub process_device_message_line :
      (s : Bridge) (i : ℕ) (m : Text) (rest : List ℕ)
      → s.device_message_index ≡ 0
      → length s.device_message ≡ 80
      → IsReady s.hub_stream
      → All IsLineByte m
      → HasNoBar m
      → IsPlain avr m
      → All IsLineByte (dec i)
      → length m + length (p.hex (crc_of 0xffff m)) < 79
      → let (ended, left, t) =
          process_device_message p dec s i ((m ++ b'|' ∷ p.hex (crc_of 0xffff m)) ++ 13 ∷ rest) in
        (ended ≡ true)
        × (left ≡ rest)
        × (t.hub_stream.sent ≡ s.hub_stream.sent ++ frame p false (dec i ++ b'>' ∷ m))
        × (t.device_message_index ≡ 0)
  unfolding process_device_message
  process_device_message_line s i m rest start size ready bytes no_bar plain number short =
      let hex = p.hex (crc_of 0xffff m) in
      let sent = m ++ b'|' ∷ hex in
      let whole : All IsLineByte sent = All-join m (b'|' ∷ hex) bytes (
        record {
          not_nul = λ e. ground arith;
          not_cr = λ e. ground arith;
          not_lf = λ e. ground arith;
        },
        hex_digits-IsLineByte hex (p.hex_is_digits (crc_of 0xffff m)),
      ) in
      let answer : All IsLineByte (dec i ++ b'>' ∷ m) = All-join (dec i) (b'>' ∷ m) number (
        record {
          not_nul = λ e. ground arith;
          not_cr = λ e. ground arith;
          not_lf = λ e. ground arith;
        },
        bytes,
      ) in
      let (t, steps, w) =
        line-Gathers s [] sent s i (13 ∷ rest) whole (omega (arith, length-append m (b'|' ∷ hex)))
          (record { index_is = start; holds = rw start; size = size; same_stream = refl }) in
      let text : c_str (set t.device_message t.device_message_index 0) ≡ sent =
        c_str-set t.device_message_index t.device_message
          (omega (arith, w.index_is, w.size, length-append m (b'|' ∷ hex))) (rw w.holds whole)
        ∙ w.holds in
      let good : checksum_ok avr (c_str (set t.device_message t.device_message_index 0)) true
          ≡ (true, m) =
        rw text (
          checksum_ok-printed p avr true m (crc_of 0xffff m) no_bar plain
            (crc_of-lt 0xffff m (omega arith))
          ∙ rw (==_refl (crc_of 0xffff m))) in
      let closed : Bridge = record t {
        device_message = set t.device_message t.device_message_index 0;
      } in
      let (forwarded, again) = forward_good closed i m good answer (rw w.same_stream ready) in
      let pos : (t.device_message_index == 0) ≡ false =
        ground (arith, w.index_is, length-append m (b'|' ∷ hex)) in
      rw (steps, process_device_message, pos)
        (
          refl,
          refl,
          forwarded ∙ ap (λ o. o.sent ++ frame p false (dec i ++ b'>' ∷ m)) w.same_stream,
          refl,
        )
