-- ===== src/CheckStream.antt =====
-- libraries/CheckStream/CheckStream.h: a stream that ends each line with the line's checksum.
-- The flag `buffered` is the macro USE_CHECK_STREAM_BUFFER, which the device sketches define and
-- the hub does not.
pub mod Buffer
pub mod Lines
mod Tests
use sensaurus.Prelude.{
  ℕ, ◌+◌, ◌-◌, Bool, List, [], ◌∷◌, ◌++◌, set, replicate, ltb, ◌==◌, if◌then◌else◌, Text,
}
use sensaurus.CText.{c_str}
use sensaurus.CText.Number.{Printer}
use sensaurus.Crc.{crc16_update}

abbrev pub check_stream_buf_len : ℕ
check_stream_buf_len = 100

-- `sent` is what has been handed to the wrapped stream, in order.
pub record CheckStream : Type 0 where
  pub sent : Text
  pub crc : ℕ
  pub buffer_index : ℕ
  pub buffer : List ℕ

-- The constructor, over a stream that nothing was sent to.
abbrev pub check_stream : CheckStream
check_stream = record {
  sent = [];
  crc = 0xffff;
  buffer_index = 0;
  buffer = replicate check_stream_buf_len 0;
}

abbrev pub crlf : Text
crlf = 13 ∷ 10 ∷ []

module _ (p : Printer) (buffered : Bool) where
  -- The end of a line: the buffer if there is one, then the mark and the checksum.
  pub end_line : CheckStream → CheckStream
  end_line s =
      let buf = set s.buffer s.buffer_index 0 in
      let flushed =
        if buffered
        then record s { buffer = buf; buffer_index = 0; sent = s.sent ++ c_str buf }
        else s in
      record flushed { sent = flushed.sent ++ b'|' ∷ (p.hex s.crc ++ crlf); crc = 0xffff }

  pub put : CheckStream → ℕ → CheckStream × ℕ
  put s b =
      if buffered
      then (if ltb s.buffer_index (check_stream_buf_len - 1)
          then (
            record s { buffer = set s.buffer s.buffer_index b; buffer_index = s.buffer_index + 1 },
            1,
          )
          else (s, 1))
      else (record s { sent = s.sent ++ b ∷ [] }, p.written b)

  -- `write`, with the count that it returns.
  unfoldable pub write : CheckStream → ℕ → CheckStream × ℕ
  unfolding end_line put
  write s b =
      if b == 13
      then (end_line s, 1)
      else if b == 10
      then (s, 1)
      else put (record s { crc = crc16_update s.crc b }) b

  -- A call of `write` for each byte, as `print` and `println` make them.
  unfoldable pub write_all : CheckStream → Text → CheckStream
  unfolding write
  write_all s [] = s
  write_all s (b ∷ m) = write_all (write s b).0 m
