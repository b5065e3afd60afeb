-- ===== src/CheckStream/Lines.antt =====
-- What a CheckStream sends for a sequence of lines.
use sensaurus.Prelude.{
  ◌≡◌, refl, sym, ◌∙◌, Bool, true, false, List, [], ◌∷◌, ◌++◌, append-nil, append_assoc, Text, All,
}
use sensaurus.CText.Number.{Printer}
use sensaurus.Crc.{crc_of}
use sensaurus.CheckStream.{CheckStream, crlf, end_line, put, write, write_all}
use sensaurus.CheckStream.Buffer.{
  IsLineByte, IsReady, frame, write-line_byte, write-cr, write-lf, write_all-append, Within,
  write_all-Within, end_line-Within,
}

module _ (p : Printer) where
  line_buffered :
      (m : Text) (s : CheckStream)
      → All IsLineByte m
      → IsReady s
      → let t = write_all p true s (m ++ crlf) in (t.sent ≡ s.sent ++ frame p true m) × IsReady t
  line_buffered m s h r =
      let w : Within s.sent [] s = record {
        sent_is = refl;
        crc_is = r.crc_reset;
        index_is = r.at_start;
        buffer_holds = rw r.at_start;
        buffer_size = r.buffer_size;
      } in
      rw (write_all-append p true s m crlf) (
        unfold write_all in
        rw
          (
            write-lf p true (write p true (write_all p true s m) 13).0,
            write-cr p true (write_all p true s m),
          )
          (end_line-Within p s.sent m _ h (write_all-Within p s.sent [] m s h w)))

  write_all-direct :
      (m : Text) (s : CheckStream)
      → All IsLineByte m
      → write_all p false s m ≡ record s { sent = s.sent ++ m; crc = crc_of s.crc m }
  unfolding write_all put
  write_all-direct [] s h = rw append-nil
  write_all-direct (b ∷ m) s h =
      rw (write-line_byte p false s b h.0)
        (write_all-direct m _ h.1 ∙ rw (append_assoc s.sent (b ∷ []) m))

  line_direct :
      (m : Text) (s : CheckStream)
      → All IsLineByte m
      → IsReady s
      → let t = write_all p false s (m ++ crlf) in (t.sent ≡ s.sent ++ frame p false m) × IsReady t
  line_direct m s h r =
      rw (write_all-append p false s m crlf, write_all-direct m s h)
        (unfold write_all end_line in
          rw
            (
              write-lf p false
                  (write p false (record s { sent = s.sent ++ m; crc = crc_of s.crc m }) 13).0,
              write-cr p false (record s { sent = s.sent ++ m; crc = crc_of s.crc m }),
            )
            (
              rw r.crc_reset (append_assoc s.sent m _),
              record { crc_reset = refl; at_start = r.at_start; buffer_size = r.buffer_size },
            ))

  pub write_line :
      (buffered : Bool) (m : Text) (s : CheckStream)
      → All IsLineByte m
      → IsReady s
      → let t = write_all p buffered s (m ++ crlf) in
        (t.sent ≡ s.sent ++ frame p buffered m) × IsReady t
  write_line true m s h r = line_buffered m s h r
  write_line false m s h r = line_direct m s h r

abbrev pub concat_lines : List Text → Text
concat_lines [] = []
concat_lines (m ∷ ms) = (m ++ crlf) ++ concat_lines ms

abbrev pub concat_frames : Printer → Bool → List Text → Text
concat_frames p buffered [] = []
concat_frames p buffered (m ∷ ms) = frame p buffered m ++ concat_frames p buffered ms

-- Lines that hold no NUL and no line break are sent by a stream that is between lines as one frame
-- each, in order: the line, the mark, the checksum of its bytes in hexadecimal and the line break,
-- where a buffered stream sends only the first 99 bytes of a line.
pub write_lines :
    (p : Printer) (buffered : Bool) (ms : List Text) (s : CheckStream)
    → All (λ m. All IsLineByte m) ms
    → IsReady s
    → (write_all p buffered s (concat_lines ms)).sent ≡ s.sent ++ concat_frames p buffered ms
unfolding write_all
write_lines p buffered [] s h r = sym (append-nil s.sent)
write_lines p buffered (m ∷ ms) s h r =
    let (sent, ready) = write_line p buffered m s h.0 r in
    rw (write_all-append p buffered s (m ++ crlf) (concat_lines ms)) (
      write_lines p buffered ms _ h.1 ready
      ∙ rw sent (append_assoc s.sent (frame p buffered m) (concat_frames p buffered ms)))
