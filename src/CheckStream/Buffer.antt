-- ===== src/CheckStream/Buffer.antt =====
-- A line written into the buffer of a CheckStream.
use native.Mathlib.Numerals.{add-one}
use sensaurus.Prelude.{
  ℕ, zero, suc, ◌-◌, ◌<◌, ◌≤◌, ◌≡◌, ◌≢◌, refl, sym, ap, ◌∙◌, arith, Bool, true, List, [], ◌∷◌, ◌++◌,
  append-nil, append_assoc, set, take, take-all, take-append_le, take-set-suc, length,
  length-append, length-set, tests, ltb, ltb→lt, if◌then◌else◌, Bool-cases, inl, inr, Text, All,
  min,
}
use sensaurus.CText.{c_str}
use sensaurus.CText.Number.{Printer}
use sensaurus.Crc.{crc16_update, crc_of}
use sensaurus.Crc.Detect.{crc_of-append}
use sensaurus.CheckStream.{CheckStream, check_stream_buf_len, crlf, end_line, put, write, write_all}

-- A character that the protocol allows in a line: no NUL and no line end.
pub record IsLineByte (b : ℕ) : Type 0 where
  pub not_nul : b ≢ 0
  pub not_cr : b ≢ 13
  pub not_lf : b ≢ 10

-- What stands on the wire for the line `m`: its characters, as many as the buffer holds, the mark
-- and the checksum of all of them.
abbrev pub frame : Printer → Bool → Text → Text
frame p buffered m =
    (if buffered then take (check_stream_buf_len - 1) m else m)
    ++ b'|' ∷ (p.hex (crc_of 0xffff m) ++ crlf)

-- Between lines: the checksum is reset and the buffer is empty.
pub record IsReady (s : CheckStream) : Type 0 where
  pub crc_reset : s.crc ≡ 0xffff
  pub at_start : s.buffer_index ≡ 0
  pub buffer_size : length s.buffer ≡ check_stream_buf_len

pub c_str-set :
    (i : ℕ) (buf : List ℕ)
    → i < length buf
    → All IsLineByte (take i buf)
    → c_str (set buf i 0) ≡ take i buf
unfolding c_str
c_str-set i [] lt h = elim lt [ ]
c_str-set zero (x ∷ buf) lt h = refl
c_str-set (suc i) (x ∷ buf) lt h = ground (arith, c_str-set i buf (omega arith) h.1, h.0.not_nul)

All-take : (n : ℕ) (xs : Text) → All IsLineByte xs → All IsLineByte (take n xs)
All-take zero xs h = tt
All-take (suc n) [] h = tt
All-take (suc n) (x ∷ xs) h = (h.0, All-take n xs h.1)

-- In the middle of a line: `start` was sent before it, and `line` is what was written of it.
pub record Within (start : Text) (line : Text) (s : CheckStream) : Type 0 where
  pub sent_is : s.sent ≡ start
  pub crc_is : s.crc ≡ crc_of 0xffff line
  pub index_is : s.buffer_index ≡ min 99 (length line)
  pub buffer_holds : take s.buffer_index s.buffer ≡ take 99 line
  pub buffer_size : length s.buffer ≡ 100

take_line-append :
    (line : Text) (b : ℕ) → length line < 99 → take 99 (line ++ b ∷ []) ≡ take 99 line ++ b ∷ []
take_line-append line b h =
    rw (take-all 99 line (omega arith))
      (take-all 99 (line ++ b ∷ []) (omega (arith, length-append line (b ∷ []))))

module _ (p : Printer) (buffered : Bool) where
  pub write-line_byte :
      (s : CheckStream) (b : ℕ)
      → IsLineByte b
      → write p buffered s b ≡ put p buffered (record s { crc = crc16_update s.crc b }) b
  unfolding write
  write-line_byte s b h = ground arith

  pub write-cr : (s : CheckStream) → (write p buffered s 13).0 ≡ end_line p buffered s
  unfolding write
  write-cr s = refl

  pub write-lf : (s : CheckStream) → (write p buffered s 10).0 ≡ s
  unfolding write
  write-lf s = refl

  pub write_all-append :
      (s : CheckStream) (m n : Text)
      → write_all p buffered s (m ++ n) ≡ write_all p buffered (write_all p buffered s m) n
  unfolding write_all
  write_all-append s [] n = refl
  write_all-append s (b ∷ m) n = write_all-append (write p buffered s b).0 m n

module _ (p : Printer) where
  write-Within :
      (start line : Text) (s : CheckStream) (b : ℕ)
      → IsLineByte b
      → Within start line s
      → Within start (line ++ b ∷ []) (write p true s b).0
  unfolding put
  write-Within start line s b h w =
      rw (write-line_byte p true s b h) (elim (Bool-cases (ltb s.buffer_index 99)) [
        | inl short ↦ rw short (record {
          sent_is = w.sent_is;
          crc_is = rw (crc_of-append 0xffff line (b ∷ [])) (ap (λ c. crc16_update c b) w.crc_is);
          index_is = omega (tests, w.index_is, ltb→lt _ _ short, length-append line (b ∷ []));
          buffer_holds =
              rw add-one (take-set-suc s.buffer_index s.buffer b (omega (tests, w.buffer_size)))
              ∙ ap (λ t. t ++ b ∷ []) w.buffer_holds
              ∙ sym (take_line-append line b (omega tests));
          buffer_size = length-set s.buffer s.buffer_index b ∙ w.buffer_size;
        })
        | inr full ↦
            let at_end : 99 ≤ length line = ground arith in
            rw full (record {
              sent_is = w.sent_is;
              crc_is =
                  rw (crc_of-append 0xffff line (b ∷ [])) (ap (λ c. crc16_update c b) w.crc_is);
              index_is = omega (arith, w.index_is, length-append line (b ∷ []), at_end);
              buffer_holds = w.buffer_holds ∙ sym (take-append_le 99 line (b ∷ []) at_end);
              buffer_size = w.buffer_size;
            })
      ])

  pub write_all-Within :
      (start line m : Text) (s : CheckStream)
      → All IsLineByte m
      → Within start line s
      → Within start (line ++ m) (write_all p true s m)
  unfolding write_all
  write_all-Within start line [] s h w = rw (append-nil line) w
  write_all-Within start line (b ∷ m) s h w =
      rw (append_assoc line (b ∷ []) m) at
        (write_all-Within start (line ++ b ∷ []) m _ h.1 (write-Within start line s b h.0 w))

  pub end_line-Within :
      (start line : Text) (s : CheckStream)
      → All IsLineByte line
      → Within start line s
      → (((end_line p true s).sent ≡ start ++ frame p true line) × IsReady (end_line p true s))
  unfolding end_line
  end_line-Within start line s h w =
      let held : c_str (set s.buffer s.buffer_index 0) ≡ take 99 line =
        c_str-set s.buffer_index s.buffer (omega (arith, w.index_is, w.buffer_size))
          (rw w.buffer_holds (All-take 99 line h))
        ∙ w.buffer_holds in
      (
        rw (held, w.sent_is, w.crc_is) (append_assoc start (take 99 line) _),
        record {
          crc_reset = refl;
          at_start = refl;
          buffer_size = length-set s.buffer s.buffer_index 0 ∙ w.buffer_size;
        },
      )
