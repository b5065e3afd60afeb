-- ===== src/Sensaur/Checksum.antt =====
-- What `checksumOk` accepts, and that it accepts what a CheckStream sends.
use sensaurus.Prelude.{
  ℕ, ◌<◌, ◌≤◌, ◌≡◌, ◌≢◌, refl, sym, ap, ap₂, ◌∙◌, arith, Bool, true, false, [], ◌∷◌, ◌++◌, map,
  take, length, ◌==◌, ==_refl, if◌then◌else◌, Text, All, u16, append_assoc, take-all,
}
use sensaurus.CText.{strtol_hex}
use sensaurus.CText.Number.{Printer, strtol_hex-digits}
use sensaurus.Crc.{crc16_update, crc_of, IsBytes}
use sensaurus.Crc.Detect.{crc_of-lt, crc_of-detects}
use sensaurus.CheckStream.{check_stream, crlf, write_all}
use sensaurus.CheckStream.Buffer.{IsLineByte, IsReady, frame}
use sensaurus.CheckStream.Lines.{write_line}
use sensaurus.Sensaur.{Board, avr, esp32, widen, check_from, checksum_ok}

abbrev pub HasNoBar : Text → Type 0
HasNoBar m = All (λ c. c ≢ b'|') m

module _ (board : Board) (remove : Bool) where
  check_from-bar :
      (crc : ℕ) (body tail : Text)
      → HasNoBar body
      → check_from board remove crc (body ++ b'|' ∷ tail) ≡ (
        u16 (strtol_hex tail) == crc_of crc (map (widen board) body),
        if remove then body else body ++ b'|' ∷ tail,
      )
  unfolding check_from
  check_from-bar crc [] tail h = refl
  check_from-bar crc (c ∷ body) tail h =
      rw (check_from-bar (crc16_update crc (widen board c)) body tail h.1) (ground (arith, h.0))

  check_from-no_bar : (crc : ℕ) (m : Text) → HasNoBar m → check_from board remove crc m ≡ (false, m)
  unfolding check_from
  check_from-no_bar crc [] h = refl
  check_from-no_bar crc (c ∷ m) h =
      rw (check_from-no_bar (crc16_update crc (widen board c)) m h.1) (ground (arith, h.0))

-- A message is split at its first mark: what stands before it is checked against the number behind
-- it. With `remove` the message ends up cut off at the mark. Without a mark nothing is accepted,
-- and the message stays as it is.
pub checksum_ok_lem :
    (board : Board) (remove : Bool) (body tail : Text)
    → HasNoBar body
    → (checksum_ok board (body ++ b'|' ∷ tail) remove ≡ (
      u16 (strtol_hex tail) == crc_of 0xffff (map (widen board) body),
      if remove then body else body ++ b'|' ∷ tail,
    ))
      × (checksum_ok board body remove ≡ (false, body))
unfolding checksum_ok
checksum_ok_lem board remove body tail h =
    (check_from-bar board remove 0xffff body tail h, check_from-no_bar board remove 0xffff body h)

-- The board takes these characters for the bytes that they are.
abbrev pub IsPlain : Board → Text → Type 0
IsPlain board m = map (widen board) m ≡ m

pub IsPlain-esp32 : (m : Text) → IsPlain esp32 m
IsPlain-esp32 [] = refl
IsPlain-esp32 (c ∷ m) = ap (◌∷◌ c) (IsPlain-esp32 m)

pub IsPlain-ascii : (board : Board) (m : Text) → All (λ c. c < 128) m → IsPlain board m
IsPlain-ascii board [] h = refl
IsPlain-ascii avr (c ∷ m) h = ap₂ ◌∷◌ (ground arith) (IsPlain-ascii avr m h.1)
IsPlain-ascii esp32 (c ∷ m) h = ap (◌∷◌ c) (IsPlain-ascii esp32 m h.1)

module _ (p : Printer) where
  -- The number that a CheckStream prints is read back.
  strtol_hex-hex : (n : ℕ) → n < 65536 → u16 (strtol_hex (p.hex n)) ≡ n
  strtol_hex-hex n h = omega (
    arith,
    p.hex_number_is n,
    strtol_hex-digits (p.hex n) (p.hex_is_digits n) (omega (arith, p.hex_number_is n)),
  )

  pub checksum_ok-printed :
      (board : Board) (remove : Bool) (body : Text) (n : ℕ)
      → HasNoBar body
      → IsPlain board body
      → n < 65536
      → checksum_ok board (body ++ b'|' ∷ p.hex n) remove
        ≡ (n == crc_of 0xffff body, if remove then body else body ++ b'|' ∷ p.hex n)
  checksum_ok-printed board remove body n h plain lt =
      (checksum_ok_lem board remove body (p.hex n) h).0 ∙ rw (strtol_hex-hex n lt, plain)

  -- A line that a CheckStream sends, without the line end, is accepted by `checksumOk` on either
  -- board, which leaves exactly the message, provided that the message has no mark and no line end,
  -- the board reads its characters as they are, and it fits the buffer where there is one.
  pub checksum_ok-sent :
      (board : Board) (buffered : Bool) (m : Text)
      → All IsLineByte m
      → HasNoBar m
      → IsPlain board m
      → (buffered ≡ true → length m ≤ 99)
      → (line : Text) × ((write_all p buffered check_stream (m ++ crlf)).sent ≡ line ++ crlf)
        × (checksum_ok board line true ≡ (true, m))
  checksum_ok-sent board buffered m bytes no_bar plain fits = (
    m ++ b'|' ∷ p.hex (crc_of 0xffff m),
    (write_line p buffered m check_stream bytes ready).0 ∙ framed buffered fits,
    checksum_ok-printed board true m _ no_bar plain (crc_of-lt 0xffff m (omega arith))
        ∙ rw (==_refl (crc_of 0xffff m)),
  )
    where
      ready : IsReady check_stream
      ready = record { crc_reset = refl; at_start = refl; buffer_size = refl }

      whole : (b : Bool) → (b ≡ true → length m ≤ 99) → (if b then take 99 m else m) ≡ m
      whole true f = take-all 99 m (f refl)
      whole false f = refl

      framed :
          (b : Bool)
          → (b ≡ true → length m ≤ 99)
          → frame p b m ≡ (m ++ b'|' ∷ p.hex (crc_of 0xffff m)) ++ crlf
      framed b f = rw (whole b f) (sym (append_assoc m (b'|' ∷ p.hex (crc_of 0xffff m)) crlf))

  -- A message of more than 99 characters and without a line end, sent through the buffer of a
  -- CheckStream, loses its end on the wire but is summed whole: where what is left has no mark and
  -- the board reads it as it is, it is accepted only if the two sums happen to agree.
  pub checksum_ok-sent_long :
      (board : Board) (m : Text)
      → All IsLineByte m
      → HasNoBar (take 99 m)
      → IsPlain board (take 99 m)
      → 99 < length m
      → (line : Text) × ((write_all p true check_stream (m ++ crlf)).sent ≡ line ++ crlf)
        × (checksum_ok board line true ≡ (crc_of 0xffff m == crc_of 0xffff (take 99 m), take 99 m))
  checksum_ok-sent_long board m bytes no_bar plain long = (
    take 99 m ++ b'|' ∷ p.hex (crc_of 0xffff m),
    (write_line p true m check_stream bytes
          (record { crc_reset = refl; at_start = refl; buffer_size = refl })).0
        ∙ sym (append_assoc (take 99 m) (b'|' ∷ p.hex (crc_of 0xffff m)) crlf),
    checksum_ok-printed board true (take 99 m) _ no_bar plain (crc_of-lt 0xffff m (omega arith)),
  )

  -- A line that arrives with one wrong byte in its message is refused, whichever byte it is, on a
  -- board that reads the characters that arrive as they are, provided that the wrong byte makes no
  -- mark in front of the checksum.
  pub checksum_ok-garbled :
      (board : Board) (remove : Bool) (before after : Text) (a b : ℕ)
      → HasNoBar (before ++ b ∷ after)
      → IsPlain board (before ++ b ∷ after)
      → IsBytes after
      → a < 256
      → b < 256
      → a ≢ b
      → (checksum_ok board
          (before ++ b ∷ after ++ b'|' ∷ p.hex (crc_of 0xffff (before ++ a ∷ after)))
          remove).0
        ≡ false
  checksum_ok-garbled board remove before after a b no_bar plain bytes ha hb ne =
      let sum = crc_of 0xffff (before ++ a ∷ after) in
      rw
        (checksum_ok-printed board remove (before ++ b ∷ after) sum no_bar plain
          (crc_of-lt 0xffff (before ++ a ∷ after) (omega arith)))
        (differ (λ e. ne (crc_of-detects 0xffff before after a b (omega arith) bytes ha hb e)))
    where
      differ : {x y : ℕ} → x ≢ y → (x == y) ≡ false
      differ h = ground arith
