-- ===== src/Sensaur/Parse/Loop.antt =====
-- The loop of `parseMessage` over the parts of a message.
use native.Mathlib.Nat.{add-zero, zero-add}
use sensaurus.Prelude.{
  ℕ, suc, ◌+◌, ◌<◌, ◌≡◌, ◌≢◌, refl, ap, ◌∙◌, arith, false, not, List, [], ◌∷◌, ◌++◌, map, Option,
  some, length, length-append, set, ltb, ==_refl, ◌==◌, if◌then◌else◌, ◌⊎◌, Text, All, u8,
  append_assoc, append-nil,
}
use sensaurus.CText.{strtol_hex}
use sensaurus.CText.Number.{IsHexDigit, Printer, strtol_hex-digits}
use sensaurus.Crc.{crc16_update, crc_of}
use sensaurus.Crc.Detect.{crc_of-append}
use mathlib.Core.List.{map-append}
use sensaurus.Sensaur.{Board, avr, esp32, widen, to_int, Parsed, cons_buffer, parse_from}
use sensaurus.Sensaur.Parse.Fill.{IsFieldByte, IsField, fields, nul_fields, fill}

abbrev pub with_prefix : List ℕ → Parsed → Parsed
with_prefix xs r = record r { buffer = xs ++ r.buffer }

field_byte_tests :
    (separator c : ℕ)
    → IsFieldByte separator c
    → ((c == b':') ≡ false) × ((c == separator) ≡ false) × ((c == b'|') ≡ false)
field_byte_tests separator c h = ground arith

pub to_int-small : (board : Board) (n : ℕ) → n < 65536 → to_int board n ≡ n
to_int-small avr n h = omega arith
to_int-small esp32 n h = omega arith

pub to_int-hex :
    (p : Printer) (board : Board) (n : ℕ) → n < 65536 → to_int board (strtol_hex (p.hex n)) ≡ n
to_int-hex p board n h =
    ap (to_int board) (
      strtol_hex-digits (p.hex n) (p.hex_is_digits n) (omega (arith, p.hex_number_is n))
      ∙ p.hex_number_is n)
    ∙ to_int-small board n h

not-zero : (n : ℕ) → not (n == 0) ≡ ltb 0 n
not-zero n = ground arith

module _ (board : Board) (max_args separator : ℕ) where
  parse_from-field :
      (f : Text) (pos crc count : ℕ) (args : List (Option ℕ)) (rest : Text)
      → IsField separator f
      → parse_from board max_args separator pos crc count args (f ++ rest)
        ≡ with_prefix f (
            parse_from board max_args separator
              (pos + length f)
              (crc_of crc (map (widen board) f))
              count
              args
              rest)
  unfolding parse_from
  parse_from-field [] pos crc count args rest h = rw add-zero
  parse_from-field (c ∷ f) pos crc count args rest h =
      let (colon, sep, bar) = field_byte_tests separator c h.0 in
      rw (colon, sep, bar)
        (rw
          (
            parse_from-field f (pos + 1) (crc16_update crc (widen board c)) count args rest h.1,
            step,
          )
          refl)
    where
      step : pos + 1 + length f ≡ pos + suc (length f)
      step = omega arith

  parse_from-separator :
      (pos crc count : ℕ) (args : List (Option ℕ)) (rest : Text)
      → separator ≢ b':'
      → parse_from board max_args separator pos crc count args (separator ∷ rest)
        ≡ cons_buffer 0 (
            parse_from board max_args separator
              (pos + 1)
              (crc16_update crc (widen board separator))
              (count + 1)
              (if ltb count max_args then set args count (some (pos + 1)) else args)
              rest)
  unfolding parse_from
  parse_from-separator pos crc count args rest h =
      let colon : (separator == b':') ≡ false = ground arith in rw (colon, ==_refl separator) refl

  parse_from-colon :
      (pos crc : ℕ) (args : List (Option ℕ)) (rest : Text)
      → parse_from board max_args separator pos crc 0 args (b':' ∷ rest)
        ≡ cons_buffer 0 (
            parse_from board max_args separator
              (pos + 1)
              (crc16_update crc (widen board b':'))
              1
              (if ltb 0 max_args then set args 0 (some (pos + 1)) else args)
              rest)
  unfolding parse_from
  parse_from-colon pos crc args rest = rw (not-zero max_args)

  parse_from-fields :
      (fs : List Text) (pos crc count : ℕ) (args : List (Option ℕ)) (rest : Text)
      → separator ≢ b':'
      → All (IsField separator) fs
      → parse_from board max_args separator pos crc count args (fields separator fs ++ rest)
        ≡ with_prefix (nul_fields fs) (
            parse_from board max_args separator
              (pos + length (fields separator fs))
              (crc_of crc (map (widen board) (fields separator fs)))
              (count + length fs)
              (fill max_args pos count args fs)
              rest)
  parse_from-fields [] pos crc count args rest ne h = simp add-zero
  parse_from-fields (f ∷ fs) pos crc count args rest ne h =
      let place : pos + 1 + length f + length (fields separator fs)
          ≡ pos + suc (length (f ++ fields separator fs)) =
        omega (arith, length-append f (fields separator fs)) in
      let number : count + 1 + length fs ≡ count + suc (length fs) = omega arith in
      let start = crc16_update crc (widen board separator) in
      let sum : crc_of (crc_of start (map (widen board) f))
            (map (widen board) (fields separator fs))
          ≡ crc_of start (map (widen board) (f ++ fields separator fs)) =
        rw (map-append (widen board) f (fields separator fs), crc_of-append start) in
      rw (append_assoc f (fields separator fs) rest) (
        parse_from-separator pos crc count args (f ++ (fields separator fs ++ rest)) ne
        ∙ ap (cons_buffer 0) (
            parse_from-field f (pos + 1) _ (count + 1) _ (fields separator fs ++ rest) h.0
            ∙ ap (with_prefix f)
                (parse_from-fields fs (pos + 1 + length f) _ (count + 1) _ rest ne h.1))
        ∙ rw (place, number, sum, append_assoc f (nul_fields fs)))

-- The text of a message: a command alone, or with its fields.
abbrev pub message : ℕ → Text → List Text → Text
message separator cmd [] = cmd
message separator cmd (f ∷ fs) = cmd ++ b':' ∷ (f ++ fields separator fs)

-- The separators that the callers of `parseMessage` pass.
abbrev pub IsSeparator : ℕ → Type 0
IsSeparator c = (c ≡ b',') ⊎ (c ≡ b';')

module _ (board : Board) (max_args separator : ℕ) where
  -- The loop over a whole message, up to what follows it.
  pub parse_from-message :
      (cmd : Text) (fs : List Text) (args : List (Option ℕ)) (rest : Text)
      → separator ≢ b':'
      → IsField separator cmd
      → All (IsField separator) fs
      → parse_from board max_args separator 0 0xffff 0 args (message separator cmd fs ++ rest)
        ≡ with_prefix (cmd ++ nul_fields fs) (
            parse_from board max_args separator
              (length (message separator cmd fs))
              (crc_of 0xffff (map (widen board) (message separator cmd fs)))
              (length fs)
              (fill max_args (length cmd) 0 args fs)
              rest)
  parse_from-message cmd [] args rest ne hc h =
      parse_from-field board max_args separator cmd 0 0xffff 0 args rest hc
      ∙ rw (zero-add (length cmd), append-nil cmd)
  parse_from-message cmd (f ∷ fs) args rest ne hc h =
      let start = crc_of 0xffff (map (widen board) cmd) in
      let next = crc16_update start (widen board b':') in
      let place : length cmd + 1 + length f + length (fields separator fs)
          ≡ length (cmd ++ b':' ∷ (f ++ fields separator fs)) =
        omega (
          arith,
          length-append cmd (b':' ∷ (f ++ fields separator fs)),
          length-append f (fields separator fs),
        ) in
      let number : 1 + length fs ≡ suc (length fs) = omega arith in
      let sum : crc_of (crc_of next (map (widen board) f)) (map (widen board) (fields separator fs))
          ≡ crc_of 0xffff (map (widen board) (cmd ++ b':' ∷ (f ++ fields separator fs))) =
        rw (
          map-append (widen board) cmd (b':' ∷ (f ++ fields separator fs)),
          map-append (widen board) f (fields separator fs),
          crc_of-append 0xffff (map (widen board) cmd),
          crc_of-append next,
        ) in
      let stored = if ltb 0 max_args then set args 0 (some (length cmd + 1)) else args in
      rw
        (
          append_assoc cmd (b':' ∷ (f ++ fields separator fs)) rest,
          append_assoc f (fields separator fs) rest,
          parse_from-field board max_args separator cmd 0 0xffff 0 args
              (b':' ∷ (f ++ (fields separator fs ++ rest))) hc,
          zero-add (length cmd),
          parse_from-colon board max_args separator (length cmd) start args
              (f ++ (fields separator fs ++ rest)),
          parse_from-field board max_args separator f (length cmd + 1) next 1 stored
              (fields separator fs ++ rest) h.0,
          parse_from-fields board max_args separator fs (length cmd + 1 + length f)
              (crc_of next (map (widen board) f)) 1 stored rest ne h.1,
        )
        (rw (place, number, sum)
          (rw (append_assoc cmd (0 ∷ (f ++ nul_fields fs)), append_assoc f (nul_fields fs))))

pub separator-ne : (c : ℕ) → IsSeparator c → (c ≢ b':') × (c ≢ b'|')
separator-ne c h = ground arith

hex_digit-IsFieldByte :
    (separator c : ℕ) → IsSeparator separator → IsHexDigit c → IsFieldByte separator c
hex_digit-IsFieldByte separator c h d = ground arith

pub hex_digits-IsField :
    (separator : ℕ) (cs : Text) → IsSeparator separator → All IsHexDigit cs → IsField separator cs
hex_digits-IsField separator [] h d = tt
hex_digits-IsField separator (c ∷ cs) h d =
    (hex_digit-IsFieldByte separator c h d.0, hex_digits-IsField separator cs h d.1)

pub parse_from-mark :
    (board : Board) (max_args separator pos crc count : ℕ) (args : List (Option ℕ)) (digits : Text)
    → IsSeparator separator
    → IsField separator digits
    → parse_from board max_args separator pos crc count args (b'|' ∷ digits) ≡ (
        if to_int board (strtol_hex digits) == to_int board crc
        then record { ret = u8 count; buffer = 0 ∷ digits; args = args }
        else record { ret = 255; buffer = 0 ∷ digits; args = args })
unfolding parse_from
parse_from-mark board max_args separator pos crc count args digits h d =
    let bar : (b'|' == separator) ≡ false = ground arith in
    rw (
      bar,
      ← append-nil digits,
      parse_from-field board max_args separator digits (pos + 1)
          (crc16_update crc (widen board b'|')) count args [] d,
    )
