-- ===== src/Sensaur/Parse.antt =====
-- What `parseMessage` reads from a message `cmd:field,field,...`, with or without a checksum.
mod Fill
mod Loop
pub use Fill.{IsFieldByte, IsField, fields}
pub use Loop.{message, IsSeparator}
use Fill.{nul_fields, fill, IsEnd, c_str-fields, arg-fill, length-fill}
use Loop.{
  with_prefix, parse_from-message, parse_from-mark, separator-ne, hex_digits-IsField, to_int-hex,
  to_int-small,
}
use native.Mathlib.Nat.{add-zero, zero-add}
use sensaurus.Prelude.{
  ℕ, zero, suc, ◌+◌, ◌-◌, ◌<◌, ◌≤◌, ◌≡◌, ◌≢◌, refl, sym, ap, ap₂, ◌∙◌, arith, Bool, true, false,
  not, ◌||◌, List, [], ◌∷◌, ◌++◌, map, Option, none, some, length, length-append, set, get_elem?,
  replicate, length-replicate, get_elem?-lt, ltb, ==_refl, ◌==◌, if◌then◌else◌, Bool-cases, ◌⊎◌,
  inl, inr, Text, All, u8, append_assoc, append-nil,
}
use sensaurus.CText.{c_str, strtol_hex}
use sensaurus.CText.Number.{IsHexDigit, Printer, strtol_hex-digits}
use sensaurus.Sensaur.Checksum.{IsPlain}
use sensaurus.Crc.{crc16_update, crc_of}
use sensaurus.Crc.Detect.{crc_of-append, crc_of-lt}
use mathlib.Core.List.{map-append}
use sensaurus.Sensaur.{
  Board, avr, esp32, widen, to_int, Parsed, cons_buffer, store_arg, parse_from, parse_message, arg,
  command,
}

-- The strings of `n` arguments from the `i`-th on.
abbrev pub arg_list : Parsed → ℕ → ℕ → List (Option Text)
arg_list r i zero = []
arg_list r i (suc n) = arg r i ∷ arg_list r (i + 1) n

arg_list-map :
    (r : Parsed) (start : ℕ) (fs : List Text)
    → ((i : ℕ) (f : Text) → get_elem? fs i ≡ some f → arg r (start + i) ≡ some f)
    → arg_list r start (length fs) ≡ map some fs
arg_list-map r start [] h = refl
arg_list-map r start (f ∷ fs) h = ap₂ ◌∷◌ (rw add-zero at (h 0 f refl)) (
    arg_list-map r (start + 1) fs
      (λ i g e. let next : start + 1 + i ≡ start + suc i = omega arith in rw next (h (suc i) g e)))

-- The result, the command and the arguments are those of the message.
pub record Reads (cmd : Text) (fs : List Text) (r : Parsed) : Type 0 where
  pub ret_is : r.ret ≡ length fs
  pub command_is : command r ≡ cmd
  pub args_are : arg_list r 0 (length fs) ≡ map some fs

-- A message that `parseMessage` can hold: clean parts, and no more fields than `args` has entries.
pub record IsMessage (max_args separator : ℕ) (cmd : Text) (fs : List Text) : Type 0 where
  pub separates : IsSeparator separator
  pub command_clean : IsField separator cmd
  pub fields_clean : All (IsField separator) fs
  pub fits : length fs ≤ max_args
  pub small : length fs < 256

-- However many fields a message has, fewer than 256, the result counts them all, and `args` keeps
-- its size.
pub parse_message-sizes :
    (board : Board) (max_args separator : ℕ) (cmd : Text) (fs : List Text)
    → IsSeparator separator
    → IsField separator cmd
    → All (IsField separator) fs
    → length fs < 256
    → let r = parse_message board (message separator cmd fs) max_args separator in
      (r.ret ≡ length fs) × (length r.args ≡ max_args)
unfolding parse_message parse_from
parse_message-sizes board max_args separator cmd fs separates hc h small =
    rw (← append-nil (message separator cmd fs)) (
      rw
        (parse_from-message board max_args separator cmd fs (replicate max_args none) []
          (separator-ne separator separates).0 hc h)
        (
          omega (arith, small),
          length-fill max_args (length cmd) 0 (replicate max_args none) fs
              ∙ length-replicate max_args none,
        ))

module _ (board : Board) (max_args separator : ℕ) (cmd : Text) (fs : List Text)
    (ok : IsMessage max_args separator cmd fs) where
  abbrev filled : ℕ → List ℕ → Parsed
  filled r tail = record {
    ret = r;
    buffer = cmd ++ (nul_fields fs ++ tail);
    args = fill max_args (length cmd) 0 (replicate max_args none) fs;
  }

  filled_args :
      (r : ℕ) (tail : List ℕ)
      → IsEnd tail
      → (command (filled r tail) ≡ cmd) × (arg_list (filled r tail) 0 (length fs) ≡ map some fs)
  filled_args r tail end = (
    c_str-fields separator cmd fs tail end ok.command_clean,
    arg_list-map (filled r tail) 0 fs (λ i f e.
        arg-fill separator max_args tail end cmd 0 (replicate max_args none) fs r i f
          (length-replicate max_args none) ok.fields_clean
          (omega (arith, ok.fits, get_elem?-lt fs i f e, zero-add i)) e),
  )

  filled-Reads : (tail : List ℕ) → IsEnd tail → Reads cmd fs (filled (u8 (length fs)) tail)
  filled-Reads tail end = record {
    ret_is = omega (arith, ok.small);
    command_is = (filled_args (u8 (length fs)) tail end).0;
    args_are = (filled_args (u8 (length fs)) tail end).1;
  }

  -- A message without a checksum is read as its command and its fields, as many of them as `args`
  -- holds at most, and fewer than 256, all of them free of NUL, colon, mark and separator.
  pub parse_message-message :
      Reads cmd fs (parse_message board (message separator cmd fs) max_args separator)
  unfolding parse_message parse_from
  parse_message-message = rw (← append-nil (message separator cmd fs)) (
      rw
        (parse_from-message board max_args separator cmd fs (replicate max_args none) []
          (separator-ne separator ok.separates).0 ok.command_clean ok.fields_clean)
        (rw (append_assoc cmd (nul_fields fs) []) (filled-Reads [] tt)))

  module _ (p : Printer) (plain : IsPlain board (message separator cmd fs)) where
    -- The loop over a message with the number `n` behind its mark.
    parse_message-printed :
        (n : ℕ)
        → n < 65536
        → parse_message board (message separator cmd fs ++ b'|' ∷ p.hex n) max_args separator
          ≡ with_prefix (cmd ++ nul_fields fs) (
              if n == crc_of 0xffff (message separator cmd fs)
              then record {
                ret = u8 (length fs);
                buffer = 0 ∷ p.hex n;
                args = fill max_args (length cmd) 0 (replicate max_args none) fs;
              }
              else record {
                ret = 255;
                buffer = 0 ∷ p.hex n;
                args = fill max_args (length cmd) 0 (replicate max_args none) fs;
              })
    unfolding parse_message
    parse_message-printed n lt =
        let digits = hex_digits-IsField separator (p.hex n) ok.separates (p.hex_is_digits n) in
        rw (
          parse_from-message board max_args separator cmd fs (replicate max_args none)
              (b'|' ∷ p.hex n) (separator-ne separator ok.separates).0 ok.command_clean
              ok.fields_clean,
          parse_from-mark board max_args separator (length (message separator cmd fs))
              (crc_of 0xffff (map (widen board) (message separator cmd fs))) (length fs)
              (fill max_args (length cmd) 0 (replicate max_args none) fs) (p.hex n) ok.separates
              digits,
          plain,
          to_int-hex p board n lt,
          to_int-small board (crc_of 0xffff (message separator cmd fs))
              (crc_of-lt 0xffff (message separator cmd fs) (omega arith)),
        )

    -- With its checksum behind the mark, as a CheckStream sends it, a message `cmd:field,field,...`
    -- is read as its command and its fields: as many of them as `args` holds at most, and fewer
    -- than 256, all of them free of NUL, colon, mark and separator, and of characters that the
    -- board does not read as they are.
    pub parse_message-marked : Reads cmd fs (
        parse_message board
          (message separator cmd fs ++ b'|' ∷ p.hex (crc_of 0xffff (message separator cmd fs)))
          max_args
          separator)
    parse_message-marked =
        let crc = crc_of 0xffff (message separator cmd fs) in
        rw
          (
            parse_message-printed crc (crc_of-lt 0xffff (message separator cmd fs) (omega arith)),
            ==_refl crc,
          )
          (rw (append_assoc cmd (nul_fields fs) (0 ∷ p.hex crc))
            (filled-Reads (0 ∷ p.hex crc) refl))

    -- With any other 16-bit number behind the mark, in upper-case hexadecimal, the result is not
    -- negative: it is the byte 255, and the command and the fields stand all the same where the
    -- caller looks for them, under the conditions of a message with a right checksum.
    pub parse_message-mismatch :
        (n : ℕ)
        → n < 65536
        → n ≢ crc_of 0xffff (message separator cmd fs)
        → let r =
            parse_message board (message separator cmd fs ++ b'|' ∷ p.hex n) max_args separator in
          (r.ret ≡ 255) × (command r ≡ cmd) × (arg_list r 0 (length fs) ≡ map some fs)
    parse_message-mismatch n lt ne =
        let differs : (n == crc_of 0xffff (message separator cmd fs)) ≡ false = ground arith in
        rw (parse_message-printed n lt, differs)
          (rw (append_assoc cmd (nul_fields fs) (0 ∷ p.hex n))
            (refl, (filled_args 255 (0 ∷ p.hex n) refl).0, (filled_args 255 (0 ∷ p.hex n) refl).1))
