-- ===== src/Sensaur.antt =====
-- libraries/Sensaur/Sensaur.cpp: the messages of the serial protocol and the identity of a device.
pub mod Checksum
pub mod Parse
pub mod Shape
mod Tests
use sensaurus.Prelude.{
  ℕ, zero, suc, ◌+◌, ◌-◌, ◌*◌, ◌%◌, ◌^◌, Bool, true, false, ◌&&◌, ◌||◌, not, List, [], ◌∷◌, ◌++◌,
  Option, none, some, set, replicate, drop, get_elem?, ltb, ◌==◌, if◌then◌else◌, Text, u16, u8, u32,
}
use sensaurus.CText.{c_str, strtol_hex}
use sensaurus.Crc.{crc16_update}

-- The two boards: the devices' AVR has signed characters and 16-bit integers, the hub's ESP32 has
-- unsigned characters and 32-bit integers.
pub data Board : Type 0 where
  avr esp32 : Board

-- A `char` as the `uint16_t` argument of `crc16_update`.
abbrev pub widen : Board → ℕ → ℕ
widen avr c = if ltb c 128 then c else c + 0xFF00
widen esp32 c = c

-- The bits of an `int`.
abbrev pub to_int : Board → ℕ → ℕ
to_int avr n = u16 n
to_int esp32 n = u32 n

-- The result, and the message behind it: cut off before the mark on request.
pub check_from : Board → Bool → ℕ → Text → Bool × Text
check_from board remove crc [] = (false, [])
check_from board remove crc (c ∷ cs) =
    let (good, rest) = check_from board remove (crc16_update crc (widen board c)) cs in
    if c == b'|'
    then (u16 (strtol_hex cs) == crc, if remove then [] else c ∷ cs)
    else (good, c ∷ rest)

unfoldable pub checksum_ok : Board → Text → Bool → Bool × Text
unfolding check_from
checksum_ok board message remove = check_from board remove 0xffff message

-- What `parseMessage` leaves: its `byte` result, the buffer with NULs written into it, and the
-- offsets that it stored in `args`, where `none` is an entry that it did not write.
pub record Parsed : Type 0 where
  pub ret : ℕ
  pub buffer : List ℕ
  pub args : List (Option ℕ)

abbrev pub store_arg : Bool → List (Option ℕ) → ℕ → ℕ → List (Option ℕ)
store_arg fits args i pos = if fits then set args i (some (pos + 1)) else args

abbrev pub cons_buffer : ℕ → Parsed → Parsed
cons_buffer b r = record r { buffer = b ∷ r.buffer }

pub parse_from : Board → ℕ → ℕ → ℕ → ℕ → ℕ → List (Option ℕ) → Text → Parsed
parse_from board max_args separator pos crc arg_count args [] = record {
  ret = u8 arg_count;
  buffer = [];
  args = args;
}
parse_from board max_args separator pos crc arg_count args (c ∷ cs) =
    let go =
      parse_from board max_args separator (pos + 1) (crc16_update crc (widen board c))
        (if c == b':' || c == separator then arg_count + 1 else arg_count)
        (if c == b':'
          then store_arg (not (max_args == 0)) args 0 pos
          else if c == separator
          then store_arg (ltb arg_count max_args) args arg_count pos
          else args)
        cs in
    if c == b':' || c == separator
    then cons_buffer 0 go
    else if c == b'|'
    then (if to_int board (strtol_hex cs) == to_int board crc
        then cons_buffer 0 go
        else record { ret = 255; buffer = 0 ∷ cs; args = args })
    else cons_buffer c go

-- `args` has `max_args` entries, none of which is set at the start.
unfoldable pub parse_message : Board → Text → ℕ → ℕ → Parsed
unfolding parse_from
parse_message board message max_args separator =
    parse_from board max_args separator 0 0xffff 0 (replicate max_args none) message

-- The string that a pointer into the message reads.
abbrev pub at_offset : List ℕ → ℕ → Text
at_offset buffer pos = c_str (drop pos buffer)

-- The `i`-th argument as its string; `none` for a pointer that was never set.
unfoldable pub arg : Parsed → ℕ → Option Text
unfolding c_str
arg r i = elim (get_elem? r.args i) [ some (some pos) ↦ some (at_offset r.buffer pos) | _ ↦ none ]

-- The string at `*command`.
abbrev pub command : Parsed → Text
command r = c_str r.buffer
