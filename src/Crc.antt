-- ===== src/Crc.antt =====
-- `crc16_update` of libraries/CheckStream/CheckStream.cpp: the checksum of the serial protocol.
mod Mix
pub mod Detect
mod Tests
use sensaurus.Prelude.{
  ℕ, ◌+◌, ◌*◌, ◌/◌, ◌%◌, ◌^◌, ◌<◌, bit_and, bit_or, bit_xor, ◌≡◌, refl, List, [], ◌∷◌, u16, ◌<<<◌,
  ◌>>>◌, Text, All,
}

-- Each assignment to `data` and the return wrap to 16 bits.
unfoldable pub crc16_update : ℕ → ℕ → ℕ
crc16_update crc datum =
    let d1 = u16 (bit_xor datum (bit_and crc 0xFF)) in
    let d2 = u16 (bit_xor d1 (bit_and (d1 <<< 4) 0xFF)) in
    u16 (
      bit_xor (bit_xor (bit_or (bit_and (d2 <<< 8) 0xFFFF) (bit_and (crc >>> 8) 0xFF)) (d2 >>> 4))
        (d2 <<< 3))

-- The checksum of a text from a start value: the loop that CheckStream and checksumOk share.
abbrev pub crc_of : ℕ → Text → ℕ
crc_of crc [] = crc
crc_of crc (b ∷ m) = crc_of (crc16_update crc b) m

abbrev pub IsBytes : Text → Type 0
IsBytes m = All (λ b. b < 256) m
