-- ===== src/Crc/Tests.antt =====
-- Runs of the checksum, and its theorem at a message of the protocol.
use sensaurus.Prelude.{◌≡◌, refl}
use sensaurus.Crc.{crc16_update}

one_byte : crc16_update 0xffff b'v' ≡ 0x1936
unfolding crc16_update
one_byte = refl
