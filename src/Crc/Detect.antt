-- ===== src/Crc/Detect.antt =====
-- What the checksum detects: a round loses nothing of either input, so one wrong byte shows.
use sensaurus.Prelude.{
  ℕ, ◌/◌, ◌%◌, ◌<◌, bit_and, bit_xor, ◌≡◌, refl, sym, ap, ◌∙◌, arith, [], ◌∷◌, ◌++◌, u16, Text,
}
use sensaurus.Crc.{crc16_update, crc_of, IsBytes}
use sensaurus.Crc.Mix.{
  mix, bit_xor-lt, bit_xor-cancel_left, bit_xor-cancel_right, bit_and_low, mix_injective,
}

pub crc16_update-lt : (crc b : ℕ) → crc16_update crc b < 65536
unfolding crc16_update
crc16_update-lt crc b = omega arith

crc16_update-mix :
    (crc b : ℕ)
    → crc < 65536
    → b < 256
    → crc16_update crc b ≡ mix (crc / 256) (bit_xor b (crc % 256))
unfolding crc16_update mix
crc16_update-mix crc b hc hb =
    let low : bit_xor b (bit_and crc 0xFF) ≡ bit_xor b (crc % 256) =
      ap (bit_xor b) (bit_and_low crc hc) in
    let byte : u16 (bit_xor b (bit_and crc 0xFF)) ≡ bit_xor b (crc % 256) =
      omega (arith, low, bit_xor-lt b (crc % 256) hb (omega arith)) in
    rw byte

-- For a given checksum, different data bytes give different checksums.
pub crc16_update-cancel_data :
    (crc a b : ℕ)
    → crc < 65536
    → a < 256
    → b < 256
    → crc16_update crc a ≡ crc16_update crc b
    → a ≡ b
crc16_update-cancel_data crc a b hc ha hb e =
    let low : crc % 256 < 256 = omega arith in
    let high : crc / 256 < 256 = omega arith in
    let mixed =
      mix_injective (crc / 256) _ (crc / 256) _ high (bit_xor-lt a _ ha low) high
        (bit_xor-lt b _ hb low)
        (sym (crc16_update-mix crc a hc ha) ∙ e ∙ crc16_update-mix crc b hc hb) in
    bit_xor-cancel_right a b (crc % 256) ha hb low mixed.1

-- For a given data byte, different checksums give different checksums.
pub crc16_update-cancel_crc :
    (c d b : ℕ) → c < 65536 → d < 65536 → b < 256 → crc16_update c b ≡ crc16_update d b → c ≡ d
crc16_update-cancel_crc c d b hc hd hb e =
    let mixed =
      mix_injective (c / 256) _ (d / 256) _ (omega arith) (bit_xor-lt b (c % 256) hb (omega arith))
        (omega arith) (bit_xor-lt b (d % 256) hb (omega arith))
        (sym (crc16_update-mix c b hc hb) ∙ e ∙ crc16_update-mix d b hd hb) in
    let low = bit_xor-cancel_left b (c % 256) (d % 256) hb (omega arith) (omega arith) mixed.1 in
    omega (arith, mixed.0, low)

pub crc_of-lt : (crc : ℕ) (m : Text) → crc < 65536 → crc_of crc m < 65536
crc_of-lt crc [] h = h
crc_of-lt crc (b ∷ m) h = crc_of-lt (crc16_update crc b) m (crc16_update-lt crc b)

pub crc_of-append : (crc : ℕ) (m n : Text) → crc_of crc (m ++ n) ≡ crc_of (crc_of crc m) n
crc_of-append crc [] n = refl
crc_of-append crc (b ∷ m) n = crc_of-append (crc16_update crc b) m n

crc_of-cancel :
    (c d : ℕ) (m : Text) → c < 65536 → d < 65536 → IsBytes m → crc_of c m ≡ crc_of d m → c ≡ d
crc_of-cancel c d [] hc hd h e = e
crc_of-cancel c d (b ∷ m) hc hd h e = crc16_update-cancel_crc c d b hc hd h.0 (
    crc_of-cancel (crc16_update c b) (crc16_update d b) m (crc16_update-lt c b)
      (crc16_update-lt d b) h.1 e)

-- Two texts that differ in one byte have different checksums from the same start, whatever stands
-- before that byte and whatever bytes stand behind it: texts with the same checksum have the same
-- byte there.
pub crc_of-detects :
    (crc : ℕ) (before after : Text) (a b : ℕ)
    → crc < 65536
    → IsBytes after
    → a < 256
    → b < 256
    → crc_of crc (before ++ a ∷ after) ≡ crc_of crc (before ++ b ∷ after)
    → a ≡ b
crc_of-detects crc before after a b hc h ha hb e =
    let c = crc_of crc before in
    crc16_update-cancel_data c a b (crc_of-lt crc before hc) ha hb (
      crc_of-cancel _ _ after (crc16_update-lt c a) (crc16_update-lt c b) h
        (sym (crc_of-append crc before (a ∷ after)) ∙ e ∙ crc_of-append crc before (b ∷ after)))
